-- ===== src/Main/StillInMemory.antt =====
-- `CheckIfPatchedFunctionsAreStillInMemory` against its specification.
use function_patcher_module.Base.{
  ℕ, Bool, true, false, Option, none, some, List, [], ◌∷◌, ◌&&◌, ◌==◌, ◌≡◌, ◌≢◌, refl,
  if◌then◌else◌, contains, arith, ◌∙◌, ap,
}
use function_patcher_module.Platform.{Platform, Memory}
use function_patcher_module.Patch.{Patch, State}
use function_patcher_module.Utils.{IsPlatform, local_to_physical, read_from_physical_address}
use function_patcher_module.FunctionPatcher.Patching.{
  read_from_physical_address-some, read_from_physical_address_lem,
}
use mathlib.Core.List.{reverse}
use function_patcher_module.Main.{
  Check, unpatch, check_read, check_patch, check_patches,
  check_if_patched_functions_are_still_in_memory,
}

-- Whether the first applied patch of the function at `x`, in this order, is still in the memory.
-- A function with no applied patch counts as intact.
unfoldable pub is_intact : Memory → (ℕ → Patch) → List ℕ → ℕ → Bool
is_intact m objects [] x = true
is_intact m objects (a ∷ rest) x =
    if (objects a).is_patched && (objects a).real_physical_function_address == x
    then m x == (objects a).replace_with_instruction
    else is_intact m objects rest x

-- What is known of the function at `x` before the rest of the list.
abbrev pub verdict : Memory → Check → List ℕ → ℕ → Bool
verdict m c rest x =
    if contains c.unchanged x
    then true
    else if contains c.changed x
    then false
    else is_intact m c.objects rest x

is_intact-unpatch :
    (m : Memory) (objects : ℕ → Patch) (b : ℕ) (rest : List ℕ) (x : ℕ)
    → (objects b).real_physical_function_address ≢ x
    → is_intact m (unpatch objects b) rest x ≡ is_intact m objects rest x
unfolding is_intact
is_intact-unpatch m objects b [] x far = refl
is_intact-unpatch m objects b (a ∷ rest) x far =
    ground (arith, is_intact-unpatch m objects b rest x far)

-- The memory is `m` but for the local variable into which the instructions are read, and no
-- function lies there.
pub record IsView (p : Platform) (m : Memory) (c : Check) : Type 0 where
  pub agrees : (x : ℕ) → x ≢ p.mmu p.current_instruction_address → c.memory x ≡ m x
  pub far :
      (a : ℕ) → (c.objects a).real_physical_function_address ≢ p.mmu p.current_instruction_address

module _ (p : Platform) (laws : IsPlatform p)
    (can_read : local_to_physical p p.current_instruction_address ≢ 0) (m : Memory) where
  abbrev read : Check → ℕ → Option ℕ × Memory
  read c b = read_from_physical_address p c.memory (c.objects b).real_physical_function_address

  read_lem :
      (c : Check) (b : ℕ)
      → IsView p m c
      → (read c b).0 ≡ some (m (c.objects b).real_physical_function_address)
  read_lem c b v =
      read_from_physical_address-some p laws c.memory _ can_read ∙ ap some (v.agrees _ (v.far b))

  -- The body's last branch, at an instruction that was read.
  check_read-cases :
      (c : Check) (b : ℕ) (r : Option ℕ × Memory) (w : ℕ)
      → r.0 ≡ some w
      → check_read p c b r ≡ (
          if w == (c.objects b).replace_with_instruction
          then record c {
            memory = r.1;
            unchanged = (c.objects b).real_physical_function_address ∷ c.unchanged;
          }
          else record c {
            memory = r.1;
            objects = unpatch c.objects b;
            changed = (c.objects b).real_physical_function_address ∷ c.changed;
          })
  unfolding check_read
  check_read-cases c b (none, m') w e = cc
  check_read-cases c b (some w', m') w e = let same : w' ≡ w = ground arith in rw same

  -- One round turns the verdict on the list into that on its rest.
  check_patch-verdict :
      (c : Check) (b : ℕ) (rest : List ℕ) (x : ℕ)
      → IsView p m c
      → verdict m (check_patch p c b) rest x ≡ verdict m c (b ∷ rest) x
  unfolding check_patch is_intact
  check_patch-verdict c b rest x v = ground (
    arith,
    read_lem c b v,
    check_read-cases c b (read c b) (m (c.objects b).real_physical_function_address)
        (read_lem c b v),
    is_intact-unpatch m c.objects b rest x,
  )

  -- One round clears the flag of its own patch exactly where the verdict is against it.
  check_patch-is_patched :
      (c : Check) (a b : ℕ) (rest : List ℕ)
      → IsView p m c
      → ((check_patch p c b).objects a).is_patched ≡ (
          if b == a
          then (c.objects a).is_patched
            && verdict m c (b ∷ rest) (c.objects a).real_physical_function_address
          else (c.objects a).is_patched)
  unfolding check_patch is_intact
  check_patch-is_patched c a b rest v = ground (
    arith,
    read_lem c b v,
    check_read-cases c b (read c b) (m (c.objects b).real_physical_function_address)
        (read_lem c b v),
  )

  check_patch-physical :
      (c : Check) (a b : ℕ)
      → IsView p m c
      → ((check_patch p c b).objects a).real_physical_function_address
        ≡ (c.objects a).real_physical_function_address
  unfolding check_patch
  check_patch-physical c a b v = ground (
    arith,
    read_lem c b v,
    check_read-cases c b (read c b) (m (c.objects b).real_physical_function_address)
        (read_lem c b v),
  )

  check_patch-memory :
      (c : Check) (b x : ℕ)
      → IsView p m c
      → x ≢ p.mmu p.current_instruction_address
      → (check_patch p c b).memory x ≡ m x
  unfolding check_patch
  check_patch-memory c b x v h = ground (
    arith,
    read_lem c b v,
    check_read-cases c b (read c b) (m (c.objects b).real_physical_function_address)
        (read_lem c b v),
    (read_from_physical_address_lem p laws c.memory _ _ (read_lem c b v)).1 x h,
    v.agrees x h,
  )

  check_patch-IsView : (c : Check) (b : ℕ) → IsView p m c → IsView p m (check_patch p c b)
  check_patch-IsView c b v = record {
    agrees = λ x h. check_patch-memory c b x v h;
    far = λ a. rw (check_patch-physical c a b v) (v.far a);
  }

  check_patches-is_patched :
      (rest : List ℕ) (c : Check) (a : ℕ)
      → IsView p m c
      → ((check_patches p rest c).objects a).is_patched ≡ (
          if contains rest a
          then (c.objects a).is_patched
            && verdict m c rest (c.objects a).real_physical_function_address
          else (c.objects a).is_patched)
  unfolding check_patches
  check_patches-is_patched [] c a v = refl
  check_patches-is_patched (b ∷ rest) c a v = ground (
    arith,
    check_patches-is_patched rest (check_patch p c b) a (check_patch-IsView c b v),
    check_patch-physical c a b v,
    check_patch-is_patched c a b rest v,
    check_patch-verdict c b rest (c.objects a).real_physical_function_address v,
  )

module _ (p : Platform) (laws : IsPlatform p)
    (can_read : local_to_physical p p.current_instruction_address ≢ 0) (m : Memory) where
  check_patches-IsView :
      (rest : List ℕ) (c : Check) → IsView p m c → IsView p m (check_patches p rest c)
  unfolding check_patches
  check_patches-IsView [] c v = v
  check_patches-IsView (b ∷ rest) c v =
      check_patches-IsView rest (check_patch p c b) (check_patch-IsView p laws can_read m c b v)

-- The check writes to no word but the local variable that instructions are read into.
pub check-memory :
    (p : Platform)
    → IsPlatform p
    → local_to_physical p p.current_instruction_address ≢ 0
    → (s : State)
    → ((a : ℕ) → (s.objects a).real_physical_function_address ≢ p.mmu p.current_instruction_address)
    → (x : ℕ) → x ≢ p.mmu p.current_instruction_address
    → (check_if_patched_functions_are_still_in_memory p s).machine.memory x ≡ s.machine.memory x
unfolding check_if_patched_functions_are_still_in_memory
check-memory p laws can_read s far x =
    (check_patches-IsView p laws can_read s.machine.memory (reverse s.patched_functions) _
        (record { agrees = λ x h. refl; far = far })).agrees
      x

-- After the check a patch of the list counts as applied exactly where it did before and the last
-- applied patch of its function still stands in the memory. Every other patch keeps its flag. The
-- local variable that instructions are read into has a physical address, and no patch's function
-- lies there.
pub check_if_patched_functions_are_still_in_memory_lem :
    (p : Platform)
    → IsPlatform p
    → local_to_physical p p.current_instruction_address ≢ 0
    → (s : State)
    → ((a : ℕ) → (s.objects a).real_physical_function_address ≢ p.mmu p.current_instruction_address)
    → (a : ℕ)
    → ((check_if_patched_functions_are_still_in_memory p s).objects a).is_patched ≡ (
        if contains (reverse s.patched_functions) a
        then (s.objects a).is_patched
          && is_intact s.machine.memory s.objects
              (reverse s.patched_functions)
              (s.objects a).real_physical_function_address
        else (s.objects a).is_patched)
unfolding check_if_patched_functions_are_still_in_memory
check_if_patched_functions_are_still_in_memory_lem p laws can_read s far a =
    check_patches-is_patched p laws can_read s.machine.memory (reverse s.patched_functions) _ a
      (record { agrees = λ x h. refl; far = far })
