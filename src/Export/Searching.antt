-- ===== src/Export/Searching.antt =====
-- What the loop of `FPRemoveFunctionPatch` finds.
use mathlib.Core.List.{append_assoc, append-nil}
use function_patcher_module.Base.{
  ℕ, suc, ◌+◌, true, false, none, some, List, [], ◌∷◌, ◌++◌, ◌≡◌, refl, ◌∙◌, ap, arith, Bool-cases,
  inl, inr, ◌==◌, ==-eq, contains, if◌then◌else◌,
}
use function_patcher_module.Patch.{Patch, remove}
use function_patcher_module.Export.Remove.{Search, search_patch, erase_at}

-- How many patches stand before the first with the handle.
abbrev pub index : ℕ → List ℕ → ℕ
index handle [] = 0
index handle (a ∷ xs) = if a == handle then 0 else suc (index handle xs)

pub erase_at-index : (handle : ℕ) (xs : List ℕ) → erase_at (index handle xs) xs ≡ remove handle xs
erase_at-index handle [] = refl
erase_at-index handle (a ∷ xs) = elim (Bool-cases (a == handle)) [
  | inl here ↦ rw here refl
  | inr there ↦ rw there (ap (◌∷◌ a) (erase_at-index handle xs))
]

-- The patches of the function at `x` that stand in the list, but for the one with the handle.
abbrev pub same_function : (ℕ → Patch) → ℕ → ℕ → List ℕ → List ℕ
same_function objects handle x [] = []
same_function objects handle x (a ∷ xs) =
    let rest = same_function objects handle x xs in
    if a == handle
    then rest
    else if (objects a).real_physical_function_address == x
    then a ∷ rest
    else rest

-- The list behind the first patch with the handle.
abbrev pub behind : ℕ → List ℕ → List ℕ
behind handle [] = []
behind handle (a ∷ xs) = let rest = behind handle xs in if a == handle then xs else rest

module _ (objects : ℕ → Patch) (handle : ℕ) where
  abbrev pub physical : ℕ
  physical = (objects handle).real_physical_function_address

  -- The loop once the patch has been found, and it is applied.
  search_patch-some :
      (applied : (objects handle).is_patched ≡ true) (xs : List ℕ) (later : List ℕ) (i : ℕ)
      → search_patch objects handle xs
          (record { to_be_removed = some handle; to_be_temp_restored = later; erase_position = i })
        ≡ record {
          to_be_removed = some handle;
          to_be_temp_restored = later ++ same_function objects handle physical xs;
          erase_position = i;
        }
  unfolding search_patch
  search_patch-some applied [] later i = rw append-nil
  search_patch-some applied (a ∷ xs) later i = elim (Bool-cases (a == handle)) [
    | inl here ↦
        let e : a ≡ handle = ==-eq a handle here in
        rw (here, e, applied) (search_patch-some applied xs later i)
    | inr there ↦ elim (Bool-cases ((objects a).real_physical_function_address == physical)) [
      | inl same ↦
          rw (there, same)
            (search_patch-some applied xs (later ++ a ∷ []) i
              ∙ ap
                  (λ l. record {
                    to_be_removed = some handle;
                    to_be_temp_restored = l;
                    erase_position = i;
                  })
                  (append_assoc later (a ∷ []) _))
      | inr other ↦ rw (there, other) (search_patch-some applied xs later i)
    ]
  ]

  abbrev pub searching : ℕ → Search
  searching i = record { to_be_removed = none; to_be_temp_restored = []; erase_position = i }

  -- The later patches of the function, where the patch is applied.
  abbrev pub later_patches : List ℕ → List ℕ
  later_patches xs =
      if (objects handle).is_patched
      then same_function objects handle physical (behind handle xs)
      else []

  pub search_patch-absent :
      (xs : List ℕ) (i : ℕ)
      → contains xs handle ≡ false
      → (search_patch objects handle xs (searching i)).to_be_removed ≡ none
  unfolding search_patch
  search_patch-absent [] i h = refl
  search_patch-absent (a ∷ xs) i h = elim (Bool-cases (a == handle)) [
    | inl here ↦ absurd (ground arith)
    | inr there ↦ rw there (search_patch-absent xs (i + 1) (ground arith))
  ]

  pub search_patch-present :
      (xs : List ℕ) (i : ℕ)
      → contains xs handle ≡ true
      → search_patch objects handle xs (searching i) ≡ record {
        to_be_removed = some handle;
        to_be_temp_restored = later_patches xs;
        erase_position = i + index handle xs;
      }
  unfolding search_patch
  search_patch-present [] i h = cc
  search_patch-present (a ∷ xs) i h = elim (Bool-cases (a == handle)) [
    | inl here ↦ elim (Bool-cases (objects handle).is_patched) [
      | inl applied ↦ ground (arith, search_patch-some applied xs [] i)
      | inr not_applied ↦ ground arith
    ]
    | inr there ↦ ground (arith, search_patch-present xs (i + 1))
  ]
