-- ===== src/Export/Blocks.antt =====
-- The blocks of the jump heap that the patches of a list own, counted.
use function_patcher_module.Base.{
  ℕ, ◌+◌, ◌-◌, true, false, List, [], ◌∷◌, ◌++◌, ◌≡◌, ◌≢◌, refl, ap, arith, Bool-cases, inl, inr,
  ◌==◌, contains, count, ==-eq, ==-self,
}
use function_patcher_module.Patch.{Patch, remove}
use function_patcher_module.PatchedFunctionData.Make.{destroy}
use function_patcher_module.PatchedFunctionData.Buffers.{blocks_over}
use function_patcher_module.FunctionPatcher.Setup.{SameSetup}

-- The blocks of all patches of a list.
abbrev pub owned : (ℕ → Patch) → List ℕ → List ℕ
owned objects [] = []
owned objects (a ∷ rest) = blocks_over (objects a) (owned objects rest)

-- How often a patch owns a block.
abbrev pub share : ℕ → Patch → ℕ
share b d = count b (blocks_over d [])

pub count-blocks_over :
    (b : ℕ) (d : Patch) (heap : List ℕ) → count b (blocks_over d heap) ≡ share b d + count b heap
count-blocks_over b d heap = ground arith

pub count-remove :
    (b a : ℕ) (heap : List ℕ) → count b (remove a heap) ≡ count b heap - count b (a ∷ [])
count-remove b a [] = ground arith
count-remove b a (x ∷ heap) = ground (arith, count-remove b a heap)

pub count-destroy :
    (b : ℕ) (d : Patch) (heap : List ℕ) → count b (destroy d heap) ≡ count b heap - share b d
unfolding destroy
count-destroy b d heap = ground (
  arith,
  count-remove b d.jump_to_original heap,
  count-remove b d.jump_data heap,
  count-remove b d.jump_data (remove d.jump_to_original heap),
)

pub owned-same :
    (objects objects' : ℕ → Patch) (xs : List ℕ)
    → ((a : ℕ) → SameSetup (objects a) (objects' a))
    → owned objects' xs ≡ owned objects xs
owned-same objects objects' [] same = refl
owned-same objects objects' (a ∷ xs) same =
    rw ((same a).jump_data, (same a).jump_to_original)
      (ap (blocks_over (objects a)) (owned-same objects objects' xs same))

pub owned-others :
    (objects objects' : ℕ → Patch) (h : ℕ) (xs : List ℕ)
    → contains xs h ≡ false
    → ((a : ℕ) → a ≢ h → objects' a ≡ objects a)
    → owned objects' xs ≡ owned objects xs
owned-others objects objects' h [] new same = refl
owned-others objects objects' h (a ∷ xs) new same =
    rw (same a (ground arith))
      (ap (blocks_over (objects a)) (owned-others objects objects' h xs (ground arith) same))

pub count-owned-append :
    (b : ℕ) (objects : ℕ → Patch) (xs : List ℕ) (h : ℕ)
    → count b (owned objects (xs ++ h ∷ [])) ≡ count b (owned objects xs) + share b (objects h)
count-owned-append b objects [] h = omega arith
count-owned-append b objects (a ∷ xs) h = omega (
  arith,
  count-owned-append b objects xs h,
  count-blocks_over b (objects a) (owned objects xs),
  count-blocks_over b (objects a) (owned objects (xs ++ h ∷ [])),
)

pub count-owned-remove :
    (b : ℕ) (objects : ℕ → Patch) (h : ℕ) (xs : List ℕ)
    → contains xs h ≡ true
    → count b (owned objects xs) ≡ share b (objects h) + count b (owned objects (remove h xs))
count-owned-remove b objects h [] known = cc
count-owned-remove b objects h (a ∷ xs) known = elim (Bool-cases (a == h)) [
  | inl here ↦ rw (==-eq a h here, ==-self h) (count-blocks_over b (objects h) (owned objects xs))
  | inr there ↦ rw there (
      omega (
        arith,
        count-owned-remove b objects h xs (ground arith),
        count-blocks_over b (objects a) (owned objects xs),
        count-blocks_over b (objects a) (owned objects (remove h xs)),
      ))
]
