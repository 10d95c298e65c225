-- ===== src/Callers/Lists.antt =====
-- Threads by number, and sums over all threads.
use function_patcher_module.Base.{
  ℕ, zero, suc, ◌+◌, ◌≤◌, some, List, [], ◌∷◌, ◌++◌, ◌≡◌, ◌==◌, if◌then◌else◌, refl, arith,
  get_elem?, count,
}
use function_patcher_module.Callers.{Pc, put, held, handle_of, held_handles}

pub get_elem?-put :
    (xs : List Pc) (i : ℕ) (pc pc' : Pc)
    → get_elem? xs i ≡ some pc
    → (j : ℕ) → get_elem? (put xs i pc') j ≡ (if i == j then some pc' else get_elem? xs j)
get_elem?-put [] i pc pc' h j = cc
get_elem?-put (x ∷ xs) zero pc pc' h zero = refl
get_elem?-put (x ∷ xs) zero pc pc' h (suc j) = ground arith
get_elem?-put (x ∷ xs) (suc i) pc pc' h zero = ground arith
get_elem?-put (x ∷ xs) (suc i) pc pc' h (suc j) = ground (arith, get_elem?-put xs i pc pc' h j)

abbrev pub total : (Pc → ℕ) → List Pc → ℕ
total w [] = 0
total w (x ∷ xs) = w x + total w xs

-- What one thread's move changes in a sum.
pub total-put :
    (w : Pc → ℕ) (xs : List Pc) (i : ℕ) (pc pc' : Pc)
    → get_elem? xs i ≡ some pc
    → total w (put xs i pc') + w pc ≡ total w xs + w pc'
total-put w [] i pc pc' h = cc
total-put w (x ∷ xs) zero pc pc' h = ground arith
total-put w (x ∷ xs) (suc i) pc pc' h = omega (arith, total-put w xs i pc pc' h)

-- A list's elements are those of its two parts.
pub count-parts :
    (first rest : List ℕ) (a : ℕ) → count a first + count a rest ≡ count a (first ++ rest)
count-parts [] rest a = omega arith
count-parts (x ∷ first) rest a = ground (arith, count-parts first rest a)

-- How often a thread is the only one to have a pointer to the object.
abbrev pub holds : ℕ → Pc → ℕ
holds a pc = count a (handle_of (held pc))

count-held_handles : (a : ℕ) (xs : List Pc) → count a (held_handles xs) ≡ total (holds a) xs
count-held_handles a [] = refl
count-held_handles a (x ∷ xs) =
    omega (arith, count-parts (handle_of (held x)) (held_handles xs) a, count-held_handles a xs)

pub count-live :
    (a : ℕ) (xs : List ℕ) (threads : List Pc)
    → count a (xs ++ held_handles threads) ≡ count a xs + total (holds a) threads
count-live a xs threads =
    omega (arith, count-parts xs (held_handles threads) a, count-held_handles a threads)

-- One thread's part of a sum.
pub total-le :
    (w : Pc → ℕ) (xs : List Pc) (i : ℕ) (pc : Pc) → get_elem? xs i ≡ some pc → w pc ≤ total w xs
total-le w [] i pc h = absurd (cc)
total-le w (x ∷ xs) zero pc h = ground arith
total-le w (x ∷ xs) (suc i) pc h = omega (arith, total-le w xs i pc h)

-- A sum of zeros.
pub total-zero :
    (w : Pc → ℕ) (xs : List Pc)
    → ((i : ℕ) (pc : Pc) → get_elem? xs i ≡ some pc → w pc ≡ 0)
    → total w xs ≡ 0
total-zero w [] none_counts = refl
total-zero w (x ∷ xs) none_counts =
    omega (arith, none_counts 0 x refl, total-zero w xs (λ i pc at. none_counts (suc i) pc at))
