-- ===== src/Callers/Waiting.antt =====
-- Which thread another one waits for at `gPatchedFunctionsMutex`.
use function_patcher_module.Base.{
  ℕ, suc, ◌<◌, some, List, [], ◌∷◌, ◌≡◌, ◌≢◌, ◌⊎◌, inl, inr, ◌==◌, refl, arith, get_elem?,
  Bool-cases, ==-eq,
}
use function_patcher_module.Callers.{
  Pc, MayLock, Locks, System, SystemStep, works, locks, unlocks, Interleaving, not_begun, and_then,
}
use function_patcher_module.Callers.Lists.{total, total-put, total-le, total-zero}
use function_patcher_module.Callers.Exclusion.{guards, Work-guards, Locks-guards, Unlocks-guards}
use function_patcher_module.Callers.Iteration.{IsOutside, outside-IsGuarded, Interleaving-IsGuarded}

-- The mutex is locked as often as all threads together have guards open.
abbrev IsAccounted : System → Type 0
IsAccounted y = y.mutex.depth ≡ total guards y.threads

SystemStep-IsAccounted : {y z : System} → SystemStep y z → IsAccounted y → IsAccounted z
SystemStep-IsAccounted {y} (works i pc s pc' at work) accounted =
    omega (arith, accounted, total-put guards y.threads i pc pc' at, Work-guards work)
SystemStep-IsAccounted {y} (locks i pc pc' at step free) accounted =
    omega (arith, accounted, total-put guards y.threads i pc pc' at, Locks-guards step)
SystemStep-IsAccounted {y} (unlocks i pc pc' at step) accounted = omega (
  arith,
  accounted,
  total-put guards y.threads i pc pc' at,
  total-le guards y.threads i pc at,
  Unlocks-guards step,
)

Interleaving-IsAccounted : {y z : System} → Interleaving y z → IsAccounted y → IsAccounted z
Interleaving-IsAccounted (not_begun y) accounted = accounted
Interleaving-IsAccounted (and_then steps step) accounted =
    SystemStep-IsAccounted step (Interleaving-IsAccounted steps accounted)

-- Where a sum is not 0, some thread has a part in it.
total-some :
    (w : Pc → ℕ) (xs : List Pc)
    → 0 < total w xs
    → (i : ℕ) × (pc : Pc) × (get_elem? xs i ≡ some pc) × (0 < w pc)
total-some w [] positive = absurd (omega arith)
total-some w (x ∷ xs) positive = elim (Bool-cases (w x == 0)) [
  | inl nothing ↦ let (i, pc, at, part) = total-some w xs (ground arith) in (suc i, pc, at, part)
  | inr something ↦ (0, x, refl, ground arith)
]

-- A thread with an open guard, which may lock the mutex again.
pub record IsHolder (y : System) (j : ℕ) (pc : Pc) : Type 0 where
  pub stands : get_elem? y.threads j ≡ some pc
  pub open_guard : 0 < guards pc
  pub may_lock : MayLock j y.mutex

-- In whatever order the threads go on, from a state with none of them in the module: a thread that is
-- to lock the mutex may lock it, or another thread has an open guard, and that one may lock the mutex
-- again; so no thread waits for one that waits.
pub Interleaving-waiting :
    {y z : System}
    → Interleaving y z
    → IsOutside y
    → (i : ℕ) (pc pc' : Pc) → get_elem? z.threads i ≡ some pc
    → Locks pc pc'
    → MayLock i z.mutex ⊎ ((j : ℕ) × (pc'' : Pc) × (j ≢ i) × IsHolder z j pc'')
Interleaving-waiting {y} {z} steps outside i pc pc' at step =
    let after = Interleaving-IsGuarded steps (outside-IsGuarded y outside) in
    let none_open =
      total-zero guards y.threads (λ k q stands. ground (arith, outside.threads k q stands)) in
    let accounted = Interleaving-IsAccounted steps (omega (arith, outside.free, none_open)) in
    elim (Bool-cases (z.mutex.depth == 0)) [
      | inl free ↦ inl (inl (==-eq z.mutex.depth 0 free))
      | inr taken ↦ elim (Bool-cases (z.mutex.owner == i)) [
        | inl mine ↦ inl (inr (==-eq z.mutex.owner i mine))
        | inr theirs ↦
            let (j, q, stands, open_guard) = total-some guards z.threads (ground arith) in
            let owner : z.mutex.owner ≡ j = ground (arith, after.exclusive j q stands) in
            let holder : IsHolder z j q = record {
              stands = stands;
              open_guard = open_guard;
              may_lock = inr owner;
            } in
            inr (j, q, (λ same. ground arith), holder)
      ]
    ]
