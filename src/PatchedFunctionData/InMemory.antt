-- ===== src/PatchedFunctionData/InMemory.antt =====
-- Lists of words as code in memory.
use function_patcher_module.Base.{
  ℕ, ◌+◌, ◌*◌, ◌<◌, List, [], ◌∷◌, ◌≡◌, ◌≢◌, arith, refl, ◌∙◌, ap, length, suc,
}
use function_patcher_module.Platform.{Platform, Memory, write}
use function_patcher_module.Ppc.{Code, Lies}
use function_patcher_module.PatchedFunctionData.Jumps.{write_words}

-- What the processor sees of a memory, with data and the other instructions as `k` has them.
abbrev pub code_in : Platform → Code → Memory → Code
code_in p k m = record k { fetch = λ a. m (p.mmu a) }

-- A block of words that follow each other in physical memory too.
abbrev pub IsContiguous : Platform → ℕ → ℕ → Type 0
IsContiguous p base words = (i : ℕ) → i < words → p.mmu (base + 4 * i) ≡ p.mmu base + 4 * i

-- No word of a block lies at this physical address.
abbrev pub IsClear : Platform → ℕ → ℕ → ℕ → Type 0
IsClear p base words x = (i : ℕ) → i < words → p.mmu (base + 4 * i) ≢ x

module _ (p : Platform) where
  IsContiguous-next : (base n : ℕ) → IsContiguous p base (suc n) → IsContiguous p (base + 4) n
  IsContiguous-next base n h i lt =
      let e : base + 4 + 4 * i ≡ base + 4 * suc i = omega arith in
      let first = h 1 (omega arith) in ap p.mmu e ∙ h (suc i) (omega arith) ∙ omega (arith, first)

  pub IsClear-next : (base n x : ℕ) → IsClear p base (suc n) x → IsClear p (base + 4) n x
  IsClear-next base n x h i lt =
      let e : base + 4 + 4 * i ≡ base + 4 * suc i = omega arith in rw e (h (suc i) (omega arith))

  -- Words outside the block stay.
  pub write_words-other :
      (m : Memory) (base : ℕ) (ws : List ℕ) (x : ℕ)
      → IsClear p base (length ws) x
      → write_words p m base ws x ≡ m x
  unfolding write_words
  write_words-other m base [] x clear = refl
  write_words-other m base (w ∷ ws) x clear =
      let first = clear 0 (omega arith) in
      write_words-other (write m (p.mmu base) w) (base + 4) ws x
        (IsClear-next base (length ws) x clear)
      ∙ ground (arith, first)

module _ (p : Platform) (k : Code) where
  -- The words that follow a contiguous block's first lie elsewhere.
  IsClear-first : (base n : ℕ) → IsContiguous p base (suc n) → IsClear p (base + 4) n (p.mmu base)
  IsClear-first base n h i lt e =
      let next = IsContiguous-next p base n h i lt in
      let first = h 1 (omega arith) in omega (arith, next, first)

  pub write_words-Lies :
      (m : Memory) (base : ℕ) (ws : List ℕ)
      → IsContiguous p base (length ws)
      → Lies (code_in p k (write_words p m base ws)) base ws
  unfolding write_words
  write_words-Lies m base [] h = tt
  write_words-Lies m base (w ∷ ws) h = (
    write_words-other p (write m (p.mmu base) w) (base + 4) ws (p.mmu base)
          (IsClear-first base (length ws) h)
        ∙ ground arith,
    write_words-Lies (write m (p.mmu base) w) (base + 4) ws
        (IsContiguous-next p base (length ws) h),
  )

  -- Code stays where its words stay.
  pub Lies-same :
      (m m' : Memory) (base : ℕ) (ws : List ℕ)
      → ((i : ℕ) → i < length ws → m' (p.mmu (base + 4 * i)) ≡ m (p.mmu (base + 4 * i)))
      → Lies (code_in p k m) base ws
      → Lies (code_in p k m') base ws
  Lies-same m m' base [] same lies = tt
  Lies-same m m' base (w ∷ ws) same (f, lies) = (
    (let e : base + 4 * 0 ≡ base = omega arith in rw e at (same 0 (omega arith))) ∙ f,
    Lies-same m m' (base + 4) ws
        (λ i lt.
          let e : base + 4 + 4 * i ≡ base + 4 * suc i = omega arith in
          rw e (same (suc i) (omega arith)))
        lies,
  )
