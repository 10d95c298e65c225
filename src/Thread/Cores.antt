-- ===== src/Thread/Cores.antt =====
-- `runOnAllCores` on the console's threads does what the model of `Utils` says.
use Prim.Native.Nat.{bit_or}
use function_patcher_module.Base.{
  ℕ, suc, Bool, some, List, [], ◌∷◌, ◌==◌, ◌!=◌, ◌≡◌, refl, ◌∙◌, ap, if◌then◌else◌,
}
use function_patcher_module.Platform.{Platform}
use function_patcher_module.Utils
use function_patcher_module.Thread.{run_with_affinity, run_on_cores, run_on_all_cores}
use function_patcher_module.Thread.Service.{ThreadService, View, IsThreadService}
use function_patcher_module.Thread.Core.{thread_of, IsPaired, runs}

module _ {S W : Type 0} (os : ThreadService S W) (stack_size : ℕ) where
  -- Which cores had memory for their threads.
  abbrev granted : Bool → Bool → Bool → ℕ → Bool
  granted core2 core1 core0 affinity =
      if affinity == 4 then core2 else if affinity == 2 then core1 else core0

  -- One core after the other, from state to state.
  pub record IsRun (priority fuel : ℕ) (f : S → S) (w w2 w1 w0 : W) : Type 0 where
    pub core2 : run_with_affinity os fuel priority stack_size (some f) 4 w ≡ some w2
    pub core1 : run_with_affinity os fuel priority stack_size (some f) 2 w2 ≡ some w1
    pub core0 : run_with_affinity os fuel priority stack_size (some f) 1 w1 ≡ some w0

  -- Which cores' threads get memory: what the heap answers in the state that each begins in.
  abbrev pub grants : W → W → W → ℕ → Bool
  grants w w2 w1 =
      granted (thread_of os stack_size w != 0) (thread_of os stack_size w2 != 0)
        (thread_of os stack_size w1 != 0)

module _ {S W : Type 0} (os : ThreadService S W) (view : W → View S)
    (laws : IsThreadService os view) (stack_size : ℕ) where
  abbrev maybe : (S → S) → Bool → S → S
  maybe f ran s = if ran then f s else s

  run_on_cores-step :
      (affinity : ℕ) (rest : List ℕ) (fuel attributes priority : ℕ) (f : S → S) (w w' : W)
      → run_with_affinity os fuel priority stack_size (some f) (bit_or attributes affinity) w
        ≡ some w'
      → run_on_cores os (affinity ∷ rest) fuel attributes priority stack_size (some f) w
        ≡ run_on_cores os rest fuel attributes priority stack_size (some f) w'
  unfolding run_on_cores
  run_on_cores-step affinity rest fuel attributes priority f w w' h = rw (h, run_on_cores) refl

  -- `runOnAllCores` returns, with fuel for one test on each core, after one core after the other. The
  -- heap's live blocks are as before, and the data are what `Utils.run_on_all_cores` gives, where the
  -- threads that get memory are those to which the heap gives it as each core begins. The threads are
  -- as `IsThreadService` says, and memory for a thread comes with memory for its stack.
  pub run_on_all_cores-refines :
      IsPaired os stack_size
      → (p : Platform) (fuel priority : ℕ) (f : S → S) (w : W)
      → (w2 : W) × (w1 : W) × (w0 : W) × IsRun os stack_size priority (suc fuel) f w w2 w1 w0
        × (run_on_all_cores os (suc fuel) 0 priority stack_size (some f) w ≡ some w0)
        × ((view w0).data_now
            ≡ Utils.run_on_all_cores
                (record p { thread_created = grants os stack_size w w2 w1 })
                f
                (view w).data_now)
        × ((view w0).live ≡ (view w).live)
  unfolding run_on_all_cores Utils.run_on_all_cores
  run_on_all_cores-refines paired p fuel priority f w =
      let (w2, e2, at2) = runs os view laws stack_size 4 priority f paired refl fuel w in
      let (w1, e1, at1) = runs os view laws stack_size 2 priority f paired refl fuel w2 in
      let (w0, e0, at0) = runs os view laws stack_size 1 priority f paired refl fuel w1 in
      (
        w2,
        w1,
        w0,
        record { core2 = e2; core1 = e1; core0 = e0 },
        run_on_cores-step 4 (2 ∷ 1 ∷ []) (suc fuel) 0 priority f w w2 e2
            ∙ run_on_cores-step 2 (1 ∷ []) (suc fuel) 0 priority f w2 w1 e1
            ∙ run_on_cores-step 1 [] (suc fuel) 0 priority f w1 w0 e0,
        at0.work_done
            ∙ ap (maybe f (thread_of os stack_size w1 != 0))
                (at1.work_done ∙ ap (maybe f (thread_of os stack_size w2 != 0)) at2.work_done),
        at0.same_live ∙ at1.same_live ∙ at2.same_live,
      )
