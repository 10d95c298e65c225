-- ===== src/Thread/Core.antt =====
-- One core of `runOnAllCores`.
use function_patcher_module.Base.{
  ℕ, suc, ◌+◌, ◌-◌, Bool, true, false, ◌&&◌, Option, none, some, List, ◌∷◌, ◌==◌, ◌!=◌, ◌≡◌, ◌≢◌,
  refl, ◌∙◌, ap, arith, if_true, if_false, Bool-cases, inl, inr, bit_and, if◌then◌else◌, ==-self,
  ne-==, ==-eq, ==-ne,
}
use function_patcher_module.Patch.{remove}
use function_patcher_module.Thread.{
  CThread, new_thread, free_thread, resume_thread, shutdown_thread, run_with_affinity,
  attribute_detach,
}
use function_patcher_module.Thread.Service.{ThreadService, View, IsThreadService, without}
use function_patcher_module.Thread.Shutdown.{
  suspended_lem, resumed_lem, resume_thread-null, shutdown_thread-null, shutdown_thread-ends,
  free_thread-IsFreed,
}

module _ {S W : Type 0} (os : ThreadService S W) (stack_size : ℕ) where
  abbrev pub thread_of : W → ℕ
  thread_of w = (os.allocate os.thread_size 0x10 w).0

  abbrev stack_of : W → ℕ
  stack_of w = (os.allocate stack_size 0x20 (os.allocate os.thread_size 0x10 w).1).0

  -- Memory for a thread comes with memory for its stack.
  abbrev pub IsPaired : Type 0
  IsPaired = (w : W) → thread_of w ≢ 0 → stack_of w ≢ 0

module _ {S W : Type 0} (os : ThreadService S W) (view : W → View S)
    (laws : IsThreadService os view) (stack_size : ℕ) where
  -- What a state is like when a core is done: the work is done or not, and the heap is as before.
  pub record IsDone (f : S → S) (ran : Bool) (v v' : View S) : Type 0 where
    pub work_done : v'.data_now ≡ (if ran then f v.data_now else v.data_now)
    pub same_live : v'.live ≡ v.live

  module _ (attributes priority : ℕ) (f : S → S) where
    abbrev made : W → CThread S
    made w = (new_thread os attributes priority stack_size (some f) w).0

    abbrev after_made : W → W
    after_made w = (new_thread os attributes priority stack_size (some f) w).1

    -- With memory for both, the thread is there, suspended once, with its work.
    made_lem :
        (w : W)
        → thread_of os stack_size w ≢ 0
        → stack_of os stack_size w ≢ 0
        → ((made w).thread ≡ thread_of os stack_size w)
          × ((made w).thread_stack ≡ stack_of os stack_size w)
          × ((view (after_made w)).data_now ≡ (view w).data_now)
          × ((view (after_made w)).live
              ≡ stack_of os stack_size w ∷ thread_of os stack_size w ∷ (view w).live)
          × ((view (after_made w)).suspensions (thread_of os stack_size w) ≡ 1)
          × ((view (after_made w)).work (thread_of os stack_size w) ≡ f)
    unfolding new_thread
    made_lem w h h' =
        let w1 = (os.allocate os.thread_size 0x10 w).1 in
        let w2 = (os.allocate stack_size 0x20 w1).1 in
        let both : (thread_of os stack_size w != 0 && stack_of os stack_size w != 0) ≡ true =
          ground arith in
        let c =
          laws.created (thread_of os stack_size w) f (stack_of os stack_size w + stack_size)
            stack_size priority attributes w2 in
        let s = laws.allocated stack_size 0x20 w1 in
        let t = laws.allocated os.thread_size 0x10 w in
        let null : (stack_of os stack_size w == 0) ≡ false = ne-== _ _ h' in
        let null' : (thread_of os stack_size w == 0) ≡ false = ne-== _ _ h in
        rw both (
          refl,
          refl,
          ap (λ v. v.data_now) c ∙ ap (λ v. v.data_now) s ∙ ap (λ v. v.data_now) t,
          ap (λ v. v.live) c
              ∙ ap (λ v. v.live) s
              ∙ if_false _ _ null
              ∙ ap (◌∷◌ (stack_of os stack_size w)) (ap (λ v. v.live) t ∙ if_false _ _ null'),
          ap (λ v. v.suspensions (thread_of os stack_size w)) c
              ∙ if_true _ _ (==-self (thread_of os stack_size w)),
          ap (λ v. v.work (thread_of os stack_size w)) c
              ∙ if_true _ _ (==-self (thread_of os stack_size w)),
        )

    given_back :
        (a b : ℕ) (live : List ℕ) → a ≢ 0 → b ≢ 0 → without a (without b (b ∷ a ∷ live)) ≡ live
    given_back a b live h h' =
        ap (without a) (if_false _ _ (ne-== _ _ h') ∙ if_true _ _ (==-self b))
        ∙ if_false _ _ (ne-== _ _ h)
        ∙ if_true _ _ (==-self a)

    abbrev finished : Option (CThread S × W) → Option W
    finished o = elim o [ none ↦ none | some (_, w) ↦ some w ]

    -- A core whose thread has its memory.
    runs_given :
        (fuel : ℕ) (w : W)
        → bit_and attributes attribute_detach ≡ 0
        → thread_of os stack_size w ≢ 0
        → stack_of os stack_size w ≢ 0
        → (w' : W) × (run_with_affinity os (suc fuel) priority stack_size (some f) attributes w
            ≡ some w')
          × ((view w').data_now ≡ f (view w).data_now)
          × ((view w').live ≡ (view w).live)
    unfolding run_with_affinity
    runs_given fuel w joins h h' =
        let (_, _, same, grown, once, work) = made_lem w h h' in
        let t : ℕ = thread_of os stack_size w in
        let w1 : W = after_made w in
        let w2 : W = resume_thread os (made w) w1 in
        let suspended = suspended_lem os view laws (made w) w1 h ∙ ap (λ n. n != 0) once in
        let resumed = resumed_lem os view laws (made w) w1 h suspended in
        let zero_left : (view w2).suspensions t ≡ 0 =
          ap (λ v. v.suspensions t) resumed ∙ if_true _ _ (==-self t) ∙ ap (λ n. n - 1) once in
        let (w', e, data_after, live_after) =
          shutdown_thread-ends os view laws (suc fuel) (made w) w2 (ground arith) (omega arith) in
        (
          w',
          ap finished e,
          data_after
              ∙ ap (λ g. g (view w2).data_now) (ap (λ v. v.work t) resumed ∙ work)
              ∙ ap f (ap (λ v. v.data_now) resumed ∙ same),
          live_after
              ∙ ap (λ l. without t (without (stack_of os stack_size w) l))
                  (ap (λ v. v.live) resumed ∙ grown)
              ∙ given_back t (stack_of os stack_size w) (view w).live h h',
        )

    made-null :
        (w : W)
        → thread_of os stack_size w ≡ 0
        → after_made w ≡ (os.allocate stack_size 0x20 (os.allocate os.thread_size 0x10 w).1).1
    unfolding new_thread
    made-null w h =
        let not_created : (thread_of os stack_size w != 0 && stack_of os stack_size w != 0)
            ≡ false =
          ground arith in
        if_false _ _ not_created

    -- The stack alone is given back.
    stack_back :
        (w : W)
        → thread_of os stack_size w ≡ 0
        → without (thread_of os stack_size w) (
            without
              (stack_of os stack_size w)
              (view (os.allocate stack_size 0x20 (os.allocate os.thread_size 0x10 w).1).1).live)
          ≡ (view w).live
    stack_back w h =
        let s =
          ap (λ v. v.live) (laws.allocated stack_size 0x20 (os.allocate os.thread_size 0x10 w).1) in
        let t = ap (λ v. v.live) (laws.allocated os.thread_size 0x10 w) in
        let null : (thread_of os stack_size w == 0) ≡ true = ground arith in
        if_true _ _ null
        ∙ ap (without (stack_of os stack_size w)) s
        ∙ elim (Bool-cases (stack_of os stack_size w == 0)) [
          | inl none_given ↦ if_true _ _ none_given ∙ if_true _ _ none_given
          | inr given ↦
              if_false _ _ given
              ∙ ap (remove (stack_of os stack_size w)) (if_false _ _ given)
              ∙ if_true _ _ (==-self (stack_of os stack_size w))
        ]
        ∙ t
        ∙ if_true _ _ null

    -- A core whose thread has no memory.
    runs_none :
        (fuel : ℕ) (w : W)
        → thread_of os stack_size w ≡ 0
        → (w' : W) × (run_with_affinity os (suc fuel) priority stack_size (some f) attributes w
            ≡ some w')
          × ((view w').data_now ≡ (view w).data_now)
          × ((view w').live ≡ (view w).live)
    unfolding run_with_affinity
    runs_none fuel w h =
        let w1 : W = (os.allocate os.thread_size 0x10 w).1 in
        let w2 : W = (os.allocate stack_size 0x20 w1).1 in
        let same =
          ap (λ v. v.data_now) (laws.allocated stack_size 0x20 w1)
          ∙ ap (λ v. v.data_now) (laws.allocated os.thread_size 0x10 w) in
        let freed = free_thread-IsFreed os view laws (made w) w2 in
        (
          (free_thread os (made w) w2).1,
          ap finished (
              ap (shutdown_thread os (suc fuel) (made w))
                (resume_thread-null os (made w) (after_made w) h ∙ made-null w h)
              ∙ shutdown_thread-null os (suc fuel) (made w) w2 h),
          freed.same_data ∙ same,
          freed.freed ∙ stack_back w h,
        )

    -- One core: the work is done where there is memory, and the heap is as before.
    pub runs :
        IsPaired os stack_size
        → bit_and attributes attribute_detach ≡ 0
        → (fuel : ℕ) (w : W)
        → (w' : W) × (run_with_affinity os (suc fuel) priority stack_size (some f) attributes w
            ≡ some w')
          × IsDone f (thread_of os stack_size w != 0) (view w) (view w')
    runs paired joins fuel w = elim (Bool-cases (thread_of os stack_size w == 0)) [
      | inl none_given ↦
          let (w', e, same, live) = runs_none fuel w (==-eq _ _ none_given) in
          (w', e, rw none_given (record { work_done = same; same_live = live }))
      | inr given ↦
          let there = ==-ne _ _ given in
          let (w', e, ran, live) = runs_given fuel w joins there (paired w there) in
          (w', e, rw given (record { work_done = ran; same_live = live }))
    ]
