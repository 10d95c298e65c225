-- ===== src/Thread/Shutdown.antt =====
-- `shutdownThread` comes to its end, and `isThreadRunning` does not.
use function_patcher_module.Base.{
  ℕ, zero, suc, ◌-◌, ◌<◌, Bool, true, false, ◌&&◌, none, some, ◌==◌, ◌!=◌, ◌≡◌, ◌≢◌, refl, sym, ◌∙◌,
  ap, arith, if_true, if_false, Bool-cases, inl, inr, bit_and, if◌then◌else◌,
}
use function_patcher_module.Patch.{remove}
use function_patcher_module.Thread.{
  CThread, is_thread_suspended, is_thread_running, resume_thread, resume_all, free_thread,
  shutdown_thread, attribute_detach,
}
use function_patcher_module.Thread.Service.{
  ThreadService, View, IsThreadService, at_thread, without,
}

-- A thread that runs or has run: it is not suspended any more, and all else is as before.
pub record IsAwake {S : Type 0} (v v' : View S) (t : ℕ) : Type 0 where
  pub same_data : v'.data_now ≡ v.data_now
  pub same_live : v'.live ≡ v.live
  pub same_work : v'.work ≡ v.work
  pub awake : v'.suspensions t ≡ 0

module _ {S W : Type 0} (os : ThreadService S W) where
  -- `isThreadRunning` does not return for a thread that is not suspended: however many calls of
  -- itself it is given, it makes one more.
  pub is_thread_running-diverges :
      (fuel : ℕ) (th : CThread S) (w : W)
      → is_thread_suspended os th w ≡ false
      → is_thread_running os fuel th w ≡ none
  unfolding is_thread_running
  is_thread_running-diverges zero th w h = refl
  is_thread_running-diverges (suc fuel) th w h = rw (h, is_thread_running-diverges fuel th w h) refl

  -- Without a thread there is nothing to resume and nothing to wait for.
  pub resume_thread-null : (th : CThread S) (w : W) → th.thread ≡ 0 → resume_thread os th w ≡ w
  unfolding resume_thread is_thread_suspended
  resume_thread-null th w h = ground arith

  pub shutdown_thread-null :
      (fuel : ℕ) (th : CThread S) (w : W)
      → th.thread ≡ 0
      → shutdown_thread os fuel th w ≡ some (free_thread os th w)
  unfolding shutdown_thread
  shutdown_thread-null fuel th w h =
      let no_thread : (th.thread != 0 && bit_and th.attributes attribute_detach == 0) ≡ false =
        ground arith in
      if_false _ _ no_thread

  module _ (view : W → View S) (laws : IsThreadService os view) where
    pub suspended_lem :
        (th : CThread S) (w : W)
        → th.thread ≢ 0
        → is_thread_suspended os th w ≡ ((view w).suspensions th.thread != 0)
    unfolding is_thread_suspended
    suspended_lem th w h = ground (arith, laws.suspended th.thread w)

    pub resumed_lem :
        (th : CThread S) (w : W)
        → th.thread ≢ 0
        → is_thread_suspended os th w ≡ true
        → view (resume_thread os th w) ≡ record (view w) {
          suspensions =
              at_thread (view w).suspensions th.thread ((view w).suspensions th.thread - 1);
        }
    unfolding resume_thread
    resumed_lem th w h s =
        let some_thread : (th.thread != 0) ≡ true = ground arith in
        rw (s, some_thread) (laws.resumed th.thread w)

    -- The loop of `shutdownThread` ends: as many tests as the thread has suspensions, and one, are
    -- enough.
    pub resume_all-IsAwake :
        (fuel : ℕ) (th : CThread S) (w : W)
        → th.thread ≢ 0
        → (view w).suspensions th.thread < fuel
        → (w' : W) × (resume_all os fuel th w ≡ some w') × IsAwake (view w) (view w') th.thread
    unfolding resume_all
    resume_all-IsAwake zero th w h lt = absurd (omega arith)
    resume_all-IsAwake (suc fuel) th w h lt = elim (Bool-cases (is_thread_suspended os th w)) [
      | inl suspended ↦
          let resumed = resumed_lem th w h suspended in
          let counts = ap (λ v. v.suspensions th.thread) resumed in
          let few = sym (suspended_lem th w h) ∙ suspended in
          let (w', e, at) = resume_all-IsAwake fuel th (resume_thread os th w) h (ground arith) in
          (
            w',
            if_true _ _ suspended ∙ e,
            record {
              same_data = at.same_data ∙ ap (λ v. v.data_now) resumed;
              same_live = at.same_live ∙ ap (λ v. v.live) resumed;
              same_work = at.same_work ∙ ap (λ v. v.work) resumed;
              awake = at.awake;
            },
          )
      | inr running ↦
          let none_left = sym (suspended_lem th w h) ∙ running in
          (
            w,
            if_false _ _ running,
            record { same_data = refl; same_live = refl; same_work = refl; awake = ground arith },
          )
    ]

    -- What a state has kept, with the thread's memory given back.
    pub record IsFreed (th : CThread S) (v v' : View S) : Type 0 where
      pub same_data : v'.data_now ≡ v.data_now
      pub freed : v'.live ≡ without th.thread (without th.thread_stack v.live)

    free_one :
        (a size : ℕ) (w : W)
        → ((view (os.free a (os.clear a size w))).data_now ≡ (view w).data_now)
          × ((view (os.free a (os.clear a size w))).live ≡ remove a (view w).live)
    free_one a size w =
        let v = laws.freed a (os.clear a size w) in
        let v' = laws.cleared a size w in
        (
          ap (λ x. x.data_now) v ∙ ap (λ x. x.data_now) v',
          ap (λ x. x.live) v ∙ ap (λ x. remove a x.live) v',
        )

    free_block :
        (a size : ℕ) (w : W)
        → let w' = if a != 0 then os.free a (os.clear a size w) else w in
          ((view w').data_now ≡ (view w).data_now) × ((view w').live ≡ without a (view w).live)
    free_block a size w = elim (Bool-cases (a == 0)) [
      | inl null ↦ rw null (refl, refl)
      | inr block ↦ rw block (free_one a size w)
    ]

    pub free_thread-IsFreed :
        (th : CThread S) (w : W) → IsFreed th (view w) (view (free_thread os th w).1)
    unfolding free_thread
    free_thread-IsFreed th w =
        let stack = free_block th.thread_stack th.stack_size w in
        let thread = free_block th.thread os.thread_size _ in
        record { same_data = thread.0 ∙ stack.0; freed = thread.1 ∙ ap (without th.thread) stack.1 }

    abbrev is_joined : CThread S → Bool
    is_joined th = th.thread != 0 && bit_and th.attributes attribute_detach == 0

    -- `shutdownThread` of a thread that is not detached comes to its end, with fuel for as many
    -- tests as the thread has suspensions, and one: the thread's work is done, its memory is given
    -- back, and the object holds none. The threads are as `IsThreadService` says.
    pub shutdown_thread-ends :
        (fuel : ℕ) (th : CThread S) (w : W)
        → is_joined th ≡ true
        → (view w).suspensions th.thread < fuel
        → (w' : W) × (shutdown_thread os fuel th w
            ≡ some (record th { thread = 0; thread_stack = 0 }, w'))
          × ((view w').data_now ≡ (view w).work th.thread (view w).data_now)
          × ((view w').live ≡ without th.thread (without th.thread_stack (view w).live))
    unfolding shutdown_thread free_thread
    shutdown_thread-ends fuel th w joins enough =
        let (w', e, at) = resume_all-IsAwake fuel th w (ground arith) enough in
        let joined = laws.joined th.thread w' at.awake in
        let freed = free_thread-IsFreed th (os.join th.thread w') in
        (
          (free_thread os th (os.join th.thread w')).1,
          if_true _ _ joins ∙ rw e refl,
          freed.same_data ∙ ap (λ v. v.data_now) joined ∙ rw (at.same_work, at.same_data) refl,
          freed.freed
              ∙ ap (λ v. without th.thread (without th.thread_stack v.live)) joined
              ∙ ap (λ l. without th.thread (without th.thread_stack l)) at.same_live,
        )
