-- ===== src/Tests/Threads.antt =====
-- Threads on a small console: a number as the data, and threads that are run when they are joined.
use function_patcher_module.Base.{
  ℕ, suc, ◌+◌, ◌-◌, ◌==◌, ◌!=◌, if◌then◌else◌, ◌≡◌, false, none, some, [], ◌∷◌, length, refl, arith,
}
use function_patcher_module.Patch.{remove}
use function_patcher_module.Utils
use function_patcher_module.Thread.{
  CThread, is_thread_running, shutdown_thread, run_on_all_cores, is_thread_suspended,
}
use function_patcher_module.Thread.Service.{ThreadService, View, IsThreadService, at_thread}
use function_patcher_module.Thread.Shutdown.{is_thread_running-diverges, shutdown_thread-ends}
use function_patcher_module.Thread.Cores.{IsRun, grants, run_on_all_cores-refines}
use function_patcher_module.Tests.Console.{console}

abbrev threads : ThreadService ℕ (View ℕ)
threads = record {
  thread_size = 0x6a0;
  allocate = λ size align v.
      (0x1000 + length v.live, record v { live = (0x1000 + length v.live) ∷ v.live });
  free = λ a v. record v { live = remove a v.live };
  clear = λ a size v. v;
  create = λ t f stack size priority attributes v. record v {
    suspensions = at_thread v.suspensions t 1;
    work = at_thread v.work t f;
  };
  suspend = λ t v. record v { suspensions = at_thread v.suspensions t (v.suspensions t + 1) };
  resume = λ t v. record v { suspensions = at_thread v.suspensions t (v.suspensions t - 1) };
  is_suspended = λ t v. v.suspensions t != 0;
  is_terminated = λ t v. false;
  set_priority = λ t priority v. v;
  affinity = λ t v. 7;
  join = λ t v. record v { data_now = v.work t v.data_now };
}

abbrev same_view : View ℕ → View ℕ
same_view v = v

threads-IsThreadService : IsThreadService threads same_view
threads-IsThreadService = record {
  allocated = λ size align v. ground arith;
  freed = λ a v. refl;
  cleared = λ a size v. refl;
  created = λ t f stack size priority attributes v. refl;
  suspended = λ t v. refl;
  resumed = λ t v. refl;
  joined = λ t v h. refl;
}

-- A thread that has been suspended twice, and one that runs.
abbrev twice : View ℕ
twice = record {
  data_now = 5;
  live = 0x1001 ∷ 0x1000 ∷ [];
  suspensions = λ t. if t == 0x1000 then 2 else 0;
  work = λ t n. suc n;
}

abbrev counter : CThread ℕ
counter = record {
  stack_size = 0x8000;
  attributes = 4;
  thread = 0x1000;
  thread_stack = 0x1001;
  callback = some (λ n. suc n);
}

shutdown_thread-ends_example :
    (v : View ℕ) × (shutdown_thread threads 3 counter twice
      ≡ some (record counter { thread = 0; thread_stack = 0 }, v))
    × (v.data_now ≡ 6)
    × (v.live ≡ [])
shutdown_thread-ends_example =
    shutdown_thread-ends threads same_view threads-IsThreadService 3 counter twice refl
      (omega arith)

is_thread_running-diverges_example :
    is_thread_running threads 100 (record counter { thread = 0x1002 }) twice ≡ none
is_thread_running-diverges_example =
    is_thread_running-diverges threads 100 (record counter { thread = 0x1002 }) twice
      (unfold is_thread_suspended in refl)

abbrev idle : View ℕ
idle = record { data_now = 5; live = []; suspensions = λ t. 0; work = λ t n. n }

run_on_all_cores-refines_example :
    (v2 : View ℕ) × (v1 : View ℕ) × (v0 : View ℕ) × IsRun threads 0x8000 16 1
      (λ n. suc n)
      idle
      v2
      v1
      v0
    × (run_on_all_cores threads 1 0 16 0x8000 (some (λ n. suc n)) idle ≡ some v0)
    × (v0.data_now
        ≡ Utils.run_on_all_cores
            (record console { thread_created = grants threads 0x8000 idle v2 v1 })
            (λ n. suc n)
            5)
    × (v0.live ≡ [])
run_on_all_cores-refines_example =
    run_on_all_cores-refines threads same_view threads-IsThreadService 0x8000 (λ v h. omega arith)
      console 0 16 (λ n. suc n) idle
