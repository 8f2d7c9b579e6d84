-- ===== src/Runner/Tests.antt =====
-- The loop of the task runner at concrete tasks. The world is the number of runs so far.
use pixur.Base.{ℕ, ◌+◌, ◌≡◌, refl, arith, true, none, some, [], ◌∷◌, ltb, if◌then◌else◌}
use pixur.Job.{duplicate_key, caused, from}
use pixur.Runner.{
  Env, succeeded, failed, next, unwrap_task_status, run_task_once, run_task, new_retry, run_tasks,
}
use pixur.Runner.Tries.{Tries, IsSettled, run_task-Tries, run_tasks-IsSettled}

-- A task that meets a lock for some runs; the backoff doubles.
abbrev locked_for : ℕ → Env ℕ ℕ
locked_for runs = record {
  run = λ w. ((if ltb w runs then some (caused (from duplicate_key)) else none), w + 1);
  done = λ w. none;
  deadline = λ w. none;
  now = λ w. 0;
  wait = λ b w. (none, w);
  can_retry = λ f. true;
  grow = λ k b. b + b;
}

run_third_try : run_tasks (locked_for 2) 0 ≡ (succeeded, 3)
unfolding run_tasks run_task run_task_once next unwrap_task_status
run_third_try = refl

run_five_tries : run_tasks (locked_for 9) 0 ≡ (
  failed (caused (from duplicate_key)) (
      caused (from duplicate_key)
      ∷ caused (from duplicate_key)
      ∷ caused (from duplicate_key)
      ∷ caused (from duplicate_key)
      ∷ []),
  5,
)
unfolding run_tasks run_task run_task_once next unwrap_task_status
run_five_tries = refl

run_task-Tries_example :
    Tries
      (locked_for 2)
      new_retry.initial_delay
      0
      0
      5
      []
      0
      (run_task (locked_for 2) 6 new_retry [] 0)
run_task-Tries_example =
    run_task-Tries (locked_for 2) 6 5 new_retry [] 0 (omega arith) refl (omega arith)

run_tasks-IsSettled_example : IsSettled (run_tasks (locked_for 2) 0).0
run_tasks-IsSettled_example = run_tasks-IsSettled (locked_for 2) 0
