-- ===== src/Runner.antt =====
-- be/tasks/task_runner.go: a task is run again while the database asks for it. `W` is the world that the
-- task and the clock change. Tracing, the counters and the log are left out; `grow` stands for the
-- multiplication of the backoff by floating point numbers with its jitter.
pub mod Attempt
pub mod Tries
pub mod Tests
use pixur.Base.{
  ℕ, zero, suc, ◌+◌, ◌-◌, ◌*◌, ◌^◌, Bool, true, false, ◌&&◌, not, Option, none, some, List, [], ◌∷◌,
  ◌++◌, ltb, leb, ◌==◌, if◌then◌else◌,
}
use pixur.Schema.{Time}
use pixur.Job.{Fault, Status, caused, from, deadline_exceeded}

-- `taskRetryAdapter`, without its numbers for the jitter.
pub record TaskRetryAdapter : Type 0 where
  pub current_try : ℕ
  pub max_tries : ℕ
  pub current_backoff : ℕ
  pub initial_delay : ℕ

-- `maxInt`, on a machine of 64 bits.
abbrev pub max_int : ℕ
max_int = 2 ^ 63 - 1

-- `taskMaxRetries` and `taskInitialBackoffDelay`.
abbrev pub task_max_retries : ℕ
task_max_retries = 5

abbrev pub task_initial_backoff_delay : ℕ
task_initial_backoff_delay = 10 ^ 9

-- The try that is counted, unless there is no limit.
abbrev pub count_try : TaskRetryAdapter → TaskRetryAdapter
count_try r = if r.max_tries == max_int then r else record r { current_try = r.current_try + 1 }

-- `Next`: the backoff of a new try, if there is one.
pub next : (ℕ → ℕ → ℕ) → TaskRetryAdapter → Option ℕ × TaskRetryAdapter
next grow r =
    if leb r.max_tries r.current_try
    then (none, r)
    else let counted = count_try r in
      let back =
        if r.current_backoff == 0 then r.initial_delay else grow r.current_try r.current_backoff in
      (some back, record counted { current_backoff = back })

-- `unwrapTaskStatus`: the error at the end of the causes, if it is one of the database.
pub unwrap_task_status : {E : Type 0} → Status E → Option (Fault E)
unwrap_task_status (caused st) = unwrap_task_status st
unwrap_task_status (from f) = some f
unwrap_task_status st = none

-- What `runTaskOnce` returns.
pub record Once (E : Type 0) : Type 0 where
  pub success : Bool
  pub retry : Bool
  pub stss : List (Status E)

-- What `runTask` returns: no status, or the first one with the others suppressed. It stops the program
-- where there is no status at all.
pub data Outcome (E : Type 0) : Type 0 where
  succeeded : Outcome E
  failed : Status E → List (Status E) → Outcome E
  panicked out_of_fuel : Outcome E

-- The context of a task, the task and the clock. `done` is the error of a context that is done, `wait`
-- sleeps and returns that error if the context is done meanwhile.
pub record Env (E W : Type 0) : Type 0 where
  pub run : W → Option (Status E) × W
  pub done : W → Option (Status E)
  pub deadline : W → Option Time
  pub now : W → Time
  pub wait : ℕ → W → Option (Status E) × W
  pub can_retry : Fault E → Bool
  pub grow : ℕ → ℕ → ℕ

abbrev pub give_up : {E : Type 0} → List (Status E) → Outcome E
give_up [] = panicked
give_up (st ∷ stss) = failed st stss

-- After a try: the loop goes on with `again`.
abbrev pub settle : {E W : Type 0} → Once E → List (Status E) → W → Outcome E × W → Outcome E × W
settle o stss w again =
    if o.success
    then (succeeded, w)
    else if not o.retry
    then (give_up (stss ++ o.stss), w)
    else again

-- The adapter of `TaskRunner.Run`.
abbrev pub new_retry : TaskRetryAdapter
new_retry = record {
  current_try = 0;
  max_tries = task_max_retries;
  current_backoff = 0;
  initial_delay = task_initial_backoff_delay;
}

module _ {E W : Type 0} (env : Env E W) where
  abbrev pub is_retryable : Status E → Bool
  is_retryable st = elim (unwrap_task_status st) [ none ↦ false | some f ↦ env.can_retry f ]

  -- Whether a sleep would end behind the deadline.
  abbrev pub too_late : ℕ → W → Bool
  too_late sleep w = elim (env.deadline w) [ none ↦ false | some d ↦ ltb d (env.now w + sleep) ]

  -- The sleep before the next try.
  abbrev pub sleep_once : Status E → ℕ → W → Once E × W
  sleep_once st backoff w =
      let (ended, w') = env.wait backoff w in
      elim ended [
        | none ↦ (record { success = false; retry = true; stss = st ∷ [] }, w')
        | some e ↦ (record { success = false; retry = false; stss = st ∷ e ∷ [] }, w')
      ]

  abbrev pub after_run : Option (Status E) → ℕ → W → Once E × W
  after_run none backoff w = (record { success = true; retry = false; stss = [] }, w)
  after_run (some st) backoff w =
      if not (is_retryable st)
      then (record { success = false; retry = false; stss = st ∷ [] }, w)
      else if too_late backoff w
      then (record { success = false; retry = false; stss = st ∷ deadline_exceeded ∷ [] }, w)
      else sleep_once st backoff w

  -- `runTaskOnce`
  pub run_task_once : ℕ → W → Once E × W
  run_task_once backoff w = elim (env.done w) [
    | some e ↦ (record { success = false; retry = false; stss = e ∷ [] }, w)
    | none ↦ (let (res, w') = env.run w in after_run res backoff w')
  ]

  -- `runTask`, with fuel for its loop.
  pub run_task : ℕ → TaskRetryAdapter → List (Status E) → W → Outcome E × W
  run_task zero r stss w = (out_of_fuel, w)
  run_task (suc fuel) r stss w =
      let (backoff, r') = next env.grow r in
      elim backoff [
        | none ↦ (give_up stss, w)
        | some b ↦
            (let (o, w') = run_task_once b w in
              settle o stss w' (run_task fuel r' (stss ++ o.stss) w'))
      ]

  -- `TaskRunner.Run`: five tries and the round that finds none left.
  pub run_tasks : W → Outcome E × W
  run_tasks w = run_task (suc task_max_retries) new_retry [] w
