-- ===== src/Runner/Tries.antt =====
-- be/tasks/task_runner.go: the loop makes its tries and ends.
use mathlib.Core.Path.{subst}
use pixur.Base.{
  ℕ, zero, suc, ◌+◌, ◌<◌, ◌≡◌, ◌≢◌, ◌∙◌, refl, sym, ap, arith, true, false, Option, none, some,
  List, [], ◌∷◌, ◌++◌, leb, ◌==◌, if◌then◌else◌,
}
use pixur.Job.{Status}
use pixur.Runner.{
  TaskRetryAdapter, max_int, next, Once, Outcome, succeeded, failed, panicked, out_of_fuel, Env,
  run_task_once, give_up, settle, run_task, new_retry, run_tasks, task_max_retries,
}
use pixur.Runner.Attempt.{
  Good, Bad, Again, Tried, tried_good, tried_bad, tried_again, run_task_once-Tried,
}

-- The outcome of a task that was run: no way out but success or a status.
abbrev pub IsSettled : {E : Type 0} → Outcome E → Type 0
IsSettled succeeded = Unit
IsSettled (failed st stss) = Unit
IsSettled panicked = ⊥
IsSettled out_of_fuel = ⊥

module _ {E W : Type 0} (env : Env E W) where
  -- The backoff of the try behind `done` others.
  abbrev pub backoff_of : ℕ → ℕ → ℕ → ℕ
  backoff_of delay done before = if before == 0 then delay else env.grow done before

  -- How the loop goes and what it returns, with `done` tries behind it, the backoff `before` of the last
  -- one, so many tries left and the statuses so far: the first status is returned and the others are
  -- suppressed by it.
  pub data Tries (delay : ℕ) : ℕ → ℕ → ℕ → List (Status E) → W → Outcome E × W → Type 0 where
    no_status : {done before : ℕ} {w : W} → Tries delay done before zero [] w (panicked, w)
    none_left :
        {done before : ℕ} {st : Status E} {stss : List (Status E)} {w : W}
        → Tries delay done before zero (st ∷ stss) w (failed st stss, w)
    good :
        {done before left : ℕ} {stss : List (Status E)} {w w' : W}
        → Good env w w'
        → Tries delay done before (suc left) stss w (succeeded, w')
    first_bad :
        {done before left : ℕ} {st : Status E} {more : List (Status E)} {w w' : W}
        → Bad env (backoff_of delay done before) w st more w'
        → Tries delay done before (suc left) [] w (failed st more, w')
    later_bad :
        {done before left : ℕ} {st0 st : Status E} {stss more : List (Status E)} {w w' : W}
        → Bad env (backoff_of delay done before) w st more w'
        → Tries delay done before (suc left) (st0 ∷ stss) w (failed st0 (stss ++ (st ∷ more)), w')
    again :
        {done before left : ℕ} {st : Status E} {stss : List (Status E)} {w w' : W}
        {r : Outcome E × W}
        → Again env (backoff_of delay done before) w st w'
        → Tries delay (done + 1) (backoff_of delay done before) left (stss ++ (st ∷ [])) w' r
        → Tries delay done before (suc left) stss w r

  settle-Tries :
      {delay done before left : ℕ} {w : W} {o : Once E × W} (stss : List (Status E))
      (more : Outcome E × W)
      → Tried env (backoff_of delay done before) w o
      → Tries delay (done + 1) (backoff_of delay done before) left (stss ++ o.0.stss) o.1 more
      → Tries delay done before (suc left) stss w (settle o.0 stss o.1 more)
  settle-Tries stss more (tried_good g) h = good g
  settle-Tries [] more (tried_bad g) h = first_bad g
  settle-Tries (st0 ∷ stss) more (tried_bad g) h = later_bad g
  settle-Tries stss more (tried_again g) h = again g h

  next_stop : (r : TaskRetryAdapter) → r.current_try ≡ r.max_tries → next env.grow r ≡ (none, r)
  unfolding next
  next_stop r e = rw (stop r.max_tries r.current_try e) refl
    where
      stop : (m c : ℕ) → c ≡ m → leb m c ≡ true
      stop m c e = ground arith

  next_try :
      (r : TaskRetryAdapter)
      → r.max_tries < max_int
      → r.current_try < r.max_tries
      → next env.grow r ≡ (
        some (backoff_of r.initial_delay r.current_try r.current_backoff),
        record r {
          current_try = r.current_try + 1;
          current_backoff = backoff_of r.initial_delay r.current_try r.current_backoff;
        },
      )
  unfolding next
  next_try r small room = rw (more r.max_tries r.current_try room, limit r.max_tries small) refl
    where
      more : (m c : ℕ) → c < m → leb m c ≡ false
      more m c e = ground arith

      limit : (m : ℕ) → m < max_int → (m == max_int) ≡ false
      limit m h = ground arith

  -- The body of the loop after a call of `Next`.
  round : ℕ → List (Status E) → W → Option ℕ × TaskRetryAdapter → Outcome E × W
  round fuel stss w found =
      let (backoff, r') = found in
      elim backoff [
        | none ↦ (give_up stss, w)
        | some b ↦
            (let (o, w') = run_task_once env b w in
              settle o stss w' (run_task env fuel r' (stss ++ o.stss) w'))
      ]

  run_task-round :
      (fuel : ℕ) (r : TaskRetryAdapter) (stss : List (Status E)) (w : W)
      → run_task env (suc fuel) r stss w ≡ round fuel stss w (next env.grow r)
  unfolding run_task round
  run_task-round fuel r stss w = refl

  -- With a limit on the tries below the greatest int and fuel for the tries that are left and one
  -- more round, the loop of the task runner makes just those tries, one behind the other, each with
  -- the backoff made from the one before; it succeeds at the first try that does, and it ends with
  -- the first status of all tries, the others suppressed, at the first try that is not to be
  -- repeated or where no try is left; with no try left and no status at all it panics. A try is
  -- repeated exactly where the context is not done, the task returns a status that can be tried
  -- again, the sleep ends by the deadline, and the context does not end meanwhile.
  pub run_task-Tries :
      (fuel left : ℕ) (r : TaskRetryAdapter) (stss : List (Status E)) (w : W)
      → r.max_tries < max_int
      → r.current_try + left ≡ r.max_tries
      → left < fuel
      → Tries r.initial_delay r.current_try r.current_backoff left stss w
          (run_task env fuel r stss w)
  unfolding round
  run_task-Tries zero left r stss w small sum enough = absurd (omega (arith, enough))
  run_task-Tries (suc fuel) zero r stss w small sum enough =
      subst (λ o. Tries r.initial_delay r.current_try r.current_backoff 0 stss w o)
        (sym (
          run_task-round fuel r stss w ∙ ap (round fuel stss w) (next_stop r (omega (arith, sum)))))
        (ended stss)
    where
      ended :
          (stss : List (Status E))
          → Tries r.initial_delay r.current_try r.current_backoff 0 stss w (give_up stss, w)
      ended [] = no_status
      ended (st ∷ stss) = none_left
  run_task-Tries (suc fuel) (suc left) r stss w small sum enough =
      subst (λ o. Tries r.initial_delay r.current_try r.current_backoff (suc left) stss w o)
        (sym (
          run_task-round fuel r stss w
          ∙ ap (round fuel stss w) (next_try r small (omega (arith, sum)))))
        (settle-Tries stss _ (run_task_once-Tried env b w) (
          run_task-Tries fuel left
            (record r { current_try = r.current_try + 1; current_backoff = b }) (stss ++ o.stss) w'
            small (omega (arith, sum)) (omega (arith, enough))))
    where
      b : ℕ
      b = backoff_of r.initial_delay r.current_try r.current_backoff

      o : Once E
      o = (run_task_once env b w).0

      w' : W
      w' = (run_task_once env b w).1

  longer-ne : (stss : List (Status E)) (st : Status E) → stss ++ (st ∷ []) ≢ []
  longer-ne [] st = λ p. cc
  longer-ne (s ∷ stss) st = λ p. cc

  Tries-IsSettled :
      {delay done before left : ℕ} {stss : List (Status E)} {w : W} {r : Outcome E × W}
      → Tries delay done before left stss w r
      → (left ≡ 0 → stss ≢ [])
      → IsSettled r.0
  Tries-IsSettled no_status ne = absurd (ne refl refl)
  Tries-IsSettled none_left ne = tt
  Tries-IsSettled (good g) ne = tt
  Tries-IsSettled (first_bad g) ne = tt
  Tries-IsSettled (later_bad g) ne = tt
  Tries-IsSettled (again {st = st} {stss = stss} g h) ne =
      Tries-IsSettled h (λ _. longer-ne stss st)

  -- The task runner ends with success or with a status for every task and every context: it neither
  -- runs on after its fifth try nor takes a status from an empty list.
  pub run_tasks-IsSettled : (w : W) → IsSettled (run_tasks env w).0
  unfolding run_tasks
  run_tasks-IsSettled w =
      Tries-IsSettled
        (run_task-Tries (suc task_max_retries) task_max_retries new_retry [] w (omega arith) refl
          (omega arith))
        (λ e. cc)
