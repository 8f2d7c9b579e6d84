-- ===== src/Runner/Attempt.antt =====
-- be/tasks/task_runner.go: the ways in which one try of a task ends.
use pixur.Base.{
  ℕ, ◌+◌, ◌≤◌, ◌<◌, ◌≡◌, ◌∙◌, refl, sym, ap, arith, true, false, Option, none, some, List, [], ◌∷◌,
  ltb, Bool-cases, Option-cases, inl, inr,
}
use pixur.Schema.{Time}
use pixur.Job.{Status, deadline_exceeded}
use pixur.Runner.{Once, Env, after_run, sleep_once, is_retryable, too_late, run_task_once}

module _ {E W : Type 0} (env : Env E W) where
  -- A try that succeeds: the context is not done, and the task returns without a status.
  abbrev pub Good : W → W → Type 0
  Good w w' = (env.done w ≡ none) × (env.run w ≡ (none, w'))

  -- A try that is not to be repeated, with its statuses: the context was done before the task was run,
  -- the status of the task is not one to try again after, the sleep before the next try would end behind
  -- the deadline, or the context ended meanwhile.
  pub data Bad (b : ℕ) (w : W) : Status E → List (Status E) → W → Type 0 where
    cancelled : {e : Status E} → env.done w ≡ some e → Bad b w e [] w
    refused :
        {st : Status E} {w' : W}
        → env.done w ≡ none
        → env.run w ≡ (some st, w')
        → is_retryable env st ≡ false
        → Bad b w st [] w'
    late :
        {st : Status E} {d : Time} {w' : W}
        → env.done w ≡ none
        → env.run w ≡ (some st, w')
        → is_retryable env st ≡ true
        → env.deadline w' ≡ some d
        → d < env.now w' + b
        → Bad b w st (deadline_exceeded ∷ []) w'
    interrupted :
        {st e : Status E} {w' w'' : W}
        → env.done w ≡ none
        → env.run w ≡ (some st, w')
        → is_retryable env st ≡ true
        → ((d : Time) → env.deadline w' ≡ some d → env.now w' + b ≤ d)
        → env.wait b w' ≡ (some e, w'')
        → Bad b w st (e ∷ []) w''

  -- A try that is to be repeated, with its status: there is time for the sleep, and the sleep is over.
  pub record Again (b : ℕ) (w : W) (st : Status E) (w'' : W) : Type 0 where
    pub meanwhile : W
    pub goes_on : env.done w ≡ none
    pub ran : env.run w ≡ (some st, meanwhile)
    pub retryable : is_retryable env st ≡ true
    pub in_time : (d : Time) → env.deadline meanwhile ≡ some d → env.now meanwhile + b ≤ d
    pub slept : env.wait b meanwhile ≡ (none, w'')

  -- What `runTaskOnce` returns of a try.
  pub data Tried (b : ℕ) (w : W) : Once E × W → Type 0 where
    tried_good :
        {w' : W} → Good w w' → Tried b w (record { success = true; retry = false; stss = [] }, w')
    tried_bad :
        {st : Status E} {more : List (Status E)} {w' : W}
        → Bad b w st more w'
        → Tried b w (record { success = false; retry = false; stss = st ∷ more }, w')
    tried_again :
        {st : Status E} {w' : W}
        → Again b w st w'
        → Tried b w (record { success = false; retry = true; stss = st ∷ [] }, w')

  slept-Tried :
      (b : ℕ) (w w' : W) (st : Status E) (found : Option (Status E) × W)
      → env.done w ≡ none
      → env.run w ≡ (some st, w')
      → is_retryable env st ≡ true
      → ((d : Time) → env.deadline w' ≡ some d → env.now w' + b ≤ d)
      → env.wait b w' ≡ found
      → Tried b w (sleep_once env st b w')
  slept-Tried b w w' st (none, w'') goes ran retry in_time e =
      rw (e, sleep_once)
        (tried_again (record {
          meanwhile = w';
          goes_on = goes;
          ran = ran;
          retryable = retry;
          in_time = in_time;
          slept = e ∙ ap (λ x. (none, x)) (sym (ap (λ p. p.1) e));
        }))
  slept-Tried b w w' st (some c, w'') goes ran retry in_time e =
      rw (e, sleep_once)
        (tried_bad
          (interrupted goes ran retry in_time (e ∙ ap (λ x. (some c, x)) (sym (ap (λ p. p.1) e)))))

  timed-Tried :
      (b : ℕ) (w w' : W) (st : Status E) (deadline : Option Time)
      → env.done w ≡ none
      → env.run w ≡ (some st, w')
      → is_retryable env st ≡ true
      → env.deadline w' ≡ deadline
      → Tried b w (after_run env (some st) b w')
  timed-Tried b w w' st none goes ran retry e =
      rw (retry, e, too_late)
        (slept-Tried b w w' st (env.wait b w') goes ran retry (λ d p. absurd (clash (sym e ∙ p)))
          refl)
    where
      clash : {d : Time} → ¬ (none ≡ some d)
      clash p = cc
  timed-Tried b w w' st (some d) goes ran retry e = elim (Bool-cases (ltb d (env.now w' + b))) [
    | inl behind ↦
        rw (retry, e, behind, too_late) (tried_bad (late goes ran retry e (ground (arith, behind))))
    | inr before ↦
        rw (retry, e, before, too_late)
          (slept-Tried b w w' st (env.wait b w') goes ran retry
            (λ d' p. in_time (env.now w' + b) d d' before (sym e ∙ p)) refl)
  ]
    where
      in_time : (n d d' : ℕ) → ltb d n ≡ false → some d ≡ some d' → n ≤ d'
      in_time n d d' h p = ground (arith, h, p)

  ran-Tried :
      (b : ℕ) (w w' : W) (res : Option (Status E))
      → env.done w ≡ none
      → env.run w ≡ (res, w')
      → Tried b w (after_run env res b w')
  ran-Tried b w w' none goes ran = tried_good (goes, ran)
  ran-Tried b w w' (some st) goes ran = elim (Bool-cases (is_retryable env st)) [
    | inl retry ↦ timed-Tried b w w' st (env.deadline w') goes ran retry refl
    | inr stop ↦ rw stop (tried_bad (refused goes ran stop))
  ]

  pub run_task_once-Tried : (b : ℕ) (w : W) → Tried b w (run_task_once env b w)
  unfolding run_task_once
  run_task_once-Tried b w = elim (Option-cases (env.done w)) [
    | inl goes ↦ rw (goes, run_task_once) (ran-Tried b w (env.run w).1 (env.run w).0 goes refl)
    | inr (e, ended) ↦ rw (ended, run_task_once) (tried_bad (cancelled ended))
  ]
