-- ===== src/Votes/Events.antt =====
-- be/tasks/add_pic_vote.go, be/tasks/add_pic_comment_task.go: who is told of a vote, and what the events
-- change in the tables.
use mathlib.Core.List.{append-nil, append_assoc}
use pixur.Base.{
  ℕ, ◌≡◌, ◌∙◌, refl, sym, ap, arith, false, ◌&&◌, not, Option, none, some, List, [], ◌∷◌, ◌++◌,
  ◌==◌, Bool-cases, inl, inr,
}
use pixur.Schema.{Time, Tables, UserEvent, Event, anonymous_user_id, Pic}
use pixur.Job.{Job, Action, ◌>>=◌}
use pixur.Job.Returns.{Returns, Returns-bind, Returns-weaken, Returns-pure, Returns-require}
use pixur.Tables.{int}
use pixur.Tables.Users.{user_events_table, user_events_primary}
use pixur.Tables.Rows.{after, Returns-bind-find, Returns-bind-insert}
use pixur.Votes.{
  contains_id, notified, next_user_event_index, make_events, insert_events, tell_users, vote_events,
  seen_first,
}

contains_id_at : (js : List ℕ) (u i : ℕ) → u ≡ i → contains_id js u ≡ contains_id js i
contains_id_at js u i e = ap (contains_id js) e

-- A user is told of a vote exactly when the user is a source of the picture, not anonymous, and has
-- not had an event for it.
pub notified_lem :
    (seen us : List ℕ) (i : ℕ)
    → contains_id (notified seen us) i
      ≡ (contains_id us i && (not (i == anonymous_user_id) && not (contains_id seen i)))
unfolding notified
notified_lem seen [] i = refl
notified_lem seen (u ∷ us) i =
    ground (arith, notified_lem (u ∷ seen) us i, notified_lem seen us i, contains_id_at seen u i)

-- No user twice.
abbrev pub IsOnce : List ℕ → Type 0
IsOnce [] = Unit
IsOnce (i ∷ is) = (contains_id is i ≡ false) × IsOnce is

-- No user is told of a vote twice.
pub notified-IsOnce : (seen us : List ℕ) → IsOnce (notified seen us)
unfolding notified
notified-IsOnce seen [] = tt
notified-IsOnce seen (u ∷ us) =
    elim (Bool-cases (not (u == anonymous_user_id) && not (contains_id seen u))) [
      | inl told ↦
          rw told (notified_lem (u ∷ seen) us u ∙ out u us seen, notified-IsOnce (u ∷ seen) us)
      | inr not_told ↦ rw not_told (notified-IsOnce seen us)
    ]
  where
    out :
        (u : ℕ) (us seen : List ℕ)
        → (contains_id us u && (not (u == anonymous_user_id) && not (contains_id (u ∷ seen) u)))
          ≡ false
    out u us seen = ground arith

-- All tables but the events are as before.
abbrev pub SameButEvents : Tables → Tables → Type 0
SameButEvents t t' = t' ≡ record t { user_events = t'.user_events }

abbrev pub event_users : List UserEvent → List ℕ
event_users [] = []
event_users (ue ∷ ues) = ue.user_id ∷ event_users ues

event_users-append :
    (ues ves : List UserEvent) → event_users (ues ++ ves) ≡ event_users ues ++ event_users ves
event_users-append [] ves = refl
event_users-append (ue ∷ ues) ves = ap (λ l. ue.user_id ∷ l) (event_users-append ues ves)

with_events : Tables → List UserEvent → Tables
with_events t ues = record t { user_events = t.user_events ++ ues }

-- The tables after a vote has told everyone: one event for the voter, and one for each other user of
-- the picture.
abbrev pub Told : ℕ → List ℕ → Tables → Tables → Type 0
Told user_id told t t' =
    (ues : List UserEvent) × (t' ≡ record t { user_events = t.user_events ++ ues })
    × (event_users ues ≡ seen_first user_id ++ notified (seen_first user_id) told)

module _ {E : Type 0} where
  pub Returns-bind-next_user_event_index :
      {B : Type 0} (s : Job E) (Q : B → Job E → Type 0) (user_id : ℕ) (created_ts : Time)
      (f : ℕ → Action E B)
      → ((idx : ℕ) (fs : List (Option E)) → Returns (f idx) (after s.tables fs) Q)
      → Returns (next_user_event_index user_id created_ts >>= f) s Q
  unfolding next_user_event_index
  Returns-bind-next_user_event_index s Q user_id created_ts f h =
      Returns-bind (next_user_event_index user_id created_ts) f s Q (
        Returns-bind-find user_events_table s _
          (user_events_primary
            (record { user_id = some user_id; created_ts = some created_ts; index = none }))
          0 (int user_id ∷ int created_ts ∷ []) _ refl
          (λ fs. Returns-require _ _ _ (λ idx e. h idx fs)))

  make_events_lem :
      (evt : ℕ → Event) (now : Time) (us : List ℕ) (s : Job E)
      → Returns
          (make_events evt now us)
          s
          (λ ues s'. (s'.tables ≡ s.tables) × (event_users ues ≡ us))
  unfolding make_events
  make_events_lem evt now [] s = Returns-pure _ _ _ (refl, refl)
  make_events_lem evt now (u ∷ us) s = Returns-bind-next_user_event_index s _ u now _ (λ idx fs.
      Returns-bind (make_events evt now us) _ (after s.tables fs) _ (
        Returns-weaken _ (after s.tables fs) _ _
          (λ ues s' (same, users). Returns-pure _ _ _ (same, ap (λ l. u ∷ l) users))
          (make_events_lem evt now us (after s.tables fs))))

  insert_events_lem :
      (ues : List UserEvent) (s : Job E)
      → Returns (insert_events ues) s (λ _ s'. s'.tables ≡ with_events s.tables ues)
  unfolding insert_events with_events
  insert_events_lem [] s =
      Returns-pure _ _ _
        (ap (λ l. record s.tables { user_events = l }) (sym (append-nil s.tables.user_events)))
  insert_events_lem (ue ∷ ues) s = Returns-bind-insert user_events_table s _ ue _ (λ new fs.
      Returns-weaken _ (after (with_events s.tables (ue ∷ [])) fs) _ _
        (λ _ s' e.
          e
          ∙ ap (λ l. record s.tables { user_events = l })
              (append_assoc s.tables.user_events (ue ∷ []) ues))
        (insert_events_lem ues (after (with_events s.tables (ue ∷ [])) fs)))

  -- Where the events are stored, the event table has one new row for the user that acts, unless
  -- that is the anonymous user, and behind it one for each user of the list of those to be told; no
  -- other table has changed.
  pub tell_users_lem :
      (outgoing_evt incoming_evt : ℕ → Event) (user_id : ℕ) (told : List ℕ) (now : Time) (s : Job E)
      → Returns
          (tell_users outgoing_evt incoming_evt user_id told now)
          s
          (λ _ s'. Told user_id told s.tables s'.tables)
  unfolding tell_users with_events
  tell_users_lem outgoing_evt incoming_evt user_id told now s =
      Returns-bind (make_events outgoing_evt now (seen_first user_id)) _ s _ (
        Returns-weaken _ s _ _
          (λ out s1 (same1, users1).
            Returns-bind (make_events _ now (notified (seen_first user_id) told)) _ s1 _ (
              Returns-weaken _ s1 _ _
                (λ inc s2 (same2, users2). Returns-bind (insert_events out) _ s2 _ (
                  Returns-weaken _ s2 _ _
                    (λ _ s3 e3.
                      Returns-weaken _ s3 _ _
                        (λ _ s4 e4. (
                          out ++ inc,
                          all_told s.tables s2.tables s3.tables s4.tables out inc (same2 ∙ same1) e3
                              e4,
                          event_users-append out inc ∙ rw (users1, users2) refl,
                        ))
                        (insert_events_lem inc s3))
                    (insert_events_lem out s2)))
                (make_events_lem _ now (notified (seen_first user_id) told) s1)))
          (make_events_lem _ now (seen_first user_id) s))
    where
      all_told :
          (t t2 t3 t4 : Tables) (out inc : List UserEvent)
          → t2 ≡ t
          → t3 ≡ with_events t2 out
          → t4 ≡ with_events t3 inc
          → t4 ≡ record t { user_events = t.user_events ++ (out ++ inc) }
      all_told t t2 t3 t4 out inc e2 e3 e4 =
          e4
          ∙ ap (λ x. with_events x inc) (e3 ∙ ap (λ x. with_events x out) e2)
          ∙ ap (λ l. record t { user_events = l }) (append_assoc t.user_events out inc)

  pub vote_events_lem :
      (user_id : ℕ) (p : Pic) (now : Time) (s : Job E)
      → Returns (vote_events user_id p now) s (λ _ s'. Told user_id p.source s.tables s'.tables)
  unfolding vote_events
  vote_events_lem user_id p now s = tell_users_lem _ _ user_id p.source now s
