-- ===== src/Actions/Lifecycle.antt =====
-- An optimistic action from its start to its end.
use cmf_watch_pro_2_os.Base.{
  ℕ, ◌+◌, ◌^◌, ◌≤◌, ◌<◌, ◌≡◌, ◌↔◌, refl, inl, inr, Bool-cases, true, false, not, List, [], ◌∷◌,
  arith, codes, copy_text,
}
use cmf_watch_pro_2_os.State.{WatchState}
use cmf_watch_pro_2_os.Protocol.Messages.{Message, MessageType, same_type, type_index}
use cmf_watch_pro_2_os.Actions.Status.{Occurs, payload_contains_status_iff}
use cmf_watch_pro_2_os.Actions.{
  Actions, action_timeout_ms, answers, payload_contains_status, begin_music, bind_message, fail,
  handle_result, poll_timeout, set_feedback,
}

-- An action that starts and then fails leaves the watch as it was, but for the feedback, whatever
-- message was bound to it in between; the action is no longer pending.
pub fail-begin_music :
    (a : Actions) (s : WatchState) (now_ms message_id : ℕ) (feedback : List ℕ)
    → a.pending ≡ false
    → let (a1, s1, started) = begin_music a s now_ms in
      let (a2, s2) = fail (bind_message a1 message_id) s1 feedback in
      (started ≡ true)
      × (s1.music_playing ≡ not s.music_playing)
      × (a2.pending ≡ false)
      × (s2 ≡ record s {
        music_action_pending = false;
        music_action_feedback = copy_text 32 feedback;
      })
unfolding begin_music bind_message fail
fail-begin_music a s now_ms message_id feedback idle = ground arith

type_index-injective :
    (t : MessageType)
    → type_index t ≡ type_index MessageType.command_result
    → t ≡ MessageType.command_result
unfolding type_index
type_index-injective MessageType.command_result e = refl
type_index-injective _ e = absurd (ground arith)

same_type-command_result :
    (t : MessageType)
    → same_type t MessageType.command_result ≡ true
    → t ≡ MessageType.command_result
unfolding same_type
same_type-command_result t e = type_index-injective t (ground arith)

-- What makes a message the answer: an action is pending, and the message is a result that replies to
-- the message that the action was sent with.
abbrev pub IsAnswer : Actions → Message → Type 0
IsAnswer a m =
    (a.pending ≡ true)
    × (m.type ≡ MessageType.command_result)
    × (m.has_reply_to ≡ true)
    × (m.reply_to ≡ a.message_id)

answers_iff : (a : Actions) (m : Message) → (answers a m ≡ true) ↔ IsAnswer a m
unfolding same_type
answers_iff a m = (
  λ e. (ground arith, same_type-command_result m.type (ground arith), ground arith, ground arith),
  λ (p, t, h, r). rw (t) (ground arith),
)

-- A message is taken for the answer exactly if it is the result that replies to the message of the action
-- that is pending, and it ends that action. Where its payload holds the compact text "status":"ok" at any
-- place, the music keeps the optimistic value; where it does not, the music gets the value from before
-- the action; the user is told which. Any other message changes neither the action nor the watch.
pub handle_result_lem :
    (a : Actions) (s : WatchState) (m : Message)
    → let (a', s', handled) = handle_result a s m in
      ((handled ≡ true) ↔ IsAnswer a m)
      × (handled ≡ true → (a'.pending ≡ false) × (s'.music_action_pending ≡ false))
      × (handled ≡ true
          → Occurs (codes "\"status\":\"ok\"") m.payload
          → (s'.music_playing ≡ s.music_playing)
            × (s'.music_action_feedback ≡ codes "HOST CONFIRMED"))
      × (handled ≡ true
          → ¬ Occurs (codes "\"status\":\"ok\"") m.payload
          → (s'.music_playing ≡ a.previous_music_playing)
            × (s'.music_action_feedback ≡ codes "ACTION REJECTED"))
      × (handled ≡ false → (a' ≡ a) × (s' ≡ s))
unfolding handle_result fail set_feedback
handle_result_lem a s m =
    let (found, holds) = payload_contains_status_iff m (codes "ok") (omega arith) in
    elim (Bool-cases (answers a m)) [
      | inr e ↦ rw (e) (
        (λ h. absurd (cc), λ h. absurd (let t = (answers_iff a m).1 h in cc)),
        λ h. absurd (cc),
        λ h. absurd (cc),
        λ h. absurd (cc),
        λ h. (refl, refl),
      )
      | inl e ↦
          let (pending, t, reply, id) = (answers_iff a m).0 e in
          elim (Bool-cases (payload_contains_status m (codes "ok"))) [
            | inl c ↦
                rw (e, c)
                  (
                    (λ h. (answers_iff a m).0 e, λ h. refl),
                    λ h. (refl, refl),
                    λ h o. (refl, refl),
                    λ h no. absurd (no (found c)),
                    λ h. absurd (cc),
                  )
            | inr c ↦
                rw (e, c, pending)
                  (
                    (λ h. (refl, t, reply, id), λ h. refl),
                    λ h. (refl, refl),
                    λ h o. absurd (let t = holds o in cc),
                    λ h no. (refl, refl),
                    λ h. absurd (cc),
                  )
          ]
    ]

-- While the clock has not passed the start by 2 ^ 64 milliseconds, a pending action times out
-- exactly when 5000 ms have passed, and then rolls the music back. But a clock that stands before
-- the start, by any amount up to 2 ^ 64 - 5000, times the action out at once.
pub poll_timeout_lem :
    (a : Actions) (s : WatchState) (now_ms : ℕ)
    → a.pending ≡ true
    → a.started_at_ms < 2 ^ 64
    → now_ms < 2 ^ 64
    → let (a', s', expired) = poll_timeout a s now_ms in
      (a.started_at_ms ≤ now_ms
        → ((expired ≡ true) ↔ (a.started_at_ms + action_timeout_ms ≤ now_ms)))
      × (now_ms < a.started_at_ms
          → a.started_at_ms + action_timeout_ms ≤ now_ms + 2 ^ 64
          → expired ≡ true)
      × (expired ≡ true → (a'.pending ≡ false) × (s'.music_playing ≡ a.previous_music_playing))
      × (expired ≡ false → (a' ≡ a) × (s' ≡ s))
unfolding poll_timeout
poll_timeout_lem a s now_ms p h k = ground arith

-- The operations, with the arguments that the runtime gives them.
pub data Event : Type 0 where
  begins : ℕ → Event
  binds : ℕ → Event
  fails : List ℕ → Event
  results : Message → Event
  polls : ℕ → Event

unfoldable pub step : Actions × WatchState → Event → Actions × WatchState
step (a, s) (begins now_ms) = let (a', s', _) = begin_music a s now_ms in (a', s')
step (a, s) (binds id) = (bind_message a id, s)
step (a, s) (fails feedback) = fail a s feedback
step (a, s) (results m) = let (a', s', _) = handle_result a s m in (a', s')
step (a, s) (polls now_ms) = let (a', s', _) = poll_timeout a s now_ms in (a', s')

unfoldable pub run : Actions × WatchState → List Event → Actions × WatchState
run c [] = c
run c (e ∷ es) = run (step c e) es

-- What the screen shows as pending is the action's own flag, and while an action is pending the
-- music shows the opposite of the value kept for the rollback.
pub record IsConsistent (c : Actions × WatchState) : Type 0 where
  pub shown : c.1.music_action_pending ≡ c.0.pending
  pub toggled : c.0.pending ≡ true → c.1.music_playing ≡ not c.0.previous_music_playing

step-IsConsistent :
    (c : Actions × WatchState) (e : Event) → IsConsistent c → IsConsistent (step c e)
unfolding step begin_music bind_message fail handle_result poll_timeout
step-IsConsistent c (begins now_ms) v = ground arith
step-IsConsistent c (binds id) v = ground arith
step-IsConsistent c (fails feedback) v = ground arith
step-IsConsistent c (results m) v = ground arith
step-IsConsistent c (polls now_ms) v = ground arith

-- Every sequence of the action's operations keeps the pending flag of the state and the toggled
-- music consistent with the action.
pub run-IsConsistent :
    (c : Actions × WatchState) (es : List Event) → IsConsistent c → IsConsistent (run c es)
unfolding run
run-IsConsistent c [] v = v
run-IsConsistent c (e ∷ es) v = run-IsConsistent (step c e) es (step-IsConsistent c e v)
