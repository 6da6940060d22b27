-- ===== src/Actions/Tests.antt =====
-- Witnesses and runs of the optimistic action.
use cmf_watch_pro_2_os.Base.{
  ◌+◌, ◌^◌, ◌≤◌, ◌<◌, ◌≡◌, refl, ◌↔◌, true, false, [], ◌∷◌, arith, codes, copy_text,
}
use cmf_watch_pro_2_os.State
use cmf_watch_pro_2_os.State.{WatchState}
use cmf_watch_pro_2_os.Protocol.Messages.{Message, MessageType}
use cmf_watch_pro_2_os.Actions.{
  Actions, init, begin_music, bind_message, fail, handle_result, poll_timeout,
  payload_contains_status, status_needle,
}
use cmf_watch_pro_2_os.Actions.Status.{Occurs, payload_contains_status_iff}
use cmf_watch_pro_2_os.Actions.Lifecycle.{
  IsAnswer, fail-begin_music, handle_result_lem, poll_timeout_lem, begins, binds, results, polls,
  run, IsConsistent, run-IsConsistent,
}

abbrev accepted : Message
accepted = record {
  type = MessageType.command_result;
  id = 5;
  reply_to = 77;
  has_reply_to = true;
  payload = codes "{\"status\":\"ok\",\"code\":\"none\"}";
}

-- The same result, printed with a blank after the colon.
abbrev spaced : Message
spaced = record accepted { payload = codes "{\"status\": \"ok\",\"code\": \"none\"}" }

abbrev started : Actions
started = record {
  pending = true;
  previous_music_playing = false;
  message_id = 77;
  started_at_ms = 1000;
}

payload_contains_status_iff_example :
    (payload_contains_status accepted (codes "ok") ≡ true)
    ↔ Occurs (status_needle (codes "ok")) accepted.payload
payload_contains_status_iff_example =
    payload_contains_status_iff accepted (codes "ok") (omega arith)

accepted_is_ok : payload_contains_status accepted (codes "ok") ≡ true
unfolding payload_contains_status
accepted_is_ok = refl

spaced_is_not_ok : payload_contains_status spaced (codes "ok") ≡ false
unfolding payload_contains_status
spaced_is_not_ok = refl

fail-begin_music_example :
    let (a1, s1, started) = begin_music init State.init 1000 in
    let (a2, s2) = fail (bind_message a1 77) s1 (codes "HOST OFFLINE") in
    (started ≡ true)
    × (s1.music_playing ≡ true)
    × (a2.pending ≡ false)
    × (s2 ≡ record (State.init) {
      music_action_pending = false;
      music_action_feedback = copy_text 32 (codes "HOST OFFLINE");
    })
fail-begin_music_example = fail-begin_music init State.init 1000 77 (codes "HOST OFFLINE") refl

handle_result_lem_example :
    let (a', s', handled) = handle_result started State.init accepted in
    ((handled ≡ true) ↔ IsAnswer started accepted)
    × (handled ≡ true → (a'.pending ≡ false) × (s'.music_action_pending ≡ false))
    × (handled ≡ true
        → Occurs (codes "\"status\":\"ok\"") accepted.payload
        → (s'.music_playing ≡ State.init.music_playing)
          × (s'.music_action_feedback ≡ codes "HOST CONFIRMED"))
    × (handled ≡ true
        → ¬ Occurs (codes "\"status\":\"ok\"") accepted.payload
        → (s'.music_playing ≡ started.previous_music_playing)
          × (s'.music_action_feedback ≡ codes "ACTION REJECTED"))
    × (handled ≡ false → (a' ≡ started) × (s' ≡ State.init))
handle_result_lem_example = handle_result_lem started State.init accepted

poll_timeout_lem_example :
    let (a', s', expired) = poll_timeout started State.init 6000 in
    (1000 ≤ 6000 → ((expired ≡ true) ↔ (1000 + 5000 ≤ 6000)))
    × (6000 < 1000 → 1000 + 5000 ≤ 6000 + 2 ^ 64 → expired ≡ true)
    × (expired ≡ true → (a'.pending ≡ false) × (s'.music_playing ≡ false))
    × (expired ≡ false → (a' ≡ started) × (s' ≡ State.init))
poll_timeout_lem_example = poll_timeout_lem started State.init 6000 refl (omega arith) (omega arith)

-- The clock was set back by a second.
clock_set_back : (poll_timeout started State.init 0).2 ≡ true
unfolding poll_timeout
clock_set_back = refl

abbrev idle : Actions × WatchState
idle = (init, State.init)

idle-IsConsistent : IsConsistent idle
idle-IsConsistent = ground arith

run-IsConsistent_example :
    IsConsistent (run idle (begins 1000 ∷ binds 77 ∷ results accepted ∷ polls 9000 ∷ []))
run-IsConsistent_example =
    run-IsConsistent idle (begins 1000 ∷ binds 77 ∷ results accepted ∷ polls 9000 ∷ [])
      idle-IsConsistent
