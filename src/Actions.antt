-- ===== src/Actions.antt =====
-- watch/src/actions/watch_actions.h and watch_actions.c: the optimistic music action.
pub mod Lifecycle
pub mod Status
mod Tests
use cmf_watch_pro_2_os.Base.{
  ℕ, ◌+◌, ◌-◌, ◌%◌, ◌^◌, Bool, true, false, not, ◌&&◌, ◌||◌, List, [], ◌∷◌, ◌++◌, ltb, leb, ◌==◌,
  if◌then◌else◌, length, codes, copy_text,
}
use cmf_watch_pro_2_os.State.{WatchState}
use cmf_watch_pro_2_os.Protocol.Messages.{Message, MessageType, same_type}

abbrev pub action_timeout_ms : ℕ
action_timeout_ms = 5000

-- `struct watch_actions`
pub record Actions : Type 0 where
  pub pending : Bool
  pub previous_music_playing : Bool
  pub message_id : ℕ
  pub started_at_ms : ℕ

-- `memcmp` of the needle with as many bytes of the text, false where fewer are left.
unfoldable pub starts_with : List ℕ → List ℕ → Bool
starts_with [] text = true
starts_with (a ∷ needle) [] = false
starts_with (a ∷ needle) (b ∷ text) = a == b && starts_with needle text

-- The loop over `index`: the list is the payload from `index` on.
unfoldable pub contains : List ℕ → List ℕ → Bool
unfolding starts_with
contains needle [] = starts_with needle []
contains needle (b ∷ text) = starts_with needle (b ∷ text) || contains needle text

abbrev pub status_needle : List ℕ → List ℕ
status_needle status = codes "\"status\":\"" ++ status ++ codes "\""

-- `char needle[32]` must hold the status, 11 more bytes and a terminator.
unfoldable pub payload_contains_status : Message → List ℕ → Bool
unfolding contains
payload_contains_status message status =
    if leb 32 (length status + 12) then false else contains (status_needle status) message.payload

unfoldable pub set_feedback : WatchState → List ℕ → WatchState
set_feedback s feedback = record s { music_action_feedback = copy_text 32 feedback }

abbrev pub init : Actions
init = record { pending = false; previous_music_playing = false; message_id = 0; started_at_ms = 0 }

unfoldable pub begin_music : Actions → WatchState → ℕ → Actions × WatchState × Bool
unfolding set_feedback
begin_music a s now_ms = if a.pending then (a, s, false) else (
  record {
    pending = true;
    previous_music_playing = s.music_playing;
    message_id = 0;
    started_at_ms = now_ms;
  },
  set_feedback (record s { music_playing = not s.music_playing; music_action_pending = true })
      (codes "SYNCING ACTION"),
  true,
)

unfoldable pub bind_message : Actions → ℕ → Actions
bind_message a message_id = record a { message_id = message_id }

unfoldable pub fail : Actions → WatchState → List ℕ → Actions × WatchState
unfolding set_feedback
fail a s feedback =
    if a.pending
    then (
      record a { pending = false },
      set_feedback
          (record s { music_playing = a.previous_music_playing; music_action_pending = false })
          feedback,
    )
    else (a, s)

-- The message answers the action that is pending.
abbrev pub answers : Actions → Message → Bool
answers a message =
    a.pending
    && same_type message.type MessageType.command_result
    && message.has_reply_to
    && message.reply_to == a.message_id

unfoldable pub handle_result : Actions → WatchState → Message → Actions × WatchState × Bool
unfolding fail same_type set_feedback
handle_result a s message =
    if answers a message
    then (if payload_contains_status message (codes "ok")
        then (
          record a { pending = false },
          set_feedback (record s { music_action_pending = false }) (codes "HOST CONFIRMED"),
          true,
        )
        else (let (a', s') = fail a s (codes "ACTION REJECTED") in (a', s', true)))
    else (a, s, false)

-- `now_ms - started_at_ms` is a uint64_t difference.
abbrev pub elapsed : Actions → ℕ → ℕ
elapsed a now_ms = (now_ms + 2 ^ 64 - a.started_at_ms) % 2 ^ 64

unfoldable pub poll_timeout : Actions → WatchState → ℕ → Actions × WatchState × Bool
unfolding fail
poll_timeout a s now_ms =
    if not a.pending || ltb (elapsed a now_ms) action_timeout_ms
    then (a, s, false)
    else let (a', s') = fail a s (codes "ACTION TIMEOUT") in (a', s', true)
