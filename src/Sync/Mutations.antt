-- ===== src/Sync/Mutations.antt =====
-- A single mutation: `parse_mutation` and `apply_mutation` of watch_sync.c.
pub mod Sound
use cmf_watch_pro_2_os.Base.{
  ℕ, Bool, true, false, ◌&&◌, List, if◌then◌else◌, span_equal, codes, copy_text, Result, ok, err,
  Errno, einval, eperm, and_then,
}
use cmf_watch_pro_2_os.Base.Int.{ℤ, pos}
use cmf_watch_pro_2_os.Json.{Json, Token, TokenType}
use cmf_watch_pro_2_os.State.{WatchState, NotificationList}
use cmf_watch_pro_2_os.Protocol.Messages.{Message, MessageType, same_type}
use cmf_watch_pro_2_os.Sync.Values.{
  parse_u64, parse_i64, copy_string, find_member, parse_notifications,
}
use cmf_watch_pro_2_os.Sync.Snapshots.{or_invalid, checked, fits_i16, fits_u32}

-- The path of a mutation with its member of the union.
pub data Change : Type 0 where
  temperature : ℤ → Change
  weather_condition : List ℕ → Change
  music_title : List ℕ → Change
  music_playing : Bool → Change
  steps : ℕ → Change
  notifications : NotificationList → Change

-- `struct watch_sync_mutation`
pub record Mutation : Type 0 where
  pub occupied : Bool
  pub revision : ℕ
  pub change : Change

-- A slot after `memset`.
abbrev pub blank_mutation : Mutation
blank_mutation = record { occupied = false; revision = 0; change = temperature (pos 0) }

unfoldable pub apply_change : WatchState → Change → WatchState
apply_change s (temperature t) = record s { temperature_c = t }
apply_change s (weather_condition text) = record s { weather_condition = copy_text 32 text }
apply_change s (music_title text) = record s { music_title = copy_text 64 text }
apply_change s (music_playing flag) = record s { music_playing = flag }
apply_change s (steps n) = record s { steps = n }
apply_change s (notifications l) = record s { notifications = l }

abbrev pub flag_change : TokenType → Result Errno Change
flag_change TokenType.true_token = ok (music_playing true)
flag_change TokenType.false_token = ok (music_playing false)
flag_change _ = err einval

module _ (json : Json) where
  -- The registered paths; the notifications can only be set as a whole.
  unfoldable pub parse_change : MessageType → List ℕ → Token → Result Errno Change
  parse_change type path value =
      if span_equal path (codes "weather.temperature")
      then (or_invalid (parse_i64 value) λ t. checked (fits_i16 t) (temperature t))
      else if span_equal path (codes "weather.condition")
      then (or_invalid (copy_string value 96) λ text. ok (weather_condition text))
      else if span_equal path (codes "music.title")
      then (or_invalid (copy_string value 96) λ text. ok (music_title text))
      else if span_equal path (codes "music.playing")
      then flag_change value.type
      else if span_equal path (codes "steps")
      then (or_invalid (parse_u64 value) λ n. checked (fits_u32 n) (steps n))
      else if span_equal path (codes "notifications") && same_type type MessageType.state_set
      then (or_invalid (parse_notifications json value) λ l. ok (notifications l))
      else err eperm

  unfoldable pub parse_mutation : Message → Result Errno Mutation
  parse_mutation message =
      or_invalid (find_member json message.payload (codes "path")) λ path_token.
        or_invalid (find_member json message.payload (codes "value")) λ value_token.
          or_invalid (find_member json message.payload (codes "revision")) λ revision_token.
            or_invalid (copy_string path_token 40) λ path.
              or_invalid (parse_u64 revision_token) λ revision.
                and_then (parse_change message.type path value_token)
                  λ change. ok (record { occupied = true; revision = revision; change = change })
