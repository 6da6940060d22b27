-- ===== src/Sync/Snapshots.antt =====
-- The parsers of a snapshot in watch_sync.c. They fill a candidate state, which takes the place of the
-- state only after the whole snapshot was read.
pub mod Candidate
use cmf_watch_pro_2_os.Base.{
  ℕ, ◌^◌, ◌<◌, ◌-◌, Bool, true, false, ◌&&◌, List, [], Option, none, some, ltb, leb, if◌then◌else◌,
  span_equal, codes, Result, ok, err, Errno, einval, and_then,
}
use cmf_watch_pro_2_os.Base.Int.{ℤ, pos, negsuc}
use cmf_watch_pro_2_os.Json.{Json, Token, TokenType, Members, pair}
use cmf_watch_pro_2_os.State.{WatchState, reset_host_owned}
use cmf_watch_pro_2_os.Protocol.Messages.{Message}
use cmf_watch_pro_2_os.Sync.Values.{
  parse_u64, parse_i64, copy_string, find_member, parse_notifications,
}

-- Between INT16_MIN and INT16_MAX.
abbrev pub fits_i16 : ℤ → Bool
fits_i16 (pos n) = ltb n (2 ^ 15)
fits_i16 (negsuc n) = ltb n (2 ^ 15)

abbrev pub fits_u32 : ℕ → Bool
fits_u32 n = ltb n (2 ^ 32)

-- Any error of a value parser becomes -EINVAL.
abbrev pub or_invalid : {A B : Type 0} → Result Errno A → (A → Result Errno B) → Result Errno B
or_invalid (ok a) f = f a
or_invalid (err e) f = err einval

abbrev pub checked : {A : Type 0} → Bool → A → Result Errno A
checked true a = ok a
checked false a = err einval

-- A member that is missing, or that the parser fails to find, is passed over.
abbrev pub if_found :
    Result Errno Token → WatchState → (Token → Result Errno WatchState) → Result Errno WatchState
if_found (err e) s f = ok s
if_found (ok t) s f = f t

module _ (json : Json) where
  unfoldable pub parse_weather : Token → WatchState → Result Errno WatchState
  parse_weather token s = elim (token.type) [
    | TokenType.object_start ↦
        and_then
          (if_found (find_member json token.text (codes "temperature")) s λ value.
            or_invalid (parse_i64 value) λ t. checked (fits_i16 t) (record s { temperature_c = t }))
          λ s1. if_found (find_member json token.text (codes "condition")) s1 λ value.
            or_invalid (copy_string value 32) λ text. ok (record s1 { weather_condition = text })
    | _ ↦ err einval
  ]

  abbrev pub set_playing : WatchState → TokenType → Result Errno WatchState
  set_playing s TokenType.true_token = ok (record s { music_playing = true })
  set_playing s TokenType.false_token = ok (record s { music_playing = false })
  set_playing s _ = err einval

  unfoldable pub parse_music : Token → WatchState → Result Errno WatchState
  parse_music token s = elim (token.type) [
    | TokenType.object_start ↦
        and_then
          (if_found (find_member json token.text (codes "title")) s
            λ value. or_invalid (copy_string value 64) λ text. ok (record s { music_title = text }))
          λ s1.
            if_found (find_member json token.text (codes "playing")) s1
              λ value. set_playing s1 value.type
    | _ ↦ err einval
  ]

  -- The body of the loop over the members of `state`.
  unfoldable pub read_member : List ℕ → Token → WatchState → Result Errno WatchState
  unfolding parse_weather parse_music
  read_member key value s =
      if span_equal key (codes "weather")
      then parse_weather value s
      else if span_equal key (codes "music")
      then parse_music value s
      else if span_equal key (codes "steps")
      then (or_invalid (parse_u64 value) λ n. checked (fits_u32 n) (record s { steps = n }))
      else if span_equal key (codes "notifications")
      then (or_invalid (parse_notifications json value) λ l. ok (record s { notifications = l }))
      else ok s

  unfoldable pub read_members : Members → WatchState → Result Errno WatchState
  unfolding read_member
  read_members Members.finished s = ok s
  read_members Members.malformed s = err einval
  read_members (pair key value rest) s = elim (read_member key value s) [
    | err e ↦ err e
    | ok s1 ↦ read_members rest s1
  ]

  abbrev pub is_object : Token → Result Errno (List ℕ)
  is_object token = elim (token.type) [ TokenType.object_start ↦ ok token.text | _ ↦ err einval ]

  -- The candidate and the revision of a snapshot.
  unfoldable pub parse_snapshot : Message → WatchState → Result Errno (WatchState × ℕ)
  unfolding read_members
  parse_snapshot message s =
      or_invalid (find_member json message.payload (codes "revision")) λ revision_token.
        or_invalid (parse_u64 revision_token) λ revision.
          or_invalid (find_member json message.payload (codes "state")) λ state_token.
            and_then (is_object state_token) λ text. elim (json.members text) [
              | none ↦ err einval
              | some ms ↦ elim (read_members ms (reset_host_owned s)) [
                | err e ↦ err e
                | ok candidate ↦ ok (candidate, revision)
              ]
            ]
