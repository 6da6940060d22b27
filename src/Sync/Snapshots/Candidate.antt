-- ===== src/Sync/Snapshots/Candidate.antt =====
-- What a snapshot may change, and that its result is safe to show.
use cmf_watch_pro_2_os.Base.{
  ℕ, ◌^◌, ◌<◌, ◌≡◌, ◌∙◌, inl, inr, List, none, some, arith, length, codes, Result, ok, err, Errno,
  einval, Result-cases, Option-cases,
}
use cmf_watch_pro_2_os.Json.{Json, Token, TokenType, Members, pair}
use cmf_watch_pro_2_os.State.{WatchState, Screen, ConnectionState, reset_host_owned}
use cmf_watch_pro_2_os.State.Browse.{IsBrowsable, EntriesFit, init-EntriesFit}
use cmf_watch_pro_2_os.Protocol.Messages.{Message}
use cmf_watch_pro_2_os.Sync.Values.{parse_u64, copy_string, find_member, parse_notifications}
use cmf_watch_pro_2_os.Sync.Values.Numerals.{parse_u64_iff}
use cmf_watch_pro_2_os.Sync.Values.Notifications.{
  length-copy_string, parse_notifications-IsBrowsable,
}
use cmf_watch_pro_2_os.Sync.Snapshots.{
  parse_weather, parse_music, read_member, read_members, parse_snapshot, or_invalid, checked,
  fits_u32, is_object,
}

-- What the watch owns: no message may change it.
abbrev pub watch_owned : WatchState → Screen × ConnectionState × ℕ × List ℕ × List ℕ × List ℕ
watch_owned s =
    (s.active_screen, s.connection, s.battery_percent, s.time_text, s.day_text, s.date_text)

-- A state whose texts from the host leave room for their terminators, in each array that a message
-- writes (the condition, the music title, and the title and body of each notification), and whose
-- notifications can be browsed.
pub record IsSafe (s : WatchState) : Type 0 where
  pub condition : length s.weather_condition < 32
  pub title : length s.music_title < 64
  pub browsable : IsBrowsable s.notifications
  pub texts : EntriesFit s.notifications.entries

-- A step from one candidate to the next.
pub record Fills (s s' : WatchState) : Type 0 where
  pub owned : watch_owned s' ≡ watch_owned s
  pub safe : IsSafe s → IsSafe s'

pub Fills-trans : {s t u : WatchState} → Fills s t → Fills t u → Fills s u
Fills-trans p q = record { owned = q.owned ∙ p.owned; safe = λ h. q.safe (p.safe h) }

reset-IsSafe : (s : WatchState) → IsSafe (reset_host_owned s)
reset-IsSafe s = record {
  condition = omega arith;
  title = omega arith;
  browsable = omega arith;
  texts = init-EntriesFit;
}

module _ (json : Json) where
  weather_fits :
      (text : List ℕ) (s : WatchState) {s' : WatchState}
      → parse_weather json (record { type = TokenType.object_start; text = text }) s ≡ ok s'
      → IsSafe s
      → length s'.weather_condition < 32
  unfolding parse_weather
  weather_fits text s e h = elim (Result-cases (find_member json text (codes "condition"))) [
    | inl (v, q) ↦ elim (Result-cases (copy_string v 32)) [
      | inl (out, c) ↦ ground (arith, length-copy_string v 32 c)
      | inr (x, c) ↦ ground arith
    ]
    | inr (x, q) ↦ ground arith
  ]

  weather_fills :
      (type : TokenType) (text : List ℕ) (s : WatchState) {s' : WatchState}
      → parse_weather json (record { type = type; text = text }) s ≡ ok s'
      → Fills s s'
  unfolding parse_weather
  weather_fills TokenType.object_start text s e = record {
    owned = ground arith;
    safe = λ h. record {
      condition = weather_fits text s e h;
      title = ground arith;
      browsable = ground arith;
      texts = ground arith;
    };
  }
  weather_fills _ text s e = absurd (ground arith)

  title_fits :
      (text : List ℕ) (s : WatchState) {s' : WatchState}
      → parse_music json (record { type = TokenType.object_start; text = text }) s ≡ ok s'
      → IsSafe s
      → length s'.music_title < 64
  unfolding parse_music
  title_fits text s e h = elim (Result-cases (find_member json text (codes "title"))) [
    | inl (v, q) ↦ elim (Result-cases (copy_string v 64)) [
      | inl (out, c) ↦ ground (arith, length-copy_string v 64 c)
      | inr (x, c) ↦ ground arith
    ]
    | inr (x, q) ↦ ground arith
  ]

  music_fills :
      (type : TokenType) (text : List ℕ) (s : WatchState) {s' : WatchState}
      → parse_music json (record { type = type; text = text }) s ≡ ok s'
      → Fills s s'
  unfolding parse_music
  music_fills TokenType.object_start text s e = record {
    owned = ground arith;
    safe = λ h. record {
      condition = ground arith;
      title = title_fits text s e h;
      browsable = ground arith;
      texts = ground arith;
    };
  }
  music_fills _ text s e = absurd (ground arith)

  notifications_fill :
      (value : Token) (s : WatchState) {s' : WatchState}
      → (or_invalid (parse_notifications json value) λ l. ok (record s { notifications = l }))
        ≡ ok s'
      → Fills s s'
  notifications_fill value s e = elim (Result-cases (parse_notifications json value)) [
    | inl (l, q) ↦
        let b = parse_notifications-IsBrowsable json value q in
        record {
          owned = ground arith;
          safe = λ h. record {
            condition = ground arith;
            title = ground arith;
            browsable = ground (arith, b);
            texts = ground (arith, b);
          };
        }
    | inr (x, q) ↦ absurd (ground arith)
  ]

  steps_fill :
      (value : Token) (s : WatchState) {s' : WatchState}
      → (or_invalid (parse_u64 value) λ n. checked (fits_u32 n) (record s { steps = n })) ≡ ok s'
      → Fills s s'
  steps_fill value s e = record {
    owned = ground arith;
    safe = λ h. record {
      condition = ground arith;
      title = ground arith;
      browsable = ground arith;
      texts = ground arith;
    };
  }

  member_fills :
      (key : List ℕ) (value : Token) (s : WatchState) {s' : WatchState}
      → read_member json key value s ≡ ok s'
      → Fills s s'
  unfolding read_member
  member_fills key value s {s'} e = ground (
    arith,
    weather_fills value.type value.text s {s' = s'},
    music_fills value.type value.text s {s' = s'},
    steps_fill value s {s' = s'},
    notifications_fill value s {s' = s'},
  )

  members_fill :
      (ms : Members) (s : WatchState) {s' : WatchState}
      → read_members json ms s ≡ ok s'
      → Fills s s'
  unfolding read_members
  members_fill Members.finished s e = record { owned = ground arith; safe = ground arith }
  members_fill Members.malformed s e = absurd (ground arith)
  members_fill (pair key value rest) s {s'} e = elim (Result-cases (read_member json key value s)) [
    | inl (s1, q) ↦
        Fills-trans (member_fills key value s q) (members_fill rest s1 {s' = s'} (ground arith))
    | inr (x, q) ↦ absurd (ground arith)
  ]

  -- The end of `parse_snapshot`, after its revision and the members' text were found.
  abbrev filled_in : List ℕ → WatchState → ℕ → Result Errno (WatchState × ℕ)
  filled_in text s revision = elim (json.members text) [
    | none ↦ err einval
    | some ms ↦ elim (read_members json ms (reset_host_owned s)) [
      | err e ↦ err e
      | ok c ↦ ok (c, revision)
    ]
  ]

  candidate_fits :
      (text : List ℕ) (s : WatchState) (revision : ℕ) {candidate : WatchState} {r : ℕ}
      → filled_in text s revision ≡ ok (candidate, r)
      → (watch_owned candidate ≡ watch_owned s) × IsSafe candidate × (r ≡ revision)
  candidate_fits text s revision {candidate} {r} e = elim (Option-cases (json.members text)) [
    | inl n ↦ absurd (ground arith)
    | inr (ms, q) ↦ elim (Result-cases (read_members json ms (reset_host_owned s))) [
      | inr (x, p) ↦ absurd (ground arith)
      | inl (c, p) ↦ ground (arith, members_fill ms (reset_host_owned s) p, reset-IsSafe s)
    ]
  ]

  -- A snapshot that is accepted never changes what the watch owns (the screen, the connection, the
  -- battery and the clock texts), whatever members its JSON has, and whatever the state was: the
  -- weather's condition, the music's title and the title and body of each notification fit their
  -- arrays of 32, 64, 48 and 96 bytes with a terminator, and the notifications can be browsed. Its
  -- revision is a uint64_t.
  pub parse_snapshot-IsSafe :
      (message : Message) (s candidate : WatchState) (revision : ℕ)
      → parse_snapshot json message s ≡ ok (candidate, revision)
      → (watch_owned candidate ≡ watch_owned s) × IsSafe candidate × (revision < 2 ^ 64)
  unfolding parse_snapshot
  parse_snapshot-IsSafe message s candidate revision e =
      elim (Result-cases (find_member json message.payload (codes "revision"))) [
        | inr (x, p) ↦ absurd (ground arith)
        | inl (v, p) ↦ elim (Result-cases (parse_u64 v)) [
          | inr (x, q) ↦ absurd (ground arith)
          | inl (n, q) ↦ elim (Result-cases (find_member json message.payload (codes "state"))) [
            | inr (x, t) ↦ absurd (ground arith)
            | inl (st, t) ↦ elim (Result-cases (is_object json st)) [
              | inr (x, o) ↦ absurd (ground arith)
              | inl (text, o) ↦ ground (
                arith,
                candidate_fits text s n {candidate = candidate} {r = revision},
                parse_u64_iff v n,
              )
            ]
          ]
        ]
      ]
