-- ===== src/Sync/Mutations/Sound.antt =====
-- The changes that `parse_mutation` accepts and what `apply_mutation` makes of the state.
use cmf_watch_pro_2_os.Base.{
  ℕ, suc, ◌^◌, ◌≤◌, ◌<◌, ◌≡◌, refl, inl, inr, Bool, true, false, List, arith, Result, Errno, ok,
  ◌&&◌, if◌then◌else◌, length, Result-cases, span_equal, codes, copy_text, length-take,
}
use cmf_watch_pro_2_os.Json.{Json, Token, TokenType}
use cmf_watch_pro_2_os.State.{WatchState, NotificationList}
use cmf_watch_pro_2_os.State.Browse.{IsBrowsable, EntriesFit}
use cmf_watch_pro_2_os.Protocol.Messages.{Message, MessageType, same_type}
use cmf_watch_pro_2_os.Sync.Values.{parse_u64, copy_string, find_member, parse_notifications}
use cmf_watch_pro_2_os.Sync.Values.Numerals.{parse_u64_iff}
use cmf_watch_pro_2_os.Sync.Values.Notifications.{parse_notifications-IsBrowsable}
use cmf_watch_pro_2_os.Sync.Snapshots.{or_invalid}
use cmf_watch_pro_2_os.Sync.Snapshots.Candidate.{Fills}
use cmf_watch_pro_2_os.Sync.Mutations.{
  Mutation, Change, apply_change, flag_change, parse_change, parse_mutation,
}

-- A change whose notifications can be browsed and have texts that fit.
abbrev pub IsSound : Change → Type 0
IsSound (Change.notifications l) = IsBrowsable l × EntriesFit l.entries
IsSound _ = Unit {0}

length-copy_text :
    (capacity : ℕ) (text : List ℕ) → length (copy_text (suc capacity) text) ≤ capacity
length-copy_text capacity text = ground (arith, length-take capacity text)

pub apply_change-Fills : (s : WatchState) (c : Change) → IsSound c → Fills s (apply_change s c)
unfolding apply_change
apply_change-Fills s (Change.notifications l) h = record {
  owned = refl;
  safe = λ p. record { condition = p.condition; title = p.title; browsable = h.0; texts = h.1 };
}
apply_change-Fills s (Change.weather_condition t) h = record {
  owned = refl;
  safe = λ p. record {
    condition = omega (arith, length-copy_text 31 t);
    title = p.title;
    browsable = p.browsable;
    texts = p.texts;
  };
}
apply_change-Fills s (Change.music_title t) h = record {
  owned = refl;
  safe = λ p. record {
    condition = p.condition;
    title = omega (arith, length-copy_text 63 t);
    browsable = p.browsable;
    texts = p.texts;
  };
}
apply_change-Fills s _ h = record {
  owned = refl;
  safe = λ p. record {
    condition = p.condition;
    title = p.title;
    browsable = p.browsable;
    texts = p.texts;
  };
}

pub kept : (s : WatchState) → Fills s s
kept s = record { owned = refl; safe = λ p. p }

by_if :
    {X : Type 0} {c : Change} (b : Bool) {r r' : Result Errno Change}
    → (r ≡ ok c → X)
    → (r' ≡ ok c → X)
    → (if b then r else r') ≡ ok c
    → X
by_if true f g e = f e
by_if false f g e = g e

flag :
    {l : NotificationList} (type : TokenType)
    → flag_change type ≡ ok (Change.notifications l)
    → IsBrowsable l × EntriesFit l.entries
flag TokenType.true_token e = absurd (ground arith)
flag TokenType.false_token e = absurd (ground arith)
flag _ e = absurd (ground arith)

module _ (json : Json) where
  list_change :
      (value : Token) {l : NotificationList}
      → (or_invalid (parse_notifications json value) λ x. ok (Change.notifications x))
        ≡ ok (Change.notifications l)
      → IsBrowsable l × EntriesFit l.entries
  list_change value {l} e = elim (Result-cases (parse_notifications json value)) [
    | inl (x, q) ↦
        let p = parse_notifications-IsBrowsable json value q in
        let e' : l ≡ x = ground arith in rw (e') (p.0, p.2)
    | inr (x, q) ↦ absurd (ground arith)
  ]

  parse_change-IsSound :
      (type : MessageType) (path : List ℕ) (value : Token) (c : Change)
      → parse_change json type path value ≡ ok c
      → IsSound c
  unfolding parse_change
  parse_change-IsSound type path value (Change.notifications l) e =
      by_if (span_equal path (codes "weather.temperature")) (λ x. absurd (ground arith))
        (by_if (span_equal path (codes "weather.condition")) (λ x. absurd (ground arith))
          (by_if (span_equal path (codes "music.title")) (λ x. absurd (ground arith))
            (by_if (span_equal path (codes "music.playing")) (flag value.type) (
              by_if (span_equal path (codes "steps")) (λ x. absurd (ground arith))
                (by_if
                  (span_equal path (codes "notifications") && same_type type MessageType.state_set)
                  (list_change value) (λ x. absurd (ground arith)))))))
        e
  parse_change-IsSound type path value (Change.temperature _) e = tt
  parse_change-IsSound type path value (Change.weather_condition _) e = tt
  parse_change-IsSound type path value (Change.music_title _) e = tt
  parse_change-IsSound type path value (Change.music_playing _) e = tt
  parse_change-IsSound type path value (Change.steps _) e = tt

  pub parse_mutation-IsSound :
      (message : Message) {m : Mutation}
      → parse_mutation json message ≡ ok m
      → (m.revision < 2 ^ 64) × IsSound m.change
  unfolding parse_mutation
  parse_mutation-IsSound message {m} e =
      elim (Result-cases (find_member json message.payload (codes "path"))) [
        | inr (x, p) ↦ absurd (ground arith)
        | inl (pt, p) ↦ elim (Result-cases (find_member json message.payload (codes "value"))) [
          | inr (x, q) ↦ absurd (ground arith)
          | inl (v, q) ↦ elim (Result-cases (find_member json message.payload (codes "revision"))) [
            | inr (x, r) ↦ absurd (ground arith)
            | inl (rt, r) ↦ elim (Result-cases (copy_string pt 40)) [
              | inr (x, o) ↦ absurd (ground arith)
              | inl (path, o) ↦ elim (Result-cases (parse_u64 rt)) [
                | inr (x, u) ↦ absurd (ground arith)
                | inl (n, u) ↦ elim (Result-cases (parse_change json message.type path v)) [
                  | inr (x, c) ↦ absurd (ground arith)
                  | inl (c, d) ↦
                      let m_is : m ≡ record { occupied = true; revision = n; change = c } =
                        ground arith in
                      rw (m_is)
                        (((parse_u64_iff rt n).0 u).1, parse_change-IsSound message.type path v c d)
                ]
              ]
            ]
          ]
        ]
      ]
