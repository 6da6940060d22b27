-- ===== src/Protocol/Decode/Accepted.antt =====
-- What an accepted frame holds.
use cmf_watch_pro_2_os.Base.{
  ℕ, ◌^◌, ◌≤◌, ◌<◌, ◌≡◌, refl, ap, sym, ◌∙◌, inl, inr, Bool, true, false, List, Option, none, some,
  arith, codes, length, ok, Result-cases, Option-cases,
}
use cmf_watch_pro_2_os.Json.{Json, Token, TokenType, Members}
use cmf_watch_pro_2_os.Protocol.Messages.{
  Message, MessageType, MessageTypeEntry, find_type, same_type,
}
use cmf_watch_pro_2_os.Protocol.Utf8.{valid_utf8}
use cmf_watch_pro_2_os.Protocol.Numbers.{parse_u32, Reads, parse_u32_iff}
use cmf_watch_pro_2_os.Protocol.Decode.{
  Envelope, blank_envelope, read_fields, validate_payload, finish_decode, decode, max_frame_size,
}
use cmf_watch_pro_2_os.Protocol.Decode.Payloads.{Ends, HasKeys, validate_payload_iff}
use cmf_watch_pro_2_os.Protocol.Decode.Envelopes.{
  last, NumberRead, TypeRead, PayloadRead, read_fields-FieldsRead,
}

-- The envelope of protocol version 1 around a message, as the parser's pairs show it.
pub record IsEnvelope (json : Json) (ms : Members) (e : MessageTypeEntry) (m : Message)
    : Type 0 where
  pub version : (t : Token) × (last (codes "version") ms ≡ some t) × Reads t 1
  pub type : (t : Token) × (last (codes "type") ms ≡ some t) × (find_type t ≡ some e)
  pub id : (t : Token) × (last (codes "id") ms ≡ some t) × Reads t m.id × (m.id < 2 ^ 32)
  pub payload :
      (t : Token) × (last (codes "payload") ms ≡ some t)
      × (t.type ≡ TokenType.object_start)
      × (t.text ≡ m.payload)
  pub members :
      (ps : Members) × (json.members m.payload ≡ some ps) × Ends ps × HasKeys e.required ps
  pub named : m.type ≡ e.type
  pub answers : m.type ≡ MessageType.command_result → m.has_reply_to ≡ true

-- What the end of the decoder has checked of the loop's result.
finish_checked :
    (json : Json) (env : Envelope) {m : Message}
    → finish_decode json env ≡ ok m
    → (e : MessageTypeEntry) × (env.entry ≡ some e)
      × (env.seen_version ≡ true)
      × (env.seen_type ≡ true)
      × (env.seen_id ≡ true)
      × (env.seen_payload ≡ true)
      × (env.version ≡ 1)
      × (m.type ≡ e.type)
      × (m.id ≡ env.id)
      × (m.payload ≡ env.payload)
      × (m.has_reply_to ≡ env.has_reply_to)
      × (validate_payload json env.payload e ≡ ok tt)
      × (same_type e.type MessageType.command_result ≡ true → env.has_reply_to ≡ true)
unfolding finish_decode
finish_checked json env {m} h = elim (Option-cases (env.entry)) [
  | inl stop ↦ absurd (ground arith)
  | inr (e, found) ↦ elim (Result-cases (validate_payload json env.payload e)) [
    | inl (tt, fine) ↦ (
      e,
      found,
      ground arith,
      ground arith,
      ground arith,
      ground arith,
      ground arith,
      ground arith,
      ground arith,
      ground arith,
      ground arith,
      fine,
      ground arith,
    )
    | inr (x, bad) ↦ absurd (ground arith)
  ]
]

-- What the start of the decoder has checked before the loop.
start_checked :
    (json : Json) (frame : List ℕ) {m : Message}
    → decode json frame ≡ ok m
    → (1 ≤ length frame)
      × (length frame ≤ max_frame_size)
      × (valid_utf8 frame ≡ true)
      × (ms : Members) × (env : Envelope) × (json.members frame ≡ some ms)
      × (read_fields blank_envelope ms ≡ ok env)
      × (finish_decode json env ≡ ok m)
unfolding decode
start_checked json frame h = elim (Option-cases (json.members frame)) [
  | inl stop ↦ absurd (ground arith)
  | inr (ms, walk) ↦ elim (Result-cases (read_fields blank_envelope ms)) [
    | inl (env, read) ↦
        (ground arith, ground arith, ground arith, ms, env, walk, read, ground arith)
    | inr (x, bad) ↦ absurd (ground arith)
  ]
]

-- A flag that the loop set stands for a last value that was read.
number_present :
    (o : Option Token) (old new : ℕ × Bool)
    → old.1 ≡ false
    → new.1 ≡ true
    → NumberRead o old new
    → (t : Token) × (o ≡ some t) × (parse_u32 t ≡ ok new.0)
number_present none old new p q r = absurd (ground arith)
number_present (some t) old new p q r = (t, refl, r.0)

type_present :
    (o : Option Token) (old new : Option MessageTypeEntry × Bool)
    → old.1 ≡ false
    → new.1 ≡ true
    → TypeRead o old new
    → (t : Token) × (o ≡ some t) × (new.0 ≡ find_type t)
type_present none old new p q r = absurd (ground arith)
type_present (some t) old new p q r = (t, refl, r.0)

payload_present :
    (o : Option Token) (old new : List ℕ × Bool)
    → old.1 ≡ false
    → new.1 ≡ true
    → PayloadRead o old new
    → (t : Token) × (o ≡ some t) × (t.type ≡ TokenType.object_start) × (new.0 ≡ t.text)
payload_present none old new p q r = absurd (ground arith)
payload_present (some t) old new p q r = (t, refl, r.0, r.1)

same_type-eq :
    (t : MessageType)
    → t ≡ MessageType.command_result
    → same_type t MessageType.command_result ≡ true
unfolding same_type
same_type-eq t e = rw e refl

-- Every frame that is accepted has between 1 and 16384 bytes of valid UTF-8, the parser walks it to
-- its end as an object, and that object is an envelope of version 1: the last `version`, `type`,
-- `id` and `payload` members are there and are the message's, the type is registered, the payload
-- holds every member that the type requires, and a command result says what it answers.
pub decode-IsEnvelope :
    (json : Json) (frame : List ℕ) (m : Message)
    → decode json frame ≡ ok m
    → (1 ≤ length frame)
      × (length frame ≤ max_frame_size)
      × (valid_utf8 frame ≡ true)
      × (ms : Members) × (e : MessageTypeEntry) × (json.members frame ≡ some ms)
      × Ends ms
      × IsEnvelope json ms e m
decode-IsEnvelope json frame m h =
    let (some_bytes, small, utf8, ms, env, walk, read, finish) = start_checked json frame h in
    let (e, found, sv, st, si, sp, version, type, id, payload, replied, fine, answered) =
      finish_checked json env finish in
    let fields = read_fields-FieldsRead blank_envelope ms read in
    let (tv, lv, pv) = number_present _ _ _ refl sv fields.version in
    let (ty, ly, py) = type_present _ _ _ refl st fields.type in
    let (ti, li, pi) = number_present _ _ _ refl si fields.id in
    let (tp, lp, op, pp) = payload_present _ _ _ refl sp fields.payload in
    let (ri, small_id) = (parse_u32_iff ti env.id).0 pi in
    (
      some_bytes,
      small,
      utf8,
      ms,
      e,
      walk,
      fields.ends,
      record {
        version = (tv, lv, ((parse_u32_iff tv 1).0 (pv ∙ ap ok version)).0);
        type = (ty, ly, sym py ∙ found);
        id = (ti, li, rw id ri, rw id small_id);
        payload = (tp, lp, op, sym pp ∙ sym payload);
        members = rw payload ((validate_payload_iff json env.payload e).0 fine);
        named = type;
        answers = λ c. replied ∙ answered (same_type-eq e.type (sym type ∙ c));
      },
    )
