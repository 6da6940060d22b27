-- ===== src/Protocol/Decode/Envelopes.antt =====
-- What the decoder's loop reads: the last value of each key that it knows.
use cmf_watch_pro_2_os.Base.{
  ℕ, ◌≡◌, inl, inr, Bool, true, List, Option, none, some, arith, if◌then◌else◌, codes, span_equal,
  span_equal_iff, ok, Result-cases, Result-cases,
}
use cmf_watch_pro_2_os.Json.{Token, TokenType, Members, pair}
use cmf_watch_pro_2_os.Protocol.Messages.{MessageTypeEntry, find_type}
use cmf_watch_pro_2_os.Protocol.Numbers.{parse_u32}
use cmf_watch_pro_2_os.Protocol.Decode.{Envelope, read_field, read_fields}
use cmf_watch_pro_2_os.Protocol.Decode.Payloads.{Ends}

-- The value of the last pair with this key.
abbrev pub last : List ℕ → Members → Option Token
last name Members.finished = none
last name Members.malformed = none
last name (pair key value rest) = elim (last name rest) [
  | some t ↦ some t
  | none ↦ if span_equal key name then some value else none
]

-- How a number, the type and the payload come out of the last value, given what they were before.
abbrev pub NumberRead : Option Token → ℕ × Bool → ℕ × Bool → Type 0
NumberRead none old new = (new.0 ≡ old.0) × (new.1 ≡ old.1)
NumberRead (some t) old new = (parse_u32 t ≡ ok new.0) × (new.1 ≡ true)

abbrev pub TypeRead :
    Option Token → Option MessageTypeEntry × Bool → Option MessageTypeEntry × Bool → Type 0
TypeRead none old new = (new.0 ≡ old.0) × (new.1 ≡ old.1)
TypeRead (some t) old new = (new.0 ≡ find_type t) × (new.1 ≡ true)

abbrev pub PayloadRead : Option Token → List ℕ × Bool → List ℕ × Bool → Type 0
PayloadRead none old new = (new.0 ≡ old.0) × (new.1 ≡ old.1)
PayloadRead (some t) old new = (t.type ≡ TokenType.object_start) × (new.0 ≡ t.text) × (new.1 ≡ true)

pub record FieldsRead (env : Envelope) (ms : Members) (out : Envelope) : Type 0 where
  pub ends : Ends ms
  pub version :
      NumberRead
        (last (codes "version") ms)
        (env.version, env.seen_version)
        (out.version, out.seen_version)
  pub type : TypeRead (last (codes "type") ms) (env.entry, env.seen_type) (out.entry, out.seen_type)
  pub id : NumberRead (last (codes "id") ms) (env.id, env.seen_id) (out.id, out.seen_id)
  pub reply_to :
      NumberRead
        (last (codes "reply_to") ms)
        (env.reply_to, env.has_reply_to)
        (out.reply_to, out.has_reply_to)
  pub payload :
      PayloadRead
        (last (codes "payload") ms)
        (env.payload, env.seen_payload)
        (out.payload, out.seen_payload)

-- One pair, read as a walk of its own.
field_read :
    (env : Envelope) (key : List ℕ) (value : Token) {out : Envelope}
    → read_field env key value ≡ ok out
    → FieldsRead env (pair key value Members.finished) out
unfolding read_field
field_read env key value e = ground (
  arith,
  span_equal_iff key (codes "version"),
  span_equal_iff key (codes "type"),
  span_equal_iff key (codes "id"),
  span_equal_iff key (codes "reply_to"),
  span_equal_iff key (codes "payload"),
)

-- A value that comes later takes the place of one before it.
abbrev later_of : Option Token → Option Token → Option Token
later_of first none = first
later_of first (some t) = some t

last_pair :
    (name key : List ℕ) (value : Token) (rest : Members)
    → last name (pair key value rest)
      ≡ later_of (last name (pair key value Members.finished)) (last name rest)
last_pair name key value rest = ground arith

number_trans :
    (a b : Option Token) (old mid new : ℕ × Bool)
    → NumberRead a old mid
    → NumberRead b mid new
    → NumberRead (later_of a b) old new
number_trans none none old mid new p q = ground arith
number_trans (some t) none old mid new p q = ground arith
number_trans _ (some u) old mid new p q = ground arith

type_trans :
    (a b : Option Token) (old mid new : Option MessageTypeEntry × Bool)
    → TypeRead a old mid
    → TypeRead b mid new
    → TypeRead (later_of a b) old new
type_trans none none old mid new p q = ground arith
type_trans (some t) none old mid new p q = ground arith
type_trans _ (some u) old mid new p q = ground arith

payload_trans :
    (a b : Option Token) (old mid new : List ℕ × Bool)
    → PayloadRead a old mid
    → PayloadRead b mid new
    → PayloadRead (later_of a b) old new
payload_trans none none old mid new p q = ground arith
payload_trans (some t) none old mid new p q = ground arith
payload_trans _ (some u) old mid new p q = ground arith

module _ {env mid out : Envelope} (key : List ℕ) (value : Token) (rest : Members) where
  fields_trans :
      FieldsRead env (pair key value Members.finished) mid
      → FieldsRead mid rest out
      → FieldsRead env (pair key value rest) out
  fields_trans f g = record {
    ends = g.ends;
    version =
        rw (last_pair (codes "version") key value rest)
          (number_trans _ _ _ _ _ f.version g.version);
    type = rw (last_pair (codes "type") key value rest) (type_trans _ _ _ _ _ f.type g.type);
    id = rw (last_pair (codes "id") key value rest) (number_trans _ _ _ _ _ f.id g.id);
    reply_to =
        rw (last_pair (codes "reply_to") key value rest)
          (number_trans _ _ _ _ _ f.reply_to g.reply_to);
    payload =
        rw (last_pair (codes "payload") key value rest)
          (payload_trans _ _ _ _ _ f.payload g.payload);
  }

-- A loop that ends without an error has read the last value of each key that the envelope knows.
pub read_fields-FieldsRead :
    (env : Envelope) (ms : Members) {out : Envelope}
    → read_fields env ms ≡ ok out
    → FieldsRead env ms out
unfolding read_fields
read_fields-FieldsRead env Members.finished e = ground arith
read_fields-FieldsRead env Members.malformed e = absurd (cc)
read_fields-FieldsRead env (pair key value rest) {out} e =
    elim (Result-cases (read_field env key value)) [
      | inl (mid, step) ↦
          fields_trans key value rest (field_read env key value step)
            (read_fields-FieldsRead mid rest (ground arith))
      | inr (x, stop) ↦ absurd (ground arith)
    ]
