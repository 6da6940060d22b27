-- ===== src/Protocol/Decode.antt =====
-- `validate_payload` and `watch_protocol_decode` of watch_protocol.c.
pub mod Envelopes
pub mod Payloads
pub mod Accepted
use cmf_watch_pro_2_os.Base.{
  ℕ, ◌^◌, Bool, true, false, not, ◌&&◌, ◌||◌, List, [], ◌∷◌, Option, none, some, ltb, ◌==◌,
  if◌then◌else◌, length, span_equal, codes, Result, ok, err,
}
use cmf_watch_pro_2_os.Json.{Json, Token, TokenType, Members, pair}
use cmf_watch_pro_2_os.Protocol.Messages.{
  Message, MessageType, MessageTypeEntry, find_type, same_type,
}
use cmf_watch_pro_2_os.Protocol.Numbers.{parse_u32}
use cmf_watch_pro_2_os.Protocol.Utf8.{valid_utf8}

abbrev pub protocol_version : ℕ
protocol_version = 1

abbrev pub max_frame_size : ℕ
max_frame_size = 16384

-- The negative members of `enum watch_protocol_result`.
pub data ProtocolError : Type 0 where
  invalid_json invalid_utf8 frame_too_large unsupported_version unknown_type missing_field :
      ProtocolError

-- `found |= BIT(i)` for each required name that the key equals; one flag for each name.
unfoldable pub mark : List ℕ → List (List ℕ) → List Bool → List Bool
mark key [] found = []
mark key (name ∷ names) [] = []
mark key (name ∷ names) (f ∷ found) = (f || span_equal key name) ∷ mark key names found

unfoldable pub all_found : List Bool → Bool
all_found [] = true
all_found (f ∷ found) = f && all_found found

abbrev pub none_found : List (List ℕ) → List Bool
none_found [] = []
none_found (name ∷ names) = false ∷ none_found names

unfoldable pub payload_loop : List (List ℕ) → List Bool → Members → Result ProtocolError (Unit {0})
payload_loop required found Members.finished =
    if all_found found then ok tt else err ProtocolError.missing_field
payload_loop required found Members.malformed = err ProtocolError.invalid_json
payload_loop required found (pair key value rest) =
    payload_loop required (mark key required found) rest

-- `message` and the locals `entry`, `version` and `fields` of the decoder's loop.
pub record Envelope : Type 0 where
  pub entry : Option MessageTypeEntry
  pub version : ℕ
  pub id : ℕ
  pub reply_to : ℕ
  pub has_reply_to : Bool
  pub payload : List ℕ
  pub seen_version : Bool
  pub seen_type : Bool
  pub seen_id : Bool
  pub seen_payload : Bool

abbrev pub blank_envelope : Envelope
blank_envelope = record {
  entry = none;
  version = 0;
  id = 0;
  reply_to = 0;
  has_reply_to = false;
  payload = [];
  seen_version = false;
  seen_type = false;
  seen_id = false;
  seen_payload = false;
}

-- What a number token sets in the envelope; any error of `parse_u32` is INVALID_JSON.
abbrev with_number : Token → (ℕ → Envelope) → Result ProtocolError Envelope
with_number token set = elim (parse_u32 token) [
  | err e ↦ err ProtocolError.invalid_json
  | ok n ↦ ok (set n)
]

abbrev with_payload : Envelope → Token → Result ProtocolError Envelope
with_payload env token = elim (token.type) [
  | TokenType.object_start ↦ ok (record env { payload = token.text; seen_payload = true })
  | _ ↦ err ProtocolError.invalid_json
]

-- The body of the decoder's loop, for one pair.
unfoldable pub read_field : Envelope → List ℕ → Token → Result ProtocolError Envelope
read_field env key value =
    if span_equal key (codes "version")
    then with_number value (λ n. record env { version = n; seen_version = true })
    else if span_equal key (codes "type")
    then ok (record env { entry = find_type value; seen_type = true })
    else if span_equal key (codes "id")
    then with_number value (λ n. record env { id = n; seen_id = true })
    else if span_equal key (codes "reply_to")
    then with_number value (λ n. record env { reply_to = n; has_reply_to = true })
    else if span_equal key (codes "payload")
    then with_payload env value
    else ok env

unfoldable pub read_fields : Envelope → Members → Result ProtocolError Envelope
read_fields env Members.finished = ok env
read_fields env Members.malformed = err ProtocolError.invalid_json
read_fields env (pair key value rest) = elim (read_field env key value) [
  | err e ↦ err e
  | ok env' ↦ read_fields env' rest
]

module _ (json : Json) where
  unfoldable pub validate_payload : List ℕ → MessageTypeEntry → Result ProtocolError (Unit {0})
  validate_payload payload e = elim (json.members payload) [
    | none ↦ err ProtocolError.invalid_json
    | some ms ↦ payload_loop e.required (none_found e.required) ms
  ]

  -- What follows the loop.
  unfoldable pub finish_decode : Envelope → Result ProtocolError Message
  finish_decode env =
      if not (env.seen_version && env.seen_type && env.seen_id && env.seen_payload)
      then err ProtocolError.missing_field
      else if not (env.version == protocol_version)
      then err ProtocolError.unsupported_version
      else elim (env.entry) [
        | none ↦ err ProtocolError.unknown_type
        | some e ↦
            if same_type e.type MessageType.command_result && not env.has_reply_to
            then err ProtocolError.missing_field
            else elim (validate_payload env.payload e) [
              | err x ↦ err x
              | ok _ ↦ ok (record {
                type = e.type;
                id = env.id;
                reply_to = env.reply_to;
                has_reply_to = env.has_reply_to;
                payload = env.payload;
              })
            ]
      ]

  unfoldable pub decode : List ℕ → Result ProtocolError Message
  decode frame =
      if length frame == 0
      then err ProtocolError.invalid_json
      else if ltb max_frame_size (length frame)
      then err ProtocolError.frame_too_large
      else if not (valid_utf8 frame)
      then err ProtocolError.invalid_utf8
      else elim (json.members frame) [
        | none ↦ err ProtocolError.invalid_json
        | some ms ↦ elim (read_fields blank_envelope ms) [
          | err x ↦ err x
          | ok env ↦ finish_decode env
        ]
      ]
