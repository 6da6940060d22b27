-- ===== src/Protocol/Messages.antt =====
-- The message types, their table, and the decoded message.
pub mod Names
use cmf_watch_pro_2_os.Base.{
  ℕ, Bool, List, [], ◌∷◌, map, Option, none, some, span_equal, if◌then◌else◌, codes, ◌==◌,
}
use cmf_watch_pro_2_os.Json.{Token, TokenType}
use Prim.Native.String.{String}

-- `enum watch_message_type`
pub data MessageType : Type 0 where
  state_set state_patch list_insert list_remove list_update : MessageType
  refresh app_open show_toast show_dialog cache_invalidate : MessageType
  app_opened action button gesture input refresh_request : MessageType
  hello capabilities ping pong sync_request sync_response command_result : MessageType

-- `struct message_type_entry`; of the five slots of `required` those that are not NULL, which come
-- first.
pub record MessageTypeEntry : Type 0 where
  pub name : List ℕ
  pub type : MessageType
  pub required : List (List ℕ)

abbrev entry : String → MessageType → List String → MessageTypeEntry
entry name type required = record { name = codes name; type = type; required = map codes required }

abbrev pub message_types : List MessageTypeEntry
message_types =
    entry "state_set" MessageType.state_set ("path" ∷ "value" ∷ "revision" ∷ [])
    ∷ entry "state_patch" MessageType.state_patch ("path" ∷ "value" ∷ "revision" ∷ [])
    ∷ entry "list_insert" MessageType.list_insert ("path" ∷ "index" ∷ "value" ∷ "revision" ∷ [])
    ∷ entry "list_remove" MessageType.list_remove ("path" ∷ "index" ∷ "revision" ∷ [])
    ∷ entry "list_update" MessageType.list_update ("path" ∷ "index" ∷ "value" ∷ "revision" ∷ [])
    ∷ entry "refresh" MessageType.refresh ("scope" ∷ [])
    ∷ entry "app_open" MessageType.app_open ("app_id" ∷ [])
    ∷ entry "show_toast" MessageType.show_toast ("message" ∷ "duration_ms" ∷ [])
    ∷ entry "show_dialog" MessageType.show_dialog ("title" ∷ "message" ∷ "actions" ∷ [])
    ∷ entry "cache_invalidate" MessageType.cache_invalidate ("path" ∷ [])
    ∷ entry "app_opened" MessageType.app_opened ("app_id" ∷ [])
    ∷ entry "action" MessageType.action ("app_id" ∷ "action_id" ∷ "arguments" ∷ [])
    ∷ entry "button" MessageType.button ("button" ∷ "gesture" ∷ [])
    ∷ entry "gesture" MessageType.gesture ("gesture" ∷ [])
    ∷ entry "input" MessageType.input ("input_id" ∷ "value" ∷ [])
    ∷ entry "refresh_request" MessageType.refresh_request ("scope" ∷ [])
    ∷ entry "hello" MessageType.hello
        ("device_id" ∷ "session_id" ∷ "runtime_version" ∷ "protocol_versions" ∷ "simulator" ∷ [])
    ∷ entry "capabilities" MessageType.capabilities ("features" ∷ "apps" ∷ "display" ∷ [])
    ∷ entry "ping" MessageType.ping ("nonce" ∷ [])
    ∷ entry "pong" MessageType.pong ("nonce" ∷ [])
    ∷ entry "sync_request" MessageType.sync_request ("last_revision" ∷ [])
    ∷ entry "sync_response" MessageType.sync_response ("revision" ∷ "state" ∷ [])
    ∷ entry "command_result" MessageType.command_result ("status" ∷ "code" ∷ [])
    ∷ []

-- The enumerator's value, by which the types are compared.
unfoldable pub type_index : MessageType → ℕ
type_index MessageType.state_set = 0
type_index MessageType.state_patch = 1
type_index MessageType.list_insert = 2
type_index MessageType.list_remove = 3
type_index MessageType.list_update = 4
type_index MessageType.refresh = 5
type_index MessageType.app_open = 6
type_index MessageType.show_toast = 7
type_index MessageType.show_dialog = 8
type_index MessageType.cache_invalidate = 9
type_index MessageType.app_opened = 10
type_index MessageType.action = 11
type_index MessageType.button = 12
type_index MessageType.gesture = 13
type_index MessageType.input = 14
type_index MessageType.refresh_request = 15
type_index MessageType.hello = 16
type_index MessageType.capabilities = 17
type_index MessageType.ping = 18
type_index MessageType.pong = 19
type_index MessageType.sync_request = 20
type_index MessageType.sync_response = 21
type_index MessageType.command_result = 22

unfoldable pub same_type : MessageType → MessageType → Bool
unfolding type_index
same_type a b = type_index a == type_index b

-- `struct watch_protocol_message`; `payload` is the span of `payload_len` bytes.
pub record Message : Type 0 where
  pub type : MessageType
  pub id : ℕ
  pub reply_to : ℕ
  pub has_reply_to : Bool
  pub payload : List ℕ

find_name : List ℕ → List MessageTypeEntry → Option MessageTypeEntry
find_name text [] = none
find_name text (e ∷ rest) = if span_equal text e.name then some e else find_name text rest

unfoldable pub find_type : Token → Option MessageTypeEntry
unfolding find_name
find_type token = elim (token.type) [
  | TokenType.string ↦ find_name token.text message_types
  | _ ↦ none
]

name_of_type : MessageType → List MessageTypeEntry → List ℕ
name_of_type type [] = codes "unknown"
name_of_type type (e ∷ rest) = if same_type e.type type then e.name else name_of_type type rest

unfoldable pub message_type_name : MessageType → List ℕ
unfolding name_of_type same_type
message_type_name type = name_of_type type message_types
