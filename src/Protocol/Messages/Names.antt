-- ===== src/Protocol/Messages/Names.antt =====
-- The names of the message types: the table read in both directions.
use cmf_watch_pro_2_os.Base.{◌≡◌, refl, Option, some, none, List, ℕ, span_equal}
use cmf_watch_pro_2_os.Json.{TokenType}
use cmf_watch_pro_2_os.Protocol.Messages.{MessageType, find_type, message_type_name, same_type}

-- The type of the entry that the decoder finds for a string token.
abbrev pub type_of_name : List ℕ → Option MessageType
type_of_name name = elim (find_type (record { type = TokenType.string; text = name })) [
  | none ↦ none
  | some e ↦ some e.type
]

-- The decoder finds every message type by the name that the log prints for it.
pub find_type-message_type_name :
    (type : MessageType) → type_of_name (message_type_name type) ≡ some type
unfolding find_type message_type_name span_equal same_type
find_type-message_type_name MessageType.state_set = refl
find_type-message_type_name MessageType.state_patch = refl
find_type-message_type_name MessageType.list_insert = refl
find_type-message_type_name MessageType.list_remove = refl
find_type-message_type_name MessageType.list_update = refl
find_type-message_type_name MessageType.refresh = refl
find_type-message_type_name MessageType.app_open = refl
find_type-message_type_name MessageType.show_toast = refl
find_type-message_type_name MessageType.show_dialog = refl
find_type-message_type_name MessageType.cache_invalidate = refl
find_type-message_type_name MessageType.app_opened = refl
find_type-message_type_name MessageType.action = refl
find_type-message_type_name MessageType.button = refl
find_type-message_type_name MessageType.gesture = refl
find_type-message_type_name MessageType.input = refl
find_type-message_type_name MessageType.refresh_request = refl
find_type-message_type_name MessageType.hello = refl
find_type-message_type_name MessageType.capabilities = refl
find_type-message_type_name MessageType.ping = refl
find_type-message_type_name MessageType.pong = refl
find_type-message_type_name MessageType.sync_request = refl
find_type-message_type_name MessageType.sync_response = refl
find_type-message_type_name MessageType.command_result = refl
