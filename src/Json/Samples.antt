-- ===== src/Json/Samples.antt =====
-- A parser that knows five texts: a frame, its payload, a frame with a snapshot, its payload and its state.
use Prim.Native.String.{String}
use cmf_watch_pro_2_os.Base.{ℕ, List, ◌++◌, Option, none, some, span_equal, codes, if◌then◌else◌}
use cmf_watch_pro_2_os.Json.{Json, Token, TokenType, Members, Items, pair, item}

abbrev pub frame_text : List ℕ
frame_text =
    codes
      "{\"version\":1,\"type\":\"state_patch\",\"id\":9,\"payload\":{\"path\":\"music.playing\",\"value\":true,\"revision\":3}}"

abbrev pub payload_text : List ℕ
payload_text = codes "{\"path\":\"music.playing\",\"value\":true,\"revision\":3}"

abbrev pub snapshot_text : List ℕ
snapshot_text =
    codes
      "{\"revision\":2,\"state\":{\"steps\":10,\"notifications\":[{\"id\":\"a\",\"title\":\"Hi\",\"body\":\"Ho\"}]}}"

abbrev pub response_text : List ℕ
response_text =
    codes "{\"version\":1,\"type\":\"sync_response\",\"id\":4,\"payload\":"
    ++ snapshot_text
    ++ codes "}"

abbrev pub state_text : List ℕ
state_text =
    codes "{\"steps\":10,\"notifications\":[{\"id\":\"a\",\"title\":\"Hi\",\"body\":\"Ho\"}]}"

abbrev pub list_text : List ℕ
list_text = codes "[{\"id\":\"a\",\"title\":\"Hi\",\"body\":\"Ho\"}]"

abbrev pub number : String → Token
number s = record { type = TokenType.number; text = codes s }

abbrev pub string : String → Token
string s = record { type = TokenType.string; text = codes s }

abbrev pub object : List ℕ → Token
object text = record { type = TokenType.object_start; text = text }

abbrev pub list_token : Token
list_token = record { type = TokenType.array_start; text = list_text }

abbrev pub payload_members : Members
payload_members = pair (codes "path") (string "music.playing") (
    pair (codes "value") (record { type = TokenType.true_token; text = codes "true" })
      (pair (codes "revision") (number "3") Members.finished))

abbrev pub frame_members : Members
frame_members = pair (codes "version") (number "1") (
    pair (codes "type") (string "state_patch") (
      pair (codes "id") (number "9")
        (pair (codes "payload") (object payload_text) Members.finished)))

abbrev pub response_members : Members
response_members = pair (codes "version") (number "1") (
    pair (codes "type") (string "sync_response") (
      pair (codes "id") (number "4")
        (pair (codes "payload") (object snapshot_text) Members.finished)))

abbrev sample_members : List ℕ → Option Members
sample_members text =
    if span_equal text frame_text
    then some frame_members
    else if span_equal text response_text
    then some response_members
    else if span_equal text payload_text
    then some payload_members
    else if span_equal text snapshot_text
    then some (
        pair (codes "revision") (number "2")
          (pair (codes "state") (object state_text) Members.finished))
    else if span_equal text state_text
    then some (
        pair (codes "steps") (number "10")
          (pair (codes "notifications") list_token Members.finished))
    else none

abbrev sample_items : List ℕ → Option Items
sample_items text =
    if span_equal text list_text
    then some (
        item (record { id = some (codes "a"); title = some (codes "Hi"); body = some (codes "Ho") })
          Items.finished)
    else none

abbrev pub sample : Json
sample = record { members = sample_members; items = sample_items }
