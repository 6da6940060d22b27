-- ===== src/Json.antt =====
-- What the watch uses of Zephyr's JSON parser (zephyr/data/json.h), which is not in the repository:
-- an interface that the code above it takes as a parameter. Nothing is assumed of its answers but
-- that each walk over an object or an array comes to an end, and that a walk does not change the
-- bytes that are still to be read.
pub mod Samples
use cmf_watch_pro_2_os.Base.{ℕ, List, Option}

-- `enum json_tokens`, as far as the sources name it.
pub data TokenType : Type 0 where
  object_start array_start string number true_token false_token other : TokenType

-- `struct json_token`: the bytes are those from `start` up to `end`.
pub record Token : Type 0 where
  pub type : TokenType
  pub text : List ℕ

-- What successive calls of `json_obj_next_key_value` return: pairs, then `pair.key == NULL` or an
-- error.
pub data Members : Type 0 where
  finished : Members
  malformed : Members
  pair : List ℕ → Token → Members → Members

-- `struct notification_json`; a member that is absent leaves its pointer NULL.
pub record Item : Type 0 where
  pub id : Option (List ℕ)
  pub title : Option (List ℕ)
  pub body : Option (List ℕ)

-- What successive calls of `json_arr_separate_parse_object` return: objects, then 0 or an error.
pub data Items : Type 0 where
  finished : Items
  malformed : Items
  item : Item → Items → Items

-- `none` where `json_obj_separate_parse_init` or `json_arr_separate_object_parse_init` fails.
pub record Json : Type 0 where
  pub members : List ℕ → Option Members
  pub items : List ℕ → Option Items
