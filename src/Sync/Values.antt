-- ===== src/Sync/Values.antt =====
-- The parsers of values in watch_sync.c.
pub mod Numerals
pub mod Notifications
use cmf_watch_pro_2_os.Base.{
  ℕ, zero, suc, ◌+◌, ◌-◌, ◌*◌, ◌/◌, ◌%◌, ◌^◌, Bool, true, false, ◌&&◌, ◌||◌, List, [], ◌∷◌, Option,
  none, some, ltb, leb, ◌==◌, if◌then◌else◌, length, set, span_equal, codes, copy_text, c_string,
  Result, ok, err, Errno, einval, enoent, erange, enospc,
}
use cmf_watch_pro_2_os.Base.Int.{ℤ, pos, negsuc}
use cmf_watch_pro_2_os.Json.{Json, Token, TokenType, Members, pair, Items, Item, item}
use cmf_watch_pro_2_os.State.{
  Notification, NotificationList, no_notifications, notification_capacity, blank_notification,
}
use cmf_watch_pro_2_os.Protocol.Numbers.{not_digit, parse_number}

abbrev pub u64_max : ℕ
u64_max = 2 ^ 64 - 1

abbrev pub i64_max : ℕ
i64_max = 2 ^ 63 - 1

-- The loop over `cursor` that both number parsers have, with the largest number they accept. The
-- test comes before the product.
unfoldable pub digits_loop : ℕ → ℕ → List ℕ → Result Errno ℕ
digits_loop limit result [] = ok result
digits_loop limit result (c ∷ cs) =
    let digit = c - b'0' in
    let rest = digits_loop limit ((result * 10 + digit) % 2 ^ 64) cs in
    if not_digit c
    then err einval
    else if ltb ((limit - digit) / 10) result
    then err erange
    else rest

unfoldable pub parse_u64 : Token → Result Errno ℕ
unfolding digits_loop
parse_u64 = parse_number (digits_loop u64_max 0)

-- `-(int64_t)magnitude`
abbrev pub negated : Result Errno ℕ → Result Errno ℤ
negated (err e) = err e
negated (ok n) = elim n [ zero ↦ ok (pos zero) | suc m ↦ ok (negsuc m) ]

abbrev pub positive : Result Errno ℕ → Result Errno ℤ
positive (err e) = err e
positive (ok n) = ok (pos n)

-- The sign, then the loop; a sign alone is refused.
abbrev pub signed : List ℕ → Result Errno ℤ
signed [] = err einval
signed (c ∷ cs) =
    if c == b'-'
    then (elim cs [ [] ↦ err einval | d ∷ ds ↦ negated (digits_loop i64_max 0 (d ∷ ds)) ])
    else positive (digits_loop i64_max 0 (c ∷ cs))

unfoldable pub parse_i64 : Token → Result Errno ℤ
parse_i64 token = elim (token.type) [ TokenType.number ↦ signed token.text | _ ↦ err einval ]

abbrev pub has_backslash : List ℕ → Bool
has_backslash [] = false
has_backslash (c ∷ cs) = c == 92 || has_backslash cs

-- The text that `destination` holds afterwards.
unfoldable pub copy_string : Token → ℕ → Result Errno (List ℕ)
copy_string token capacity = elim (token.type) [
  | TokenType.string ↦
      if capacity == 0
      then err einval
      else if leb capacity (length token.text) || has_backslash token.text
      then err enospc
      else ok (c_string token.text)
  | _ ↦ err einval
]

unfoldable pub find_in : List ℕ → Members → Result Errno Token
find_in name Members.finished = err enoent
find_in name Members.malformed = err einval
find_in name (pair key value rest) = if span_equal key name then ok value else find_in name rest

-- `strncpy` into a member of an entry, where the parser gave a text.
abbrev pub filled : ℕ → Option (List ℕ) → List ℕ
filled capacity none = []
filled capacity (some text) = copy_text capacity (c_string text)

-- The counters are a uint8_t and a uint16_t; the second stops at its largest value.
unfoldable pub add_item : NotificationList → Item → NotificationList
add_item l it =
    let stored =
      if ltb l.stored_count notification_capacity
      then (record l {
        entries =
            set l.entries l.stored_count
              (record { title = filled 48 it.title; body = filled 96 it.body });
        stored_count = (l.stored_count + 1) % 256;
      })
      else l in
    if ltb l.total_count (2 ^ 16 - 1)
    then record stored { total_count = l.total_count + 1 }
    else stored

unfoldable pub add_items : NotificationList → Items → Result Errno NotificationList
unfolding add_item
add_items l Items.finished = ok l
add_items l Items.malformed = err einval
add_items l (item it rest) = add_items (add_item l it) rest

module _ (json : Json) where
  unfoldable pub find_member : List ℕ → List ℕ → Result Errno Token
  unfolding find_in
  find_member object_text name = elim (json.members object_text) [
    | none ↦ err einval
    | some ms ↦ find_in name ms
  ]

  unfoldable pub parse_notifications : Token → Result Errno NotificationList
  unfolding add_items
  parse_notifications token = elim (token.type) [
    | TokenType.array_start ↦ (elim (json.items token.text) [
      | none ↦ err einval
      | some its ↦ add_items no_notifications its
    ])
    | _ ↦ err einval
  ]
