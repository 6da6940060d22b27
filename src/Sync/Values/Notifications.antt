-- ===== src/Sync/Values/Notifications.antt =====
-- The bounds of what the value parsers produce.
use cmf_watch_pro_2_os.Base.{
  ℕ, zero, suc, ◌^◌, ◌≤◌, ◌<◌, ◌≡◌, refl, inl, inr, List, [], ◌∷◌, arith, length, c_string, ok,
  Option-cases, length-set, length-take, c_string, Option, none, some,
}
use cmf_watch_pro_2_os.Json.{Json, Token, TokenType, Items, Item, item}
use cmf_watch_pro_2_os.State.{NotificationList, notification_capacity, no_notifications}
use cmf_watch_pro_2_os.State.Browse.{IsBrowsable, EntriesFit, EntriesFit-set, init-EntriesFit}
use cmf_watch_pro_2_os.Sync.Values.{copy_string, add_item, add_items, parse_notifications, filled}

length-c_string : (text : List ℕ) → length (c_string text) ≤ length text
length-c_string [] = omega arith
length-c_string (zero ∷ text) = omega arith
length-c_string (suc b ∷ text) = omega (arith, length-c_string text)

copied :
    (type : TokenType) (text : List ℕ) (capacity : ℕ) {out : List ℕ}
    → copy_string (record { type = type; text = text }) capacity ≡ ok out
    → length out < capacity
unfolding copy_string
copied TokenType.string text capacity e = ground (arith, length-c_string text)
copied _ text capacity e = absurd (ground arith)

-- A text that is copied leaves room for its terminator.
pub length-copy_string :
    (t : Token) (capacity : ℕ) {out : List ℕ}
    → copy_string t capacity ≡ ok out
    → length out < capacity
length-copy_string t capacity e = copied t.type t.text capacity e

-- While a list is parsed its active index is 0, and its counters stay in their types.
record IsParsed (l : NotificationList) : Type 0 where
  slots : length l.entries ≡ notification_capacity
  stored : l.stored_count ≤ notification_capacity
  counted : l.stored_count ≤ l.total_count
  total : l.total_count < 2 ^ 16
  first : l.active_index ≡ 0
  texts : EntriesFit l.entries

length-filled :
    (capacity : ℕ) (text : Option (List ℕ)) → length (filled (suc capacity) text) ≤ capacity
length-filled capacity none = omega arith
length-filled capacity (some text) = ground (arith, length-take capacity (c_string text))

add_item-IsParsed : (l : NotificationList) (it : Item) → IsParsed l → IsParsed (add_item l it)
unfolding add_item
add_item-IsParsed l it v = ground (
  arith,
  length-set l.entries l.stored_count
      (record { title = filled 48 it.title; body = filled 96 it.body }),
  EntriesFit-set l.entries l.stored_count
      (record { title = filled 48 it.title; body = filled 96 it.body })
      (omega (arith, length-filled 47 it.title), omega (arith, length-filled 95 it.body)) v.texts,
)

add_items-IsParsed :
    (l : NotificationList) (its : Items) {out : NotificationList}
    → IsParsed l
    → add_items l its ≡ ok out
    → IsParsed out
unfolding add_items
add_items-IsParsed l Items.finished v e = ground arith
add_items-IsParsed l Items.malformed v e = absurd (ground arith)
add_items-IsParsed l (item it rest) v e =
    add_items-IsParsed (add_item l it) rest (add_item-IsParsed l it v) e

parsed :
    (json : Json) (type : TokenType) (text : List ℕ) {out : NotificationList}
    → parse_notifications json (record { type = type; text = text }) ≡ ok out
    → IsParsed out
unfolding parse_notifications
parsed json TokenType.array_start text e = elim (Option-cases (json.items text)) [
  | inl n ↦ absurd (ground arith)
  | inr (its, w) ↦
      add_items-IsParsed no_notifications its
        (record {
          slots = refl;
          stored = omega arith;
          counted = omega arith;
          total = omega arith;
          first = refl;
          texts = init-EntriesFit;
        })
        (ground arith)
]
parsed json _ text e = absurd (ground arith)

-- Every list that is parsed, of any length, is one that the watch can browse from its start, and the
-- texts of its entries fit.
pub parse_notifications-IsBrowsable :
    (json : Json) (t : Token) {out : NotificationList}
    → parse_notifications json t ≡ ok out
    → IsBrowsable out × (out.active_index ≡ 0) × EntriesFit out.entries
parse_notifications-IsBrowsable json t e =
    let p = parsed json t.type t.text e in (ground (arith, p), p.first, p.texts)
