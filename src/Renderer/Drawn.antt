-- ===== src/Renderer/Drawn.antt =====
-- Every state that is safe to show has a face, with the texts that it should show.
use native.Mathlib.Nat.{pow-suc}
use cmf_watch_pro_2_os.Base.{
  ℕ, zero, suc, ◌+◌, ◌-◌, ◌%◌, ◌/◌, ◌^◌, ◌≤◌, ◌<◌, ◌≡◌, refl, ap, ◌∙◌, inl, inr, Bool, true, false,
  if◌then◌else◌, List, [], ◌∷◌, ◌++◌, Option, none, some, arith, ltb, length, get_elem?,
  get_elem?-some_of_lt, Bool-cases, copy_text, take_of_le, codes, length-append,
}
use cmf_watch_pro_2_os.Base.Int.{ℤ, pos, negsuc, pos_part, neg_part}
use cmf_watch_pro_2_os.State.{WatchState, Screen, Notification, NotificationList}
use cmf_watch_pro_2_os.State.Browse.{IsBrowsable}
use cmf_watch_pro_2_os.Transport.Frames.{decimal_u32, digits_of}
use cmf_watch_pro_2_os.Transport.Frames.Numerals.{length-digits_of}
use cmf_watch_pro_2_os.Renderer.Picture.{Picture, framed, renderer_screen}
use cmf_watch_pro_2_os.Renderer.Faces.{
  Surface, position_text, page_indicator, Label, decimal_int, battery_text, temperature_text,
  steps_text, active_notification, card_texts, app_labels, on_screen, render, render_app,
  render_home,
}

active_notification-some :
    (l : NotificationList)
    → IsBrowsable l
    → (found : Option Notification) × (active_notification l ≡ some found)
      × (0 < l.stored_count
          → (n : Notification) × (found ≡ some n) × (get_elem? l.entries l.active_index ≡ some n))
unfolding active_notification
active_notification-some l v = elim (Bool-cases (ltb 0 l.stored_count)) [
  | inl b ↦
      let (n, e) =
        get_elem?-some_of_lt l.entries l.active_index
          (ground (arith, v.slots, v.stored, v.active)) in
      (some n, rw (b, e) refl, λ h. (n, refl, e))
  | inr b ↦ (none, rw (b) refl, λ h. absurd (ground arith))
]

render_app-some :
    (s : WatchState)
    → IsBrowsable s.notifications
    → (labels : List Label) × (render_app s ≡ some labels)
      × (s.active_screen ≡ Screen.notifications
          → 0 < s.notifications.stored_count
          → (n : Notification) × (get_elem? s.notifications.entries s.notifications.active_index
              ≡ some n)
            × (labels ≡ app_labels s (n.title, n.body)))
unfolding render_app card_texts
render_app-some s v =
    let (found, e, of_stored) = active_notification-some s.notifications v in
    (
      app_labels s (card_texts s found),
      rw (e) refl,
      λ page stored. let (n, is, at) = of_stored stored in (n, at, rw (is, page) refl),
    )

-- A state whose notifications can be browsed has a face on every page: nothing is read out of an
-- array. The inbox, where it stores a notification, shows the title and the body of the active one.
pub render-some :
    (s : WatchState)
    → IsBrowsable s.notifications
    → (labels : List Label) × (render s ≡ some labels)
      × (s.active_screen ≡ Screen.notifications
          → 0 < s.notifications.stored_count
          → (n : Notification) × (get_elem? s.notifications.entries s.notifications.active_index
              ≡ some n)
            × (labels ≡ app_labels s (n.title, n.body)))
unfolding render
render-some s v = elim (Bool-cases (on_screen s Screen.home)) [
  | inl b ↦ (render_home s, rw (b) refl, λ page. absurd (ground arith))
  | inr b ↦ rw (b) (render_app-some s v)
]

-- So the whole screen can be created.
pub renderer_screen-some :
    (s : WatchState)
    → IsBrowsable s.notifications
    → (picture : Picture) × (renderer_screen s ≡ some picture)
unfolding renderer_screen
renderer_screen-some s v = let (labels, e, _) = render-some s v in (framed s labels, rw (e) refl)

-- The texts that labels put on the card, in their order.
abbrev pub on_card : Surface → Bool
on_card Surface.card = true
on_card _ = false

abbrev pub card_lines : List Label → List (List ℕ)
card_lines [] = []
card_lines (label ∷ labels) =
    let rest = card_lines labels in if on_card label.parent then label.text ∷ rest else rest

-- The texts that the card of a notification should have: where several are stored, its place is between
-- its title and its body.
abbrev pub card_of : NotificationList → Notification → List (List ℕ)
card_of list n =
    if ltb 1 list.stored_count
    then n.title ∷ position_text (list.active_index + 1) list.stored_count ∷ n.body ∷ []
    else n.title ∷ n.body ∷ []

app_labels-card :
    (s : WatchState) (n : Notification)
    → s.active_screen ≡ Screen.notifications
    → card_lines (app_labels s (n.title, n.body)) ≡ card_of s.notifications n
unfolding app_labels page_indicator
app_labels-card s n page = elim (Bool-cases (ltb 1 s.notifications.stored_count)) [
  | inl b ↦ simp (b, page) refl
  | inr b ↦ simp (b, page) refl
]

-- The inbox, where its notifications can be browsed and one is stored, has a face, and on its card stand
-- the title and the body of the active notification, whole and in this order, with its place among
-- those stored between them if there are several, and nothing else. The index lies within the entries.
pub render-shown :
    (s : WatchState)
    → IsBrowsable s.notifications
    → s.active_screen ≡ Screen.notifications
    → 0 < s.notifications.stored_count
    → (n : Notification) × (labels : List Label) × (get_elem? s.notifications.entries
          s.notifications.active_index
        ≡ some n)
      × (render s ≡ some labels)
      × (card_lines labels ≡ card_of s.notifications n)
render-shown s v page stored =
    let (labels, e, inbox) = render-some s v in
    let (n, at, shown) = inbox page stored in
    (n, labels, at, e, ap card_lines shown ∙ app_labels-card s n page)

-- A numeral has no more digits than its number needs.
length-digits_of_lt : (fuel k n : ℕ) → n < 10 ^ suc k → length (digits_of fuel n) ≤ suc k
unfolding digits_of
length-digits_of_lt zero k n h = omega arith
length-digits_of_lt (suc fuel) zero n h = ground arith
length-digits_of_lt (suc fuel) (suc k) n h = ground (
  arith,
  pow-suc 10 (suc k),
  length-append (digits_of fuel (n / 10)) ((48 + n % 10) ∷ []),
  length-digits_of_lt fuel k (n / 10) (omega (arith, pow-suc 10 (suc k))),
)

copy_text_of_lt :
    (capacity : ℕ) (text : List ℕ) → length text < capacity → copy_text capacity text ≡ text
copy_text_of_lt capacity text h = take_of_le (capacity - 1) text (omega arith)

length-decimal_int :
    (z : ℤ) → pos_part z < 10 ^ 6 → neg_part z < 10 ^ 6 → length (decimal_int z) ≤ 7
unfolding decimal_int
length-decimal_int (pos n) h k = omega (arith, length-digits_of_lt 10 5 n h)
length-decimal_int (negsuc n) h k = omega (arith, length-digits_of_lt 10 5 (suc n) k)

-- On the home face no text is cut off by its buffer: the battery's percentage, a uint8_t, the
-- temperature, an int16_t, the steps, and a condition that fits the state's array are
-- shown whole.
pub home_texts-whole :
    (s : WatchState)
    → s.battery_percent < 2 ^ 8
    → pos_part s.temperature_c < 2 ^ 15
    → neg_part s.temperature_c ≤ 2 ^ 15
    → length s.weather_condition < 32
    → (battery_text s.battery_percent ≡ decimal_u32 s.battery_percent ++ codes "%")
      × (temperature_text s.temperature_c ≡ decimal_int s.temperature_c ++ 194 ∷ 176 ∷ codes "C")
      × (steps_text s.steps ≡ decimal_u32 s.steps ++ codes " STEPS")
      × (copy_text 48 s.weather_condition ≡ s.weather_condition)
home_texts-whole s hb hp hn hc = (
  copy_text_of_lt 8 (decimal_u32 s.battery_percent ++ codes "%") (
      omega (
        arith,
        length-append (decimal_u32 s.battery_percent) (codes "%"),
        length-digits_of_lt 10 2 s.battery_percent (omega arith),
      )),
  copy_text_of_lt 12 (decimal_int s.temperature_c ++ 194 ∷ 176 ∷ codes "C") (
      omega (
        arith,
        length-append (decimal_int s.temperature_c) (194 ∷ 176 ∷ codes "C"),
        length-decimal_int s.temperature_c (omega arith) (omega arith),
      )),
  copy_text_of_lt 24 (decimal_u32 s.steps ++ codes " STEPS") (
      omega
        (arith, length-append (decimal_u32 s.steps) (codes " STEPS"), length-digits_of 10 s.steps)),
  copy_text_of_lt 48 s.weather_condition (omega arith),
)
