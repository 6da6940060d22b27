-- ===== src/Renderer/Faces.antt =====
-- `render_home`, `render_app` and `page_indicator` of renderer.c: the labels that a face shows, in the
-- order in which they are created. The result is `none` where the code would read out of an array.
use cmf_watch_pro_2_os.Base.{
  ℕ, suc, ◌+◌, Bool, true, false, ◌&&◌, List, [], ◌∷◌, ◌++◌, Option, none, some, ltb, ◌==◌,
  if◌then◌else◌, length, get_elem?, codes, copy_text, ◌>>=◌,
}
use cmf_watch_pro_2_os.Base.Int.{ℤ, pos, negsuc}
use cmf_watch_pro_2_os.State.{
  WatchState, Screen, ConnectionState, Notification, NotificationList, to_nat,
}
use cmf_watch_pro_2_os.Apps.{AppDescriptor, app_find}
use cmf_watch_pro_2_os.Transport.Frames.{decimal_u32}

-- What a label is put on.
pub data Surface : Type 0 where
  face weather card : Surface

pub data Font : Type 0 where
  unscii_16 montserrat_28 : Font

pub data Color : Type 0 where
  white black background surface accent muted line : Color

pub data Align : Type 0 where
  top_left top_mid top_right center bottom_left bottom_mid : Align

-- The width that is set, if one is.
pub data Flow : Type 0 where
  one_line : Flow
  centered wrapped : ℕ → Flow

pub record Label : Type 0 where
  pub parent : Surface
  pub text : List ℕ
  pub font : Font
  pub color : Color
  pub align : Align
  pub x : ℤ
  pub y : ℤ
  pub flow : Flow

-- "%02u"
unfoldable pub two_digits : ℕ → List ℕ
two_digits n = if ltb n 10 then codes "0" ++ decimal_u32 n else decimal_u32 n

-- "%02u / %02u" in a `char` array of 16.
unfoldable pub position_text : ℕ → ℕ → List ℕ
unfolding two_digits
position_text index count = copy_text 16 (two_digits index ++ codes " / " ++ two_digits count)

-- "%d"
unfoldable pub decimal_int : ℤ → List ℕ
decimal_int (pos n) = decimal_u32 n
decimal_int (negsuc n) = codes "-" ++ decimal_u32 (suc n)

abbrev pub battery_text : ℕ → List ℕ
battery_text percent = copy_text 8 (decimal_u32 percent ++ codes "%")

-- The degree sign is two bytes in UTF-8.
abbrev pub temperature_text : ℤ → List ℕ
temperature_text celsius = copy_text 12 (decimal_int celsius ++ 194 ∷ 176 ∷ codes "C")

abbrev pub steps_text : ℕ → List ℕ
steps_text steps = copy_text 24 (decimal_u32 steps ++ codes " STEPS")

abbrev pub plain : Surface → List ℕ → Color → Align → ℤ → ℤ → Label
plain parent text color align x y = record {
  parent = parent;
  text = text;
  font = Font.unscii_16;
  color = color;
  align = align;
  x = x;
  y = y;
  flow = Flow.one_line;
}

unfoldable pub page_indicator : Screen → Label
unfolding position_text
page_indicator screen =
    record (plain face (position_text (to_nat screen + 1) 5) Color.muted Align.bottom_mid (pos 0)
      (negsuc 42)) { flow = Flow.centered 120 }

abbrev pub cached_label : Bool → List Label
cached_label true = plain face (codes "CACHED") Color.accent Align.center (pos 0) (pos 66) ∷ []
cached_label false = []

unfoldable pub render_home : WatchState → List Label
unfolding decimal_int page_indicator
render_home s =
    plain face s.time_text Color.white Align.top_left (pos 82) (pos 42)
    ∷ plain face (battery_text s.battery_percent) Color.muted Align.top_right (negsuc 81) (pos 42)
    ∷ plain face s.date_text Color.muted Align.top_mid (pos 0) (pos 96)
    ∷ record (plain weather (temperature_text s.temperature_c) Color.white Align.center (pos 0)
        (negsuc 15)) { font = Font.montserrat_28 }
    ∷ plain weather (copy_text 48 s.weather_condition) Color.muted Align.center (pos 0) (pos 20)
    ∷ (cached_label s.host_data_stale
        ++ plain face (steps_text s.steps) Color.white Align.bottom_mid (pos 0) (negsuc 111)
          ∷ page_indicator s.active_screen
          ∷ [])

-- `notification`: NULL where none is stored, and refused where the index leaves the array.
unfoldable pub active_notification : NotificationList → Option (Option Notification)
active_notification list =
    if ltb 0 list.stored_count
    then (do notification ← get_elem? list.entries list.active_index; some (some notification))
    else some none

-- `app->member`, or the text in its place where there is no such app.
abbrev pub of_app : Option AppDescriptor → (AppDescriptor → List ℕ) → List ℕ → List ℕ
of_app (some app) member missing = member app
of_app none member missing = missing

abbrev pub on_screen : WatchState → Screen → Bool
on_screen s screen = to_nat s.active_screen == to_nat screen

-- The texts of the card that is not about a notification.
abbrev pub app_headline : WatchState → Option AppDescriptor → List ℕ
app_headline s app =
    if on_screen s Screen.music
    then s.music_title
    else of_app app (λ a. a.headline) (codes "Unavailable")

abbrev pub music_detail : WatchState → List ℕ
music_detail s =
    if ltb 0 (length s.music_action_feedback)
    then s.music_action_feedback
    else if s.music_playing
    then codes "PLAYING / TAP TO PAUSE"
    else codes "PAUSED / TAP TO PLAY"

abbrev pub app_detail : WatchState → Option AppDescriptor → List ℕ
app_detail s app =
    if on_screen s Screen.music
    then music_detail s
    else of_app app (λ a. a.offline_message) (codes "Application metadata is missing.")

-- `headline` and `detail`
unfoldable pub card_texts : WatchState → Option Notification → List ℕ × List ℕ
unfolding app_find
card_texts s none =
    (app_headline s (app_find s.active_screen), app_detail s (app_find s.active_screen))
card_texts s (some notification) =
    if on_screen s Screen.notifications
    then (notification.title, notification.body)
    else (app_headline s (app_find s.active_screen), app_detail s (app_find s.active_screen))

abbrev pub status_of : ConnectionState → Bool → List ℕ
status_of ConnectionState.online stale = codes "HOST SYNCED"
status_of _ true = codes "CACHE / STALE"
status_of _ false = codes "OFFLINE READY"

abbrev pub position_label : WatchState → List Label
position_label s =
    if on_screen s Screen.notifications && ltb 1 s.notifications.stored_count
    then plain card (position_text (s.notifications.active_index + 1) s.notifications.stored_count)
        Color.accent Align.bottom_left (pos 0) (pos 0)
      ∷ []
    else []

-- A label of the card, which wraps its text.
abbrev pub card_label : List ℕ → Color → ℤ → Label
card_label text color y = record (plain card text color Align.top_left (pos 0) y) {
  flow = Flow.wrapped 310;
}

unfoldable pub app_labels : WatchState → List ℕ × List ℕ → List Label
unfolding position_text page_indicator app_find
app_labels s (headline, detail) =
    plain face (status_of s.connection s.host_data_stale) Color.accent Align.top_left (pos 76)
      (pos 48)
    ∷ plain face (of_app (app_find s.active_screen) (λ a. a.name) (codes "Unknown")) Color.white
        Align.top_left (pos 76) (pos 78)
    ∷ card_label headline Color.white (pos 0)
    ∷ (position_label s
        ++ card_label detail Color.muted (pos 36) ∷ page_indicator s.active_screen ∷ [])

unfoldable pub render_app : WatchState → Option (List Label)
unfolding active_notification card_texts app_labels
render_app s = do
  notification ← active_notification s.notifications
  some (app_labels s (card_texts s notification))

-- What `renderer_render` and `renderer_refresh` both draw on the face.
unfoldable pub render : WatchState → Option (List Label)
unfolding render_home render_app
render s = if on_screen s Screen.home then some (render_home s) else render_app s
