-- ===== src/Renderer/Picture.antt =====
-- The whole screen that `renderer_render` and `renderer_refresh` create, and how it is loaded
-- (watch/src/animation/watch_animation.c). An object is the list of the calls that set it up.
use cmf_watch_pro_2_os.Base.{
  ℕ, Bool, true, false, List, [], ◌∷◌, Option, none, some, ◌>>=◌, if◌then◌else◌,
}
use cmf_watch_pro_2_os.Base.Int.{ℤ, pos, negsuc}
use cmf_watch_pro_2_os.State.{WatchState, Screen}
use cmf_watch_pro_2_os.Renderer.Faces.{Surface, Color, Align, Label, on_screen, render}

-- The red, green and blue of the colours that `LV_COLOR_MAKE` makes; LVGL has the others.
unfoldable pub channels : Color → Option (ℕ × ℕ × ℕ)
channels Color.background = some (4, 7, 7)
channels Color.surface = some (8, 14, 13)
channels Color.accent = some (105, 240, 166)
channels Color.muted = some (126, 146, 138)
channels Color.line = some (34, 67, 55)
channels Color.white = none
channels Color.black = none

-- The calls of LVGL on an object.
pub data Setting : Type 0 where
  remove_style_all center bg_opa_cover bg_opa_transparent radius_circle : Setting
  size : ℕ → ℕ → Setting
  aligned : Align → ℤ → ℤ → Setting
  clickable scrollable : Bool → Setting
  bg_color border_color : Color → Setting
  radius border_width shadow_width pad_all : ℕ → Setting

-- The events that an object can report, and the functions that are called for them.
pub data EventCode : Type 0 where
  pressed pressing released press_lost short_clicked : EventCode

pub data Listener : Type 0 where
  gesture_event activate_event : Listener

-- The screen, its face, the panel on the face that holds some of the labels, all labels, and the layer
-- over them that reports the touches.
pub record Picture : Type 0 where
  pub screen : List Setting
  pub plate : List Setting
  pub panel : Surface × List Setting
  pub labels : List Label
  pub layer : List Setting
  pub listeners : List (EventCode × Listener)

abbrev pub screen_settings : List Setting
screen_settings = Setting.bg_color Color.black ∷ Setting.bg_opa_cover ∷ Setting.pad_all 0 ∷ []

abbrev pub face_settings : List Setting
face_settings =
    Setting.size 438 438
    ∷ Setting.center
    ∷ Setting.scrollable false
    ∷ Setting.radius_circle
    ∷ Setting.bg_color Color.background
    ∷ Setting.bg_opa_cover
    ∷ Setting.border_width 2
    ∷ Setting.border_color Color.line
    ∷ Setting.pad_all 0
    ∷ []

abbrev pub layer_settings : List Setting
layer_settings =
    Setting.remove_style_all
    ∷ Setting.size 438 438
    ∷ Setting.center
    ∷ Setting.clickable true
    ∷ Setting.scrollable false
    ∷ []

abbrev pub layer_listeners : List (EventCode × Listener)
layer_listeners =
    (EventCode.pressed, Listener.gesture_event)
    ∷ (EventCode.pressing, Listener.gesture_event)
    ∷ (EventCode.released, Listener.gesture_event)
    ∷ (EventCode.press_lost, Listener.gesture_event)
    ∷ (EventCode.short_clicked, Listener.activate_event)
    ∷ []

abbrev pub weather_settings : List Setting
weather_settings =
    Setting.remove_style_all
    ∷ Setting.size 250 112
    ∷ Setting.aligned Align.center (pos 0) (negsuc 7)
    ∷ Setting.bg_opa_transparent
    ∷ Setting.border_width 0
    ∷ Setting.shadow_width 0
    ∷ []

abbrev pub card_settings : List Setting
card_settings =
    Setting.size 350 210
    ∷ Setting.aligned Align.center (pos 0) (pos 20)
    ∷ Setting.radius 6
    ∷ Setting.bg_color Color.surface
    ∷ Setting.border_width 1
    ∷ Setting.border_color Color.line
    ∷ Setting.pad_all 18
    ∷ []

-- The panel of a page.
abbrev pub panel_of : WatchState → Surface × List Setting
panel_of s =
    if on_screen s Screen.home
    then (Surface.weather, weather_settings)
    else (Surface.card, card_settings)

-- The screen with these labels on its face.
abbrev pub framed : WatchState → List Label → Picture
framed s labels = record {
  screen = screen_settings;
  plate = face_settings;
  panel = panel_of s;
  labels = labels;
  layer = layer_settings;
  listeners = layer_listeners;
}

-- What `renderer_render` and `renderer_refresh` both create.
unfoldable pub renderer_screen : WatchState → Option Picture
unfolding render
renderer_screen s = do labels ← render s; some (framed s labels)

-- `lv_screen_load_anim`: the animation, its time and its delay in ms, and whether the screen that is
-- left is deleted.
pub data LoadAnimation : Type 0 where
  no_animation move_left move_right : LoadAnimation

pub record Loading : Type 0 where
  pub animation : LoadAnimation
  pub time : ℕ
  pub delay : ℕ
  pub delete_old : Bool

-- `watch_animation_load`
unfoldable pub animation_load : Bool → Loading
animation_load backwards = record {
  animation = if backwards then LoadAnimation.move_right else LoadAnimation.move_left;
  time = 260;
  delay = 0;
  delete_old = true;
}

-- The last call of `renderer_refresh`.
abbrev pub load_at_once : Loading
load_at_once = record {
  animation = LoadAnimation.no_animation;
  time = 0;
  delay = 0;
  delete_old = true;
}
