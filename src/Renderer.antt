-- ===== src/Renderer.antt =====
-- watch/src/renderer/renderer.h and renderer.c: the touches that become actions, and the faces that
-- are drawn. LVGL reports the touches and draws the labels of a face.
pub mod Faces
pub mod Picture
pub mod Swipes
pub mod Drawn
mod Tests
use cmf_watch_pro_2_os.Base.{
  ℕ, ◌+◌, ◌%◌, ◌^◌, Bool, true, false, ◌&&◌, Option, none, some, ltb, if◌then◌else◌, ◌>>=◌,
}
use cmf_watch_pro_2_os.Base.Int.{ℤ, pos, negsuc, ◌-ℤ◌}
use cmf_watch_pro_2_os.Gesture.{Swipe, swipe_classify}

-- `enum renderer_action`
pub data RendererAction : Type 0 where
  next previous next_item previous_item activate : RendererAction

-- `lv_point_t`
pub record Point : Type 0 where
  pub x : ℤ
  pub y : ℤ

-- The static variables; `handled` says that `handler` is not NULL.
pub record Renderer : Type 0 where
  pub handled : Bool
  pub swipe_start : Point
  pub swipe_last : Point
  pub swipe_tracking : Bool
  pub rendered_frames : ℕ

-- The events that LVGL reports, with the point that `lv_indev_get_point` reads.
pub data TouchEvent : Type 0 where
  pressed pressing released press_lost : Point → TouchEvent
  short_clicked refreshed : TouchEvent

abbrev origin : Point
origin = record { x = pos 0; y = pos 0 }

-- The variables before `renderer_init`.
abbrev pub blank : Renderer
blank = record {
  handled = false;
  swipe_start = origin;
  swipe_last = origin;
  swipe_tracking = false;
  rendered_frames = 0;
}

abbrev pub init : Renderer → Renderer
init r = record r { handled = true }

abbrev pub frame_count : Renderer → ℕ
frame_count r = r.rendered_frames

unfoldable pub is_int32 : ℤ → Bool
is_int32 (pos n) = ltb n (2 ^ 31)
is_int32 (negsuc n) = ltb n (2 ^ 31)

-- An int32_t difference; an overflow, which C leaves undefined, gives `none`.
unfoldable pub int32_difference : ℤ → ℤ → Option ℤ
unfolding is_int32
int32_difference a b = if is_int32 (a -ℤ b) then some (a -ℤ b) else none

abbrev pub action_of : Swipe → Option RendererAction
action_of Swipe.no_swipe = none
action_of Swipe.next = some RendererAction.next
action_of Swipe.previous = some RendererAction.previous
action_of Swipe.next_item = some RendererAction.next_item
action_of Swipe.previous_item = some RendererAction.previous_item

-- `if (handler != NULL)`
abbrev pub reported : Renderer → Option RendererAction → Option RendererAction
reported r action = if r.handled then action else none

-- The end of a touch that is tracked.
unfoldable pub release : Renderer → Point → Option (Renderer × Option RendererAction)
unfolding int32_difference
release r point = do
  dx ← int32_difference point.x r.swipe_start.x
  dy ← int32_difference point.y r.swipe_start.y
  swipe ← swipe_classify dx dy
  some (record r { swipe_last = point; swipe_tracking = false }, reported r (action_of swipe))

abbrev pub release_tracked : Renderer → Point → Option (Renderer × Option RendererAction)
release_tracked r point = if r.swipe_tracking then release r point else some (r, none)

-- `gesture_event`, `activate_event` and `frame_event`, with the action that the handler is called for.
unfoldable pub touch : Renderer → TouchEvent → Option (Renderer × Option RendererAction)
unfolding release
touch r (pressed point) =
    some (record r { swipe_start = point; swipe_last = point; swipe_tracking = true }, none)
touch r (pressing point) =
    some ((if r.swipe_tracking then record r { swipe_last = point } else r), none)
touch r (released point) = release_tracked r point
touch r (press_lost point) = release_tracked r point
touch r short_clicked = some (r, reported r (some RendererAction.activate))
touch r refreshed = some (record r { rendered_frames = (r.rendered_frames + 1) % 2 ^ 32 }, none)
