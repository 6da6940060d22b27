-- ===== src/Renderer/Tests.antt =====
-- Witnesses and runs of the renderer.
use cmf_watch_pro_2_os.Base.{
  ℕ, ◌<◌, ◌≡◌, refl, false, List, [], ◌∷◌, some, arith, codes, get_elem?, replicate,
}
use cmf_watch_pro_2_os.Base.Int.{pos, ◌-ℤ◌}
use cmf_watch_pro_2_os.State
use cmf_watch_pro_2_os.State.{WatchState, Screen, Notification, blank_notification}
use cmf_watch_pro_2_os.State.Browse.{IsBrowsable}
use cmf_watch_pro_2_os.Gesture.{Swipe}
use cmf_watch_pro_2_os.Gesture.Symmetry.{Means}
use cmf_watch_pro_2_os.Transport.Frames.{digits_of}
use cmf_watch_pro_2_os.Renderer
use cmf_watch_pro_2_os.Renderer.{Renderer, Point, action_of}
use cmf_watch_pro_2_os.Renderer.Faces.{Label, render, position_text, two_digits}
use cmf_watch_pro_2_os.Renderer.Drawn.{card_lines, card_of, render-shown}
use cmf_watch_pro_2_os.Renderer.Swipes.{OnDisplay, gesture, touches, listed, touches-gesture}

position_of_two : position_text 2 5 ≡ codes "02 / 05"
unfolding position_text two_digits digits_of
position_of_two = refl

-- The inbox, with the second of two notifications shown.
abbrev inbox : WatchState
inbox = record (State.init) {
  active_screen = Screen.notifications;
  notifications = record {
    total_count = 2;
    stored_count = 2;
    active_index = 1;
    entries =
        record { title = codes "Mail"; body = codes "One" }
        ∷ record { title = codes "Call"; body = codes "Two" }
        ∷ replicate 2 blank_notification;
  };
}

inbox-IsBrowsable : IsBrowsable inbox.notifications
inbox-IsBrowsable = ground arith

render-shown_example :
    (n : Notification) × (labels : List Label) × (get_elem? inbox.notifications.entries 1 ≡ some n)
    × (render inbox ≡ some labels)
    × (card_lines labels ≡ card_of inbox.notifications n)
render-shown_example = render-shown inbox inbox-IsBrowsable refl (omega arith)

abbrev at : ℕ → ℕ → Point
at x y = record { x = pos x; y = pos y }

at-OnDisplay : (x y : ℕ) → x < 466 → y < 466 → OnDisplay (at x y)
at-OnDisplay x y h k = record { right = omega arith; down = omega arith }

touches-gesture_example :
    (swipe : Swipe) × (r' : Renderer) × (touches
        (gesture (at 300 200) (at 200 205 ∷ []) (at 100 210))
        (Renderer.init Renderer.blank)
      ≡ some (r', listed (action_of swipe)))
    × Means swipe (pos 100 -ℤ pos 300) (pos 210 -ℤ pos 200)
    × (r'.swipe_tracking ≡ false)
touches-gesture_example =
    touches-gesture (Renderer.init Renderer.blank) (at 300 200) (at 200 205 ∷ []) (at 100 210) refl
      (at-OnDisplay 300 200 (omega arith) (omega arith))
      (at-OnDisplay 100 210 (omega arith) (omega arith))
