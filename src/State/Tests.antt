-- ===== src/State/Tests.antt =====
-- Witnesses and runs of the state's operations.
use cmf_watch_pro_2_os.Base.{◌+◌, ◌<◌, ◌≡◌, refl, ◌↔◌, true, false, [], ◌∷◌, arith, codes}
use cmf_watch_pro_2_os.State.{
  WatchState, NotificationList, blank_notification, init, notification_next, notification_previous,
  set_screen, screen_name, Screen,
}
use cmf_watch_pro_2_os.State.Browse.{previous-next}

abbrev inbox : NotificationList
inbox = record {
  total_count = 2;
  stored_count = 2;
  active_index = 0;
  entries =
      record { title = codes "First"; body = codes "one" }
      ∷ record { title = codes "Second"; body = codes "two" }
      ∷ blank_notification
      ∷ blank_notification
      ∷ [];
}

abbrev two_notifications : WatchState
two_notifications = record init { notifications = inbox }

previous-next_example :
    (((notification_next two_notifications).1 ≡ true) ↔ (0 + 1 < 2))
    × ((notification_next two_notifications).1 ≡ true
        → ((notification_next two_notifications).0.notifications.active_index ≡ 0 + 1)
          × (notification_previous (notification_next two_notifications).0
              ≡ (two_notifications, true)))
    × ((notification_next two_notifications).1 ≡ false
        → (notification_next two_notifications).0 ≡ two_notifications)
previous-next_example = previous-next two_notifications (omega arith)

last_entry_stays : (notification_next (notification_next two_notifications).0).1 ≡ false
unfolding notification_next
last_entry_stays = refl

music_name : screen_name (set_screen init Screen.music).active_screen ≡ codes "music"
unfolding screen_name set_screen
music_name = refl
