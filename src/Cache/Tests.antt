-- ===== src/Cache/Tests.antt =====
-- Witnesses and runs of the cache.
use cmf_watch_pro_2_os.Base.{
  ◌%◌, ◌<◌, ◌≡◌, refl, ◌≢◌, ◌↔◌, ◌⊎◌, true, false, [], ◌∷◌, ◌++◌, arith, replicate, codes,
}
use cmf_watch_pro_2_os.Base.{some, none, ok, err}
use cmf_watch_pro_2_os.Cache.Storage.{load, save, cache_path}
use cmf_watch_pro_2_os.Cache.Storage.Samples.{memory, memory-FilesLaws}
use cmf_watch_pro_2_os.Cache.Storage.Replaced.{load-save}
use cmf_watch_pro_2_os.State
use cmf_watch_pro_2_os.State.{
  WatchState, Screen, ConnectionState, Notification, NotificationList, blank_notification,
  notification_capacity,
}
use cmf_watch_pro_2_os.State.Browse.{IsBrowsable}
use cmf_watch_pro_2_os.Cache.Record
use cmf_watch_pro_2_os.Cache.Record.{CacheRecord, Layout, fnv, valid}
use cmf_watch_pro_2_os.Cache.Operations.{
  refresh, restore, capture_sync, capture_application, mark_stale,
}
use cmf_watch_pro_2_os.Cache.Checksum.{fnv-detects}
use cmf_watch_pro_2_os.Cache.Validity.{capture-valid, capture_application-valid}
use cmf_watch_pro_2_os.Cache.Restore.{restored_screen, restore-capture_sync, restore-safe}

-- A layout of a few of the fields.
abbrev few : Layout
few = record {
  image = λ c. c.active_screen ∷ c.steps % 256 ∷ c.notifications.active_index ∷ c.weather_condition;
  size = 752;
}

abbrev fresh : CacheRecord
fresh = Record.init few

fresh_is_valid : valid few fresh ≡ true
unfolding valid Record.init Record.seal Record.checksum_of fnv
fresh_is_valid = refl

-- Two notifications, the second of them shown.
abbrev two : NotificationList
two = record {
  total_count = 2;
  stored_count = 2;
  active_index = 1;
  entries =
      record { title = codes "Mail"; body = codes "One" }
      ∷ record { title = codes "Call"; body = codes "Two" }
      ∷ replicate 2 blank_notification;
}

abbrev busy : WatchState
busy = record (State.init) {
  notifications = two;
  active_screen = Screen.notifications;
  steps = 8000;
}

two-IsBrowsable : IsBrowsable two
two-IsBrowsable = ground arith

fnv-detects_example :
    fnv 2166136261 ((1 ∷ 2 ∷ []) ++ 3 ∷ 4 ∷ []) ≢ fnv 2166136261 ((1 ∷ 2 ∷ []) ++ 7 ∷ 4 ∷ [])
fnv-detects_example =
    fnv-detects 2166136261 (1 ∷ 2 ∷ []) 3 7 (4 ∷ []) (omega arith) (omega arith) (omega arith)
      (omega arith) (omega arith)

capture-valid_example :
    (valid few (capture_sync few fresh busy 12 5000) ≡ true)
    × (valid few (mark_stale few fresh 5000) ≡ true)
    × (valid few (Record.init few) ≡ true)
capture-valid_example = capture-valid few fresh busy 12 5000 fresh_is_valid two-IsBrowsable

-- The record holds no notifications, the state shows its second one.
capture_application-valid_example : (valid few (capture_application few fresh busy 5000) ≡ true) ↔ (
    ((fresh.notifications.stored_count ≡ 0) × (busy.notifications.active_index ≡ 0))
    ⊎ (busy.notifications.active_index < fresh.notifications.stored_count))
capture_application-valid_example =
    capture_application-valid few fresh busy 5000 fresh_is_valid (λ e. cc)

captured_is_invalid : valid few (capture_application few fresh busy 5000) ≡ false
unfolding valid capture_application Record.init Record.seal Record.checksum_of fnv refresh
captured_is_invalid = refl

restore-capture_sync_example : restore few (capture_sync few fresh busy 12 5000) (State.init) ≡ (
  record (State.init) {
    active_screen = restored_screen fresh (State.init);
    connection = ConnectionState.offline;
    steps = busy.steps;
    temperature_c = busy.temperature_c;
    weather_condition = busy.weather_condition;
    music_title = busy.music_title;
    music_playing = busy.music_playing;
    notifications = busy.notifications;
    host_data_stale = true;
    host_data_updated_at_ms = 5000;
  },
  true,
)
unfolding Record.init Record.seal
restore-capture_sync_example =
    restore-capture_sync few fresh busy (State.init) 12 5000 fresh_is_valid two-IsBrowsable
      (record { condition = omega arith; title = omega arith })
      (record {
        weather = omega arith;
        activity = omega arith;
        notifications = omega arith;
        music = omega arith;
      })

restore-safe_example :
    let (s', restored) = restore few fresh busy in
    IsBrowsable s'.notifications
    × (s'.active_screen ≢ Screen.count)
    × (valid few fresh ≡ false → (s' ≡ busy) × (restored ≡ false))
unfolding Record.init Record.seal
restore-safe_example = restore-safe few fresh busy refl (omega arith) two-IsBrowsable (λ e. cc)

load-save_example :
    let (result, f') = save few memory (some (codes "/tmp/cache")) fresh (λ p. none) in
    load few memory (some (codes "/tmp/cache")) f' ≡ (elim result [
      | ok _ ↦ ok fresh
      | err e ↦ load few memory (some (codes "/tmp/cache")) (λ p. none)
    ])
load-save_example =
    load-save few memory memory-FilesLaws (some (codes "/tmp/cache")) fresh (λ p. none)
      fresh_is_valid

saved_is_loaded :
    load few memory
      (some (codes "/tmp/cache"))
      (save few memory (some (codes "/tmp/cache")) fresh (λ p. none)).1
    ≡ ok fresh
unfolding save cache_path
saved_is_loaded =
    load-save few memory memory-FilesLaws (some (codes "/tmp/cache")) fresh (λ p. none)
      fresh_is_valid
