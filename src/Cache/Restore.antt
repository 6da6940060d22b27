-- ===== src/Cache/Restore.antt =====
-- What comes back from the cache.
pub mod Texts
use cmf_watch_pro_2_os.Base.{
  ℕ, ◌+◌, ◌^◌, ◌≤◌, ◌<◌, ◌≡◌, ◌≢◌, true, false, arith, ltb, length, if◌then◌else◌, take_of_le,
}
use cmf_watch_pro_2_os.State.{WatchState, ConnectionState, Screen, of_nat, notification_capacity}
use cmf_watch_pro_2_os.State.Browse.{IsBrowsable}
use cmf_watch_pro_2_os.Cache.Record.{CacheRecord, Layout, valid}
use cmf_watch_pro_2_os.Cache.Operations.{capture_sync, restore}
use cmf_watch_pro_2_os.Cache.Validity.{capture-valid, valid-well_formed}

-- The texts of the state fit their arrays.
pub record TextsFit (s : WatchState) : Type 0 where
  pub condition : length s.weather_condition < 32
  pub title : length s.music_title < 64

-- None of the counters of the host's data is about to wrap to 0.
pub record CountersFit (c : CacheRecord) : Type 0 where
  pub weather : c.weather_meta.version + 1 < 2 ^ 32
  pub activity : c.activity_meta.version + 1 < 2 ^ 32
  pub notifications : c.notifications_meta.version + 1 < 2 ^ 32
  pub music : c.music_meta.version + 1 < 2 ^ 32

-- The page that a record restores over `s`.
abbrev pub restored_screen : CacheRecord → WatchState → Screen
restored_screen c s =
    if ltb 0 c.application_meta.version then of_nat c.active_screen else s.active_screen

module _ (layout : Layout) where
  -- A state captured after a synchronisation comes back whole from the cache: restoring over any
  -- state gives the captured steps, temperature, condition, notifications and music, marked stale at
  -- the time of the capture, and the connection offline; the screen is the last one captured, and
  -- nothing else changes.
  pub restore-capture_sync :
      (c : CacheRecord) (s old : WatchState) (revision now_ms : ℕ)
      → valid layout c ≡ true
      → IsBrowsable s.notifications
      → TextsFit s
      → CountersFit c
      → restore layout (capture_sync layout c s revision now_ms) old ≡ (
        record old {
          active_screen = restored_screen c old;
          connection = ConnectionState.offline;
          steps = s.steps;
          temperature_c = s.temperature_c;
          weather_condition = s.weather_condition;
          music_title = s.music_title;
          music_playing = s.music_playing;
          notifications = s.notifications;
          host_data_stale = true;
          host_data_updated_at_ms = now_ms;
        },
        true,
      )
  unfolding restore
  restore-capture_sync c s old revision now_ms h v t k =
      rw ((capture-valid layout c s revision now_ms h v).0) (
        unfold capture_sync in
        ground (arith, take_of_le 31 s.weather_condition, take_of_le 63 s.music_title))

  -- Restoring a record over a state that is safe to show gives such a state, whether the record is
  -- valid or not: a page on the screen, and an active notification within those stored. The record has
  -- its 4 notification slots, and it stores no more notifications than it counts. A record that is not
  -- valid changes nothing.
  pub restore-safe :
      (c : CacheRecord) (s : WatchState)
      → length c.notifications.entries ≡ notification_capacity
      → c.notifications.stored_count ≤ c.notifications.total_count
      → IsBrowsable s.notifications
      → s.active_screen ≢ Screen.count
      → let (s', restored) = restore layout c s in
        IsBrowsable s'.notifications
        × (s'.active_screen ≢ Screen.count)
        × (valid layout c ≡ false → (s' ≡ s) × (restored ≡ false))
  unfolding restore
  restore-safe c s slots counted v page = ground (arith, valid-well_formed layout c)
