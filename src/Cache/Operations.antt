-- ===== src/Cache/Operations.antt =====
-- What is captured into the record and restored from it.
use cmf_watch_pro_2_os.Base.{
  ℕ, ◌+◌, ◌%◌, ◌^◌, Bool, true, false, ltb, ◌==◌, if◌then◌else◌, copy_text,
}
use cmf_watch_pro_2_os.State.{WatchState, ConnectionState, to_nat, of_nat}
use cmf_watch_pro_2_os.Cache.Record.{Metadata, CacheRecord, Layout, seal, valid}

unfoldable pub refresh : Metadata → ℕ → Metadata
refresh meta now_ms = record {
  version = (meta.version + 1) % 2 ^ 32;
  updated_at_ms = now_ms;
  stale = false;
}

-- The later of two times, as the code takes it.
abbrev pub later : ℕ → ℕ → ℕ
later candidate t = if ltb t candidate then candidate else t

-- The five parts of `watch_cache_restore`, each on the state and the time so far. The flags
-- `restored` and `restored_host_data` are set together but for the application part.
abbrev pub restore_weather : CacheRecord → WatchState × ℕ × Bool → WatchState × ℕ × Bool
restore_weather c (s, t, host) =
    if ltb 0 c.weather_meta.version
    then (
      record s {
        temperature_c = c.temperature_c;
        weather_condition = copy_text 32 c.weather_condition;
      },
      c.weather_meta.updated_at_ms,
      true,
    )
    else (s, t, host)

abbrev pub restore_activity : CacheRecord → WatchState × ℕ × Bool → WatchState × ℕ × Bool
restore_activity c (s, t, host) =
    if ltb 0 c.activity_meta.version
    then (record s { steps = c.steps }, later c.activity_meta.updated_at_ms t, true)
    else (s, t, host)

abbrev pub restore_notifications : CacheRecord → WatchState × ℕ × Bool → WatchState × ℕ × Bool
restore_notifications c (s, t, host) =
    if ltb 0 c.notifications_meta.version
    then (
      record s { notifications = c.notifications },
      later c.notifications_meta.updated_at_ms t,
      true,
    )
    else (s, t, host)

abbrev pub restore_music : CacheRecord → WatchState × ℕ × Bool → WatchState × ℕ × Bool
restore_music c (s, t, host) =
    if ltb 0 c.music_meta.version
    then (
      record s { music_title = copy_text 64 c.music_title; music_playing = c.music_playing },
      later c.music_meta.updated_at_ms t,
      true,
    )
    else (s, t, host)

abbrev pub restore_application : CacheRecord → WatchState × Bool → WatchState × Bool
restore_application c (s, restored) =
    if ltb 0 c.application_meta.version
    then (record s { active_screen = of_nat c.active_screen }, true)
    else (s, restored)

module _ (layout : Layout) where
  unfoldable pub restore : CacheRecord → WatchState → WatchState × Bool
  restore c s =
      if valid layout c
      then (let (s1, updated_at_ms, host) =
            restore_music c
              (restore_notifications c (restore_activity c (restore_weather c (s, 0, false)))) in
          let (s2, restored) = restore_application c (s1, host) in
          (
            record s2 {
              connection = ConnectionState.offline;
              host_data_stale = host;
              host_data_updated_at_ms = updated_at_ms;
            },
            restored,
          ))
      else (s, false)

  unfoldable pub capture_sync : CacheRecord → WatchState → ℕ → ℕ → CacheRecord
  unfolding refresh seal
  capture_sync c s revision now_ms = seal layout (record c {
    weather_meta = refresh c.weather_meta now_ms;
    temperature_c = s.temperature_c;
    weather_condition = copy_text 32 s.weather_condition;
    activity_meta = refresh c.activity_meta now_ms;
    steps = s.steps;
    notifications_meta = refresh c.notifications_meta now_ms;
    notifications = s.notifications;
    music_meta = refresh c.music_meta now_ms;
    music_title = copy_text 64 s.music_title;
    music_playing = s.music_playing;
    connection_meta = refresh c.connection_meta now_ms;
    synchronized_revision = revision;
  })

  unfoldable pub capture_application : CacheRecord → WatchState → ℕ → CacheRecord
  unfolding refresh seal
  capture_application c s now_ms = seal layout (record c {
    application_meta = refresh c.application_meta now_ms;
    active_screen = to_nat s.active_screen;
    notifications = record (c.notifications) { active_index = s.notifications.active_index };
  })

  unfoldable pub mark_stale : CacheRecord → ℕ → CacheRecord
  unfolding refresh seal
  mark_stale c now_ms =
      if c.weather_meta.version == 0
      then c
      else seal layout (record c {
        weather_meta = record (c.weather_meta) { stale = true };
        activity_meta = record (c.activity_meta) { stale = true };
        notifications_meta = record (c.notifications_meta) { stale = true };
        music_meta = record (c.music_meta) { stale = true };
        connection_meta = record (refresh c.connection_meta now_ms) { stale = true };
      })
