-- ===== src/Cache/Restore/Texts.antt =====
-- Restoring keeps the texts within their arrays.
use cmf_watch_pro_2_os.Base.{
  ℕ, ◌-◌, ◌<◌, ◌≡◌, refl, inl, inr, Bool, false, List, arith, ltb, length, length-take, copy_text,
  Bool-cases,
}
use cmf_watch_pro_2_os.State.{WatchState, ConnectionState}
use cmf_watch_pro_2_os.State.Browse.{EntriesFit}
use cmf_watch_pro_2_os.Cache.Record.{CacheRecord, Layout, valid}
use cmf_watch_pro_2_os.Cache.Operations.{
  restore, restore_weather, restore_activity, restore_notifications, restore_music,
  restore_application,
}

-- The texts fit; the page and the connection are those of the state `s`.
record Fits (s s' : WatchState) : Type 0 where
  condition : length s'.weather_condition < 32
  title : length s'.music_title < 64
  page : s'.active_screen ≡ s.active_screen
  connection : s'.connection ≡ s.connection
  texts : EntriesFit s'.notifications.entries

length-copy_text :
    (capacity : ℕ) (text : List ℕ) → 0 < capacity → length (copy_text capacity text) < capacity
length-copy_text capacity text h = omega (arith, length-take (capacity - 1) text)

weather-Fits :
    (c : CacheRecord) (s s' : WatchState) (t : ℕ) (b : Bool)
    → Fits s s'
    → Fits s (restore_weather c (s', t, b)).0
weather-Fits c s s' t b h = elim (Bool-cases (ltb 0 c.weather_meta.version)) [
  | inl e ↦ rw (e) (record {
    condition = length-copy_text 32 c.weather_condition (omega arith);
    title = h.title;
    page = h.page;
    connection = h.connection;
    texts = h.texts;
  })
  | inr e ↦ rw (e) h
]

activity-Fits :
    (c : CacheRecord) (s s' : WatchState) (t : ℕ) (b : Bool)
    → Fits s s'
    → Fits s (restore_activity c (s', t, b)).0
activity-Fits c s s' t b h = elim (Bool-cases (ltb 0 c.activity_meta.version)) [
  | inl e ↦ rw (e) (record {
    condition = h.condition;
    title = h.title;
    page = h.page;
    connection = h.connection;
    texts = h.texts;
  })
  | inr e ↦ rw (e) h
]

notifications-Fits :
    (c : CacheRecord) (s s' : WatchState) (t : ℕ) (b : Bool)
    → Fits s s'
    → EntriesFit c.notifications.entries
    → Fits s (restore_notifications c (s', t, b)).0
notifications-Fits c s s' t b h v = elim (Bool-cases (ltb 0 c.notifications_meta.version)) [
  | inl e ↦ rw (e) (record {
    condition = h.condition;
    title = h.title;
    page = h.page;
    connection = h.connection;
    texts = v;
  })
  | inr e ↦ rw (e) h
]

music-Fits :
    (c : CacheRecord) (s s' : WatchState) (t : ℕ) (b : Bool)
    → Fits s s'
    → Fits s (restore_music c (s', t, b)).0
music-Fits c s s' t b h = elim (Bool-cases (ltb 0 c.music_meta.version)) [
  | inl e ↦ rw (e) (record {
    condition = h.condition;
    title = length-copy_text 64 c.music_title (omega arith);
    page = h.page;
    connection = h.connection;
    texts = h.texts;
  })
  | inr e ↦ rw (e) h
]

abbrev Kept : WatchState → WatchState × Bool → Type 0
Kept s (s', restored) =
    (length s'.weather_condition < 32)
    × (length s'.music_title < 64)
    × (restored ≡ false → s'.active_screen ≡ s.active_screen)
    × (s.connection ≡ ConnectionState.offline → s'.connection ≡ ConnectionState.offline)
    × EntriesFit s'.notifications.entries

application-Kept :
    (c : CacheRecord) (s s' : WatchState) (b host : Bool) (t : ℕ)
    → Fits s s'
    → let (s2, restored) = restore_application c (s', b) in
      Kept s (
        record s2 {
          connection = ConnectionState.offline;
          host_data_stale = host;
          host_data_updated_at_ms = t;
        },
        restored,
      )
application-Kept c s s' b host t h = elim (Bool-cases (ltb 0 c.application_meta.version)) [
  | inl e ↦ rw (e) (h.condition, h.title, (λ x. absurd (cc)), (λ x. refl), h.texts)
  | inr e ↦ rw (e) (h.condition, h.title, (λ x. h.page), (λ x. refl), h.texts)
]

-- After restoring a record whose notifications have their terminators over a state whose texts fit,
-- they fit; where nothing is reported the page is the
-- same; and a watch that is offline stays so.
pub restore-Kept :
    (layout : Layout) (c : CacheRecord) (s : WatchState)
    → length s.weather_condition < 32
    → length s.music_title < 64
    → EntriesFit s.notifications.entries
    → EntriesFit c.notifications.entries
    → Kept s (restore layout c s)
unfolding restore
restore-Kept layout c s h k u v = elim (Bool-cases (valid layout c)) [
  | inr e ↦ rw (e) (h, k, (λ x. refl), (λ x. x), u)
  | inl e ↦
      let fits =
        weather-Fits c s s 0 false
          (record { condition = h; title = k; page = refl; connection = refl; texts = u }) in
      let x1 = restore_weather c (s, 0, false) in
      let x2 = restore_activity c x1 in
      let x3 = restore_notifications c x2 in
      let x4 = restore_music c x3 in
      rw (e) (
        application-Kept c s x4.0 x4.2 x4.2 x4.1 (
          music-Fits c s x3.0 x3.1 x3.2
            (notifications-Fits c s x2.0 x2.1 x2.2 (activity-Fits c s x1.0 x1.1 x1.2 fits) v)))
]
