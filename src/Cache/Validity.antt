-- ===== src/Cache/Validity.antt =====
-- Which operations leave a record that a later load accepts.
use cmf_watch_pro_2_os.Base.{
  ℕ, ◌<◌, ◌≡◌, refl, ◌∙◌, ◌↔◌, ◌⊎◌, ◌≢◌, Bool, true, ◌&&◌, arith, ltb, leb, ◌==◌, Bool-cases, inl,
  inr,
}
use cmf_watch_pro_2_os.State.{WatchState, Screen, to_nat}
use cmf_watch_pro_2_os.State.Browse.{IsBrowsable}
use cmf_watch_pro_2_os.Cache.Record.{
  CacheRecord, Layout, checksum_of, seal, init, valid, valid_header, valid_indices,
}
use cmf_watch_pro_2_os.Cache.Operations.{capture_sync, capture_application, mark_stale}

page-lt : (s : Screen) → s ≢ Screen.count → to_nat s < 5
page-lt Screen.count h = absurd (h refl)
page-lt _ h = omega arith

module _ (layout : Layout) where
  -- What `watch_cache_valid` asks beside the checksum.
  abbrev pub well_formed : CacheRecord → Bool
  well_formed c =
      valid_header layout c
      && (leb 0 c.active_screen && ltb c.active_screen 5)
      && valid_indices layout c

  -- A sealed record is valid exactly when its fields are in order: the checksum stays out of the way.
  pub valid-seal : (c : CacheRecord) → valid layout (seal layout c) ≡ well_formed c
  unfolding valid seal checksum_of
  valid-seal c = ground arith

  pub valid-well_formed : (c : CacheRecord) → valid layout c ≡ true → well_formed c ≡ true
  unfolding valid
  valid-well_formed c h = ground arith

  pub init-valid : valid layout (init layout) ≡ true
  unfolding init
  init-valid = valid-seal _ ∙ ground arith

  -- Capturing a synchronised state whose notifications are well formed, and marking a record stale,
  -- take a valid record to a valid record; a fresh record is valid.
  pub capture-valid :
      (c : CacheRecord) (s : WatchState) (revision now_ms : ℕ)
      → valid layout c ≡ true
      → IsBrowsable s.notifications
      → (valid layout (capture_sync layout c s revision now_ms) ≡ true)
        × (valid layout (mark_stale layout c now_ms) ≡ true)
        × (valid layout (init layout) ≡ true)
  unfolding capture_sync mark_stale
  capture-valid c s revision now_ms h v =
      (valid-seal _ ∙ ground (arith, valid-well_formed c h), stale, init-valid)
    where
      stale : valid layout (mark_stale layout c now_ms) ≡ true
      stale = elim (Bool-cases (c.weather_meta.version == 0)) [
        | inl e ↦ rw (e, mark_stale) h
        | inr e ↦ rw (e, mark_stale) (valid-seal _ ∙ valid-well_formed c h)
      ]

  -- Capturing the screen copies the state's active index beside the record's own notifications. From
  -- a valid record, with a page on the screen, the result is valid exactly when that index fits the
  -- notifications that the record holds, which may be others than the state's.
  pub capture_application-valid :
      (c : CacheRecord) (s : WatchState) (now_ms : ℕ)
      → valid layout c ≡ true
      → s.active_screen ≢ Screen.count
      → (valid layout (capture_application layout c s now_ms) ≡ true) ↔ (
          ((c.notifications.stored_count ≡ 0) × (s.notifications.active_index ≡ 0))
          ⊎ (s.notifications.active_index < c.notifications.stored_count))
  unfolding capture_application
  capture_application-valid c s now_ms h page =
      rw (valid-seal _) (ground (arith, valid-well_formed c h, page-lt s.active_screen page))
