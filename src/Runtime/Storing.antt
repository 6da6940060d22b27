-- ===== src/Runtime/Storing.antt =====
-- The runtime's captures of the state into the cache, each saved at once.
use cmf_watch_pro_2_os.Base.{ℕ}
use cmf_watch_pro_2_os.Cache.Record.{CacheRecord, Layout}
use cmf_watch_pro_2_os.Cache.Operations.{capture_sync, capture_application, mark_stale}
use cmf_watch_pro_2_os.Cache.Storage.{save}
use cmf_watch_pro_2_os.Transport.Link.{System}
use cmf_watch_pro_2_os.Runtime.{Device, Board, now_ms}

module _ {W : Type 0} (board : Board W) (layout : Layout) where
  -- `(void)watch_cache_storage_save(&cache)`, with the new record.
  unfoldable pub save_record : CacheRecord → System Device W → System Device W
  unfolding save
  save_record cache sys =
      let (result, w) = save layout board.files (board.variable sys.world) cache sys.world in
      record sys { app = record (sys.app) { cache = cache }; world = w }

  unfoldable pub store_sync_at : ℕ → System Device W → System Device W
  unfolding save_record
  store_sync_at t sys =
      save_record (capture_sync layout sys.app.cache sys.app.state sys.app.sync.revision t) sys

  unfoldable pub store_sync : System Device W → System Device W
  unfolding store_sync_at
  store_sync sys = let (t, sys') = now_ms board sys in store_sync_at t sys'

  unfoldable pub store_application : System Device W → System Device W
  unfolding save_record
  store_application sys =
      let (t, sys') = now_ms board sys in
      save_record (capture_application layout sys'.app.cache sys'.app.state t) sys'

  unfoldable pub store_stale : System Device W → System Device W
  unfolding save_record
  store_stale sys =
      let (t, sys') = now_ms board sys in save_record (mark_stale layout sys'.app.cache t) sys'
