-- ===== src/Cache/Storage/Device.antt =====
-- The build of watch_cache_storage.c for a device, which has no files, against the simulator's build.
use cmf_watch_pro_2_os.Base.{ℕ, ◌≡◌, refl, List, Option, none, Result, err, Errno, enotsup}
use cmf_watch_pro_2_os.Cache.Record.{CacheRecord, Layout}
use cmf_watch_pro_2_os.Cache.Storage.{Files, cache_path, load, save}

-- `watch_cache_storage_load`, `watch_cache_storage_save` and `watch_cache_storage_now_ms`, where
-- `uptime` is `k_uptime_get`.
unfoldable pub device_load : Result Errno CacheRecord
device_load = err enotsup

unfoldable pub device_save : {F : Type 0} → CacheRecord → F → Result Errno (Unit {0}) × F
device_save cache fs = (err enotsup, fs)

unfoldable pub device_now_ms : {F : Type 0} → (F → ℕ × F) → F → ℕ × F
device_now_ms uptime fs = uptime fs

-- The simulator's build without a path in its environment does what the device's build does: it loads
-- nothing, saves nothing and leaves the files alone, for any files.
pub load-device :
    {F : Type 0} (layout : Layout) (files : Files F) (variable : Option (List ℕ)) (c : CacheRecord)
    (fs : F)
    → cache_path variable ≡ none
    → (load layout files variable fs ≡ device_load)
      × (save layout files variable c fs ≡ device_save c fs)
unfolding load save device_load device_save
load-device layout files variable c fs e = (rw (e, load) refl, rw (e, save) refl)
