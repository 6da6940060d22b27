-- ===== src/Runtime/Restart.antt =====
-- What a restart makes of the cache that the runtime has saved.
pub mod Alone
mod Tests
use cmf_watch_pro_2_os.Base.{
  ℕ, ◌≡◌, refl, true, Option, none, some, List, Result, Errno, Bool-cases, false, inl, inr, ltb,
}
use cmf_watch_pro_2_os.State
use cmf_watch_pro_2_os.State.{WatchState, ConnectionState}
use cmf_watch_pro_2_os.State.Browse.{IsBrowsable}
use cmf_watch_pro_2_os.Navigation
use cmf_watch_pro_2_os.Navigation.{Navigation, current}
use cmf_watch_pro_2_os.Json.{Json}
use cmf_watch_pro_2_os.Cache.Record.{CacheRecord, Layout}
use cmf_watch_pro_2_os.Cache.Restore.{restored_screen}
use cmf_watch_pro_2_os.Transport.Link.{Client}
use cmf_watch_pro_2_os.Runtime.{Board}
use cmf_watch_pro_2_os.Runtime.Loop.{initialised, timer_handler, touch_all}
use cmf_watch_pro_2_os.Runtime.Messages.{callbacks}
use cmf_watch_pro_2_os.Runtime.Display.{render_current}
use cmf_watch_pro_2_os.Runtime.View.{render_current-Drawn}
use cmf_watch_pro_2_os.Renderer.Picture.{Picture}
use cmf_watch_pro_2_os.Runtime.Health.{render_current-page}
use cmf_watch_pro_2_os.Renderer
use cmf_watch_pro_2_os.Input
use cmf_watch_pro_2_os.Transport.Connection
use cmf_watch_pro_2_os.Transport.Connection.{connect_if_due, connect_over, try_connect, opened}

-- The state of a watch that starts with what was captured of `s` at the time `t`.
abbrev pub remembered : CacheRecord → WatchState → ℕ → WatchState
remembered cache s t = record (State.init) {
  active_screen = restored_screen cache State.init;
  connection = ConnectionState.offline;
  steps = s.steps;
  temperature_c = s.temperature_c;
  weather_condition = s.weather_condition;
  music_title = s.music_title;
  music_playing = s.music_playing;
  notifications = s.notifications;
  host_data_stale = true;
  host_data_updated_at_ms = t;
}

module _ {W : Type 0} (board : Board W) (layout : Layout) where
  initialised-state :
      (o : Option Navigation) (w : W) → (initialised board layout o w).app.state ≡ State.init
  initialised-state none w = refl
  initialised-state (some navigation) w = refl
