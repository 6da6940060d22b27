-- ===== src/Runtime.antt =====
-- watch/src/runtime/watch_runtime.c: the loop that ties the components together, one module for each
-- part. The variables of the file, and the calls that the watch makes of the system.
pub mod Display
pub mod Storing
pub mod Messages
pub mod Handling
pub mod Loop
pub mod Health
pub mod View
pub mod Restart
pub mod Reconnect
mod Tests
use cmf_watch_pro_2_os.Base.{
  ℕ, ◌^◌, ◌*◌, ◌%◌, Bool, true, false, List, [], Option, none, some, replicate,
}
use cmf_watch_pro_2_os.State.{WatchState, Screen}
use cmf_watch_pro_2_os.Navigation.{Navigation, navigation_depth}
use cmf_watch_pro_2_os.Actions.{Actions}
use cmf_watch_pro_2_os.Sync.Buffer.{Sync}
use cmf_watch_pro_2_os.Cache.Record.{CacheRecord}
use cmf_watch_pro_2_os.Cache.Storage.{Files}
use cmf_watch_pro_2_os.Input.{Pending, Press, Pins}
use cmf_watch_pro_2_os.Renderer.{Renderer, TouchEvent}
use cmf_watch_pro_2_os.Renderer.Picture.{Picture, Loading}
use cmf_watch_pro_2_os.Transport.Link.{Network, System}

-- The static variables, with those of the renderer and of the input queue. `faulty` is no variable of
-- the code: it is set where C would read or write out of an array, overflow a signed integer or loop
-- for ever.
pub record Device : Type 0 where
  pub state : WatchState
  pub navigation : Navigation
  pub sync : Sync
  pub cache : CacheRecord
  pub actions : Actions
  pub renderer : Renderer
  pub pending : Pending
  pub runtime_ready : Bool
  pub performance_sample_pending : Bool
  pub performance_sample_deadline : ℕ
  pub performance_start_frames : ℕ
  pub faulty : Bool

-- The system's calls on a world `W`: the network, `time` in seconds (`none` for -1), `getenv`, the
-- files, LVGL's loading of a screen that has been created, the touches that `lv_timer_handler` reports, the
-- interrupts since the last poll, `device_is_ready` of the display, the pins of the buttons, the
-- display's blanking and `k_sleep`.
pub record Board (W : Type 0) : Type 0 where
  pub net : Network W
  pub clock : W → Option ℕ × W
  pub variable : W → Option (List ℕ)
  pub files : Files W
  pub show : Loading → Picture → W → W
  pub timer : W → List TouchEvent × W
  pub presses : W → List Press × W
  pub display_ready : W → Bool
  pub pins : Pins W
  pub blanking_off : W → W
  pub sleep : W → W

abbrev pub faulted : {W : Type 0} → System Device W → System Device W
faulted sys = record sys { app = record (sys.app) { faulty = true } }

-- `watch_cache_storage_now_ms`
abbrev pub now_over : {W : Type 0} → Board W → Option ℕ × W → ℕ × W
now_over board (some seconds, w) = ((seconds * 1000) % 2 ^ 64, w)
now_over board (none, w) = board.net.uptime w

abbrev pub now_ms : {W : Type 0} → Board W → System Device W → ℕ × System Device W
now_ms board sys =
    let (t, w) = now_over board (board.clock sys.world) in (t, record sys { world = w })
