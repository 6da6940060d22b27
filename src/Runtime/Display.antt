-- ===== src/Runtime/Display.antt =====
-- `render_current` of watch_runtime.c, and the calls of `renderer_refresh`.
use cmf_watch_pro_2_os.Base.{◌+◌, Bool, true, Option, none, some, if◌then◌else◌}
use cmf_watch_pro_2_os.State.{Screen, set_screen}
use cmf_watch_pro_2_os.Navigation.{current}
use cmf_watch_pro_2_os.Renderer.{frame_count}
use cmf_watch_pro_2_os.Renderer.Picture.{
  Picture, Loading, renderer_screen, animation_load, load_at_once,
}
use cmf_watch_pro_2_os.Transport.Link.{System}
use cmf_watch_pro_2_os.Runtime.{Device, Board, faulted}

module _ {W : Type 0} (board : Board W) where
  -- A screen is created and loaded.
  abbrev pub drawn : Loading → Option Picture → System Device W → System Device W
  drawn loading none sys = faulted sys
  drawn loading (some picture) sys = record sys { world = board.show loading picture sys.world }

  -- `renderer_refresh(&state)`
  unfoldable pub refresh : System Device W → System Device W
  unfolding renderer_screen
  refresh sys = drawn load_at_once (renderer_screen sys.app.state) sys

  -- `if (runtime_ready) renderer_refresh(&state)`
  unfoldable pub refresh_if_ready : System Device W → System Device W
  unfolding refresh
  refresh_if_ready sys = if sys.app.runtime_ready then refresh sys else sys

  -- The sample of the animation that starts with a new page.
  abbrev pub start_sample : System Device W → System Device W
  start_sample sys =
      let (elapsed, w1) = board.net.uptime sys.world in
      let (now, w2) = board.net.uptime w1 in
      record sys {
        app = record (sys.app) {
          performance_start_frames = frame_count sys.app.renderer;
          performance_sample_deadline = now + 300;
          performance_sample_pending = true;
        };
        world = w2;
      }

  -- From the page that `navigation_current` gives.
  unfoldable pub render_page : Bool → Option Screen → System Device W → System Device W
  unfolding set_screen renderer_screen animation_load
  render_page back none sys = faulted sys
  render_page back (some screen) sys =
      let paged = record sys {
        app = record (sys.app) { state = set_screen sys.app.state screen };
      } in
      start_sample (drawn (animation_load back) (renderer_screen paged.app.state) paged)

  unfoldable pub render_current : Bool → System Device W → System Device W
  unfolding render_page current
  render_current back sys =
      let (started_at, w) = board.net.uptime sys.world in
      render_page back (current sys.app.navigation) (record sys { world = w })
