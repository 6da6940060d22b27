-- ===== src/Runtime/View/Tests.antt =====
-- Witnesses of what the display shows.
use cmf_watch_pro_2_os.Base.{
  ℕ, ◌≡◌, refl, true, false, List, [], ◌∷◌, ◌++◌, ◌%◌, some, none, arith, length, span_equal, set,
}
use cmf_watch_pro_2_os.Base.Int.{pos}
use cmf_watch_pro_2_os.Json.Samples.{sample, response_text}
use cmf_watch_pro_2_os.State
use cmf_watch_pro_2_os.State.{Screen}
use cmf_watch_pro_2_os.State.Browse.{init-IsBrowsable, init-EntriesFit}
use cmf_watch_pro_2_os.Navigation
use cmf_watch_pro_2_os.Navigation.{current}
use cmf_watch_pro_2_os.Actions
use cmf_watch_pro_2_os.Sync.Handle
use cmf_watch_pro_2_os.Sync.Handle.Service.{init-IsServing}
use cmf_watch_pro_2_os.Cache.Record
use cmf_watch_pro_2_os.Renderer
use cmf_watch_pro_2_os.Renderer.{RendererAction}
use cmf_watch_pro_2_os.Transport.Link
use cmf_watch_pro_2_os.Runtime.Handling.{handle_action}
use cmf_watch_pro_2_os.Runtime.Health.{Running}
use cmf_watch_pro_2_os.Runtime.Health.Shown.{
  TurnedAt, Reverted, handle_action-Turned, activate-offline,
}
use cmf_watch_pro_2_os.Cache.Record.{Layout}
use cmf_watch_pro_2_os.Cache.Storage.{Reading, load, cache_path}
use cmf_watch_pro_2_os.Gesture.{swipe_classify}
use cmf_watch_pro_2_os.Actions.{poll_timeout, begin_music, bind_message}
use cmf_watch_pro_2_os.Runtime.Display.{refresh, refresh_if_ready}
use cmf_watch_pro_2_os.Runtime.Storing.{store_application, store_sync}
use cmf_watch_pro_2_os.Transport.Sending.{send_music_action, send_bootstrap, send_loop}
use cmf_watch_pro_2_os.Renderer.{Point, pressed, released, short_clicked}
use cmf_watch_pro_2_os.Renderer.Faces.{Surface}
use cmf_watch_pro_2_os.Renderer.Picture.{Picture, renderer_screen}
use cmf_watch_pro_2_os.Transport.Link.{System, bytes}
use cmf_watch_pro_2_os.Runtime.{Device, Board}
use cmf_watch_pro_2_os.Runtime.Loop.{boot, turns, start, loaded, initialised, blank_navigation}
use cmf_watch_pro_2_os.Runtime.Health.Turns.{AllNear}
use cmf_watch_pro_2_os.Runtime.Health.Loading.{Slotted}
use cmf_watch_pro_2_os.Runtime.View.{Shows}
use cmf_watch_pro_2_os.Runtime.View.Shown.{turns-shown}
use cmf_watch_pro_2_os.Transport.Frames.{
  hello_frame, print, digits_of, session_text, hexadecimal, sync_frame, music_frame,
}
use cmf_watch_pro_2_os.Runtime.Messages.{handle_transport_event, handle_protocol_message}
use cmf_watch_pro_2_os.Sync.Handle.{handle, handle_snapshot, connected}
use cmf_watch_pro_2_os.Protocol.Decode.{
  decode, read_fields, read_field, finish_decode, validate_payload, payload_loop, all_found, mark,
}
use cmf_watch_pro_2_os.Protocol.Framing.{push, push_byte, deliver, strip_return}
use cmf_watch_pro_2_os.Sync.Snapshots.{parse_snapshot}
use cmf_watch_pro_2_os.Sync.Buffer.{replay_buffer, replay_loop}
use cmf_watch_pro_2_os.Protocol.Utf8.{valid_utf8, next_codepoint}
use cmf_watch_pro_2_os.Protocol.Numbers.{parse_u32}
use cmf_watch_pro_2_os.Protocol.Messages.{find_type, same_type}
use cmf_watch_pro_2_os.Sync.Values.{find_member, parse_u64, parse_notifications}

abbrev few : Layout
few = record { image = λ c. c.active_screen ∷ c.steps % 256 ∷ []; size = 752 }

abbrev at : ℕ → ℕ → Point
at x y = record { x = pos x; y = pos y }

-- A world of which nothing but the screen that it shows is kept. The host answers every request
-- with the same snapshot; the user swipes and taps.
abbrev board : Board Picture
board = record {
  net = record {
    uptime = λ w. (7, w);
    uptime_bounded = λ w. omega arith;
    random = λ w. (7, w);
    open_socket = λ w. (some 3, w);
    connect = λ fd w. (true, w);
    close = λ fd w. w;
    send = λ fd text w. (length text, w);
    receive = λ fd size w. (bytes (response_text ++ 10 ∷ []), w);
  };
  clock = λ w. (some 7, w);
  variable = λ w. none;
  files = record {
    read = λ path w. none;
    missing = λ path w. true;
    open_write = λ path w. none;
    write = λ path cache w. (true, w);
    flush = λ path w. (true, w);
    close = λ path w. (true, w);
    remove = λ path w. w;
    rename = λ from to w. (true, w);
  };
  show = λ loading picture w. picture;
  timer = λ w. (pressed (at 300 200) ∷ released (at 100 200) ∷ short_clicked ∷ [], w);
  presses = λ w. ([], w);
  display_ready = λ w. true;
  pins = record {
    ready = λ pin w. true;
    configure = λ pin w. (pos 0, w);
    add_callback = λ pin w. (pos 0, w);
    enable = λ pin w. (pos 0, w);
  };
  blanking_off = λ w. w;
  sleep = λ w. w;
}

shows : Shows board (λ w. w)
shows = record {
  shown = λ l p w. refl;
  network = record {
    uptime = λ w. refl;
    open_socket = λ w. refl;
    connect = λ fd w. refl;
    close = λ fd w. refl;
    send = λ fd text w. refl;
    receive = λ fd size w. refl;
  };
  clock = λ w. refl;
  timer = λ w. refl;
  presses = λ w. refl;
  blanking_off = λ w. refl;
  sleep = λ w. refl;
  open_write = λ path w w' e. absurd (ground arith);
  write = λ path c w. refl;
  flush = λ path w. refl;
  close = λ path w. refl;
  remove = λ path w. refl;
  rename = λ from to w. refl;
}

near : (w : Picture) → AllNear (board.timer w).0
near w = (
  record { right = omega arith; down = omega arith },
  (record { right = omega arith; down = omega arith }, (tt, tt)),
)

unread :
    (path : List ℕ) (w : Picture) (r : Reading)
    → board.files.read path w ≡ some r
    → Slotted r.candidate
unread path w r e = absurd (ground arith)

-- Before the start the display shows nothing.
abbrev dark : Picture
dark = record {
  screen = [];
  plate = [];
  panel = (Surface.card, []);
  labels = [];
  layer = [];
  listeners = [];
}

abbrev awake : System Device Picture
awake = start board few sample (
    loaded board few (load few board.files (board.variable dark) dark)
      (initialised board few (Navigation.init blank_navigation) dark))

turns-shown_example :
    let out = turns board few sample 2 awake in renderer_screen out.app.state ≡ some out.world
unfolding boot turns swipe_classify poll_timeout cache_path Navigation.next store_application
    begin_music store_sync send_music_action refresh send_bootstrap hello_frame print digits_of
    handle_transport_event refresh_if_ready session_text hexadecimal send_loop sync_frame
    music_frame handle_protocol_message handle decode push parse_snapshot replay_buffer push_byte
    deliver strip_return valid_utf8 next_codepoint span_equal read_fields read_field parse_u32
    finish_decode find_type same_type validate_payload payload_loop all_found mark find_member
    parse_u64 parse_notifications handle_snapshot replay_loop connected bind_message
turns-shown_example = turns-shown board few sample (λ w. w) 2 dark awake shows near unread refl refl

-- A watch that shows the music page without a connection.
abbrev device : Device
device = record {
  state = record (State.init) { active_screen = Screen.music; music_playing = true };
  navigation = record { stack = set blank_navigation.stack 0 Screen.music; depth = 1 };
  sync = Handle.init;
  cache = Record.init few;
  actions = Actions.init;
  renderer = Renderer.init Renderer.blank;
  pending = record { button = false; activate = false };
  runtime_ready = true;
  performance_sample_pending = false;
  performance_sample_deadline = 0;
  performance_start_frames = 0;
  faulty = false;
}

abbrev alone : System Device Picture
alone = record { link = Link.initial; app = device; world = dark }

alone-Running : Running none alone.app
alone-Running = (
  (
    record {
      safe = record {
        condition = omega arith;
        title = omega arith;
        browsable = init-IsBrowsable;
        texts = init-EntriesFit;
      };
      bounded = record { slots = refl; used = omega arith; fits = omega arith };
      serving = init-IsServing;
      near = record { right = omega arith; down = omega arith };
      sound = refl;
    },
    (unfold current in refl, λ e. cc),
    (refl, refl),
  ),
  refl,
)

handle_action-Turned_example :
    TurnedAt board few
      (λ w. w)
      shows
      Screen.assistant
      (handle_action board few RendererAction.next alone)
    × TurnedAt board few
        (λ w. w)
        shows
        Screen.notifications
        (handle_action board few RendererAction.previous alone)
handle_action-Turned_example = handle_action-Turned board few (λ w. w) shows alone alone-Running

activate-offline_example :
    let out = handle_action board few RendererAction.activate alone in
    Reverted board few true out.app × (renderer_screen out.app.state ≡ some out.world)
activate-offline_example = activate-offline board few (λ w. w) shows alone refl alone-Running refl
