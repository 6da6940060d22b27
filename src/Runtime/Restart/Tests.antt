-- ===== src/Runtime/Restart/Tests.antt =====
-- Witnesses of the restart.
use cmf_watch_pro_2_os.Base.{
  ◌%◌, true, false, [], ◌∷◌, some, none, arith, codes, length, set, replicate,
}
use cmf_watch_pro_2_os.Base.Int.{pos}
use cmf_watch_pro_2_os.State
use cmf_watch_pro_2_os.State.{Screen, WatchState, ConnectionState, blank_notification}
use cmf_watch_pro_2_os.Actions
use cmf_watch_pro_2_os.Sync.Handle
use cmf_watch_pro_2_os.Cache.Record
use cmf_watch_pro_2_os.Cache.Record.{Layout}
use cmf_watch_pro_2_os.Cache.Storage.Samples.{Memory, memory_beside}
use cmf_watch_pro_2_os.Renderer
use cmf_watch_pro_2_os.Renderer.Faces.{Surface}
use cmf_watch_pro_2_os.Renderer.Picture.{Picture}
use cmf_watch_pro_2_os.Transport.Link
use cmf_watch_pro_2_os.Transport.Link.{System, again}
use cmf_watch_pro_2_os.Runtime.{Device, Board}
use cmf_watch_pro_2_os.Runtime.Loop.{blank_navigation}

abbrev few : Layout
few = record { image = λ c. c.active_screen ∷ c.steps % 256 ∷ c.weather_condition; size = 752 }

-- Before the start there is no file, and the display shows nothing.
abbrev nothing_saved : Memory
nothing_saved = λ path. none

abbrev dark : Picture
dark = record {
  screen = [];
  plate = [];
  panel = (Surface.card, []);
  labels = [];
  layer = [];
  listeners = [];
}

-- A board whose world is its files and what its display shows; nothing else happens on it.
abbrev board : Board (Memory × Picture)
board = record {
  net = record {
    uptime = λ w. (7, w);
    uptime_bounded = λ w. omega arith;
    random = λ w. (7, w);
    open_socket = λ w. (none, w);
    connect = λ fd w. (false, w);
    close = λ fd w. w;
    send = λ fd text w. (length text, w);
    receive = λ fd size w. (again, w);
  };
  clock = λ w. (some 7, w);
  variable = λ w. some (codes "/tmp/watch");
  files = memory_beside;
  show = λ loading picture w. (w.0, picture);
  timer = λ w. ([], w);
  presses = λ w. ([], w);
  display_ready = λ w. true;
  pins = record {
    ready = λ pin w. true;
    configure = λ pin w. (pos 0, w);
    add_callback = λ pin w. (pos 0, w);
    enable = λ pin w. (pos 0, w);
  };
  blanking_off = λ w. w;
  sleep = λ w. w;
}

-- A watch to which the host has sent a notification, its steps and a song.
abbrev told : WatchState
told = record (State.init) {
  notifications = record {
    total_count = 1;
    stored_count = 1;
    active_index = 0;
    entries = record { title = codes "Mail"; body = codes "One" } ∷ replicate 3 blank_notification;
  };
  steps = 8000;
  music_title = codes "Song";
  music_playing = true;
  connection = ConnectionState.online;
}

abbrev device : Device
device = record {
  state = told;
  navigation = record { stack = set blank_navigation.stack 0 Screen.home; depth = 1 };
  sync = record (Handle.init) { revision = 12 };
  cache = Record.init few;
  actions = Actions.init;
  renderer = Renderer.init Renderer.blank;
  pending = record { button = false; activate = false };
  runtime_ready = true;
  performance_sample_pending = false;
  performance_sample_deadline = 0;
  performance_start_frames = 0;
  faulty = false;
}

abbrev running : System Device (Memory × Picture)
running = record { link = Link.initial; app = device; world = (nothing_saved, dark) }
