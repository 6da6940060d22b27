-- ===== src/Runtime/Reconnect/Tests.antt =====
-- Witnesses of the connection.
use cmf_watch_pro_2_os.Base.{
  ℕ, refl, ◌%◌, true, false, List, [], ◌∷◌, ◌++◌, some, none, arith, codes, length, set, take,
}
use cmf_watch_pro_2_os.Base.Int.{pos}
use cmf_watch_pro_2_os.Json.Samples.{sample}
use cmf_watch_pro_2_os.State
use cmf_watch_pro_2_os.State.{Screen}
use cmf_watch_pro_2_os.Actions
use cmf_watch_pro_2_os.Sync.Handle
use cmf_watch_pro_2_os.Cache.Record
use cmf_watch_pro_2_os.Cache.Record.{Layout}
use cmf_watch_pro_2_os.Renderer
use cmf_watch_pro_2_os.Transport.Link
use cmf_watch_pro_2_os.Transport.Link.{System, again}
use cmf_watch_pro_2_os.Transport.Connection.{connect_if_due}
use cmf_watch_pro_2_os.Transport.Sending.Delivery.{Wire}
use cmf_watch_pro_2_os.Transport.Sending.Opening.{Progress}
use cmf_watch_pro_2_os.Runtime.{Device, Board}
use cmf_watch_pro_2_os.Runtime.Messages.{callbacks}
use cmf_watch_pro_2_os.Runtime.Loop.{blank_navigation}
use cmf_watch_pro_2_os.Runtime.Reconnect.{Greeted, connect_if_due-greets}

abbrev few : Layout
few = record { image = λ c. c.active_screen ∷ c.steps % 256 ∷ []; size = 752 }

-- A board whose world is what the host has got.
abbrev board : Board (List ℕ)
board = record {
  net = record {
    uptime = λ w. (2000, w);
    uptime_bounded = λ w. omega arith;
    random = λ w. (7, w);
    open_socket = λ w. (some 3, w);
    connect = λ fd w. (true, w);
    close = λ fd w. w;
    send = λ fd text w. (length text, w ++ take (length text) text);
    receive = λ fd size w. (again, w);
  };
  clock = λ w. (some 7, w);
  variable = λ w. none;
  files = record {
    read = λ path w. none;
    missing = λ path w. true;
    open_write = λ path w. none;
    write = λ path cache w. (true, w);
    flush = λ path w. (true, w);
    close = λ path w. (true, w);
    remove = λ path w. w;
    rename = λ from to w. (true, w);
  };
  show = λ loading picture w. w;
  timer = λ w. ([], w);
  presses = λ w. ([], w);
  display_ready = λ w. true;
  pins = record {
    ready = λ pin w. true;
    configure = λ pin w. (pos 0, w);
    add_callback = λ pin w. (pos 0, w);
    enable = λ pin w. (pos 0, w);
  };
  blanking_off = λ w. w;
  sleep = λ w. w;
}

abbrev wire : Wire board.net
wire = record { sent = λ fd w. w; adds = λ fd bytes w. refl; bounded = λ fd bytes w. omega arith }

progress : Progress board.net
progress fd b bytes w = omega arith

abbrev device : Device
device = record {
  state = State.init;
  navigation = record { stack = set blank_navigation.stack 0 Screen.home; depth = 1 };
  sync = Handle.init;
  cache = Record.init few;
  actions = Actions.init;
  renderer = Renderer.init Renderer.blank;
  pending = record { button = false; activate = false };
  runtime_ready = true;
  performance_sample_pending = false;
  performance_sample_deadline = 0;
  performance_start_frames = 0;
  faulty = false;
}

-- A watch that has lost its host a while ago.
abbrev lost : System Device (List ℕ)
lost = record {
  link = record (Link.initial) {
    session_id = codes "00000001-0002-4003-8004-000000000005";
    next_connect_at = 1500;
    next_message_id = 9;
  };
  app = device;
  world = codes "x";
}

connect_if_due-greets_example :
    Greeted board few sample wire 3
      (codes "x")
      lost.link
      (connect_if_due board.net (callbacks board few sample) lost)
connect_if_due-greets_example =
    connect_if_due-greets board few sample wire 3 (λ l p w. refl) progress lost (codes "x")
      (codes "x") refl (omega arith) (omega arith) refl refl
