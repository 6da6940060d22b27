-- ===== src/Runtime/Tests.antt =====
-- Witnesses of the runtime.
use cmf_watch_pro_2_os.Base.{
  ℕ, suc, ◌%◌, ◌^◌, ◌≡◌, refl, subst, true, false, List, [], ◌∷◌, ◌++◌, Option, some, none, arith,
  codes, length, ◌==◌, if◌then◌else◌,
}
use cmf_watch_pro_2_os.Base.Int.{pos}
use cmf_watch_pro_2_os.Json.Samples.{sample, frame_text}
use cmf_watch_pro_2_os.State.Browse.{init-EntriesFit}
use cmf_watch_pro_2_os.Cache.Record
use cmf_watch_pro_2_os.Cache.Record.{CacheRecord, Layout}
use cmf_watch_pro_2_os.Cache.Storage.{Files, Reading}
use cmf_watch_pro_2_os.Input.{button_isr}
use cmf_watch_pro_2_os.Renderer.{Point, pressed, released, short_clicked}
use cmf_watch_pro_2_os.Transport.Link.{System, bytes, closed}
use cmf_watch_pro_2_os.Runtime.{Device, Board}
use cmf_watch_pro_2_os.Runtime.Loop.{boot, turns}
use cmf_watch_pro_2_os.Runtime.Health.{Running}
use cmf_watch_pro_2_os.Runtime.Health.Start.{boot-Running}
use cmf_watch_pro_2_os.Runtime.Health.Loading.{Slotted}
use cmf_watch_pro_2_os.Runtime.Health.Turns.{AllNear}

abbrev few : Layout
few = record { image = λ c. c.active_screen ∷ c.steps % 256 ∷ []; size = 752 }

-- A file that holds a whole record.
abbrev whole : Reading
whole = record { candidate = Record.init few; complete = true; trailing = false; closed = true }

abbrev disk : Files ℕ
disk = record {
  read = λ path w. some whole;
  missing = λ path w. false;
  open_write = λ path w. some w;
  write = λ path cache w. (true, w);
  flush = λ path w. (true, w);
  close = λ path w. (true, w);
  remove = λ path w. w;
  rename = λ from to w. (true, w);
}

abbrev at : ℕ → ℕ → Point
at x y = record { x = pos x; y = pos y }

-- A board whose world counts the readings of its clock. The host answers at once, sends a frame and
-- closes the connection at its fortieth moment; the user swipes, taps and presses a button.
abbrev board : Board ℕ
board = record {
  net = record {
    uptime = λ w. (w % 2 ^ 32, suc w);
    uptime_bounded = λ w. omega arith;
    random = λ w. (w, w);
    open_socket = λ w. (some 3, w);
    connect = λ fd w. (true, w);
    close = λ fd w. w;
    send = λ fd text w. (length text, w);
    receive =
        λ fd size w. if w == 40 then (closed, suc w) else (bytes (frame_text ++ 10 ∷ []), suc w);
  };
  clock = λ w. (some w, suc w);
  variable = λ w. some (codes "/tmp/watch");
  files = disk;
  show = λ transition labels w. w;
  timer = λ w. (pressed (at 300 200) ∷ released (at 100 200) ∷ short_clicked ∷ [], w);
  presses = λ w. (button_isr ∷ [], w);
  display_ready = λ w. true;
  pins = record {
    ready = λ pin w. true;
    configure = λ pin w. (pos 0, w);
    add_callback = λ pin w. (pos 0, w);
    enable = λ pin w. (pos 0, w);
  };
  blanking_off = λ w. w;
  sleep = λ w. suc w;
}

near : (w : ℕ) → AllNear (board.timer w).0
near w = (
  record { right = omega arith; down = omega arith },
  (record { right = omega arith; down = omega arith }, (tt, tt)),
)

abbrev SlottedIf : Option Reading → Type 0
SlottedIf none = Unit
SlottedIf (some r) = Slotted r.candidate

slotted :
    (path : List ℕ) (w : ℕ) (r : Reading) → board.files.read path w ≡ some r → Slotted r.candidate
unfolding Record.init Record.seal
slotted path w r e = subst SlottedIf e (refl, omega arith, init-EntriesFit)

boot-Running_example :
    (sys : System Device ℕ) × (boot board few sample 0 ≡ some sys)
    × (let out = turns board few sample 5 sys in Running out.link.socket_fd out.app)
boot-Running_example = boot-Running board few near sample slotted 0 5 refl
