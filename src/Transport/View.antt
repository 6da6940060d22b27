-- ===== src/Transport/View.antt =====
-- Sending changes neither the client's data nor what can be seen of the world, where Zephyr's calls do not
-- change what is seen.
pub mod Kept
use cmf_watch_pro_2_os.Base.{
  ℕ, zero, suc, ◌≡◌, refl, ◌∙◌, subst, sym, inl, inr, Bool, true, false, List, [], ◌∷◌, Option,
  none, some, Bool-cases, Result, ok, err, Errno, ltb, eio,
}
use cmf_watch_pro_2_os.Base.Int.{ℤ, is_neg}
use cmf_watch_pro_2_os.Json.{Json}
use cmf_watch_pro_2_os.Protocol.Messages.{Message}
use cmf_watch_pro_2_os.Protocol.Framing.{Decoder, push}
use cmf_watch_pro_2_os.Protocol.Framing.Kept.{push-keeps}
use cmf_watch_pro_2_os.Transport.Frames.{
  fits, hello_frame, unsupported_frame, sync_frame, music_frame,
}
use cmf_watch_pro_2_os.Transport.Link.{
  Network, System, Client, TransportEvent, Received, bytes, closed, again, failed,
}
use cmf_watch_pro_2_os.Transport.Sending.{
  send_loop, count_message, send_over, send_bytes, send_line, request_over, greeted, identified,
  music_over, request_sync, send_bootstrap, send_unsupported_result, send_music_action,
}
use cmf_watch_pro_2_os.Transport.Connection.{
  drop_socket, bootstrapped, answered, opened, connect_over, pushed, arrived, poll_over, disconnect,
  greet, try_connect, connect_if_due, handle_message, take_bytes, poll, is_command,
}

-- No call on the network changes what is seen.
pub record Apart {W V : Type 0} (net : Network W) (see : W → V) : Type 0 where
  pub uptime : (w : W) → see (net.uptime w).1 ≡ see w
  pub open_socket : (w : W) → see (net.open_socket w).1 ≡ see w
  pub connect : (fd : ℕ) (w : W) → see (net.connect fd w).1 ≡ see w
  pub close : (fd : ℕ) (w : W) → see (net.close fd w) ≡ see w
  pub send : (fd : ℕ) (text : List ℕ) (w : W) → see (net.send fd text w).1 ≡ see w
  pub receive : (fd size : ℕ) (w : W) → see (net.receive fd size w).1 ≡ see w

module _ {W V : Type 0} (net : Network W) (see : W → V) where
  -- What a loop reports, with the world that it leaves.
  abbrev Seen : W → Result Errno (Unit {0}) × W → Type 0
  Seen w out = see out.1 ≡ see w

  module _ (apart : Apart net see) where
    -- What a call of `send` reports.
    after_send :
        (fd : ℕ) (text : List ℕ) (w : W) (count : ℕ) (w' : W)
        → see w' ≡ see w
        → ((taken : ℕ) → see (send_loop net fd taken text w').1 ≡ see w')
        → Seen w (elim count [ zero ↦ (err eio, w') | suc taken ↦ send_loop net fd taken text w' ])
    after_send fd text w zero w' e loop = e
    after_send fd text w (suc taken) w' e loop = loop taken ∙ e

    send_loop-seen :
        (fd taken : ℕ) (text : List ℕ) (w : W) → see (send_loop net fd taken text w).1 ≡ see w
    unfolding send_loop
    send_loop-seen fd taken [] w = refl
    send_loop-seen fd (suc taken) (b ∷ text) w = send_loop-seen fd taken text w
    send_loop-seen fd zero (b ∷ text) w =
        let (count, w') = net.send fd (b ∷ text) w in
        after_send fd text w count w' (apart.send fd (b ∷ text) w)
          (λ taken. send_loop-seen fd taken text w')

module _ {A W V : Type 0} (net : Network W) (see : W → V) where
  -- Neither the client's data nor what is seen has changed.
  pub record Still (sys out : System A W) : Type 0 where
    pub app : out.app ≡ sys.app
    pub seen : see out.world ≡ see sys.world

  module _ (apart : Apart net see) where
    send_over-Still :
        (o : Option ℕ) (text : List ℕ) (sys : System A W) → Still sys (send_over net o text sys).1
    send_over-Still none text sys = record { app = refl; seen = refl }
    send_over-Still (some fd) text sys = record {
      app = refl;
      seen = send_loop-seen net see apart fd 0 text sys.world;
    }

    send_line-Still :
        (capacity : ℕ) (line : ℕ → List ℕ) (sys : System A W)
        → Still sys (send_line net capacity line sys).1
    unfolding send_bytes
    send_line-Still capacity line sys =
        elim (Bool-cases (fits capacity (line sys.link.next_message_id))) [
          | inl b ↦
              let p =
                send_over-Still sys.link.socket_fd (line sys.link.next_message_id)
                  (count_message sys) in
              rw (b) (record { app = p.app; seen = p.seen })
          | inr b ↦ rw (b) (record { app = refl; seen = refl })
        ]

    request_over-Still :
        (o : Option ℕ) (revision : ℕ) (sys : System A W)
        → Still sys (request_over net o revision sys).1
    unfolding request_over
    request_over-Still none revision sys = record { app = refl; seen = refl }
    request_over-Still (some fd) revision sys =
        send_line-Still 192 (λ id. sync_frame id revision) sys

    pub request_sync-Still :
        (revision : ℕ) (sys : System A W) → Still sys (request_sync net revision sys).1
    unfolding request_sync
    request_sync-Still revision sys = request_over-Still sys.link.socket_fd revision sys

    greeted-Still :
        (sys : System A W) (sent : Result Errno (Unit {0}) × System A W)
        → Still sys sent.1
        → Still sys (greeted net sent).1
    unfolding greeted
    greeted-Still sys (err e, out) p = p
    greeted-Still sys (ok x, out) p =
        let q = request_sync-Still 0 out in record { app = q.app ∙ p.app; seen = q.seen ∙ p.seen }

    pub send_bootstrap-Still : (sys : System A W) → Still sys (send_bootstrap net sys).1
    unfolding send_bootstrap
    send_bootstrap-Still sys =
        greeted-Still sys (send_line net 512 (λ id. hello_frame id sys.link.session_id) sys)
          (send_line-Still 512 (λ id. hello_frame id sys.link.session_id) sys)

    pub send_unsupported_result-Still :
        (reply_to : ℕ) (sys : System A W) → Still sys (send_unsupported_result net reply_to sys).1
    unfolding send_unsupported_result
    send_unsupported_result-Still reply_to sys =
        send_line-Still 256 (λ id. unsupported_frame id reply_to) sys

    identified-Still :
        (id : ℕ) (sys : System A W) (sent : Result Errno (Unit {0}) × System A W)
        → Still sys sent.1
        → Still sys (identified net id sent).1
    identified-Still id sys (err e, out) p = p
    identified-Still id sys (ok x, out) p = p

    music_over-Still :
        (o : Option ℕ) (playing : Bool) (sys : System A W)
        → Still sys (music_over net o playing sys).1
    unfolding music_over
    music_over-Still none playing sys = record { app = refl; seen = refl }
    music_over-Still (some fd) playing sys =
        identified-Still sys.link.next_message_id sys
          (send_line net 256 (λ id. music_frame id playing) sys)
          (send_line-Still 256 (λ id. music_frame id playing) sys)

    pub send_music_action-Still :
        (playing : Bool) (sys : System A W) → Still sys (send_music_action net playing sys).1
    unfolding send_music_action
    send_music_action-Still playing sys = music_over-Still sys.link.socket_fd playing sys
