-- ===== src/Transport/Connection.antt =====
-- The life of the connection: `disconnect`, `connect_if_due`, `handle_message`, `transport_init` and
-- `transport_poll` of transport.c.
use Prim.Native.Nat.{bit_and, bit_or}
use cmf_watch_pro_2_os.Base.{
  ℕ, ◌+◌, Bool, true, false, List, Option, none, some, ltb, if◌then◌else◌, Result, Errno, ok, err,
}
use cmf_watch_pro_2_os.Base.Int.{ℤ, is_neg}
use cmf_watch_pro_2_os.Json.{Json}
use cmf_watch_pro_2_os.Protocol.Messages.{Message, MessageType}
use cmf_watch_pro_2_os.Protocol.Framing.{Decoder, empty_decoder, push}
use cmf_watch_pro_2_os.Transport.Frames.{session_text}
use cmf_watch_pro_2_os.Transport.Link.{
  Network, System, Client, TransportEvent, Received, bytes, closed, again, failed, return_code,
}
use cmf_watch_pro_2_os.Transport.Sending.{send_bootstrap, send_unsupported_result}

abbrev pub reconnect_interval_ms : ℕ
reconnect_interval_ms = 1000

-- `is_command`
abbrev pub is_command : MessageType → Bool
is_command MessageType.refresh = true
is_command MessageType.app_open = true
is_command MessageType.show_toast = true
is_command MessageType.show_dialog = true
is_command MessageType.cache_invalidate = true
is_command _ = false

module _ {A W : Type 0} (net : Network W) where
  -- `next_connect_at = k_uptime_get() + RECONNECT_INTERVAL_MS`
  abbrev pub retry_later : System A W → System A W
  retry_later sys =
      let (now, w) = net.uptime sys.world in
      record sys {
        link = record (sys.link) { next_connect_at = now + reconnect_interval_ms };
        world = w;
      }

  module _ (client : Client A W) where
    -- The part of `disconnect` for a socket that is open: the client is told after it is closed.
    abbrev pub drop_socket : Option ℕ → System A W → System A W
    drop_socket none sys = sys
    drop_socket (some fd) sys = client.on_event TransportEvent.disconnected (record sys {
      link = record (sys.link) { socket_fd = none };
      world = net.close fd sys.world;
    })

    unfoldable pub disconnect : System A W → System A W
    disconnect sys =
        let dropped = drop_socket sys.link.socket_fd sys in
        retry_later (record dropped { link = record (dropped.link) { decoder = empty_decoder } })

    -- What `send_bootstrap` reports.
    unfoldable pub bootstrapped : Result Errno (Unit {0}) × System A W → System A W
    unfolding disconnect
    bootstrapped (err e, sys) = disconnect sys
    bootstrapped (ok x, sys) = sys

    -- A connected socket: the client is told, then the first lines are sent.
    unfoldable pub greet : ℕ → System A W → System A W
    unfolding bootstrapped
    greet fd sys = bootstrapped (
        send_bootstrap net (
          client.on_event TransportEvent.connected
            (record sys { link = record (sys.link) { socket_fd = some fd } })))

    -- What `zsock_connect` reports for the candidate.
    unfoldable pub answered : ℕ → Bool × W → System A W → System A W
    unfolding greet
    answered fd (true, w) sys = greet fd (record sys { world = w })
    answered fd (false, w) sys = retry_later (record sys { world = net.close fd w })

    -- What `zsock_socket` reports.
    unfoldable pub opened : Option ℕ × W → System A W → System A W
    unfolding answered
    opened (none, w) sys = retry_later (record sys { world = w })
    opened (some fd, w) sys = answered fd (net.connect fd w) sys

    -- The attempt that `connect_if_due` makes when it is due.
    unfoldable pub try_connect : System A W → System A W
    unfolding opened
    try_connect sys = opened (net.open_socket sys.world) sys

    unfoldable pub connect_over : Option ℕ → System A W → System A W
    unfolding try_connect
    connect_over (some fd) sys = sys
    connect_over none sys =
        let (now, w) = net.uptime sys.world in
        if ltb now sys.link.next_connect_at
        then record sys { world = w }
        else try_connect (record sys { world = w })

    unfoldable pub connect_if_due : System A W → System A W
    unfolding connect_over
    connect_if_due sys = connect_over sys.link.socket_fd sys

    -- The handler of a frame.
    unfoldable pub handle_message : Message → System A W → ℤ × System A W
    handle_message message sys =
        let (result, sys') =
          if is_command message.type
          then send_unsupported_result net message.id sys
          else client.on_message message sys in
        (return_code result, sys')

    -- The bits of the version and of the variant are set in the second and the third number.
    unfoldable pub init : System A W → System A W
    unfolding connect_if_due
    init sys =
        let (r0, w0) = net.random sys.world in
        let (r1, w1) = net.random w0 in
        let (r2, w2) = net.random w1 in
        let (r3, w3) = net.random w2 in
        connect_if_due (record sys {
          link = record (sys.link) {
            session_id =
                session_text r0 (bit_or (bit_and r1 0xffff0fff) 0x00004000)
                  (bit_or (bit_and r2 0x3fffffff) 0x80000000) r3;
            next_connect_at = 0;
          };
          world = w3;
        })

    module _ (json : Json) where
      -- What the decoder reports, and the decoder after it.
      abbrev pub pushed : ℤ × Decoder × System A W → System A W
      pushed (result, decoder, handled) =
          let kept = record handled { link = record (handled.link) { decoder = decoder } } in
          if is_neg result then disconnect kept else kept

      -- Bytes that came. The decoder is a variable of the transport that the handler leaves alone.
      unfoldable pub take_bytes : List ℕ → System A W → System A W
      unfolding disconnect handle_message
      take_bytes text sys = pushed (push json handle_message sys.link.decoder text sys)

      -- What `zsock_recv` reports.
      unfoldable pub arrived : Received × W → System A W → System A W
      unfolding take_bytes
      arrived (bytes text, w) sys = take_bytes text (record sys { world = w })
      arrived (closed, w) sys = disconnect (record sys { world = w })
      arrived (again, w) sys = record sys { world = w }
      arrived (failed, w) sys = disconnect (record sys { world = w })

      unfoldable pub poll_over : Option ℕ → System A W → System A W
      unfolding arrived
      poll_over none sys = sys
      poll_over (some fd) sys = arrived (net.receive fd 1024 sys.world) sys

      unfoldable pub poll : System A W → System A W
      unfolding connect_if_due poll_over
      poll sys = let sys' = connect_if_due sys in poll_over sys'.link.socket_fd sys'
