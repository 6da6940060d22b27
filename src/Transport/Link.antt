-- ===== src/Transport/Link.antt =====
-- The state of transport.c, the calls that it makes of Zephyr, and its callbacks.
use cmf_watch_pro_2_os.Base.{
  ℕ, ◌+◌, ◌<◌, ◌^◌, Bool, true, false, List, [], Option, none, some, Result, ok, err, Errno,
}
use cmf_watch_pro_2_os.Base.Int.{ℤ, pos, negsuc}
use cmf_watch_pro_2_os.Protocol.Messages.{Message}
use cmf_watch_pro_2_os.Protocol.Framing.{Decoder, empty_decoder}

-- The static variables; `none` is a `socket_fd` of -1.
pub record Link : Type 0 where
  pub socket_fd : Option ℕ
  pub next_connect_at : ℕ
  pub next_message_id : ℕ
  pub decoder : Decoder
  pub session_id : List ℕ

abbrev pub transport_connected : Link → Bool
transport_connected link = elim link.socket_fd [ none ↦ false | some fd ↦ true ]

-- Their first values.
abbrev pub initial : Link
initial = record {
  socket_fd = none;
  next_connect_at = 0;
  next_message_id = 1;
  decoder = empty_decoder;
  session_id = [];
}

-- What `zsock_recv` returns: some bytes, the end of the stream, or an error, of which EAGAIN and
-- EWOULDBLOCK say that nothing has come yet.
pub data Received : Type 0 where
  bytes : List ℕ → Received
  closed again failed : Received

-- Zephyr's calls on a world `W`. A descriptor that is negative is `none`. `send` gives the number of
-- bytes that were taken, 0 for a result that is not positive; `connect` whether it succeeded. The
-- milliseconds of `k_uptime_get` since the boot are an int64_t, in which the largest interval that
-- the watch adds, RECONNECT_INTERVAL_MS, still fits.
pub record Network (W : Type 0) : Type 0 where
  pub uptime : W → ℕ × W
  pub random : W → ℕ × W
  pub open_socket : W → Option ℕ × W
  pub connect : ℕ → W → Bool × W
  pub close : ℕ → W → W
  pub send : ℕ → List ℕ → W → ℕ × W
  pub receive : ℕ → ℕ → W → Received × W
  pub uptime_bounded : (w : W) → (uptime w).0 + 1000 < 2 ^ 63

-- Everything that the callbacks may change: the transport's variables, the client's, and the world.
pub record System (A W : Type 0) : Type 0 where
  pub link : Link
  pub app : A
  pub world : W

-- `enum transport_event`
pub data TransportEvent : Type 0 where
  connected disconnected : TransportEvent

-- The callbacks.
pub record Client (A W : Type 0) : Type 0 where
  pub on_message : Message → System A W → Result Errno (Unit {0}) × System A W
  pub on_event : TransportEvent → System A W → System A W

-- The number that a C function returns for a result: 0, or the negated number of the error. The
-- transport and its client return no others than these three errors.
abbrev pub return_code : Result Errno (Unit {0}) → ℤ
return_code (ok _) = pos 0
return_code (err Errno.eio) = negsuc 4
return_code (err Errno.einval) = negsuc 21
return_code (err Errno.enotconn) = negsuc 106
return_code (err _) = negsuc 0
