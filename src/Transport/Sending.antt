-- ===== src/Transport/Sending.antt =====
-- Sending: `send_bytes` and the functions of transport.c that print a line and send it.
pub mod Delivery
pub mod Unchanged
pub mod Opening
use cmf_watch_pro_2_os.Base.{
  ℕ, zero, suc, ◌+◌, ◌%◌, ◌^◌, Bool, List, [], ◌∷◌, Option, none, some, if◌then◌else◌, Result, ok,
  err, Errno, eio, enotconn,
}
use cmf_watch_pro_2_os.Transport.Frames.{
  hello_frame, unsupported_frame, sync_frame, music_frame, fits,
}
use cmf_watch_pro_2_os.Transport.Link.{Link, Network, System}

module _ {W : Type 0} (net : Network W) where
  -- The loop of `send_bytes`, byte by byte: `taken` counts the bytes ahead that the last call took.
  unfoldable pub send_loop : ℕ → ℕ → List ℕ → W → Result Errno (Unit {0}) × W
  send_loop fd taken [] w = (ok tt, w)
  send_loop fd (suc taken) (b ∷ bytes) w = send_loop fd taken bytes w
  send_loop fd zero (b ∷ bytes) w =
      let (count, w') = net.send fd (b ∷ bytes) w in
      elim count [ zero ↦ (err eio, w') | suc taken ↦ send_loop fd taken bytes w' ]

-- `next_message_id++`
abbrev pub count_message : {A W : Type 0} → System A W → System A W
count_message sys = record sys {
  link = record (sys.link) { next_message_id = (sys.link.next_message_id + 1) % 2 ^ 32 };
}

module _ {A W : Type 0} (net : Network W) where
  -- A call with no socket fails.
  abbrev pub send_over : Option ℕ → List ℕ → System A W → Result Errno (Unit {0}) × System A W
  send_over none bytes sys = (err eio, sys)
  send_over (some fd) bytes sys =
      let (result, w) = send_loop net fd 0 bytes sys.world in (result, record sys { world = w })

  unfoldable pub send_bytes : List ℕ → System A W → Result Errno (Unit {0}) × System A W
  send_bytes bytes sys = send_over sys.link.socket_fd bytes sys

  -- A line is printed with the next identifier; it is sent if it fits the buffer.
  abbrev pub send_line : ℕ → (ℕ → List ℕ) → System A W → Result Errno (Unit {0}) × System A W
  send_line capacity line sys =
      if fits capacity (line sys.link.next_message_id)
      then send_bytes (line sys.link.next_message_id) (count_message sys)
      else (err eio, count_message sys)

  unfoldable pub request_over : Option ℕ → ℕ → System A W → Result Errno (Unit {0}) × System A W
  unfolding send_bytes
  request_over none last_revision sys = (err enotconn, sys)
  request_over (some fd) last_revision sys = send_line 192 (λ id. sync_frame id last_revision) sys

  unfoldable pub request_sync : ℕ → System A W → Result Errno (Unit {0}) × System A W
  unfolding request_over
  request_sync last_revision sys = request_over sys.link.socket_fd last_revision sys

  -- The rest of `send_bootstrap`, after the first line.
  unfoldable pub greeted :
      Result Errno (Unit {0}) × System A W → Result Errno (Unit {0}) × System A W
  unfolding request_sync
  greeted (err e, sys) = (err eio, sys)
  greeted (ok x, sys) = request_sync 0 sys

  unfoldable pub send_bootstrap : System A W → Result Errno (Unit {0}) × System A W
  unfolding send_bytes greeted
  send_bootstrap sys = greeted (send_line 512 (λ id. hello_frame id sys.link.session_id) sys)

  unfoldable pub send_unsupported_result : ℕ → System A W → Result Errno (Unit {0}) × System A W
  unfolding send_bytes
  send_unsupported_result reply_to sys = send_line 256 (λ id. unsupported_frame id reply_to) sys

  -- The identifier that `*message_id` is set to.
  abbrev pub identified : ℕ → Result Errno (Unit {0}) × System A W → Result Errno ℕ × System A W
  identified id (err e, sys) = (err e, sys)
  identified id (ok x, sys) = (ok id, sys)

  unfoldable pub music_over : Option ℕ → Bool → System A W → Result Errno ℕ × System A W
  unfolding send_bytes
  music_over none playing sys = (err enotconn, sys)
  music_over (some fd) playing sys =
      identified sys.link.next_message_id (send_line 256 (λ id. music_frame id playing) sys)

  unfoldable pub send_music_action : Bool → System A W → Result Errno ℕ × System A W
  unfolding music_over
  send_music_action playing sys = music_over sys.link.socket_fd playing sys
