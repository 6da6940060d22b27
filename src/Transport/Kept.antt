-- ===== src/Transport/Kept.antt =====
-- What the transport keeps for its client: an invariant that ties the client's data to the socket.
use cmf_watch_pro_2_os.Base.{
  ℕ, ◌^◌, ◌<◌, arith, ◌≡◌, refl, ◌∙◌, subst, sym, inl, inr, Bool, true, false, Option, none, some,
  Bool-cases, Result, ok, err, Errno, ltb,
}
use cmf_watch_pro_2_os.Base.Int.{ℤ, is_neg}
use cmf_watch_pro_2_os.Json.{Json}
use cmf_watch_pro_2_os.Protocol.Messages.{Message}
use cmf_watch_pro_2_os.Protocol.Framing.{Decoder, push}
use cmf_watch_pro_2_os.Transport.Link.{
  Network, System, Client, TransportEvent, Received, bytes, closed, again, failed,
}
use cmf_watch_pro_2_os.Transport.Sending.{send_bootstrap}
use cmf_watch_pro_2_os.Protocol.Framing.Kept.{push-keeps}
use cmf_watch_pro_2_os.Transport.Sending.Unchanged.{
  Same, send_bootstrap-Same, send_unsupported_result-Same,
}
use cmf_watch_pro_2_os.Transport.Connection.{
  drop_socket, bootstrapped, answered, opened, connect_over, pushed, arrived, poll_over, disconnect,
  greet, try_connect, connect_if_due, handle_message, init, take_bytes, poll, is_command,
  retry_later,
}

-- The time of the next attempt stays in its int64_t.
retry_later-fits :
    {A W : Type 0} (net : Network W) (sys : System A W)
    → (retry_later net sys).link.next_connect_at < 2 ^ 63
retry_later-fits net sys = omega (arith, net.uptime_bounded sys.world)

module _ {A W : Type 0} (net : Network W) (client : Client A W) (R : Option ℕ → A → Type 0) where
  -- The client's data is in the relation with the socket.
  abbrev pub Holds : System A W → Type 0
  Holds sys = R sys.link.socket_fd sys.app

  -- The client's callbacks leave the socket alone and keep the relation: on a message, when the
  -- socket has been opened, and when it has been closed.
  pub record Keeps : Type 0 where
    pub message :
        (m : Message) (sys : System A W) (fd : ℕ)
        → sys.link.socket_fd ≡ some fd
        → R (some fd) sys.app
        → ((client.on_message m sys).1.link.socket_fd ≡ some fd)
          × R (some fd) (client.on_message m sys).1.app
    pub connected :
        (sys : System A W) (fd : ℕ)
        → sys.link.socket_fd ≡ some fd
        → R none sys.app
        → ((client.on_event TransportEvent.connected sys).link.socket_fd ≡ some fd)
          × R (some fd) (client.on_event TransportEvent.connected sys).app
    pub disconnected :
        (sys : System A W) (fd : ℕ)
        → sys.link.socket_fd ≡ none
        → R (some fd) sys.app
        → ((client.on_event TransportEvent.disconnected sys).link.socket_fd ≡ none)
          × R none (client.on_event TransportEvent.disconnected sys).app

  -- The socket is `o`, and the relation holds.
  abbrev At : Option ℕ → System A W → Type 0
  At o sys = (sys.link.socket_fd ≡ o) × R o sys.app

  At-Holds : (o : Option ℕ) (sys : System A W) → At o sys → Holds sys
  At-Holds o sys (e, r) = subst (λ x. R x sys.app) (sym e) r

  At-Same : {sys out : System A W} (o : Option ℕ) → Same sys out → At o sys → At o out
  At-Same {sys} {out} o p (e, r) = (p.socket_fd ∙ e, subst (λ a. R o a) (sym p.app) r)

  module _ (keeps : Keeps) where
    drop_socket-At :
        (o : Option ℕ) (sys : System A W) → At o sys → At none (drop_socket net client o sys)
    drop_socket-At none sys h = h
    drop_socket-At (some fd) sys (e, r) = keeps.disconnected _ fd refl r

    pub disconnect-At : (sys : System A W) → Holds sys → At none (disconnect net client sys)
    unfolding disconnect
    disconnect-At sys h = drop_socket-At sys.link.socket_fd sys (refl, h)

    disconnect-Holds : (sys : System A W) → Holds sys → Holds (disconnect net client sys)
    disconnect-Holds sys h = At-Holds none (disconnect net client sys) (disconnect-At sys h)

    bootstrapped-Holds :
        (fd : ℕ) (sent : Result Errno (Unit {0}) × System A W)
        → At (some fd) sent.1
        → Holds (bootstrapped net client sent)
    unfolding bootstrapped
    bootstrapped-Holds fd (err e, sys) h = disconnect-Holds sys (At-Holds (some fd) sys h)
    bootstrapped-Holds fd (ok x, sys) h = At-Holds (some fd) sys h

    greet-Holds : (fd : ℕ) (sys : System A W) → R none sys.app → Holds (greet net client fd sys)
    unfolding greet
    greet-Holds fd sys r =
        let fresh = record sys { link = record (sys.link) { socket_fd = some fd } } in
        let told = client.on_event TransportEvent.connected fresh in
        bootstrapped-Holds fd (send_bootstrap net told)
          (At-Same (some fd) (send_bootstrap-Same net told) (keeps.connected fresh fd refl r))

    answered-Holds :
        (fd : ℕ) (answer : Bool × W) (sys : System A W)
        → At none sys
        → Holds (answered net client fd answer sys)
    unfolding answered
    answered-Holds fd (true, w) sys h = greet-Holds fd (record sys { world = w }) h.1
    answered-Holds fd (false, w) sys h = At-Holds none sys h

    opened-Holds :
        (candidate : Option ℕ × W) (sys : System A W)
        → At none sys
        → Holds (opened net client candidate sys)
    unfolding opened
    opened-Holds (none, w) sys h = At-Holds none sys h
    opened-Holds (some fd, w) sys h = answered-Holds fd (net.connect fd w) sys h

    connect_over-Holds :
        (o : Option ℕ) (sys : System A W) → At o sys → Holds (connect_over net client o sys)
    unfolding connect_over try_connect
    connect_over-Holds (some fd) sys h = At-Holds (some fd) sys h
    connect_over-Holds none sys h =
        elim (Bool-cases (ltb (net.uptime sys.world).0 sys.link.next_connect_at)) [
          | inl b ↦ rw (b) (At-Holds none sys h)
          | inr b ↦ rw (b) (
              let w = (net.uptime sys.world).1 in
              opened-Holds (net.open_socket w) (record sys { world = w }) h)
        ]

    connect_if_due-Holds : (sys : System A W) → Holds sys → Holds (connect_if_due net client sys)
    unfolding connect_if_due
    connect_if_due-Holds sys h = connect_over-Holds sys.link.socket_fd sys (refl, h)

    handle_message-At :
        (m : Message) (fd : ℕ) (sys : System A W)
        → At (some fd) sys
        → At (some fd) (handle_message net client m sys).1
    unfolding handle_message
    handle_message-At m fd sys h = elim (Bool-cases (is_command m.type)) [
      | inl b ↦ rw (b) (At-Same (some fd) (send_unsupported_result-Same net m.id sys) h)
      | inr b ↦ rw (b) (keeps.message m sys fd h.0 h.1)
    ]

    pub init-Holds : (sys : System A W) → Holds sys → Holds (init net client sys)
    unfolding init
    init-Holds sys h = connect_if_due-Holds _ h

    module _ (json : Json) where
      pushed-Holds :
          (fd : ℕ) (out : ℤ × Decoder × System A W)
          → At (some fd) out.2
          → Holds (pushed net client json out)
      pushed-Holds fd (result, decoder, handled) h = elim (Bool-cases (is_neg result)) [
        | inl b ↦ rw (b) (disconnect-Holds _ (At-Holds (some fd) handled h))
        | inr b ↦ rw (b) (At-Holds (some fd) handled h)
      ]

      arrived-Holds :
          (fd : ℕ) (received : Received × W) (sys : System A W)
          → At (some fd) sys
          → Holds (arrived net client json received sys)
      unfolding arrived take_bytes
      arrived-Holds fd (bytes text, w) sys h =
          let sys' = record sys { world = w } in
          let keep = λ (m : Message) (s : System A W). handle_message-At m fd s in
          pushed-Holds fd (push json (handle_message net client) sys.link.decoder text sys') (
            push-keeps json (handle_message net client) (At (some fd)) keep sys.link.decoder text
              sys' h)
      arrived-Holds fd (closed, w) sys h = disconnect-Holds _ (At-Holds (some fd) sys h)
      arrived-Holds fd (again, w) sys h = At-Holds (some fd) sys h
      arrived-Holds fd (failed, w) sys h = disconnect-Holds _ (At-Holds (some fd) sys h)

      poll_over-Holds :
          (o : Option ℕ) (sys : System A W) → At o sys → Holds (poll_over net client json o sys)
      unfolding poll_over
      poll_over-Holds none sys h = At-Holds none sys h
      poll_over-Holds (some fd) sys h = arrived-Holds fd (net.receive fd 1024 sys.world) sys h

      pub poll-Holds : (sys : System A W) → Holds sys → Holds (poll net client json sys)
      unfolding poll
      poll-Holds sys h =
          let sys' = connect_if_due net client sys in
          poll_over-Holds sys'.link.socket_fd sys' (refl, connect_if_due-Holds sys h)
