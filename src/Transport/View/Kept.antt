-- ===== src/Transport/View/Kept.antt =====
-- What the transport keeps for its client: a relation between the client's data and what can be seen of
-- the world.
use cmf_watch_pro_2_os.Base.{
  ℕ, ◌≡◌, subst, sym, inl, inr, Bool, true, false, Option, none, some, Bool-cases, Result, ok, err,
  Errno, ltb,
}
use cmf_watch_pro_2_os.Base.Int.{ℤ, is_neg}
use cmf_watch_pro_2_os.Json.{Json}
use cmf_watch_pro_2_os.Protocol.Messages.{Message}
use cmf_watch_pro_2_os.Protocol.Framing.{Decoder, push}
use cmf_watch_pro_2_os.Protocol.Framing.Kept.{push-keeps}
use cmf_watch_pro_2_os.Transport.Link.{
  Network, System, Client, TransportEvent, Received, bytes, closed, again, failed,
}
use cmf_watch_pro_2_os.Transport.Sending.{send_bootstrap}
use cmf_watch_pro_2_os.Transport.Connection.{
  drop_socket, bootstrapped, answered, opened, connect_over, pushed, arrived, poll_over, disconnect,
  greet, try_connect, connect_if_due, handle_message, take_bytes, poll, is_command,
}
use cmf_watch_pro_2_os.Transport.View.{
  Apart, Still, send_bootstrap-Still, send_unsupported_result-Still,
}

module _ {A W V : Type 0} (net : Network W) (client : Client A W) (see : W → V)
    (R : A → V → Type 0) where
  -- The relation holds of a system.
  abbrev pub Holds : System A W → Type 0
  Holds sys = R sys.app (see sys.world)

  pub Holds-seen : (a : A) (w w' : W) → see w' ≡ see w → R a (see w) → R a (see w')
  Holds-seen a w w' e r = subst (λ v. R a v) (sym e) r

  pub Holds-Still : {sys out : System A W} → Still net see sys out → Holds sys → Holds out
  Holds-Still {sys} {out} p r =
      subst (λ a. R a (see out.world)) (sym p.app) (Holds-seen sys.app sys.world out.world p.seen r)

  -- The client's callbacks keep the relation.
  pub record Keeps : Type 0 where
    pub message : (m : Message) (sys : System A W) → Holds sys → Holds (client.on_message m sys).1
    pub event : (e : TransportEvent) (sys : System A W) → Holds sys → Holds (client.on_event e sys)

  module _ (apart : Apart net see) (keeps : Keeps) where
    -- Waiting before the next attempt.
    waiting : (sys : System A W) → Holds sys → R sys.app (see (net.uptime sys.world).1)
    waiting sys r = Holds-seen sys.app sys.world (net.uptime sys.world).1 (apart.uptime sys.world) r

    drop_socket-Holds :
        (o : Option ℕ) (sys : System A W) → Holds sys → Holds (drop_socket net client o sys)
    drop_socket-Holds none sys r = r
    drop_socket-Holds (some fd) sys r =
        keeps.event _ _
          (Holds-seen sys.app sys.world (net.close fd sys.world) (apart.close fd sys.world) r)

    disconnect-Holds : (sys : System A W) → Holds sys → Holds (disconnect net client sys)
    unfolding disconnect
    disconnect-Holds sys r =
        waiting (drop_socket net client sys.link.socket_fd sys)
          (drop_socket-Holds sys.link.socket_fd sys r)

    bootstrapped-Holds :
        (sent : Result Errno (Unit {0}) × System A W)
        → Holds sent.1
        → Holds (bootstrapped net client sent)
    unfolding bootstrapped
    bootstrapped-Holds (err e, sys) r = disconnect-Holds sys r
    bootstrapped-Holds (ok x, sys) r = r

    greet-Holds : (fd : ℕ) (sys : System A W) → Holds sys → Holds (greet net client fd sys)
    unfolding greet
    greet-Holds fd sys r =
        let fresh = record sys { link = record (sys.link) { socket_fd = some fd } } in
        let told = client.on_event TransportEvent.connected fresh in
        bootstrapped-Holds (send_bootstrap net told)
          (Holds-Still (send_bootstrap-Still net see apart told) (keeps.event _ fresh r))

    answered-Holds :
        (fd : ℕ) (answer : Bool × W) (sys : System A W)
        → R sys.app (see answer.1)
        → Holds (answered net client fd answer sys)
    unfolding answered
    answered-Holds fd (true, w) sys r = greet-Holds fd (record sys { world = w }) r
    answered-Holds fd (false, w) sys r =
        waiting (record sys { world = net.close fd w })
          (Holds-seen sys.app w (net.close fd w) (apart.close fd w) r)

    opened-Holds :
        (candidate : Option ℕ × W) (sys : System A W)
        → R sys.app (see candidate.1)
        → Holds (opened net client candidate sys)
    unfolding opened
    opened-Holds (none, w) sys r = waiting (record sys { world = w }) r
    opened-Holds (some fd, w) sys r =
        answered-Holds fd (net.connect fd w) sys
          (Holds-seen sys.app w (net.connect fd w).1 (apart.connect fd w) r)

    connect_over-Holds :
        (o : Option ℕ) (sys : System A W) → Holds sys → Holds (connect_over net client o sys)
    unfolding connect_over try_connect
    connect_over-Holds (some fd) sys r = r
    connect_over-Holds none sys r =
        let w = (net.uptime sys.world).1 in
        elim (Bool-cases (ltb (net.uptime sys.world).0 sys.link.next_connect_at)) [
          | inl b ↦ rw (b) (waiting sys r)
          | inr b ↦ rw (b) (
              opened-Holds (net.open_socket w) (record sys { world = w })
                (Holds-seen sys.app w (net.open_socket w).1 (apart.open_socket w) (waiting sys r)))
        ]

    handle_message-Holds :
        (m : Message) (sys : System A W) → Holds sys → Holds (handle_message net client m sys).1
    unfolding handle_message
    handle_message-Holds m sys r = elim (Bool-cases (is_command m.type)) [
      | inl b ↦ rw (b) (Holds-Still (send_unsupported_result-Still net see apart m.id sys) r)
      | inr b ↦ rw (b) (keeps.message m sys r)
    ]

    module _ (json : Json) where
      pushed-Holds :
          (out : ℤ × Decoder × System A W) → Holds out.2 → Holds (pushed net client json out)
      pushed-Holds (result, decoder, handled) r = elim (Bool-cases (is_neg result)) [
        | inl b ↦ rw (b) (disconnect-Holds _ r)
        | inr b ↦ rw (b) r
      ]

      arrived-Holds :
          (received : Received × W) (sys : System A W)
          → R sys.app (see received.1)
          → Holds (arrived net client json received sys)
      unfolding arrived take_bytes
      arrived-Holds (bytes text, w) sys r =
          let sys' = record sys { world = w } in
          pushed-Holds (push json (handle_message net client) sys.link.decoder text sys') (
            push-keeps json (handle_message net client) Holds handle_message-Holds sys.link.decoder
              text sys' r)
      arrived-Holds (closed, w) sys r = disconnect-Holds (record sys { world = w }) r
      arrived-Holds (again, w) sys r = r
      arrived-Holds (failed, w) sys r = disconnect-Holds (record sys { world = w }) r

      poll_over-Holds :
          (o : Option ℕ) (sys : System A W) → Holds sys → Holds (poll_over net client json o sys)
      unfolding poll_over
      poll_over-Holds none sys r = r
      poll_over-Holds (some fd) sys r = arrived-Holds (net.receive fd 1024 sys.world) sys (
          Holds-seen sys.app sys.world (net.receive fd 1024 sys.world).1
            (apart.receive fd 1024 sys.world) r)

      pub poll-Holds : (sys : System A W) → Holds sys → Holds (poll net client json sys)
      unfolding poll connect_if_due
      poll-Holds sys r =
          let sys' = connect_if_due net client sys in
          poll_over-Holds sys'.link.socket_fd sys' (connect_over-Holds sys.link.socket_fd sys r)
