-- ===== src/Runtime/Reconnect.antt =====
-- How the watch comes back to its host.
mod Tests
use cmf_watch_pro_2_os.Base.{
  ℕ, ◌+◌, ◌%◌, ◌^◌, ◌≤◌, ◌≡◌, refl, sym, ap, subst, ◌∙◌, inl, inr, Bool, true, false, List, ◌++◌,
  Option, none, some, arith, ltb, length, Bool-cases, Result, ok, err, Errno, if◌then◌else◌,
}
use cmf_watch_pro_2_os.Json.{Json}
use cmf_watch_pro_2_os.State.{ConnectionState}
use cmf_watch_pro_2_os.Sync.Handle.{connected}
use cmf_watch_pro_2_os.Cache.Record.{Layout}
use cmf_watch_pro_2_os.Renderer.Picture.{Picture, Loading, renderer_screen, load_at_once}
use cmf_watch_pro_2_os.Transport.Frames.{hello_frame, sync_frame}
use cmf_watch_pro_2_os.Transport.Link.{Link, System, TransportEvent}
use cmf_watch_pro_2_os.Transport.Sending.{send_bootstrap, count_message}
use cmf_watch_pro_2_os.Transport.Sending.Delivery.{Wire}
use cmf_watch_pro_2_os.Transport.Sending.Opening.{Progress, send_bootstrap-sent}
use cmf_watch_pro_2_os.Transport.Connection.{
  bootstrapped, greet, answered, opened, try_connect, connect_over, connect_if_due,
}
use cmf_watch_pro_2_os.Runtime.{Device, Board}
use cmf_watch_pro_2_os.Runtime.Display.{drawn, refresh, refresh_if_ready}
use cmf_watch_pro_2_os.Runtime.Messages.{callbacks, handle_transport_event}

-- The first two lines of a connection: a greeting, and the request for a snapshot.
abbrev pub first_lines : Link → List ℕ
first_lines link =
    hello_frame link.next_message_id link.session_id
    ++ sync_frame ((link.next_message_id + 1) % 2 ^ 32) 0

module _ {W : Type 0} (board : Board W) (layout : Layout) (json : Json)
    (wire : Wire board.net) where
  -- The client has been told of the connection: it awaits a snapshot, and nothing has been sent yet.
  record Told (fd : ℕ) (before : W) (opened_link : Link) (out : System Device W) : Type 0 where
    pub link : out.link ≡ opened_link
    pub connection : out.app.state.connection ≡ ConnectionState.connecting
    pub syncing : out.app.sync.syncing ≡ true
    pub sent : wire.sent fd out.world ≡ wire.sent fd before

  -- What has come of a connection: the host has got the first two lines.
  abbrev pub Greeted : ℕ → W → Link → System Device W → Type 0
  Greeted fd before link out =
      (out.link.socket_fd ≡ some fd)
      × (out.app.state.connection ≡ ConnectionState.connecting)
      × (out.app.sync.syncing ≡ true)
      × (wire.sent fd out.world ≡ wire.sent fd before ++ first_lines link)

  module _ (fd : ℕ)
      (unsent : (l : Loading) (p : Picture) (w : W)
        → wire.sent fd (board.show l p w) ≡ wire.sent fd w) where
    drawn-Told :
        (before : W) (link : Link) (o : Option Picture) (sys : System Device W)
        → Told fd before link sys
        → Told fd before link (drawn board load_at_once o sys)
    drawn-Told before link none sys h = record {
      link = h.link;
      connection = h.connection;
      syncing = h.syncing;
      sent = h.sent;
    }
    drawn-Told before link (some picture) sys h = record {
      link = h.link;
      connection = h.connection;
      syncing = h.syncing;
      sent = unsent load_at_once picture sys.world ∙ h.sent;
    }

    refresh_if_ready-Told :
        (before : W) (link : Link) (sys : System Device W)
        → Told fd before link sys
        → Told fd before link (refresh_if_ready board sys)
    unfolding refresh_if_ready refresh
    refresh_if_ready-Told before link sys h = elim (Bool-cases sys.app.runtime_ready) [
      | inl b ↦
          subst (λ x. Told fd before link (if x then refresh board sys else sys)) (sym b)
            (drawn-Told before link (renderer_screen sys.app.state) sys h)
      | inr b ↦ subst (λ x. Told fd before link (if x then refresh board sys else sys)) (sym b) h
    ]

    module _ (progress : Progress board.net) where
      greet-Greeted :
          (sys : System Device W)
          → length sys.link.session_id ≤ 36
          → Greeted fd sys.world sys.link (greet board.net (callbacks board layout json) fd sys)
      unfolding greet handle_transport_event connected bootstrapped
      greet-Greeted sys short =
          let fresh = record sys { link = record (sys.link) { socket_fd = some fd } } in
          let told = handle_transport_event board layout TransportEvent.connected fresh in
          let h : Told fd sys.world fresh.link told =
            refresh_if_ready-Told sys.world fresh.link _
              (record { link = refl; connection = refl; syncing = refl; sent = refl }) in
          let (w, e, sent) =
            send_bootstrap-sent board.net progress wire told fd (ap (λ l. l.socket_fd) h.link)
              (subst (λ l. length l.session_id ≤ 36) (sym h.link) short) in
          subst
            (λ r.
              Greeted fd sys.world sys.link
                (bootstrapped board.net (callbacks board layout json) r))
            (sym e)
            (
              ap (λ l. l.socket_fd) h.link,
              h.connection,
              h.syncing,
              sent
                  ∙ ap (λ t. t ++ first_lines told.link) h.sent
                  ∙ ap (λ l. wire.sent fd sys.world ++ first_lines l) h.link,
            )

      connect_over-Greeted :
          (sys : System Device W) (w2 w3 : W)
          → length sys.link.session_id ≤ 36
          → ltb (board.net.uptime sys.world).0 sys.link.next_connect_at ≡ false
          → board.net.open_socket (board.net.uptime sys.world).1 ≡ (some fd, w2)
          → board.net.connect fd w2 ≡ (true, w3)
          → Greeted fd w3 sys.link (connect_over board.net (callbacks board layout json) none sys)
      unfolding connect_over try_connect opened answered
      connect_over-Greeted sys w2 w3 short due socket reached =
          rw (due, socket, reached) (greet-Greeted (record sys { world = w3 }) short)

      -- The watch finds its host again. Without a socket, when the time of the next attempt has come and
      -- the host accepts the connection, `connect_if_due` ends with the socket open, the watch
      -- connecting and awaiting a snapshot, and the host has got the greeting and right after it the
      -- request for a snapshot, with a last revision of 0 whatever the watch has, both whole, with
      -- identifiers that follow each other, and nothing after them. The network
      -- sends a byte at least of what it is given, and showing a screen sends nothing; the session's
      -- identifier has 36 characters at most.
      pub connect_if_due-greets :
          (sys : System Device W) (w2 w3 : W)
          → sys.link.socket_fd ≡ none
          → length sys.link.session_id ≤ 36
          → sys.link.next_connect_at ≤ (board.net.uptime sys.world).0
          → board.net.open_socket (board.net.uptime sys.world).1 ≡ (some fd, w2)
          → board.net.connect fd w2 ≡ (true, w3)
          → Greeted fd w3 sys.link (connect_if_due board.net (callbacks board layout json) sys)
      unfolding connect_if_due
      connect_if_due-greets sys w2 w3 alone short due socket reached =
          subst
            (λ o.
              Greeted fd w3 sys.link (connect_over board.net (callbacks board layout json) o sys))
            (sym alone) (connect_over-Greeted sys w2 w3 short (ground arith) socket reached)
