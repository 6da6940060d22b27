-- ===== src/Transport/Sending/Opening.antt =====
-- The first lines of a connection reach the host.
use cmf_watch_pro_2_os.Base.{
  ℕ, zero, suc, ◌+◌, ◌%◌, ◌^◌, ◌≤◌, ◌≡◌, refl, ap, sym, ◌∙◌, subst, true, List, [], ◌∷◌, ◌++◌, some,
  arith, length, Result, ok, err, Errno, eio,
}
use mathlib.Core.List.{append_assoc, append-nil}
use cmf_watch_pro_2_os.Transport.Frames.{hello_frame, sync_frame, fits}
use cmf_watch_pro_2_os.Transport.Frames.Numerals.{frames-fit}
use cmf_watch_pro_2_os.Transport.Link.{Network, System}
use cmf_watch_pro_2_os.Transport.Sending.{
  send_loop, count_message, send_over, send_bytes, send_line, request_over, request_sync, greeted,
  send_bootstrap,
}
use cmf_watch_pro_2_os.Transport.Sending.Delivery.{Wire, Delivered, send_loop-Delivered}

-- The network takes a byte at least of what it is given.
abbrev pub Progress : {W : Type 0} → Network W → Type 0
Progress {W} net = (fd b : ℕ) (bytes : List ℕ) (w : W) → 1 ≤ (net.send fd (b ∷ bytes) w).0

module _ {W : Type 0} (net : Network W) (progress : Progress net) where
  abbrev Succeeds : Result Errno (Unit {0}) × W → Type 0
  Succeeds out = out.0 ≡ ok tt

  taken_on :
      (fd : ℕ) (bytes : List ℕ) (count : ℕ) (w : W)
      → 1 ≤ count
      → ((taken : ℕ) → Succeeds (send_loop net fd taken bytes w))
      → Succeeds (elim count [ zero ↦ (err eio, w) | suc taken ↦ send_loop net fd taken bytes w ])
  taken_on fd bytes zero w h go = absurd (omega arith)
  taken_on fd bytes (suc taken) w h go = go taken

  send_loop-Succeeds :
      (fd taken : ℕ) (bytes : List ℕ) (w : W) → Succeeds (send_loop net fd taken bytes w)
  unfolding send_loop
  send_loop-Succeeds fd taken [] w = refl
  send_loop-Succeeds fd (suc taken) (b ∷ bytes) w = send_loop-Succeeds fd taken bytes w
  send_loop-Succeeds fd zero (b ∷ bytes) w =
      let (count, w') = net.send fd (b ∷ bytes) w in
      taken_on fd bytes count w' (progress fd b bytes w)
        (λ taken. send_loop-Succeeds fd taken bytes w')

  module _ (wire : Wire net) where
    succeeded :
        (fd : ℕ) (text : List ℕ) (w : W) (out : Result Errno (Unit {0}) × W)
        → out.0 ≡ ok tt
        → Delivered net wire fd text w out
        → (w' : W) × (out ≡ (ok tt, w')) × (wire.sent fd w' ≡ wire.sent fd w ++ text)
    succeeded fd text w (ok x, w') e d = (w', refl, d)
    succeeded fd text w (err x, w') e d = absurd (cc)

    loop_sent :
        (fd : ℕ) (text : List ℕ) (w : W)
        → (w' : W) × (send_loop net fd 0 text w ≡ (ok tt, w'))
          × (wire.sent fd w' ≡ wire.sent fd w ++ text)
    loop_sent fd text w =
        succeeded fd text w (send_loop net fd 0 text w) (send_loop-Succeeds fd 0 text w) (
          send_loop-Delivered net wire fd 0 text w w [] (sym (append-nil (wire.sent fd w)))
            (omega arith))

  module _ {A : Type 0} (wire : Wire net) where
    -- A line that fits goes over an open socket whole.
    send_line-sent :
        (capacity : ℕ) (line : ℕ → List ℕ) (sys : System A W) (fd : ℕ)
        → sys.link.socket_fd ≡ some fd
        → fits capacity (line sys.link.next_message_id) ≡ true
        → (w : W) × (send_line net capacity line sys
            ≡ (ok tt, record (count_message sys) { world = w }))
          × (wire.sent fd w ≡ wire.sent fd sys.world ++ line sys.link.next_message_id)
    unfolding send_bytes
    send_line-sent capacity line sys fd e f =
        let text = line sys.link.next_message_id in
        let counted = count_message sys in
        let (w, q, h) = loop_sent wire fd text sys.world in
        (
          w,
          rw (f) (
              subst (λ o. send_over net o text counted ≡ (ok tt, record counted { world = w }))
                (sym e) (ap (λ r. (r.0, record counted { world = r.1 })) q)),
          h,
        )

    request_sync-sent :
        (revision : ℕ) (sys : System A W) (fd : ℕ)
        → sys.link.socket_fd ≡ some fd
        → (w : W) × (request_sync net revision sys
            ≡ (ok tt, record (count_message sys) { world = w }))
          × (wire.sent fd w
              ≡ wire.sent fd sys.world ++ sync_frame sys.link.next_message_id revision)
    unfolding request_sync request_over
    request_sync-sent revision sys fd e =
        let fit = (frames-fit sys.link.next_message_id 0 revision true [] (omega arith)).2 in
        let (w, q, h) = send_line-sent 192 (λ id. sync_frame id revision) sys fd e fit in
        (
          w,
          subst
              (λ o.
                request_over net o revision sys ≡ (ok tt, record (count_message sys) { world = w }))
              (sym e) q,
          h,
        )

    -- On a network that takes at least a byte of what it is given, the first lines of a connection
    -- always reach the host: `send_bootstrap` succeeds, the host has got the hello line and then the
    -- request for a snapshot, whole and with identifiers that follow each other, and nothing of the
    -- transport has changed but its next identifier. The session's identifier has 36 characters at most.
    pub send_bootstrap-sent :
        (sys : System A W) (fd : ℕ)
        → sys.link.socket_fd ≡ some fd
        → length sys.link.session_id ≤ 36
        → let id = sys.link.next_message_id in
          let next = (id + 1) % 2 ^ 32 in
          (w : W) × (send_bootstrap net sys
            ≡ (ok tt, record (count_message (count_message sys)) { world = w }))
          × (wire.sent fd w
              ≡ wire.sent fd sys.world ++ (hello_frame id sys.link.session_id ++ sync_frame next 0))
    unfolding send_bootstrap greeted
    send_bootstrap-sent sys fd e short =
        let id = sys.link.next_message_id in
        let fit = (frames-fit id 0 0 true sys.link.session_id short).0 in
        let (w1, q1, h1) =
          send_line-sent 512 (λ n. hello_frame n sys.link.session_id) sys fd e fit in
        let sys1 = record (count_message sys) { world = w1 } in
        let (w2, q2, h2) = request_sync-sent 0 sys1 fd e in
        (
          w2,
          ap (λ r. greeted net r) q1 ∙ q2,
          h2
              ∙ ap (λ t. t ++ sync_frame ((id + 1) % 2 ^ 32) 0) h1
              ∙ append_assoc (wire.sent fd sys.world) (hello_frame id sys.link.session_id)
                  (sync_frame ((id + 1) % 2 ^ 32) 0),
        )
