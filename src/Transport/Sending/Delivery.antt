-- ===== src/Transport/Sending/Delivery.antt =====
-- What reaches the host of a line that is sent.
use mathlib.Core.List.{append_assoc, append-nil}
use cmf_watch_pro_2_os.Base.{
  ℕ, zero, suc, ◌≤◌, ◌≡◌, refl, ap, sym, ◌∙◌, List, [], ◌∷◌, ◌++◌, subst, some, arith, length, take,
  Result, ok, err, Errno, eio,
}
use cmf_watch_pro_2_os.Transport.Link.{Network, System}
use cmf_watch_pro_2_os.Transport.Sending.{send_loop, send_over, send_bytes}

-- The bytes that the host has been sent on a descriptor, and what `send` promises of them: a call adds
-- the bytes that it says it took, from the front, and it takes no more than it is given.
pub record Wire {W : Type 0} (net : Network W) : Type 0 where
  pub sent : ℕ → W → List ℕ
  pub adds :
      (fd : ℕ) (bytes : List ℕ) (w : W)
      → sent fd (net.send fd bytes w).1 ≡ sent fd w ++ take (net.send fd bytes w).0 bytes
  pub bounded : (fd : ℕ) (bytes : List ℕ) (w : W) → (net.send fd bytes w).0 ≤ length bytes

module _ {W : Type 0} (net : Network W) (wire : Wire net) where
  -- The loop sends the bytes after those that are taken already: all of them, or those of a prefix.
  abbrev pub Delivered : ℕ → List ℕ → W → Result Errno (Unit {0}) × W → Type 0
  Delivered fd text w (ok _, w') = wire.sent fd w' ≡ wire.sent fd w ++ text
  Delivered fd text w (err e, w') =
      (front : List ℕ) × (back : List ℕ) × (text ≡ front ++ back)
      × (wire.sent fd w' ≡ wire.sent fd w ++ front)

  appended :
      (sent before : List ℕ) (b : ℕ) (rest : List ℕ)
      → sent ++ (before ++ b ∷ rest) ≡ sent ++ ((before ++ b ∷ []) ++ rest)
  appended sent before b rest = ap (λ t. sent ++ t) (sym (append_assoc before (b ∷ []) rest))

  rejoined : (sent before xs : List ℕ) → (sent ++ (before ++ [])) ++ xs ≡ sent ++ (before ++ xs)
  rejoined sent before xs = simp (append-nil, append_assoc)

  -- One call of `zsock_send` that took `count` bytes, before a loop that does what it should.
  after_send :
      (fd : ℕ) (b : ℕ) (bytes : List ℕ) (w0 w : W) (before : List ℕ) (count : ℕ)
      → wire.sent fd w ≡ wire.sent fd w0 ++ (before ++ take count (b ∷ bytes))
      → ((taken : ℕ)
          → count ≡ suc taken
          → wire.sent fd w ≡ wire.sent fd w0 ++ ((before ++ b ∷ []) ++ take taken bytes)
          → Delivered fd (before ++ b ∷ bytes) w0 (send_loop net fd taken bytes w))
      → Delivered fd
          (before ++ b ∷ bytes)
          w0
          (elim count [ zero ↦ (err eio, w) | suc taken ↦ send_loop net fd taken bytes w ])
  after_send fd b bytes w0 w before zero e loop =
      (before, b ∷ bytes, refl, e ∙ ap (λ t. wire.sent fd w0 ++ t) (append-nil before))
  after_send fd b bytes w0 w before (suc taken) e loop =
      loop taken refl (e ∙ appended (wire.sent fd w0) before b (take taken bytes))

  pub send_loop-Delivered :
      (fd taken : ℕ) (bytes : List ℕ) (w0 w : W) (before : List ℕ)
      → wire.sent fd w ≡ wire.sent fd w0 ++ (before ++ take taken bytes)
      → taken ≤ length bytes
      → Delivered fd (before ++ bytes) w0 (send_loop net fd taken bytes w)
  unfolding send_loop
  send_loop-Delivered fd zero [] w0 w before e h = e
  send_loop-Delivered fd (suc taken) [] w0 w before e h = absurd (omega arith)
  send_loop-Delivered fd (suc taken) (b ∷ bytes) w0 w before e h =
      rw⁻¹ (append_assoc before (b ∷ []) bytes) (
        send_loop-Delivered fd taken bytes w0 w (before ++ b ∷ [])
          (e ∙ appended (wire.sent fd w0) before b (take taken bytes)) (omega arith))
  send_loop-Delivered fd zero (b ∷ bytes) w0 w before e h =
      let (count, w') = net.send fd (b ∷ bytes) w in
      after_send fd b bytes w0 w' before count
        (wire.adds fd (b ∷ bytes) w
          ∙ ap (λ t. t ++ take count (b ∷ bytes)) e
          ∙ rejoined (wire.sent fd w0) before (take count (b ∷ bytes)))
        (λ taken c s. rw⁻¹ (append_assoc before (b ∷ []) bytes) (
          send_loop-Delivered fd taken bytes w0 w' (before ++ b ∷ []) s
            (omega (arith, wire.bounded fd (b ∷ bytes) w))))

  -- On a network that keeps its promise, sending a line over a socket either succeeds, and then the
  -- host has got exactly its bytes after all those before, however the network cut them into pieces,
  -- or it fails, and then the host has got a prefix of them.
  pub send_bytes-Delivered :
      {A : Type 0} (sys : System A W) (text : List ℕ) (fd : ℕ)
      → sys.link.socket_fd ≡ some fd
      → let (result, sys') = send_bytes net text sys in
        Delivered fd text sys.world (result, sys'.world)
  unfolding send_bytes
  send_bytes-Delivered sys text fd e =
      subst
        (λ o.
          let (result, sys') = send_over net o text sys in
          Delivered fd text sys.world (result, sys'.world))
        (sym e)
        (send_loop-Delivered fd 0 text sys.world sys.world []
          (sym (append-nil (wire.sent fd sys.world))) (omega arith))
