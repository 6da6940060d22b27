-- ===== src/Runtime/View/Shown.antt =====
-- From the start on, the display shows the screen of the watch's state.
use cmf_watch_pro_2_os.Base.{
  ℕ, List, arith, ◌≡◌, sym, subst, ◌∙◌, inl, inr, Bool-cases, true, false, Option, none, some,
}
use cmf_watch_pro_2_os.Json.{Json}
use cmf_watch_pro_2_os.Cache.Record.{Layout}
use cmf_watch_pro_2_os.Cache.Storage.{Reading}
use cmf_watch_pro_2_os.Renderer.Picture.{Picture, renderer_screen}
use cmf_watch_pro_2_os.Transport.Link.{System}
use cmf_watch_pro_2_os.Runtime.{Device, Board}
use cmf_watch_pro_2_os.Runtime.Loop.{boot, turns}
use cmf_watch_pro_2_os.Runtime.Health.Loading.{Slotted}
use cmf_watch_pro_2_os.Runtime.Health.Start.{boot-Running}
use cmf_watch_pro_2_os.Runtime.Health.Turns.{AllNear}
use cmf_watch_pro_2_os.Runtime.View.{Shows}
use cmf_watch_pro_2_os.Runtime.View.Turns.{LiveIf, boot-Live, turns-Live}

module _ {W : Type 0} (board : Board W) (layout : Layout) (json : Json) where
  -- Only a board with a display that is ready has been started.
  started :
      (w : W) (sys : System Device W)
      → boot board layout json w ≡ some sys
      → board.display_ready w ≡ true
  unfolding boot
  started w sys e = elim (Bool-cases (board.display_ready w)) [
    | inl b ↦ b
    | inr b ↦ absurd (ground arith)
  ]

  abbrev SoundIf : ℕ → Option (System Device W) → Type 0
  SoundIf n none = Unit
  SoundIf n (some sys) = (turns board layout json n sys).app.faulty ≡ false

  -- From the start on, after any number of turns of the loop, whatever the host, the user and the clock
  -- do: where the watch is not waiting for a snapshot, the screen that was loaded last is the one that
  -- the renderer makes of the watch's state. No change of the state is left undrawn, on the way of the
  -- messages, the connection, the buttons, the touches, the timeouts and the restored cache. It is
  -- assumed that no call but the loading of a screen changes what is seen, and, as for the loop, that
  -- touches lie on the display and that a record read from a file has its slots and the terminators of
  -- their texts, and no more notifications stored than counted.
  pub turns-shown :
      (see : W → Picture) (n : ℕ) (w : W) (sys : System Device W)
      → Shows board see
      → ((w : W) → AllNear (board.timer w).0)
      → ((path : List ℕ) (w : W) (r : Reading)
          → board.files.read path w ≡ some r
          → Slotted r.candidate)
      → boot board layout json w ≡ some sys
      → (turns board layout json n sys).app.sync.syncing ≡ false
      → let out = turns board layout json n sys in
        renderer_screen out.app.state ≡ some (see out.world)
  turns-shown see n w sys shows near slotted e settled =
      let (sys', e', r) = boot-Running board layout near json slotted w n (started w sys e) in
      let sound = subst (SoundIf n) (sym e' ∙ e) r.0.0.sound in
      let live =
        subst (λ o. LiveIf board see shows layout json o) e
          (boot-Live board see shows layout json w) in
      let kept = turns-Live board see shows layout json n sys live in kept.1 sound settled
