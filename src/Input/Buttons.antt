-- ===== src/Input/Buttons.antt =====
-- What comes of the presses between two polls.
use cmf_watch_pro_2_os.Base.{◌≡◌, Bool, true, false, ◌||◌, List, [], ◌∷◌, arith, if◌then◌else◌}
use cmf_watch_pro_2_os.Input.{
  InputEvent, Pending, Press, button_isr, activate_isr, interrupts, poll,
}

-- Whether a button was pressed.
abbrev pub pressed : Press → List Press → Bool
pressed press [] = false
pressed button_isr (button_isr ∷ rest) = true
pressed activate_isr (activate_isr ∷ rest) = true
pressed press (_ ∷ rest) = pressed press rest

interrupts-eq :
    (presses : List Press) (p : Pending)
    → interrupts presses p ≡ record {
      button = p.button || pressed button_isr presses;
      activate = p.activate || pressed activate_isr presses;
    }
unfolding interrupts
interrupts-eq [] p = ground arith
interrupts-eq (button_isr ∷ rest) p =
    ground (arith, interrupts-eq rest (record p { button = true }))
interrupts-eq (activate_isr ∷ rest) p =
    ground (arith, interrupts-eq rest (record p { activate = true }))

-- Any number of presses between two polls, in any order, counts as one press of each button that was
-- pressed: the first poll takes the activation if there was one, the second the hardware button, and
-- then nothing is left.
pub poll-interrupts :
    (presses : List Press) (p : Pending)
    → let (first, p1) = poll (interrupts presses p) in
      let (second, p2) = poll p1 in
      let activated = p.activate || pressed activate_isr presses in
      let pushed = p.button || pressed button_isr presses in
      (first ≡ (
        if activated
        then InputEvent.activate
        else if pushed
        then InputEvent.hardware_button
        else InputEvent.no_input))
      × (second ≡ (
          if activated
          then (if pushed then InputEvent.hardware_button else InputEvent.no_input)
          else InputEvent.no_input))
      × (p2 ≡ record { button = false; activate = false })
unfolding poll
poll-interrupts presses p = ground (arith, interrupts-eq presses p)
