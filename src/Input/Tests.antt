-- ===== src/Input/Tests.antt =====
-- A run of the buttons.
use cmf_watch_pro_2_os.Base.{◌≡◌, false, [], ◌∷◌}
use cmf_watch_pro_2_os.Input.{InputEvent, Pending, button_isr, activate_isr, interrupts, poll}
use cmf_watch_pro_2_os.Input.Buttons.{poll-interrupts}

abbrev idle : Pending
idle = record { button = false; activate = false }

two_presses :
    let (first, p1) = poll (interrupts (button_isr ∷ activate_isr ∷ button_isr ∷ []) idle) in
    let (second, p2) = poll p1 in
    (first ≡ InputEvent.activate) × (second ≡ InputEvent.hardware_button) × (p2 ≡ idle)
two_presses = poll-interrupts (button_isr ∷ activate_isr ∷ button_isr ∷ []) idle
