-- ===== src/Input.antt =====
-- watch/src/input/watch_input.h and watch_input.c: the buttons. The interrupts set flags, and the
-- runtime's loop takes them one at a time.
pub mod Buttons
mod Tests
use cmf_watch_pro_2_os.Base.Int.{ℤ, pos, negsuc, is_zero}
use cmf_watch_pro_2_os.Base.{ℕ, Bool, true, false, List, [], ◌∷◌, if◌then◌else◌}

-- `enum watch_input_event`
pub data InputEvent : Type 0 where
  no_input hardware_button activate : InputEvent

-- `pending_button` and `pending_activate`, which hold 0 or 1.
pub record Pending : Type 0 where
  pub button : Bool
  pub activate : Bool

-- The two interrupts.
pub data Press : Type 0 where
  button_isr activate_isr : Press

unfoldable pub interrupt : Press → Pending → Pending
interrupt button_isr p = record p { button = true }
interrupt activate_isr p = record p { activate = true }

-- The interrupts between two polls.
unfoldable pub interrupts : List Press → Pending → Pending
unfolding interrupt
interrupts [] p = p
interrupts (press ∷ presses) p = interrupts presses (interrupt press p)

-- `atomic_cas(&flag, 1, 0)` takes a flag that is set.
unfoldable pub poll : Pending → InputEvent × Pending
poll p =
    if p.activate
    then (InputEvent.activate, record p { activate = false })
    else if p.button
    then (InputEvent.hardware_button, record p { button = false })
    else (InputEvent.no_input, p)

-- The two pins, and Zephyr's calls on them: whether the device is ready, and three steps that return 0
-- or an error. (`add_callback` is `gpio_init_callback` and `gpio_add_callback`.)
pub data Pin : Type 0 where
  hardware_pin activate_pin : Pin

pub record Pins (W : Type 0) : Type 0 where
  pub ready : Pin → W → Bool
  pub configure : Pin → W → ℤ × W
  pub add_callback : Pin → W → ℤ × W
  pub enable : Pin → W → ℤ × W

-- `if (error != 0) return error;`
abbrev pub unless_failed : {W : Type 0} → ℤ × W → (W → ℤ × W) → ℤ × W
unless_failed (error, w) rest = if is_zero error then rest w else (error, w)

module _ {W : Type 0} (pins : Pins W) where
  unfoldable pub set_up : Pin → W → ℤ × W
  set_up pin w =
      if pins.ready pin w
      then unless_failed (pins.configure pin w)
          (λ w1. unless_failed (pins.add_callback pin w1) (λ w2. pins.enable pin w2))
      else (negsuc 18, w)

  -- `watch_input_init`; -19 is -ENODEV.
  unfoldable pub init : W → ℤ × W
  unfolding set_up
  init w = unless_failed (set_up hardware_pin w) (λ w1. set_up activate_pin w1)
