-- ===== src/Navigation.antt =====
-- watch/src/navigation/navigation.h and navigation.c: the bounded screen stack and the page carousel.
-- The result is `none` where the C code would access the array out of range.
pub mod Bounds
pub mod Stack
pub mod Carousel
mod Tests
use cmf_watch_pro_2_os.Base.{
  ℕ, ◌+◌, ◌-◌, ◌%◌, ◌^◌, Bool, true, false, List, Option, none, some, ltb, leb, ◌==◌, if◌then◌else◌,
  length, get_elem?, set, ◌>>=◌,
}
use cmf_watch_pro_2_os.State.{Screen, to_nat, of_nat}

abbrev pub navigation_depth : ℕ
navigation_depth = 8

abbrev pub screen_count : ℕ
screen_count = 5

pub record Navigation : Type 0 where
  pub stack : List Screen
  pub depth : ℕ

-- `stack[depth - 1]`, where the `size_t` difference wraps.
abbrev pub top_index : Navigation → ℕ
top_index nav = (nav.depth + 2 ^ 64 - 1) % 2 ^ 64

-- A write, refused out of range.
abbrev pub store : Navigation → ℕ → Screen → Option Navigation
store nav i screen =
    if ltb i (length nav.stack) then some (record nav { stack = set nav.stack i screen }) else none

unfoldable pub init : Navigation → Option Navigation
init nav = do stored ← store nav 0 Screen.home; some (record stored { depth = 1 })

unfoldable pub current : Navigation → Option Screen
current nav = get_elem? nav.stack (top_index nav)

unfoldable pub push : Navigation → Screen → Option (Navigation × Bool)
push nav screen = if leb navigation_depth nav.depth then some (nav, false) else do
  stored ← store nav nav.depth screen
  some (record stored { depth = nav.depth + 1 }, true)

unfoldable pub pop : Navigation → Navigation × Bool
pop nav = if leb nav.depth 1 then (nav, false) else (record nav { depth = nav.depth - 1 }, true)

unfoldable pub replace : Navigation → Screen → Option Navigation
replace nav screen = store nav (top_index nav) screen

unfoldable pub next : Navigation → Option (Navigation × Bool)
unfolding current
next nav = do
  screen ← current nav
  stored ← store nav 0 (of_nat ((to_nat screen + 1) % screen_count))
  some (record stored { depth = 1 }, true)

abbrev pub page_before : Screen → Screen
page_before Screen.home = Screen.settings
page_before screen = of_nat (to_nat screen - 1)

unfoldable pub previous : Navigation → Option (Navigation × Bool)
unfolding current
previous nav = do
  screen ← current nav
  stored ← store nav 0 (page_before screen)
  some (record stored { depth = 1 }, true)
