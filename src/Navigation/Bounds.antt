-- ===== src/Navigation/Bounds.antt =====
-- No operation leaves the array, and every operation keeps the depth within it.
use cmf_watch_pro_2_os.Base.{
  ℕ, ◌+◌, ◌-◌, ◌%◌, ◌≤◌, ◌<◌, ◌≡◌, refl, Bool, true, false, List, Option, none, some, arith, ap, [],
  ◌∷◌, ◌>>=◌, length, set, length-set, get_elem?-some_of_lt, lt→ltb,
}
use native.Mathlib.Decide.{dec_lt}
use cmf_watch_pro_2_os.State.{Screen, to_nat, of_nat}
use cmf_watch_pro_2_os.Navigation.{
  Navigation, navigation_depth, top_index, store, init, current, push, pop, replace, next, previous,
  page_before, screen_count,
}

-- The array has its size, and one entry at least is in use.
pub record IsBounded (nav : Navigation) : Type 0 where
  pub slots : length nav.stack ≡ navigation_depth
  pub used : 1 ≤ nav.depth
  pub fits : nav.depth ≤ navigation_depth

-- The operations of the module, as a client calls them.
pub data Op : Type 0 where
  pushes replaces : Screen → Op
  pops nexts previouses : Op

abbrev first {ℓ} : {A : Type ℓ} → Option (A × Bool) → Option A
first none = none
first (some (a, b)) = some a

unfoldable pub apply : Op → Navigation → Option Navigation
apply (pushes screen) nav = first (push nav screen)
apply (replaces screen) nav = replace nav screen
apply pops nav = some (pop nav).0
apply nexts nav = first (next nav)
apply previouses nav = first (previous nav)

pub store-some :
    (nav : Navigation) (i : ℕ) (screen : Screen)
    → i < length nav.stack
    → store nav i screen ≡ some (record nav { stack = set nav.stack i screen })
store-some nav i screen h = ground (arith, lt→ltb i (length nav.stack) h)

pub top_index-eq : {nav : Navigation} → IsBounded nav → top_index nav ≡ nav.depth - 1
top_index-eq v = omega arith

pub current-some : {nav : Navigation} → IsBounded nav → (s : Screen) × (current nav ≡ some s)
unfolding current
current-some {nav} v =
    rw (top_index-eq v) (get_elem?-some_of_lt nav.stack (nav.depth - 1) (omega arith))

-- Going to a page at the bottom of the stack, as `next` and `previous` do.
unfoldable pub goto : Navigation → Screen → Navigation
goto nav screen = record nav { stack = set nav.stack 0 screen; depth = 1 }

pub next-goto :
    {nav : Navigation} {s : Screen}
    → IsBounded nav
    → current nav ≡ some s
    → next nav ≡ some (goto nav (of_nat ((to_nat s + 1) % screen_count)), true)
unfolding next goto
next-goto {nav} {s} v e =
    rw (e, store-some nav 0 (of_nat ((to_nat s + 1) % screen_count)) (omega (arith, v.slots)))

pub previous-goto :
    {nav : Navigation} {s : Screen}
    → IsBounded nav
    → current nav ≡ some s
    → previous nav ≡ some (goto nav (page_before s), true)
unfolding previous goto
previous-goto {nav} {s} v e = rw (e, store-some nav 0 (page_before s) (omega (arith, v.slots)))

pub goto-IsBounded : {nav : Navigation} (s : Screen) → IsBounded nav → IsBounded (goto nav s)
unfolding goto
goto-IsBounded {nav} s v = omega (arith, length-set nav.stack 0 s)

pub push-IsBounded :
    {nav : Navigation} (s : Screen)
    → IsBounded nav
    → (out : Navigation × Bool) × (push nav s ≡ some out) × IsBounded out.0
unfolding push
push-IsBounded {nav} s v = elim (dec_lt nav.depth navigation_depth) [
  | yes room ↦ (
    (record nav { stack = set nav.stack nav.depth s; depth = nav.depth + 1 }, true),
    ground (arith, store-some nav nav.depth s),
    ground (arith, length-set nav.stack nav.depth s),
  )
  | no full ↦ ((nav, false), ground arith, v)
]

pub replace-IsBounded :
    {nav : Navigation} (s : Screen)
    → IsBounded nav
    → (out : Navigation) × (replace nav s ≡ some out) × IsBounded out
unfolding replace
replace-IsBounded {nav} s v = (
  record nav { stack = set nav.stack (top_index nav) s },
  store-some nav (top_index nav) s (omega arith),
  omega (arith, length-set nav.stack (top_index nav) s),
)

-- On a bounded stack every operation stays inside the array and leaves a bounded stack.
pub apply-IsBounded :
    (op : Op) {nav : Navigation}
    → IsBounded nav
    → (out : Navigation) × (apply op nav ≡ some out) × IsBounded out
unfolding apply
apply-IsBounded (pushes s) v = let (out, e, w) = push-IsBounded s v in (out.0, ap first e, w)
apply-IsBounded (replaces s) v = replace-IsBounded s v
apply-IsBounded pops {nav} v = ((pop nav).0, refl, unfold pop in ground arith)
apply-IsBounded nexts v =
    let (s, e) = current-some v in (_, ap first (next-goto v e), goto-IsBounded _ v)
apply-IsBounded previouses v =
    let (s, e) = current-some v in (_, ap first (previous-goto v e), goto-IsBounded _ v)

unfoldable pub run : List Op → Navigation → Option Navigation
run [] nav = some nav
run (op ∷ ops) nav = apply op nav >>= run ops

run-IsBounded :
    (ops : List Op) {nav : Navigation}
    → IsBounded nav
    → (out : Navigation) × (run ops nav ≡ some out) × IsBounded out
unfolding run
run-IsBounded [] {nav} v = (nav, refl, v)
run-IsBounded (op ∷ ops) v =
    let (mid, e, w) = apply-IsBounded op v in
    let (out, e', w') = run-IsBounded ops w in (out, rw e e', w')

-- From an array of the declared size, `init` followed by any sequence of operations never accesses
-- the array out of range and ends with a depth between 1 and 8.
pub run-init-IsBounded :
    (nav : Navigation) (ops : List Op)
    → length nav.stack ≡ navigation_depth
    → (out : Navigation) × ((init nav >>= run ops) ≡ some out) × IsBounded out
unfolding init
run-init-IsBounded nav ops h =
    rw (store-some nav 0 Screen.home (omega (arith, h)))
      (run-IsBounded ops (omega (arith, h, length-set nav.stack 0 Screen.home)))
