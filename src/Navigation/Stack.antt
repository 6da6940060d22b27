-- ===== src/Navigation/Stack.antt =====
-- The array read as a stack: a bounded list of screens, the current one last.
use native.Mathlib.Numerals.{add-one}
use cmf_watch_pro_2_os.Base.{
  ◌+◌, ◌-◌, ◌<◌, ◌≡◌, ◌↔◌, true, false, List, [], ◌∷◌, ◌++◌, some, arith, length, take, set,
  length-set, take-suc, take-set_ge, length-take, get_elem?-set_self, ap, ◌∙◌,
}
use cmf_watch_pro_2_os.State.{Screen}
use cmf_watch_pro_2_os.Navigation.{Navigation, navigation_depth, current, push, pop}
use cmf_watch_pro_2_os.Navigation.Bounds.{IsBounded, store-some, top_index-eq}

-- The screens in use, oldest first.
abbrev pub contents : Navigation → List Screen
contents nav = take nav.depth nav.stack

pub length-contents : {nav : Navigation} → IsBounded nav → length (contents nav) ≡ nav.depth
length-contents {nav} v = omega (arith, v, length-take nav.depth nav.stack)

pub push-room :
    {nav : Navigation} (s : Screen)
    → IsBounded nav
    → nav.depth < navigation_depth
    → push nav s
      ≡ some (record nav { stack = set nav.stack nav.depth s; depth = nav.depth + 1 }, true)
unfolding push
push-room {nav} s v room = ground (arith, store-some nav nav.depth s)

push-room-IsBounded :
    {nav : Navigation} (s : Screen)
    → IsBounded nav
    → nav.depth < navigation_depth
    → IsBounded (record nav { stack = set nav.stack nav.depth s; depth = nav.depth + 1 })
push-room-IsBounded {nav} s v room = omega (arith, v, length-set nav.stack nav.depth s)

contents-set :
    {nav : Navigation} (s : Screen)
    → IsBounded nav
    → nav.depth < navigation_depth
    → take (nav.depth + 1) (set nav.stack nav.depth s) ≡ contents nav ++ s ∷ []
contents-set {nav} s v room = rw add-one (
    take-suc (set nav.stack nav.depth s) nav.depth
      (get_elem?-set_self nav.stack nav.depth s (omega (arith, v)))
    ∙ ap (λ l. l ++ s ∷ []) (take-set_ge nav.depth nav.stack nav.depth s (omega arith)))

-- On a bounded stack with a free slot, `push` succeeds, adds the screen at the end and makes it
-- current, and `pop` then succeeds and leaves the screens as they were before.
pub pop-push :
    {nav : Navigation} (s : Screen)
    → IsBounded nav
    → nav.depth < navigation_depth
    → (out : Navigation) × (push nav s ≡ some (out, true))
      × (contents out ≡ contents nav ++ s ∷ [])
      × (current out ≡ some s)
      × ((pop out).1 ≡ true)
      × (contents (pop out).0 ≡ contents nav)
unfolding pop current
pop-push {nav} s v room = (
  _,
  push-room s v room,
  contents-set s v room,
  rw (top_index-eq (push-room-IsBounded s v room)) (
      let e : nav.depth + 1 - 1 ≡ nav.depth = omega arith in
      rw e (get_elem?-set_self nav.stack nav.depth s (omega (arith, v)))),
  ground arith,
  ground (arith, take-set_ge nav.depth nav.stack nav.depth s (omega arith)),
)

-- On a bounded stack `push` fails exactly when all eight slots are in use and `pop` exactly when one
-- screen is left, and an operation that fails changes nothing.
pub push-pop-limits :
    {nav : Navigation} (s : Screen)
    → IsBounded nav
    → ((length (contents nav) ≡ navigation_depth) ↔ (push nav s ≡ some (nav, false)))
      × ((length (contents nav) ≡ 1) ↔ (pop nav ≡ (nav, false)))
unfolding push pop
push-pop-limits {nav} s v = (
  (
    λ full. ground (arith, length-contents v),
    λ same. ground (arith, length-contents v, push-room s v),
  ),
  (λ one. ground (arith, length-contents v), λ same. ground (arith, length-contents v)),
)
