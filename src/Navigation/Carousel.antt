-- ===== src/Navigation/Carousel.antt =====
-- The carousel of the five pages, reached from any depth.
use cmf_watch_pro_2_os.Base.{
  ℕ, zero, suc, ◌+◌, ◌%◌, ◌≤◌, ◌<◌, ◌≡◌, refl, ◌≢◌, true, List, [], ◌∷◌, some, arith,
  get_elem?-set_self,
}
use cmf_watch_pro_2_os.State.{Screen, to_nat, of_nat}
use cmf_watch_pro_2_os.Navigation.{Navigation, current, next, previous, page_before, screen_count}
use cmf_watch_pro_2_os.Navigation.Bounds.{
  IsBounded, Op, nexts, previouses, apply, run, goto, next-goto, previous-goto, goto-IsBounded,
}

-- The page that a swipe to the left shows after `screen`.
abbrev pub page_after : Screen → Screen
page_after Screen.home = Screen.notifications
page_after Screen.notifications = Screen.music
page_after Screen.music = Screen.assistant
page_after Screen.assistant = Screen.settings
page_after Screen.settings = Screen.home
page_after Screen.count = Screen.notifications

-- The page that a swipe to the right shows.
abbrev pub page_ahead : Screen → Screen
page_ahead Screen.home = Screen.settings
page_ahead Screen.notifications = Screen.home
page_ahead Screen.music = Screen.notifications
page_ahead Screen.assistant = Screen.music
page_ahead Screen.settings = Screen.assistant
page_ahead Screen.count = Screen.settings

pub page_before-page_ahead : (s : Screen) → page_before s ≡ page_ahead s
page_before-page_ahead Screen.home = refl
page_before-page_ahead _ = refl

current-goto : {nav : Navigation} (s : Screen) → IsBounded nav → current (goto nav s) ≡ some s
unfolding current goto
current-goto {nav} s v = get_elem?-set_self nav.stack 0 s (omega (arith, v))

page_after-eq :
    (s : Screen) → s ≢ Screen.count → of_nat ((to_nat s + 1) % screen_count) ≡ page_after s
page_after-eq Screen.count h = absurd (h refl)
page_after-eq _ h = refl

page_before-page_after : (s : Screen) → s ≢ Screen.count → page_before (page_after s) ≡ s
page_before-page_after Screen.count h = absurd (h refl)
page_before-page_after _ h = refl

page_after-page_before : (s : Screen) → s ≢ Screen.count → page_after (page_before s) ≡ s
page_after-page_before Screen.count h = absurd (h refl)
page_after-page_before _ h = refl

pub page_after-ne-count : (s : Screen) → page_after s ≢ Screen.count
page_after-ne-count Screen.home = λ e. cc
page_after-ne-count _ = λ e. cc

pub page_before-ne-count : (s : Screen) → s ≢ Screen.count → page_before s ≢ Screen.count
page_before-ne-count Screen.count h = absurd (h refl)
page_before-ne-count _ h = λ e. cc

module _ {nav : Navigation} {s : Screen} (v : IsBounded nav) (e : current nav ≡ some s) where
  pub next-current :
      s ≢ Screen.count
      → (out : Navigation) × (next nav ≡ some (out, true))
        × (current out ≡ some (page_after s))
        × (out.depth ≡ 1)
        × IsBounded out
  next-current h = (
    goto nav (page_after s),
    rw (← page_after-eq s h) (next-goto v e),
    current-goto (page_after s) v,
    unfold goto in refl,
    goto-IsBounded (page_after s) v,
  )

  pub previous-current :
      s ≢ Screen.count
      → (out : Navigation) × (previous nav ≡ some (out, true))
        × (current out ≡ some (page_before s))
        × (out.depth ≡ 1)
        × IsBounded out
  previous-current h = (
    goto nav (page_before s),
    previous-goto v e,
    current-goto (page_before s) v,
    unfold goto in refl,
    goto-IsBounded (page_before s) v,
  )

-- From a bounded stack that shows a page, `next` succeeds and `previous` then shows that page again,
-- and the other way round; each leaves one screen on the stack.
pub next-previous :
    {nav : Navigation} {s : Screen}
    → IsBounded nav
    → current nav ≡ some s
    → s ≢ Screen.count
    → ((out : Navigation) × (run (nexts ∷ previouses ∷ []) nav ≡ some out)
        × (current out ≡ some s)
        × (out.depth ≡ 1))
      × ((out : Navigation) × (run (previouses ∷ nexts ∷ []) nav ≡ some out)
          × (current out ≡ some s)
          × (out.depth ≡ 1))
unfolding run apply
next-previous {nav} {s} v e h =
    let (a, ea, ca, _, va) = next-current v e h in
    let (b, eb, cb, db, _) = previous-current va ca (page_after-ne-count s) in
    let (c, ec, cc, _, vc) = previous-current v e h in
    let (d, ed, cd, dd, _) = next-current vc cc (page_before-ne-count s h) in
    (
      (b, rw (ea, eb), rw (page_before-page_after s h) at cb, db),
      (d, rw (ec, ed), rw (page_after-page_before s h) at cd, dd),
    )

abbrev pub iterate : ℕ → Screen → Screen
iterate zero s = s
iterate (suc n) s = iterate n (page_after s)

abbrev pub swipes : ℕ → List Op
swipes zero = []
swipes (suc n) = nexts ∷ swipes n

iterate_five : (s : Screen) → s ≢ Screen.count → iterate 5 s ≡ s
iterate_five Screen.count h = absurd (h refl)
iterate_five _ h = refl

iterate_fewer : (n : ℕ) (s : Screen) → s ≢ Screen.count → 1 ≤ n → n < 5 → iterate n s ≢ s
iterate_fewer n Screen.count h lo hi = absurd (h refl)
iterate_fewer zero s h lo hi = absurd (omega arith)
iterate_fewer (suc zero) _ h lo hi = λ e. cc
iterate_fewer (suc (suc zero)) _ h lo hi = λ e. cc
iterate_fewer (suc (suc (suc zero))) _ h lo hi = λ e. cc
iterate_fewer (suc (suc (suc (suc zero)))) _ h lo hi = λ e. cc
iterate_fewer (suc (suc (suc (suc (suc n))))) s h lo hi = absurd (omega arith)

swipes-current :
    (n : ℕ) {nav : Navigation} {s : Screen}
    → IsBounded nav
    → current nav ≡ some s
    → s ≢ Screen.count
    → (out : Navigation) × (run (swipes n) nav ≡ some out) × (current out ≡ some (iterate n s))
unfolding run apply
swipes-current zero {nav} v e h = (nav, refl, e)
swipes-current (suc n) {nav} {s} v e h =
    let (a, ea, ca, _, va) = next-current v e h in
    let (b, eb, cb) = swipes-current n va ca (page_after-ne-count s) in (b, rw ea eb, cb)

-- From a bounded stack that shows a page, five calls of `next` come back to that page, and fewer
-- (one to four) show another one.
pub swipe_cycle :
    {nav : Navigation} {s : Screen}
    → IsBounded nav
    → current nav ≡ some s
    → s ≢ Screen.count
    → ((out : Navigation) × (run (swipes 5) nav ≡ some out) × (current out ≡ some s))
      × ((n : ℕ) (out : Navigation)
          → 1 ≤ n
          → n < 5
          → run (swipes n) nav ≡ some out
          → current out ≢ some s)
swipe_cycle {nav} {s} v e h = (
  (let (out, r, c) = swipes-current 5 v e h in (out, r, rw (iterate_five s h) at c)),
  λ n out lo hi r same.
      let (out', r', c) = swipes-current n v e h in iterate_fewer n s h lo hi (cc),
)
