-- ===== src/Renderer/Swipes.antt =====
-- A whole touch, from the press to the release.
use cmf_watch_pro_2_os.Base.{
  ◌^◌, ◌<◌, ◌≡◌, ◌≢◌, inl, inr, Option-cases, refl, ◌∙◌, ap, true, false, List, [], ◌∷◌, ◌++◌,
  Option, none, some, arith, if◌then◌else◌, ◌>>=◌, map,
}
use cmf_watch_pro_2_os.Base.Int.{ℤ, pos, negsuc, ◌-ℤ◌}
use cmf_watch_pro_2_os.Gesture.{Swipe, swipe_classify}
use cmf_watch_pro_2_os.Gesture.Symmetry.{Small, Means, classify-Means, size}
use cmf_watch_pro_2_os.Renderer.{
  Renderer, Point, TouchEvent, RendererAction, pressed, pressing, released, touch, release,
  reported, action_of, int32_difference,
}

-- A point of a display, well below 2 ^ 29 pixels.
pub record OnDisplay (p : Point) : Type 0 where
  pub right : size p.x < 2 ^ 29
  pub down : size p.y < 2 ^ 29

classify-ne-none : (dx dy : ℤ) → Small dx → Small dy → swipe_classify dx dy ≢ none
unfolding swipe_classify
classify-ne-none (pos a) (pos b) hx hy = ground arith
classify-ne-none (pos a) (negsuc b) hx hy = ground arith
classify-ne-none (negsuc a) (pos b) hx hy = ground arith
classify-ne-none (negsuc a) (negsuc b) hx hy = ground arith

classify-some : (dx dy : ℤ) → Small dx → Small dy → (s : Swipe) × (swipe_classify dx dy ≡ some s)
classify-some dx dy hx hy = elim (Option-cases (swipe_classify dx dy)) [
  | inl e ↦ absurd (classify-ne-none dx dy hx hy e)
  | inr (s, e) ↦ (s, e)
]

int32_difference-some :
    (a b : ℤ)
    → size a < 2 ^ 29
    → size b < 2 ^ 29
    → (int32_difference a b ≡ some (a -ℤ b)) × Small (a -ℤ b)
unfolding int32_difference
int32_difference-some (pos a) (pos b) h k = ground arith
int32_difference-some (pos a) (negsuc b) h k = ground arith
int32_difference-some (negsuc a) (pos b) h k = ground arith
int32_difference-some (negsuc a) (negsuc b) h k = ground arith

-- A touch that is tracked ends with the action of its swipe.
pub release-some :
    (r : Renderer) (p : Point)
    → OnDisplay r.swipe_start
    → OnDisplay p
    → (swipe : Swipe) × (release r p
        ≡ some (record r { swipe_last = p; swipe_tracking = false }, reported r (action_of swipe)))
      × Means swipe (p.x -ℤ r.swipe_start.x) (p.y -ℤ r.swipe_start.y)
unfolding release
release-some r p h k =
    let (ex, sx) = int32_difference-some p.x r.swipe_start.x k.right h.right in
    let (ey, sy) = int32_difference-some p.y r.swipe_start.y k.down h.down in
    let (swipe, e) = classify-some (p.x -ℤ r.swipe_start.x) (p.y -ℤ r.swipe_start.y) sx sy in
    (
      swipe,
      rw (ex, ey, e) refl,
      (classify-Means (p.x -ℤ r.swipe_start.x) (p.y -ℤ r.swipe_start.y) swipe sx sy).0 e,
    )

-- The list of what an option holds.
abbrev pub listed : Option RendererAction → List RendererAction
listed none = []
listed (some action) = action ∷ []

-- The events in their order, with the actions that the handler is called for.
unfoldable pub touches : List TouchEvent → Renderer → Option (Renderer × List RendererAction)
touches [] r = some (r, [])
touches (event ∷ events) r = do
  (r', action) ← touch r event
  (r'', actions) ← touches events r'
  some (r'', listed action ++ actions)

-- A finger that is put down, moved over some points and taken off.
abbrev pub gesture : Point → List Point → Point → List TouchEvent
gesture start moves end = pressed start ∷ (map pressing moves ++ released end ∷ [])

no_action :
    (o : Option (Renderer × List RendererAction)) → (o >>= λ x. some (x.0, listed none ++ x.1)) ≡ o
no_action none = refl
no_action (some x) = refl

-- A touch that is tracked, at its last point.
abbrev tracked : Renderer → Point → Renderer
tracked r last = record r { swipe_last = last; swipe_tracking = true }

-- While a touch goes on, the moves change nothing but the last point.
moves-tracked :
    (moves : List Point) (r : Renderer) (p : Point) (rest : List TouchEvent)
    → (last : Point) × (touches (map pressing moves ++ rest) (tracked r p)
        ≡ touches rest (tracked r last))
unfolding touches touch
moves-tracked [] r p rest = (p, refl)
moves-tracked (m ∷ moves) r p rest =
    let (last, e) = moves-tracked moves r m rest in
    (last, no_action (touches (map pressing moves ++ rest) (tracked r m)) ∙ e)

listed-nil : (action : Option RendererAction) → listed action ++ [] ≡ listed action
listed-nil none = refl
listed-nil (some action) = refl

-- The release alone.
touches-released :
    (r r' : Renderer) (end : Point) (action : Option RendererAction)
    → r.swipe_tracking ≡ true
    → release r end ≡ some (r', action)
    → touches (released end ∷ []) r ≡ some (r', listed action)
unfolding touches touch
touches-released r r' end action h e = rw (h, e, listed-nil action) refl

-- A finger that is put down on one point of the display and taken off on another, whatever points it
-- moves over, calls the handler at most once: for the swipe from the first point to the last, where
-- there is one. Nothing overflows, and no touch is tracked afterwards.
pub touches-gesture :
    (r : Renderer) (start : Point) (moves : List Point) (end : Point)
    → r.handled ≡ true
    → OnDisplay start
    → OnDisplay end
    → (swipe : Swipe) × (r' : Renderer) × (touches (gesture start moves end) r
        ≡ some (r', listed (action_of swipe)))
      × Means swipe (end.x -ℤ start.x) (end.y -ℤ start.y)
      × (r'.swipe_tracking ≡ false)
unfolding touches touch
touches-gesture r start moves end h hs he =
    let down = record r { swipe_start = start } in
    let (last, e) = moves-tracked moves down start (released end ∷ []) in
    let (swipe, done, means) = release-some (tracked down last) end hs he in
    let up = record down { swipe_last = end; swipe_tracking = false } in
    (
      swipe,
      up,
      no_action (touches (map pressing moves ++ released end ∷ []) (tracked down start))
          ∙ e
          ∙ touches-released (tracked down last) up end (action_of swipe) refl
              (done ∙ ap (λ b. some (up, (if b then action_of swipe else none))) h),
      means,
      refl,
    )
