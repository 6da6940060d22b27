-- ===== src/Gesture/Symmetry.antt =====
-- The classifier on the displacements of a touch screen.
use cmf_watch_pro_2_os.Base.{
  ℕ, zero, suc, ◌+◌, ◌*◌, ◌^◌, ◌≤◌, ◌<◌, ◌≡◌, ◌↔◌, true, false, Option, none, some, arith,
}
use cmf_watch_pro_2_os.Base.Int.{ℤ, pos, negsuc, is_neg, pos_part, neg_part}
use cmf_watch_pro_2_os.Gesture.{Swipe, min_distance, swipe_classify}

abbrev pub size : ℤ → ℕ
size z = pos_part z + neg_part z

-- Far from overflow: 2 ^ 30 pixels at most either way.
abbrev pub Small : ℤ → Type 0
Small z = size z < 2 ^ 30

abbrev pub negate : ℤ → ℤ
negate (pos zero) = pos zero
negate (pos (suc n)) = negsuc n
negate (negsuc n) = pos (suc n)

-- The same gesture with the axes exchanged.
abbrev pub transpose : Swipe → Swipe
transpose Swipe.no_swipe = Swipe.no_swipe
transpose Swipe.next = Swipe.next_item
transpose Swipe.previous = Swipe.previous_item
transpose Swipe.next_item = Swipe.next
transpose Swipe.previous_item = Swipe.previous

-- The same gesture in the opposite direction.
abbrev pub reverse : Swipe → Swipe
reverse Swipe.no_swipe = Swipe.no_swipe
reverse Swipe.next = Swipe.previous
reverse Swipe.previous = Swipe.next
reverse Swipe.next_item = Swipe.previous_item
reverse Swipe.previous_item = Swipe.next_item

abbrev pub map_option : (Swipe → Swipe) → Option Swipe → Option Swipe
map_option f none = none
map_option f (some s) = some (f s)

-- One axis moved at least 50 pixels and more than twice as far as the other.
abbrev pub Decisive : ℤ → ℤ → Type 0
Decisive a b = (min_distance ≤ size a) × (size b * 2 < size a)

-- What each swipe says of the two displacements.
abbrev pub Means : Swipe → ℤ → ℤ → Type 0
Means Swipe.no_swipe dx dy = ¬ Decisive dx dy × ¬ Decisive dy dx
Means Swipe.next dx dy = Decisive dx dy × (is_neg dx ≡ true)
Means Swipe.previous dx dy = Decisive dx dy × (is_neg dx ≡ false)
Means Swipe.next_item dx dy = Decisive dy dx × (is_neg dy ≡ true)
Means Swipe.previous_item dx dy = Decisive dy dx × (is_neg dy ≡ false)

-- On displacements below 2 ^ 30 nothing overflows, and the result is the one swipe whose meaning
-- holds of them.
pub classify-Means :
    (dx dy : ℤ) (s : Swipe) → Small dx → Small dy → (swipe_classify dx dy ≡ some s) ↔ Means s dx dy
unfolding swipe_classify
classify-Means (pos a) (pos b) Swipe.no_swipe hx hy = ground arith
classify-Means (pos a) (negsuc b) Swipe.no_swipe hx hy = ground arith
classify-Means (negsuc a) (pos b) Swipe.no_swipe hx hy = ground arith
classify-Means (negsuc a) (negsuc b) _ hx hy = ground arith
classify-Means _ _ _ hx hy = ground arith

-- On displacements below 2 ^ 30, exchanging the axes exchanges the two pairs of swipes, and
-- reversing both displacements reverses the swipe.
pub classify-symmetry :
    (dx dy : ℤ)
    → Small dx
    → Small dy
    → (swipe_classify dy dx ≡ map_option transpose (swipe_classify dx dy))
      × (swipe_classify (negate dx) (negate dy) ≡ map_option reverse (swipe_classify dx dy))
unfolding swipe_classify
classify-symmetry (pos zero) (pos zero) hx hy = ground arith
classify-symmetry (pos zero) (pos (suc b)) hx hy = ground arith
classify-symmetry (pos (suc a)) (pos zero) hx hy = ground arith
classify-symmetry (pos (suc a)) (pos (suc b)) hx hy = ground arith
classify-symmetry (pos zero) (negsuc b) hx hy = ground arith
classify-symmetry (pos (suc a)) (negsuc b) hx hy = ground arith
classify-symmetry (negsuc a) (pos zero) hx hy = ground arith
classify-symmetry (negsuc a) (pos (suc b)) hx hy = ground arith
classify-symmetry (negsuc a) (negsuc b) hx hy = ground arith
