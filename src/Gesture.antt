-- ===== src/Gesture.antt =====
-- watch/src/input/watch_gesture.h and watch_gesture.c: what a swipe means.
-- The numbers are int32_t; a signed overflow, which C leaves undefined, gives `none`.
pub mod Symmetry
mod Tests
use cmf_watch_pro_2_os.Base.{
  ℕ, suc, ◌*◌, ◌^◌, Bool, Option, none, some, ltb, leb, ◌&&◌, if◌then◌else◌, ◌>>=◌, false,
}
use cmf_watch_pro_2_os.Base.Int.{ℤ, pos, negsuc, is_neg}

-- `enum watch_swipe`; the first constructor is WATCH_SWIPE_NONE.
pub data Swipe : Type 0 where
  no_swipe next previous next_item previous_item : Swipe

abbrev pub min_distance : ℕ
min_distance = 50

-- A value that is not negative, as an int32_t.
abbrev int32 : ℕ → Option ℕ
int32 n = if ltb n (2 ^ 31) then some n else none

unfoldable pub magnitude : ℤ → Option ℕ
magnitude (pos n) = some n
magnitude (negsuc n) = int32 (suc n)

-- `a >= WATCH_SWIPE_MIN_DISTANCE && a > b * 2`: the product is formed only where `a` is large enough.
unfoldable pub dominates : ℕ → ℕ → Option Bool
dominates a b =
    if leb min_distance a then (int32 (b * 2) >>= λ twice. some (ltb twice a)) else some false

unfoldable pub swipe_classify : ℤ → ℤ → Option Swipe
unfolding magnitude dominates
swipe_classify delta_x delta_y = do
  horizontal ← magnitude delta_x
  vertical ← magnitude delta_y
  sideways ← dominates horizontal vertical
  if sideways then some (if is_neg delta_x then Swipe.next else Swipe.previous) else do
    upright ← dominates vertical horizontal
    if upright
        then some (if is_neg delta_y then Swipe.next_item else Swipe.previous_item)
        else some Swipe.no_swipe
