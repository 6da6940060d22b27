-- ===== src/Gesture/Tests.antt =====
-- Witnesses and runs of the gesture classifier.
use cmf_watch_pro_2_os.Base.{◌-◌, ◌^◌, ◌≡◌, refl, ◌↔◌, none, some, arith}
use cmf_watch_pro_2_os.Base.Int.{pos, negsuc}
use cmf_watch_pro_2_os.Gesture.{Swipe, swipe_classify}
use cmf_watch_pro_2_os.Gesture.Symmetry.{Means, classify-Means}

-- 80 pixels to the left and 4 down.
classify-Means_example :
    (swipe_classify (negsuc 79) (pos 4) ≡ some Swipe.next) ↔ Means Swipe.next (negsuc 79) (pos 4)
classify-Means_example = classify-Means (negsuc 79) (pos 4) Swipe.next (omega arith) (omega arith)

too_diagonal : swipe_classify (negsuc 79) (pos 41) ≡ some Swipe.no_swipe
unfolding swipe_classify
too_diagonal = refl

-- The least int32_t has no magnitude.
overflows : swipe_classify (negsuc (2 ^ 31 - 1)) (pos 0) ≡ none
unfolding swipe_classify
overflows = refl
