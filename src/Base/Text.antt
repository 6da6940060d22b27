-- ===== src/Base/Text.antt =====
-- Texts as lists of bytes: what a C string holds before its terminator.
use Prim.Native.Nat.{ℕ, zero, suc, ◌-◌}
use Prim.Native.Char.{code}
use Prim.Native.String.{String}
use mathlib.Core.Path.{◌≡◌}
use mathlib.Core.Logic.{◌↔◌}
use mathlib.Core.Bool.{Bool, true, false, ◌&&◌}
use mathlib.Core.List.{List, [], ◌∷◌}
use native.Mathlib.Omega.{arith}
use cmf_watch_pro_2_os.Base.Tests.{◌==◌}
use cmf_watch_pro_2_os.Base.Lists.{take}

-- The bytes of an ASCII literal.
abbrev pub codes : String → List ℕ
codes String.[] = []
codes (String.◌∷◌ c s) = code c ∷ codes s

-- `span_equal`: the lengths agree and `memcmp` finds no difference.
unfoldable pub span_equal : List ℕ → List ℕ → Bool
span_equal [] [] = true
span_equal (a ∷ s) (b ∷ t) = a == b && span_equal s t
span_equal _ _ = false

pub span_equal_iff : (s t : List ℕ) → (span_equal s t ≡ true) ↔ (s ≡ t)
unfolding span_equal
span_equal_iff [] [] = ground arith
span_equal_iff [] (b ∷ t) = ground arith
span_equal_iff (a ∷ s) [] = ground arith
span_equal_iff (a ∷ s) (b ∷ t) = ground (arith, span_equal_iff s t)

-- `strncpy(d, s, capacity - 1)` with the terminator written at `capacity - 1`.
abbrev pub copy_text : ℕ → List ℕ → List ℕ
copy_text capacity source = take (capacity - 1) source

-- What a C string reads of an array that holds these bytes and then a terminator.
abbrev pub c_string : List ℕ → List ℕ
c_string [] = []
c_string (b ∷ s) = elim b [ zero ↦ [] | suc k ↦ suc k ∷ c_string s ]
