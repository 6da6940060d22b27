-- ===== src/Cache/Checksum.antt =====
-- What the checksum detects.
use cmf_watch_pro_2_os.Base.{ℕ, ◌*◌, ◌%◌, ◌^◌, ◌<◌, ◌≡◌, refl, ◌≢◌, List, [], ◌∷◌, ◌++◌, arith}
use cmf_watch_pro_2_os.Base.Xor.{bit_xor_cancel_left, bit_xor_cancel_right, bit_xor-lt}
use cmf_watch_pro_2_os.Cache.Record.{fnv_round, fnv}

-- Every element is a byte.
abbrev pub Bytes : List ℕ → Type 0
Bytes [] = Unit {0}
Bytes (b ∷ bs) = (b < 256) × Bytes bs

-- 16777619 is odd, so the product with it can be undone modulo 2 ^ 32.
times_prime_injective :
    (x y : ℕ) → x < 2 ^ 32 → y < 2 ^ 32 → (x * 16777619) % 2 ^ 32 ≡ (y * 16777619) % 2 ^ 32 → x ≡ y
times_prime_injective x y hx hy e = omega arith

fnv_round-lt : (h b : ℕ) → fnv_round h b < 2 ^ 32
unfolding fnv_round
fnv_round-lt h b = omega arith

round_hash_injective :
    (h h' b : ℕ) → h < 2 ^ 32 → h' < 2 ^ 32 → b < 256 → fnv_round h b ≡ fnv_round h' b → h ≡ h'
unfolding fnv_round
round_hash_injective h h' b p q r e = bit_xor_cancel_right h h' b (
    times_prime_injective _ _ (bit_xor-lt 32 h b p (omega arith))
      (bit_xor-lt 32 h' b q (omega arith)) e)

round_byte_injective :
    (h b b' : ℕ) → h < 2 ^ 32 → b < 256 → b' < 256 → fnv_round h b ≡ fnv_round h b' → b ≡ b'
unfolding fnv_round
round_byte_injective h b b' p q r e = bit_xor_cancel_left h b b' (
    times_prime_injective _ _ (bit_xor-lt 32 h b p (omega arith))
      (bit_xor-lt 32 h b' p (omega arith)) e)

fnv-lt : (h : ℕ) (bs : List ℕ) → h < 2 ^ 32 → fnv h bs < 2 ^ 32
unfolding fnv
fnv-lt h [] p = p
fnv-lt h (b ∷ bs) p = fnv-lt (fnv_round h b) bs (fnv_round-lt h b)

fnv_hash_injective :
    (bs : List ℕ) (h h' : ℕ) → Bytes bs → h < 2 ^ 32 → h' < 2 ^ 32 → fnv h bs ≡ fnv h' bs → h ≡ h'
unfolding fnv
fnv_hash_injective [] h h' v p q e = e
fnv_hash_injective (b ∷ bs) h h' v p q e = round_hash_injective h h' b p q v.0 (
    fnv_hash_injective bs (fnv_round h b) (fnv_round h' b) v.1 (fnv_round-lt h b)
      (fnv_round-lt h' b) e)

fnv-append : (h : ℕ) (xs bs : List ℕ) → fnv h (xs ++ bs) ≡ fnv (fnv h xs) bs
unfolding fnv
fnv-append h [] bs = refl
fnv-append h (a ∷ xs) bs = fnv-append (fnv_round h a) xs bs

-- The hash tells apart any two byte strings that differ in exactly one byte, from every start value.
pub fnv-detects :
    (h : ℕ) (before : List ℕ) (b b' : ℕ) (after : List ℕ)
    → h < 2 ^ 32
    → b < 256
    → b' < 256
    → Bytes after
    → b ≢ b'
    → fnv h (before ++ b ∷ after) ≢ fnv h (before ++ b' ∷ after)
fnv-detects h before b b' after p q q' v ne e = ne (
    round_byte_injective (fnv h before) b b' (fnv-lt h before p) q q' (
      fnv_hash_injective after _ _ v (fnv_round-lt _ b) (fnv_round-lt _ b') (
        unfold fnv in rw (fnv-append h before (b ∷ after), fnv-append h before (b' ∷ after)) at e)))
