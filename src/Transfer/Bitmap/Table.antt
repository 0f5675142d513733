-- ===== src/Transfer/Bitmap/Table.antt =====
-- The laws of one byte of the bitmap, by evaluation over all bytes and bits.
use send_rs.Prelude.{
  ℕ, zero, suc, ◌<◌, ◌≡◌, refl, Bool, true, false, not, ◌&&◌, arith, ltb, nat_eq, if◌then◌else◌,
}
use send_rs.Transfer.Bitmap.{set_bit, test_bit}

-- The test passes at each of the first `count` numbers.
passes : (test : ℕ → Bool) → (count : ℕ) → Bool
passes test zero = true
passes test (suc count) = passes test count && test count

passes_at :
    (test : ℕ → Bool) (count at : ℕ) → at < count → passes test count ≡ true → test at ≡ true
unfolding passes
passes_at test zero at bound all = absurd (omega arith)
passes_at test (suc count) at bound all = ground (arith, passes_at test count at)

abbrev same : Bool → Bool → Bool
same true b = b
same false b = not b

same-eq : (a b : Bool) → same a b ≡ true → a ≡ b
same-eq true true h = refl
same-eq true false h = cc
same-eq false true h = cc
same-eq false false h = refl

-- After a write of bit `i`, bit `j` reads what was written if it is bit `i`, else what it was.
check_bits : ℕ → ℕ → ℕ → Bool
unfolding set_bit test_bit
check_bits b i j =
    (same (test_bit j (set_bit true i b)) (if nat_eq i j then true else test_bit j b)
      && same (test_bit j (set_bit false i b)) (if nat_eq i j then false else test_bit j b))
    && (ltb (set_bit true i b) 256 && ltb (set_bit false i b) 256)

check_byte : ℕ → Bool
unfolding passes check_bits
check_byte b = passes (λ i. passes (check_bits b i) 8) 8

check_all : Bool
unfolding check_byte
check_all = passes check_byte 256

check_all_lem : check_all ≡ true
unfolding check_all
check_all_lem = refl

check_bits_lem : (b i j : ℕ) → b < 256 → i < 8 → j < 8 → check_bits b i j ≡ true
unfolding check_all check_byte
check_bits_lem b i j hb hi hj = passes_at (check_bits b i) 8 j hj (
    passes_at (λ k. passes (check_bits b k) 8) 8 i hi (passes_at check_byte 256 b hb check_all_lem))

module _ (b i j : ℕ) (hb : b < 256) (hi : i < 8) (hj : j < 8) where
  pub test_bit-set_bit :
      (v : Bool) → test_bit j (set_bit v i b) ≡ (if nat_eq i j then v else test_bit j b)
  unfolding check_bits
  test_bit-set_bit true = same-eq _ _ (ground (arith, check_bits_lem b i j hb hi hj))
  test_bit-set_bit false = same-eq _ _ (ground (arith, check_bits_lem b i j hb hi hj))

pub set_bit-lt : (b i : ℕ) (v : Bool) → b < 256 → i < 8 → set_bit v i b < 256
unfolding check_bits
set_bit-lt b i true hb hi = ground (arith, check_bits_lem b i 0 hb hi (omega arith))
set_bit-lt b i false hb hi = ground (arith, check_bits_lem b i 0 hb hi (omega arith))
