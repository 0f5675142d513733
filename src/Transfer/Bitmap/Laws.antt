-- ===== src/Transfer/Bitmap/Laws.antt =====
-- The bitmap as an array of bits.
use send_rs.Prelude.{
  ℕ, zero, suc, ◌*◌, ◌/◌, ◌%◌, ◌^◌, ◌≤◌, ◌<◌, ◌≡◌, refl, ap, ◌≢◌, Bool, false, List, [], ◌∷◌, none,
  some, arith, nat_eq, length, get_elem?, get_elem?-some, modify, replicate, All, length-modify,
  length-replicate, get_elem?-modify_self, get_elem?-modify_ne, if◌then◌else◌,
}
use Prim.Native.Nat.{bit_and-bitwise}
use native.Mathlib.Decide.{ℕ_discrete, dec_lt}
use send_rs.Transfer.Bitmap.{set_bit, test_bit, set_bitmap, get_bitmap}
use send_rs.Transfer.Bitmap.Table.{test_bit-set_bit, set_bit-lt}

-- The elements are `u8` values.
abbrev pub IsBytes : List ℕ → Type 0
IsBytes = All λ b. b < 256

pub length-set_bitmap : (bm : List ℕ) (i : ℕ) (v : Bool) → length (set_bitmap bm i v) ≡ length bm
unfolding set_bitmap
length-set_bitmap bm i v = length-modify bm (i / 8) (set_bit v (i % 8))

modify-IsBytes :
    (bm : List ℕ) (k i : ℕ) (v : Bool) → i < 8 → IsBytes bm → IsBytes (modify bm k (set_bit v i))
modify-IsBytes [] k i v h hb = tt
modify-IsBytes (b ∷ bm) zero i v h hb = (set_bit-lt b i v hb.0 h, hb.1)
modify-IsBytes (b ∷ bm) (suc k) i v h hb = (hb.0, modify-IsBytes bm k i v h hb.1)

pub set_bitmap-IsBytes : (bm : List ℕ) (i : ℕ) (v : Bool) → IsBytes bm → IsBytes (set_bitmap bm i v)
unfolding set_bitmap
set_bitmap-IsBytes bm i v hb = modify-IsBytes bm (i / 8) (i % 8) v (omega arith) hb

IsBytes-get : (bm : List ℕ) (k : ℕ) {b : ℕ} → IsBytes bm → get_elem? bm k ≡ some b → b < 256
IsBytes-get [] k hb e = ground arith
IsBytes-get (c ∷ bm) zero hb e = ground arith
IsBytes-get (c ∷ bm) (suc k) hb e = IsBytes-get bm k hb.1 e

-- Both bits in one byte.
get-set_same_byte :
    (bm : List ℕ) (i j : ℕ) (v : Bool) {b : ℕ}
    → IsBytes bm
    → get_elem? bm (i / 8) ≡ some b
    → i / 8 ≡ j / 8
    → get_bitmap (set_bitmap bm i v) j ≡ (if nat_eq i j then v else get_bitmap bm j)
unfolding get_bitmap set_bitmap
get-set_same_byte bm i j v {b} hb e q = ground (
  arith,
  get_elem?-modify_self bm (i / 8) (set_bit v (i % 8)) e,
  test_bit-set_bit b (i % 8) (j % 8) (IsBytes-get bm (i / 8) hb e) (omega arith) (omega arith) v,
)

get-set_other_byte :
    (bm : List ℕ) (i j : ℕ) (v : Bool)
    → i / 8 ≢ j / 8
    → get_bitmap (set_bitmap bm i v) j ≡ (if nat_eq i j then v else get_bitmap bm j)
unfolding get_bitmap set_bitmap
get-set_other_byte bm i j v q =
    ground (arith, get_elem?-modify_ne bm (i / 8) (j / 8) (set_bit v (i % 8)) q)

-- Writing bit `i` of a bitmap of bytes that holds it changes bit `i`, and no other.
pub get_bitmap-set_bitmap :
    (bm : List ℕ) (i j : ℕ) (v : Bool)
    → IsBytes bm
    → i < 8 * length bm
    → get_bitmap (set_bitmap bm i v) j ≡ (if nat_eq i j then v else get_bitmap bm j)
get_bitmap-set_bitmap bm i j v hb h = elim (ℕ_discrete (i / 8) (j / 8)) [
  | yes q ↦
      let (b, e) = get_elem?-some bm (i / 8) (omega arith) in get-set_same_byte bm i j v hb e q
  | no q ↦ get-set_other_byte bm i j v q
]

get_elem?-none : {A : Type 0} (xs : List A) (k : ℕ) → length xs ≤ k → get_elem? xs k ≡ none
get_elem?-none [] k h = refl
get_elem?-none (x ∷ xs) zero h = absurd (omega arith)
get_elem?-none (x ∷ xs) (suc k) h = get_elem?-none xs k (omega arith)

-- A bit past the last byte reads as not set.
pub get_bitmap_out : (bm : List ℕ) (i : ℕ) → 8 * length bm ≤ i → get_bitmap bm i ≡ false
unfolding get_bitmap
get_bitmap_out bm i h = ground (arith, get_elem?-none bm (i / 8) (omega arith))

modify_out : {A : Type 0} (xs : List A) (k : ℕ) (f : A → A) → length xs ≤ k → modify xs k f ≡ xs
modify_out [] k f h = refl
modify_out (x ∷ xs) zero f h = absurd (omega arith)
modify_out (x ∷ xs) (suc k) f h = ap (x ∷◌) (modify_out xs k f (omega arith))

-- Writing a bit past the last byte changes nothing.
set_bitmap_out : (bm : List ℕ) (i : ℕ) (v : Bool) → 8 * length bm ≤ i → set_bitmap bm i v ≡ bm
unfolding set_bitmap
set_bitmap_out bm i v h = modify_out bm (i / 8) (set_bit v (i % 8)) (omega arith)

abbrev zeros : ℕ → List ℕ
zeros n = replicate n 0

get-replicate : (n k : ℕ) → k < n → get_elem? (zeros n) k ≡ some 0
get-replicate zero k h = absurd (omega arith)
get-replicate (suc n) zero h = refl
get-replicate (suc n) (suc k) h = get-replicate n k (omega arith)

test_bit-zero : (j : ℕ) → test_bit j 0 ≡ false
unfolding test_bit
test_bit-zero j = ground (arith, bit_and-bitwise 0 (2 ^ j))

zeros_in : (n i : ℕ) → i / 8 < n → get_bitmap (zeros n) i ≡ false
unfolding get_bitmap
zeros_in n i h = ground (arith, get-replicate n (i / 8) h, test_bit-zero (i % 8))

-- A fresh bitmap has no bit set.
pub get_bitmap-zeros : (n i : ℕ) → get_bitmap (replicate n 0) i ≡ false
get_bitmap-zeros n i = elim (dec_lt (i / 8) n) [
  | yes h ↦ zeros_in n i h
  | no h ↦ get_bitmap_out (zeros n) i (omega (arith, length-replicate {A = ℕ} n 0))
]

pub replicate-IsBytes : (n : ℕ) → IsBytes (replicate n 0)
replicate-IsBytes zero = tt
replicate-IsBytes (suc n) = (omega arith, replicate-IsBytes n)
