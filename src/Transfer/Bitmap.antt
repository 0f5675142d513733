-- ===== src/Transfer/Bitmap.antt =====
-- The resume bitmap of crates/transfer/src/lib.rs: one bit for each chunk, eight to a byte.
mod Table
pub mod Laws
use send_rs.Prelude.{
  ℕ, ◌-◌, ◌/◌, ◌%◌, ◌^◌, bit_and, bit_or, Bool, false, not, List, Option, none, some, nat_eq,
  get_elem?, modify, if◌then◌else◌,
}

-- `*byte |= 1 << bit_idx` and `*byte &= !(1 << bit_idx)` on a `u8`.
unfoldable pub set_bit : Bool → ℕ → ℕ → ℕ
set_bit value bit_idx byte =
    if value then bit_or byte (2 ^ bit_idx) else bit_and byte (255 - 2 ^ bit_idx)

-- `(b & (1 << bit_idx)) != 0`
unfoldable pub test_bit : ℕ → ℕ → Bool
test_bit bit_idx byte = not (nat_eq (bit_and byte (2 ^ bit_idx)) 0)

-- A bit past the last byte is left alone.
unfoldable pub set_bitmap : List ℕ → ℕ → Bool → List ℕ
set_bitmap bitmap idx value = modify bitmap (idx / 8) (set_bit value (idx % 8))

unfoldable pub get_bitmap : List ℕ → ℕ → Bool
get_bitmap bitmap idx = elim (get_elem? bitmap (idx / 8)) [
  | none ↦ false
  | some byte ↦ test_bit (idx % 8) byte
]
