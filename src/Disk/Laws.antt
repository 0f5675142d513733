-- ===== src/Disk/Laws.antt =====
-- Contents of files after writes.
use send_rs.Prelude.{
  ℕ, zero, suc, ◌+◌, ◌-◌, ◌≤◌, ◌<◌, ◌≡◌, refl, ap, sym, ◌∙◌, ◌≢◌, String, some, List, [], ◌∷◌, ◌++◌,
  length, take, drop, replicate, arith, min, length-append, length-take, length-drop,
  length-replicate, eq_iff, eq_refl,
}
use native.Mathlib.Nat.{suc-add}
use mathlib.Core.List.{append-nil, append_assoc}
use send_rs.Disk.{Bytes, Files, slice, resize, write_at, store}

min-suc : (m n : ℕ) → suc (min m n) ≡ min (suc m) (suc n)
min-suc m n = omega arith

module _ {ℓ} {A : Type ℓ} where
  pub take-append : (xs ys : List A) → take (length xs) (xs ++ ys) ≡ xs
  take-append [] ys = refl
  take-append (x ∷ xs) ys = ap (x ∷◌) (take-append xs ys)

  pub take_all : (n : ℕ) (xs : List A) → length xs ≤ n → take n xs ≡ xs
  take_all zero [] h = refl
  take_all zero (x ∷ xs) h = absurd (omega arith)
  take_all (suc n) [] h = refl
  take_all (suc n) (x ∷ xs) h = ap (x ∷◌) (take_all n xs (omega arith))

  pub drop_all : (n : ℕ) (xs : List A) → length xs ≤ n → drop n xs ≡ []
  drop_all zero [] h = refl
  drop_all zero (x ∷ xs) h = absurd (omega arith)
  drop_all (suc n) [] h = refl
  drop_all (suc n) (x ∷ xs) h = drop_all n xs (omega arith)

  pub take-nil : (n : ℕ) → take {A = A} n [] ≡ []
  take-nil zero = refl
  take-nil (suc n) = refl

  pub drop-nil : (n : ℕ) → drop {A = A} n [] ≡ []
  drop-nil zero = refl
  drop-nil (suc n) = refl

  pub take-take : (m n : ℕ) (xs : List A) → take m (take n xs) ≡ take (min m n) xs
  take-take zero n xs = let e : 0 ≡ min 0 n = omega arith in ap (λ k. take k xs) e
  take-take (suc m) zero xs = let e : 0 ≡ min (suc m) 0 = omega arith in ap (λ k. take k xs) e
  take-take (suc m) (suc n) [] = sym (take-nil (min (suc m) (suc n)))
  take-take (suc m) (suc n) (x ∷ xs) =
      ap (x ∷◌) (take-take m n xs) ∙ ap (λ k. take k (x ∷ xs)) (min-suc m n)

  pub nil_of_take-nil : (n : ℕ) (xs : List A) → 0 < n → take n xs ≡ [] → xs ≡ []
  nil_of_take-nil zero xs h e = absurd (omega arith)
  nil_of_take-nil (suc n) [] h e = refl
  nil_of_take-nil (suc n) (x ∷ xs) h e = cc

  -- A longer prefix is a prefix and the next piece.
  pub take-add : (m n : ℕ) (xs : List A) → take (m + n) xs ≡ take m xs ++ take n (drop m xs)
  take-add zero n xs = ap (λ k. take k xs) (omega arith)
  take-add (suc m) n [] = rw (take-nil (suc m + n), take-nil n)
  take-add (suc m) n (x ∷ xs) = rw (suc-add m n) (ap (x ∷◌) (take-add m n xs))

  pub drop-add : (m n : ℕ) (xs : List A) → drop (m + n) xs ≡ drop n (drop m xs)
  drop-add zero n xs = ap (λ k. drop k xs) (omega arith)
  drop-add (suc m) n [] = rw (drop-nil (suc m + n), drop-nil n)
  drop-add (suc m) n (x ∷ xs) = rw (suc-add m n) (drop-add m n xs)

  pub take-append_exact : (n : ℕ) (xs ys : List A) → length xs ≡ n → take n (xs ++ ys) ≡ xs
  take-append_exact n xs ys h = rw (← h) (take-append xs ys)

  pub replicate-zero : (n : ℕ) (a : A) → n ≡ 0 → replicate n a ≡ []
  replicate-zero n a h = rw h

pub resize_within : (n : ℕ) (b : Bytes) → n ≤ length b → resize n b ≡ take n b
unfolding resize
resize_within n b h = rw (replicate-zero {A = ℕ} (n - length b) 0 (omega arith), append-nil)

pub length-resize : (n : ℕ) (b : Bytes) → length (resize n b) ≡ n
unfolding resize
length-resize n b = omega (
  arith,
  length-append (take n b) (replicate {A = ℕ} (n - length b) 0),
  length-take n b,
  length-replicate {A = ℕ} (n - length b) 0,
)

-- A write inside the file keeps its length.
pub length-write_at :
    (pos : ℕ) (buf b : Bytes) → pos + length buf ≤ length b → length (write_at pos buf b) ≡ length b
unfolding write_at
length-write_at pos buf b h = omega (
  arith,
  length-append (resize pos b) (buf ++ drop (pos + length buf) b),
  length-append buf (drop (pos + length buf) b),
  length-resize pos b,
  length-drop (pos + length buf) b,
)

-- Up to the end of a write, the file has its old prefix and then what was written.
pub take-write_at :
    (pos : ℕ) (buf b : Bytes)
    → pos ≤ length b
    → take (pos + length buf) (write_at pos buf b) ≡ take pos b ++ buf
unfolding write_at
take-write_at pos buf b h =
    rw (resize_within pos b h, ← append_assoc (take pos b) buf (drop (pos + length buf) b))
      (take-append_exact (pos + length buf) (take pos b ++ buf) (drop (pos + length buf) b)
        (omega (arith, length-append (take pos b) buf, length-take pos b)))

-- Two files that agree up to `pos` and in the next `n` bytes agree up to `pos + n`.
pub take-extend :
    (pos n : ℕ) (a b : Bytes)
    → take pos a ≡ take pos b
    → slice pos n a ≡ slice pos n b
    → take (pos + n) a ≡ take (pos + n) b
take-extend pos n a b p q = rw (take-add pos n a, take-add pos n b, p, q)

pub length-slice : (pos n : ℕ) (b : Bytes) → pos + n ≤ length b → length (slice pos n b) ≡ n
length-slice pos n b h = omega (arith, length-take n (drop pos b), length-drop pos b)

-- Writing the same piece of another file extends the agreement with it.
pub take-write_slice :
    (pos n : ℕ) (a b : Bytes)
    → pos + n ≤ length a
    → length a ≡ length b
    → take pos b ≡ take pos a
    → take (pos + n) (write_at pos (slice pos n a) b) ≡ take (pos + n) a
take-write_slice pos n a b h l p =
    ap (λ k. take (pos + k) (write_at pos (slice pos n a) b)) (sym (length-slice pos n a h))
    ∙ take-write_at pos (slice pos n a) b (omega arith)
    ∙ ap (◌++ slice pos n a) p
    ∙ sym (take-add pos n a)

-- Two paths are the same text or not.
pub store_self :
    (path : String) (bytes : Bytes) (files : Files) → store path bytes files path ≡ some bytes
store_self path bytes files = rw (eq_refl path)

pub store_ne :
    (path other : String) (bytes : Bytes) (files : Files)
    → path ≢ other
    → store path bytes files other ≡ files other
store_ne path other bytes files h = ground (arith, eq_iff path other)
