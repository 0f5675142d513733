-- ===== src/Transfer/Hashing/Steady.antt =====
-- `hash_file` where every read fills its buffer: the chunks are the consecutive pieces of
-- `chunk_size` bytes, the last one possibly shorter.
use mathlib.Core.List.{foldl, append-nil, append_assoc}
use send_rs.Prelude.{
  ℕ, zero, suc, ◌+◌, ◌-◌, ◌*◌, ◌/◌, ◌≤◌, ◌<◌, ◌≡◌, refl, ap, ◌∙◌, String, some, List, [], ◌∷◌, ◌++◌,
  map, length, take, drop, arith, min, length-take, length-drop,
}
use send_rs.Exec.{ok, ◌>>=◌, with_context}
use send_rs.Disk.{Bytes, Files, content, slice, read}
use send_rs.Disk.Laws.{drop_all, take-nil}
use send_rs.Disk.Steady.{steady, open_read-steady}
use send_rs.Blake3.{Blake3}
use send_rs.Transfer.Manifest.Sums.{Covers}
use send_rs.Transfer.Hashing.{hash_loop, hash_file}

-- `k` pieces of `cs` bytes, from `pos` on.
unfoldable pub pieces : ℕ → ℕ → ℕ → Bytes → List Bytes
pieces zero cs pos bytes = []
pieces (suc k) cs pos bytes = slice pos cs bytes ∷ pieces k cs (pos + cs) bytes

pub chunks_of : ℕ → ℕ → ℕ
chunks_of cs n = (n + cs - 1) / cs

pub chunks_of-Covers : (cs n : ℕ) → 0 < cs → Covers (chunks_of cs n) cs n
unfolding chunks_of
chunks_of-Covers cs n h = record { enough = grind arith; tight = grind arith }

-- The pieces left are still as many as needed, after a piece that ends at `cs` or with the file.
still_tight :
    (k pos cs n len : ℕ)
    → pos + suc k * cs < n + cs
    → len ≡ min cs (n - pos)
    → pos + len + k * cs < n + cs
still_tight zero pos cs n len tight e = omega arith
still_tight (suc k) pos cs n len tight e = omega arith

count_bound : (k cs n : ℕ) → 0 < cs → k * cs < n + cs → k < suc n
count_bound zero cs n h tight = omega arith
count_bound (suc k) cs zero h tight = absurd (omega arith)
count_bound (suc k) cs (suc n) h tight = omega (arith, count_bound k cs n h (omega arith))

module _ {H : Type 0} (b3 : Blake3 H) (path : String) (cs : ℕ) (cs_pos : 0 < cs) (fs : Files) where
  abbrev bytes : Bytes
  bytes = content fs path

  round_end :
      (fuel pos : ℕ) (hasher : H) (hashes : List String)
      → slice pos cs bytes ≡ []
      → hash_loop b3 (suc fuel) path cs pos hasher hashes (steady fs)
        ≡ (ok (b3.finalize hasher, hashes), steady fs)
  unfolding hash_loop read ◌>>=◌ with_context
  round_end fuel pos hasher hashes e = rw e

  round_more :
      (fuel pos : ℕ) (hasher : H) (hashes : List String) (b : ℕ) (bs : Bytes)
      → slice pos cs bytes ≡ b ∷ bs
      → hash_loop b3 (suc fuel) path cs pos hasher hashes (steady fs)
        ≡ hash_loop b3 fuel path cs
            (pos + length (slice pos cs bytes))
            (b3.update hasher (slice pos cs bytes))
            (hashes ++ b3.hash (slice pos cs bytes) ∷ [])
            (steady fs)
  unfolding hash_loop read ◌>>=◌ with_context
  round_more fuel pos hasher hashes b bs e = rw e

  abbrev Ends : ℕ → ℕ → ℕ → H → List String → Type 0
  Ends fuel k pos hasher hashes = hash_loop b3 fuel path cs pos hasher hashes (steady fs) ≡ (
    ok (
      b3.finalize (foldl b3.update hasher (pieces k cs pos bytes)),
      hashes ++ map b3.hash (pieces k cs pos bytes),
    ),
    steady fs,
  )

  nonempty :
      (pos : ℕ) (xs : Bytes)
      → slice pos cs bytes ≡ xs
      → pos < length bytes
      → (b : ℕ) × (bs : Bytes) × (slice pos cs bytes ≡ b ∷ bs)
  nonempty pos [] e h =
      absurd (omega (arith, ap length e, length-take cs (drop pos bytes), length-drop pos bytes))
  nonempty pos (b ∷ bs) e h = (b, bs, e)

  -- Only the last piece may be short, and then nothing is left behind it.
  next_pieces :
      (k pos : ℕ)
      → pos < length bytes
      → pos + suc k * cs < length bytes + cs
      → pieces k cs (pos + cs) bytes ≡ pieces k cs (pos + length (slice pos cs bytes)) bytes
  unfolding pieces
  next_pieces zero pos h tight = refl
  next_pieces (suc k) pos h tight =
      let e : pos + cs ≡ pos + length (slice pos cs bytes) =
        omega (arith, length-take cs (drop pos bytes), length-drop pos bytes) in
      ap (λ p. pieces (suc k) cs p bytes) e

  loop_steady :
      (fuel k pos : ℕ) (hasher : H) (hashes : List String)
      → k < fuel
      → length bytes ≤ pos + k * cs
      → pos + k * cs < length bytes + cs
      → pos ≤ length bytes
      → Ends fuel k pos hasher hashes
  unfolding pieces
  loop_steady zero k pos hasher hashes f enough tight within = absurd (omega arith)
  loop_steady (suc fuel) zero pos hasher hashes f enough tight within = rw append-nil (
      round_end fuel pos hasher hashes
        (ap (take cs) (drop_all pos bytes (omega arith)) ∙ take-nil cs))
  loop_steady (suc fuel) (suc k) pos hasher hashes f enough tight within =
      let got = length-take cs (drop pos bytes) in
      let left = length-drop pos bytes in
      let (b, bs, e) = nonempty pos (slice pos cs bytes) refl (omega arith) in
      round_more fuel pos hasher hashes b bs e
      ∙ loop_steady fuel k (pos + length (slice pos cs bytes))
          (b3.update hasher (slice pos cs bytes)) (hashes ++ b3.hash (slice pos cs bytes) ∷ [])
          (omega arith) (omega arith)
          (still_tight k pos cs (length bytes) (length (slice pos cs bytes)) tight (omega arith))
          (omega arith)
      ∙ rw
          (
            next_pieces k pos (omega arith) tight,
            append_assoc hashes (b3.hash (slice pos cs bytes) ∷ []),
          )
          refl

  -- On a disk where every call succeeds in full, `hash_file` of a file that `k` chunks cover returns
  -- the hash of the pieces fed in a row, and each piece's hash.
  pub hash_file-steady :
      (k : ℕ) {content_of : Bytes}
      → fs path ≡ some content_of
      → Covers k cs (length bytes)
      → hash_file b3 path cs (steady fs) ≡ (
        ok (
          b3.finalize (foldl b3.update b3.new (pieces k cs 0 bytes)),
          map b3.hash (pieces k cs 0 bytes),
        ),
        steady fs,
      )
  unfolding hash_file ◌>>=◌ with_context
  hash_file-steady k h c = rw (open_read-steady fs path h) (
      loop_steady (suc (length bytes)) k 0 b3.new []
        (count_bound k cs (length bytes) cs_pos c.tight) (omega (arith, c.enough))
        (omega (arith, c.tight)) (omega arith))
