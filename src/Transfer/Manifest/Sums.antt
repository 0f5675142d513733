-- ===== src/Transfer/Manifest/Sums.antt =====
-- The sizes that a manifest adds up, as plain sums: no `u64` overflows in a well-formed manifest.
use send_rs.Prelude.{
  ℕ, suc, ◌+◌, ◌-◌, ◌*◌, ◌≤◌, ◌<◌, ◌≡◌, ap, true, String, List, [], ◌∷◌, map, min, wrap, u64_mod,
  length, All, arith,
}
use native.Mathlib.Nat.{mul-le-mul_right}
use mathlib.Core.List.{foldl}
use send_rs.Transfer.Bitmap.Laws.{IsBytes}
use send_rs.Transfer.Manifest.{
  ManifestEntry, TransferManifest, is_chunk_done, sum, chunk_len, done_lengths,
}

-- `k` chunks of `cs` bytes are as many as `n` bytes take.
pub record Covers (k cs n : ℕ) : Type 0 where
  pub enough : n ≤ k * cs
  pub tight : k * cs < n + cs

-- The sum with no bound.
abbrev pub total : List ℕ → ℕ
total [] = 0
total (x ∷ xs) = x + total xs

-- An entry whose chunks cover its file, and whose bitmap has a bit for each.
pub record IsSized (chunk_size : ℕ) (entry : ManifestEntry) : Type 0 where
  pub covers : Covers (length entry.chunk_hashes) chunk_size entry.size
  pub in_range : entry.size < u64_mod
  pub bytes : IsBytes entry.resume_bitmap
  pub bits : length entry.chunk_hashes ≤ 8 * length entry.resume_bitmap

pub record IsWellFormed (m : TransferManifest) : Type 0 where
  pub chunk_pos : 0 < m.chunk_size
  pub sized : All (IsSized m.chunk_size) m.entries
  pub fits : total (map (λ (e : ManifestEntry). e.size) m.entries) < u64_mod

sum_loop :
    (xs : List ℕ) (acc : ℕ)
    → acc + total xs < u64_mod
    → foldl (λ a x. wrap (a + x)) acc xs ≡ acc + total xs
sum_loop [] acc h = omega arith
sum_loop (x ∷ xs) acc h = omega (arith, sum_loop xs (wrap (acc + x)) (omega arith))

pub sum-total : (xs : List ℕ) → total xs < u64_mod → sum xs ≡ total xs
unfolding sum
sum-total xs h = omega (arith, sum_loop xs 0 (omega arith))

-- Chunk `idx` starts inside the file, so its offset does not wrap.
pub chunk_offset :
    (cs n size idx : ℕ) → Covers n cs size → size < u64_mod → idx < n → wrap (idx * cs) ≡ idx * cs
chunk_offset cs n size idx c r h =
    let step : suc idx * cs ≤ n * cs = mul-le-mul_right cs h in omega (arith, step, c.tight)

pub chunk_len-eq :
    (cs n size idx : ℕ)
    → Covers n cs size
    → size < u64_mod
    → idx < n
    → chunk_len cs size idx ≡ min (size - idx * cs) cs
unfolding chunk_len
chunk_len-eq cs n size idx c r h = rw (chunk_offset cs n size idx c r h)

-- The lengths of the chunks that are done, from `idx` on, added up.
abbrev pub done_from : ℕ → ManifestEntry → ℕ → List String → ℕ
done_from cs e idx hs = total (done_lengths cs e idx hs)

pub done_from-le :
    (cs : ℕ) (e : ManifestEntry) (idx : ℕ) (hs : List String) (n : ℕ)
    → idx + length hs ≡ n
    → Covers n cs e.size
    → e.size < u64_mod
    → done_from cs e idx hs ≤ e.size - idx * cs
unfolding done_lengths
done_from-le cs e idx [] n all c r = omega arith
done_from-le cs e idx (h ∷ hs) n all c r = ground (
  arith,
  chunk_len-eq cs n e.size idx c r (omega (arith, all)),
  done_from-le cs e (suc idx) hs n (omega (arith, all)) c r,
)

pub done_from_all :
    (cs : ℕ) (e : ManifestEntry) (idx : ℕ) (hs : List String) (n : ℕ)
    → idx + length hs ≡ n
    → Covers n cs e.size
    → e.size < u64_mod
    → ((j : ℕ) → j < n → is_chunk_done e j ≡ true)
    → done_from cs e idx hs ≡ e.size - idx * cs
unfolding done_lengths
done_from_all cs e idx [] n all c r done =
    let at_end : idx ≡ n = omega (arith, all) in
    omega (arith, c.enough, ap (λ (k : ℕ). k * cs) at_end)
done_from_all cs e idx (h ∷ hs) n all c r done = ground (
  arith,
  done idx (omega (arith, all)),
  chunk_len-eq cs n e.size idx c r (omega (arith, all)),
  done_from_all cs e (suc idx) hs n (omega (arith, all)) c r done,
)
