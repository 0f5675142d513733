-- ===== src/Transfer/Manifest/Totals.antt =====
-- `total_size` and `done_size` of a well-formed manifest.
use send_rs.Prelude.{
  ◌-◌, ◌*◌, ◌∙◌, min, String, if◌then◌else◌, u64_mod, ℕ, zero, suc, ◌+◌, ◌≤◌, ◌<◌, ◌≡◌, refl, ap,
  subst, true, List, [], ◌∷◌, map, length, All, arith, get_elem?, modify, some,
}
use mathlib.Core.Option.{some-injective}
use send_rs.Transfer.Bitmap.{get_bitmap}
use send_rs.Transfer.Manifest.{
  done_lengths, ManifestEntry, TransferManifest, is_chunk_done, total_size, entry_done_size,
  done_size,
}
use send_rs.Transfer.Manifest.Sums.{
  IsSized, IsWellFormed, total, done_from, sum-total, done_from-le, done_from_all, Covers,
  chunk_len-eq,
}

abbrev pub entry_done : ℕ → ManifestEntry → ℕ
entry_done cs e = done_from cs e 0 e.chunk_hashes

abbrev pub sizes : List ManifestEntry → ℕ
sizes es = total (map (λ (e : ManifestEntry). e.size) es)

abbrev pub done_total : ℕ → List ManifestEntry → ℕ
done_total cs es = total (map (entry_done cs) es)

entry_done-le : (cs : ℕ) (e : ManifestEntry) → IsSized cs e → entry_done cs e ≤ e.size
entry_done-le cs e s = omega (
  arith,
  done_from-le cs e 0 e.chunk_hashes (length e.chunk_hashes) (omega arith) s.covers s.in_range,
)

pub done_total-le :
    (cs : ℕ) (es : List ManifestEntry) → All (IsSized cs) es → done_total cs es ≤ sizes es
done_total-le cs [] s = omega arith
done_total-le cs (e ∷ es) s = omega (arith, entry_done-le cs e s.0, done_total-le cs es s.1)

pub entry_done_size-eq :
    (cs : ℕ) (e : ManifestEntry) → IsSized cs e → entry_done_size cs e ≡ entry_done cs e
unfolding entry_done_size
entry_done_size-eq cs e s = sum-total _ (omega (arith, entry_done-le cs e s, s.in_range))

map_done_size :
    (cs : ℕ) (es : List ManifestEntry)
    → All (IsSized cs) es
    → map (entry_done_size cs) es ≡ map (entry_done cs) es
map_done_size cs [] s = refl
map_done_size cs (e ∷ es) s = cc (entry_done_size-eq cs e s.0, map_done_size cs es s.1)

-- `total_size` of a well-formed manifest is the sum of its sizes, without wrap-around.
pub total_size-eq : (m : TransferManifest) → IsWellFormed m → total_size m ≡ sizes m.entries
unfolding total_size
total_size-eq m w = sum-total _ w.fits

-- `done_size` of a well-formed manifest is the sum of the lengths of the chunks that its code keeps.
pub done_size-done_total :
    (m : TransferManifest) → IsWellFormed m → done_size m ≡ done_total m.chunk_size m.entries
unfolding done_size
done_size-done_total m w =
    rw (map_done_size m.chunk_size m.entries w.sized)
      (sum-total _ (omega (arith, done_total-le m.chunk_size m.entries w.sized, w.fits)))

-- The bytes of a file of `size` bytes that are in the first `n` chunks and in one whose bit is set.
abbrev pub marked_bytes : ℕ → ℕ → List ℕ → ℕ → ℕ
marked_bytes cs size bitmap zero = 0
marked_bytes cs size bitmap (suc n) =
    marked_bytes cs size bitmap n + (if get_bitmap bitmap n then min (size - n * cs) cs else 0)

abbrev pub marked_total : ℕ → List ManifestEntry → ℕ
marked_total cs [] = 0
marked_total cs (e ∷ es) =
    marked_bytes cs e.size e.resume_bitmap (length e.chunk_hashes) + marked_total cs es

done_from-marked_bytes :
    (cs : ℕ) (e : ManifestEntry) (idx : ℕ) (hs : List String) (n : ℕ)
    → idx + length hs ≡ n
    → Covers n cs e.size
    → e.size < u64_mod
    → done_from cs e idx hs + marked_bytes cs e.size e.resume_bitmap idx
      ≡ marked_bytes cs e.size e.resume_bitmap n
unfolding done_lengths is_chunk_done
done_from-marked_bytes cs e idx [] n all c r =
    let at_end : idx ≡ n = omega (arith, all) in
    omega (arith, ap (marked_bytes cs e.size e.resume_bitmap) at_end)
done_from-marked_bytes cs e idx (h ∷ hs) n all c r = ground (
  arith,
  chunk_len-eq cs n e.size idx c r (omega (arith, all)),
  done_from-marked_bytes cs e (suc idx) hs n (omega (arith, all)) c r,
)

done_total-marked_total :
    (cs : ℕ) (es : List ManifestEntry) → All (IsSized cs) es → done_total cs es ≡ marked_total cs es
done_total-marked_total cs [] s = refl
done_total-marked_total cs (e ∷ es) s = omega (
  arith,
  done_from-marked_bytes cs e 0 e.chunk_hashes (length e.chunk_hashes) (omega arith) s.0.covers
      s.0.in_range,
  done_total-marked_total cs es s.1,
)

-- `done_size` of a well-formed manifest counts, for each entry and each of its chunks whose bit in the
-- bitmap is set, the bytes of the file from the chunk's offset on, at most the chunk size, and
-- nothing for the other chunks, without wrap-around.
pub done_size-eq :
    (m : TransferManifest) → IsWellFormed m → done_size m ≡ marked_total m.chunk_size m.entries
done_size-eq m w = done_size-done_total m w ∙ done_total-marked_total m.chunk_size m.entries w.sized

-- One entry that changes changes the sum by as much.
pub done_total-modify :
    (cs : ℕ) (es : List ManifestEntry) (k : ℕ) (f : ManifestEntry → ManifestEntry) (less more : ℕ)
    {e : ManifestEntry}
    → get_elem? es k ≡ some e
    → entry_done cs (f e) + less ≡ entry_done cs e + more
    → done_total cs (modify es k f) + less ≡ done_total cs es + more
done_total-modify cs [] k f less more h q = ground arith
done_total-modify cs (x ∷ es) zero f less more {e} h q =
    let same : x ≡ e = some-injective x e h in
    omega (arith, q, ap (entry_done cs) same, ap (λ (y : ManifestEntry). entry_done cs (f y)) same)
done_total-modify cs (x ∷ es) (suc k) f less more h q =
    omega (arith, done_total-modify cs es k f less more h q)

-- Where every chunk is done, all bytes are.
abbrev pub AllDone : ManifestEntry → Type 0
AllDone e = (j : ℕ) → j < length e.chunk_hashes → is_chunk_done e j ≡ true

pub done_total_all :
    (cs : ℕ) (es : List ManifestEntry)
    → All (IsSized cs) es
    → All AllDone es
    → done_total cs es ≡ sizes es
done_total_all cs [] s a = refl
done_total_all cs (e ∷ es) s a = omega (
  arith,
  done_from_all cs e 0 e.chunk_hashes (length e.chunk_hashes) (omega arith) s.0.covers s.0.in_range
      a.0,
  done_total_all cs es s.1 a.1,
)

pub sizes-modify :
    (es : List ManifestEntry) (k : ℕ) (f : ManifestEntry → ManifestEntry)
    → ((e : ManifestEntry) → (f e).size ≡ e.size)
    → sizes (modify es k f) ≡ sizes es
sizes-modify [] k f h = refl
sizes-modify (e ∷ es) zero f h = omega (arith, h e)
sizes-modify (e ∷ es) (suc k) f h = omega (arith, sizes-modify es k f h)

pub All-modify :
    (P : ManifestEntry → Type 0) (es : List ManifestEntry) (k : ℕ)
    (f : ManifestEntry → ManifestEntry)
    → ((e : ManifestEntry) → P e → P (f e))
    → All P es
    → All P (modify es k f)
All-modify P [] k f h a = tt
All-modify P (e ∷ es) zero f h a = (h e a.0, a.1)
All-modify P (e ∷ es) (suc k) f h a = (a.0, All-modify P es k f h a.1)

pub All-get :
    (P : ManifestEntry → Type 0) (es : List ManifestEntry) (k : ℕ) {e : ManifestEntry}
    → All P es
    → get_elem? es k ≡ some e
    → P e
All-get P [] k a h = absurd (ground arith)
All-get P (x ∷ es) zero {e} a h = subst P (some-injective x e h) a.0
All-get P (x ∷ es) (suc k) a h = All-get P es k a.1 h
