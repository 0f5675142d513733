-- ===== src/Transfer/Manifest/Marks.antt =====
-- What one written bit of the resume bitmap changes in the sums of a manifest.
use send_rs.Prelude.{
  ℕ, suc, ◌+◌, ◌≤◌, ◌<◌, ◌≡◌, refl, ap, true, false, String, List, [], ◌∷◌, length, nat_eq, arith,
  if◌then◌else◌,
}
use native.Mathlib.Decide.{ℕ_discrete}
use send_rs.Transfer.Bitmap.Laws.{get_bitmap-set_bitmap, length-set_bitmap, set_bitmap-IsBytes}
use send_rs.Transfer.Manifest.{
  ManifestEntry, mark_chunk_done, clear_chunk_done, is_chunk_done, chunk_len, done_lengths,
}
use send_rs.Transfer.Manifest.Sums.{IsSized, done_from}

-- Writing the bit of chunk `i` changes that chunk's mark, and no other.
pub done-mark :
    (cs : ℕ) (e : ManifestEntry) (i j : ℕ)
    → IsSized cs e
    → i < length e.chunk_hashes
    → is_chunk_done (mark_chunk_done i e) j ≡ (if nat_eq i j then true else is_chunk_done e j)
unfolding is_chunk_done mark_chunk_done
done-mark cs e i j s h =
    get_bitmap-set_bitmap e.resume_bitmap i j true s.bytes (omega (arith, s.bits))

pub done-clear :
    (cs : ℕ) (e : ManifestEntry) (i j : ℕ)
    → IsSized cs e
    → i < length e.chunk_hashes
    → is_chunk_done (clear_chunk_done i e) j ≡ (if nat_eq i j then false else is_chunk_done e j)
unfolding is_chunk_done clear_chunk_done
done-clear cs e i j s h =
    get_bitmap-set_bitmap e.resume_bitmap i j false s.bytes (omega (arith, s.bits))

-- Two entries of one size that agree on the marks from `idx` on.
done_from-congr :
    (cs : ℕ) (e f : ManifestEntry) (idx : ℕ) (hs : List String)
    → f.size ≡ e.size
    → ((j : ℕ) → idx ≤ j → is_chunk_done f j ≡ is_chunk_done e j)
    → done_from cs f idx hs ≡ done_from cs e idx hs
unfolding done_lengths
done_from-congr cs e f idx [] z same = refl
done_from-congr cs e f idx (h ∷ hs) z same = ground (
  arith,
  same idx (omega arith),
  ap (λ (n : ℕ). chunk_len cs n idx) z,
  done_from-congr cs e f (suc idx) hs z (λ j above. same j (omega arith)),
)

-- One more mark adds its chunk's length.
pub done_from_more :
    (cs : ℕ) (e f : ManifestEntry) (i idx : ℕ) (hs : List String)
    → f.size ≡ e.size
    → is_chunk_done e i ≡ false
    → ((j : ℕ) → is_chunk_done f j ≡ (if nat_eq i j then true else is_chunk_done e j))
    → idx ≤ i
    → i < idx + length hs
    → done_from cs f idx hs ≡ done_from cs e idx hs + chunk_len cs e.size i
unfolding done_lengths
done_from_more cs e f i idx [] z unset flips above below = absurd (omega arith)
done_from_more cs e f i idx (h ∷ hs) z unset flips above below = elim (ℕ_discrete i idx) [
  | yes p ↦ ground (
    arith,
    flips idx,
    unset,
    ap (is_chunk_done e) p,
    ap (chunk_len cs e.size) p,
    ap (λ (n : ℕ). chunk_len cs n idx) z,
    done_from-congr cs e f (suc idx) hs z (λ j after. ground (arith, flips j)),
  )
  | no p ↦ ground (
    arith,
    flips idx,
    ap (λ (n : ℕ). chunk_len cs n idx) z,
    done_from_more cs e f i (suc idx) hs z unset flips (omega arith) (omega arith),
  )
]

pub mark-IsSized :
    (cs : ℕ) (e : ManifestEntry) (i : ℕ) → IsSized cs e → IsSized cs (mark_chunk_done i e)
unfolding mark_chunk_done
mark-IsSized cs e i s = record {
  covers = s.covers;
  in_range = s.in_range;
  bytes = set_bitmap-IsBytes e.resume_bitmap i true s.bytes;
  bits = omega (arith, length-set_bitmap e.resume_bitmap i true, s.bits);
}

pub clear-IsSized :
    (cs : ℕ) (e : ManifestEntry) (i : ℕ) → IsSized cs e → IsSized cs (clear_chunk_done i e)
unfolding clear_chunk_done
clear-IsSized cs e i s = record {
  covers = s.covers;
  in_range = s.in_range;
  bytes = set_bitmap-IsBytes e.resume_bitmap i false s.bytes;
  bits = omega (arith, length-set_bitmap e.resume_bitmap i false, s.bits);
}

-- Marking a chunk of a sized entry that is not done adds its length to what is done of the entry.
pub mark-adds :
    (cs : ℕ) (e : ManifestEntry) (i : ℕ)
    → IsSized cs e
    → i < length e.chunk_hashes
    → is_chunk_done e i ≡ false
    → done_from cs (mark_chunk_done i e) 0 e.chunk_hashes
      ≡ done_from cs e 0 e.chunk_hashes + chunk_len cs e.size i
unfolding mark_chunk_done
mark-adds cs e i s h unset =
    done_from_more cs e (mark_chunk_done i e) i 0 e.chunk_hashes refl unset
      (λ j. done-mark cs e i j s h) (omega arith) (omega arith)

restored :
    (cs : ℕ) (e : ManifestEntry) (i j : ℕ)
    → IsSized cs e
    → i < length e.chunk_hashes
    → is_chunk_done e i ≡ true
    → is_chunk_done e j ≡ (if nat_eq i j then true else is_chunk_done (clear_chunk_done i e) j)
restored cs e i j s h set = elim (ℕ_discrete i j) [
  | yes p ↦ ground (arith, set, ap (is_chunk_done e) p)
  | no p ↦ ground (arith, done-clear cs e i j s h)
]

-- Taking back the mark of a chunk of a sized entry that is done subtracts its length from what is
-- done of the entry.
pub clear-subtracts :
    (cs : ℕ) (e : ManifestEntry) (i : ℕ)
    → IsSized cs e
    → i < length e.chunk_hashes
    → is_chunk_done e i ≡ true
    → done_from cs e 0 e.chunk_hashes
      ≡ done_from cs (clear_chunk_done i e) 0 e.chunk_hashes + chunk_len cs e.size i
unfolding clear_chunk_done
clear-subtracts cs e i s h set =
    done_from_more cs (clear_chunk_done i e) e i 0 e.chunk_hashes refl
      (ground (arith, done-clear cs e i i s h)) (λ j. restored cs e i j s h set) (omega arith)
      (omega arith)
