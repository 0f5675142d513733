-- ===== src/Transfer/Execute/Shape.antt =====
-- The part of a manifest that a transfer never changes: all but the resume bitmaps.
use send_rs.Prelude.{
  ℕ, zero, suc, ◌<◌, ◌≡◌, refl, ap, some, List, [], ◌∷◌, length, map, get_elem?, modify, arith,
}
use mathlib.Core.List.{head-eq_of_cons-eq, tail-eq_of_cons-eq}
use send_rs.Transfer.Manifest.{ManifestEntry, TransferManifest, mark_chunk_done, clear_chunk_done}
use send_rs.Transfer.Execute.{Run, FileJob, change_entry, record_copied, record_lost}

-- A manifest without its resume bitmaps, which alone change during a transfer.
abbrev pub erase : ManifestEntry → ManifestEntry
erase entry = record entry { resume_bitmap = [] }

-- At one index, entries of manifests of one shape.
abbrev pub SameEntry : List ManifestEntry → List ManifestEntry → ℕ → Type 0
SameEntry es fs i =
    (e f : ManifestEntry) × (get_elem? es i ≡ some e)
    × (get_elem? fs i ≡ some f)
    × (erase e ≡ erase f)

pub same_entry :
    (es fs : List ManifestEntry) (i : ℕ)
    → map erase es ≡ map erase fs
    → i < length fs
    → SameEntry es fs i
same_entry [] [] i h below = absurd (omega arith)
same_entry [] (f ∷ fs) i h below = cc
same_entry (e ∷ es) [] i h below = cc
same_entry (e ∷ es) (f ∷ fs) zero h below = (e, f, refl, refl, head-eq_of_cons-eq h)
same_entry (e ∷ es) (f ∷ fs) (suc i) h below =
    same_entry es fs i (tail-eq_of_cons-eq h) (omega arith)

abbrev pub shape : TransferManifest → TransferManifest
shape m = record m { entries = map erase m.entries }

erase-modify :
    (es : List ManifestEntry) (i : ℕ) (f : ManifestEntry → ManifestEntry)
    → ((e : ManifestEntry) → erase (f e) ≡ erase e)
    → map erase (modify es i f) ≡ map erase es
erase-modify [] i f h = refl
erase-modify (e ∷ es) zero f h = ap (◌∷ map erase es) (h e)
erase-modify (e ∷ es) (suc i) f h = ap (erase e ∷◌) (erase-modify es i f h)

pub shape-change_entry :
    (i : ℕ) (f : ManifestEntry → ManifestEntry) (r : Run)
    → ((e : ManifestEntry) → erase (f e) ≡ erase e)
    → shape (change_entry i f r).manifest ≡ shape r.manifest
unfolding change_entry
shape-change_entry i f r h =
    ap (λ (es : List ManifestEntry). record r.manifest { entries = es })
      (erase-modify r.manifest.entries i f h)

pub shape-record_copied :
    (file : FileJob) (idx n : ℕ) (r : Run)
    → shape (record_copied file idx n r).manifest ≡ shape r.manifest
unfolding record_copied mark_chunk_done
shape-record_copied file idx n r =
    shape-change_entry file.entry_idx (mark_chunk_done idx) r (λ e. refl)

pub shape-record_lost :
    (file : FileJob) (idx n : ℕ) (r : Run)
    → shape (record_lost file idx n r).manifest ≡ shape r.manifest
unfolding record_lost clear_chunk_done
shape-record_lost file idx n r =
    shape-change_entry file.entry_idx (clear_chunk_done idx) r (λ e. refl)
