-- ===== src/Transfer/Execute/Success/Source.antt =====
-- The entries that `build_entry` of crates/transfer/src/lib.rs makes on a steady disk.
use mathlib.Core.List.{foldl}
use mathlib.Core.Option.{get_or}
use mathlib.Core.Bool.{◌&&◌}
use send_rs.Prelude.{
  ℕ, zero, suc, ◌+◌, ◌<◌, ◌≡◌, refl, ap, sym, ◌∙◌, subst, Bool, true, false, String, Option, some,
  List, [], ◌∷◌, length, map, arith, length-map, length-replicate, replicate, ◌==◌, u64_mod,
  eq_refl, eq_iff, ◌≢◌, Bool-cases, inl, inr,
}
use send_rs.Exec.{ok, ◌>>=◌, with_context}
use send_rs.Exec.Rules.{After-ok}
use send_rs.Disk.{Bytes, Files, content}
use send_rs.Disk.Steady.{steady, open_read-steady}
use send_rs.Paths.{join}
use send_rs.Blake3.{Blake3, IsStreaming}
use send_rs.Transfer.Bitmap.Laws.{get_bitmap-zeros, replicate-IsBytes}
use send_rs.Transfer.Manifest.{ℤ, ManifestEntry, is_chunk_done}
use send_rs.Transfer.Manifest.Sums.{Covers, IsSized}
use send_rs.Transfer.Hashing.{build_entry, verify_entry, div_ceil_8, hash_file, texts_eq}
use send_rs.Transfer.Hashing.Steady.{pieces, chunks_of, chunks_of-Covers, hash_file-steady}
use send_rs.Transfer.Hashing.Digest.{hash_file-Digest, Digest-file}
use send_rs.Transfer.Execute.Fresh.{content-some}
use send_rs.Transfer.Execute.Success.{IsIntact}

length-pieces : (k cs pos : ℕ) (a : Bytes) → length (pieces k cs pos a) ≡ k
unfolding pieces
length-pieces zero cs pos a = refl
length-pieces (suc k) cs pos a = ap suc (length-pieces k cs (pos + cs) a)

module _ {H : Type 0} (b3 : Blake3 H) (law : IsStreaming b3) (modified : String → Option ℤ)
    (path relative_path : String) (cs : ℕ) (fs : Files) (a : Bytes) (there : fs path ≡ some a)
    (cs_pos : 0 < cs) (fits : length a < u64_mod) where
  abbrev count : ℕ
  count = chunks_of cs (length a)

  abbrev parts : List Bytes
  parts = pieces count cs 0 a

  bytes : content fs path ≡ a
  bytes = content-some fs path a there

  hashed : hash_file b3 path cs (steady fs) ≡ (ok (b3.hash a, map b3.hash parts), steady fs)
  hashed =
      subst (λ h. hash_file b3 path cs (steady fs) ≡ (ok (h, map b3.hash parts), steady fs)) whole
        pieced
    where
      pieced :
          hash_file b3 path cs (steady fs)
          ≡ (ok (b3.finalize (foldl b3.update b3.new parts), map b3.hash parts), steady fs)
      pieced =
          hash_file-steady b3 path cs cs_pos fs count there (
            subst (λ x. Covers count cs (length x)) (sym bytes)
              (chunks_of-Covers cs (length a) cs_pos))
          ∙ ap
              (λ x. (
                ok (
                  b3.finalize (foldl b3.update b3.new (pieces count cs 0 x)),
                  map b3.hash (pieces count cs 0 x),
                ),
                steady fs,
              ))
              bytes

      whole : b3.finalize (foldl b3.update b3.new parts) ≡ b3.hash a
      whole =
          Digest-file b3 law (After-ok (hash_file-Digest b3 path cs (steady fs) cs_pos) pieced).0
          ∙ ap b3.hash bytes

  abbrev built : ManifestEntry
  built = record {
    relative_path = relative_path;
    size = length a;
    modified_unix = get_or (modified path) (ℤ.pos 0);
    file_hash = b3.hash a;
    chunk_hashes = map b3.hash parts;
    resume_bitmap = replicate (div_ceil_8 (length (map b3.hash parts))) 0;
  }

  build_entry-steady :
      build_entry b3 modified path relative_path cs (steady fs) ≡ (ok built, steady fs)
  unfolding build_entry ◌>>=◌ with_context
  build_entry-steady = rw (open_read-steady fs path there, hashed, bytes) refl

  same_count : length (map b3.hash parts) ≡ count
  same_count = length-map parts b3.hash ∙ length-pieces count cs 0 a

  built-IsIntact : IsIntact b3 cs built a
  unfolding is_chunk_done
  built-IsIntact = record {
    size = refl;
    chunks = ap (λ k. map b3.hash (pieces k cs 0 a)) (sym same_count);
    whole = refl;
    unset = λ j. get_bitmap-zeros (div_ceil_8 (length (map b3.hash parts))) j;
  }

  built-IsSized : IsSized cs built
  built-IsSized = record {
    covers =
        subst (λ k. Covers k cs (length a)) (sym same_count)
          (chunks_of-Covers cs (length a) cs_pos);
    in_range = fits;
    bytes = replicate-IsBytes (div_ceil_8 (length (map b3.hash parts)));
    bits = omega (arith, length-replicate {A = ℕ} (div_ceil_8 (length (map b3.hash parts))) 0);
  }

-- The entry that is built of a file on a steady disk is one whose chunks cover the file and whose
-- bitmap has room for them; it has the file's size and hashes, and no chunk is marked.
pub build_entry-IsIntact :
    {H : Type 0} (b3 : Blake3 H) (modified : String → Option ℤ) (path relative_path : String)
    (cs : ℕ) (fs : Files) (a : Bytes)
    → IsStreaming b3
    → fs path ≡ some a
    → 0 < cs
    → length a < u64_mod
    → (e : ManifestEntry) × (build_entry b3 modified path relative_path cs (steady fs)
        ≡ (ok e, steady fs))
      × (e.relative_path ≡ relative_path)
      × IsSized cs e
      × IsIntact b3 cs e a
build_entry-IsIntact b3 modified path relative_path cs fs a law there pos fits = (
  built b3 law modified path relative_path cs fs a there pos fits,
  build_entry-steady b3 law modified path relative_path cs fs a there pos fits,
  refl,
  built-IsSized b3 law modified path relative_path cs fs a there pos fits,
  built-IsIntact b3 law modified path relative_path cs fs a there pos fits,
)

texts_eq_refl : (xs : List String) → texts_eq xs xs ≡ true
texts_eq_refl [] = refl
texts_eq_refl (x ∷ xs) = ground (arith, eq_refl x, texts_eq_refl xs)

-- An entry that was built of a file, and is verified later when the file has other bytes or the
-- same, on a steady disk: the check passes if the bytes are the same, and fails if their hashes
-- differ.
pub verify_entry-build_entry :
    {H : Type 0} (b3 : Blake3 H) (modified : String → Option ℤ) (root relative_path : String)
    (cs : ℕ) (fs later : Files) (a b : Bytes)
    → IsStreaming b3
    → fs (join root relative_path) ≡ some a
    → later (join root relative_path) ≡ some b
    → 0 < cs
    → length a < u64_mod
    → length b < u64_mod
    → (e : ManifestEntry) × (same : Bool) × (build_entry b3 modified
          (join root relative_path)
          relative_path
          cs
          (steady fs)
        ≡ (ok e, steady fs))
      × (verify_entry b3 modified root e cs (steady later) ≡ (ok same, steady later))
      × (a ≡ b → same ≡ true)
      × (b3.hash a ≢ b3.hash b → same ≡ false)
unfolding verify_entry ◌>>=◌
verify_entry-build_entry b3 modified root relative_path cs fs later a b law there now pos fits
      fits' =
    let e = built b3 law modified (join root relative_path) relative_path cs fs a there pos fits in
    let again =
      built b3 law modified (join root relative_path) relative_path cs later b now pos fits' in
    (
      e,
      again.file_hash == e.file_hash && texts_eq again.chunk_hashes e.chunk_hashes,
      build_entry-steady b3 law modified (join root relative_path) relative_path cs fs a there pos
          fits,
      rw
          (build_entry-steady b3 law modified (join root relative_path) relative_path cs later b now
            pos fits')
          refl,
      (λ same. unchanged same),
      (λ differ. changed differ),
    )
  where
    hashes : Bytes → List String
    hashes x = map b3.hash (pieces (chunks_of cs (length x)) cs 0 x)

    unchanged : a ≡ b → (b3.hash b == b3.hash a && texts_eq (hashes b) (hashes a)) ≡ true
    unchanged same =
        subst (λ x. (b3.hash x == b3.hash a && texts_eq (hashes x) (hashes a)) ≡ true) same
          (rw (eq_refl (b3.hash a)) (texts_eq_refl (hashes a)))

    changed :
        b3.hash a ≢ b3.hash b → (b3.hash b == b3.hash a && texts_eq (hashes b) (hashes a)) ≡ false
    changed differ = elim (Bool-cases (b3.hash b == b3.hash a)) [
      | inl yes_same ↦ absurd (differ (sym ((eq_iff _ _).0 yes_same)))
      | inr no_same ↦ rw no_same refl
    ]
