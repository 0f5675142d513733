-- ===== src/Transfer/Hashing/Digest.antt =====
-- What `hash_file` returns, whatever pieces the reads come in.
use mathlib.Core.List.{foldl, flatten, foldl-append, append-nil, append_assoc, map-append}
use Prim.Native.String.{◌++◌ as ◌<>◌}
use send_rs.Prelude.{
  ℕ, zero, suc, ◌+◌, ◌≤◌, ◌<◌, ◌≡◌, refl, true, ap, sym, ◌∙◌, String, List, [], ◌∷◌, ◌++◌, map,
  length, take, drop, All, arith, length-take, length-drop,
}
use send_rs.Exec.{IsSystem, Error, ◌>>=◌}
use send_rs.Exec.Rules.{After, returned, bind_context-After, After-mono}
use send_rs.Disk.{Bytes, Files, Disk, content, exists, slice, read, open_read}
use send_rs.Disk.Laws.{take-add, take_all}
use send_rs.Disk.Calls.{open_read-After, read-After}
use send_rs.Blake3.{Blake3, IsStreaming}
use send_rs.Transfer.Hashing.{hash_loop, hash_file}

take-length-take : (k : ℕ) (xs : Bytes) → take (length (take k xs)) xs ≡ take k xs
take-length-take zero xs = refl
take-length-take (suc k) [] = refl
take-length-take (suc k) (x ∷ xs) = ap (x ∷◌) (take-length-take k xs)

-- A piece that was read ends inside the file and joins what was read before.
piece_bounds :
    (pos k : ℕ) (x c : Bytes)
    → x ≡ take k (drop pos c)
    → pos ≤ length c
    → (pos + length x ≤ length c) × (length x ≤ k) × (take (pos + length x) c ≡ take pos c ++ x)
piece_bounds pos k x c e h = (
  omega (arith, ap length e, length-take k (drop pos c), length-drop pos c),
  omega (arith, ap length e, length-take k (drop pos c)),
  take-add pos (length x) c
      ∙ ap (take pos c ++◌) (
          ap (λ (y : Bytes). take (length y) (drop pos c)) e
          ∙ take-length-take k (drop pos c)
          ∙ sym e),
)

drop-nil_le : (pos : ℕ) (c : Bytes) → drop pos c ≡ [] → length c ≤ pos
drop-nil_le pos c e = omega (arith, ap length e, length-drop pos c)

flatten-snoc : (parts : List Bytes) (x : Bytes) → flatten (parts ++ x ∷ []) ≡ flatten parts ++ x
unfolding flatten
flatten-snoc [] x = append-nil x
flatten-snoc (y ∷ parts) x =
    ap (y ++◌) (flatten-snoc parts x) ∙ sym (append_assoc y (flatten parts) x)

All-snoc :
    (P : Bytes → Type 0) (parts : List Bytes) (x : Bytes)
    → All P parts
    → P x
    → All P (parts ++ x ∷ [])
All-snoc P [] x h p = (p, tt)
All-snoc P (y ∷ parts) x h p = (h.0, All-snoc P parts x h.1 p)

abbrev pub IsPiece : ℕ → Bytes → Type 0
IsPiece chunk_size piece = (0 < length piece) × (length piece ≤ chunk_size)

module _ {H : Type 0} (b3 : Blake3 H) where
  -- The bytes were hashed in pieces of at most `chunk_size` bytes, none empty.
  pub record Digest (chunk_size : ℕ) (bytes : Bytes) (r : String × List String) : Type 0 where
    pub parts : List Bytes
    pub joined : flatten parts ≡ bytes
    pub pieces : All (IsPiece chunk_size) parts
    pub file : r.0 ≡ b3.finalize (foldl b3.update b3.new parts)
    pub chunks : r.1 ≡ map b3.hash parts

  module _ (path : String) (cs : ℕ) (cs_pos : 0 < cs) (fs : Files) where
    abbrev Done : String × List String → Disk → Type 0
    Done r e = Digest cs (content fs path) r × (e.files ≡ fs)

    abbrev Broken : Error → Disk → Type 0
    Broken x e = IsSystem x × (e.files ≡ fs)

    -- The rest of the loop, for any pieces hashed so far.
    abbrev LoopDone : ℕ → Type 0
    LoopDone fuel =
        (pos : ℕ) (parts : List Bytes) (d : Disk)
        → d.files ≡ fs
        → length (content fs path) < pos + fuel
        → pos ≤ length (content fs path)
        → flatten parts ≡ take pos (content fs path)
        → All (IsPiece cs) parts
        → After Done Broken
            (hash_loop b3 fuel path cs pos (foldl b3.update b3.new parts) (map b3.hash parts) d)

    hash_loop-Done : (fuel : ℕ) → LoopDone fuel
    unfolding hash_loop
    hash_loop-Done zero pos parts d same enough within joined pieces = absurd (omega arith)
    hash_loop-Done (suc fuel) pos parts d same enough within joined pieces =
        bind_context-After "read file chunk" (read path pos cs) _ d (read-After d path pos cs)
          (λ x e h. (h.0, h.1 ∙ same))
          (elim [
            | [] ↦ λ e q. returned _ _ (
              record {
                parts = parts;
                joined =
                    joined
                    ∙ take_all pos (content fs path)
                        (drop-nil_le pos (content fs path) (rw same at q.3 refl cs_pos));
                pieces = pieces;
                file = refl;
                chunks = refl;
              },
              q.4 ∙ same,
            )
            | b ∷ bs ↦ λ e q.
                let bounds =
                  piece_bounds pos q.0 (b ∷ bs) (content fs path)
                    (q.2 ∙ ap (λ (f : Files). slice pos q.0 (content f path)) same) within in
                let small : length (b ∷ bs) ≤ cs = omega (arith, bounds.1, q.1) in
                rw
                  (
                    foldl-append b3.update b3.new parts ((b ∷ bs) ∷ []),
                    map-append b3.hash parts ((b ∷ bs) ∷ []),
                  )
                  at
                  (hash_loop-Done fuel (pos + length (b ∷ bs)) (parts ++ (b ∷ bs) ∷ []) e
                    (q.4 ∙ same) (omega arith) bounds.0
                    (flatten-snoc parts (b ∷ bs) ∙ ap (◌++ (b ∷ bs)) joined ∙ sym bounds.2)
                    (All-snoc (IsPiece cs) parts (b ∷ bs) pieces (omega arith, small)))
          ])

  -- For a positive chunk size, whatever the reads return: `hash_file` ends. It fails with an error that
  -- the operating system reported, or the file is there, and all of its bytes were hashed, in pieces of
  -- at most the chunk size and none empty; the chunk hashes are those of the pieces, in order. It
  -- changes no file.
  pub hash_file-Digest :
      (path : String) (cs : ℕ) (d : Disk)
      → 0 < cs
      → After
          (λ r e.
            Digest cs (content d.files path) r × (exists d.files path ≡ true) × (e.files ≡ d.files))
          (λ x e. IsSystem x × (e.files ≡ d.files))
          (hash_file b3 path cs d)
  unfolding hash_file flatten ◌>>=◌
  hash_file-Digest path cs d h =
      bind_context-After ("open file " <> path) (open_read path) _ d (open_read-After d path)
        (λ x e k. k)
        (λ u e k.
          After-mono
            (hash_loop-Done path cs h d.files (suc (length (content e.files path))) 0 [] e k.1
              (omega (arith, ap (λ (f : Files). length (content f path)) k.1)) (omega arith) refl
              tt)
            (λ r w q. (q.0, k.0, q.1)) (λ x w q. q))

  -- The file hash is the hash of the file's bytes.
  pub Digest-file :
      {chunk_size : ℕ} {bytes : Bytes} {r : String × List String}
      → IsStreaming b3
      → Digest chunk_size bytes r
      → r.0 ≡ b3.hash bytes
  Digest-file law g = g.file ∙ law.streams g.parts ∙ ap b3.hash g.joined
