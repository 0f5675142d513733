-- ===== src/Transfer/Tests/Resume.antt =====
-- A transfer that fails halfway and is run again, at concrete inputs.
use Prim.Native.Char.{code}
use send_rs.Prelude.{
  ℕ, zero, suc, arith, get_elem?, ap, ◌≡◌, refl, String, none, some, List, [], ◌∷◌, ◌++◌, ◌<◌,
  replicate,
}
use mathlib.Core.Path.{ap₂}
use send_rs.Exec.{ok}
use send_rs.Blake3.{Blake3, IsStreaming}
use send_rs.Disk.{Bytes, Outcome}
use send_rs.Disk.Steady.{steady}
use send_rs.Transfer.Bitmap.Laws.{get_bitmap-zeros}
use send_rs.Transfer.Manifest.{ManifestEntry, TransferReport, is_chunk_done}
use send_rs.Transfer.Manifest.Sums.{IsWellFormed}
use send_rs.Transfer.Hashing.Steady.{pieces}
use send_rs.Transfer.Execute.{Run, execute_local_transfer}
use send_rs.Transfer.Execute.Success.{IsIntact, IsIntact-IsCopyable, IsReady, from, to}
use send_rs.Transfer.Execute.Success.Resume.{first, execute_local_transfer_resumes}
use send_rs.Transfer.Tests.{disk_files, json, toy-streams}
use send_rs.Transfer.Tests.Success.{json-Writes, a_txt, of_a_txt, answering, job_for, ready_for}

-- A hash that no two texts share: the bytes as strokes.
strokes : ℕ → String → String
strokes zero s = String.◌∷◌ "," s
strokes (suc n) s = String.◌∷◌ "1" (strokes n s)

unfoldable tally_text : Bytes → String
unfolding strokes
tally_text [] = String.[]
tally_text (b ∷ bs) = strokes b (tally_text bs)

head_code : String → ℕ
head_code String.[] = 0
head_code (String.◌∷◌ c s) = code c

tail : String → String
tail String.[] = String.[]
tail (String.◌∷◌ c s) = s

strokes_some : (n : ℕ) (s : String) → 0 < head_code (strokes n s)
unfolding strokes head_code
strokes_some zero s = omega arith
strokes_some (suc n) s = omega arith

strokes_injective : (m n : ℕ) (s t : String) → strokes m s ≡ strokes n t → (m ≡ n) × (s ≡ t)
unfolding strokes head_code tail
strokes_injective zero zero s t h = (refl, ap tail h)
strokes_injective zero (suc n) s t h = absurd (omega (arith, ap head_code h))
strokes_injective (suc m) zero s t h = absurd (omega (arith, ap head_code h))
strokes_injective (suc m) (suc n) s t h =
    let (same, rest) = strokes_injective m n s t (ap tail h) in (ap suc same, rest)

tally_injective : (a b : Bytes) → tally_text a ≡ tally_text b → a ≡ b
unfolding tally_text head_code
tally_injective [] [] h = refl
tally_injective [] (b ∷ bs) h =
    absurd (omega (arith, ap head_code h, strokes_some b (tally_text bs)))
tally_injective (a ∷ xs) [] h =
    absurd (omega (arith, ap head_code h, strokes_some a (tally_text xs)))
tally_injective (a ∷ xs) (b ∷ bs) h =
    let (same, rest) = strokes_injective a b (tally_text xs) (tally_text bs) h in
    ap₂ ◌∷◌ same (tally_injective xs bs rest)

abbrev tally : Blake3 Bytes
tally = record {
  hash = tally_text;
  new = [];
  update = λ h piece. h ++ piece;
  finalize = tally_text;
}

tally-IsStreaming : IsStreaming tally
tally-IsStreaming = record { streams = λ parts. ap tally_text (toy-streams parts) }

abbrev bytes : Bytes
bytes = 1 ∷ 2 ∷ 3 ∷ 4 ∷ 5 ∷ []

abbrev file_hash : String
file_hash = tally_text bytes

abbrev chunk_hashes : List String
chunk_hashes = tally_text (1 ∷ 2 ∷ []) ∷ tally_text (3 ∷ 4 ∷ []) ∷ tally_text (5 ∷ []) ∷ []

tally-IsIntact : IsIntact tally 2 (a_txt file_hash chunk_hashes) bytes
unfolding pieces is_chunk_done
tally-IsIntact = record {
  size = refl;
  chunks = refl;
  whole = refl;
  unset = λ j. get_bitmap-zeros 1 j;
}

formed : IsWellFormed (of_a_txt file_hash chunk_hashes)
formed = record {
  chunk_pos = omega arith;
  sized = (
    record {
      covers = record { enough = omega arith; tight = omega arith };
      in_range = omega arith;
      bytes = (omega arith, tt);
      bits = omega arith;
    },
    tt,
  );
  fits = omega arith;
}

-- The first run: ten calls succeed, and then there is no room left.
abbrev answers : List Outcome
answers = replicate 10 Outcome.full ++ replicate 90 (Outcome.fail 1)

ready :
    IsReady tally
      (job_for tally file_hash chunk_hashes answers)
      (of_a_txt file_hash chunk_hashes)
      disk_files
ready =
    ready_for tally file_hash chunk_hashes answers formed
      (IsIntact-IsCopyable tally 2 (a_txt file_hash chunk_hashes) bytes tally-IsIntact)

execute_local_transfer_resumes_example :
    (report : TransferReport) × (t : Run) × (execute_local_transfer tally json "/src" "/out" none 3
        (steady
          (first tally tally-IsStreaming json "/src" "/out" none 3
            (answering answers)
            (of_a_txt file_hash chunk_hashes)).disk.files)
        (first tally tally-IsStreaming json "/src" "/out" none 3
          (answering answers)
          (of_a_txt file_hash chunk_hashes)).manifest
      ≡ (ok report, t))
    × (report.files_completed ≡ 1)
    × ((i : ℕ) (e : ManifestEntry)
        → get_elem? (a_txt file_hash chunk_hashes ∷ []) i ≡ some e
        → t.disk.files (
            to tally
              (job_for tally file_hash chunk_hashes answers)
              (of_a_txt file_hash chunk_hashes)
              disk_files
              e)
          ≡ disk_files (
              from tally
                (job_for tally file_hash chunk_hashes answers)
                (of_a_txt file_hash chunk_hashes)
                disk_files
                e))
execute_local_transfer_resumes_example =
    execute_local_transfer_resumes tally tally-IsStreaming json "/src" "/out" none 3
      (answering answers) (of_a_txt file_hash chunk_hashes) json-Writes ready
      (λ i j e a here there b h. tally_injective b _ h)
