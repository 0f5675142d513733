-- ===== src/Transfer/Tests/Success.antt =====
-- The theorems on the success and the counts of a transfer, at concrete inputs.
use send_rs.Prelude.{
  ℕ, zero, suc, arith, All, get_elem?, sym, ◌∙◌, ◌≡◌, ◌≢◌, refl, String, Bool, true, false, none,
  some, List, [], ◌∷◌, ◌==◌, if◌then◌else◌, eq_iff, subst, decimal,
}
use mathlib.Core.Option.{none-ne-some, some-injective}
use mathlib.Core.Bool.{true≢false}
use send_rs.Exec.{ok}
use send_rs.Paths.{join, strip_root}
use send_rs.Transfer.Bitmap.Laws.{get_bitmap-zeros}
use send_rs.Disk.{Bytes, Files, Disk, Outcome}
use send_rs.Blake3.{Blake3}
use send_rs.Disk.Steady.{steady}
use send_rs.Transfer.Manifest.{
  ManifestEntry, TransferManifest, TransferReport, sum, total_size, done_size, is_chunk_done,
}
use send_rs.Transfer.Manifest.Sums.{IsWellFormed}
use send_rs.Transfer.Hashing.{build_entry, verify_entry}
use send_rs.Transfer.Hashing.Steady.{pieces}
use send_rs.Transfer.Execute.{
  Run, Job, execute_local_transfer, make_job, src_file_path, dest_file_path,
}
use send_rs.Transfer.Execute.Accounting.{
  execute_local_transfer_bytes, execute_local_transfer_events,
}
use send_rs.Transfer.Execute.Fresh.{Writes}
use send_rs.Transfer.Execute.Counting.{IsBounded}
use send_rs.Transfer.Manifest.Totals.{AllDone}
use send_rs.Transfer.Execute.Success.{IsIntact, IsCopyable, IsIntact-IsCopyable, IsReady, from, to}
use send_rs.Transfer.Execute.Success.Whole.{execute_local_transfer_succeeds}
use send_rs.Transfer.Execute.Success.Source.{verify_entry-build_entry}
use send_rs.Transfer.Tests.{
  toy, toy_text, disk_files, entry, manifest, json, toy-IsStreaming, machine, gone, no_files,
  report,
}
use send_rs.Transfer.Tests.Parts.{manifest-IsWellFormed}

pub json-Writes : Writes json
json-Writes m = ([], refl)

entry-IsIntact : IsIntact toy 2 entry (1 ∷ 2 ∷ 3 ∷ 4 ∷ 5 ∷ [])
unfolding toy_text pieces decimal is_chunk_done
entry-IsIntact = record {
  size = refl;
  chunks = refl;
  whole = refl;
  unset = λ j. get_bitmap-zeros 1 j;
}

pub differ : (s t : String) → (s == t) ≡ false → s ≢ t
differ s t h e = true≢false (sym ((eq_iff s t).1 e) ∙ h)

-- The file /src/a.txt, with its hashes.
abbrev pub a_txt : String → List String → ManifestEntry
a_txt file_hash chunk_hashes = record entry { file_hash = file_hash; chunk_hashes = chunk_hashes }

abbrev pub of_a_txt : String → List String → TransferManifest
of_a_txt file_hash chunk_hashes = record manifest { entries = a_txt file_hash chunk_hashes ∷ [] }

-- The disk with that file, and answers to the calls to come.
abbrev pub answering : List Outcome → Disk
answering outcomes = record { files = disk_files; outcomes = outcomes }

module _ {H : Type 0} (b3 : Blake3 H) (file_hash : String) (chunk_hashes : List String)
    (outcomes : List Outcome) where
  abbrev pub job_for : Job
  job_for = make_job "/src" "/out" none 3 (answering outcomes) (of_a_txt file_hash chunk_hashes)

  abbrev source : ManifestEntry → String
  source = from b3 job_for (of_a_txt file_hash chunk_hashes) disk_files

  abbrev target : ManifestEntry → String
  target = to b3 job_for (of_a_txt file_hash chunk_hashes) disk_files

  -- The one entry.
  pub only_entry :
      (i : ℕ) (e : ManifestEntry)
      → get_elem? (a_txt file_hash chunk_hashes ∷ []) i ≡ some e
      → a_txt file_hash chunk_hashes ≡ e
  only_entry zero e h = some-injective (a_txt file_hash chunk_hashes) e h
  only_entry (suc i) e h = absurd (none-ne-some e h)

  only_first :
      (i : ℕ) (e : ManifestEntry) → get_elem? (a_txt file_hash chunk_hashes ∷ []) i ≡ some e → i ≡ 0
  only_first zero e h = refl
  only_first (suc i) e h = absurd (none-ne-some e h)

  pub ready_for :
      IsWellFormed (of_a_txt file_hash chunk_hashes)
      → IsCopyable b3 2 (a_txt file_hash chunk_hashes) (1 ∷ 2 ∷ 3 ∷ 4 ∷ 5 ∷ [])
      → IsReady b3 job_for (of_a_txt file_hash chunk_hashes) disk_files
  unfolding make_job src_file_path dest_file_path join strip_root
  ready_for formed copyable = record {
    formed = formed;
    intact = λ i e here.
        subst (λ e. (a : Bytes) × (disk_files (source e) ≡ some a) × IsCopyable b3 2 e a)
          (only_entry i e here) (1 ∷ 2 ∷ 3 ∷ 4 ∷ 5 ∷ [], refl, copyable);
    apart = λ i j e f apart here there.
        absurd (apart (only_first i e here ∙ sym (only_first j f there)));
    no_source = λ i j e f here there.
        subst (λ e. target e ≢ source f) (only_entry i e here)
          (subst (λ f. target (a_txt file_hash chunk_hashes) ≢ source f) (only_entry j f there)
            (differ "/out/src/a.txt" "/src/a.txt" refl));
    no_root = λ i e here.
        subst (λ e. target e ≢ "/src") (only_entry i e here) (differ "/out/src/a.txt" "/src" refl);
    free_source = λ i e here h. none-ne-some _ h;
    free_target = λ i e here h. none-ne-some _ h;
    free_root = λ h. none-ne-some _ h;
  }

abbrev pub job : Job
job = make_job "/src" "/out" none 3 (steady disk_files) manifest

pub ready : IsReady toy job manifest disk_files
ready =
    ready_for toy "1,2,3,4,5," ("1,2," ∷ "3,4," ∷ "5," ∷ []) [] manifest-IsWellFormed
      (IsIntact-IsCopyable toy 2 entry (1 ∷ 2 ∷ 3 ∷ 4 ∷ 5 ∷ []) entry-IsIntact)

execute_local_transfer_succeeds_example :
    (report : TransferReport) × (t : Run) × (execute_local_transfer toy json "/src" "/out" none 3
        (steady disk_files)
        manifest
      ≡ (ok report, t))
    × (report.files_completed ≡ 1)
    × ((i : ℕ) (e : ManifestEntry)
        → get_elem? manifest.entries i ≡ some e
        → t.disk.files (to toy job manifest disk_files e)
          ≡ disk_files (from toy job manifest disk_files e))
execute_local_transfer_succeeds_example =
    execute_local_transfer_succeeds toy toy-IsStreaming json json-Writes "/src" "/out" none 3
      manifest disk_files ready

execute_local_transfer_bytes_example :
    (report.bytes_total ≡ 5)
    × (report.bytes_done ≡ 5)
    × (done_size machine.1.manifest ≡ 5)
    × All AllDone machine.1.manifest.entries
unfolding machine total_size sum
execute_local_transfer_bytes_example =
    execute_local_transfer_bytes toy json "/src" "/out" none 3 (steady disk_files) manifest
      manifest-IsWellFormed report machine.1 refl

-- The source is gone, and the transfer fails.
execute_local_transfer_events_example :
    All (IsBounded 5) gone.1.events × IsWellFormed gone.1.manifest
unfolding gone total_size sum
execute_local_transfer_events_example =
    execute_local_transfer_events toy json "/src" "/out" none 3 (steady no_files) manifest
      manifest-IsWellFormed

-- Later the last byte has changed.
abbrev old_bytes : Bytes
old_bytes = 1 ∷ 2 ∷ 3 ∷ 4 ∷ 5 ∷ []

abbrev new_bytes : Bytes
new_bytes = 1 ∷ 2 ∷ 3 ∷ 4 ∷ 6 ∷ []

abbrev later_files : Files
later_files path = if path == "/src/a.txt" then some new_bytes else none

verify_entry-build_entry_example :
    (e : ManifestEntry) × (same : Bool) × (build_entry toy
        (λ p. none)
        (join "/src" "a.txt")
        "a.txt"
        2
        (steady disk_files)
      ≡ (ok e, steady disk_files))
    × (verify_entry toy (λ p. none) "/src" e 2 (steady later_files) ≡ (ok same, steady later_files))
    × (old_bytes ≡ new_bytes → same ≡ true)
    × (toy_text old_bytes ≢ toy_text new_bytes → same ≡ false)
unfolding join strip_root
verify_entry-build_entry_example =
    verify_entry-build_entry toy (λ p. none) "/src" "a.txt" 2 disk_files later_files old_bytes
      new_bytes toy-IsStreaming refl refl (omega arith) (omega arith) (omega arith)
