-- ===== src/Transfer/Tests.antt =====
-- Concrete runs of the transfer, and the theorems at concrete inputs.
mod Success
mod Parts
mod Resume
mod Tree
mod Served
use Prim.Native.String.{◌++◌ as ◌<>◌}
use send_rs.Prelude.{
  arith, All, ◌+◌, ℕ, zero, suc, get_elem?, sym, ap, ◌∙◌, ◌≡◌, refl, String, Bool, true, none, some,
  List, [], ◌∷◌, ◌++◌, decimal, ◌==◌, if◌then◌else◌,
}
use send_rs.Exec.{Result, ok, with_context, ◌>>=◌, attempt}
use send_rs.Disk.{
  Bytes, Files, resize, write_at, syscall, simple, check, seek, open_read, open_write, set_len,
  read_with, read, read_exact, write_with, write_all, replace_with, write, read_to_string,
}
use send_rs.Paths.{components, file_name, parent, join, strip_root, slashes, path_leb, sort}
use send_rs.Transfer.Bitmap.{set_bit, test_bit, set_bitmap, get_bitmap}
use send_rs.Transfer.Manifest.{
  ℤ, ManifestEntry, TransferManifest, TransferReport, chunk_count, mark_chunk_done,
  clear_chunk_done, is_chunk_done, sum, total_size, chunk_len, done_lengths, entry_done_size,
  done_size, relative_entry_paths,
}
use send_rs.Transfer.Hashing.{
  Surroundings, hash_loop, hash_file, build_entry, verify_entry, build_entries, walked_files,
  build_manifest,
}
use send_rs.Transfer.Copy.{ManifestJson, copy_chunk, verify_chunk_at, save_manifest, load_manifest}
use send_rs.Transfer.Execute.{
  Run, Job, on_disk, change_entry, chunk_done, record_copied, record_lost, emit, src_file_path,
  dest_file_path, create_parent, open_files, save_at, save_checkpoint, chunk_copied, copy_attempts,
  resume_check, copy_step, copy_chunks, check_file, file_job, transfer_entry, transfer_entries,
  run_job, start, make_job, execute_local_transfer,
}
use mathlib.Core.List.{foldl, flatten, append_assoc, append-nil}
use mathlib.Core.Option.{none-ne-some}
use send_rs.Transfer.Execute.Delivery.{SeparateTargets, execute_local_transfer-delivers}
use send_rs.Transfer.Execute.Shape.{shape}
use send_rs.Transfer.Execute.Verified.{Delivered}
use send_rs.Exec.{IsSystem}
use send_rs.Exec.Rules.{After}
use send_rs.Disk.Calls.{Touches}
use send_rs.Transfer.Hashing.Digest.{Digest, hash_file-Digest}
use send_rs.Transfer.Hashing.Steady.{pieces, hash_file-steady}
use send_rs.Transfer.Bitmap.Laws.{get_bitmap-set_bitmap}
use send_rs.Transfer.Manifest.Sums.{IsSized, IsWellFormed, done_from}
use send_rs.Transfer.Manifest.Marks.{mark-IsSized, mark-adds, clear-subtracts}
use send_rs.Transfer.Copy.Calls.{copy_chunk-Touches}
use send_rs.Blake3.{Blake3, IsStreaming}
use send_rs.Disk.Steady.{steady}

unfoldable pub toy_text : Bytes → String
toy_text [] = ""
toy_text (b ∷ bs) = decimal b <> ("," <> toy_text bs)

-- A hash that spells the bytes out.
abbrev pub toy : Blake3 Bytes
toy = record { hash = toy_text; new = []; update = λ h piece. h ++ piece; finalize = toy_text }

abbrev pub disk_files : Files
disk_files path = if path == "/src/a.txt" then some (1 ∷ 2 ∷ 3 ∷ 4 ∷ 5 ∷ []) else none

abbrev pub os : Surroundings
os = record {
  canonicalize = λ p. some p;
  walk = λ p. none ∷ some ("/src", Bool.false) ∷ some ("/src/a.txt", Bool.true) ∷ [];
  modified = λ p. none;
  new_v4 = "id";
  now = 7;
}

abbrev pub entry : ManifestEntry
entry = record {
  relative_path = "a.txt";
  size = 5;
  modified_unix = ℤ.pos 0;
  file_hash = "1,2,3,4,5,";
  chunk_hashes = "1,2," ∷ "3,4," ∷ "5," ∷ [];
  resume_bitmap = 0 ∷ [];
}

abbrev pub manifest : TransferManifest
manifest = record {
  transfer_id = "id";
  root_name = "src";
  chunk_size = 2;
  created_at = 7;
  entries = entry ∷ [];
}

abbrev pub json : ManifestJson
json = record { to_string_pretty = λ m. some []; from_str = λ b. none }

unfoldable pub machine : Result TransferReport × Run
unfolding toy_text decimal with_context ◌>>=◌ attempt resize write_at syscall simple check seek
    open_read open_write set_len read_with read read_exact write_with write_all replace_with write
    read_to_string components file_name parent join strip_root slashes path_leb sort set_bit
    test_bit set_bitmap get_bitmap chunk_count mark_chunk_done clear_chunk_done is_chunk_done sum
    total_size chunk_len done_lengths entry_done_size done_size relative_entry_paths hash_loop
    hash_file build_entry verify_entry build_entries walked_files build_manifest copy_chunk
    verify_chunk_at save_manifest load_manifest on_disk change_entry chunk_done record_copied
    record_lost emit src_file_path dest_file_path create_parent open_files save_at save_checkpoint
    chunk_copied copy_attempts resume_check copy_step copy_chunks check_file file_job transfer_entry
    transfer_entries run_job start make_job execute_local_transfer
machine = execute_local_transfer toy json "/src" "/out" none 3 (steady disk_files) manifest

finished :
    machine.0
    ≡ ok (record { bytes_total = 5; bytes_done = 5; files_total = 1; files_completed = 1 })
unfolding machine
finished = refl

flatten_cons :
    (b h : Bytes) (parts : List Bytes) → foldl ◌++◌ (h ++ b) parts ≡ h ++ foldl ◌++◌ b parts
flatten_cons b h [] = refl
flatten_cons b h (p ∷ ps) =
    ap (λ x. foldl ◌++◌ x ps) (append_assoc h b p) ∙ flatten_cons (b ++ p) h ps

pub toy-streams : (parts : List Bytes) → foldl ◌++◌ [] parts ≡ flatten parts
unfolding flatten
toy-streams [] = refl
toy-streams (p ∷ ps) =
    ap (λ x. foldl ◌++◌ x ps) (sym (append-nil p))
    ∙ flatten_cons [] p ps
    ∙ ap (p ++◌) (toy-streams ps)

pub toy-IsStreaming : IsStreaming toy
toy-IsStreaming = record { streams = λ parts. ap toy_text (toy-streams parts) }

toy_job : Job
unfolding machine
toy_job = make_job "/src" "/out" none 3 (steady disk_files) manifest

pub first_only : (i : ℕ) (e : ManifestEntry) → get_elem? (entry ∷ []) i ≡ some e → i ≡ 0
first_only zero e h = refl
first_only (suc i) e h = absurd (none-ne-some e h)

toy-Separate : SeparateTargets toy toy-IsStreaming json toy_job manifest
unfolding toy_job machine
toy-Separate = record {
  apart = λ i j e f differ here there.
      absurd (differ (first_only i e here ∙ sym (first_only j f there)));
  not_checkpoint = λ i e here h. none-ne-some _ h;
}

abbrev pub report : TransferReport
report = record { bytes_total = 5; bytes_done = 5; files_total = 1; files_completed = 1 }

-- The bytes at the target after the run.
execute_local_transfer-delivers_example :
    (shape machine.1.manifest ≡ shape manifest)
    × (report.files_completed ≡ 1)
    × (report.files_total ≡ 1)
    × All
        (λ (e : ManifestEntry).
          Delivered toy toy-IsStreaming machine.1.disk.files
            (dest_file_path toy_job "src" e.relative_path)
            e.file_hash)
        manifest.entries
unfolding machine toy_job
execute_local_transfer-delivers_example =
    execute_local_transfer-delivers toy toy-IsStreaming json "/src" "/out" none 3
      (steady disk_files) manifest toy-Separate (omega arith) report machine.1 refl

-- The same transfer where the source is gone.
abbrev pub no_files : Files
no_files path = none

unfoldable pub gone : Result TransferReport × Run
unfolding toy_text decimal with_context ◌>>=◌ attempt resize write_at syscall simple check seek
    open_read open_write set_len read_with read read_exact write_with write_all replace_with write
    read_to_string components file_name parent join strip_root slashes path_leb sort set_bit
    test_bit set_bitmap get_bitmap chunk_count mark_chunk_done clear_chunk_done is_chunk_done sum
    total_size chunk_len done_lengths entry_done_size done_size relative_entry_paths hash_loop
    hash_file build_entry verify_entry build_entries walked_files build_manifest copy_chunk
    verify_chunk_at save_manifest load_manifest on_disk change_entry chunk_done record_copied
    record_lost emit src_file_path dest_file_path create_parent open_files save_at save_checkpoint
    chunk_copied copy_attempts resume_check copy_step copy_chunks check_file file_job transfer_entry
    transfer_entries run_job start make_job execute_local_transfer
gone = execute_local_transfer toy json "/src" "/out" none 3 (steady no_files) manifest

hash_file-Digest_example :
    After
      (λ r e. Digest toy 2 (1 ∷ 2 ∷ 3 ∷ 4 ∷ 5 ∷ []) r × (true ≡ true) × (e.files ≡ disk_files))
      (λ x e. IsSystem x × (e.files ≡ disk_files))
      (hash_file toy "/src/a.txt" 2 (steady disk_files))
hash_file-Digest_example = hash_file-Digest toy "/src/a.txt" 2 (steady disk_files) (omega arith)

hash_file-steady_example :
    hash_file toy "/src/a.txt" 2 (steady disk_files)
    ≡ (ok ("1,2,3,4,5,", "1,2," ∷ "3,4," ∷ "5," ∷ []), steady disk_files)
unfolding toy_text pieces decimal
hash_file-steady_example =
    hash_file-steady toy "/src/a.txt" 2 (omega arith) disk_files 3 refl
      (record { enough = omega arith; tight = omega arith })
