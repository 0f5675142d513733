-- ===== src/Transfer/Tests/Tree.antt =====
-- The manifest of a folder, and the transfer of it, at a concrete folder.
use send_rs.Prelude.{
  ℕ, zero, suc, arith, get_elem?, sym, ◌∙◌, ◌≡◌, ◌≢◌, refl, String, none, some, [], ◌∷◌, subst,
  length,
}
use mathlib.Core.Option.{none-ne-some, some-injective, get_or}
use send_rs.Exec.{ok}
use send_rs.Paths.{file_name, join, strip_root, slashes, sort}
use send_rs.Disk.Steady.{steady}
use send_rs.Transfer.Manifest.{TransferManifest, TransferReport}
use send_rs.Transfer.Manifest.Sums.{IsWellFormed}
use send_rs.Transfer.Hashing.{walked_files, build_manifest}
use send_rs.Transfer.Execute.{Run, execute_local_transfer}
use send_rs.Transfer.Execute.Success.Build.{
  AreThere, effective_pos, found_files, DescribesAll, build_manifest-DescribesAll,
}
use send_rs.Transfer.Execute.Success.Tree.{
  origin, goal, IsClear, execute_local_transfer-build_manifest,
}
use send_rs.Transfer.Tests.{toy, toy-IsStreaming, disk_files, json, os}
use send_rs.Transfer.Tests.Success.{json-Writes, differ}

all_there : AreThere disk_files (found_files os "/src")
unfolding sort walked_files
all_there = (((1 ∷ 2 ∷ 3 ∷ 4 ∷ 5 ∷ [], refl), tt), omega arith)

build_manifest-DescribesAll_example :
    (m : TransferManifest) × (build_manifest toy os "/src" 2 (steady disk_files)
      ≡ (ok m, steady disk_files))
    × (m.root_name ≡ get_or (file_name "/src") "transfer-root")
    × (m.chunk_size ≡ 2)
    × IsWellFormed m
    × DescribesAll toy toy-IsStreaming os.modified "/src" 2 disk_files
        (effective_pos toy toy-IsStreaming os "/src" "/src" 2 disk_files)
        (found_files os "/src")
        m.entries
build_manifest-DescribesAll_example =
    build_manifest-DescribesAll toy toy-IsStreaming os "/src" "/src" 2 disk_files refl refl
      all_there

-- The one file.
only_file :
    (i : ℕ) (file : String) → get_elem? ("/src/a.txt" ∷ []) i ≡ some file → "/src/a.txt" ≡ file
only_file zero file h = some-injective "/src/a.txt" file h
only_file (suc i) file h = absurd (none-ne-some file h)

only_first : (i : ℕ) (file : String) → get_elem? ("/src/a.txt" ∷ []) i ≡ some file → i ≡ 0
only_first zero file h = refl
only_first (suc i) file h = absurd (none-ne-some file h)

clear : IsClear "/src" "/src" "/out" none disk_files (found_files os "/src")
unfolding sort walked_files join strip_root slashes file_name
clear = record {
  folder = refl;
  same = λ i file here.
      subst (λ file. disk_files (origin "/src" "/src" file) ≡ disk_files file)
        (only_file i file here) refl;
  apart = λ i j file other apart here there.
      absurd (apart (only_first i file here ∙ sym (only_first j other there)));
  no_source = λ i j file other here there.
      subst (λ file. goal "/src" "/out" file ≢ origin "/src" "/src" other) (only_file i file here)
        (subst (λ other. goal "/src" "/out" "/src/a.txt" ≢ origin "/src" "/src" other)
          (only_file j other there) (differ "/out/src/a.txt" "/src/a.txt" refl));
  no_root = λ i file here.
      subst (λ file. goal "/src" "/out" file ≢ "/src") (only_file i file here)
        (differ "/out/src/a.txt" "/src" refl);
  free_source = λ i file here h. none-ne-some _ h;
  free_target = λ i file here h. none-ne-some _ h;
  free_root = λ h. none-ne-some _ h;
}

execute_local_transfer-build_manifest_example :
    (m : TransferManifest) × (report : TransferReport) × (t : Run) × (build_manifest toy os "/src" 2
        (steady disk_files)
      ≡ (ok m, steady disk_files))
    × (execute_local_transfer toy json "/src" "/out" none 3 (steady disk_files) m ≡ (ok report, t))
    × (report.files_completed ≡ length (found_files os "/src"))
    × ((i : ℕ) (file : String)
        → get_elem? (found_files os "/src") i ≡ some file
        → t.disk.files (goal "/src" "/out" file) ≡ disk_files file)
execute_local_transfer-build_manifest_example =
    execute_local_transfer-build_manifest toy toy-IsStreaming json os "/src" "/src" "/out" 2 none 3
      disk_files json-Writes refl refl all_there clear
