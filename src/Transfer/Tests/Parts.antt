-- ===== src/Transfer/Tests/Parts.antt =====
-- The bitmap, the sums and the copying of a chunk of crates/transfer/src/lib.rs at concrete inputs.
use send_rs.Prelude.{arith, ◌≡◌, true, [], ◌∷◌}
use send_rs.Transfer.Bitmap.{set_bit, test_bit, set_bitmap, get_bitmap}
use send_rs.Transfer.Manifest.{ManifestEntry, TransferManifest, mark_chunk_done, done_size}
use send_rs.Transfer.Copy.{copy_chunk}
use send_rs.Disk.Calls.{Touches}
use send_rs.Transfer.Bitmap.Laws.{get_bitmap-set_bitmap}
use send_rs.Transfer.Manifest.Sums.{IsSized, IsWellFormed}
use send_rs.Transfer.Manifest.Totals.{done_size-eq}
use send_rs.Transfer.Manifest.Marks.{mark-IsSized}
use send_rs.Transfer.Copy.Calls.{copy_chunk-Touches}
use send_rs.Disk.Steady.{steady}
use send_rs.Transfer.Tests.{toy, disk_files, entry, manifest}

get_bitmap-set_bitmap_example : get_bitmap (set_bitmap (5 ∷ 0 ∷ []) 9 true) 2 ≡ true
unfolding get_bitmap test_bit
get_bitmap-set_bitmap_example =
    get_bitmap-set_bitmap (5 ∷ 0 ∷ []) 9 2 true (omega arith, (omega arith, tt)) (omega arith)

entry-IsSized : IsSized 2 entry
entry-IsSized = record {
  covers = record { enough = omega arith; tight = omega arith };
  in_range = omega arith;
  bytes = (omega arith, tt);
  bits = omega arith;
}

pub manifest-IsWellFormed : IsWellFormed manifest
manifest-IsWellFormed = record {
  chunk_pos = omega arith;
  sized = (entry-IsSized, tt);
  fits = omega arith;
}

marked : ManifestEntry
unfolding mark_chunk_done set_bitmap set_bit
marked = mark_chunk_done 1 entry

marked-IsSized : IsSized 2 marked
unfolding marked
marked-IsSized = mark-IsSized 2 entry 1 entry-IsSized

-- The manifest with the second of its three chunks done.
begun : TransferManifest
unfolding marked
begun = record manifest { entries = marked ∷ [] }

begun-IsWellFormed : IsWellFormed begun
unfolding begun marked-IsSized
begun-IsWellFormed = record {
  chunk_pos = omega arith;
  sized = (marked-IsSized, tt);
  fits = omega arith;
}

done_size-eq_example : done_size begun ≡ 2
unfolding begun marked get_bitmap test_bit
done_size-eq_example = done_size-eq begun begun-IsWellFormed

copy_chunk-Touches_example :
    Touches "/out"
      (steady disk_files)
      (copy_chunk toy "/src/a.txt" "/out" 2 2 "3,4," (steady disk_files))
copy_chunk-Touches_example =
    copy_chunk-Touches toy "/src/a.txt" "/out" 2 2 "3,4," (steady disk_files)
