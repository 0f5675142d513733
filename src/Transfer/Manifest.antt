-- ===== src/Transfer/Manifest.antt =====
-- The data of crates/transfer/src/lib.rs, and what it computes from a manifest alone.
pub mod Sums
pub mod Marks
pub mod Totals
use send_rs.Prelude.{
  ℕ, suc, ◌+◌, ◌-◌, ◌*◌, Bool, true, false, String, Option, none, some, List, [], ◌∷◌, map, min,
  wrap, length, if◌then◌else◌,
}
use mathlib.Core.List.{foldl}
use send_rs.Transfer.Bitmap.{set_bitmap, get_bitmap}

abbrev pub default_chunk_size : ℕ
default_chunk_size = 1024 * 1024

abbrev pub default_max_retries : ℕ
default_max_retries = 3

-- `i64`: `negsuc n` is -(n + 1).
pub data ℤ : Type 0 where
  pos : ℕ → ℤ
  negsuc : ℕ → ℤ

pub record ManifestEntry : Type 0 where
  pub relative_path : String
  pub size : ℕ
  pub modified_unix : ℤ
  pub file_hash : String
  pub chunk_hashes : List String
  pub resume_bitmap : List ℕ

pub record TransferManifest : Type 0 where
  pub transfer_id : String
  pub root_name : String
  pub chunk_size : ℕ
  -- A point in time.
  pub created_at : ℕ
  pub entries : List ManifestEntry

pub record ProgressEvent : Type 0 where
  pub bytes_total : ℕ
  pub bytes_done : ℕ
  pub current_file : String

pub record TransferReport : Type 0 where
  pub bytes_total : ℕ
  pub bytes_done : ℕ
  pub files_total : ℕ
  pub files_completed : ℕ

unfoldable pub chunk_count : ManifestEntry → ℕ
chunk_count entry = length entry.chunk_hashes

unfoldable pub mark_chunk_done : ℕ → ManifestEntry → ManifestEntry
mark_chunk_done idx entry = record entry { resume_bitmap = set_bitmap entry.resume_bitmap idx true }

unfoldable pub clear_chunk_done : ℕ → ManifestEntry → ManifestEntry
clear_chunk_done idx entry = record entry {
  resume_bitmap = set_bitmap entry.resume_bitmap idx false;
}

unfoldable pub is_chunk_done : ManifestEntry → ℕ → Bool
is_chunk_done entry idx = get_bitmap entry.resume_bitmap idx

-- `.sum::<u64>()`
unfoldable pub sum : List ℕ → ℕ
sum xs = foldl (λ acc x. wrap (acc + x)) 0 xs

unfoldable pub total_size : TransferManifest → ℕ
unfolding sum
total_size manifest = sum (map (λ entry. entry.size) manifest.entries)

-- `entry.size.saturating_sub((idx * chunk_size) as u64).min(chunk_size as u64)`
unfoldable pub chunk_len : ℕ → ℕ → ℕ → ℕ
chunk_len chunk_size size idx = min (size - wrap (idx * chunk_size)) chunk_size

-- The `filter_map` over the enumerated chunk hashes, from index `idx` on.
unfoldable pub done_lengths : ℕ → ManifestEntry → ℕ → List String → List ℕ
done_lengths chunk_size entry idx [] = []
done_lengths chunk_size entry idx (hash ∷ rest) =
    let lengths = done_lengths chunk_size entry (suc idx) rest in
    if is_chunk_done entry idx then chunk_len chunk_size entry.size idx ∷ lengths else lengths

unfoldable pub entry_done_size : ℕ → ManifestEntry → ℕ
unfolding sum done_lengths
entry_done_size chunk_size entry = sum (done_lengths chunk_size entry 0 entry.chunk_hashes)

unfoldable pub done_size : TransferManifest → ℕ
unfolding sum entry_done_size
done_size manifest = sum (map (entry_done_size manifest.chunk_size) manifest.entries)

-- `PathBuf::from` of each relative path.
unfoldable pub relative_entry_paths : TransferManifest → List String
relative_entry_paths manifest = map (λ entry. entry.relative_path) manifest.entries
