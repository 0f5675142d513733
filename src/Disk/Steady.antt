-- ===== src/Disk/Steady.antt =====
-- The calls on a steady disk, where the environment lets every call succeed in full.
use send_rs.Prelude.{ℕ, ◌+◌, ◌≤◌, ◌≡◌, refl, String, some, [], length, arith}
use send_rs.Exec.{ok}
use send_rs.Disk.{
  Bytes, Files, Disk, store, content, slice, resize, write_at, check, seek, open_read, open_write,
  set_len, read, read_exact, write_all, write,
}
use send_rs.Disk.Laws.{length-slice}

abbrev pub steady : Files → Disk
steady fs = record { files = fs; outcomes = [] }

module _ (fs : Files) where
  pub check-steady : check (steady fs) ≡ (ok tt, steady fs)
  unfolding check
  check-steady = refl

  pub seek-steady : (pos : ℕ) → seek pos (steady fs) ≡ (ok pos, steady fs)
  unfolding seek
  seek-steady pos = refl

  pub open_read-steady :
      (path : String) {bytes : Bytes}
      → fs path ≡ some bytes
      → open_read path (steady fs) ≡ (ok tt, steady fs)
  unfolding open_read
  open_read-steady path h = rw h

  pub open_write-steady :
      (path : String)
      → open_write path (steady fs) ≡ (ok tt, steady (store path (content fs path) fs))
  unfolding open_write
  open_write-steady path = refl

  pub set_len-steady :
      (path : String) (n : ℕ)
      → set_len path n (steady fs) ≡ (ok tt, steady (store path (resize n (content fs path)) fs))
  unfolding set_len
  set_len-steady path n = refl

  pub read-steady :
      (path : String) (pos n : ℕ)
      → read path pos n (steady fs) ≡ (ok (slice pos n (content fs path)), steady fs)
  unfolding read
  read-steady path pos n = refl

  -- A read of a piece that the file holds.
  pub read_exact-steady :
      (path : String) (pos n : ℕ)
      → pos + n ≤ length (content fs path)
      → read_exact path pos n (steady fs) ≡ (ok (slice pos n (content fs path)), steady fs)
  unfolding read_exact
  read_exact-steady path pos n h = ground (arith, length-slice pos n (content fs path) h)

  pub write_all-steady :
      (path : String) (pos : ℕ) (buf : Bytes)
      → write_all path pos buf (steady fs)
        ≡ (ok tt, steady (store path (write_at pos buf (content fs path)) fs))
  unfolding write_all
  write_all-steady path pos buf = refl

  pub write-steady :
      (path : String) (buf : Bytes)
      → write path buf (steady fs) ≡ (ok tt, steady (store path buf fs))
  unfolding write
  write-steady path buf = refl
