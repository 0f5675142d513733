-- ===== src/Disk.antt =====
-- The files that the crates read and write, and the operating system's answers to their calls.
-- `outcomes` is what the environment decides for the calls to come, in order; past its end every
-- call succeeds. A file handle is its path with the position written out. Directories are not
-- modelled, but the calls that make them may fail; no other process changes a file meanwhile.
pub mod Laws
pub mod Calls
pub mod Steady
use send_rs.Prelude.{
  ℕ, ◌+◌, ◌-◌, Bool, true, false, String, Option, none, some, List, [], ◌∷◌, ◌++◌, ltb, length,
  take, drop, replicate, max, ◌==◌, if◌then◌else◌,
}
use send_rs.Exec.{Exec, Result, ok, err, Error, system, pure, raise, gets}

abbrev pub Bytes : Type 0
Bytes = List ℕ

-- The answer to one call. A read may be `short` of what was asked for, and a write that fails
-- may have written some bytes before.
pub data Outcome : Type 0 where
  full : Outcome
  short : ℕ → Outcome
  fail : ℕ → Outcome

abbrev pub Files : Type 0
Files = String → Option Bytes

pub record Disk : Type 0 where
  pub files : Files
  pub outcomes : List Outcome

abbrev pub store : String → Bytes → Files → Files
store path bytes files p = if path == p then some bytes else files p

-- The content behind an open handle.
abbrev pub content : Files → String → Bytes
content files path = elim (files path) [ none ↦ [] | some bytes ↦ bytes ]

abbrev pub exists : Files → String → Bool
exists files path = elim (files path) [ none ↦ false | some bytes ↦ true ]

abbrev pub slice : ℕ → ℕ → Bytes → Bytes
slice pos n bytes = take n (drop pos bytes)

-- `File::set_len`: cut off, or fill up with zeros.
unfoldable pub resize : ℕ → Bytes → Bytes
resize n bytes = take n bytes ++ replicate (n - length bytes) 0

-- The file after a write of `buf` at `pos`.
unfoldable pub write_at : ℕ → Bytes → Bytes → Bytes
unfolding resize
write_at pos buf bytes = resize pos bytes ++ (buf ++ drop (pos + length buf) bytes)

abbrev respond : {A : Type 0} → (Outcome → Exec Disk A) → List Outcome → Exec Disk A
respond call [] d = call full d
respond call (o ∷ rest) d = call o (record d { outcomes = rest })

-- Take the answer to the next call, and do what the call does under it.
unfoldable pub syscall : {A : Type 0} → (Outcome → Exec Disk A) → Exec Disk A
syscall call d = respond call d.outcomes d

-- A call that does `m`, or fails and changes nothing.
unfoldable pub simple : {A : Type 0} → Exec Disk A → Outcome → Exec Disk A
simple m full = m
simple m (short k) = m
simple m (fail k) = raise (system "error")

abbrev write_file_content : String → Bytes → Disk → Disk
write_file_content path bytes d = record d { files = store path bytes d.files }

-- `fs::create_dir_all`, `File::seek` to the start plus `pos`, `Path::metadata` and the like.
unfoldable pub check : Exec Disk (Unit {0})
unfolding syscall simple
check = syscall (simple (pure tt))

unfoldable pub seek : ℕ → Exec Disk ℕ
unfolding syscall simple
seek pos = syscall (simple (pure pos))

-- `File::open`
unfoldable pub open_read : String → Exec Disk (Unit {0})
unfolding syscall simple
open_read path =
    syscall (simple λ d. (if exists d.files path then ok tt else err (system "not found"), d))

-- `OpenOptions` with create, read and write, and no truncation.
unfoldable pub open_write : String → Exec Disk (Unit {0})
unfolding syscall simple
open_write path = syscall (simple λ d. (ok tt, write_file_content path (content d.files path) d))

unfoldable pub set_len : String → ℕ → Exec Disk (Unit {0})
unfolding syscall simple resize
set_len path n =
    syscall (simple λ d. (ok tt, write_file_content path (resize n (content d.files path)) d))

-- `File::read` into a buffer of `n` bytes: at least one byte, unless the file ends or `n` is 0.
unfoldable pub read_with : String → ℕ → ℕ → Outcome → Exec Disk Bytes
read_with path pos n full d = (ok (slice pos n (content d.files path)), d)
read_with path pos n (short k) d = (ok (take (max 1 k) (slice pos n (content d.files path))), d)
read_with path pos n (fail k) d = (err (system "error"), d)

unfoldable pub read : String → ℕ → ℕ → Exec Disk Bytes
unfolding syscall read_with
read path pos n = syscall (read_with path pos n)

-- `File::read_exact`: an error where the file ends too early.
unfoldable pub read_exact : String → ℕ → ℕ → Exec Disk Bytes
unfolding syscall simple
read_exact path pos n = syscall (
    simple λ d.
      let buf = slice pos n (content d.files path) in
      (if ltb (length buf) n then err (system "unexpected end of file") else ok buf, d))

-- `File::write_all`
unfoldable pub write_with : String → ℕ → Bytes → Outcome → Exec Disk (Unit {0})
unfolding write_at
write_with path pos buf full d =
    (ok tt, write_file_content path (write_at pos buf (content d.files path)) d)
write_with path pos buf (short k) d =
    (ok tt, write_file_content path (write_at pos buf (content d.files path)) d)
write_with path pos buf (fail k) d = (
  err (system "error"),
  write_file_content path (write_at pos (take k buf) (content d.files path)) d,
)

unfoldable pub write_all : String → ℕ → Bytes → Exec Disk (Unit {0})
unfolding syscall write_with
write_all path pos buf = syscall (write_with path pos buf)

-- `fs::write`: replaces the file.
unfoldable pub replace_with : String → Bytes → Outcome → Exec Disk (Unit {0})
replace_with path bytes full d = (ok tt, write_file_content path bytes d)
replace_with path bytes (short k) d = (ok tt, write_file_content path bytes d)
replace_with path bytes (fail k) d =
    (err (system "error"), write_file_content path (take k bytes) d)

unfoldable pub write : String → Bytes → Exec Disk (Unit {0})
unfolding syscall replace_with
write path bytes = syscall (replace_with path bytes)

-- `fs::read_to_string`, its bytes.
unfoldable pub read_to_string : String → Exec Disk Bytes
unfolding syscall simple
read_to_string path = syscall (
    simple
      λ d. (elim (d.files path) [ none ↦ err (system "not found") | some bytes ↦ ok bytes ], d))
