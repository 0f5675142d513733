-- ===== src/Transfer/Execute/Watched/Idle.antt =====
-- `execute_local_transfer` of crates/transfer/src/lib.rs with a closure that changes no file is the
-- function of Execute, whatever the calls on files return.
use send_rs.Prelude.{◌≡◌}
use send_rs.Exec.{Exec}
use send_rs.Disk.{Disk}
use send_rs.Blake3.{Blake3}
use send_rs.Transfer.Execute.Watched.{Watch}
use send_rs.Transfer.Execute.Watched.Aside.{Sim}

abbrev pub idle : Watch
idle n event d = d

abbrev Same : {S A : Type 0} → Exec S A → Exec S A → Type 0
Same {S} m n = Sim (λ s t. s ≡ t) m n
