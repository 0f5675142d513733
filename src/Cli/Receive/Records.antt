-- ===== src/Cli/Receive/Records.antt =====
-- The history that the command line of crates/cli/src/main.rs keeps and prints.
use send_rs.Prelude.{
  ℕ, suc, ◌≡◌, sym, ap, ◌∙◌, String, some, List, [], ◌∷◌, ◌++◌, map, reverse, take,
}
use mathlib.Core.List.{reverse-append, append-nil, append_assoc}
use send_rs.Exec.{ok, ◌>>=◌}
use send_rs.Disk.{Bytes, Files}
use send_rs.Disk.Steady.{steady}
use send_rs.Cli.{Host, World, TransferHistoryEntry, on_files, println}
use send_rs.Cli.Session.{load_history, append_history}
use send_rs.Cli.Session.Laws.{load-appended}
use send_rs.Cli.Receive.{cmd_history, history_line, history_lines, print_lines}

print_lines-all :
    (lines : List String) (w : World)
    → print_lines lines w ≡ (ok tt, record w { printed = w.printed ++ lines })
unfolding print_lines println ◌>>=◌
print_lines-all [] w = ap (λ l. (ok tt, record w { printed = l })) (sym (append-nil w.printed))
print_lines-all (line ∷ lines) w =
    print_lines-all lines (record w { printed = w.printed ++ line ∷ [] })
    ∙ ap (λ l. (ok tt, record w { printed = l })) (append_assoc w.printed (line ∷ []) lines)

-- After a record is appended to a history that loads, on a disk where every call succeeds in full
-- and with a library that reads back what it wrote, `history` with a limit of at least one prints
-- the new record first, and then the latest of the older ones.
pub cmd_history-append_history :
    (host : Host) (human_bytes : ℕ → String) (limit : ℕ) (fs : Files) (entry : TransferHistoryEntry)
    (es : List TransferHistoryEntry) (body : Bytes) (w : World)
    → load_history host (steady fs) ≡ (ok es, steady fs)
    → host.histories.to_string_pretty (es ++ entry ∷ []) ≡ some body
    → host.histories.from_str body ≡ some (es ++ entry ∷ [])
    → w.disk ≡ (append_history host entry (steady fs)).1
    → (cmd_history host human_bytes (suc limit) w).1.printed
      ≡ w.printed
        ++ (history_line host human_bytes entry
            ∷ map (history_line host human_bytes) (take limit (reverse es)))
unfolding cmd_history history_lines on_files ◌>>=◌
cmd_history-append_history host human_bytes limit fs entry es body w h t r d =
    rw (d, load-appended host fs entry es body h t r, reverse-append es (entry ∷ []))
      (ap (λ x. x.1.printed)
        (print_lines-all (history_lines host human_bytes (entry ∷ take limit (reverse es))) _))
