-- ===== src/Cli/Session/Laws.antt =====
-- The session files of crates/cli/src/main.rs: what is written is read, and what the waits return.
use send_rs.Prelude.{
  ℕ, zero, suc, ◌≡◌, refl, ap, sym, ◌∙◌, Bool, true, false, String, Option, none, some, List, [],
  ◌∷◌, ◌++◌, ◌==◌, eq_iff,
}
use send_rs.Exec.{Exec, Error, Result, ok, err, with_context, ◌>>=◌}
use send_rs.Exec.Rules.{After, returned, failed, bind-After, After-ok}
use send_rs.Disk.{Bytes, Files, store, read_to_string, write}
use send_rs.Disk.Laws.{store_self, store_ne}
use send_rs.Disk.Steady.{steady, check-steady}
use send_rs.Disk.Calls.{Frame}
use send_rs.Paths.{parent}
use send_rs.Cli.{Json, Host, World, SessionState, TransferHistoryEntry, on_files, sleep, println}
use send_rs.Cli.Paths.{history_path}
use send_rs.Cli.Session.{
  or_json, make_parent, write_json, read_json, load_history, append_history, read_state,
  wait_for_completion, own_claim, verdict,
}

make_parent-steady :
    (o : Option String) (fs : Files) → make_parent o (steady fs) ≡ (ok tt, steady fs)
unfolding make_parent with_context
make_parent-steady none fs = refl
make_parent-steady (some dir) fs = rw (check-steady fs) refl

module _ {A : Type 0} (json : Json A) (path : String) (fs : Files) where
  pub write_json-steady :
      (a : A) (body : Bytes)
      → json.to_string_pretty a ≡ some body
      → write_json json path a (steady fs) ≡ (ok tt, steady (store path body fs))
  unfolding write_json or_json ◌>>=◌ with_context write
  write_json-steady a body h = rw (make_parent-steady (parent path) fs, h) refl

  read_to_string-steady :
      (body : Bytes) → fs path ≡ some body → read_to_string path (steady fs) ≡ (ok body, steady fs)
  unfolding read_to_string
  read_to_string-steady body h = rw h refl

  pub read_json-steady :
      (a : A) (body : Bytes)
      → fs path ≡ some body
      → json.from_str body ≡ some a
      → read_json json path (steady fs) ≡ (ok a, steady fs)
  unfolding read_json or_json ◌>>=◌ with_context
  read_json-steady a body h k = rw (read_to_string-steady body h, k) refl

module _ (host : Host) (fs : Files) where
  -- A history file that is there is read.
  load-some :
      (body : Bytes) (es : List TransferHistoryEntry)
      → fs (history_path host) ≡ some body
      → host.histories.from_str body ≡ some es
      → load_history host (steady fs) ≡ (ok es, steady fs)
  unfolding load_history ◌>>=◌
  load-some body es h k =
      rw (h, read_json-steady host.histories (history_path host) fs es body h k) refl

  pub append-steady :
      (entry : TransferHistoryEntry) (es : List TransferHistoryEntry) (body : Bytes)
      → load_history host (steady fs) ≡ (ok es, steady fs)
      → host.histories.to_string_pretty (es ++ entry ∷ []) ≡ some body
      → append_history host entry (steady fs) ≡ (ok tt, steady (store (history_path host) body fs))
  unfolding append_history ◌>>=◌
  append-steady entry es body h w =
      rw h (write_json-steady host.histories (history_path host) fs (es ++ entry ∷ []) body w)

-- What is loaded is a matter of the history file alone.
module _ (host : Host) where
  parsed : Option (List TransferHistoryEntry) → Result (List TransferHistoryEntry)
  parsed none = err (Error.context "parse json" (Error.system "json"))
  parsed (some es) = ok es

  outcome : Option Bytes → Result (List TransferHistoryEntry)
  outcome none = ok []
  outcome (some body) = parsed (host.histories.from_str body)

  load_history-outcome :
      (fs : Files) (o : Option Bytes)
      → fs (history_path host) ≡ o
      → load_history host (steady fs) ≡ (outcome o, steady fs)
  unfolding load_history read_json or_json with_context ◌>>=◌ outcome parsed
  load_history-outcome fs none h = rw h refl
  load_history-outcome fs (some body) h =
      rw (h, read_to_string-steady host.histories (history_path host) fs body h)
        (by_parse (host.histories.from_str body))
    where
      by_parse :
          (o : Option (List TransferHistoryEntry))
          → with_context "parse json" (or_json o) (steady fs) ≡ (parsed o, steady fs)
      by_parse none = refl
      by_parse (some es) = refl

  pub load_history-same :
      (fs files : Files) (es : List TransferHistoryEntry)
      → files (history_path host) ≡ fs (history_path host)
      → load_history host (steady fs) ≡ (ok es, steady fs)
      → load_history host (steady files) ≡ (ok es, steady files)
  load_history-same fs files es same loads =
      load_history-outcome files (fs (history_path host)) same
      ∙ ap (λ r. (r, steady files))
          (sym (ap (λ x. x.0) (load_history-outcome fs (fs (history_path host)) refl))
            ∙ ap (λ x. x.0) loads)

-- The history after a record was appended, as it is loaded.
pub load-appended :
    (host : Host) (fs : Files) (entry : TransferHistoryEntry) (es : List TransferHistoryEntry)
    (body : Bytes)
    → load_history host (steady fs) ≡ (ok es, steady fs)
    → host.histories.to_string_pretty (es ++ entry ∷ []) ≡ some body
    → host.histories.from_str body ≡ some (es ++ entry ∷ [])
    → let d = (append_history host entry (steady fs)).1 in
      load_history host d ≡ (ok (es ++ entry ∷ []), d)
load-appended host fs entry es body h w r = rw (append-steady host fs entry es body h w) (
    load-some host (store (history_path host) body fs) body (es ++ entry ∷ [])
      (store_self (history_path host) body fs) r)

-- On a disk where every call succeeds in full, with a history that loads and a library that writes
-- the longer history and reads it back: after a record is appended, the history that is loaded is
-- the old one with the record behind it, and no file but the history has changed.
load_history-append_history :
    (host : Host) (fs : Files) (entry : TransferHistoryEntry) (es : List TransferHistoryEntry)
    (body : Bytes)
    → load_history host (steady fs) ≡ (ok es, steady fs)
    → host.histories.to_string_pretty (es ++ entry ∷ []) ≡ some body
    → host.histories.from_str body ≡ some (es ++ entry ∷ [])
    → ((load_history host (append_history host entry (steady fs)).1).0 ≡ ok (es ++ entry ∷ []))
      × Frame (history_path host) fs (append_history host entry (steady fs)).1.files
load_history-append_history host fs entry es body h w r = (
  ap (λ x. x.0) (load-appended host fs entry es body h w r),
  λ other away.
      ap (λ x. x.1.files other) (append-steady host fs entry es body h w)
      ∙ store_ne (history_path host) other body fs away,
)

-- A state that ends the wait of the receiver with this claim.
abbrev pub IsDone : String → SessionState → Type 0
IsDone id state = (state.claim_id ≡ some id) × (state.state ≡ "completed")

owned : (id : String) (o : Option String) → own_claim id o ≡ true → o ≡ some id
owned id none h = cc
owned id (some claim) h = ap some ((eq_iff claim id).0 h)

-- Of a run of which nothing is known.
any_run : {A : Type 0} (p : Result A × World) → After (λ a v. Unit {0}) (λ e v. Unit {0}) p
any_run (ok a, v) = returned a v tt
any_run (err e, v) = failed e v tt

verdict-Done :
    (id : String) (rest : Exec World SessionState) (state : SessionState) (v : World)
    → ((u : World) → After (λ state v. IsDone id state) (λ e v. Unit {0}) (rest u))
    → (own completed failed : Bool) → own_claim id state.claim_id ≡ own
    → (state.state == "completed") ≡ completed
    → After
        (λ state v. IsDone id state)
        (λ e v. Unit {0})
        (verdict rest state own completed failed v)
unfolding verdict println ◌>>=◌
verdict-Done id rest state v ih false completed lost o c =
    bind-After sleep (λ u. rest) v (any_run (sleep v)) (λ e u h. tt) λ x u h. ih u
verdict-Done id rest state v ih true true lost o c =
    returned _ _ (owned id state.claim_id o, (eq_iff state.state "completed").0 c)
verdict-Done id rest state v ih true false true o c = failed _ _ tt
verdict-Done id rest state v ih true false false o c =
    bind-After sleep (λ u. rest) v (any_run (sleep v)) (λ e u h. tt) λ x u h. ih u

wait-Done :
    (host : Host) (fuel : ℕ) (code id : String) (w : World)
    → After (λ state v. IsDone id state) (λ e v. Unit {0}) (wait_for_completion host fuel code id w)
unfolding wait_for_completion
wait-Done host zero code id w = failed _ _ tt
wait-Done host (suc fuel) code id w =
    bind-After (on_files (read_state host code)) _ w (any_run (on_files (read_state host code) w))
      (λ e v h. tt)
      λ state v h.
        verdict-Done id (wait_for_completion host fuel code id) state v
          (λ u. wait-Done host fuel code id u) (own_claim id state.claim_id)
          (state.state == "completed") (state.state == "failed") refl refl

-- Whatever the other process does to the files meanwhile: a wait for the end of the transfer that
-- returns a state returns one about this receiver's own claim, and that state is `completed`.
pub wait_for_completion-IsDone :
    (host : Host) (fuel : ℕ) (code id : String) (w v : World) (state : SessionState)
    → wait_for_completion host fuel code id w ≡ (ok state, v)
    → IsDone id state
wait_for_completion-IsDone host fuel code id w v state h =
    After-ok (wait-Done host fuel code id w) h
