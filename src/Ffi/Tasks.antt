-- ===== src/Ffi/Tasks.antt =====
-- The tasks behind the interface for other languages, crates/ffi/src/lib.rs.
use send_rs.Prelude.{
  ℕ, ◌+◌, ◌≡◌, ◌≢◌, refl, sym, ap, ◌∙◌, false, String, none, some, List, [], ◌∷◌, ◌++◌, ◌==◌,
  eq_iff, All, Bool-cases, ◌⊎◌, inl, inr,
}
use mathlib.Core.Bool.{true≢false}
use mathlib.Core.Option.{none-ne-some, some-injective}
use send_rs.Exec.Rules.{After, returned, failed, bind-After}
use send_rs.Disk.{Disk}
use send_rs.Transfer.Hashing.{build_manifest}
use send_rs.Exec.{Exec, Result, ok, err, ◌>>=◌}
use send_rs.Transfer.Manifest.{ℤ, default_chunk_size}
use send_rs.Task.{TransferTask, accept_receive, new_send}
use send_rs.Ffi.{
  CStr, null, invalid, text, Libraries, Runtime, tick, read_cstr, with_result, with_json,
  find_and_accept, accept_transfer, new_task, send_path, on_disk, returned_text, serialized,
}

-- A list with a first task of an id, and the list with that task accepted.
pub record Accepts (now : ℕ) (id target : String) (tasks changed : List TransferTask) : Type 0 where
  pub before : List TransferTask
  pub task : TransferTask
  pub after : List TransferTask
  pub others : All (λ (t : TransferTask). t.task_id ≢ id) before
  pub own : task.task_id ≡ id
  pub old : tasks ≡ before ++ task ∷ after
  pub new : changed ≡ before ++ accept_receive now target task ∷ after

-- What the search does: it changes the first task of the id, or there is none.
found_or_none :
    (now : ℕ) (id target : String) (tasks : List TransferTask)
    → ((changed : List TransferTask) × (find_and_accept now id target tasks ≡ some changed)
        × Accepts now id target tasks changed)
      ⊎ ((find_and_accept now id target tasks ≡ none)
          × All (λ (t : TransferTask). t.task_id ≢ id) tasks)
unfolding find_and_accept
found_or_none now id target [] = inr (refl, tt)
found_or_none now id target (task ∷ tasks) = elim (Bool-cases (task.task_id == id)) [
  | inl e ↦ inl (
    accept_receive now target task ∷ tasks,
    rw e refl,
    record {
      before = [];
      task = task;
      after = tasks;
      others = tt;
      own = (eq_iff task.task_id id).0 e;
      old = refl;
      new = refl;
    },
  )
  | inr e ↦ elim (found_or_none now id target tasks) [
    | inl found ↦ inl (
      task ∷ found.0,
      rw (e, found.1) refl,
      record {
        before = task ∷ found.2.before;
        task = found.2.task;
        after = found.2.after;
        others = (apart e, found.2.others);
        own = found.2.own;
        old = ap (task ∷◌) found.2.old;
        new = ap (task ∷◌) found.2.new;
      },
    )
    | inr missing ↦ inr (rw (e, missing.0) refl, (apart e, missing.1))
  ]
]
  where
    apart : (task.task_id == id) ≡ false → task.task_id ≢ id
    apart e same = true≢false (sym ((eq_iff task.task_id id).1 same) ∙ e)

module _ {H C : Type 0} (lib : Libraries H C) where
  -- Accepting a request, for any two texts: if there are tasks of that id, the call returns 0,
  -- clears the last error, and changes the first of them as `accept_receive` does and no other; if
  -- there is none, it returns -1, leaves the tasks and keeps the reason as the last error.
  pub accept_transfer-first :
      (id target : String) (r : Runtime C)
      → ((changed : List TransferTask) × Accepts (lib.time r.ticks) id target r.tasks changed
          × (accept_transfer lib (text id) (text target) r
              ≡ (ℤ.pos 0, record r { tasks = changed; last_error = none; ticks = r.ticks + 1 })))
        ⊎ (All (λ (t : TransferTask). t.task_id ≢ id) r.tasks
            × (accept_transfer lib (text id) (text target) r
                ≡ (ℤ.negsuc 0, record r { last_error = some "task not found" })))
  unfolding accept_transfer with_result read_cstr tick ◌>>=◌
  accept_transfer-first id target r = elim (found_or_none (lib.time r.ticks) id target r.tasks) [
    | inl found ↦ inl (found.0, found.2, rw (found.1) refl)
    | inr missing ↦ inr (missing.1, rw (missing.0) refl)
  ]

-- The search for a task that stands behind tasks of other ids.
find_last :
    (now : ℕ) (id target : String) (task : TransferTask) (tasks : List TransferTask)
    → All (λ (t : TransferTask). t.task_id ≢ id) tasks
    → task.task_id ≡ id
    → find_and_accept now id target (tasks ++ task ∷ [])
      ≡ some (tasks ++ accept_receive now target task ∷ [])
unfolding find_and_accept
find_last now id target task [] h own = rw ((eq_iff task.task_id id).1 own) refl
find_last now id target task (t ∷ tasks) h own = elim (Bool-cases (t.task_id == id)) [
  | inl e ↦ absurd (h.0 ((eq_iff t.task_id id).0 e))
  | inr e ↦ rw (e, find_last now id target task tasks h.1 own) refl
]

-- What `with_json` returned a text of.
record Answered {C A : Type 0} (json : A → Result String) (Q : A → Runtime C → Type 0)
    (answer : String) (r : Runtime C) : Type 0 where
  value : A
  state : Runtime C
  holds : Q value state
  written : json value ≡ ok answer
  left_over : r ≡ record state { last_error = none }

module _ {C A : Type 0} (json : A → Result String) {Q : A → Runtime C → Type 0} (answer : String)
    (r : Runtime C) where
  written-Answered :
      (a : A) (s : Runtime C) (text : Result String)
      → Q a s
      → json a ≡ text
      → returned_text (text, s) ≡ (some answer, r)
      → Answered json Q answer r
  unfolding returned_text
  written-Answered a s (ok t) q e h = record {
    value = a;
    state = s;
    holds = q;
    written = e ∙ ap (λ x. ok x) (some-injective t answer (ap (λ x. x.0) h));
    left_over = sym (ap (λ x. x.1) h);
  }
  written-Answered a s (err x) q e h = absurd (none-ne-some answer (ap (λ x. x.0) h))

  returned-Answered :
      {p : Result A × Runtime C}
      → After Q (λ x s. Unit {0}) p
      → returned_text (serialized json p) ≡ (some answer, r)
      → Answered json Q answer r
  unfolding returned_text serialized
  returned-Answered (returned a s q) h = written-Answered a s (json a) q refl h
  returned-Answered (failed x s u) h = absurd (none-ne-some answer (ap (λ x. x.0) h))

module _ {C : Type 0} (r : Runtime C) where
  -- The tasks and the count of ticks as in `r`.
  abbrev Alike : Runtime C → Type 0
  Alike s = (s.tasks ≡ r.tasks) × (s.ticks ≡ r.ticks)

  read_cstr-Alike : (p : CStr) → After (λ a s. s ≡ r) (λ x s. Unit {0}) (read_cstr p r)
  unfolding read_cstr
  read_cstr-Alike null = failed _ _ tt
  read_cstr-Alike invalid = failed _ _ tt
  read_cstr-Alike (text t) = returned _ _ refl

  on_disk-Alike :
      {A : Type 0} (m : Exec Disk A) → After (λ a s. Alike s) (λ x s. Unit {0}) (on_disk m r)
  unfolding on_disk
  on_disk-Alike m = given (m r.disk)
    where
      given :
          {A : Type 0} (p : Result A × Disk)
          → After (λ a s. Alike s) (λ x s. Unit {0}) (p.0, record r { disk = p.1 })
      given (ok a, d) = returned _ _ (refl, refl)
      given (err x, d) = failed _ _ tt

module _ {H C : Type 0} (lib : Libraries H C) where
  -- A task that was made, with its fresh id, stands behind the others.
  abbrev Made : Runtime C → TransferTask → Runtime C → Type 0
  Made r task s = (task.task_id ≡ lib.uuid r.ticks) × (s.tasks ≡ r.tasks ++ task ∷ [])

  new_task-Made :
      (peer_id path : CStr) (mode : ℤ) (r : Runtime C)
      → After (Made r) (λ x s. Unit {0}) (new_task lib peer_id path mode r)
  unfolding new_task tick new_send ◌>>=◌
  new_task-Made peer_id path mode r =
      bind-After (read_cstr peer_id) _ r (read_cstr-Alike r peer_id) (λ x s h. h)
        λ a s h. rw (h) (
          bind-After (read_cstr path) _ r (read_cstr-Alike r path) (λ x s h. h)
            λ b t k. rw (k) (
              bind-After (on_disk (build_manifest lib.b3 lib.os b default_chunk_size)) _ r
                (on_disk-Alike r (build_manifest lib.b3 lib.os b default_chunk_size)) (λ x s h. h)
                λ m u alike. returned _ _ (ap lib.uuid alike.1, rw (alike.0) refl)))

  -- A path that was sent, under an id that no task had, is a request that can be accepted: the call
  -- returned the text of a task with the fresh id, that task stands behind the others, and to
  -- accept its id returns 0 and changes that task alone.
  pub accept_transfer-send_path :
      (peer_id path : CStr) (mode : ℤ) (target answer : String) (r s : Runtime C)
      → All (λ (t : TransferTask). t.task_id ≢ lib.uuid r.ticks) r.tasks
      → send_path lib peer_id path mode r ≡ (some answer, s)
      → (task : TransferTask) × (lib.task_json task ≡ ok answer)
        × (s.tasks ≡ r.tasks ++ task ∷ [])
        × (accept_transfer lib (text (lib.uuid r.ticks)) (text target) s ≡ (
          ℤ.pos 0,
          record s {
            tasks = r.tasks ++ accept_receive (lib.time s.ticks) target task ∷ [];
            last_error = none;
            ticks = s.ticks + 1;
          },
        ))
  unfolding send_path accept_transfer with_result with_json read_cstr tick ◌>>=◌
  accept_transfer-send_path peer_id path mode target answer r s fresh sent =
      let a = returned-Answered lib.task_json answer s (new_task-Made peer_id path mode r) sent in
      let tasks = ap (λ (x : Runtime C). x.tasks) a.left_over ∙ a.holds.1 in
      (
        a.value,
        a.written,
        tasks,
        rw
            (
              tasks,
              find_last (lib.time s.ticks) (lib.uuid r.ticks) target a.value r.tasks fresh
                  a.holds.0,
            )
            refl,
      )
