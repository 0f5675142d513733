-- ===== src/Cli/Session/Calls.antt =====
-- What the file operations of crates/cli/src/main.rs leave alone, whatever fails.
use send_rs.Prelude.{refl, ◌∙◌, String, Option, none, some, [], ◌∷◌, ◌++◌}
use send_rs.Exec.{Exec, Error, Result, ◌>>=◌}
use send_rs.Exec.Rules.{
  After, returned, failed, bind-After, bind_context-After, context-After, if-After, After-mono,
}
use send_rs.Disk.{Disk, check, exists, read_to_string, write}
use send_rs.Disk.Calls.{
  Frame-same, Frame-trans, Touches, Keeps, check-Keeps, write-Touches, read_to_string-Keeps,
}
use send_rs.Paths.{parent}
use send_rs.Trust.{parsed}
use send_rs.Cli.{Json, Host, World, TransferHistoryEntry, at_disk, on_files}
use send_rs.Cli.Paths.{history_path}
use send_rs.Cli.Session.{or_json, make_parent, write_json, read_json, load_history, append_history}

make_parent-Keeps : (o : Option String) (d : Disk) → Keeps d (make_parent o d)
unfolding make_parent
make_parent-Keeps none d = returned _ _ refl
make_parent-Keeps (some dir) d = context-After _ check d (check-Keeps d) (λ e t h. h)

or_json-Keeps : {A : Type 0} (o : Option A) (d : Disk) → Keeps d (or_json o d)
unfolding or_json
or_json-Keeps none d = failed _ _ (tt, refl)
or_json-Keeps (some a) d = returned _ _ refl

pub parsed-Keeps : {A : Type 0} (o : Option A) (d : Disk) → Keeps d (parsed o d)
parsed-Keeps none d = failed _ _ (tt, refl)
parsed-Keeps (some a) d = returned _ _ refl

module _ {A : Type 0} (json : Json A) (path : String) where
  pub write_json-Touches : (a : A) (d : Disk) → Touches path d (write_json json path a d)
  unfolding write_json
  write_json-Touches a d =
      bind-After (make_parent (parent path)) _ d (make_parent-Keeps (parent path) d)
        (λ x e h. (h.0, Frame-same path h.1))
        λ u e h.
          bind_context-After "serialize json" (or_json (json.to_string_pretty a)) _ e
            (or_json-Keeps (json.to_string_pretty a) e) (λ x f k. (k.0, Frame-same path (k.1 ∙ h)))
            λ body f k.
              context-After "write json" (write path body) f
                (After-mono (write-Touches f path body)
                  (λ u g touched. Frame-trans path (Frame-same path (k ∙ h)) touched)
                  (λ x g touched.
                    (touched.0, Frame-trans path (Frame-same path (k ∙ h)) touched.1)))
                (λ x g touched. touched)

  read_json-Keeps : (d : Disk) → Keeps d (read_json json path d)
  unfolding read_json
  read_json-Keeps d =
      bind_context-After "read json" (read_to_string path) _ d (read_to_string-Keeps d path)
        (λ x e h. h)
        λ body e h.
          context-After "parse json" (or_json (json.from_str body)) e
            (After-mono (or_json-Keeps (json.from_str body) e) (λ a f k. k ∙ h)
              (λ x f k. (k.0, k.1 ∙ h)))
            (λ x f k. k)

module _ (host : Host) where
  load_history-Keeps : (d : Disk) → Keeps d (load_history host d)
  unfolding load_history ◌>>=◌
  load_history-Keeps d =
      if-After (exists d.files (history_path host)) _ _ d
        (λ t. read_json-Keeps host.histories (history_path host) d) (λ f. returned _ _ refl)

  pub append_history-Touches :
      (entry : TransferHistoryEntry) (d : Disk)
      → Touches (history_path host) d (append_history host entry d)
  unfolding append_history
  append_history-Touches entry d =
      bind-After (load_history host) _ d (load_history-Keeps d)
        (λ x e h. (h.0, Frame-same (history_path host) h.1))
        λ es e h.
          After-mono (write_json-Touches host.histories (history_path host) (es ++ entry ∷ []) e)
            (λ u f touched.
              Frame-trans (history_path host) (Frame-same (history_path host) h) touched)
            (λ x f touched. (
              touched.0,
              Frame-trans (history_path host) (Frame-same (history_path host) h) touched.1,
            ))

module _ {A : Type 0} {Q : A → Disk → Type 0} {E : Error → Disk → Type 0} {R : A → World → Type 0}
    {F : Error → World → Type 0} where
  pub on_files-After :
      (m : Exec Disk A) (w : World)
      → After Q E (m w.disk)
      → ((a : A) (d : Disk) → Q a d → R a (record w { disk = d }))
      → ((e : Error) (d : Disk) → E e d → F e (record w { disk = d }))
      → After R F (on_files m w)
  unfolding on_files
  on_files-After m w h f g = given h
    where
      given : {p : Result A × Disk} → After Q E p → After R F (at_disk w p)
      given (returned a d q) = returned _ _ (f a d q)
      given (failed e d x) = failed _ _ (g e d x)
