-- ===== src/Cli/Clean.antt =====
-- `cmd_clean` of crates/cli/src/main.rs.
pub mod Roots
pub mod Removed
use send_rs.Prelude.{
  Bool, true, false, not, ◌&&◌, ◌||◌, String, Option, none, some, List, [], ◌∷◌, ◌++◌,
  if◌then◌else◌,
}
use send_rs.Exec.{Exec, pure, ◌>>=◌, ◌>>◌}
use send_rs.Disk.{Disk}
use send_rs.Cli.{Host}
use send_rs.Cli.Paths.{sessions_root, offers_root, manifests_root, history_path}
use send_rs.Cli.Session.{remove_path_if_exists}

-- The five flags of the command.
pub record Flags : Type 0 where
  pub all : Bool
  pub sessions : Bool
  pub offers : Bool
  pub manifests : Bool
  pub history : Bool

abbrev pub no_flags : Flags → Bool
no_flags f = not f.all && not f.sessions && not f.offers && not f.manifests && not f.history

-- One part: if it is to be cleaned, its root is removed, and then its name is added to `cleaned`.
unfoldable pub clean_part :
    (String → Bool) → Bool → String → String → List String → Exec Disk (List String)
clean_part dirs wanted root name cleaned =
    if wanted
    then (do remove_path_if_exists dirs root; pure (cleaned ++ name ∷ []))
    else pure cleaned

-- The value is what the last line lists.
unfoldable pub cmd_clean : Host → (String → Bool) → Flags → Exec Disk (List String)
unfolding clean_part
cmd_clean host dirs f = do
  cleaned ← clean_part dirs (f.all || f.sessions || no_flags f) (sessions_root host) "sessions" []
  cleaned ← clean_part dirs (f.all || f.offers || no_flags f) (offers_root host) "offers" cleaned
  cleaned ← clean_part dirs (f.all || f.manifests) (manifests_root host) "manifests" cleaned
  clean_part dirs (f.all || f.history) (history_path host) "history" cleaned
