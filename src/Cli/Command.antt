-- ===== src/Cli/Command.antt =====
-- `main` of crates/cli/src/main.rs, for arguments that `clap` has parsed.
use Prim.Native.String.{◌++◌ as ◌<>◌}
use send_rs.Prelude.{ℕ, ◌≡◌, refl, Bool, String, Option, none, some, List, [], ◌∷◌}
use send_rs.Exec.{Exec, pure, ◌>>=◌}
use send_rs.Blake3.{Blake3}
use send_rs.Transfer.Hashing.{Surroundings}
use send_rs.Trust.Identity.{IdentityLibrary, default_data_dir}
use send_rs.Lan.Label.{Machine}
use send_rs.Discovery.{DiscoveryJson}
use send_rs.Cli.{Host, on_files, println}
use send_rs.Cli.Paths.{data_root}
use send_rs.Cli.Send.Share.{cmd_send}
use send_rs.Cli.Receive.{cmd_receive, cmd_history}
use send_rs.Cli.Clean.{Flags, cmd_clean}
use send_rs.Cli.Discover.{Station, in_world, cmd_discover}

pub data Command : Type 0 where
  discover : ℕ → Command
  send : String → Bool → Command
  receive : String → Option String → Command
  history : ℕ → Command
  clean : Flags → Command

-- What the commands take from outside beside the arguments. `rounds` is how many receivers `send`
-- serves before it is stopped.
pub record Setting (H : Type 0) : Type 0 where
  pub b3 : Blake3 H
  pub json : DiscoveryJson
  pub host : Host
  pub home : Option String
  pub keys : IdentityLibrary
  pub surroundings : Surroundings
  pub machine : Machine
  pub is_dir : String → Bool
  pub simple : String
  pub current : Option String
  pub version : String
  pub rounds : ℕ
  pub human_bytes : ℕ → String

-- `.join(", ")`
joined : List String → String
joined [] = ""
joined (t ∷ []) = t
joined (t ∷ u ∷ ts) = t <> (", " <> joined (u ∷ ts))

-- The host with its data folder, which is that of the trust store and the identity too.
abbrev host_of : {H : Type 0} → Setting H → Host
host_of env = record env.host { data_root = data_root env.home }

-- The two crates spell the same folder.
data_root-default_data_dir : (home : Option String) → data_root home ≡ default_data_dir home
unfolding data_root default_data_dir
data_root-default_data_dir none = refl
data_root-default_data_dir (some home) = refl

unfoldable pub main : {H : Type 0} → Setting H → Command → Exec Station (Unit {0})
unfolding joined
main env (Command.discover timeout_secs) =
    cmd_discover env.json (host_of env) env.keys env.version timeout_secs
main env (Command.send path public) = do
  manifest ← in_world (
      cmd_send env.b3 (host_of env) env.keys env.surroundings env.machine env.is_dir env.simple
        env.rounds path public)
  pure tt
main env (Command.receive code target) =
    in_world (cmd_receive (host_of env) env.keys env.current code target)
main env (Command.history limit) = in_world (cmd_history (host_of env) env.human_bytes limit)
main env (Command.clean flags) = in_world (do
  cleaned ← on_files (cmd_clean (host_of env) env.is_dir flags)
  println ("cleaned: " <> joined cleaned))
