-- ===== src/Cli/Paths.antt =====
-- The paths of crates/cli/src/main.rs.
use Prim.Native.String.{◌++◌ as ◌<>◌}
use mathlib.Core.Option
use send_rs.Prelude.{Option, String}
use send_rs.Paths.{join}
use send_rs.Cli.{Host}

-- The argument is the home folder, where there is one.
unfoldable pub data_root : Option String → String
data_root home = join (Option.get_or home ".") ".sendrs"

module _ (host : Host) where
  unfoldable pub normalize_code : String → String
  normalize_code raw = host.to_uppercase (host.trim raw)

  unfoldable pub manifests_root : String
  manifests_root = join host.data_root "manifests"

  unfoldable pub offers_root : String
  offers_root = join host.data_root "offers"

  unfoldable pub sessions_root : String
  sessions_root = join host.data_root "sessions"

  unfoldable pub history_path : String
  history_path = join host.data_root "history.json"

  unfoldable pub session_root : String → String
  session_root code = join sessions_root (normalize_code code)

  unfoldable pub offer_path : String → String
  offer_path code = join offers_root (normalize_code code <> ".json")

  unfoldable pub manifest_path_by_code : String → String
  manifest_path_by_code code = join manifests_root (normalize_code code <> ".json")

  unfoldable pub receiver_claim_path : String → String
  receiver_claim_path code = join (session_root code) "receiver.json"

  unfoldable pub sender_yes_path : String → String
  sender_yes_path code = join (session_root code) "sender_yes"

  unfoldable pub receiver_yes_path : String → String
  receiver_yes_path code = join (session_root code) "receiver_yes"

  unfoldable pub state_path : String → String
  state_path code = join (session_root code) "state.json"
