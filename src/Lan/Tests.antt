-- ===== src/Lan/Tests.antt =====
-- The address test at a concrete address.
use Prim.Native.String.{◌++◌ as ◌<>◌}
use send_rs.Prelude.{◌≡◌, ◌≢◌, ◌⊎◌, ◌↔◌, refl, true, false, none, some, [], ◌∷◌, arith}
use send_rs.Lan.Label.{Machine, preferred_hostname, local_device_label}
use send_rs.Lan.Label.Local.{local_device_label-IsLocal}
use send_rs.Lan.{IpAddr, is_preferred_lan_ip, IsPrivate, address, is_preferred_lan_ip-IsPrivate}

is_preferred_lan_ip-IsPrivate_example :
    (is_preferred_lan_ip (IpAddr.v4 172 31 0 9) ≡ true) ↔ IsPrivate (address 172 31 0 9)
is_preferred_lan_ip-IsPrivate_example =
    is_preferred_lan_ip-IsPrivate 172 31 0 9 (omega arith) (omega arith) (omega arith) (omega arith)

-- A machine whose route leads outside, and whose interfaces have an address of the local network.
abbrev machine : Machine
machine = record {
  is_macos = false;
  var = λ name. none;
  output = λ cmd args. some (true, some cmd);
  bind = some tt;
  connect = some tt;
  local_addr = some (IpAddr.v4 8 8 4 4);
  trim = λ s. s;
  lines = λ s. "inet 10.0.0.2" ∷ [];
  split_whitespace = λ s. "inet" ∷ "10.0.0.2" ∷ [];
  parse = λ s. some (IpAddr.v4 10 0 0 2);
  show = λ ip. "10.0.0.2";
}

local_device_label-IsLocal_example :
    (preferred_hostname machine ≢ "")
    × ((local_device_label machine ≡ preferred_hostname machine)
        ⊎ ((ip : IpAddr) × (is_preferred_lan_ip ip ≡ true)
            × (local_device_label machine ≡ preferred_hostname machine <> "(10.0.0.2)")))
local_device_label-IsLocal_example = local_device_label-IsLocal machine refl
