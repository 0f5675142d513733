-- ===== src/Lan/Label.antt =====
-- The name of this device for others, crates/cli/src/main.rs: the host name, and an address in the
-- local network where there is one.
pub mod Local
use Prim.Native.String.{◌++◌ as ◌<>◌}
use text.Mathlib.Text.{starts_with}
use send_rs.Prelude.{Bool, String, Option, none, some, List, [], ◌∷◌, ◌==◌, if◌then◌else◌}
use send_rs.Lan.{IpAddr, is_preferred_lan_ip}

-- The machine: the target, the environment, what commands print (`none` where a command cannot be
-- started; the Boolean is its success; the text is `none` where it is not UTF-8), what the calls on
-- the socket return, and the methods of `str` and `IpAddr` that the code calls.
pub record Machine : Type 0 where
  pub is_macos : Bool
  pub var : String → Option String
  pub output : String → List String → Option (Bool × Option String)
  pub bind : Option (Unit {0})
  pub connect : Option (Unit {0})
  pub local_addr : Option IpAddr
  pub trim : String → String
  pub lines : String → List String
  pub split_whitespace : String → List String
  pub parse : String → Option IpAddr
  pub show : IpAddr → String

module _ (m : Machine) where
  -- A text that is not empty.
  pub filled : String → Option String
  filled text = if text == "" then none else some text

  pub stdout : Option String → Option String
  unfolding filled
  stdout none = none
  stdout (some text) = filled (m.trim text)

  pub printed : Option (Bool × Option String) → Option String
  unfolding stdout
  printed none = none
  printed (some (success, out)) = if success then stdout out else none

  unfoldable pub command_output : String → List String → Option String
  unfolding printed
  command_output cmd args = printed (m.output cmd args)

  pub preferred_or : Option IpAddr → Option IpAddr → Option IpAddr
  preferred_or none rest = rest
  preferred_or (some ip) rest = if is_preferred_lan_ip ip then some ip else rest

  -- The second word of a line, and the lines behind it.
  pub second_word : List String → Option IpAddr → Option IpAddr
  unfolding preferred_or
  second_word [] rest = none
  second_word (inet ∷ []) rest = none
  second_word (inet ∷ raw ∷ words) rest = preferred_or (m.parse raw) rest

  pub scan : List String → Option IpAddr
  unfolding second_word
  scan [] = none
  scan (line ∷ lines) =
      let rest = scan lines in
      if starts_with (m.trim line) "inet "
      then second_word (m.split_whitespace (m.trim line)) rest
      else rest

  pub scan_text : Option String → Option IpAddr
  unfolding scan
  scan_text none = none
  scan_text (some text) = scan (m.lines text)

  unfoldable pub private_ipv4_from_ifconfig : Option IpAddr
  unfolding scan_text command_output
  private_ipv4_from_ifconfig = scan_text (command_output "ifconfig" [])

  pub routed : Option (Unit {0}) → Option (Unit {0}) → Option IpAddr → Option IpAddr
  unfolding private_ipv4_from_ifconfig preferred_or
  routed none connect addr = none
  routed (some u) none addr = none
  routed (some u) (some v) none = none
  routed (some u) (some v) (some ip) = preferred_or (some ip) private_ipv4_from_ifconfig

  unfoldable pub local_ipv4 : Option IpAddr
  unfolding routed
  local_ipv4 = routed m.bind m.connect m.local_addr

  pub not_blank : Option String → Option String
  not_blank none = none
  not_blank (some s) = if m.trim s == "" then none else some s

  pub or_next : Option String → String → String
  or_next none next = next
  or_next (some name) next = name

  unfoldable pub preferred_hostname : String
  unfolding command_output not_blank or_next
  preferred_hostname =
      let rest = or_next (not_blank (m.var "COMPUTERNAME")) (
        or_next (not_blank (m.var "HOSTNAME"))
          (or_next (command_output "hostname" []) "Computer")) in
      if m.is_macos
      then or_next (command_output "scutil" ("--get" ∷ "ComputerName" ∷ [])) rest
      else rest

  pub labelled : String → Option IpAddr → String
  labelled hostname (some ip) = hostname <> ("(" <> (m.show ip <> ")"))
  labelled hostname none = hostname

  unfoldable pub local_device_label : String
  unfolding labelled local_ipv4 preferred_hostname
  local_device_label = labelled preferred_hostname local_ipv4
