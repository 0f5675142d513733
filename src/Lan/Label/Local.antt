-- ===== src/Lan/Label/Local.antt =====
-- What stands in the name of this device, crates/cli/src/main.rs.
use Prim.Native.String.{◌++◌ as ◌<>◌}
use text.Mathlib.Text.{starts_with}
use mathlib.Core.Option.{none-ne-some, some-injective}
use mathlib.Core.Bool.{true≢false}
use send_rs.Prelude.{
  ◌≡◌, ◌≢◌, refl, ap, sym, ◌∙◌, subst, Bool, true, false, String, Option, none, some, List, [], ◌∷◌,
  ◌==◌, eq_iff, if◌then◌else◌, ◌⊎◌, inl, inr,
}
use send_rs.Lan.{IpAddr, is_preferred_lan_ip}
use send_rs.Lan.Label.{
  Machine, filled, stdout, printed, command_output, preferred_or, second_word, scan, scan_text,
  routed, not_blank, or_next, labelled, private_ipv4_from_ifconfig, local_ipv4, preferred_hostname,
  local_device_label,
}

module _ (m : Machine) where
  -- An address that is there is one of the local network, and a name that is there is not empty.
  abbrev IsLocal : Option IpAddr → Type 0
  IsLocal o = (ip : IpAddr) → o ≡ some ip → is_preferred_lan_ip ip ≡ true

  abbrev IsNamed : Option String → Type 0
  IsNamed o = (name : String) → o ≡ some name → name ≢ ""

  preferred_or-IsLocal : (o rest : Option IpAddr) → IsLocal rest → IsLocal (preferred_or m o rest)
  unfolding preferred_or
  preferred_or-IsLocal none rest local = local
  preferred_or-IsLocal (some found) rest local = choose (is_preferred_lan_ip found) refl
    where
      choose : (b : Bool) → is_preferred_lan_ip found ≡ b → IsLocal (if b then some found else rest)
      choose true e = λ ip h. ap is_preferred_lan_ip (sym (some-injective found ip h)) ∙ e
      choose false e = local

  second_word-IsLocal :
      (words : List String) (rest : Option IpAddr)
      → IsLocal rest
      → IsLocal (second_word m words rest)
  unfolding second_word
  second_word-IsLocal [] rest local = λ ip h. absurd (none-ne-some ip h)
  second_word-IsLocal (inet ∷ []) rest local = λ ip h. absurd (none-ne-some ip h)
  second_word-IsLocal (inet ∷ raw ∷ words) rest local =
      preferred_or-IsLocal (m.parse raw) rest local

  scan-IsLocal : (lines : List String) → IsLocal (scan m lines)
  unfolding scan
  scan-IsLocal [] = λ ip h. absurd (none-ne-some ip h)
  scan-IsLocal (line ∷ lines) =
      choose (scan m lines) (scan-IsLocal lines) (starts_with (m.trim line) "inet ")
    where
      choose :
          (rest : Option IpAddr)
          → IsLocal rest
          → (b : Bool)
          → IsLocal (if b then second_word m (m.split_whitespace (m.trim line)) rest else rest)
      choose rest local true = second_word-IsLocal (m.split_whitespace (m.trim line)) rest local
      choose rest local false = local

  private_ipv4_from_ifconfig-IsLocal : IsLocal (private_ipv4_from_ifconfig m)
  unfolding private_ipv4_from_ifconfig scan_text
  private_ipv4_from_ifconfig-IsLocal = by_text (command_output m "ifconfig" [])
    where
      by_text : (o : Option String) → IsLocal (scan_text m o)
      by_text none = λ ip h. absurd (none-ne-some ip h)
      by_text (some text) = scan-IsLocal (m.lines text)

  local_ipv4-IsLocal : IsLocal (local_ipv4 m)
  unfolding local_ipv4 routed
  local_ipv4-IsLocal = by_calls m.bind m.connect m.local_addr
    where
      by_calls : (b c : Option (Unit {0})) (a : Option IpAddr) → IsLocal (routed m b c a)
      by_calls none c a = λ ip h. absurd (none-ne-some ip h)
      by_calls (some u) none a = λ ip h. absurd (none-ne-some ip h)
      by_calls (some u) (some v) none = λ ip h. absurd (none-ne-some ip h)
      by_calls (some u) (some v) (some addr) =
          preferred_or-IsLocal (some addr) (private_ipv4_from_ifconfig m)
            private_ipv4_from_ifconfig-IsLocal

  -- A name that passes a test for blanks.
  tested-IsNamed :
      (test : Bool) (s : String) → (test ≡ false → s ≢ "") → IsNamed (if test then none else some s)
  tested-IsNamed true s named name h = absurd (none-ne-some name h)
  tested-IsNamed false s named name h = subst (λ t. t ≢ "") (some-injective s name h) (named refl)

  not_empty : (s : String) → (s == "") ≡ false → s ≢ ""
  not_empty s h e = true≢false (sym ((eq_iff s "").1 e) ∙ h)

  command_output-IsNamed : (cmd : String) (args : List String) → IsNamed (command_output m cmd args)
  unfolding command_output printed stdout filled
  command_output-IsNamed cmd args = by_output (m.output cmd args)
    where
      by_output : (o : Option (Bool × Option String)) → IsNamed (printed m o)
      by_output none = λ name h. absurd (none-ne-some name h)
      by_output (some (false, out)) = λ name h. absurd (none-ne-some name h)
      by_output (some (true, none)) = λ name h. absurd (none-ne-some name h)
      by_output (some (true, some text)) =
          tested-IsNamed (m.trim text == "") (m.trim text) (not_empty (m.trim text))

  not_blank-IsNamed : (o : Option String) → m.trim "" ≡ "" → IsNamed (not_blank m o)
  unfolding not_blank
  not_blank-IsNamed none trims = λ name h. absurd (none-ne-some name h)
  not_blank-IsNamed (some s) trims =
      tested-IsNamed (m.trim s == "") s λ h e. not_empty (m.trim s) h (ap m.trim e ∙ trims)

  or_next-named :
      (o : Option String) (next : String) → IsNamed o → next ≢ "" → or_next m o next ≢ ""
  unfolding or_next
  or_next-named none next named full = full
  or_next-named (some name) next named full = named name refl

  preferred_hostname-named : m.trim "" ≡ "" → (preferred_hostname m) ≢ ""
  unfolding preferred_hostname
  preferred_hostname-named trims = choose m.is_macos
    where
      rest : String
      rest = or_next m (not_blank m (m.var "COMPUTERNAME")) (
          or_next m (not_blank m (m.var "HOSTNAME"))
            (or_next m (command_output m "hostname" []) "Computer"))

      rest_named : rest ≢ ""
      rest_named =
          or_next-named (not_blank m (m.var "COMPUTERNAME")) _ (not_blank-IsNamed _ trims) (
            or_next-named (not_blank m (m.var "HOSTNAME")) _ (not_blank-IsNamed _ trims) (
              or_next-named (command_output m "hostname" []) "Computer"
                (command_output-IsNamed "hostname" []) (not_empty "Computer" refl)))

      choose :
          (b : Bool)
          → (if b
              then or_next m (command_output m "scutil" ("--get" ∷ "ComputerName" ∷ [])) rest
              else rest)
            ≢ ""
      choose true =
          or_next-named (command_output m "scutil" ("--get" ∷ "ComputerName" ∷ [])) rest
            (command_output-IsNamed "scutil" ("--get" ∷ "ComputerName" ∷ [])) rest_named
      choose false = rest_named

  -- The label is a name that is not empty, alone or followed by an address in parentheses, which is
  -- one that `is_preferred_lan_ip` prefers: whatever commands fail or print, if the trimmed empty
  -- text is empty.
  pub local_device_label-IsLocal :
      m.trim "" ≡ ""
      → ((preferred_hostname m) ≢ "")
        × (((local_device_label m) ≡ (preferred_hostname m))
            ⊎ ((ip : IpAddr) × (is_preferred_lan_ip ip ≡ true)
                × ((local_device_label m) ≡ (preferred_hostname m) <> ("(" <> (m.show ip <> ")")))))
  unfolding local_device_label labelled
  local_device_label-IsLocal trims =
      (preferred_hostname-named trims, by_address (local_ipv4 m) local_ipv4-IsLocal)
    where
      by_address :
          (o : Option IpAddr)
          → IsLocal o
          → (labelled m (preferred_hostname m) o ≡ (preferred_hostname m))
            ⊎ ((ip : IpAddr) × (is_preferred_lan_ip ip ≡ true)
                × (labelled m (preferred_hostname m) o
                    ≡ (preferred_hostname m) <> ("(" <> (m.show ip <> ")"))))
      by_address none local = inl refl
      by_address (some ip) local = inr (ip, local ip refl, refl)
