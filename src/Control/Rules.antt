-- ===== src/Control/Rules.antt =====
-- ChangePortForwarding on the public port of a running pair.
use nff_go_nat.Base.{
  ℕ, ◌%◌, ◌^◌, ◌<◌, ◌≡◌, refl, ap, ◌∙◌, Bool, true, false, Option, none, some, arith,
}
use nff_go_nat.Net.{Endpoint}
use nff_go_nat.Config.{PortPair, i_public, ForwardedPort, port_end, zero_entry}
use nff_go_nat.PortAlloc.{
  make_port_addr_tuple, get_public_port_portmap, set_portmap, delete_entries,
}
use nff_go_nat.PortAlloc.Entries.{write_entry, forget, delete_old_connection-forget, forget-subnets}
use nff_go_nat.Connections.WellFormed.{
  WellFormed, is_translated, forget-WellFormed, forget-unmapped,
}
use nff_go_nat.Forwarding.{key_entry, enable_on}
use nff_go_nat.Forwarding.Rules.{Enables, enable_on_public_lem}
use nff_go_nat.Control.{clear_port, replace_rule}

pub write_entry-interface_type :
    (pp : PortPair) (ipv6 : Bool) (protocol port : ℕ) (e : _)
    → (write_entry pp ipv6 protocol port e).public_port.interface_type
      ≡ pp.public_port.interface_type
unfolding write_entry set_portmap
write_entry-interface_type pp true protocol port e = refl
write_entry-interface_type pp false protocol port e = refl

pub delete_entries-interface_type :
    (pp : PortPair) (protocol : ℕ) (k : Endpoint) (o : Option Endpoint)
    → (delete_entries pp protocol k o).public_port.interface_type ≡ pp.public_port.interface_type
unfolding delete_entries
delete_entries-interface_type pp protocol k none = refl
delete_entries-interface_type pp protocol k (some v) = refl

pub forget-interface_type :
    (pp : PortPair) (ipv6 : Bool) (protocol port : ℕ)
    → (forget pp ipv6 protocol port).public_port.interface_type ≡ pp.public_port.interface_type
unfolding forget
forget-interface_type pp ipv6 protocol port =
    write_entry-interface_type _ ipv6 protocol port zero_entry
    ∙ delete_entries-interface_type pp protocol _ _

key_entry-forget :
    (pp : PortPair) (fp : ForwardedPort)
    → fp.port < port_end
    → key_entry (forget pp fp.protocol.ipv6 fp.protocol.id fp.port).public_port fp
      ≡ make_port_addr_tuple pp.public_port fp.protocol.ipv6 fp.port
unfolding key_entry make_port_addr_tuple
key_entry-forget pp fp inside =
    let (a, b) = forget-subnets pp fp.protocol.ipv6 fp.protocol.id fp.port in rw (a, b, small) refl
  where
    small : fp.port % 2 ^ 16 ≡ fp.port
    small = omega (arith, inside)

-- The outcome of the change: what enabling the rule on the pair without the port's old entries gives.
abbrev pub Replaces : ℕ → PortPair → ForwardedPort → Type 0
Replaces now pp fp =
    (replace_rule now i_public fp true pp
      ≡ enable_on now (forget pp fp.protocol.ipv6 fp.protocol.id fp.port) i_public fp)
    × Enables now (forget pp fp.protocol.ipv6 fp.protocol.id fp.port) fp

-- For a well-formed pair, a protocol that is translated and a port below `portEnd`, whatever
-- connection or rule the port had: ChangePortForwarding with a rule to enable on the public port does
-- not panic. It forgets the port's old entries and enables the rule: the pair is well formed, the
-- public endpoint maps to the rule's destination, the destination maps back if it is a host, and the
-- port's entry is static.
pub replace_rule_lem :
    (now : ℕ) (pp : PortPair) (fp : ForwardedPort)
    → pp.public_port.interface_type ≡ i_public
    → WellFormed pp
    → is_translated fp.protocol.ipv6 fp.protocol.id ≡ true
    → fp.port < port_end
    → Replaces now pp fp
unfolding replace_rule clear_port
replace_rule_lem now pp fp on_public w translated inside =
    let ipv6 = fp.protocol.ipv6 in
    let cleared = forget pp ipv6 fp.protocol.id fp.port in
    (
      rw (delete_old_connection-forget pp ipv6 fp.protocol.id fp.port fits) refl,
      enable_on_public_lem now cleared fp
          (forget-interface_type pp ipv6 fp.protocol.id fp.port ∙ on_public)
          (forget-WellFormed pp ipv6 fp.protocol.id fp.port w) translated inside
          (ap (cleared.public_port.translation_table fp.protocol.id) (key_entry-forget pp fp inside)
            ∙ forget-unmapped pp ipv6 fp.protocol.id fp.port),
    )
  where
    fits : fp.port < (get_public_port_portmap pp fp.protocol.ipv6 fp.protocol.id).len
    fits = rw (w.allocated fp.protocol.ipv6 fp.protocol.id, translated) inside
