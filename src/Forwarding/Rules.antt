-- ===== src/Forwarding/Rules.antt =====
-- enableStaticPortForward: what a rule does to the tables, and when it panics.
use nff_go_nat.Base.{
  ℕ, ◌<◌, ◌≡◌, sym, ◌∙◌, inl, inr, true, false, done, arith, none, some, Bool-cases,
}
use nff_go_nat.Base.Slice.{put_in_range}
use nff_go_nat.Net.{store_self}
use nff_go_nat.Config.{IpPort, PortPair, ForwardedPort, i_public, port_end}
use nff_go_nat.PortAlloc.{get_portmap, get_public_port_portmap}
use nff_go_nat.PortAlloc.Entries.{write_entry, write_entry_self}
use nff_go_nat.Connections.{fresh_entry}
use nff_go_nat.Connections.Links.{
  is_v6, port_number, is_zero, Entries-store, LeadsBack-store, LeadsBack-store_public,
}
use nff_go_nat.Connections.WellFormed.{
  WellFormed, FitsPublic, FitsPrivate, is_translated, write_entry-WellFormed, write_entry-table,
  write_entry-private,
}
use nff_go_nat.Forwarding.{
  key_entry, val_entry, has_target, store_rule, is_private, enable_static_port_forward, enable_on,
}

-- The pair with the table entries of a rule of its public port.
unfoldable pub with_rule : PortPair → ForwardedPort → PortPair
with_rule pp fp =
    let (port, opposite) = store_rule pp.public_port pp.private_port fp in
    record pp { public_port = port; private_port = opposite }

pub entries_parts :
    (port : IpPort) (fp : ForwardedPort)
    → (is_v6 (key_entry port fp) ≡ fp.protocol.ipv6)
      × (port_number (key_entry port fp) ≡ fp.port)
      × (is_v6 (val_entry fp) ≡ fp.protocol.ipv6)
      × (port_number (val_entry fp) ≡ fp.destination.port)
unfolding key_entry val_entry
entries_parts port fp = ground arith

-- A rule without a target has the zero address for its value.
pub no_target-is_zero : (fp : ForwardedPort) → has_target fp ≡ false → is_zero (val_entry fp) ≡ true
unfolding has_target val_entry
no_target-is_zero fp h = ground arith

module _ (pp : PortPair) (fp : ForwardedPort) (w : WellFormed pp)
    (translated : is_translated fp.protocol.ipv6 fp.protocol.id ≡ true)
    (inside : fp.port < port_end) where
  rule-FitsPublic : FitsPublic fp.protocol.id (key_entry pp.public_port fp) (val_entry fp)
  rule-FitsPublic =
      let (a, b, c, d) = entries_parts pp.public_port fp in
      (c ∙ sym a, rw (a, b, translated) inside)

  with_rule-WellFormed :
      pp.public_port.translation_table fp.protocol.id (key_entry pp.public_port fp) ≡ none
      → WellFormed (with_rule pp fp)
  unfolding with_rule store_rule get_public_port_portmap get_portmap
  with_rule-WellFormed unused = elim (Bool-cases (has_target fp)) [
    | inl target ↦ rw target (record {
      leads_back = LeadsBack-store _ _ fp.protocol.id _ (val_entry fp) unused w.leads_back;
      public_entries =
          Entries-store FitsPublic _ fp.protocol.id _ (val_entry fp) rule-FitsPublic
            w.public_entries;
      private_entries =
          Entries-store FitsPrivate _ fp.protocol.id (val_entry fp) _
            (sym rule-FitsPublic.0, rule-FitsPublic.1) w.private_entries;
      allocated = w.allocated;
      lower = w.lower;
      upper = w.upper;
    })
    | inr kni ↦ rw kni (record {
      leads_back = LeadsBack-store_public _ _ fp.protocol.id _ (val_entry fp) unused w.leads_back;
      public_entries =
          Entries-store FitsPublic _ fp.protocol.id _ (val_entry fp) rule-FitsPublic
            w.public_entries;
      private_entries = w.private_entries;
      allocated = w.allocated;
      lower = w.lower;
      upper = w.upper;
    })
  ]

  with_rule_public :
      (with_rule pp fp).public_port.translation_table fp.protocol.id (key_entry pp.public_port fp)
      ≡ some (val_entry fp)
  unfolding with_rule store_rule
  with_rule_public = store_self fp.protocol.id _ (val_entry fp) _

  with_rule_private :
      has_target fp ≡ true
      → (with_rule pp fp).private_port.translation_table fp.protocol.id (val_entry fp)
        ≡ some (key_entry pp.public_port fp)
  unfolding with_rule store_rule
  with_rule_private target = rw target (store_self fp.protocol.id (val_entry fp) _ _)

-- The outcome of enabling a rule on the public port.
abbrev pub Enables : ℕ → PortPair → ForwardedPort → Type 0
Enables now pp fp =
    (pp' : PortPair) × (enable_on now pp i_public fp ≡ done pp')
    × WellFormed pp'
    × (pp'.public_port.translation_table fp.protocol.id (key_entry pp.public_port fp)
        ≡ some (val_entry fp))
    × (has_target fp ≡ true
        → pp'.private_port.translation_table fp.protocol.id (val_entry fp)
          ≡ some (key_entry pp.public_port fp))
    × ((get_public_port_portmap pp' fp.protocol.ipv6 fp.protocol.id).at fp.port
        ≡ fresh_entry now true)

module _ (now : ℕ) (pp : PortPair) (fp : ForwardedPort)
    (on_public : pp.public_port.interface_type ≡ i_public) (w : WellFormed pp)
    (translated : is_translated fp.protocol.ipv6 fp.protocol.id ≡ true) where
  len : (get_public_port_portmap pp fp.protocol.ipv6 fp.protocol.id).len ≡ port_end
  len = w.allocated fp.protocol.ipv6 fp.protocol.id ∙ rw translated

  fits :
      fp.port < port_end
      → fp.port < (get_public_port_portmap pp fp.protocol.ipv6 fp.protocol.id).len
  fits inside = rw len inside

  pub enable_on_public :
      fp.port < port_end
      → enable_on now pp i_public fp
        ≡ done (
            write_entry
              (with_rule pp fp)
              fp.protocol.ipv6
              fp.protocol.id
              fp.port
              (fresh_entry now true))
  unfolding enable_on enable_static_port_forward with_rule store_rule is_private write_entry
      get_public_port_portmap get_portmap
  enable_on_public inside = rw (
    on_public,
    put_in_range (get_public_port_portmap pp fp.protocol.ipv6 fp.protocol.id) fp.port
        (fresh_entry now true) (fits inside),
  )

  -- A rule of the public port, for a port below `portEnd` that no entry maps: enableStaticPortForward
  -- does not panic and keeps the pair well formed. The public endpoint maps to the destination, the
  -- destination maps back if it is a host, and the port's entry is static.
  pub enable_on_public_lem :
      fp.port < port_end
      → pp.public_port.translation_table fp.protocol.id (key_entry pp.public_port fp) ≡ none
      → Enables now pp fp
  enable_on_public_lem inside unused =
      let ruled = with_rule pp fp in
      (
        write_entry ruled fp.protocol.ipv6 fp.protocol.id fp.port (fresh_entry now true),
        enable_on_public inside,
        write_entry-WellFormed ruled fp.protocol.ipv6 fp.protocol.id fp.port (fresh_entry now true)
            (with_rule-WellFormed pp fp w translated inside unused),
        rw (write_entry-table ruled fp.protocol.ipv6 fp.protocol.id fp.port)
            (with_rule_public pp fp w translated inside),
        λ target.
            rw (write_entry-private ruled fp.protocol.ipv6 fp.protocol.id fp.port)
              (with_rule_private pp fp w translated inside target),
        write_entry_self ruled fp.protocol.ipv6 fp.protocol.id fp.port (fresh_entry now true),
      )
