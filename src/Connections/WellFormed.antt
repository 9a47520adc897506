-- ===== src/Connections/WellFormed.antt =====
-- The invariant of a port pair, and what a write to the portmap and deleteOldConnection keep.
use nff_go_nat.Base.{
  ℕ, ◌≤◌, ◌<◌, ◌≡◌, refl, ◌∙◌, Bool, true, false, ◌==◌, ◌||◌, if◌then◌else◌, Option, none, some,
  arith,
}
use nff_go_nat.Net.{Endpoint, delete_self}
use nff_go_nat.Config.{
  PortPair, PortMapEntry, zero_entry, icmp_number, tcp_number, udp_number, icmpv6_number,
  port_start, port_end,
}
use nff_go_nat.PortAlloc.{
  make_port_addr_tuple, get_public_port_portmap, set_portmap, replace_slice, delete_entries,
}
use nff_go_nat.PortAlloc.Entries.{write_entry, forget}
use nff_go_nat.Connections.Links.{
  is_v6, port_number, LeadsBack, Entries, Entries-delete, LeadsBack-delete,
}

-- The protocols that allocatePublicPortPortMap makes a portmap for.
unfoldable pub is_translated : Bool → ℕ → Bool
is_translated ipv6 protocol =
    protocol == tcp_number
    || protocol == udp_number
    || protocol == (if ipv6 then icmpv6_number else icmp_number)

abbrev pub capacity : Bool → ℕ → ℕ
capacity ipv6 protocol = if is_translated ipv6 protocol then port_end else 0

-- An entry of the public table: both sides of one family, and the public port inside its portmap.
abbrev pub FitsPublic : ℕ → Endpoint → Endpoint → Type 0
FitsPublic protocol k v = (is_v6 v ≡ is_v6 k) × (port_number k < capacity (is_v6 k) protocol)

-- An entry of the private table, whose value names the public port.
abbrev pub FitsPrivate : ℕ → Endpoint → Endpoint → Type 0
FitsPrivate protocol k v = (is_v6 v ≡ is_v6 k) × (port_number v < capacity (is_v6 v) protocol)

pub record WellFormed (pp : PortPair) : Type 0 where
  pub leads_back : LeadsBack pp.private_port.translation_table pp.public_port.translation_table
  pub public_entries : Entries FitsPublic pp.public_port.translation_table
  pub private_entries : Entries FitsPrivate pp.private_port.translation_table
  pub allocated :
      (ipv6 : Bool) (protocol : ℕ)
      → (get_public_port_portmap pp ipv6 protocol).len ≡ capacity ipv6 protocol
  pub lower : port_start ≤ pp.lastport
  pub upper : pp.lastport ≤ port_end

write_entry-len :
    (pp : PortPair) (ipv6 : Bool) (protocol port : ℕ) (e : PortMapEntry) (ipv6' : Bool) (q : ℕ)
    → (get_public_port_portmap (write_entry pp ipv6 protocol port e) ipv6' q).len
      ≡ (get_public_port_portmap pp ipv6' q).len
unfolding write_entry get_public_port_portmap set_portmap replace_slice
write_entry-len pp true protocol port e true q = ground arith
write_entry-len pp true protocol port e false q = refl
write_entry-len pp false protocol port e true q = refl
write_entry-len pp false protocol port e false q = ground arith

-- Neither table is touched by a write to the portmap.
pub write_entry-private :
    (pp : PortPair) (ipv6 : Bool) (protocol port : ℕ) (e : PortMapEntry)
    → (write_entry pp ipv6 protocol port e).private_port ≡ pp.private_port
unfolding write_entry
write_entry-private pp ipv6 protocol port e = refl

pub write_entry-table :
    (pp : PortPair) (ipv6 : Bool) (protocol port : ℕ) (e : PortMapEntry)
    → (write_entry pp ipv6 protocol port e).public_port.translation_table
      ≡ pp.public_port.translation_table
unfolding write_entry set_portmap
write_entry-table pp true protocol port e = refl
write_entry-table pp false protocol port e = refl

pub write_entry-WellFormed :
    (pp : PortPair) (ipv6 : Bool) (protocol port : ℕ) (e : PortMapEntry)
    → WellFormed pp
    → WellFormed (write_entry pp ipv6 protocol port e)
write_entry-WellFormed pp ipv6 protocol port e w = record {
  leads_back =
      rw (write_entry-private pp ipv6 protocol port e, write_entry-table pp ipv6 protocol port e)
        w.leads_back;
  public_entries = rw (write_entry-table pp ipv6 protocol port e) w.public_entries;
  private_entries = rw (write_entry-private pp ipv6 protocol port e) w.private_entries;
  allocated = λ ipv6' q. write_entry-len pp ipv6 protocol port e ipv6' q ∙ w.allocated ipv6' q;
  lower = unfold write_entry in w.lower;
  upper = unfold write_entry in w.upper;
}

delete_entries-WellFormed :
    (pp : PortPair) (protocol : ℕ) (key : Endpoint) (o : Option Endpoint)
    → pp.public_port.translation_table protocol key ≡ o
    → WellFormed pp
    → WellFormed (delete_entries pp protocol key o)
unfolding delete_entries get_public_port_portmap
delete_entries-WellFormed pp protocol key none e w = w
delete_entries-WellFormed pp protocol key (some v) e w = record {
  leads_back = LeadsBack-delete _ _ protocol key v e w.leads_back;
  public_entries = Entries-delete FitsPublic _ protocol key w.public_entries;
  private_entries = Entries-delete FitsPrivate _ protocol v w.private_entries;
  allocated = w.allocated;
  lower = w.lower;
  upper = w.upper;
}

pub forget-WellFormed :
    (pp : PortPair) (ipv6 : Bool) (protocol port : ℕ)
    → WellFormed pp
    → WellFormed (forget pp ipv6 protocol port)
unfolding forget
forget-WellFormed pp ipv6 protocol port w =
    write_entry-WellFormed _ ipv6 protocol port zero_entry
      (delete_entries-WellFormed pp protocol _ _ refl w)

delete_entries-unmapped :
    (pp : PortPair) (protocol : ℕ) (key : Endpoint) (o : Option Endpoint)
    → pp.public_port.translation_table protocol key ≡ o
    → (delete_entries pp protocol key o).public_port.translation_table protocol key ≡ none
unfolding delete_entries
delete_entries-unmapped pp protocol key none e = e
delete_entries-unmapped pp protocol key (some v) e = delete_self protocol key _

-- After deleteOldConnection nothing is mapped to the port.
pub forget-unmapped :
    (pp : PortPair) (ipv6 : Bool) (protocol port : ℕ)
    → (forget pp ipv6 protocol port).public_port.translation_table protocol
        (make_port_addr_tuple pp.public_port ipv6 port)
      ≡ none
unfolding forget
forget-unmapped pp ipv6 protocol port =
    rw (write_entry-table _ ipv6 protocol port zero_entry)
      (delete_entries-unmapped pp protocol _ _ refl)
