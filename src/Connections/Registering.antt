-- ===== src/Connections/Registering.antt =====
-- The steps by which allocateNewEgressConnection registers a connection, and the invariant.
use nff_go_nat.Base.{ℕ, ◌%◌, ◌^◌, ◌≤◌, ◌<◌, ◌≡◌, refl, sym, ap, Bool, true, false, none, arith}
use nff_go_nat.Net.{Endpoint, tuple, tuple6}
use nff_go_nat.Config.{PortPair, port_start, port_end}
use nff_go_nat.PortAlloc.{make_port_addr_tuple, get_public_port_portmap}
use nff_go_nat.PortAlloc.Entries.{forget, forget-subnets}
use nff_go_nat.Connections.{store_entries, pub_entry_of}
use nff_go_nat.Connections.Links.{is_v6, port_number, Entries-store, LeadsBack-store}
use nff_go_nat.Connections.WellFormed.{WellFormed, FitsPublic, FitsPrivate, is_translated, capacity}

pub pub_entry_of-forget :
    (pp : PortPair) (ipv6 : Bool) (protocol port last : ℕ)
    → pub_entry_of (forget (record pp { lastport = last }) ipv6 protocol port) ipv6 port
      ≡ make_port_addr_tuple pp.public_port ipv6 port
unfolding make_port_addr_tuple
pub_entry_of-forget pp true protocol port last =
    ap (λ s. tuple6 s.addr (port % 2 ^ 16))
      (forget-subnets (record pp { lastport = last }) true protocol port).1
pub_entry_of-forget pp false protocol port last =
    ap (λ s. tuple s.addr (port % 2 ^ 16))
      (forget-subnets (record pp { lastport = last }) false protocol port).0

pub store_entries-WellFormed :
    (pp : PortPair) (protocol : ℕ) (k v : Endpoint)
    → pp.public_port.translation_table protocol k ≡ none
    → FitsPublic protocol k v
    → WellFormed pp
    → WellFormed (store_entries pp protocol k v)
unfolding store_entries get_public_port_portmap
store_entries-WellFormed pp protocol k v unused (family, fits) w = record {
  leads_back = LeadsBack-store _ _ protocol k v unused w.leads_back;
  public_entries = Entries-store FitsPublic _ protocol k v (family, fits) w.public_entries;
  private_entries = Entries-store FitsPrivate _ protocol v k (sym family, fits) w.private_entries;
  allocated = w.allocated;
  lower = w.lower;
  upper = w.upper;
}

pub make_port_addr_tuple_parts :
    (pp : PortPair) (ipv6 : Bool) (p : ℕ)
    → p < port_end
    → (is_v6 (make_port_addr_tuple pp.public_port ipv6 p) ≡ ipv6)
      × (port_number (make_port_addr_tuple pp.public_port ipv6 p) ≡ p)
unfolding make_port_addr_tuple
make_port_addr_tuple_parts pp true p h = (refl, omega arith)
make_port_addr_tuple_parts pp false p h = (refl, omega arith)

pub lastport-WellFormed :
    (pp : PortPair) (p : ℕ)
    → port_start ≤ p
    → p < port_end
    → WellFormed pp
    → WellFormed (record pp { lastport = p })
unfolding get_public_port_portmap
lastport-WellFormed pp p lo hi w = record {
  leads_back = w.leads_back;
  public_entries = w.public_entries;
  private_entries = w.private_entries;
  allocated = w.allocated;
  lower = lo;
  upper = omega arith;
}

pub capacity_translated :
    (ipv6 : Bool) (protocol : ℕ)
    → is_translated ipv6 protocol ≡ true
    → capacity ipv6 protocol ≡ port_end
capacity_translated ipv6 protocol h = rw h
