-- ===== src/Setup/Fresh.antt =====
-- The state that InitFlows makes before the forwarding rules is well formed.
use nff_go_nat.Base.{
  ℕ, zero, suc, lt→ltb, ◌≡◌, ◌-◌, ◌<◌, refl, ap, ◌∙◌, none, some, done, Bool, true, false, arith,
}
use nff_go_nat.Nff.{Nff}
use nff_go_nat.Base.Slice.{Slice, get_in_range}
use nff_go_nat.Net.{Endpoint}
use nff_go_nat.Config.{PortPair, PortMapEntry, zero_entry, port_start, port_end, connection_timeout}
use nff_go_nat.PortAlloc.{get_public_port_portmap, find_port, is_reusable}
use nff_go_nat.Connections.WellFormed.{WellFormed, is_translated, capacity}
use nff_go_nat.Setup.{portmap_for, allocate_public_port_port_map, allocate_lookup_map, init_state}

allocated :
    (nff : Nff) (pp : PortPair) (ipv6 : Bool) (q : ℕ)
    → (get_public_port_portmap (init_state nff pp) ipv6 q).len ≡ capacity ipv6 q
unfolding init_state allocate_public_port_port_map portmap_for get_public_port_portmap is_translated
allocated nff pp true q = ground arith
allocated nff pp false q = ground arith

pub init_state-WellFormed : (nff : Nff) (pp : PortPair) → WellFormed (init_state nff pp)
init_state-WellFormed nff pp = record {
  leads_back =
      unfold init_state allocate_lookup_map allocate_public_port_port_map in λ p k q e z. cc;
  public_entries =
      unfold init_state allocate_lookup_map allocate_public_port_port_map in λ p k v e. absurd (cc);
  private_entries = unfold init_state allocate_lookup_map in λ p k v e. absurd (cc);
  allocated = allocated nff pp;
  lower = unfold init_state in omega arith;
  upper = unfold init_state in omega arith;
}

-- A pair without connections: empty tables, portmaps without an entry in use, and the search for a
-- port at its beginning, where the first connection of a translated protocol finds one.
pub record IsFresh (pp : PortPair) : Type 0 where
  pub no_private :
      (protocol : ℕ) (k : Endpoint) → pp.private_port.translation_table protocol k ≡ none
  pub no_public : (protocol : ℕ) (k : Endpoint) → pp.public_port.translation_table protocol k ≡ none
  pub unused :
      (ipv6 : Bool) (protocol p : ℕ) → (get_public_port_portmap pp ipv6 protocol).at p ≡ zero_entry
  pub lastport_start : pp.lastport ≡ port_start
  pub first_port :
      (now : ℕ) (ipv6 : Bool) (protocol : ℕ)
      → is_translated ipv6 protocol ≡ true
      → connection_timeout < now
      → find_port now
          (get_public_port_portmap pp ipv6 protocol)
          (port_end - pp.lastport)
          pp.lastport
        ≡ done (some port_start)

unused_entry :
    (nff : Nff) (pp : PortPair) (ipv6 : Bool) (q p : ℕ)
    → (get_public_port_portmap (init_state nff pp) ipv6 q).at p ≡ zero_entry
unfolding init_state allocate_public_port_port_map portmap_for get_public_port_portmap
unused_entry nff pp true q p = ground arith
unused_entry nff pp false q p = ground arith

first_reusable :
    (now : ℕ) (pm : Slice PortMapEntry) (rounds p : ℕ)
    → p < pm.len
    → pm.at p ≡ zero_entry
    → connection_timeout < now
    → 0 < rounds
    → find_port now pm rounds p ≡ done (some p)
unfolding find_port is_reusable
first_reusable now pm zero p inside unused late more = absurd (omega arith)
first_reusable now pm (suc rounds) p inside unused late more =
    rw
      (
        get_in_range pm p inside,
        unused,
        lt→ltb connection_timeout (now - zero_entry.lastused) (omega arith),
      )
      refl

-- The state that InitFlows sets up before the forwarding rules, for any configuration: it is well
-- formed, both tables are empty, no portmap has an entry in use, and the search begins at portStart,
-- which is the port that it finds for the first connection of a translated protocol, if the clock is
-- past the timeout that a port must have been unused for.
pub init_state-IsFresh :
    (nff : Nff) (pp : PortPair) → WellFormed (init_state nff pp) × IsFresh (init_state nff pp)
init_state-IsFresh nff pp = (
  init_state-WellFormed nff pp,
  record {
    no_private = unfold init_state allocate_lookup_map in λ q k. refl;
    no_public = unfold init_state allocate_lookup_map allocate_public_port_port_map in λ q k. refl;
    unused = unused_entry nff pp;
    lastport_start = begins;
    first_port = λ now ipv6 q translated late.
        ap (λ from. find_port now (pm ipv6 q) (port_end - from) from) begins
        ∙ first_reusable now (pm ipv6 q) (port_end - port_start) port_start
            (rw (allocated nff pp ipv6 q, translated) (omega arith))
            (unused_entry nff pp ipv6 q port_start) late (omega arith);
  },
)
  where
    begins : (init_state nff pp).lastport ≡ port_start
    begins = unfold init_state in refl

    pm : Bool → ℕ → Slice PortMapEntry
    pm ipv6 q = get_public_port_portmap (init_state nff pp) ipv6 q
