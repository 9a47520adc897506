-- ===== src/Connections/Egress.antt =====
-- allocateNewEgressConnection: what a new connection does to the tables, and that it keeps the
-- invariant.
use nff_go_nat.Base.{
  ℕ, ◌%◌, ◌^◌, ◌≤◌, ◌<◌, ◌≡◌, ◌≢◌, sym, ap, ◌∙◌, ◌⊎◌, inl, inr, Bool, true, false, Option, none,
  some, done, arith,
}
use nff_go_nat.Net.{Endpoint, store, delete, store_self}
use nff_go_nat.Config.{PortPair, port_start, port_end}
use nff_go_nat.PortAlloc.{make_port_addr_tuple, get_public_port_portmap, delete_entries}
use nff_go_nat.PortAlloc.Search.{AllBusy}
use nff_go_nat.PortAlloc.Entries.{
  write_entry, forget, put-write_entry, forget-subnets, write_entry_self,
}
use nff_go_nat.PortAlloc.Allocation.{IsNext, alloc_new_port_lem}
use nff_go_nat.Connections.{
  fresh_entry, store_entries, public_v4addr, public_v6addr, register_connection,
  allocate_new_egress_connection,
}
use nff_go_nat.Connections.Links.{is_v6}
use nff_go_nat.Connections.WellFormed.{
  WellFormed, FitsPublic, is_translated, write_entry-table, write_entry-WellFormed,
  forget-WellFormed, forget-unmapped,
}
use nff_go_nat.Connections.Registering.{
  pub_entry_of-forget, store_entries-WellFormed, make_port_addr_tuple_parts, lastport-WellFormed,
  capacity_translated,
}

-- The pair once port `p` is taken for `priv_entry`.
pub established : ℕ → PortPair → Bool → ℕ → Endpoint → ℕ → PortPair
established now pp ipv6 protocol priv_entry p =
    store_entries
      (write_entry (forget (record pp { lastport = p }) ipv6 protocol p) ipv6 protocol p
        (fresh_entry now false))
      protocol (make_port_addr_tuple pp.public_port ipv6 p) priv_entry

delete_entries-other :
    (pp : PortPair) (protocol : ℕ) (key : Endpoint) (o : Option Endpoint) (q : ℕ) (k v : Endpoint)
    → o ≢ some k
    → pp.private_port.translation_table q k ≡ some v
    → (delete_entries pp protocol key o).private_port.translation_table q k ≡ some v
unfolding delete_entries delete
delete_entries-other pp protocol key none q k v h e = e
delete_entries-other pp protocol key (some j) q k v h e =
    ground (arith, λ (x : j ≡ k). h (ap some x))

-- The outcome of allocateNewEgressConnection: the error, with the pair as it was; or the next port,
-- with the pair in which it is established.
abbrev pub Establishes : ℕ → PortPair → Bool → ℕ → Endpoint → Type 0
Establishes now pp ipv6 protocol priv_entry =
    ((allocate_new_egress_connection now pp ipv6 protocol priv_entry ≡ done (none, pp))
      × AllBusy now (get_public_port_portmap pp ipv6 protocol) port_start port_end)
    ⊎ ((p : ℕ) × (pp' : PortPair) × (allocate_new_egress_connection now pp ipv6 protocol priv_entry
          ≡ done (some (public_v4addr pp ipv6, public_v6addr pp ipv6, p), pp'))
        × IsNext now (get_public_port_portmap pp ipv6 protocol) pp.lastport p
        × WellFormed pp'
        × (pp'.private_port.translation_table protocol priv_entry
            ≡ some (make_port_addr_tuple pp.public_port ipv6 p))
        × (pp'.public_port.translation_table protocol (make_port_addr_tuple pp.public_port ipv6 p)
            ≡ some priv_entry)
        × ((get_public_port_portmap pp' ipv6 protocol).at p ≡ fresh_entry now false)
        × ((q : ℕ) (k v : Endpoint)
            → pp.private_port.translation_table q k ≡ some v
            → k ≢ priv_entry
            → pp.public_port.translation_table protocol (make_port_addr_tuple pp.public_port ipv6 p)
              ≢ some k
            → pp'.private_port.translation_table q k ≡ some v))

module _ (now : ℕ) (pp : PortPair) (ipv6 : Bool) (protocol : ℕ) (priv_entry : Endpoint)
    (w : WellFormed pp) (translated : is_translated ipv6 protocol ≡ true)
    (family : is_v6 priv_entry ≡ ipv6) where
  key_fits :
      (p : ℕ)
      → p < port_end
      → FitsPublic protocol (make_port_addr_tuple pp.public_port ipv6 p) priv_entry
  key_fits p hi =
      let (f, n) = make_port_addr_tuple_parts pp ipv6 p hi in
      (family ∙ sym f, rw (f, n, translated) hi)

  taken-WellFormed :
      (p : ℕ)
      → port_start ≤ p
      → p < port_end
      → WellFormed (forget (record pp { lastport = p }) ipv6 protocol p)
  taken-WellFormed p lo hi =
      forget-WellFormed (record pp { lastport = p }) ipv6 protocol p
        (lastport-WellFormed pp p lo hi w)

  established-WellFormed :
      (p : ℕ)
      → port_start ≤ p
      → p < port_end
      → WellFormed (established now pp ipv6 protocol priv_entry p)
  unfolding established
  established-WellFormed p lo hi =
      store_entries-WellFormed _ protocol _ priv_entry
        (rw write_entry-table (forget-unmapped (record pp { lastport = p }) ipv6 protocol p))
        (key_fits p hi)
        (write_entry-WellFormed _ ipv6 protocol p (fresh_entry now false)
          (taken-WellFormed p lo hi))

  register-established :
      (p : ℕ)
      → port_start ≤ p
      → p < port_end
      → register_connection now
          (forget (record pp { lastport = p }) ipv6 protocol p)
          ipv6
          protocol
          priv_entry
          p
        ≡ done (
          some (public_v4addr pp ipv6, public_v6addr pp ipv6, p),
          established now pp ipv6 protocol priv_entry p,
        )
  unfolding register_connection established
  register-established p lo hi = rw (
    put-write_entry (forget (record pp { lastport = p }) ipv6 protocol p) ipv6 protocol p
        (fresh_entry now false) fits,
    pub_entry_of-forget pp ipv6 protocol p p,
    subnets.0,
    subnets.1,
    small,
  )
    where
      subnets :
          ((forget (record pp { lastport = p }) ipv6 protocol p).public_port.subnet
            ≡ pp.public_port.subnet)
          × ((forget (record pp { lastport = p }) ipv6 protocol p).public_port.subnet6
              ≡ pp.public_port.subnet6)
      subnets = forget-subnets (record pp { lastport = p }) ipv6 protocol p

      small : p % 2 ^ 16 ≡ p
      small = omega arith

      fits :
          p
          < (get_public_port_portmap
              (forget (record pp { lastport = p }) ipv6 protocol p)
              ipv6
              protocol).len
      fits = rw ((taken-WellFormed p lo hi).allocated ipv6 protocol, translated) hi

  established_private :
      (p : ℕ)
      → (established now pp ipv6 protocol priv_entry p).private_port.translation_table protocol
          priv_entry
        ≡ some (make_port_addr_tuple pp.public_port ipv6 p)
  unfolding established store_entries
  established_private p = store_self protocol priv_entry _ _

  established_public :
      (p : ℕ)
      → (established now pp ipv6 protocol priv_entry p).public_port.translation_table protocol
          (make_port_addr_tuple pp.public_port ipv6 p)
        ≡ some priv_entry
  unfolding established store_entries
  established_public p = store_self protocol _ priv_entry _

  established_entry :
      (p : ℕ)
      → (get_public_port_portmap (established now pp ipv6 protocol priv_entry p) ipv6 protocol).at p
        ≡ fresh_entry now false
  unfolding established store_entries get_public_port_portmap
  established_entry p = write_entry_self _ ipv6 protocol p (fresh_entry now false)

  -- Every other private entry survives, but for the one that the old entry of the port names.
  established_others :
      (p q : ℕ) (k v : Endpoint)
      → pp.private_port.translation_table q k ≡ some v
      → k ≢ priv_entry
      → pp.public_port.translation_table protocol (make_port_addr_tuple pp.public_port ipv6 p)
        ≢ some k
      → (established now pp ipv6 protocol priv_entry p).private_port.translation_table q k ≡ some v
  unfolding established store_entries forget write_entry store
  established_others p q k v e other not_old = ground (
    arith,
    λ (x : priv_entry ≡ k). other (sym x),
    delete_entries-other (record pp { lastport = p }) protocol
        (make_port_addr_tuple pp.public_port ipv6 p) _ q k v not_old e,
  )

  -- For a protocol that is translated, allocateNewEgressConnection never panics. Either no port can
  -- be reused, and it returns the error and leaves the pair alone; or it returns the address of the
  -- public port with the next port that can be reused. Then the two tables map the private and the
  -- public endpoint to one another, the port's entry is fresh, the pair is well formed, and each
  -- other private endpoint keeps its entry, unless the port's old public entry named it.
  pub allocate_new_egress_connection_lem : Establishes now pp ipv6 protocol priv_entry
  unfolding allocate_new_egress_connection
  allocate_new_egress_connection_lem =
      elim (alloc_new_port_lem now pp ipv6 protocol allocated w.lower w.upper) [
        | inl (e, busy) ↦ inl (rw e, busy)
        | inr (p, e, next) ↦
            let lo = next.from_start in
            let hi = next.below_end in
            inr (
              p,
              established now pp ipv6 protocol priv_entry p,
              rw e (register-established p lo hi),
              next,
              established-WellFormed p lo hi,
              established_private p,
              established_public p,
              established_entry p,
              established_others p,
            )
      ]
    where
      allocated : (get_public_port_portmap pp ipv6 protocol).len ≡ port_end
      allocated = w.allocated ipv6 protocol ∙ capacity_translated ipv6 protocol translated
