-- ===== src/Translation/Entries.antt =====
-- The writes to the portmap that a forwarded packet makes, and the ends of a handler.
use nff_go_nat.Base.{ℕ, ◌<◌, ◌≡◌, ◌≢◌, refl, Bool, true, false, if◌then◌else◌, done}
use nff_go_nat.Base.Slice.{get_in_range}
use nff_go_nat.Net.{Endpoint, tuple, tuple6, zero_ipv6_addr, IPv4Address, IPv6Address}
use nff_go_nat.Packets.{Packet, L4, tcp, udp, icmp, icmpv6, other_l4}
use nff_go_nat.Config.{PortPair, InterfaceType, tcp_number, port_end, dir_send}
use nff_go_nat.PortAlloc.{get_public_port_portmap}
use nff_go_nat.PortAlloc.Entries.{write_entry, put-write_entry}
use nff_go_nat.Connections.{check_tcp_termination, get_addr_from_tuple}
use nff_go_nat.Connections.Links.{is_v6, port_number, is_zero}
use nff_go_nat.Connections.WellFormed.{
  WellFormed, is_translated, write_entry-private, write_entry-table, write_entry-WellFormed,
}
use nff_go_nat.Connections.Termination.{check_tcp_termination-WellFormed, tcp_allocated}
use nff_go_nat.Machine.{Env, St, return, dump_packet}
use nff_go_nat.Machine.Posts.{Ensures, Ensures-bind, SameButArp, dump_packet-pp}
use nff_go_nat.Translation.{touch_entry, note_segment, Target, finish}
use nff_go_nat.Translation.Rewrite.{target_of}

-- The parts of a table's value.
abbrev pub addr4 : Endpoint → IPv4Address
addr4 (tuple addr port) = addr
addr4 (tuple6 addr port) = 0

abbrev pub addr6 : Endpoint → IPv6Address
addr6 (tuple addr port) = zero_ipv6_addr
addr6 (tuple6 addr port) = addr

abbrev pub target : Endpoint → Target
target v = record { v4addr = addr4 v; v6addr = addr6 v; new_port = port_number v }

pub get_addr_from_tuple_lem :
    (v : Endpoint) (ipv6 : Bool)
    → is_v6 v ≡ ipv6
    → get_addr_from_tuple v ipv6 ≡ done (addr4 v, addr6 v, port_number v, is_zero v)
unfolding get_addr_from_tuple
get_addr_from_tuple_lem (tuple addr port) ipv6 e = rw (← e) refl
get_addr_from_tuple_lem (tuple6 addr port) ipv6 e = rw (← e) refl

pub target_of-target : (v : Endpoint) (ipv6 : Bool) → is_v6 v ≡ ipv6 → target_of ipv6 (target v) ≡ v
target_of-target (tuple addr port) ipv6 e = rw (← e) refl
target_of-target (tuple6 addr port) ipv6 e = rw (← e) refl

pub WellFormed-arp : (p q : PortPair) → SameButArp p q → WellFormed p → WellFormed q
unfolding get_public_port_portmap
WellFormed-arp p q (a, b, e) w = rw e (record {
  leads_back = w.leads_back;
  public_entries = w.public_entries;
  private_entries = w.private_entries;
  allocated = w.allocated;
  lower = w.lower;
  upper = w.upper;
})

module _ (now : ℕ) (pp : PortPair) (ipv6 : Bool) (w : WellFormed pp) where
  pub inside_translated :
      (protocol port : ℕ)
      → is_translated ipv6 protocol ≡ true
      → port < port_end
      → port < (get_public_port_portmap pp ipv6 protocol).len
  inside_translated protocol port t h = rw (w.allocated ipv6 protocol, t) h

  pub touch_entry-WellFormed :
      (protocol port : ℕ)
      → port < (get_public_port_portmap pp ipv6 protocol).len
      → (pp' : PortPair) × (touch_entry now ipv6 protocol port pp ≡ done pp')
        × WellFormed pp'
        × (pp'.private_port ≡ pp.private_port)
        × (pp'.public_port.translation_table ≡ pp.public_port.translation_table)
  unfolding touch_entry
  touch_entry-WellFormed protocol port h =
      let entry = (get_public_port_portmap pp ipv6 protocol).at port in
      (
        write_entry pp ipv6 protocol port (record entry { lastused = now }),
        rw (touch_entry, get_in_range (get_public_port_portmap pp ipv6 protocol) port h)
            (put-write_entry pp ipv6 protocol port (record entry { lastused = now }) h),
        write_entry-WellFormed pp ipv6 protocol port _ w,
        write_entry-private pp ipv6 protocol port (record entry { lastused = now }),
        write_entry-table pp ipv6 protocol port (record entry { lastused = now }),
      )

  segment_of_tcp :
      (flags port dir : ℕ) (is_static : Bool)
      → port < port_end
      → (pp' : PortPair) × ((if is_static
            then done pp
            else check_tcp_termination now pp ipv6 flags port dir)
          ≡ done pp')
        × WellFormed pp'
  segment_of_tcp flags port dir true h = (pp, refl, w)
  segment_of_tcp flags port dir false h =
      check_tcp_termination-WellFormed now pp ipv6 flags port dir w h

  pub note_segment-WellFormed :
      (l4 : L4) (port dir : ℕ)
      → port < port_end
      → (pp' : PortPair) × (note_segment now ipv6 l4 port dir pp ≡ done pp') × WellFormed pp'
  unfolding note_segment
  note_segment-WellFormed (tcp t) port dir h =
      let entry = (get_public_port_portmap pp ipv6 tcp_number).at port in
      let (pp', e, w') = segment_of_tcp t.tcp_flags port dir entry.is_static h in
      (
        pp',
        rw
            (
              note_segment,
              get_in_range (get_public_port_portmap pp ipv6 tcp_number) port
                  (rw (tcp_allocated pp ipv6 w) h),
            )
            e,
        w',
      )
  note_segment-WellFormed (udp u) port dir h = (pp, refl, w)
  note_segment-WellFormed (icmp i) port dir h = (pp, refl, w)
  note_segment-WellFormed (icmpv6 i) port dir h = (pp, refl, w)
  note_segment-WellFormed other_l4 port dir h = (pp, refl, w)

-- A well-formed pair and, for a packet that is forwarded, what holds of it and of that pair.
abbrev pub KeptWith : (Packet → PortPair → Type 0) → ℕ × Packet → PortPair → Type 0
KeptWith X r pp = WellFormed pp × (r.0 ≡ dir_send → X r.1 pp)

-- The same, of the packet alone.
abbrev pub Kept : (Packet → Type 0) → ℕ × Packet → PortPair → Type 0
Kept X = KeptWith (λ out _. X out)

pub finish-KeptWith :
    (env : Env) (X : Packet → PortPair → Type 0) (side : InterfaceType) (pkt : Packet) (dir : ℕ)
    (s : St)
    → WellFormed s.pp
    → dir ≢ dir_send
    → Ensures (KeptWith X) (finish env side pkt dir) s
unfolding finish
finish-KeptWith env X side pkt dir s w not_send =
    Ensures-bind (λ _ pp. pp ≡ s.pp) (KeptWith X) s (dump_packet env side pkt dir)
      (λ _. return (dir, pkt)) (dump_packet-pp env side pkt dir s)
      (λ a s' e. (rw e w, λ d. elim (not_send d) [ ]))

pub finish-Kept :
    (env : Env) (X : Packet → Type 0) (side : InterfaceType) (pkt : Packet) (dir : ℕ) (s : St)
    → WellFormed s.pp
    → dir ≢ dir_send
    → Ensures (Kept X) (finish env side pkt dir) s
finish-Kept env X side pkt dir s w not_send =
    finish-KeptWith env (λ out _. X out) side pkt dir s w not_send
