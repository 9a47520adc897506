-- ===== src/Translation/Egress.antt =====
-- nat/translation.go: PrivateToPublicTranslation.
use nff_go_nat.Base.{ℕ, Bool, not, ◌==◌, ◌&&◌, ◌||◌, if◌then◌else◌, Option, none, some, done, panic}
use nff_go_nat.Net.{MacAddress, Endpoint, same_bytes}
use nff_go_nat.Packets.{Packet, L4}
use nff_go_nat.Config.{IpPort, i_public, i_private, dir_drop, dir_send, dir_kni, pri2pub, has_kni}
use nff_go_nat.Connections.{allocate_new_egress_connection, get_addr_from_tuple}
use nff_go_nat.Checksums.{parse_all_known_l4}
use nff_go_nat.Machine.{Env, M, ◌>>=◌, ◌>>◌, lift, on_pair, the_port, dump_packet, learn}
use nff_go_nat.Neighbours.{get_mac_for_ipv4, get_mac_for_ipv6}
use nff_go_nat.Translation.{
  IpHdr, v4_hdr, v6_hdr, is_ipv6, cache_key, is_acquired, touch_entry, note_segment, Target,
  source_key, finish, with_src, emit, check_local, parse_packet_and_check_arp,
}

module _ (env : Env) where
  open env use {nff, now}

  -- The MAC address for the packet's destination.
  unfoldable pub next_hop : IpHdr → M (Option MacAddress)
  next_hop (v4_hdr h) = get_mac_for_ipv4 env i_public (nff.swap32 h.dst_addr)
  next_hop (v6_hdr h) = get_mac_for_ipv6 env i_public h.dst_addr

  -- From `if !zeroAddr` on, to the public side.
  unfoldable pub forward_out : Packet → IpHdr → L4 → Target → M (ℕ × Packet)
  forward_out pkt ip l4 t = do
    on_pair (note_segment now (is_ipv6 ip) l4 t.new_port pri2pub)
    mac ← next_hop ip
    elim mac [
      | none ↦ finish env i_private pkt dir_drop
      | some m ↦ emit env i_public (is_ipv6 ip) l4 (with_src env ip l4 t) m pkt
    ]

  unfoldable pub egress_found : Packet → IpHdr → L4 → ℕ → Endpoint → M (ℕ × Packet)
  egress_found pkt ip l4 protocol v = do
    (v4addr, v6addr, new_port, zero_addr) ← lift (get_addr_from_tuple v (is_ipv6 ip))
    on_pair (touch_entry now (is_ipv6 ip) protocol new_port)
    if zero_addr
        then finish env i_private pkt dir_kni
        else forward_out pkt ip l4
            (record { v4addr = v4addr; v6addr = v6addr; new_port = new_port })

  -- allocateNewEgressConnection, which changes the pair unless it fails.
  unfoldable pub open_connection : Bool → ℕ → Endpoint → M (Option Target)
  open_connection ipv6 protocol key s =
      elim (allocate_new_egress_connection now s.pp ipv6 protocol key) [
        | panic ↦ panic
        | done (none, pp) ↦ done (none, record s { pp = pp })
        | done (some (v4addr, v6addr, port), pp) ↦ done (
          some (record { v4addr = v4addr; v6addr = v6addr; new_port = port }),
          record s { pp = pp },
        )
      ]

  -- Without a free port the packet is dropped.
  unfoldable pub egress_opened : Packet → IpHdr → L4 → Option Target → M (ℕ × Packet)
  egress_opened pkt ip l4 none = finish env i_private pkt dir_drop
  egress_opened pkt ip l4 (some t) = forward_out pkt ip l4 t

  -- A packet without a translation entry opens a connection, once both addresses are known.
  unfoldable pub egress_unknown : Packet → IpHdr → L4 → ℕ → Endpoint → M (ℕ × Packet)
  egress_unknown pkt ip l4 protocol key = do
    learn i_private (cache_key ip) pkt.ether.saddr
    private ← the_port i_private
    public ← the_port i_public
    if not (is_acquired private (is_ipv6 ip)) || not (is_acquired public (is_ipv6 ip))
        then finish env i_private pkt dir_drop
        else (do opened ← open_connection (is_ipv6 ip) protocol key; egress_opened pkt ip l4 opened)

  unfoldable pub is_sent_to_us : IpPort → IpHdr → Bool
  is_sent_to_us port (v4_hdr h) = port.subnet.addr == nff.swap32 h.dst_addr
  is_sent_to_us port (v6_hdr h) =
      same_bytes port.subnet6.addr h.dst_addr
      || same_bytes port.subnet6.ll_addr h.dst_addr
      || same_bytes port.subnet6.multicast_addr h.dst_addr
      || same_bytes port.subnet6.ll_multicast_addr h.dst_addr

  unfoldable pub egress_by : Packet → IpHdr → L4 → ℕ → Endpoint → Option Endpoint → M (ℕ × Packet)
  egress_by pkt ip l4 protocol key none = egress_unknown pkt ip l4 protocol key
  egress_by pkt ip l4 protocol key (some v) = egress_found pkt ip l4 protocol v

  unfoldable pub egress_lookup : Packet → IpHdr → L4 → ℕ → ℕ → M (ℕ × Packet)
  egress_lookup pkt ip l4 protocol port = do
    private ← the_port i_private
    if has_kni private && is_acquired private (is_ipv6 ip) && is_sent_to_us private ip
        then finish env i_private pkt dir_kni
        else egress_by pkt ip l4 protocol (source_key env ip port)
            (private.translation_table protocol (source_key env ip port))

  -- Protocols that the code does not know are dropped.
  unfoldable pub egress_parsed : Packet → IpHdr → L4 → Option (ℕ × ℕ × ℕ) → M (ℕ × Packet)
  egress_parsed pkt ip l4 none = finish env i_private pkt dir_drop
  egress_parsed pkt ip l4 (some (protocol, src, dst)) =
      check_local env i_private pkt ip l4 protocol (source_key env ip src)
        (egress_lookup pkt ip l4 protocol src)

  unfoldable pub egress : Packet → IpHdr → L4 → M (ℕ × Packet)
  egress pkt ip l4 = egress_parsed pkt ip l4 (parse_all_known_l4 nff l4)

  unfoldable pub private_to_public_translation : Packet → M (ℕ × Packet)
  private_to_public_translation pkt = do
    dump_packet env i_private pkt dir_send
    parse_packet_and_check_arp env i_private pkt (egress pkt) pkt.l3
