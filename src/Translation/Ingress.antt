-- ===== src/Translation/Ingress.antt =====
-- nat/translation.go: PublicToPrivateTranslation.
use nff_go_nat.Base.{Option, ℕ, not, ◌&&◌, ◌||◌, if◌then◌else◌, none, some}
use nff_go_nat.Base.Slice.{get}
use nff_go_nat.Net.{Endpoint}
use nff_go_nat.Packets.{Packet, L4}
use nff_go_nat.Config.{i_public, i_private, dir_drop, dir_send, dir_kni, pub2pri, has_kni}
use nff_go_nat.PortAlloc.{get_portmap, delete_old_connection}
use nff_go_nat.Connections.{get_addr_from_tuple}
use nff_go_nat.Checksums.{parse_all_known_l4}
use nff_go_nat.Machine.{Env, M, ◌>>=◌, ◌>>◌, lift, on_pair, the_port, dump_packet, learn}
use nff_go_nat.Icmp.{is_stale}
use nff_go_nat.Translation.{
  IpHdr, is_ipv6, cache_key, is_acquired, touch_entry, note_segment, Target, dest_key, finish,
  find_mac, with_dst, emit, check_local, parse_packet_and_check_arp,
}

module _ (env : Env) where
  open env use {nff, now}

  -- From `if !zeroAddr` on, to the private side.
  unfoldable pub forward_in : Packet → IpHdr → L4 → ℕ → Target → M (ℕ × Packet)
  forward_in pkt ip l4 port t = do
    on_pair (note_segment now (is_ipv6 ip) l4 port pub2pri)
    mac ← find_mac env i_private (is_ipv6 ip) t.v4addr t.v6addr
    elim mac [
      | none ↦ finish env i_public pkt dir_drop
      | some m ↦ emit env i_private (is_ipv6 ip) l4 (with_dst env ip l4 t) m pkt
    ]

  -- A packet with a translation entry: it must be static or in use.
  unfoldable pub ingress_found : Packet → IpHdr → L4 → ℕ → ℕ → Endpoint → M (ℕ × Packet)
  ingress_found pkt ip l4 protocol port v = do
    (v4addr, v6addr, new_port, zero_addr) ← lift (get_addr_from_tuple v (is_ipv6 ip))
    public ← the_port i_public
    entry ← lift (get (get_portmap public (is_ipv6 ip) protocol) port)
    if entry.is_static || not (is_stale now entry)
        then (do
          on_pair (touch_entry now (is_ipv6 ip) protocol port)
          if zero_addr
              then finish env i_public pkt dir_kni
              else forward_in pkt ip l4 port
                  (record { v4addr = v4addr; v6addr = v6addr; new_port = new_port }))
        else (do
          on_pair λ pp. delete_old_connection pp (is_ipv6 ip) protocol port
          finish env i_public pkt dir_drop)

  -- A packet without one is dropped, or goes to the KNI interface.
  unfoldable pub ingress_unknown : Packet → IpHdr → M (ℕ × Packet)
  ingress_unknown pkt ip = do
    learn i_public (cache_key ip) pkt.ether.saddr
    port ← the_port i_public
    finish env i_public pkt
        (if has_kni port && is_acquired port (is_ipv6 ip) then dir_kni else dir_drop)

  unfoldable pub ingress_by : Packet → IpHdr → L4 → ℕ → ℕ → Option Endpoint → M (ℕ × Packet)
  ingress_by pkt ip l4 protocol port none = ingress_unknown pkt ip
  ingress_by pkt ip l4 protocol port (some v) = ingress_found pkt ip l4 protocol port v

  unfoldable pub ingress_lookup : Packet → IpHdr → L4 → ℕ → ℕ → M (ℕ × Packet)
  ingress_lookup pkt ip l4 protocol port = do
    public ← the_port i_public
    ingress_by pkt ip l4 protocol port (public.translation_table protocol (dest_key env ip port))

  -- Protocols that the code does not know are dropped.
  unfoldable pub ingress_parsed : Packet → IpHdr → L4 → Option (ℕ × ℕ × ℕ) → M (ℕ × Packet)
  ingress_parsed pkt ip l4 none = finish env i_public pkt dir_drop
  ingress_parsed pkt ip l4 (some (protocol, src, dst)) =
      check_local env i_public pkt ip l4 protocol (dest_key env ip dst)
        (ingress_lookup pkt ip l4 protocol dst)

  unfoldable pub ingress : Packet → IpHdr → L4 → M (ℕ × Packet)
  ingress pkt ip l4 = ingress_parsed pkt ip l4 (parse_all_known_l4 nff l4)

  unfoldable pub public_to_private_translation : Packet → M (ℕ × Packet)
  public_to_private_translation pkt = do
    dump_packet env i_public pkt dir_send
    parse_packet_and_check_arp env i_public pkt (ingress pkt) pkt.l3
