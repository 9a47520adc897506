-- ===== src/Neighbours.antt =====
-- nat/arp.go and nat/neigh.go: ARP and ICMPv6 neighbour discovery.
pub mod Caches
use nff_go_nat.Base.{
  ℕ, zero, suc, Bool, not, ◌==◌, ◌&&◌, ◌||◌, if◌then◌else◌, Option, none, some, List, [], ◌∷◌,
}
use nff_go_nat.Net.{MacAddress, IPv4Address, IPv6Address, ip4, ip6, same_bytes, zero_mac}
use nff_go_nat.Packets.{Packet, ArpHdr, IcmpHdr}
use nff_go_nat.Config.{IpPort, InterfaceType, dir_drop, dir_send, dir_kni, has_kni}
use nff_go_nat.Checksums.{set_ipv6_icmp_checksum}
use nff_go_nat.Machine.{Env, M, ◌>>=◌, ◌>>◌, return, the_port, send_packet, learn}

-- Values of the constants of nff-go: ARP operations, ICMPv6 types and option types.
abbrev pub arp_request : ℕ
arp_request = 1

abbrev pub arp_reply : ℕ
arp_reply = 2

abbrev pub neighbor_solicitation : ℕ
neighbor_solicitation = 135

abbrev pub neighbor_advertisement : ℕ
neighbor_advertisement = 136

abbrev pub nd_source_link_layer_address : ℕ
nd_source_link_layer_address = 1

abbrev pub nd_target_link_layer_address : ℕ
nd_target_link_layer_address = 2

-- An element of a fixed-size array.
abbrev pub byte_at : List ℕ → ℕ → ℕ
byte_at [] i = 0
byte_at (b ∷ bs) zero = b
byte_at (b ∷ bs) (suc i) = byte_at bs i

-- DirKNI if the port has a KNI interface, and DirDROP if not.
abbrev pub kni_or_drop : IpPort → ℕ
kni_or_drop port = if has_kni port then dir_kni else dir_drop

module _ (env : Env) (side : InterfaceType) where
  open env use {nff}

  -- `if vlan != nil { answerPacket.AddVLANTag(SwapBytesUint16(vlan.TCI)) }`
  unfoldable pub tag_answer : Packet → Option ℕ → Packet
  tag_answer answer none = answer
  tag_answer answer (some tci) = nff.add_vlan_tag answer (nff.swap16 tci)

  -- `if port.Vlan != 0 { requestPacket.AddVLANTag(port.Vlan) }`
  unfoldable pub tag_request : IpPort → Packet → Packet
  tag_request port request = if port.vlan == 0 then request else nff.add_vlan_tag request port.vlan

  unfoldable pub answer_arp : ArpHdr → Option ℕ → M ℕ
  answer_arp arp vlan = do
    port ← the_port side
    let reply =
        nff.arp_reply_packet port.src_mac_address arp.sha (nff.array_to_ipv4 arp.tpa)
          (nff.array_to_ipv4 arp.spa)
    send_packet env side (tag_answer reply vlan)
    return dir_drop

  -- Whether a request asks for the port's own address, with a blank MAC address.
  unfoldable pub asks_for_us : IpPort → ArpHdr → Bool
  asks_for_us port arp =
      nff.bytes_to_ipv4 (byte_at arp.tpa 0) (byte_at arp.tpa 1) (byte_at arp.tpa 2)
          (byte_at arp.tpa 3)
        == nff.swap32 port.subnet.addr
      && same_bytes arp.tha zero_mac

  unfoldable pub handle_arp : ArpHdr → Option ℕ → M ℕ
  handle_arp arp vlan = do
    port ← the_port side
    if not (nff.swap16 arp.operation == arp_request)
        then (if nff.swap16 arp.operation == arp_reply
            then (do
              learn side (ip4 (nff.swap32 (nff.array_to_ipv4 arp.spa))) arp.sha
              return (kni_or_drop port))
            else return (kni_or_drop port))
        else if has_kni port
        then return dir_kni
        else if asks_for_us port arp
        then answer_arp arp vlan
        else return dir_drop

  unfoldable pub send_arp_request : IPv4Address → M (Unit {0})
  send_arp_request ip = do
    port ← the_port side
    let request =
        nff.arp_request_packet port.src_mac_address (nff.swap32 port.subnet.addr) (nff.swap32 ip)
    send_packet env side (tag_request port request)

  unfoldable pub get_mac_for_ipv4 : IPv4Address → M (Option MacAddress)
  get_mac_for_ipv4 ip = do
    port ← the_port side
    if port.static_arp_mode
        then return (some port.dst_mac_address)
        else elim (port.arp_table (ip4 ip)) [
          | some mac ↦ return (some mac)
          | none ↦ do send_arp_request ip; return none
        ]

  unfoldable pub fix_icmp6 : Packet → Packet
  fix_icmp6 pkt =
      set_ipv6_icmp_checksum nff pkt.l3 pkt (not env.no_calculate_checksum)
        (not env.no_hw_tx_checksum)

  -- The answer to a solicitation, if it carries its sender's link-layer address.
  unfoldable pub answer_solicitation : IcmpHdr → IPv6Address → Option ℕ → M ℕ
  answer_solicitation icmp src vlan = do
    port ← the_port side
    elim icmp.nd_option [
      | none ↦ return dir_drop
      | some o ↦
          if o.option_type == nd_source_link_layer_address
          then (do
            let advertisement =
                nff.advertisement_packet port.src_mac_address o.link_layer_address icmp.target_addr
                  src
            send_packet env side (fix_icmp6 (tag_answer advertisement vlan))
            return dir_drop)
          else return dir_drop
    ]

  unfoldable pub note_advertisement : IcmpHdr → M (Unit {0})
  note_advertisement icmp = elim icmp.nd_option [
    | none ↦ return tt
    | some o ↦
        if o.option_type == nd_target_link_layer_address
        then learn side (ip6 icmp.target_addr) o.link_layer_address
        else return tt
  ]

  unfoldable pub handle_ipv6_neighbor_discovery : IcmpHdr → IPv6Address → Option ℕ → M ℕ
  handle_ipv6_neighbor_discovery icmp src vlan = do
    port ← the_port side
    if icmp.icmp_type == neighbor_solicitation
        then (if has_kni port
            then return dir_kni
            else if same_bytes icmp.target_addr port.subnet6.addr
                || same_bytes icmp.target_addr port.subnet6.ll_addr
            then answer_solicitation icmp src vlan
            else return dir_drop)
        else if icmp.icmp_type == neighbor_advertisement
        then (do note_advertisement icmp; return (kni_or_drop port))
        else return dir_send

  unfoldable pub send_nd_neighbor_solicitation_request : IPv6Address → M (Unit {0})
  send_nd_neighbor_solicitation_request ip = do
    port ← the_port side
    let request = nff.solicitation_packet port.src_mac_address port.subnet6.addr ip
    send_packet env side (fix_icmp6 (tag_request port request))

  unfoldable pub get_mac_for_ipv6 : IPv6Address → M (Option MacAddress)
  get_mac_for_ipv6 ip = do
    port ← the_port side
    if port.static_arp_mode
        then return (some port.dst_mac_address)
        else elim (port.arp_table (ip6 ip)) [
          | some mac ↦ return (some mac)
          | none ↦ do send_nd_neighbor_solicitation_request ip; return none
        ]
