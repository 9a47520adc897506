-- ===== src/Dhcp6.antt =====
-- nat/dhcp6.go: how a port gets its IPv6 address. The data of an option is the list of its bytes.
use nff_go_nat.Base.{
  ℕ, ◌%◌, ◌^◌, Bool, true, false, not, ◌==◌, ◌&&◌, if◌then◌else◌, Option, none, some, List, [], ◌∷◌,
  ◌++◌, length, replicate,
}
use nff_go_nat.Net.{IPv6Address, zero_ipv6_addr}
use nff_go_nat.Packets.{Packet, UdpHdr, udp, v6_packet}
use nff_go_nat.Nff.{Dhcpv6Option, Dhcpv6}
use nff_go_nat.Config.{IpPort, Dhcpv6State, InterfaceType}
use nff_go_nat.Wire.{put_at}
use nff_go_nat.OptionCodec.{
  Iana, encode_iana, decode_iana, decode_ia_address, to16, decode_status, encode_fqdn,
}
use nff_go_nat.Checksums.{set_ipv6_udp_checksum}
use nff_go_nat.Machine.{
  Env, M, ◌>>=◌, ◌>>◌, return, lift, the_port, modify_port, send_packet, set_link_ipv6_kni_address,
}
use nff_go_nat.Neighbours.{tag_request}

abbrev pub dhcpv6_client_port : ℕ
dhcpv6_client_port = 546

abbrev pub dhcpv6_server_port : ℕ
dhcpv6_server_port = 547

abbrev pub broadcast_ipv6 : IPv6Address
broadcast_ipv6 = 0xff ∷ 2 ∷ replicate 11 0 ++ (1 ∷ 0 ∷ 2 ∷ [])

abbrev pub single_ip_mask : IPv6Address
single_ip_mask = replicate 16 0xff

-- Values of gopacket's constants: message types, options and a status of DHCPv6 (RFC 3315, RFC 4704).
abbrev pub solicit : ℕ
solicit = 1

abbrev pub advertise : ℕ
advertise = 2

abbrev pub request6 : ℕ
request6 = 3

abbrev pub reply6 : ℕ
reply6 = 7

abbrev pub opt_client_id : ℕ
opt_client_id = 1

abbrev pub opt_server_id6 : ℕ
opt_server_id6 = 2

abbrev pub opt_iana : ℕ
opt_iana = 3

abbrev pub opt_ia_addr : ℕ
opt_ia_addr = 5

abbrev pub opt_status_code : ℕ
opt_status_code = 13

abbrev pub opt_fqdn : ℕ
opt_fqdn = 39

abbrev pub status_success : ℕ
status_success = 0

-- layers.NewDHCPv6Option: the length is that of the data.
unfoldable pub new_option6 : ℕ → List ℕ → Dhcpv6Option
new_option6 code contents = record {
  code = code;
  len = length contents % 2 ^ 16;
  contents = contents;
}

unfoldable pub get_dhcpv6_option : List Dhcpv6Option → ℕ → Option Dhcpv6Option
get_dhcpv6_option [] code = none
get_dhcpv6_option (o ∷ os) code = if o.code == code then some o else get_dhcpv6_option os code

-- `dhcpv6State{}`
abbrev pub no_dhcpv6_state : Dhcpv6State
no_dhcpv6_state = record {
  last_dhcpv6_packet_type_sent = 0;
  dhcpv6_transaction_id = 0 ∷ 0 ∷ 0 ∷ [];
}

-- The state in which the client begins anew with a solicit request.
unfoldable pub reset_dhcpv6 : IpPort → IpPort
reset_dhcpv6 port = record port {
  subnet6 = record port.subnet6 { address_acquired = false; ds = no_dhcpv6_state };
}

unfoldable pub note_sent6 : ℕ → IpPort → IpPort
note_sent6 packet_type port = record port {
  subnet6 = record port.subnet6 {
    ds = record port.subnet6.ds { last_dhcpv6_packet_type_sent = packet_type };
  };
}

unfoldable pub set_transaction : List ℕ → IpPort → IpPort
set_transaction id port = record port {
  subnet6 = record port.subnet6 { ds = record port.subnet6.ds { dhcpv6_transaction_id = id } };
}

module _ (env : Env) (side : InterfaceType) where
  open env use {nff}

  -- The UDP packet that carries a message.
  unfoldable pub dhcpv6_frame : IpPort → List ℕ → Packet
  dhcpv6_frame port payload = record {
    ether = record { saddr = port.src_mac_address; daddr = nff.multicast_mac broadcast_ipv6 };
    vlan = none;
    l3 =
        v6_packet
          (record { src_addr = port.subnet6.ll_addr; dst_addr = broadcast_ipv6; hop_limits = 1 })
          (udp (record {
            src_port = nff.swap16 dhcpv6_client_port;
            dst_port = nff.swap16 dhcpv6_server_port;
            dgram_cksum = 0;
            payload = payload;
          }));
    ol_flags = none;
  }

  -- The options that end each message of the client.
  unfoldable pub client_options : IpPort → List Dhcpv6Option
  client_options port =
      new_option6 opt_client_id (nff.client_duid port.src_mac_address)
      ∷ new_option6 opt_fqdn (encode_fqdn (record { flags = 0; domain_name = env.host_name }))
      ∷ []

  -- The transaction id is copied into a nil slice, which takes nothing.
  unfoldable pub compose_and_send_dhcpv6_packet : ℕ → List Dhcpv6Option → M (Unit {0})
  compose_and_send_dhcpv6_packet packet_type options = do
    port ← the_port side
    let payload = nff.serialize_dhcpv6 (record {
      msg_type = packet_type;
      transaction_id = [];
      options = options ++ client_options port;
    })
    let frame = tag_request env side port (dhcpv6_frame port payload)
    send_packet env side (
        set_ipv6_udp_checksum nff frame.l3 frame (not env.no_calculate_checksum)
          (not env.no_hw_tx_checksum))
    modify_port side (note_sent6 packet_type)

  -- `id` and `iaid` are the random numbers that the code draws.
  unfoldable pub send_dhcpv6_solicit_request : List ℕ → ℕ → M (Unit {0})
  send_dhcpv6_solicit_request id iaid = do
    modify_port side (set_transaction id)
    compose_and_send_dhcpv6_packet solicit (
        new_option6 opt_iana (encode_iana (record { iaid = iaid; t1 = 0; t2 = 0; options = [] }))
        ∷ [])

  -- The status that the answer reports: success without an option, none if it cannot be decoded.
  unfoldable pub status_of : Dhcpv6 → M (Option ℕ)
  status_of dhcpv6 = elim (get_dhcpv6_option dhcpv6.options opt_status_code) [
    | none ↦ return (some status_success)
    | some o ↦ do
      decoded ← lift (decode_status o.contents (length o.contents))
      elim decoded [ none ↦ return none | some sc ↦ return (some sc.status_code) ]
  ]

  unfoldable pub is_success : Option ℕ → Bool
  is_success none = false
  is_success (some status) = status == status_success

  unfoldable pub check_dhcpv6_server_answer_and_get_iana : Dhcpv6 → M (Option Dhcpv6Option)
  check_dhcpv6_server_answer_and_get_iana dhcpv6 = do
    status ← status_of dhcpv6
    if not (is_success status)
        then (do modify_port side reset_dhcpv6; return none)
        else elim (get_dhcpv6_option dhcpv6.options opt_iana) [
          | some o ↦ return (some o)
          | none ↦ do modify_port side reset_dhcpv6; return none
        ]

  unfoldable pub server_id_options : Option Dhcpv6Option → List Dhcpv6Option
  server_id_options none = []
  server_id_options (some o) = o ∷ []

  unfoldable pub handle_dhcpv6_advertise : Dhcpv6 → M (Unit {0})
  handle_dhcpv6_advertise dhcpv6 = do
    iana ← check_dhcpv6_server_answer_and_get_iana dhcpv6
    elim iana [
      | none ↦ modify_port side reset_dhcpv6
      | some o ↦
          compose_and_send_dhcpv6_packet request6
            (o ∷ server_id_options (get_dhcpv6_option dhcpv6.options opt_server_id6))
    ]

  unfoldable pub acquire6 : List ℕ → IpPort → IpPort
  acquire6 address port =
      let addr = put_at port.subnet6.addr 0 (to16 address) in
      record port {
        subnet6 = record port.subnet6 {
          addr = addr;
          multicast_addr = nff.multicast_addr addr;
          mask = single_ip_mask;
          address_acquired = true;
        };
      }

  unfoldable pub take_address : List ℕ → M (Unit {0})
  take_address address = do
    modify_port side (acquire6 address)
    port ← the_port side
    set_link_ipv6_kni_address env side port.subnet6.addr port.subnet6.mask zero_ipv6_addr
        zero_ipv6_addr

  -- The first address option of the association is taken.
  unfoldable pub take_iana : Iana → M (Unit {0})
  take_iana iana = elim (get_dhcpv6_option iana.options opt_ia_addr) [
    | none ↦ modify_port side reset_dhcpv6
    | some o ↦ do
      decoded ← lift (decode_ia_address o.contents (length o.contents))
      elim decoded [ none ↦ modify_port side reset_dhcpv6 | some ia ↦ take_address ia.address ]
  ]

  unfoldable pub handle_dhcpv6_reply : Dhcpv6 → M (Unit {0})
  handle_dhcpv6_reply dhcpv6 = do
    iana ← check_dhcpv6_server_answer_and_get_iana dhcpv6
    elim iana [
      | none ↦ modify_port side reset_dhcpv6
      | some o ↦ do
        decoded ← lift (decode_iana o.contents (length o.contents))
        elim decoded [ none ↦ modify_port side reset_dhcpv6 | some ia ↦ take_iana ia ]
    ]

  unfoldable pub is_dhcpv6 : UdpHdr → Bool
  is_dhcpv6 u =
      u.dst_port == nff.swap16 dhcpv6_client_port && u.src_port == nff.swap16 dhcpv6_server_port

  unfoldable pub dispatch_dhcpv6 : Dhcpv6 → M (Unit {0})
  dispatch_dhcpv6 dhcpv6 = do
    port ← the_port side
    let last = port.subnet6.ds.last_dhcpv6_packet_type_sent
    if last == solicit && dhcpv6.msg_type == advertise
        then handle_dhcpv6_advertise dhcpv6
        else if last == request6 && dhcpv6.msg_type == reply6
        then handle_dhcpv6_reply dhcpv6
        else modify_port side reset_dhcpv6

  -- Whether the packet was for the client.
  unfoldable pub handle_dhcpv6 : UdpHdr → M Bool
  handle_dhcpv6 u = do
    port ← the_port side
    if port.subnet6.address_acquired
        then return false
        else if not (is_dhcpv6 u)
        then return false
        else elim (nff.parse_dhcpv6 u.payload) [
          | none ↦ return false
          | some dhcpv6 ↦ do dispatch_dhcpv6 dhcpv6; return true
        ]
