-- ===== src/Dhcp.antt =====
-- nat/dhcp.go: how a port gets its IPv4 address.
use nff_go_nat.Base.{
  ℕ, zero, Bool, true, false, not, ◌==◌, ◌&&◌, if◌then◌else◌, Option, none, some, List, [], ◌∷◌,
  ◌++◌, Outcome, done, panic,
}
use nff_go_nat.Net.{IPv4Address, MacAddress}
use nff_go_nat.Packets.{Packet, UdpHdr, udp, v4_packet}
use nff_go_nat.Nff.{Nff, DhcpOption, DhcpReply}
use nff_go_nat.Config.{IpPort, DhcpState, InterfaceType}
use nff_go_nat.Checksums.{set_ipv4_udp_checksum}
use nff_go_nat.Machine.{
  Env, M, ◌>>=◌, ◌>>◌, return, lift, the_port, modify_port, send_packet, set_link_ipv4_kni_address,
}
use nff_go_nat.Neighbours.{tag_request}

abbrev pub dhcp_server_port : ℕ
dhcp_server_port = 67

abbrev pub dhcp_client_port : ℕ
dhcp_client_port = 68

abbrev pub broadcast_ipv4 : IPv4Address
broadcast_ipv4 = 0xffffffff

abbrev pub broadcast_mac : MacAddress
broadcast_mac = 0xff ∷ 0xff ∷ 0xff ∷ 0xff ∷ 0xff ∷ 0xff ∷ []

-- Values of gopacket's constants: message types and options of DHCP (RFC 2132).
abbrev pub discover : ℕ
discover = 1

abbrev pub offer : ℕ
offer = 2

abbrev pub request : ℕ
request = 3

abbrev pub acknowledge : ℕ
acknowledge = 5

abbrev pub opt_subnet_mask : ℕ
opt_subnet_mask = 1

abbrev pub opt_hostname : ℕ
opt_hostname = 12

abbrev pub opt_request_ip : ℕ
opt_request_ip = 50

abbrev pub opt_message_type : ℕ
opt_message_type = 53

abbrev pub opt_server_id : ℕ
opt_server_id = 54

abbrev pub opt_params_request : ℕ
opt_params_request = 55

abbrev pub new_option : ℕ → List ℕ → DhcpOption
new_option t bytes = record { option_type = t; contents = bytes }

-- The parameters that every request asks for.
abbrev pub dhcp_options : List DhcpOption
dhcp_options = new_option opt_params_request (1 ∷ 28 ∷ 2 ∷ 3 ∷ 15 ∷ 6 ∷ 119 ∷ 12 ∷ 26 ∷ []) ∷ []

-- `dhcpState{}`
abbrev pub no_dhcp_state : DhcpState
no_dhcp_state = record { last_dhcp_packet_type_sent = 0; dhcp_transaction_id = 0 }

unfoldable pub get_dhcp_option : List DhcpOption → ℕ → Option (List ℕ)
get_dhcp_option [] t = none
get_dhcp_option (o ∷ os) t = if o.option_type == t then some o.contents else get_dhcp_option os t

-- `data[0]`
unfoldable pub first_byte : List ℕ → Outcome ℕ
first_byte [] = panic
first_byte (b ∷ bs) = done b

-- The state in which the client begins anew with a discover request.
unfoldable pub reset_dhcp : IpPort → IpPort
reset_dhcp port = record port {
  subnet = record port.subnet { address_acquired = false; ds = no_dhcp_state };
}

unfoldable pub note_sent : ℕ → IpPort → IpPort
note_sent packet_type port = record port {
  subnet = record port.subnet {
    ds = record port.subnet.ds { last_dhcp_packet_type_sent = packet_type };
  };
}

-- net.IP.To4: four bytes, or the last four of an address that maps an IPv4 address; nil otherwise.
unfoldable pub to4 : List ℕ → Option (List ℕ)
to4 (a ∷ b ∷ c ∷ d ∷ []) = some (a ∷ b ∷ c ∷ d ∷ [])
to4
      (zero ∷ zero ∷ zero ∷ zero ∷ zero ∷ zero ∷ zero ∷ zero ∷ zero ∷ zero ∷ x ∷ y ∷ a ∷ b ∷ c ∷ d
        ∷ []) =
    if x == 0xff && y == 0xff then some (a ∷ b ∷ c ∷ d ∷ []) else none
to4 _ = none

module _ (nff : Nff) where
  -- convertIPv4 of nat/config.go: an error for nil and for more than four bytes. Less than four are
  -- indexed out of range.
  unfoldable pub convert_ipv4 : Option (List ℕ) → Outcome (Option IPv4Address)
  convert_ipv4 none = done none
  convert_ipv4 (some (a ∷ b ∷ c ∷ d ∷ [])) = done (some (nff.bytes_to_ipv4 d c b a))
  convert_ipv4 (some (a ∷ b ∷ c ∷ d ∷ e ∷ rest)) = done none
  convert_ipv4 (some _) = panic

-- The address that `addr, _ = convertIPv4(…)` assigns.
abbrev pub or_zero : Option IPv4Address → IPv4Address
or_zero none = 0
or_zero (some a) = a

module _ (env : Env) (side : InterfaceType) where
  open env use {nff}

  -- The UDP packet that carries a request.
  unfoldable pub dhcp_frame : IpPort → List ℕ → Packet
  dhcp_frame port payload = record {
    ether = record { saddr = port.src_mac_address; daddr = broadcast_mac };
    vlan = none;
    l3 =
        v4_packet (record { src_addr = 0; dst_addr = broadcast_ipv4; hdr_checksum = 0 })
          (udp (record {
            src_port = nff.swap16 dhcp_client_port;
            dst_port = nff.swap16 dhcp_server_port;
            dgram_cksum = 0;
            payload = payload;
          }));
    ol_flags = none;
  }

  unfoldable pub compose_and_send_dhcp_packet : ℕ → List DhcpOption → M (Unit {0})
  compose_and_send_dhcp_packet packet_type options = do
    port ← the_port side
    let payload = nff.serialize_dhcp (record {
      xid = port.subnet.ds.dhcp_transaction_id;
      client_hw_addr = port.src_mac_address;
      options =
          options
          ++ (new_option opt_message_type (packet_type ∷ [])
              ∷ new_option opt_hostname env.host_name
              ∷ []);
    })
    let frame = tag_request env side port (dhcp_frame port payload)
    send_packet env side (
        set_ipv4_udp_checksum nff frame.l3 frame (not env.no_calculate_checksum)
          (not env.no_hw_tx_checksum))
    modify_port side (note_sent packet_type)

  -- `xid` is the random number that the code draws.
  unfoldable pub send_dhcp_discover_request : ℕ → M (Unit {0})
  send_dhcp_discover_request xid = do
    modify_port side λ port. record port {
      subnet = record port.subnet { ds = record port.subnet.ds { dhcp_transaction_id = xid } };
    }
    compose_and_send_dhcp_packet discover dhcp_options

  unfoldable pub send_dhcp_request_request : List ℕ → List ℕ → M (Unit {0})
  send_dhcp_request_request server_ip client_ip = compose_and_send_dhcp_packet request (
      dhcp_options
      ++ (new_option opt_server_id server_ip ∷ new_option opt_request_ip client_ip ∷ []))

  unfoldable pub handle_dhcp_offer : DhcpReply → M (Unit {0})
  handle_dhcp_offer dhcp = send_dhcp_request_request dhcp.next_server_ip dhcp.your_client_ip

  unfoldable pub acquire : IPv4Address → IPv4Address → IpPort → IpPort
  acquire addr mask port = record port {
    subnet = record port.subnet { addr = addr; mask = mask; address_acquired = true };
  }

  unfoldable pub handle_dhcp_ack : DhcpReply → M (Unit {0})
  handle_dhcp_ack dhcp = elim (get_dhcp_option dhcp.options opt_subnet_mask) [
    | none ↦ modify_port side reset_dhcp
    | some bytes ↦ do
      addr ← lift (convert_ipv4 nff (to4 dhcp.your_client_ip))
      mask ← lift (convert_ipv4 nff (some bytes))
      modify_port side (acquire (or_zero addr) (or_zero mask))
      set_link_ipv4_kni_address env side (or_zero addr) (or_zero mask) 0 0
  ]

  -- Whether the packet goes from the DHCP server port to the client port.
  unfoldable pub is_dhcp : UdpHdr → Bool
  is_dhcp u = u.dst_port == nff.swap16 dhcp_client_port && u.src_port == nff.swap16 dhcp_server_port

  -- `last == sent && Data[0] == wanted`, which does not look at the data if the first test fails.
  unfoldable pub answers : ℕ → ℕ → ℕ → List ℕ → Outcome Bool
  answers last sent wanted bytes =
      if last == sent
      then elim (first_byte bytes) [ done b ↦ done (b == wanted) | panic ↦ panic ]
      else done false

  unfoldable pub dispatch_dhcp : DhcpReply → List ℕ → M (Unit {0})
  dispatch_dhcp dhcp message_type = do
    port ← the_port side
    let last = port.subnet.ds.last_dhcp_packet_type_sent
    is_offer ← lift (answers last discover offer message_type)
    is_ack ← lift (if is_offer then done false else answers last request acknowledge message_type)
    if is_offer
        then handle_dhcp_offer dhcp
        else if is_ack
        then handle_dhcp_ack dhcp
        else modify_port side reset_dhcp

  -- Whether the packet was for the client: a message that is parsed and has a type.
  unfoldable pub handle_typed : DhcpReply → Option (List ℕ) → M Bool
  handle_typed dhcp none = return false
  handle_typed dhcp (some message_type) = do dispatch_dhcp dhcp message_type; return true

  unfoldable pub handle_parsed : Option DhcpReply → M Bool
  handle_parsed none = return false
  handle_parsed (some dhcp) = handle_typed dhcp (get_dhcp_option dhcp.options opt_message_type)

  unfoldable pub handle_dhcp : UdpHdr → M Bool
  handle_dhcp u = do
    port ← the_port side
    if port.subnet.address_acquired
        then return false
        else if not (is_dhcp u)
        then return false
        else handle_parsed (nff.parse_dhcp u.payload)
