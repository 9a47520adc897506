-- ===== src/SettingsTests.antt =====
-- Concrete runs of the readers of settings, the gRPC server and the DHCP clients' loop, and the
-- theorems about them at concrete inputs.
use nff_go_nat.Base.{
  ℕ, ◌≡◌, ◌↔◌, refl, Bool, true, false, List, [], ◌∷◌, none, some, replicate, Returns, arith, ◌++◌,
}
use nff_go_nat.Base.Results.{ok}
use nff_go_nat.Net.{Endpoint, zero_ipv6_addr}
use nff_go_nat.Connections.Links.{is_zero}
use nff_go_nat.Connections.WellFormed.{WellFormed}
use nff_go_nat.Nff.{DhcpReply}
use nff_go_nat.Packets.{UdpHdr}
use nff_go_nat.Config.{Config, PortPair, i_public, has_kni}
use nff_go_nat.Machine.{Env, St, port_at, set_port}
use nff_go_nat.Machine.Partial.{Partly}
use nff_go_nat.Dhcp.{handle_dhcp}
use nff_go_nat.Kernel.{Kernel, KernelCall}
use nff_go_nat.Text.{codes, contains, split_host_port}
use nff_go_nat.Text.Numerals.{parse_uint}
use nff_go_nat.Text.Ip.{parse_ip, parse_cidr}
use nff_go_nat.Reading.{read_config}
use nff_go_nat.Reading.Readable.{IsReadable, reading}
use nff_go_nat.Reading.Accepts.{read_config_iff}
use nff_go_nat.Server.{
  ServerState, Found, InterfaceAddressChangeRequest, PortForwardingChangeRequest,
  get_port_and_pair_by_id, handle_port_forwarding, put_back,
}
use nff_go_nat.Server.Address.{update_port}
use nff_go_nat.Server.Lookup.{Finds, get_port_and_pair_by_id_lem}
use nff_go_nat.Server.AddressReply.{
  Readdresses, linking, readdressed, change_interface_address4_lem,
}
use nff_go_nat.Server.Pairs.{AllSound}
use nff_go_nat.Server.RuleChanges.{handle_port_forwarding-AllSound}
use nff_go_nat.Server.AddressReply6.{Readdresses6, linking6, change_interface_address6_lem}
use nff_go_nat.Control.{convert_forwarded_port}
use nff_go_nat.Client.{sign_of, known_protocol, protocol_value, rule_request_of}
use nff_go_nat.Client.Messages.{Converts, rule_request_of-Converts}
use nff_go_nat.Program.{set_dump_control}
use nff_go_nat.Program.DumpFlags.{set_dump_control_lem}
use nff_go_nat.RequestLoop.{Draws, request_pair}
use nff_go_nat.RequestLoop.Rounds.{RoundOf, request_pair-RoundOf}
use nff_go_nat.RequestLoop.Acquisition.{OnlyAcknowledged, handle_dhcp-OnlyAcknowledged}
use nff_go_nat.Flows.{flow_graph}
use nff_go_nat.Flows.Routes.{Routes, flow_graph-Routes}
use nff_go_nat.Setup.{init_state}
use nff_go_nat.Setup.Fresh.{init_state-WellFormed}
use nff_go_nat.System.{with_pairs, started, Reach, here, next, address_changed}
use nff_go_nat.System.Reachable.{Reach-private_keys}
use nff_go_nat.Samples.{nff, env, configured, subnet4}

-- The texts of config-kni.json, and others.
host_v4 :
    parse_ip (codes "192.168.14.2")
    ≡ some (0 ∷ 0 ∷ 0 ∷ 0 ∷ 0 ∷ 0 ∷ 0 ∷ 0 ∷ 0 ∷ 0 ∷ 255 ∷ 255 ∷ 192 ∷ 168 ∷ 14 ∷ 2 ∷ [])
unfolding parse_ip
host_v4 = refl

host_v6 : parse_ip (codes "fd14::2") ≡ some (0xfd ∷ 0x14 ∷ replicate 13 0 ++ (2 ∷ []))
unfolding parse_ip
host_v6 = refl

all_zero_v6 : parse_ip (codes "::") ≡ some zero_ipv6_addr
unfolding parse_ip
all_zero_v6 = refl

mapped_v6 : parse_ip (codes "::ffff:10.0.0.1") ≡ parse_ip (codes "10.0.0.1")
unfolding parse_ip
mapped_v6 = refl

no_host : parse_ip (codes "1::2::3") ≡ none
unfolding parse_ip
no_host = refl

network :
    parse_cidr (codes "fd16::1/64")
    ≡ some (0xfd ∷ 0x16 ∷ replicate 13 0 ++ (1 ∷ []), replicate 8 255 ++ replicate 8 0)
unfolding parse_cidr
network = refl

host_port : split_host_port (codes "[fd14::2]:80") ≡ some (codes "fd14::2", codes "80")
unfolding split_host_port
host_port = refl

-- The configuration of one pair, read without flags.
abbrev config : Config
config = record {
  host_name = "nff";
  port_pairs = configured ∷ [];
  set_kni_ip = false;
  bring_up_kni_interfaces = false;
}

read_config_iff_example :
    (read_config config false true ≡ ok (reading config false true))
    ↔ (IsReadable config × (reading config false true ≡ reading config false true))
read_config_iff_example = read_config_iff config false true (reading config false true)

get_port_and_pair_by_id_lem_example :
    Finds config.port_pairs 1 (get_port_and_pair_by_id config.port_pairs 1)
get_port_and_pair_by_id_lem_example = get_port_and_pair_by_id_lem config.port_pairs 1

-- The server of that translator, after InitFlows.
abbrev pair : PortPair
pair = init_state nff configured

abbrev server : ServerState
server = record {
  dump_enabled = λ dir. false;
  config = record config { port_pairs = pair ∷ [] };
  calls = [];
}

server-AllSound : AllSound server
unfolding init_state
server-AllSound = ((init_state-WellFormed nff configured, (refl, refl)), tt)

abbrev willing : Kernel
willing log call = true

-- The public port gets 192.168.5.1/24.
abbrev new_address : InterfaceAddressChangeRequest
new_address = record {
  interface_id = 1;
  port_subnet = record { address = some (192 ∷ 168 ∷ 5 ∷ 1 ∷ []); mask_bits_number = 24 };
}

abbrev found : Found
found = record { before = []; pair = pair; side = i_public; after = [] }

change_interface_address4_lem_example :
    Readdresses nff willing new_address server found 192 168 5 1
      (linking nff willing new_address server found 192 168 5 1)
unfolding get_port_and_pair_by_id init_state
change_interface_address4_lem_example =
    change_interface_address4_lem nff willing new_address server found 192 168 5 1 refl refl
      (omega arith)

-- The public port gets fd15::1/64.
abbrev new_ip : List ℕ
new_ip = 0xfd ∷ 0x15 ∷ replicate 13 0 ++ (1 ∷ [])

abbrev new_address6 : InterfaceAddressChangeRequest
new_address6 = record {
  interface_id = 1;
  port_subnet = record { address = some new_ip; mask_bits_number = 64 };
}

change_interface_address6_lem_example :
    Readdresses6 nff willing new_address6 server found new_ip
      (linking6 nff willing new_address6 server found new_ip)
unfolding get_port_and_pair_by_id init_state
change_interface_address6_lem_example =
    change_interface_address6_lem nff willing new_address6 server found new_ip refl refl refl

-- Public port 2222 goes to 192.168.14.7, port 22.
abbrev new_rule : PortForwardingChangeRequest
new_rule = record {
  enable_forwarding = true;
  interface_id = 1;
  rule = record {
    source_port_number = 2222;
    target_address = some (192 ∷ 168 ∷ 14 ∷ 7 ∷ []);
    target_port_number = 22;
    protocol = 6;
  };
}

handle_port_forwarding-AllSound_example :
    Returns (λ r. AllSound r.1) (handle_port_forwarding nff env.now new_rule server)
handle_port_forwarding-AllSound_example =
    handle_port_forwarding-AllSound nff env.now new_rule server server-AllSound (omega arith)
      (omega arith)

abbrev rule_parts : List (List ℕ)
rule_parts = codes "+" ∷ codes "1" ∷ codes "TCP6" ∷ codes "2222" ∷ codes "fd14::3" ∷ codes "22" ∷ []

abbrev rule_v6 : PortForwardingChangeRequest
rule_v6 = record {
  enable_forwarding = true;
  interface_id = 1;
  rule = record {
    source_port_number = 2222;
    target_address = some (0xfd ∷ 0x14 ∷ replicate 13 0 ++ (3 ∷ []));
    target_port_number = 22;
    protocol = 0x10006;
  };
}

rule_parts_read : rule_request_of rule_parts ≡ some rule_v6
unfolding rule_request_of sign_of parse_uint known_protocol protocol_value parse_ip
rule_parts_read = refl

rule_request_of-Converts_example :
    Returns (Converts nff rule_v6.rule) (convert_forwarded_port nff rule_v6.rule)
rule_request_of-Converts_example = rule_request_of-Converts nff rule_parts rule_v6 rule_parts_read

set_dump_control_lem_example :
    ((set_dump_control (λ i. false) (codes "dk")).0 ≡ true)
    × ((set_dump_control (λ i. false) (codes "dk")).1 0 ≡ true)
    × ((set_dump_control (λ i. false) (codes "dk")).1 1 ≡ false)
    × ((set_dump_control (λ i. false) (codes "dk")).1 2 ≡ true)
unfolding contains
set_dump_control_lem_example = set_dump_control_lem (λ i. false) (codes "dk")

abbrev draws : Draws
draws = record { xid = λ side. 7; xid6 = λ side. 1 ∷ 2 ∷ 3 ∷ []; iaid = λ side. 9 }

abbrev state : St
state = record { pp = pair; log = [] }

request_pair-RoundOf_example :
    Returns (λ r. RoundOf draws pair r.1.pp) (request_pair env true (λ log e. true) draws state)
request_pair-RoundOf_example = request_pair-RoundOf env true (λ log e. true) draws state

-- A framework that takes every payload for an acknowledgement of 192.168.16.9.
abbrev acked : DhcpReply
acked = record {
  your_client_ip = 192 ∷ 168 ∷ 16 ∷ 9 ∷ [];
  next_server_ip = [];
  options =
      record { option_type = 53; contents = 5 ∷ [] }
      ∷ record { option_type = 1; contents = 255 ∷ 255 ∷ 255 ∷ 0 ∷ [] }
      ∷ [];
}

abbrev acking : Env
acking = record env { nff = record nff { parse_dhcp = λ bytes. some acked } }

-- From port 67 to port 68.
abbrev dhcp_udp : UdpHdr
dhcp_udp = record { src_port = 0x4300; dst_port = 0x4400; dgram_cksum = 0; payload = [] }

abbrev asking : St
asking = record state {
  pp = record pair {
    public_port = record pair.public_port {
      subnet = record (subnet4 0) {
        address_acquired = false;
        ds = record { last_dhcp_packet_type_sent = 3; dhcp_transaction_id = 7 };
      };
    };
  };
}

handle_dhcp-OnlyAcknowledged_example :
    Partly
      (λ _ pp. OnlyAcknowledged acking i_public dhcp_udp asking pp)
      (handle_dhcp acking i_public dhcp_udp)
      asking
unfolding port_at
handle_dhcp-OnlyAcknowledged_example =
    handle_dhcp-OnlyAcknowledged acking i_public dhcp_udp asking refl

flow_graph-Routes_example : Routes (flow_graph configured) false 1 false 0
unfolding has_kni
flow_graph-Routes_example = flow_graph-Routes configured

-- The address of the public port is changed in the translator that was just started.
abbrev configuration : ServerState
configuration = record server { config = config }

abbrev linked : Bool × List KernelCall
linked = linking nff willing new_address server found 192 168 5 1

abbrev moved : PortPair
moved =
    set_port i_public pair (readdressed nff willing new_address server found 192 168 5 1 linked.0)

abbrev moved_state : ServerState
moved_state =
    update_port server found (readdressed nff willing new_address server found 192 168 5 1 linked.0)
      linked.1

address_is_changed : Reach nff willing (started nff configuration) moved_state
unfolding started with_pairs init_state
address_is_changed = next here (
    address_changed new_address _ ((refl, refl), tt) (omega arith)
      change_interface_address4_lem_example)

Reach-private_keys_example :
    WellFormed moved
    × ((protocol : ℕ) (k k' q : Endpoint)
        → moved.private_port.translation_table protocol k ≡ some q
        → moved.private_port.translation_table protocol k' ≡ some q
        → is_zero q ≡ false
        → (k ≡ k') × (moved.public_port.translation_table protocol q ≡ some k))
unfolding update_port put_back set_port
Reach-private_keys_example =
    Reach-private_keys nff willing configuration moved_state [] [] moved address_is_changed refl
