-- ===== src/Server.antt =====
-- nat/grpc.go: the state of the gRPC server, how it finds a port, and its requests to trace packets
-- and to change forwarding rules.
pub mod Address
pub mod Lookup
pub mod AddressReply
pub mod AddressReply6
pub mod Pairs
pub mod RuleChanges
pub mod AddressChanges
use nff_go_nat.Base.{
  ℕ, ◌+◌, ◌-◌, ◌*◌, ◌%◌, ◌^◌, Bool, true, false, not, ◌==◌, ltb, leb, if◌then◌else◌, Option, none,
  some, List, [], ◌∷◌, ◌++◌, ite, ℕ_discrete, length, replicate, Outcome, done, panic, ◌>>=◌,
}
use nff_go_nat.Base.Results.{Result, ok, err}
use nff_go_nat.Net.{IPv4Address, zero_ipv6_addr}
use nff_go_nat.Nff.{Nff}
use nff_go_nat.Config.{
  IpPort, PortPair, Config, ForwardedPort, Ipv4Subnet, Ipv6Subnet, InterfaceType, i_public,
  i_private,
}
use nff_go_nat.Subnet.{ipv4_subnet_string, ipv6_subnet_string}
use nff_go_nat.Text.{Text, codes}
use nff_go_nat.Text.Numerals.{itoa}
use nff_go_nat.Text.Ip.{cidr_mask}
use nff_go_nat.Forwarding.{ForwardError}
use nff_go_nat.Dhcp.{no_dhcp_state, convert_ipv4}
use nff_go_nat.Dhcp6.{no_dhcpv6_state, single_ip_mask}
use nff_go_nat.Unmarshal.{copy_into}
use nff_go_nat.Machine.{port_at, set_port}
use nff_go_nat.Kernel.{Kernel, KernelCall, set_link_ipv4, set_link_ipv6}
use nff_go_nat.Control.{RuleMessage, bytes_of, convert_forwarded_port, change_port_forwarding}

-- The messages of updatecfg.proto. A trace type is an int32: a negative one is a number from 2 ^ 31.
pub record DumpControlRequest : Type 0 where
  pub enable_trace : Bool
  pub trace_type : ℕ

pub record SubnetMessage : Type 0 where
  pub address : Option (List ℕ)
  pub mask_bits_number : ℕ

pub record InterfaceAddressChangeRequest : Type 0 where
  pub interface_id : ℕ
  pub port_subnet : SubnetMessage

pub record PortForwardingChangeRequest : Type 0 where
  pub enable_forwarding : Bool
  pub interface_id : ℕ
  pub rule : RuleMessage

pub data ServerError : Type 0 where
  bad_trace_type interface_not_found bad_address link_failed bad_rule_message : ServerError
  rule_refused : ForwardError → ServerError

-- The answer to a request: a message, or an error.
abbrev pub Reply : Type 0
Reply = Result ServerError Text

-- DumpEnabled is an array of three; the configuration; and what the kernel was asked for.
pub record ServerState : Type 0 where
  pub dump_enabled : ℕ → Bool
  pub config : Config
  pub calls : List KernelCall

-- A port of the configuration, where the source has pointers to the port and to its pair.
pub record Found : Type 0 where
  pub before : List PortPair
  pub pair : PortPair
  pub side : InterfaceType
  pub after : List PortPair

unfoldable pub found_port : Found → IpPort
found_port f = port_at f.side f.pair

-- The pairs after a write through the pointer.
unfoldable pub put_back : Found → PortPair → List PortPair
put_back f pp = f.before ++ (pp ∷ f.after)

unfoldable pub later_pair : PortPair → Option Found → Option Found
later_pair pp none = none
later_pair pp (some f) = some (record f { before = pp ∷ f.before })

-- getPortAndPairByID: the first pair that has the index, its public port first.
unfoldable pub get_port_and_pair_by_id : List PortPair → ℕ → Option Found
unfolding later_pair
get_port_and_pair_by_id [] port_id = none
get_port_and_pair_by_id (pp ∷ pps) port_id =
    let rest = get_port_and_pair_by_id pps port_id in
    if pp.public_port.index == port_id
    then some (record { before = []; pair = pp; side = i_public; after = pps })
    else if pp.private_port.index == port_id
    then some (record { before = []; pair = pp; side = i_private; after = pps })
    else later_pair pp rest

-- ControlDump
unfoldable pub control_dump : DumpControlRequest → ServerState → Reply × ServerState
control_dump request st =
    if leb request.trace_type 2
    then (
      ok (codes "Success"),
      record st {
        dump_enabled =
            λ i. ite (ℕ_discrete request.trace_type i) request.enable_trace (st.dump_enabled i);
      },
    )
    else (err bad_trace_type, st)

-- ChangePortForwarding, with the pair that it changes in its place.
unfoldable pub forwarding_reply :
    ServerState → Found → Option ForwardError × PortPair → Reply × ServerState
unfolding put_back
forwarding_reply st f (some error, pp) = (err (rule_refused error), st)
forwarding_reply st f (none, pp) =
    (ok (codes "Success"), record st { config = record st.config { port_pairs = put_back f pp } })

unfoldable pub apply_rule :
    ℕ
    → PortForwardingChangeRequest
    → ServerState
    → Found
    → Option ForwardedPort
    → Outcome (Reply × ServerState)
unfolding forwarding_reply
apply_rule now request st f none = done (err bad_rule_message, st)
apply_rule now request st f (some fp) = do
  result ← change_port_forwarding now f.side fp request.enable_forwarding f.pair
  done (forwarding_reply st f result)

unfoldable pub change_rule_of :
    Nff
    → ℕ
    → PortForwardingChangeRequest
    → ServerState
    → Option Found
    → Outcome (Reply × ServerState)
unfolding apply_rule
change_rule_of nff now request st none = done (err interface_not_found, st)
change_rule_of nff now request st (some f) = do
  fp ← convert_forwarded_port nff request.rule
  apply_rule now request st f fp

unfoldable pub handle_port_forwarding :
    Nff → ℕ → PortForwardingChangeRequest → ServerState → Outcome (Reply × ServerState)
unfolding change_rule_of get_port_and_pair_by_id
handle_port_forwarding nff now request st =
    change_rule_of nff now request st
      (get_port_and_pair_by_id st.config.port_pairs request.interface_id)
