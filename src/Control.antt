-- ===== src/Control.antt =====
-- nat/grpc.go: a change of the forwarding rules of a running translator.
pub mod Rules
pub mod Replacing
pub mod Keeps
pub mod Panics
use nff_go_nat.Base.{
  ℕ, ◌%◌, ◌^◌, Bool, true, false, not, ◌==◌, ◌&&◌, ◌||◌, if◌then◌else◌, Option, none, some, List,
  [], length, Outcome, done, panic, ◌>>=◌, bit_and,
}
use nff_go_nat.Net.{zero_ipv6_addr}
use nff_go_nat.Nff.{Nff}
use nff_go_nat.Config.{
  PortPair, InterfaceType, i_public, i_private, ForwardedPort, tcp_number, udp_number,
}
use nff_go_nat.PortAlloc.{delete_old_connection, delete_port_forwarding_entry}
use nff_go_nat.Forwarding.{
  ForwardError, Checked, accepted, refused, check_port_forwarding, enable_on,
}
use nff_go_nat.Dhcp.{convert_ipv4, or_zero}
use nff_go_nat.Machine.{port_at, opposite}

-- Protocol_IPv6_Flag, a value of the generated code.
abbrev pub ipv6_flag : ℕ
ipv6_flag = 65536

-- What the code reads of an upd.ForwardedPort: no bytes stand for a nil slice.
pub record RuleMessage : Type 0 where
  pub source_port_number : ℕ
  pub target_address : Option (List ℕ)
  pub target_port_number : ℕ
  pub protocol : ℕ

unfoldable pub bytes_of : Option (List ℕ) → List ℕ
bytes_of none = []
bytes_of (some bytes) = bytes

-- Whether the protocol is TCP or UDP. `uint8(…)` cuts all but the lowest byte off.
unfoldable pub is_good_protocol : ℕ → Bool
is_good_protocol protocol = protocol % 256 == tcp_number || protocol % 256 == udp_number

unfoldable pub rule_of : RuleMessage → Option ℕ → ForwardedPort
rule_of p addr = record {
  port = p.source_port_number % 2 ^ 16;
  destination = record {
    addr4 = or_zero addr;
    addr6 = elim addr [ none ↦ bytes_of p.target_address | some a ↦ zero_ipv6_addr ];
    port = p.target_port_number % 2 ^ 16;
    ipv6 = elim addr [ none ↦ true | some a ↦ false ];
  };
  protocol = record { id = p.protocol % 256; ipv6 = not (bit_and p.protocol ipv6_flag == 0) };
}

unfoldable pub is_address : RuleMessage → Option ℕ → Bool
is_address p none = length (bytes_of p.target_address) == 16
is_address p (some a) = true

-- convertForwardedPort; `none` is the error. An address that is none of IPv4 must have 16 bytes.
unfoldable pub convert_forwarded_port : Nff → RuleMessage → Outcome (Option ForwardedPort)
convert_forwarded_port nff p = do
  addr ← convert_ipv4 nff p.target_address
  if is_address p addr && is_good_protocol p.protocol
      then done (some (rule_of p addr))
      else done none

-- What ChangePortForwarding does under the pair's lock: the old rule or connection of the port goes,
-- and the new rule comes if it is to be enabled.
unfoldable pub clear_port : InterfaceType → ForwardedPort → PortPair → Outcome PortPair
clear_port i_public fp pp = delete_old_connection pp fp.protocol.ipv6 fp.protocol.id fp.port
clear_port i_private fp pp = done (record pp {
  private_port =
      delete_port_forwarding_entry pp.private_port fp.protocol.ipv6 fp.protocol.id fp.port;
})

unfoldable pub replace_rule : ℕ → InterfaceType → ForwardedPort → Bool → PortPair → Outcome PortPair
replace_rule now side fp enable pp = do
  cleared ← clear_port side fp pp
  if enable then enable_on now cleared side fp else done cleared

unfoldable pub apply_checked :
    ℕ → InterfaceType → Bool → PortPair → Checked → Outcome (Option ForwardError × PortPair)
apply_checked now side enable pp (refused error) = done (some error, pp)
apply_checked now side enable pp (accepted fp needs_kni) =
    replace_rule now side fp enable pp >>= λ pp'. done (none, pp')

-- ChangePortForwarding for a rule of the port `side` of the pair, after its conversion.
unfoldable pub change_port_forwarding :
    ℕ → InterfaceType → ForwardedPort → Bool → PortPair → Outcome (Option ForwardError × PortPair)
change_port_forwarding now side fp enable pp =
    apply_checked now side enable pp
      (check_port_forwarding (port_at side pp) (port_at (opposite side) pp) fp)
