-- ===== src/Client.antt =====
-- client/client.go: the requests that the command-line client makes of its arguments, and how it sends
-- them. The server's part is nff_go_nat.Server.
pub mod Messages
use Prim.Native.String.{String}
use nff_go_nat.Base.{
  ℕ, Bool, true, false, not, ◌==◌, if◌then◌else◌, Option, none, some, List, [], ◌∷◌, ◌++◌, map,
  Outcome, done, panic,
}
use nff_go_nat.Base.Options.{◌>>=◌}
use nff_go_nat.Base.Results.{ok, err}
use nff_go_nat.Net.{same_bytes}
use nff_go_nat.Nff.{Nff}
use nff_go_nat.Text.{Text, codes, split}
use nff_go_nat.Text.Numerals.{parse_uint}
use nff_go_nat.Text.Ip.{parse_ip, parse_cidr, mask_size}
use nff_go_nat.Dhcp.{to4}
use nff_go_nat.Unmarshal.{same_text}
use nff_go_nat.Kernel.{Kernel}
use nff_go_nat.Server.{
  DumpControlRequest, InterfaceAddressChangeRequest, PortForwardingChangeRequest, Reply,
  ServerState, control_dump, handle_port_forwarding,
}
use nff_go_nat.Server.Address.{change_interface_address}

abbrev pub dump_request : Bool → ℕ → DumpControlRequest
dump_request enable trace = record { enable_trace = enable; trace_type = trace }

-- The map that dumpRequestArray.Set looks its argument up in.
unfoldable pub dump_request_of : Text → Option DumpControlRequest
unfolding same_bytes
dump_request_of s =
    if same_text s "+d"
    then some (dump_request true 0)
    else if same_text s "-d"
    then some (dump_request false 0)
    else if same_text s "+t"
    then some (dump_request true 1)
    else if same_text s "-t"
    then some (dump_request false 1)
    else if same_text s "+k"
    then some (dump_request true 2)
    else if same_text s "-k"
    then some (dump_request false 2)
    else none

-- dumpRequestArray.Set; `none` is an error, here and below.
unfoldable pub set_dump_requests : List DumpControlRequest → Text → Option (List DumpControlRequest)
unfolding dump_request_of
set_dump_requests dra value = do req ← dump_request_of value; some (dra ++ (req ∷ []))

abbrev pub ip_or : List ℕ → Option (List ℕ) → List ℕ
ip_or ip none = ip
ip_or ip (some ip4) = ip4

-- `ip4 := ip.To4(); if ip4 != nil { ip = ip4 }`
unfoldable pub shortest : List ℕ → List ℕ
unfolding to4
shortest ip = ip_or ip (to4 ip)

unfoldable pub address_request_of : List Text → Option InterfaceAddressChangeRequest
unfolding shortest
address_request_of (index ∷ (cidr ∷ [])) = do
  id ← parse_uint 32 index
  (ip, mask) ← parse_cidr cidr
  some (record {
    interface_id = id;
    port_subnet = record { address = some (shortest ip); mask_bits_number = mask_size mask };
  })
address_request_of _ = none

-- addresChangeRequestArray.Set
unfoldable pub set_address_requests :
    List InterfaceAddressChangeRequest → Text → Option (List InterfaceAddressChangeRequest)
unfolding address_request_of split
set_address_requests acra value = do
  req ← address_request_of (split b',' value)
  some (acra ++ (req ∷ []))

-- upd.Protocol_value, of the generated code
unfoldable pub protocol_value : Text → Option ℕ
unfolding same_bytes
protocol_value s =
    if same_text s "UNKNOWN"
    then some 0
    else if same_text s "TCP"
    then some 0x06
    else if same_text s "UDP"
    then some 0x11
    else if same_text s "IPv6_Flag"
    then some 0x10000
    else if same_text s "TCP6"
    then some 0x10006
    else if same_text s "UDP6"
    then some 0x10011
    else none

unfoldable pub known_protocol : Option ℕ → Option ℕ
known_protocol none = none
known_protocol (some n) = if n == 0 then none else some n

unfoldable pub sign_of : Text → Option Bool
unfolding same_bytes
sign_of s = if same_text s "+" then some true else if same_text s "-" then some false else none

unfoldable pub rule_request_of : List Text → Option PortForwardingChangeRequest
unfolding shortest
rule_request_of (sign ∷ (index ∷ (proto ∷ (sport ∷ (addr ∷ (tport ∷ [])))))) = do
  enable ← sign_of sign
  id ← parse_uint 32 index
  protocol ← known_protocol (protocol_value proto)
  source ← parse_uint 16 sport
  ip ← parse_ip addr
  target ← parse_uint 16 tport
  some (record {
    enable_forwarding = enable;
    interface_id = id;
    rule = record {
      source_port_number = source;
      target_address = some (shortest ip);
      target_port_number = target;
      protocol = protocol;
    };
  })
rule_request_of _ = none

-- portForwardRequestArray.Set
unfoldable pub set_rule_requests :
    List PortForwardingChangeRequest → Text → Option (List PortForwardingChangeRequest)
unfolding rule_request_of split
set_rule_requests pfra value = do
  req ← rule_request_of (split b',' value)
  some (pfra ++ (req ∷ []))

pub data Request : Type 0 where
  dump : DumpControlRequest → Request
  address : InterfaceAddressChangeRequest → Request
  rule : PortForwardingChangeRequest → Request

-- The order of main: all dump, all address, all forwarding requests.
unfoldable pub in_order :
    List DumpControlRequest
    → List InterfaceAddressChangeRequest
    → List PortForwardingChangeRequest
    → List Request
in_order dra acra pfra = map dump dra ++ (map address acra ++ map rule pfra)

abbrev pub go_on :
    (ServerState → Outcome (Bool × ServerState))
    → Outcome (Reply × ServerState)
    → Outcome (Bool × ServerState)
go_on rest (done (ok text, st)) = rest st
go_on rest (done (err e, st)) = done (false, st)
go_on rest panic = panic

module _ (nff : Nff) (kernel : Kernel) (now : ℕ) where
  -- The call of the server that a request is.
  unfoldable pub serve : Request → ServerState → Outcome (Reply × ServerState)
  unfolding control_dump
  serve (dump r) st = done (control_dump r st)
  serve (address r) st = change_interface_address nff kernel r st
  serve (rule r) st = handle_port_forwarding nff now r st

  -- The loops of main: an error ends the program. Whether all requests were answered.
  unfoldable pub send_requests : List Request → ServerState → Outcome (Bool × ServerState)
  unfolding serve
  send_requests [] st = done (true, st)
  send_requests (r ∷ rs) st = go_on (send_requests rs) (serve r st)
