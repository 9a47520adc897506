-- ===== src/Connections.antt =====
-- nat/translation.go: how a connection is made, and how TCP ends one.
pub mod Links
pub mod WellFormed
pub mod Registering
pub mod Egress
pub mod Untranslated
pub mod Termination
pub mod Segments
use nff_go_nat.Base.{
  ℕ, ◌+◌, ◌-◌, ◌%◌, ◌^◌, Bool, true, false, not, ◌&&◌, ◌==◌, if◌then◌else◌, Option, none, some,
  Outcome, done, panic, ◌>>=◌, bit_and,
}
use nff_go_nat.Base.Slice.{Slice, get}
use nff_go_nat.Net.{
  IPv4Address, IPv6Address, Endpoint, tuple, tuple6, zero_ipv6_addr, same_bytes, store,
}
use nff_go_nat.Config.{
  IpPort, PortPair, PortMapEntry, tcp_number, connection_timeout, port_reuse_timeout,
}
use nff_go_nat.PortAlloc.{
  alloc_new_port, delete_old_connection, get_public_port_portmap, put_public_port_portmap,
}

-- Values of the constants of nff-go's package types: the flag bits of a TCP header.
abbrev pub tcp_flag_fin : ℕ
tcp_flag_fin = 0x01

abbrev pub tcp_flag_rst : ℕ
tcp_flag_rst = 0x04

abbrev pub tcp_flag_ack : ℕ
tcp_flag_ack = 0x10

-- The entry of a port that is taken at time `now`.
abbrev pub fresh_entry : ℕ → Bool → PortMapEntry
fresh_entry now is_static = record {
  lastused = now;
  fin_count = 0;
  termination_direction = 0;
  is_static = is_static;
}

-- `PublicPort...Store(pubEntry, privEntry)` and `PrivatePort...Store(privEntry, pubEntry)`
unfoldable pub store_entries : PortPair → ℕ → Endpoint → Endpoint → PortPair
store_entries pp protocol pub_entry priv_entry = record pp {
  private_port = record pp.private_port {
    translation_table = store protocol priv_entry pub_entry pp.private_port.translation_table;
  };
  public_port = record pp.public_port {
    translation_table = store protocol pub_entry priv_entry pp.public_port.translation_table;
  };
}

-- The address of the public port: `v4addr` and `v6addr`, one of which stays zero.
abbrev pub public_v4addr : PortPair → Bool → IPv4Address
public_v4addr pp ipv6 = if ipv6 then 0 else pp.public_port.subnet.addr

abbrev pub public_v6addr : PortPair → Bool → IPv6Address
public_v6addr pp ipv6 = if ipv6 then pp.public_port.subnet6.addr else zero_ipv6_addr

abbrev pub pub_entry_of : PortPair → Bool → ℕ → Endpoint
pub_entry_of pp ipv6 port =
    if ipv6
    then tuple6 (public_v6addr pp ipv6) (port % 2 ^ 16)
    else tuple (public_v4addr pp ipv6) (port % 2 ^ 16)

-- What follows a successful allocation.
unfoldable pub register_connection :
    ℕ
    → PortPair
    → Bool
    → ℕ
    → Endpoint
    → ℕ
    → Outcome (Option (IPv4Address × IPv6Address × ℕ) × PortPair)
register_connection now pp ipv6 protocol priv_entry port = do
  pp' ← put_public_port_portmap pp ipv6 protocol port (fresh_entry now false)
  done (
    some (public_v4addr pp ipv6, public_v6addr pp ipv6, port % 2 ^ 16),
    store_entries pp' protocol (pub_entry_of pp ipv6 port) priv_entry,
  )

-- `none` is the error of allocNewPort, handed on.
unfoldable pub allocate_new_egress_connection :
    ℕ → PortPair → Bool → ℕ → Endpoint → Outcome (Option (IPv4Address × IPv6Address × ℕ) × PortPair)
allocate_new_egress_connection now pp ipv6 protocol priv_entry = do
  allocated ← alloc_new_port now pp ipv6 protocol
  elim allocated [
    | none ↦ done (none, pp)
    | some (port, pp') ↦ register_connection now pp' ipv6 protocol priv_entry port
  ]

-- `hdr.TCPFlags & flag != 0`
unfoldable pub has_flag : ℕ → ℕ → Bool
has_flag flags flag = not (bit_and flags flag == 0)

-- What a FIN does to the entry of its port. `^dir` is the complement of a uint8.
unfoldable pub note_fin : PortMapEntry → ℕ → PortMapEntry
note_fin pme dir =
    if pme.fin_count == 0
    then record pme { fin_count = 1; termination_direction = dir }
    else if pme.fin_count == 1 && pme.termination_direction == 255 - dir
    then record pme { fin_count = 2 }
    else pme

-- The entry after the last ACK: zero, but for a time that makes the port wait for a second. The
-- source writes this through `pme`, which points at the entry that deleteOldConnection zeroes.
abbrev pub waiting_entry : ℕ → PortMapEntry
waiting_entry now = record {
  lastused = now + port_reuse_timeout - connection_timeout;
  fin_count = 0;
  termination_direction = 0;
  is_static = false;
}

unfoldable pub finish_connection : ℕ → PortPair → Bool → ℕ → Outcome PortPair
finish_connection now pp ipv6 port = do
  pp' ← delete_old_connection pp ipv6 tcp_number port
  put_public_port_portmap pp' ipv6 tcp_number port (waiting_entry now)

unfoldable pub check_tcp_termination : ℕ → PortPair → Bool → ℕ → ℕ → ℕ → Outcome PortPair
check_tcp_termination now pp ipv6 flags port dir =
    if has_flag flags tcp_flag_fin
    then (do
      pme ← get (get_public_port_portmap pp ipv6 tcp_number) port
      put_public_port_portmap pp ipv6 tcp_number port (note_fin pme dir))
    else if has_flag flags tcp_flag_rst
    then delete_old_connection pp ipv6 tcp_number port
    else if has_flag flags tcp_flag_ack
    then (do
      pme ← get (get_public_port_portmap pp ipv6 tcp_number) port
      if pme.fin_count == 2 then finish_connection now pp ipv6 port else done pp)
    else done pp

-- Address, port and whether the address is zero. A value of the other family is no tuple of the
-- asserted type: the assertion panics.
unfoldable pub get_addr_from_tuple :
    Endpoint → Bool → Outcome (IPv4Address × IPv6Address × ℕ × Bool)
get_addr_from_tuple (tuple addr port) true = panic
get_addr_from_tuple (tuple addr port) false = done (addr, zero_ipv6_addr, port, addr == 0)
get_addr_from_tuple (tuple6 addr port) true = done (0, addr, port, same_bytes addr zero_ipv6_addr)
get_addr_from_tuple (tuple6 addr port) false = panic
