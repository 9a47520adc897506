-- ===== src/PortAlloc.antt =====
-- nat/portalloc.go: which public port a new connection gets, and how an old one is forgotten.
-- One call reads the clock once, as `now`; the code reads it again for each port that it looks at.
pub mod Search
pub mod Entries
pub mod Allocation
pub mod Unallocated
use nff_go_nat.Base.{
  ℕ, zero, suc, ◌+◌, ◌-◌, ◌%◌, ◌^◌, Bool, true, false, not, ◌&&◌, ltb, if◌then◌else◌, Option, none,
  some, ite, ℕ_discrete, Outcome, done, ◌>>=◌,
}
use nff_go_nat.Base.Slice.{Slice, get, put}
use nff_go_nat.Net.{Endpoint, tuple, tuple6, Table, delete}
use nff_go_nat.Config.{
  IpPort, PortPair, Portmap, PortMapEntry, zero_entry, port_start, port_end, connection_timeout,
}

unfoldable pub make_port_addr_tuple : IpPort → Bool → ℕ → Endpoint
make_port_addr_tuple port ipv6 port_number =
    if ipv6
    then tuple6 port.subnet6.addr (port_number % 2 ^ 16)
    else tuple port.subnet.addr (port_number % 2 ^ 16)

-- `getPortmap(ipv6, protocol)` of one port.
unfoldable pub get_portmap : IpPort → Bool → ℕ → Slice PortMapEntry
get_portmap port ipv6 protocol = if ipv6 then port.portmap6 protocol else port.portmap protocol

-- A write to `portmap[protocol]` through the slice that `getPortmap` returned.
unfoldable pub replace_slice : Portmap → ℕ → Slice PortMapEntry → Portmap
replace_slice m protocol s q = ite (ℕ_discrete protocol q) s (m q)

unfoldable pub set_portmap : IpPort → Bool → ℕ → Slice PortMapEntry → IpPort
set_portmap port ipv6 protocol s =
    if ipv6
    then record port { portmap6 = replace_slice port.portmap6 protocol s }
    else record port { portmap = replace_slice port.portmap protocol s }

-- `getPublicPortPortmap(ipv6, protocol)`
unfoldable pub get_public_port_portmap : PortPair → Bool → ℕ → Slice PortMapEntry
unfolding get_portmap
get_public_port_portmap pp ipv6 protocol = get_portmap pp.public_port ipv6 protocol

-- `pp.getPublicPortPortmap(ipv6, protocol)[port] = entry`
unfoldable pub put_public_port_portmap : PortPair → Bool → ℕ → ℕ → PortMapEntry → Outcome PortPair
put_public_port_portmap pp ipv6 protocol port entry = do
  s ← put (get_public_port_portmap pp ipv6 protocol) port entry
  done (record pp { public_port = set_portmap pp.public_port ipv6 protocol s })

unfoldable pub delete_port_forwarding_entry : IpPort → Bool → ℕ → ℕ → IpPort
delete_port_forwarding_entry port ipv6 protocol port_number = record port {
  translation_table =
      delete protocol (make_port_addr_tuple port ipv6 port_number) port.translation_table;
}

-- The entries of a connection, in both tables, if the public table has one.
unfoldable pub delete_entries : PortPair → ℕ → Endpoint → Option Endpoint → PortPair
delete_entries pp protocol pub2pri_key none = pp
delete_entries pp protocol pub2pri_key (some pri2pub_key) = record pp {
  private_port = record pp.private_port {
    translation_table = delete protocol pri2pub_key pp.private_port.translation_table;
  };
  public_port = record pp.public_port {
    translation_table = delete protocol pub2pri_key pp.public_port.translation_table;
  };
}

unfoldable pub delete_old_connection : PortPair → Bool → ℕ → ℕ → Outcome PortPair
delete_old_connection pp ipv6 protocol port =
    let pub2pri_key = make_port_addr_tuple pp.public_port ipv6 port in
    let pri2pub_key = pp.public_port.translation_table protocol pub2pri_key in
    put_public_port_portmap (delete_entries pp protocol pub2pri_key pri2pub_key) ipv6 protocol port
      zero_entry

-- `!pm[p].static && time.Since(pm[p].lastused) > connectionTimeout`
unfoldable pub is_reusable : ℕ → PortMapEntry → Bool
is_reusable now e = not e.is_static && ltb connection_timeout (now - e.lastused)

-- `for p := from; p < from + rounds; p++`, up to the first port that can be reused.
unfoldable pub find_port : ℕ → Slice PortMapEntry → ℕ → ℕ → Outcome (Option ℕ)
find_port now pm zero p = done none
find_port now pm (suc rounds) p =
    let rest = find_port now pm rounds (p + 1) in
    do e ← get pm p; if is_reusable now e then done (some p) else rest

-- What the body of either loop does with the port it stops at.
unfoldable pub take_port : PortPair → Bool → ℕ → ℕ → Outcome (Option (ℕ × PortPair))
take_port pp ipv6 protocol p = do
  pp' ← delete_old_connection (record pp { lastport = p }) ipv6 protocol p
  done (some (p, pp'))

-- The search goes from `lastport` up, then from `portStart` up to `lastport`. `none` is the error
-- "All ports are allocated". (The outer `for` of the source never begins a second round.)
unfoldable pub alloc_new_port : ℕ → PortPair → Bool → ℕ → Outcome (Option (ℕ × PortPair))
alloc_new_port now pp ipv6 protocol = do
  let pm = get_public_port_portmap pp ipv6 protocol
  first ← find_port now pm (port_end - pp.lastport) pp.lastport
  elim first [
    | some p ↦ take_port pp ipv6 protocol p
    | none ↦ do
      second ← find_port now pm (pp.lastport - port_start) port_start
      elim second [ some p ↦ take_port pp ipv6 protocol p | none ↦ done none ]
  ]
