-- ===== src/PortAlloc/Entries.antt =====
-- Writes to the public portmap and the forgetting of a connection, in closed form: where the port
-- is inside the slice they do not panic, and these are the states that they leave.
use nff_go_nat.Base.{
  ℕ, ◌<◌, ◌≤◌, panic, ◌≡◌, refl, ◌∙◌, arith, Bool, true, false, ite, ℕ_discrete, done, arith,
  Option, none, some,
}
use nff_go_nat.Base.Slice.{Slice, put_in_range, put_out_of_range}
use nff_go_nat.Net.{Endpoint}
use nff_go_nat.Config.{PortPair, PortMapEntry, zero_entry}
use nff_go_nat.PortAlloc.{
  make_port_addr_tuple, replace_slice, set_portmap, get_public_port_portmap,
  put_public_port_portmap, delete_entries, delete_old_connection,
}

-- A slice with the element `i` written anew.
abbrev pub with_entry : Slice PortMapEntry → ℕ → PortMapEntry → Slice PortMapEntry
with_entry s i e = record s { at = λ j. ite (ℕ_discrete i j) e (s.at j) }

-- The pair with one entry of the public portmap written anew.
unfoldable pub write_entry : PortPair → Bool → ℕ → ℕ → PortMapEntry → PortPair
write_entry pp ipv6 protocol port entry = record pp {
  public_port =
      set_portmap pp.public_port ipv6 protocol
        (with_entry (get_public_port_portmap pp ipv6 protocol) port entry);
}

-- The pair after `deleteOldConnection`.
unfoldable pub forget : PortPair → Bool → ℕ → ℕ → PortPair
forget pp ipv6 protocol port =
    let key = make_port_addr_tuple pp.public_port ipv6 port in
    write_entry (delete_entries pp protocol key (pp.public_port.translation_table protocol key))
      ipv6 protocol port zero_entry

pub put-write_entry :
    (pp : PortPair) (ipv6 : Bool) (protocol port : ℕ) (entry : PortMapEntry)
    → port < (get_public_port_portmap pp ipv6 protocol).len
    → put_public_port_portmap pp ipv6 protocol port entry
      ≡ done (write_entry pp ipv6 protocol port entry)
unfolding put_public_port_portmap write_entry
put-write_entry pp ipv6 protocol port entry h =
    rw (put_in_range (get_public_port_portmap pp ipv6 protocol) port entry h)

delete_entries-portmap :
    (pp : PortPair) (protocol : ℕ) (k : Endpoint) (o : Option Endpoint) (ipv6 : Bool) (q : ℕ)
    → get_public_port_portmap (delete_entries pp protocol k o) ipv6 q
      ≡ get_public_port_portmap pp ipv6 q
unfolding delete_entries get_public_port_portmap
delete_entries-portmap pp protocol k none ipv6 q = refl
delete_entries-portmap pp protocol k (some v) true q = refl
delete_entries-portmap pp protocol k (some v) false q = refl

pub delete_old_connection-forget :
    (pp : PortPair) (ipv6 : Bool) (protocol port : ℕ)
    → port < (get_public_port_portmap pp ipv6 protocol).len
    → delete_old_connection pp ipv6 protocol port ≡ done (forget pp ipv6 protocol port)
unfolding delete_old_connection forget
delete_old_connection-forget pp ipv6 protocol port h =
    let key = make_port_addr_tuple pp.public_port ipv6 port in
    let found = pp.public_port.translation_table protocol key in
    put-write_entry (delete_entries pp protocol key found) ipv6 protocol port zero_entry
      (rw (delete_entries-portmap pp protocol key found ipv6 protocol) h)

-- A port from the end of the portmap on.
pub delete_old_connection_panics :
    (pp : PortPair) (ipv6 : Bool) (protocol port : ℕ)
    → (get_public_port_portmap pp ipv6 protocol).len ≤ port
    → delete_old_connection pp ipv6 protocol port ≡ panic
unfolding delete_old_connection put_public_port_portmap
delete_old_connection_panics pp ipv6 protocol port h =
    let key = make_port_addr_tuple pp.public_port ipv6 port in
    let found = pp.public_port.translation_table protocol key in
    let pm = get_public_port_portmap (delete_entries pp protocol key found) ipv6 protocol in
    rw
      (put_out_of_range pm port zero_entry
        (rw (delete_entries-portmap pp protocol key found ipv6 protocol) h))
      refl

delete_entries-subnets :
    (pp : PortPair) (protocol : ℕ) (k : Endpoint) (o : Option Endpoint)
    → ((delete_entries pp protocol k o).public_port.subnet ≡ pp.public_port.subnet)
      × ((delete_entries pp protocol k o).public_port.subnet6 ≡ pp.public_port.subnet6)
unfolding delete_entries
delete_entries-subnets pp protocol k none = (refl, refl)
delete_entries-subnets pp protocol k (some v) = (refl, refl)

write_entry-subnets :
    (pp : PortPair) (ipv6 : Bool) (protocol port : ℕ) (e : PortMapEntry)
    → ((write_entry pp ipv6 protocol port e).public_port.subnet ≡ pp.public_port.subnet)
      × ((write_entry pp ipv6 protocol port e).public_port.subnet6 ≡ pp.public_port.subnet6)
unfolding write_entry set_portmap
write_entry-subnets pp true protocol port e = (refl, refl)
write_entry-subnets pp false protocol port e = (refl, refl)

-- deleteOldConnection leaves the addresses of the public port alone.
pub forget-subnets :
    (pp : PortPair) (ipv6 : Bool) (protocol port : ℕ)
    → ((forget pp ipv6 protocol port).public_port.subnet ≡ pp.public_port.subnet)
      × ((forget pp ipv6 protocol port).public_port.subnet6 ≡ pp.public_port.subnet6)
unfolding forget
forget-subnets pp ipv6 protocol port =
    let key = make_port_addr_tuple pp.public_port ipv6 port in
    let found = pp.public_port.translation_table protocol key in
    let (a, b) =
      write_entry-subnets (delete_entries pp protocol key found) ipv6 protocol port zero_entry in
    let (c, d) = delete_entries-subnets pp protocol key found in (a ∙ c, b ∙ d)

-- The entry that a write leaves.
pub write_entry_self :
    (pp : PortPair) (ipv6 : Bool) (protocol port : ℕ) (e : PortMapEntry)
    → (get_public_port_portmap (write_entry pp ipv6 protocol port e) ipv6 protocol).at port ≡ e
unfolding write_entry get_public_port_portmap set_portmap replace_slice
write_entry_self pp true protocol port e = ground arith
write_entry_self pp false protocol port e = ground arith

-- A write to the portmap leaves the lookup key of a port alone.
pub write_entry-address :
    (pp : PortPair) (ipv6 : Bool) (protocol port : ℕ) (e : PortMapEntry) (ipv6' : Bool) (p : ℕ)
    → make_port_addr_tuple (write_entry pp ipv6 protocol port e).public_port ipv6' p
      ≡ make_port_addr_tuple pp.public_port ipv6' p
unfolding write_entry set_portmap make_port_addr_tuple
write_entry-address pp true protocol port e ipv6' p = refl
write_entry-address pp false protocol port e ipv6' p = refl
