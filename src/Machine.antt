-- ===== src/Machine.antt =====
-- What the packet handlers run in: the pair's state, the log of packets sent and traced, and panics.
-- A handler is one step; it reads the clock once.
pub mod Posts
pub mod Partial
pub mod Ports
use nff_go_nat.Base.{ℕ, Bool, if◌then◌else◌, List, [], ◌∷◌, ◌++◌, Outcome, done, panic}
use nff_go_nat.Net.{IPv4Address, IPv6Address, MacAddress, IpAddress, store_arp}
use nff_go_nat.Packets.{Packet}
use nff_go_nat.Nff.{Nff}
use nff_go_nat.Config.{IpPort, PortPair, InterfaceType, i_public, i_private, has_kni}

-- The framework, the time, and the global flags NoCalculateChecksum, NoHWTXChecksum and DumpEnabled.
pub record Env : Type 0 where
  pub nff : Nff
  pub now : ℕ
  pub no_calculate_checksum : Bool
  pub no_hw_tx_checksum : Bool
  pub dump_enabled : ℕ → Bool
  -- The bytes of the configuration's HostName, and bringUpKniInterfaces.
  pub host_name : List ℕ
  pub bring_up : Bool

-- A packet written to the trace of a port and direction, or sent out of a port; and the setting of
-- an address and mask on a port's KNI interface, in place of an old one.
pub data Event : Type 0 where
  dumped : ℕ → ℕ → Packet → Event
  sent : ℕ → Packet → Event
  link_ipv4 : ℕ → IPv4Address → IPv4Address → IPv4Address → IPv4Address → Bool → Event
  link_ipv6 : ℕ → IPv6Address → IPv6Address → IPv6Address → IPv6Address → Bool → Event

pub record St : Type 0 where
  pub pp : PortPair
  pub log : List Event

abbrev pub M : Type 0 → Type 0
M A = St → Outcome (A × St)

infixl 5 ◌>>=◌ ◌>>◌
abbrev pub ◌>>=◌ : {A B : Type 0} → M A → (A → M B) → M B
◌>>=◌ m f s = elim (m s) [ done (a, s') ↦ f a s' | panic ↦ panic ]

abbrev pub ◌>>◌ : {B : Type 0} → M (Unit {0}) → M B → M B
m >> k = m >>= λ _. k

abbrev pub return : {A : Type 0} → A → M A
return a s = done (a, s)

-- A part that may panic and changes nothing.
abbrev pub lift : {A : Type 0} → Outcome A → M A
lift m s = elim m [ done a ↦ done (a, s) | panic ↦ panic ]

-- A part that may panic and changes the pair alone.
abbrev pub on_pair : (PortPair → Outcome PortPair) → M (Unit {0})
on_pair f s = elim (f s.pp) [ done pp ↦ done (tt, record s { pp = pp }) | panic ↦ panic ]

-- The port that receives: a pair's private or public one.
unfoldable pub port_at : InterfaceType → PortPair → IpPort
port_at i_public pp = pp.public_port
port_at i_private pp = pp.private_port

unfoldable pub opposite : InterfaceType → InterfaceType
opposite i_public = i_private
opposite i_private = i_public

unfoldable pub set_port : InterfaceType → PortPair → IpPort → PortPair
set_port i_public pp port = record pp { public_port = port }
set_port i_private pp port = record pp { private_port = port }

abbrev pub the_port : InterfaceType → M IpPort
the_port side s = done (port_at side s.pp, s)

abbrev pub log_event : Event → M (Unit {0})
log_event e s = done (tt, record s { log = s.log ++ (e ∷ []) })

-- `port.dumpPacket(pkt, dir)`
unfoldable pub dump_packet : Env → InterfaceType → Packet → ℕ → M (Unit {0})
dump_packet env side pkt dir s =
    if env.dump_enabled dir
    then log_event (dumped (port_at side s.pp).index dir pkt) s
    else done (tt, s)

-- `port.dumpPacket(pkt, DirSEND)` and `pkt.SendPacket(port.Index)`
unfoldable pub send_packet : Env → InterfaceType → Packet → M (Unit {0})
send_packet env side pkt = do
  dump_packet env side pkt 1
  port ← the_port side
  log_event (sent port.index pkt)

-- `port.arpTable.Store(ip, mac)`
unfoldable pub learn : InterfaceType → IpAddress → MacAddress → M (Unit {0})
learn side ip mac s =
    let port = port_at side s.pp in
    done (
      tt,
      record s {
        pp = set_port side s.pp (record port { arp_table = store_arp ip mac port.arp_table });
      },
    )

-- A change of the port alone.
abbrev pub modify_port : InterfaceType → (IpPort → IpPort) → M (Unit {0})
modify_port side f s = done (tt, record s { pp = set_port side s.pp (f (port_at side s.pp)) })

-- setLinkIPv4KNIAddress and setLinkIPv6KNIAddress, up to the netlink calls, whose errors the
-- callers here ignore.
unfoldable pub set_link_ipv4_kni_address :
    Env → InterfaceType → IPv4Address → IPv4Address → IPv4Address → IPv4Address → M (Unit {0})
set_link_ipv4_kni_address env side addr mask oldaddr oldmask = do
  port ← the_port side
  if has_kni port
      then log_event (link_ipv4 port.index addr mask oldaddr oldmask env.bring_up)
      else return tt

unfoldable pub set_link_ipv6_kni_address :
    Env → InterfaceType → IPv6Address → IPv6Address → IPv6Address → IPv6Address → M (Unit {0})
set_link_ipv6_kni_address env side addr mask oldaddr oldmask = do
  port ← the_port side
  if has_kni port
      then log_event (link_ipv6 port.index addr mask oldaddr oldmask env.bring_up)
      else return tt
