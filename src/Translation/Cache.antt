-- ===== src/Translation/Cache.antt =====
-- The ARP caches in nat/translation.go: under which address a sender is stored.
use nff_go_nat.Base.{ℕ, ◌≡◌, some}
use nff_go_nat.Net.{ip4}
use nff_go_nat.Packets.{Packet, Ipv4Hdr}
use nff_go_nat.Config.{PortPair, InterfaceType}
use nff_go_nat.Machine.{Env, St}
use nff_go_nat.Machine.Posts.{Ensures, Ensures-bind, dump_packet-pp}
use nff_go_nat.Translation.{finish}
use nff_go_nat.Machine.{dump_packet}

pub finish-pp :
    (env : Env) (side : InterfaceType) (pkt : Packet) (dir : ℕ) (s : St)
    → Ensures (λ _ pp. pp ≡ s.pp) (finish env side pkt dir) s
unfolding finish
finish-pp env side pkt dir s =
    Ensures-bind (λ _ pp. pp ≡ s.pp) (λ _ pp. pp ≡ s.pp) s (dump_packet env side pkt dir) _
      (dump_packet-pp env side pkt dir s) (λ a s' e. e)

module _ (env : Env) (pkt : Packet) (h : Ipv4Hdr) (s : St) where
  open env use {nff}

  -- What the public port's cache has for the sender, whose address in host byte order is the key
  -- that handleARP stores under and getMACForIPv4 asks for.
  abbrev pub SenderAsBefore : PortPair → Type 0
  SenderAsBefore pp =
      pp.public_port.arp_table (ip4 (nff.swap32 h.src_addr))
      ≡ s.pp.public_port.arp_table (ip4 (nff.swap32 h.src_addr))

  -- The sender's MAC address stands under the source address as the header has it, in network byte
  -- order, and not under the sender's address.
  abbrev pub LearntReversed : PortPair → Type 0
  LearntReversed pp =
      (pp.public_port.arp_table (ip4 h.src_addr) ≡ some pkt.ether.saddr) × SenderAsBefore pp
