-- ===== src/Translation/Sending.antt =====
-- The end of PrivateToPublicTranslation in nat/translation.go: the packet that it sends.
use nff_go_nat.Base.{
  done, ℕ, ◌<◌, ◌≡◌, ◌⊎◌, refl, sym, subst, ◌∙◌, Bool, true, false, Option, none, some,
}
use nff_go_nat.Net.{Endpoint, MacAddress}
use nff_go_nat.Packets.{Packet, L4, icmp, icmpv6, tcp, udp, other_l4}
use nff_go_nat.Config.{PortPair, i_public, i_private, port_end, pri2pub, dir_drop}
use nff_go_nat.PortAlloc.{get_public_port_portmap, make_port_addr_tuple}
use nff_go_nat.PortAlloc.Allocation.{IsNext}
use nff_go_nat.Connections.Links.{is_v6}
use nff_go_nat.Connections.WellFormed.{WellFormed, is_translated}
use nff_go_nat.Machine.{Env, St}
use nff_go_nat.Machine.Posts.{Ensures, Ensures-bind, Ensures-weaken, SameButArp, pair_step}
use nff_go_nat.Neighbours.Caches.{get_mac_for_ipv4-pp, get_mac_for_ipv6-pp}
use nff_go_nat.Translation.{
  IpHdr, v4_hdr, v6_hdr, is_ipv6, Target, note_segment, source_key, finish, with_src, emit,
}
use nff_go_nat.Translation.Egress.{next_hop, forward_out}
use nff_go_nat.Translation.Rewrite.{other_dst, to_network, target_of, emit-src}
use nff_go_nat.Translation.Checksummed.{raw_src, endpoints, dest_of}
use nff_go_nat.Translation.Entries.{note_segment-WellFormed, Kept, finish-Kept}
use nff_go_nat.Translation.Local.{protocol_of}
use nff_go_nat.Translation.Receiving.{drop_not_send}
use nff_go_nat.Translation.Delivery.{is_translated-known}
use nff_go_nat.Translation.Cache.{finish-pp}

-- The segments that can end a connection.
abbrev pub is_tcp : L4 → Bool
is_tcp (tcp t) = true
is_tcp l4 = false

note_segment_other :
    (now : ℕ) (ipv6 : Bool) (l4 : L4) (port dir : ℕ) (pp : PortPair)
    → is_tcp l4 ≡ false
    → note_segment now ipv6 l4 port dir pp ≡ done pp
unfolding note_segment
note_segment_other now ipv6 (tcp t) port dir pp e = cc
note_segment_other now ipv6 (udp u) port dir pp e = refl
note_segment_other now ipv6 (icmp i) port dir pp e = refl
note_segment_other now ipv6 (icmpv6 i) port dir pp e = refl
note_segment_other now ipv6 other_l4 port dir pp e = refl

done_inj : (p q : PortPair) → done p ≡ done q → p ≡ q
done_inj p q e = cc

pub next_hop-pp :
    (env : Env) (ip : IpHdr) (s : St) → Ensures (λ _ pp. pp ≡ s.pp) (next_hop env ip) s
unfolding next_hop
next_hop-pp env (v4_hdr h) s = get_mac_for_ipv4-pp env i_public s (env.nff.swap32 h.dst_addr)
next_hop-pp env (v6_hdr h) s = get_mac_for_ipv6-pp env i_public s h.dst_addr

pub source_key_parts :
    (env : Env) (ip : IpHdr) (port : ℕ) → is_v6 (source_key env ip port) ≡ is_ipv6 ip
unfolding source_key is_ipv6
source_key_parts env (v4_hdr h) port = refl
source_key_parts env (v6_hdr h) port = refl

module _ (env : Env) (ip : IpHdr) (l4 : L4) where
  open env use {nff, now}

  abbrev pub key : Endpoint
  key = source_key env ip (nff.swap16 (raw_src l4))

  -- The packet comes from the target's endpoint and goes where it went.
  abbrev pub LeavesAs : Target → Packet → Type 0
  LeavesAs t out =
      endpoints out.l3
      ≡ some (to_network nff (target_of (is_ipv6 ip) t), dest_of ip (other_dst env l4 t.new_port))

  -- The target is the one that the private table has for the packet's source, or, where it has none,
  -- the public address with the next reusable port.
  abbrev pub Represents : PortPair → Target → Type 0
  Represents pp t =
      (pp.private_port.translation_table (protocol_of l4) key ≡ some (target_of (is_ipv6 ip) t))
      ⊎ ((pp.private_port.translation_table (protocol_of l4) key ≡ none)
          × IsNext now (get_public_port_portmap pp (is_ipv6 ip) (protocol_of l4)) pp.lastport
              t.new_port
          × (target_of (is_ipv6 ip) t
              ≡ make_port_addr_tuple pp.public_port (is_ipv6 ip) t.new_port))

  -- Unless a TCP segment may have ended it, the connection stands in both tables of the pair.
  abbrev pub Registered : Target → PortPair → Type 0
  Registered t pp' =
      is_tcp l4 ≡ false
      → (pp'.private_port.translation_table (protocol_of l4) key ≡ some (target_of (is_ipv6 ip) t))
        × (pp'.public_port.translation_table (protocol_of l4) (target_of (is_ipv6 ip) t) ≡ some key)

  abbrev pub Masqueraded : PortPair → Packet → PortPair → Type 0
  Masqueraded pp out pp' = (t : Target) × Represents pp t × LeavesAs t out × Registered t pp'

  pub Masqueraded-arp :
      (p q : PortPair) (out : Packet) (r : PortPair)
      → SameButArp p q
      → Masqueraded q out r
      → Masqueraded p out r
  unfolding get_public_port_portmap make_port_addr_tuple
  Masqueraded-arp p q out r (a, b, e) f =
      subst (λ x. Masqueraded x out r → Masqueraded p out r) (sym e) (λ g. g) f

module _ (env : Env) (pkt : Packet) (ip : IpHdr) (l4 : L4)
    (translated : is_translated (is_ipv6 ip) (protocol_of l4) ≡ true) where
  open env use {nff, now}

  send_or_drop :
      (t : Target) (mac : Option MacAddress) (s : St)
      → WellFormed s.pp
      → Ensures
          (Kept (LeavesAs env ip l4 t))
          (elim mac [
            | none ↦ finish env i_private pkt dir_drop
            | some m ↦ emit env i_public (is_ipv6 ip) l4 (with_src env ip l4 t) m pkt
          ])
          s
  send_or_drop t none s w =
      finish-Kept env (LeavesAs env ip l4 t) i_private pkt dir_drop s w drop_not_send
  send_or_drop t (some m) s w =
      Ensures-weaken (Kept (LeavesAs env ip l4 t)) s _
        (emit env i_public (is_ipv6 ip) l4 (with_src env ip l4 t) m pkt)
        (emit-src env i_public ip l4 t m pkt s (is_translated-known (is_ipv6 ip) l4 translated))
        (λ r pp h. (rw h.2 w, λ _. h.1))

  pub forward_out-Kept :
      (t : Target) (s : St)
      → t.new_port < port_end
      → WellFormed s.pp
      → Ensures (Kept (LeavesAs env ip l4 t)) (forward_out env pkt ip l4 t) s
  unfolding forward_out
  forward_out-Kept t s fits w =
      let P = Kept (LeavesAs env ip l4 t) in
      let (pp1, e, w1) =
        note_segment-WellFormed now s.pp (is_ipv6 ip) w l4 t.new_port pri2pub fits in
      pair_step P (note_segment now (is_ipv6 ip) l4 t.new_port pri2pub) pp1 _ s e (
        Ensures-bind (λ _ pp. pp ≡ pp1) P (record s { pp = pp1 }) (next_hop env ip) _
          (next_hop-pp env ip (record s { pp = pp1 }))
          (λ mac s' q. send_or_drop t mac s' (rw q w1)))

  -- The pair as it was before, unless a TCP segment was noted.
  abbrev pub Same : PortPair → ℕ × Packet → PortPair → Type 0
  Same pp r pp' = is_tcp l4 ≡ false → pp' ≡ pp

  send_or_drop-pp :
      (t : Target) (mac : Option MacAddress) (s : St) (pp1 : PortPair)
      → s.pp ≡ pp1
      → Ensures
          (λ _ pp. pp ≡ pp1)
          (elim mac [
            | none ↦ finish env i_private pkt dir_drop
            | some m ↦ emit env i_public (is_ipv6 ip) l4 (with_src env ip l4 t) m pkt
          ])
          s
  send_or_drop-pp t none s pp1 e =
      Ensures-weaken (λ _ pp. pp ≡ pp1) s (λ _ pp. pp ≡ s.pp) (finish env i_private pkt dir_drop)
        (finish-pp env i_private pkt dir_drop s) (λ r pp h. h ∙ e)
  send_or_drop-pp t (some m) s pp1 e =
      Ensures-weaken (λ _ pp. pp ≡ pp1) s _
        (emit env i_public (is_ipv6 ip) l4 (with_src env ip l4 t) m pkt)
        (emit-src env i_public ip l4 t m pkt s (is_translated-known (is_ipv6 ip) l4 translated))
        (λ r pp h. h.2 ∙ e)

  after_segment :
      (t : Target) (s : St) (pp1 : PortPair)
      → note_segment now (is_ipv6 ip) l4 t.new_port pri2pub s.pp ≡ done pp1
      → Ensures (λ _ pp. pp ≡ pp1) (forward_out env pkt ip l4 t) s
  unfolding forward_out
  after_segment t s pp1 e =
      pair_step (λ _ pp. pp ≡ pp1) (note_segment now (is_ipv6 ip) l4 t.new_port pri2pub) pp1 _ s e
        (Ensures-bind (λ _ pp. pp ≡ pp1) (λ _ pp. pp ≡ pp1) (record s { pp = pp1 })
          (next_hop env ip) _ (next_hop-pp env ip (record s { pp = pp1 }))
          (λ mac s' q. send_or_drop-pp t mac s' pp1 q))

  pub forward_out-Same :
      (t : Target) (s : St)
      → t.new_port < port_end
      → WellFormed s.pp
      → Ensures (Same s.pp) (forward_out env pkt ip l4 t) s
  forward_out-Same t s fits w =
      let (pp1, e, w1) =
        note_segment-WellFormed now s.pp (is_ipv6 ip) w l4 t.new_port pri2pub fits in
      Ensures-weaken (Same s.pp) s (λ _ pp. pp ≡ pp1) (forward_out env pkt ip l4 t)
        (after_segment t s pp1 e)
        (λ r pp q other.
          q
          ∙ done_inj pp1 s.pp
              (sym e ∙ note_segment_other now (is_ipv6 ip) l4 t.new_port pri2pub s.pp other))
