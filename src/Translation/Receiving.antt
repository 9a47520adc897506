-- ===== src/Translation/Receiving.antt =====
-- PublicToPrivateTranslation in nat/translation.go, for a packet that has an entry.
use nff_go_nat.Base.{ℕ, ◌<◌, ◌≡◌, ◌≢◌, refl, true, false, not, ◌||◌, Option, none, some, arith}
use nff_go_nat.Base.Slice.{get, get_in_range}
use nff_go_nat.Net.{Endpoint, MacAddress}
use nff_go_nat.Packets.{Packet, L4}
use nff_go_nat.Config.{
  PortPair, InterfaceType, i_public, i_private, port_end, pub2pri, dir_send, dir_drop, dir_kni,
}
use nff_go_nat.PortAlloc.{get_public_port_portmap, delete_old_connection}
use nff_go_nat.PortAlloc.Entries.{forget, delete_old_connection-forget}
use nff_go_nat.Connections.{get_addr_from_tuple}
use nff_go_nat.Connections.Links.{is_v6, port_number, is_zero}
use nff_go_nat.Connections.WellFormed.{WellFormed, is_translated, forget-WellFormed}
use nff_go_nat.Machine.{Env, St, M, port_at}
use nff_go_nat.Machine.Posts.{
  Ensures, Ensures-bind, Ensures-if, Ensures-weaken, lift_step, pair_step,
}
use nff_go_nat.Neighbours.Caches.{get_mac_for_ipv4-pp, get_mac_for_ipv6-pp}
use nff_go_nat.Icmp.{is_stale}
use nff_go_nat.Translation.{
  IpHdr, v4_hdr, v6_hdr, is_ipv6, touch_entry, note_segment, dest_key, finish, find_mac, with_dst,
  emit,
}
use nff_go_nat.Translation.Ingress.{forward_in, ingress_found}
use nff_go_nat.Translation.Rewrite.{is_known, other_src, to_network, emit-dst}
use nff_go_nat.Translation.Checksummed.{raw_dst, endpoints, source_of}
use nff_go_nat.Translation.Entries.{
  addr4, addr6, target, get_addr_from_tuple_lem, target_of-target, inside_translated,
  touch_entry-WellFormed, note_segment-WellFormed, Kept, finish-Kept,
}
use nff_go_nat.Translation.Local.{protocol_of}

pub kni_not_send : dir_kni ≢ dir_send
kni_not_send e = omega (arith, e)

pub drop_not_send : dir_drop ≢ dir_send
drop_not_send e = omega (arith, e)

pub find_mac-pp :
    (env : Env) (side : InterfaceType) (ip : IpHdr) (v4addr : ℕ) (v6addr : _) (s : St)
    → Ensures (λ _ pp. pp ≡ s.pp) (find_mac env side (is_ipv6 ip) v4addr v6addr) s
unfolding find_mac is_ipv6
find_mac-pp env side (v4_hdr h) v4addr v6addr s = get_mac_for_ipv4-pp env side s v4addr
find_mac-pp env side (v6_hdr h) v4addr v6addr s = get_mac_for_ipv6-pp env side s v6addr

module _ (env : Env) (ip : IpHdr) (l4 : L4) where
  open env use {nff, now}

  -- The packet has the endpoint `v` for its destination, and its source address as before.
  abbrev pub Carries : Endpoint → Packet → Type 0
  Carries v out =
      endpoints out.l3 ≡ some (source_of ip (other_src env l4 (port_number v)), to_network nff v)

  -- What is true of a packet that is forwarded for the entry `v` of the port.
  abbrev pub Delivered : PortPair → ℕ → Endpoint → Packet → Type 0
  Delivered pp port v out =
      let entry = (get_public_port_portmap pp (is_ipv6 ip) (protocol_of l4)).at port in
      (is_zero v ≡ false) × ((entry.is_static || not (is_stale now entry)) ≡ true) × Carries v out

  -- The packet is rewritten for an entry of the public table under its destination.
  abbrev pub Forwarded : PortPair → Packet → Type 0
  Forwarded pp out =
      (v : Endpoint) × (pp.public_port.translation_table (protocol_of l4)
          (dest_key env ip (nff.swap16 (raw_dst l4)))
        ≡ some v)
      × Delivered pp (nff.swap16 (raw_dst l4)) v out

module _ (env : Env) (pkt : Packet) (ip : IpHdr) (l4 : L4) (known : is_known l4 ≡ true) where
  open env use {nff, now}

  emit_or_drop :
      (v : Endpoint) (mac : Option MacAddress) (s : St)
      → is_v6 v ≡ is_ipv6 ip
      → WellFormed s.pp
      → Ensures
          (Kept (Carries env ip l4 v))
          (elim mac [
            | none ↦ finish env i_public pkt dir_drop
            | some m ↦ emit env i_private (is_ipv6 ip) l4 (with_dst env ip l4 (target v)) m pkt
          ])
          s
  emit_or_drop v none s family w =
      finish-Kept env (Carries env ip l4 v) i_public pkt dir_drop s w drop_not_send
  emit_or_drop v (some m) s family w =
      Ensures-weaken (Kept (Carries env ip l4 v)) s _
        (emit env i_private (is_ipv6 ip) l4 (with_dst env ip l4 (target v)) m pkt)
        (emit-dst env i_private ip l4 (target v) m pkt s known)
        (λ r pp h. (rw h.2 w, λ _. rw (h.1, target_of-target v (is_ipv6 ip) family) refl))

  forward_in-Kept :
      (port : ℕ) (v : Endpoint) (s : St)
      → is_v6 v ≡ is_ipv6 ip
      → port < port_end
      → WellFormed s.pp
      → Ensures (Kept (Carries env ip l4 v)) (forward_in env pkt ip l4 port (target v)) s
  unfolding forward_in
  forward_in-Kept port v s family fits w =
      let (pp1, e, w1) = note_segment-WellFormed now s.pp (is_ipv6 ip) w l4 port pub2pri fits in
      pair_step (Kept (Carries env ip l4 v)) (note_segment now (is_ipv6 ip) l4 port pub2pri) pp1 _ s
        e
        (Ensures-bind (λ _ pp. pp ≡ pp1) (Kept (Carries env ip l4 v)) (record s { pp = pp1 })
          (find_mac env i_private (is_ipv6 ip) (addr4 v) (addr6 v)) _
          (find_mac-pp env i_private ip (addr4 v) (addr6 v) (record s { pp = pp1 }))
          (λ mac s' q. emit_or_drop v mac s' family (rw q w1)))

  Kept-more :
      (pp : PortPair) (port : ℕ) (v : Endpoint) (m : M (ℕ × Packet)) (s : St)
      → is_zero v ≡ false
      → (((get_public_port_portmap pp (is_ipv6 ip) (protocol_of l4)).at port).is_static
          || not
              (is_stale now ((get_public_port_portmap pp (is_ipv6 ip) (protocol_of l4)).at port)))
        ≡ true
      → Ensures (Kept (Carries env ip l4 v)) m s
      → Ensures (Kept (Delivered env ip l4 pp port v)) m s
  Kept-more pp port v m s z live h =
      Ensures-weaken (Kept (Delivered env ip l4 pp port v)) s (Kept (Carries env ip l4 v)) m h
        (λ r pp' k. (k.0, λ d. (z, live, k.1 d)))

  module _ (translated : is_translated (is_ipv6 ip) (protocol_of l4) ≡ true) where
    pub ingress_found-Kept :
        (port : ℕ) (v : Endpoint) (s : St)
        → is_v6 v ≡ is_ipv6 ip
        → port < port_end
        → WellFormed s.pp
        → Ensures
            (Kept (Delivered env ip l4 s.pp port v))
            (ingress_found env pkt ip l4 (protocol_of l4) port v)
            s
    unfolding ingress_found get_public_port_portmap port_at
    ingress_found-Kept port v s family fits w =
        let P = Kept (Delivered env ip l4 s.pp port v) in
        let map = get_public_port_portmap s.pp (is_ipv6 ip) (protocol_of l4) in
        let inside =
          inside_translated now s.pp (is_ipv6 ip) w (protocol_of l4) port translated fits in
        let (pp1, e1, w1, priv, table) =
          touch_entry-WellFormed now s.pp (is_ipv6 ip) w (protocol_of l4) port inside in
        lift_step P (get_addr_from_tuple v (is_ipv6 ip))
          (addr4 v, addr6 v, port_number v, is_zero v) _ s
          (get_addr_from_tuple_lem v (is_ipv6 ip) family)
          (lift_step P (get map port) (map.at port) _ s (get_in_range map port inside) (
            Ensures-if P s ((map.at port).is_static || not (is_stale now (map.at port))) _ _
              (λ live. pair_step P (touch_entry now (is_ipv6 ip) (protocol_of l4) port) pp1 _ s e1 (
                Ensures-if P (record s { pp = pp1 }) (is_zero v) _ _
                  (λ _.
                    finish-Kept env (Delivered env ip l4 s.pp port v) i_public pkt dir_kni _ w1
                      kni_not_send)
                  (λ z.
                    Kept-more s.pp port v (forward_in env pkt ip l4 port (target v))
                      (record s { pp = pp1 }) z live
                      (forward_in-Kept port v (record s { pp = pp1 }) family fits w1))))
              (λ _.
                pair_step P (λ pp. delete_old_connection pp (is_ipv6 ip) (protocol_of l4) port)
                  (forget s.pp (is_ipv6 ip) (protocol_of l4) port) _ s
                  (delete_old_connection-forget s.pp (is_ipv6 ip) (protocol_of l4) port inside)
                  (finish-Kept env (Delivered env ip l4 s.pp port v) i_public pkt dir_drop _
                    (forget-WellFormed s.pp (is_ipv6 ip) (protocol_of l4) port w) drop_not_send))))
