-- ===== src/Icmp/Kni.antt =====
-- nat/icmp.go: when handleICMP reads outside of a portmap.
use nff_go_nat.Base.{
  ℕ, ◌≤◌, ◌≡◌, ◌↔◌, refl, sym, ◌∙◌, ap, subst, Bool, true, false, ◌==◌, ◌&&◌, if◌then◌else◌, ltb,
  Option, none, some, Outcome, done, panic, Returns, ltb→lt, ltb_false→le, arith,
}
use nff_go_nat.Base.Slice.{Slice, get, get_in_range, get_out_of_range}
use nff_go_nat.Net.{Endpoint}
use nff_go_nat.Packets.{Packet, Ipv4Hdr, L4, v4_packet, IcmpHdr}
use nff_go_nat.Config.{InterfaceType, PortMapEntry, dir_kni, has_kni, icmp_number, icmpv6_number}
use nff_go_nat.PortAlloc.{get_portmap}
use nff_go_nat.Machine.{Env, St, M, ◌>>=◌, return, lift, port_at}
use nff_go_nat.Machine.Posts.{Ensures}
use nff_go_nat.Icmp.{
  addressed, is_stale, is_for_kni, handle_echo, icmp_after_discovery, handle_icmp, dst_as_ipv4,
}
use nff_go_nat.Icmp.Caches.{handle_echo-pp}

not_panic : {A : Type 0} (P : A → Type 0) (o : Outcome A) → Returns P o → o ≡ panic → ⊥
not_panic P o h e = subst (Returns P) e h

done_not_panic : {A : Type 0} (a : A) → ◌≡◌ {A = Outcome A} (done a) panic → ⊥
done_not_panic a e = cc

module _ (env : Env) (side : InterfaceType) (pkt : Packet) (hdr : IcmpHdr) (key : Endpoint)
    (s : St) where
  open env use {nff, now}

  -- The table has an entry under the key, and the identifier lies outside of the ICMP portmap. (The
  -- private port has an empty one.)
  abbrev pub ReadsOutside : Type 0
  ReadsOutside =
      (v : Endpoint) × ((port_at side s.pp).translation_table icmp_number key ≡ some v)
      × ((get_portmap (port_at side s.pp) false icmp_number).len ≤ nff.swap16 hdr.identifier)

  abbrev for_kni : Outcome Bool
  for_kni = is_for_kni env side (port_at side s.pp) icmp_number key hdr

  abbrev pm : Slice PortMapEntry
  pm = get_portmap (port_at side s.pp) false icmp_number

  abbrev staleness : Outcome PortMapEntry → Outcome Bool
  staleness (done e) = done (is_stale now e)
  staleness panic = panic

  abbrev decided : Option Endpoint → Outcome Bool
  decided none = done true
  decided (some v) = staleness (get pm (nff.swap16 hdr.identifier))

  for_kni-decided :
      (o : Option Endpoint)
      → (port_at side s.pp).translation_table icmp_number key ≡ o
      → for_kni ≡ decided o
  unfolding is_for_kni
  for_kni-decided none e = rw (is_for_kni, e) refl
  for_kni-decided (some v) e = rw (is_for_kni, e) (read (get pm (nff.swap16 hdr.identifier)))
    where
      read :
          (o : Outcome PortMapEntry)
          → (elim o [ done e ↦ done (is_stale now e) | panic ↦ panic ]) ≡ staleness o
      read (done e) = refl
      read panic = refl

  -- An entry inside of the portmap is read.
  beyond :
      (b : Bool)
      → ltb (nff.swap16 hdr.identifier) pm.len ≡ b
      → staleness (get pm (nff.swap16 hdr.identifier)) ≡ panic
      → pm.len ≤ nff.swap16 hdr.identifier
  beyond false e p = ltb_false→le (nff.swap16 hdr.identifier) pm.len e
  beyond true e p =
      let read : get pm (nff.swap16 hdr.identifier) ≡ done (pm.at (nff.swap16 hdr.identifier)) =
        get_in_range pm (nff.swap16 hdr.identifier) (ltb→lt (nff.swap16 hdr.identifier) pm.len e) in
      absurd (
        done_not_panic (is_stale now (pm.at (nff.swap16 hdr.identifier)))
          (sym (ap staleness read) ∙ p))

  by_entry :
      (o : Option Endpoint)
      → (port_at side s.pp).translation_table icmp_number key ≡ o
      → for_kni ≡ panic
      → ReadsOutside
  by_entry none e p = absurd (done_not_panic true (sym (for_kni-decided none e) ∙ p))
  by_entry (some v) e p = (v, e, beyond _ refl (sym (for_kni-decided (some v) e) ∙ p))

  for_kni_panics : ReadsOutside → for_kni ≡ panic
  unfolding is_for_kni
  for_kni_panics (v, e, outside) =
      rw
        (
          is_for_kni,
          e,
          get_out_of_range (get_portmap (port_at side s.pp) false icmp_number)
              (nff.swap16 hdr.identifier) outside,
        )
        refl

  after_returns :
      (to_us b : Bool)
      → Ensures
          (λ _ pp. pp ≡ s.pp)
          (if b then return dir_kni else handle_echo env side icmp_number pkt hdr to_us)
          s
  after_returns to_us true = refl
  after_returns to_us false = handle_echo-pp env side icmp_number pkt hdr key to_us s

  abbrev asked : Bool → M ℕ
  asked to_us = lift for_kni >>= λ b.
      if b then return dir_kni else handle_echo env side icmp_number pkt hdr to_us

  asked_done :
      (to_us b : Bool)
      → for_kni ≡ done b
      → asked to_us s
        ≡ (if b then return dir_kni else handle_echo env side icmp_number pkt hdr to_us) s
  asked_done to_us b e = rw e refl

  asked_panics : (to_us : Bool) (o : Outcome Bool) → for_kni ≡ o → asked to_us s ≡ panic → o ≡ panic
  asked_panics to_us panic e p = refl
  asked_panics to_us (done b) e p =
      absurd (not_panic _ _ (after_returns to_us b) (sym (asked_done to_us b e) ∙ p))

  test_panics :
      (to_us b : Bool)
      → (if b then asked to_us else handle_echo env side icmp_number pkt hdr to_us) s ≡ panic
      → (b ≡ true) × (for_kni ≡ panic)
  test_panics to_us true p = (refl, asked_panics to_us for_kni refl p)
  test_panics to_us false p =
      absurd (not_panic _ _ (handle_echo-pp env side icmp_number pkt hdr key to_us s) p)

  both : (a b : Bool) → (a && b) ≡ true → (a ≡ true) × (b ≡ true)
  both a b e = ground arith

  abbrev pub is_to_port : Ipv4Hdr → Bool
  is_to_port h = nff.swap32 h.dst_addr == (port_at side s.pp).subnet.addr

  never : (b : Bool) → (b && icmp_number == icmpv6_number) ≡ false
  never true = refl
  never false = refl

  -- The test for neighbour discovery is not for an ICMP message.
  handled :
      (h : Ipv4Hdr) (l4 : L4)
      → pkt.l3 ≡ v4_packet h l4
      → handle_icmp env side icmp_number pkt hdr key s
        ≡ (if is_to_port h && has_kni (port_at side s.pp)
              then asked (is_to_port h)
              else handle_echo env side icmp_number pkt hdr (is_to_port h))
            s
  unfolding handle_icmp icmp_after_discovery addressed dst_as_ipv4
  handled h l4 l3 =
      rw
        (
          l3,
          never (
              nff.swap32 (dst_as_ipv4 env side (v4_packet h l4))
              == (port_at side s.pp).subnet.addr),
        )
        refl

  -- What handleICMP does with an IPv4 packet that carries a message, for any port, entry and packet: it
  -- panics exactly if the packet is addressed to the port itself, the port has a KNI interface, its
  -- table has an entry under the key, and the message's identifier lies outside of its portmap.
  pub handle_icmp_panics_iff :
      (h : Ipv4Hdr) (l4 : L4)
      → pkt.l3 ≡ v4_packet h l4
      → (handle_icmp env side icmp_number pkt hdr key s ≡ panic)
        ↔ ((is_to_port h ≡ true) × (has_kni (port_at side s.pp) ≡ true) × ReadsOutside)
  handle_icmp_panics_iff h l4 l3 = (forth, back)
    where
      forth :
          handle_icmp env side icmp_number pkt hdr key s ≡ panic
          → (is_to_port h ≡ true) × (has_kni (port_at side s.pp) ≡ true) × ReadsOutside
      forth p =
          let (b, e) =
            test_panics (is_to_port h) (is_to_port h && has_kni (port_at side s.pp))
              (sym (handled h l4 l3) ∙ p) in
          let (us, kni) = both (is_to_port h) (has_kni (port_at side s.pp)) b in
          (us, kni, by_entry _ refl e)

      back :
          (is_to_port h ≡ true) × (has_kni (port_at side s.pp) ≡ true) × ReadsOutside
          → handle_icmp env side icmp_number pkt hdr key s ≡ panic
      back (us, kni, reads) = handled h l4 l3 ∙ rw (us, kni, for_kni_panics reads) refl
