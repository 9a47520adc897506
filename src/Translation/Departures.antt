-- ===== src/Translation/Departures.antt =====
-- What PrivateToPublicTranslation of nat/translation.go does once a packet is looked up in the private
-- table: the entry that is there, and the connection that is opened.
use nff_go_nat.Base.{
  ℕ, ◌<◌, ◌≡◌, refl, sym, subst, ap, ◌∙◌, Bool, true, false, not, ◌&&◌, ◌||◌, Option, none, some,
  inl, inr, arith, ◌%◌, ◌^◌,
}
use nff_go_nat.Net.{Endpoint, tuple, tuple6}
use nff_go_nat.Packets.{Packet, L4}
use nff_go_nat.Config.{PortPair, i_private, port_end, dir_drop, dir_kni, has_kni}
use nff_go_nat.PortAlloc.{make_port_addr_tuple}
use nff_go_nat.Connections.{get_addr_from_tuple, public_v4addr, public_v6addr}
use nff_go_nat.Connections.Links.{is_v6, port_number, is_zero}
use nff_go_nat.Connections.WellFormed.{WellFormed, is_translated, capacity}
use nff_go_nat.Connections.Egress.{allocate_new_egress_connection_lem}
use nff_go_nat.Machine.{Env, St, ◌>>=◌, port_at, learn}
use nff_go_nat.Machine.Posts.{
  Ensures, Ensures-both, Ensures-bind, Ensures-if, Ensures-weaken, SameButArp, lift_step, pair_step,
  run_step, learn-SameButArp,
}
use nff_go_nat.Translation.{IpHdr, is_ipv6, is_acquired, cache_key, Target, touch_entry}
use nff_go_nat.Translation.Egress.{
  forward_out, egress_found, open_connection, egress_opened, egress_unknown, is_sent_to_us,
  egress_by, egress_lookup,
}
use nff_go_nat.Translation.Rewrite.{target_of}
use nff_go_nat.Translation.Checksummed.{raw_src}
use nff_go_nat.Translation.Entries.{
  KeptWith, finish-KeptWith, addr4, addr6, target, get_addr_from_tuple_lem, target_of-target,
  inside_translated, touch_entry-WellFormed, Kept, WellFormed-arp,
}
use nff_go_nat.Translation.Local.{protocol_of}
use nff_go_nat.Translation.Receiving.{kni_not_send, drop_not_send}
use nff_go_nat.Translation.Sending.{
  source_key_parts, key, LeavesAs, Masqueraded, Masqueraded-arp, Same, forward_out-Kept,
  forward_out-Same,
}

module _ (env : Env) (pkt : Packet) (ip : IpHdr) (l4 : L4)
    (translated : is_translated (is_ipv6 ip) (protocol_of l4) ≡ true) where
  open env use {nff, now}

  -- An entry of the private table for the packet's source.
  private_fits :
      (pp : PortPair) (v : Endpoint)
      → WellFormed pp
      → pp.private_port.translation_table (protocol_of l4) (key env ip l4) ≡ some v
      → (is_v6 v ≡ is_ipv6 ip) × (port_number v < port_end)
  private_fits pp v w e =
      let (family, fits) = w.private_entries (protocol_of l4) (key env ip l4) v e in
      let family' = family ∙ source_key_parts env ip (nff.swap16 (raw_src l4)) in
      (family', subst (λ n. port_number v < n) (capacity_path family') fits)
    where
      capacity_path : is_v6 v ≡ is_ipv6 ip → capacity (is_v6 v) (protocol_of l4) ≡ port_end
      capacity_path f = rw (f, translated) refl

  registered :
      (t : Target) (v : Endpoint) (pp' pp1 : PortPair)
      → target_of (is_ipv6 ip) t ≡ v
      → pp' ≡ pp1
      → pp1.private_port.translation_table (protocol_of l4) (key env ip l4) ≡ some v
      → pp1.public_port.translation_table (protocol_of l4) v ≡ some (key env ip l4)
      → (pp'.private_port.translation_table (protocol_of l4) (key env ip l4)
          ≡ some (target_of (is_ipv6 ip) t))
        × (pp'.public_port.translation_table (protocol_of l4) (target_of (is_ipv6 ip) t)
            ≡ some (key env ip l4))
  registered t v pp' pp1 e same priv public = rw (e, same) (priv, public)

  egress_found-Kept :
      (v : Endpoint) (s : St)
      → WellFormed s.pp
      → s.pp.private_port.translation_table (protocol_of l4) (key env ip l4) ≡ some v
      → Ensures
          (KeptWith (Masqueraded env ip l4 s.pp))
          (egress_found env pkt ip l4 (protocol_of l4) v)
          s
  unfolding egress_found
  egress_found-Kept v s w e =
      let X = Masqueraded env ip l4 s.pp in
      let (family, fits) = private_fits s.pp v w e in
      let inside =
        inside_translated now s.pp (is_ipv6 ip) w (protocol_of l4) (port_number v) translated
          fits in
      let (pp1, e1, w1, priv, table) =
        touch_entry-WellFormed now s.pp (is_ipv6 ip) w (protocol_of l4) (port_number v) inside in
      let s1 = record s { pp = pp1 } in
      lift_step (KeptWith X) (get_addr_from_tuple v (is_ipv6 ip))
        (addr4 v, addr6 v, port_number v, is_zero v) _ s
        (get_addr_from_tuple_lem v (is_ipv6 ip) family)
        (pair_step (KeptWith X) (touch_entry now (is_ipv6 ip) (protocol_of l4) (port_number v)) pp1
          _ s e1
          (Ensures-if (KeptWith X) s1 (is_zero v) _ _
            (λ _. finish-KeptWith env X i_private pkt dir_kni _ w1 kni_not_send)
            (λ z.
              Ensures-weaken (KeptWith X) s1
                (λ r pp.
                  Kept (LeavesAs env ip l4 (target v)) r pp
                  × Same env pkt ip l4 translated pp1 r pp)
                (forward_out env pkt ip l4 (target v))
                (Ensures-both (Kept (LeavesAs env ip l4 (target v)))
                  (Same env pkt ip l4 translated pp1) (forward_out env pkt ip l4 (target v)) s1
                  (forward_out-Kept env pkt ip l4 translated (target v) s1 fits w1)
                  (forward_out-Same env pkt ip l4 translated (target v) s1 fits w1))
                (λ r pp h. (
                  h.0.0,
                  λ d. (
                    target v,
                    inl (e ∙ ap some (sym (target_of-target v (is_ipv6 ip) family))),
                    h.0.1 d,
                    λ other.
                        registered (target v) v pp pp1 (target_of-target v (is_ipv6 ip) family)
                          (h.1 other)
                          (ap (λ x. x.translation_table (protocol_of l4) (key env ip l4)) priv ∙ e)
                          (ap (λ x. x (protocol_of l4) v) table
                            ∙ w.leads_back (protocol_of l4) (key env ip l4) v e z),
                  ),
                )))))

  -- A new connection's target.
  abbrev opened_target : PortPair → ℕ → Target
  opened_target pp p = record {
    v4addr = public_v4addr pp (is_ipv6 ip);
    v6addr = public_v6addr pp (is_ipv6 ip);
    new_port = p;
  }

  opened_target-tuple :
      (pp : PortPair) (ipv6 : Bool) (p : ℕ)
      → p < port_end
      → target_of ipv6
          (record { v4addr = public_v4addr pp ipv6; v6addr = public_v6addr pp ipv6; new_port = p })
        ≡ make_port_addr_tuple pp.public_port ipv6 p
  unfolding make_port_addr_tuple
  opened_target-tuple pp true p h = ap (tuple6 pp.public_port.subnet6.addr) (sym (small p h))
    where
      small : (p : ℕ) → p < port_end → p % 2 ^ 16 ≡ p
      small p h = omega arith
  opened_target-tuple pp false p h = ap (tuple pp.public_port.subnet.addr) (sym (small p h))
    where
      small : (p : ℕ) → p < port_end → p % 2 ^ 16 ≡ p
      small p h = omega arith

  open_and_send :
      (s : St)
      → WellFormed s.pp
      → s.pp.private_port.translation_table (protocol_of l4) (key env ip l4) ≡ none
      → Ensures
          (KeptWith (Masqueraded env ip l4 s.pp))
          (open_connection env (is_ipv6 ip) (protocol_of l4) (key env ip l4) >>= λ opened.
            egress_opened env pkt ip l4 opened)
          s
  unfolding open_connection egress_opened
  open_and_send s w e =
      let X = Masqueraded env ip l4 s.pp in
      let f = λ (opened : Option Target). egress_opened env pkt ip l4 opened in
      let m = open_connection env (is_ipv6 ip) (protocol_of l4) (key env ip l4) in
      elim (allocate_new_egress_connection_lem now s.pp (is_ipv6 ip) (protocol_of l4)
        (key env ip l4) w translated (source_key_parts env ip (nff.swap16 (raw_src l4)))) [
          | inl (a, busy) ↦
              run_step (KeptWith X) m none s f s (rw (open_connection, a) refl)
                (finish-KeptWith env X i_private pkt dir_drop s w drop_not_send)
          | inr (p, pp', a, next, w', h1, h2, h3, h4) ↦
              let t = opened_target s.pp p in
              run_step (KeptWith X) m (some t) (record s { pp = pp' }) f s
                (rw (open_connection, a) refl)
                (Ensures-weaken (KeptWith X) (record s { pp = pp' })
                  (λ r pp.
                    Kept (LeavesAs env ip l4 t) r pp × Same env pkt ip l4 translated pp' r pp)
                  (forward_out env pkt ip l4 t)
                  (Ensures-both (Kept (LeavesAs env ip l4 t)) (Same env pkt ip l4 translated pp')
                    (forward_out env pkt ip l4 t) (record s { pp = pp' })
                    (forward_out-Kept env pkt ip l4 translated t (record s { pp = pp' })
                      next.below_end w')
                    (forward_out-Same env pkt ip l4 translated t (record s { pp = pp' })
                      next.below_end w'))
                  (λ r pp h. (
                    h.0.0,
                    λ d. (
                      t,
                      inr (e, next, opened_target-tuple s.pp (is_ipv6 ip) p next.below_end),
                      h.0.1 d,
                      λ other.
                          registered t (make_port_addr_tuple s.pp.public_port (is_ipv6 ip) p) pp pp'
                            (opened_target-tuple s.pp (is_ipv6 ip) p next.below_end) (h.1 other) h1
                            h2,
                    ),
                  )))
        ]

  private_lookup-arp :
      (p q : PortPair)
      → SameButArp p q
      → q.private_port.translation_table (protocol_of l4) (key env ip l4)
        ≡ p.private_port.translation_table (protocol_of l4) (key env ip l4)
  private_lookup-arp p q (a, b, e) =
      ap (λ x. x.private_port.translation_table (protocol_of l4) (key env ip l4)) e

  egress_unknown-Kept :
      (s : St)
      → WellFormed s.pp
      → s.pp.private_port.translation_table (protocol_of l4) (key env ip l4) ≡ none
      → Ensures
          (KeptWith (Masqueraded env ip l4 s.pp))
          (egress_unknown env pkt ip l4 (protocol_of l4) (key env ip l4))
          s
  unfolding egress_unknown port_at
  egress_unknown-Kept s w e =
      let X = Masqueraded env ip l4 s.pp in
      Ensures-bind (λ _ pp. SameButArp s.pp pp) (KeptWith X) s
        (learn i_private (cache_key ip) pkt.ether.saddr) _
        (learn-SameButArp i_private (cache_key ip) pkt.ether.saddr s)
        (λ a s' same.
          let w' = WellFormed-arp s.pp s'.pp same w in
          Ensures-if (KeptWith X) s'
            (not (is_acquired s'.pp.private_port (is_ipv6 ip))
              || not (is_acquired s'.pp.public_port (is_ipv6 ip)))
            _ _ (λ _. finish-KeptWith env X i_private pkt dir_drop s' w' drop_not_send)
            (λ _.
              Ensures-weaken (KeptWith X) s' (KeptWith (Masqueraded env ip l4 s'.pp))
                (open_connection env (is_ipv6 ip) (protocol_of l4) (key env ip l4) >>= λ opened.
                  egress_opened env pkt ip l4 opened)
                (open_and_send s' w' (private_lookup-arp s.pp s'.pp same ∙ e))
                (λ r pp h. (h.0, λ d. Masqueraded-arp env ip l4 s.pp s'.pp r.1 pp same (h.1 d)))))

  egress_by-Kept :
      (s : St) (o : Option Endpoint)
      → WellFormed s.pp
      → s.pp.private_port.translation_table (protocol_of l4) (key env ip l4) ≡ o
      → Ensures
          (KeptWith (Masqueraded env ip l4 s.pp))
          (egress_by env pkt ip l4 (protocol_of l4) (key env ip l4) o)
          s
  unfolding egress_by
  egress_by-Kept s none w e = egress_unknown-Kept s w e
  egress_by-Kept s (some v) w e = egress_found-Kept v s w e

  pub egress_lookup-Kept :
      (s : St)
      → WellFormed s.pp
      → Ensures
          (KeptWith (Masqueraded env ip l4 s.pp))
          (egress_lookup env pkt ip l4 (protocol_of l4) (nff.swap16 (raw_src l4)))
          s
  unfolding egress_lookup port_at
  egress_lookup-Kept s w =
      let X = Masqueraded env ip l4 s.pp in
      let private = s.pp.private_port in
      Ensures-if (KeptWith X) s
        (has_kni private && is_acquired private (is_ipv6 ip) && is_sent_to_us env private ip) _ _
        (λ _. finish-KeptWith env X i_private pkt dir_kni s w kni_not_send)
        (λ _. egress_by-Kept s _ w refl)
