-- ===== src/RequestLoop/Ipv4Part.antt =====
-- The IPv4 part of a round, for one port.
use nff_go_nat.Base.{
  if_true, if_false, not-true, not-false, ℕ, ◌≡◌, sym, ◌∙◌, ap, Bool, true, false, not, ◌&&◌, List,
}
use nff_go_nat.Config.{IpPort, PortPair, InterfaceType}
use nff_go_nat.Machine.{Env, Event, St, port_at, set_port, set_link_ipv4_kni_address}
use nff_go_nat.Machine.Posts.{Ensures, Ensures-bind, Ensures-if, Ensures-weaken}
use nff_go_nat.Dhcp.{
  discover, dhcp_options, send_dhcp_discover_request, compose_and_send_dhcp_packet, note_sent,
}
use nff_go_nat.RequestLoop.{set_kni_address4, link_again4, linked4, request_ipv4}
use nff_go_nat.RequestLoop.Sending.{asked4, set_link4-pp, composed4, set_port_twice, set_port_self}

module _ (env : Env) (set_kni_ip : Bool) (links : List Event → Event → Bool) (side : InterfaceType)
    (s : St) where
  abbrev pub the : IpPort
  the = port_at side s.pp

  -- The pair with another port on the side.
  abbrev pub Leaves : IpPort → PortPair → Type 0
  Leaves port pp = pp ≡ set_port side s.pp port

  discovered :
      (xid : ℕ)
      → the.subnet.address_acquired ≡ false
      → Ensures
          (λ _ pp. Leaves (asked4 xid false the) pp)
          (send_dhcp_discover_request env side xid)
          s
  unfolding send_dhcp_discover_request note_sent
  discovered xid e =
      let port = record the {
        subnet = record the.subnet { ds = record the.subnet.ds { dhcp_transaction_id = xid } };
      } in
      let s' = record s { pp = set_port side s.pp port } in
      Ensures-weaken (λ _ pp. Leaves (asked4 xid false the) pp) s' _
        (compose_and_send_dhcp_packet env side discover dhcp_options)
        (composed4 env side discover dhcp_options s')
        (λ a pp q.
          q
          ∙ (set_port_twice side s.pp port (note_sent discover)
              ∙ ap (set_port side s.pp) (sym (if_false the.subnet.address_acquired _ _ e))))

  linked-Leaves :
      (xid : ℕ)
      → the.subnet.address_acquired ≡ true
      → Ensures
          (λ _ pp. Leaves (asked4 xid (linked4 env set_kni_ip links the s) the) pp)
          (link_again4 env set_kni_ip links side the)
          s
  unfolding link_again4
  linked-Leaves xid e =
      let k = linked4 env set_kni_ip links the s in
      Ensures-bind (λ _ pp. pp ≡ s.pp) _ s
        (set_link_ipv4_kni_address env side the.subnet.addr the.subnet.mask 0 0) _
        (set_link4-pp env side the.subnet.addr the.subnet.mask 0 0 s)
        (λ a s' q.
          ap (λ p. set_port side p (set_kni_address4 k (port_at side p))) q
          ∙ ap (set_port side s.pp) (sym (if_true the.subnet.address_acquired _ _ e)))

  abbrev pub Asked4 : ℕ → PortPair → Type 0
  Asked4 xid pp = (k : Bool) × Leaves (asked4 xid k the) pp

  kept4 :
      (xid : ℕ)
      → the.subnet.address_acquired ≡ true
      → Leaves (asked4 xid the.subnet.kni_address_set the) s.pp
  unfolding set_kni_address4
  kept4 xid e =
      set_port_self side s.pp
      ∙ ap (set_port side s.pp) (sym (if_true the.subnet.address_acquired _ _ e))

  pub request_ipv4-Asked :
      (xid : ℕ) → Ensures (λ _ pp. Asked4 xid pp) (request_ipv4 env set_kni_ip links side xid) s
  unfolding request_ipv4
  request_ipv4-Asked xid =
      Ensures-if (λ _ pp. Asked4 xid pp) s (not the.subnet.address_acquired) _ _
        (λ e.
          Ensures-weaken (λ _ pp. Asked4 xid pp) s _ (send_dhcp_discover_request env side xid)
            (discovered xid (not-true _ e)) (λ a pp q. (false, q)))
        (λ e.
          Ensures-if (λ _ pp. Asked4 xid pp) s (set_kni_ip && not the.subnet.kni_address_set) _ _
            (λ _.
              Ensures-weaken (λ _ pp. Asked4 xid pp) s _ (link_again4 env set_kni_ip links side the)
                (linked-Leaves xid (not-false _ e)) (λ a pp q. (_, q)))
            (λ _. (the.subnet.kni_address_set, kept4 xid (not-false _ e))))
