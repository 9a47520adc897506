-- ===== src/RequestLoop/Ipv6Part.antt =====
-- The IPv6 part of a round, for one port.
use nff_go_nat.Base.{
  if_true, if_false, not-true, not-false, ℕ, ◌≡◌, sym, ◌∙◌, ap, Bool, true, false, not, ◌&&◌, List,
  [], ◌∷◌,
}
use nff_go_nat.Net.{zero_ipv6_addr}
use nff_go_nat.Config.{IpPort, PortPair, InterfaceType}
use nff_go_nat.Machine.{Env, Event, St, port_at, set_port, set_link_ipv6_kni_address}
use nff_go_nat.Machine.Posts.{Ensures, Ensures-bind, Ensures-if, Ensures-weaken}
use nff_go_nat.Dhcp6.{
  single_ip_mask, new_option6, opt_iana, solicit, send_dhcpv6_solicit_request,
  compose_and_send_dhcpv6_packet, note_sent6, set_transaction,
}
use nff_go_nat.RequestLoop.{set_kni_address6, link_again6, linked6, request_ipv6}
use nff_go_nat.OptionCodec.{encode_iana}
use nff_go_nat.RequestLoop.Sending.{asked6, set_link6-pp, composed6, set_port_twice, set_port_self}

module _ (env : Env) (set_kni_ip : Bool) (links : List Event → Event → Bool) (side : InterfaceType)
    (s : St) where
  abbrev the6 : IpPort
  the6 = port_at side s.pp

  abbrev pub Asked6 : List ℕ → PortPair → Type 0
  Asked6 id pp = (k : Bool) × (pp ≡ set_port side s.pp (asked6 id k the6))

  solicited :
      (id : List ℕ) (iaid : ℕ) (s' : St)
      → s'.pp ≡ s.pp
      → the6.subnet6.address_acquired ≡ false
      → Ensures (λ _ pp. Asked6 id pp) (send_dhcpv6_solicit_request env side id iaid) s'
  unfolding send_dhcpv6_solicit_request note_sent6
  solicited id iaid s' same e =
      let port = set_transaction id (port_at side s'.pp) in
      let t = record s' { pp = set_port side s'.pp port } in
      let options =
        new_option6 opt_iana (encode_iana (record { iaid = iaid; t1 = 0; t2 = 0; options = [] }))
        ∷ [] in
      Ensures-weaken (λ _ pp. Asked6 id pp) t _
        (compose_and_send_dhcpv6_packet env side solicit options)
        (composed6 env side solicit options t)
        (λ a pp q. (
          false,
          q
              ∙ (set_port_twice side s'.pp port (note_sent6 solicit)
                  ∙ (ap
                        (λ p.
                          set_port side p
                            (note_sent6 solicit (set_transaction id (port_at side p))))
                        same
                      ∙ ap (set_port side s.pp) (
                          unfold set_transaction in
                          sym (if_false the6.subnet6.address_acquired _ _ e)))),
        ))

  linked-Asked :
      (id : List ℕ)
      → the6.subnet6.address_acquired ≡ true
      → Ensures (λ _ pp. Asked6 id pp) (link_again6 env set_kni_ip links side the6) s
  unfolding link_again6
  linked-Asked id e =
      let k = linked6 env set_kni_ip links the6 s in
      Ensures-bind (λ _ pp. pp ≡ s.pp) _ s
        (set_link_ipv6_kni_address env side the6.subnet6.addr the6.subnet6.mask zero_ipv6_addr
          zero_ipv6_addr)
        _
        (set_link6-pp env side the6.subnet6.addr the6.subnet6.mask zero_ipv6_addr zero_ipv6_addr s)
        (λ a s' q. (
          k,
          ap (λ p. set_port side p (set_kni_address6 k (port_at side p))) q
              ∙ ap (set_port side s.pp) (sym (if_true the6.subnet6.address_acquired _ _ e)),
        ))

  kept6 : (id : List ℕ) → the6.subnet6.address_acquired ≡ true → Asked6 id s.pp
  unfolding set_kni_address6
  kept6 id e = (
    the6.subnet6.kni_address_set,
    set_port_self side s.pp
        ∙ ap (set_port side s.pp) (sym (if_true the6.subnet6.address_acquired _ _ e)),
  )

  pub request_ipv6-Asked :
      (id : List ℕ) (iaid : ℕ)
      → Ensures (λ _ pp. Asked6 id pp) (request_ipv6 env set_kni_ip links side id iaid) s
  unfolding request_ipv6
  request_ipv6-Asked id iaid =
      Ensures-if (λ _ pp. Asked6 id pp) s (not the6.subnet6.address_acquired) _ _
        (λ e.
          Ensures-bind (λ _ pp. pp ≡ s.pp) (λ _ pp. Asked6 id pp) s
            (set_link_ipv6_kni_address env side the6.subnet6.ll_addr single_ip_mask zero_ipv6_addr
              zero_ipv6_addr)
            _
            (set_link6-pp env side the6.subnet6.ll_addr single_ip_mask zero_ipv6_addr zero_ipv6_addr
              s)
            (λ a s' q. solicited id iaid s' q (not-true _ e)))
        (λ e.
          Ensures-if (λ _ pp. Asked6 id pp) s (set_kni_ip && not the6.subnet6.kni_address_set) _ _
            (λ _. linked-Asked id (not-false _ e)) (λ _. kept6 id (not-false _ e)))
