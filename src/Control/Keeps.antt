-- ===== src/Control/Keeps.antt =====
-- ChangePortForwarding on either port of a pair, for rules that are accepted and those that are not.
use nff_go_nat.Base.{
  ℕ, ◌<◌, ◌≡◌, refl, ap, ◌∙◌, inl, inr, Bool, true, false, Returns, Returns-bind, arith,
}
use nff_go_nat.Config.{
  IpPort, PortPair, InterfaceType, i_public, i_private, ForwardedPort, port_end,
}
use nff_go_nat.Connections.WellFormed.{is_translated}
use nff_go_nat.Forwarding.{
  Checked, accepted, refused, is_addr_zero, fill_port, check_port_forwarding, has_target,
}
use nff_go_nat.Forwarding.Checks.{IsAccepted, check_port_forwarding_accepts}
use nff_go_nat.Machine.{port_at, opposite}
use nff_go_nat.Control.{replace_rule, apply_checked, change_port_forwarding}
use nff_go_nat.Control.Replacing.{IsSound, replaced-IsSound}

fill_port_parts :
    (fp : ForwardedPort) → ((fill_port fp).protocol ≡ fp.protocol) × ((fill_port fp).port ≡ fp.port)
unfolding fill_port
fill_port_parts fp = ground arith

both_types : (t : InterfaceType) → t ≡ i_private → t ≡ i_public → ⊥
both_types t e e' = cc

-- A KNI rule has no target.
kni-has_target :
    (fp : ForwardedPort)
    → fp.destination.ipv6 ≡ fp.protocol.ipv6
    → is_addr_zero fp.destination ≡ true
    → has_target fp ≡ false
unfolding has_target is_addr_zero
kni-has_target fp family zero_addr = ground arith

-- What checkPortForwarding hands on: the same port and protocol and, on a private port, a rule for the
-- KNI interface.
pub accepted_parts :
    (port other : IpPort) (fp fp' : ForwardedPort) (b : Bool)
    → IsAccepted port other fp fp' b
    → (fp'.protocol ≡ fp.protocol)
      × (fp'.port ≡ fp.port)
      × (port.interface_type ≡ i_private
          → (has_target fp' ≡ false) × (fp'.destination.port ≡ fp'.port))
accepted_parts port other fp fp' b (family, inl (r, e, n)) =
    rw e (refl, refl, λ q. (kni-has_target fp family r.zero, r.same_port))
accepted_parts port other fp fp' b (family, inr (r, e, n)) =
    let (p, q) = fill_port_parts fp in
    (
      ap (λ x. x.protocol) e ∙ p,
      ap (λ x. x.port) e ∙ q,
      λ private. absurd (both_types _ private r.on_public),
    )

module _ (now : ℕ) (side : InterfaceType) (fp : ForwardedPort) (enable : Bool) (pp : PortPair)
    (sound : IsSound pp) (translated : is_translated fp.protocol.ipv6 fp.protocol.id ≡ true)
    (inside : fp.port < port_end) where
  typed_side : side ≡ i_private → (port_at side pp).interface_type ≡ i_private
  unfolding port_at
  typed_side e = rw e sound.1.1

  applied-IsSound :
      (c : Checked)
      → check_port_forwarding (port_at side pp) (port_at (opposite side) pp) fp ≡ c
      → Returns (λ r. IsSound r.1) (apply_checked now side enable pp c)
  unfolding apply_checked
  applied-IsSound (refused error) e = sound
  applied-IsSound (accepted fp' b) e =
      let (p, q, kni) =
        accepted_parts (port_at side pp) (port_at (opposite side) pp) fp fp' b
          (check_port_forwarding_accepts _ _ fp fp' b e) in
      Returns-bind IsSound (λ r. IsSound r.1) (replace_rule now side fp' enable pp) _
        (replaced-IsSound now pp fp' sound (rw p translated) (rw q inside) side enable
          (λ on_private. kni (typed_side on_private)))
        (λ pp' h. h)

  pub change_port_forwarding-IsSound :
      Returns (λ r. IsSound r.1) (change_port_forwarding now side fp enable pp)
  unfolding change_port_forwarding
  change_port_forwarding-IsSound = applied-IsSound _ refl
