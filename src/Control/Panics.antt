-- ===== src/Control/Panics.antt =====
-- ChangePortForwarding of nat/grpc.go on a public port: when it reads outside of the portmap.
use nff_go_nat.Base.{
  ℕ, ◌≤◌, ◌≡◌, ◌↔◌, refl, subst, Bool, true, false, ltb, ltb→lt, ltb_false→le, panic, Returns,
}
use nff_go_nat.Config.{PortPair, i_public, ForwardedPort, port_end}
use nff_go_nat.PortAlloc.Entries.{delete_old_connection_panics}
use nff_go_nat.Connections.WellFormed.{is_translated}
use nff_go_nat.Forwarding.{Checked, accepted, refused, check_port_forwarding}
use nff_go_nat.Forwarding.Checks.{check_port_forwarding_accepts}
use nff_go_nat.Machine.{port_at, opposite}
use nff_go_nat.Control.{clear_port, replace_rule, apply_checked, change_port_forwarding}
use nff_go_nat.Control.Keeps.{accepted_parts, change_port_forwarding-IsSound}
use nff_go_nat.Control.Replacing.{IsSound}

-- checkPortForwarding accepts a rule of the public port, with a destination port filled in or not.
abbrev pub IsTaken : PortPair → ForwardedPort → Type 0
IsTaken pp fp =
    (fp' : ForwardedPort) × (b : Bool) × (check_port_forwarding pp.public_port pp.private_port fp
      ≡ accepted fp' b)

module _ (now : ℕ) (fp : ForwardedPort) (enable : Bool) (pp : PortPair) (sound : IsSound pp)
    (translated : is_translated fp.protocol.ipv6 fp.protocol.id ≡ true) where
  abbrev checked : Checked
  checked = check_port_forwarding pp.public_port pp.private_port fp

  replace_rule_panics :
      (fp' : ForwardedPort)
      → fp'.protocol ≡ fp.protocol
      → fp'.port ≡ fp.port
      → port_end ≤ fp.port
      → replace_rule now i_public fp' enable pp ≡ panic
  unfolding replace_rule clear_port
  replace_rule_panics fp' p q outside =
      rw
        (
          p,
          q,
          delete_old_connection_panics pp fp.protocol.ipv6 fp.protocol.id fp.port
              (rw (sound.0.allocated fp.protocol.ipv6 fp.protocol.id, translated) outside),
        )
        refl

  applied_panics :
      (c : Checked)
      → checked ≡ c
      → port_end ≤ fp.port
      → IsTaken pp fp
      → apply_checked now i_public enable pp c ≡ panic
  unfolding apply_checked
  applied_panics (refused error) e outside (fp', b, e') = absurd (cc)
  applied_panics (accepted fp' b) e outside taken =
      let (p, q, _) =
        accepted_parts pp.public_port pp.private_port fp fp' b
          (check_port_forwarding_accepts _ _ fp fp' b e) in
      rw (replace_rule_panics fp' p q outside) refl

  taken :
      (c : Checked) → checked ≡ c → apply_checked now i_public enable pp c ≡ panic → IsTaken pp fp
  unfolding apply_checked
  taken (refused error) e p = absurd (cc)
  taken (accepted fp' b) e p = (fp', b, e)

  outside :
      (b : Bool)
      → ltb fp.port port_end ≡ b
      → change_port_forwarding now i_public fp enable pp ≡ panic
      → port_end ≤ fp.port
  outside false e p = ltb_false→le fp.port port_end e
  outside true e p = absurd (
      subst (Returns (λ r. IsSound r.1)) p (
        change_port_forwarding-IsSound now i_public fp enable pp sound translated
          (ltb→lt fp.port port_end e)))

  -- A rule for a translated protocol on the public port of a well-formed and typed pair, to be enabled
  -- or disabled: ChangePortForwarding panics exactly if checkPortForwarding accepts the rule and its
  -- port is portEnd or above.
  pub change_port_forwarding_panics_iff :
      (change_port_forwarding now i_public fp enable pp ≡ panic)
      ↔ (IsTaken pp fp × port_end ≤ fp.port)
  unfolding change_port_forwarding port_at opposite
  change_port_forwarding_panics_iff =
      (λ p. (taken checked refl p, outside _ refl p), λ (t, o). applied_panics checked refl o t)
