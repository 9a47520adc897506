-- ===== src/Reading/Rules.antt =====
-- The loop over the forwarding rules of a port, in ReadConfig.
use nff_go_nat.Base.{◌≡◌, refl, inl, inr, Bool, true, false, List, [], ◌∷◌, map, All, arith}
use nff_go_nat.Base.Results.{ok, >>=-eq-ok}
use nff_go_nat.Config.{IpPort, ForwardedPort, has_kni}
use nff_go_nat.Forwarding.{Checked, accepted, refused, check_port_forwarding}
use nff_go_nat.Forwarding.Checks.{
  check_port_forwarding_accepts, check_port_forwarding_kni, check_port_forwarding_host,
}
use nff_go_nat.Reading.{Needs, note_kni, checked_rule, read_rules}
use nff_go_nat.Reading.Readable.{IsRule, filled}

note_kni_again :
    (b : Bool) (needs : Needs) → (b ≡ true → needs.kni ≡ true) → note_kni b needs ≡ needs
unfolding note_kni
note_kni_again true needs h = ground (arith, h refl)
note_kni_again false needs h = ground arith

checked_IsRule :
    (port opposite : IpPort) (fp : ForwardedPort) (needs : Needs)
    → (has_kni port ≡ true → needs.kni ≡ true)
    → IsRule port opposite fp
    → (b : Bool) × (check_port_forwarding port opposite fp ≡ accepted (filled fp) b)
      × (note_kni b needs ≡ needs)
checked_IsRule port opposite fp needs k (family, inl r) = (
  true,
  rw (r.zero) (check_port_forwarding_kni port opposite fp family r),
  note_kni_again true needs (λ _. k r.kni),
)
checked_IsRule port opposite fp needs k (family, inr r) = (
  false,
  rw (r.nonzero) (check_port_forwarding_host port opposite fp family r),
  note_kni_again false needs (λ e. absurd (cc)),
)

pub read_rules_complete :
    (port opposite : IpPort) (needs : Needs) (fps : List ForwardedPort)
    → (has_kni port ≡ true → needs.kni ≡ true)
    → All (IsRule port opposite) fps
    → read_rules port opposite needs fps ≡ ok (map filled fps, needs)
unfolding read_rules checked_rule
read_rules_complete port opposite needs [] k h = refl
read_rules_complete port opposite needs (fp ∷ fps) k (h, hs) =
    let (b, e, n) = checked_IsRule port opposite fp needs k h in
    rw (e, n, read_rules_complete port opposite needs fps k hs) refl

checked_rule_sound :
    (port opposite : IpPort) (fp : ForwardedPort) (c : Checked) (r : ForwardedPort × Bool)
    → check_port_forwarding port opposite fp ≡ c
    → checked_rule c ≡ ok r
    → IsRule port opposite fp
unfolding checked_rule
checked_rule_sound port opposite fp (accepted fp' b) r e h =
    let (family, kinds) = check_port_forwarding_accepts port opposite fp fp' b e in
    (family, elim kinds [ inl (x, _, _) ↦ inl x | inr (x, _, _) ↦ inr x ])
checked_rule_sound port opposite fp (refused error) r e h = absurd (cc)

pub read_rules_sound :
    (port opposite : IpPort) (needs : Needs) (fps : List ForwardedPort)
    (r : List ForwardedPort × Needs)
    → read_rules port opposite needs fps ≡ ok r
    → All (IsRule port opposite) fps
unfolding read_rules
read_rules_sound port opposite needs [] r h = tt
read_rules_sound port opposite needs (fp ∷ fps) r h =
    let (c, e, h1) = >>=-eq-ok (checked_rule (check_port_forwarding port opposite fp)) _ r h in
    let (d, e', h2) = >>=-eq-ok (read_rules port opposite (note_kni c.1 needs) fps) _ r h1 in
    (
      checked_rule_sound port opposite fp (check_port_forwarding port opposite fp) c refl e,
      read_rules_sound port opposite (note_kni c.1 needs) fps d e',
    )
