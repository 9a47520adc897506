-- ===== src/Server/RuleChanges.antt =====
-- What ChangePortForwarding keeps of the pairs.
use nff_go_nat.Base.{
  ℕ, ◌%◌, ◌^◌, ◌<◌, ◌≡◌, refl, Bool, true, false, ◌&&◌, Option, none, some, All, if◌then◌else◌,
  done, Returns, Returns-bind, arith,
}
use nff_go_nat.Nff.{Nff}
use nff_go_nat.Config.{PortPair, ForwardedPort, port_end}
use nff_go_nat.Connections.WellFormed.{is_translated}
use nff_go_nat.Forwarding.{ForwardError}
use nff_go_nat.Dhcp.{convert_ipv4}
use nff_go_nat.Control.{
  RuleMessage, convert_forwarded_port, is_address, is_good_protocol, rule_of,
  change_port_forwarding,
}
use nff_go_nat.Control.Keeps.{change_port_forwarding-IsSound}
use nff_go_nat.Control.Replacing.{IsSound}
use nff_go_nat.Server.{
  PortForwardingChangeRequest, ServerState, Found, put_back, get_port_and_pair_by_id,
  forwarding_reply, apply_rule, change_rule_of, handle_port_forwarding,
}
use nff_go_nat.Server.Pairs.{AllSound, IsLongEnough, convert_ipv4-Returns, found-All}

good_protocol-translated :
    (ipv6 : Bool) (protocol : ℕ)
    → is_good_protocol protocol ≡ true
    → is_translated ipv6 (protocol % 256) ≡ true
unfolding is_good_protocol is_translated
good_protocol-translated ipv6 protocol h = ground arith

-- The rule that a message stands for, if it is one.
abbrev IsRuleOf : RuleMessage → Option ForwardedPort → Type 0
IsRuleOf p none = Unit
IsRuleOf p (some fp) =
    (is_translated fp.protocol.ipv6 fp.protocol.id ≡ true)
    × (fp.port ≡ p.source_port_number % 2 ^ 16)

guarded-IsRuleOf :
    (p : RuleMessage) (addr : Option ℕ) (a b : Bool)
    → is_good_protocol p.protocol ≡ b
    → Returns (IsRuleOf p) (if a && b then done (some (rule_of p addr)) else done none)
unfolding rule_of
guarded-IsRuleOf p addr true true e = (good_protocol-translated _ p.protocol e, refl)
guarded-IsRuleOf p addr true false e = tt
guarded-IsRuleOf p addr false b e = tt

convert_forwarded_port-IsRuleOf :
    (nff : Nff) (p : RuleMessage)
    → IsLongEnough p.target_address
    → Returns (IsRuleOf p) (convert_forwarded_port nff p)
unfolding convert_forwarded_port
convert_forwarded_port-IsRuleOf nff p h =
    Returns-bind (λ _. Unit) (IsRuleOf p) (convert_ipv4 nff p.target_address) _
      (convert_ipv4-Returns nff p.target_address h)
      (λ addr _. guarded-IsRuleOf p addr (is_address p addr) (is_good_protocol p.protocol) refl)

module _ (nff : Nff) (now : ℕ) (request : PortForwardingChangeRequest) (st : ServerState)
    (sound : AllSound st) (inside : request.rule.source_port_number % 2 ^ 16 < port_end) where
  forwarding_reply-AllSound :
      (f : Found) (r : Option ForwardError × PortPair)
      → ((pp : PortPair) → IsSound pp → All IsSound (put_back f pp))
      → IsSound r.1
      → AllSound (forwarding_reply st f r).1
  unfolding forwarding_reply
  forwarding_reply-AllSound f (some error, pp) back h = sound
  forwarding_reply-AllSound f (none, pp) back h = back pp h

  applied-AllSound :
      (f : Found) (o : Option ForwardedPort)
      → IsSound f.pair
      → ((pp : PortPair) → IsSound pp → All IsSound (put_back f pp))
      → IsRuleOf request.rule o
      → Returns (λ r. AllSound r.1) (apply_rule now request st f o)
  unfolding apply_rule
  applied-AllSound f none here back h = sound
  applied-AllSound f (some fp) here back (translated, same) =
      Returns-bind (λ r. IsSound r.1) (λ r. AllSound r.1)
        (change_port_forwarding now f.side fp request.enable_forwarding f.pair) _
        (change_port_forwarding-IsSound now f.side fp request.enable_forwarding f.pair here
          translated (rw same inside))
        (λ r h. forwarding_reply-AllSound f r back h)

  rule_of-AllSound :
      (o : Option Found)
      → get_port_and_pair_by_id st.config.port_pairs request.interface_id ≡ o
      → IsLongEnough request.rule.target_address
      → Returns (λ r. AllSound r.1) (change_rule_of nff now request st o)
  unfolding change_rule_of
  rule_of-AllSound none e long = sound
  rule_of-AllSound (some f) e long =
      let (here, back) = found-All IsSound st.config.port_pairs request.interface_id f e sound in
      Returns-bind (IsRuleOf request.rule) (λ r. AllSound r.1)
        (convert_forwarded_port nff request.rule) _
        (convert_forwarded_port-IsRuleOf nff request.rule long)
        (λ o h. applied-AllSound f o here back h)

  -- A request to change a forwarding rule, for a source port below `portEnd` and with a target address
  -- that is nil or has at least four bytes, when the pairs are well formed and typed: whatever port it
  -- names and whether its rule is accepted, enabled or not, ChangePortForwarding does not panic, and
  -- all pairs are well formed and typed afterwards.
  pub handle_port_forwarding-AllSound :
      IsLongEnough request.rule.target_address
      → Returns (λ r. AllSound r.1) (handle_port_forwarding nff now request st)
  unfolding handle_port_forwarding
  handle_port_forwarding-AllSound long = rule_of-AllSound _ refl long
