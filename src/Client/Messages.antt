-- ===== src/Client/Messages.antt =====
-- What the client's messages for forwarding rules become in the server.
use nff_go_nat.Base.{
  ℕ, ◌-◌, ◌%◌, ◌^◌, ◌≤◌, ◌≡◌, refl, ap, ◌⊎◌, inl, inr, Bool, true, false, not, ◌==◌, ◌&&◌, leb,
  if◌then◌else◌, Option, none, some, List, [], ◌∷◌, length, done, Returns, ==_iff, subst, bit_and,
  arith,
}
use nff_go_nat.Base.Options.{>>=-eq-some}
use nff_go_nat.Nff.{Nff}
use nff_go_nat.Config.{ForwardedPort, HostPort}
use nff_go_nat.Text.{Text}
use nff_go_nat.Text.Numerals.{parse_uint}
use nff_go_nat.Text.Ip.{parse_ip}
use nff_go_nat.Text.Lengths.{HasLength, parse_uint-le, parse_ip-HasLength}
use nff_go_nat.Dhcp.{to4, convert_ipv4}
use nff_go_nat.Unmarshal.Sizes.{to4-HasLength}
use nff_go_nat.Control.{
  RuleMessage, bytes_of, is_address, is_good_protocol, rule_of, convert_forwarded_port, ipv6_flag,
}
use nff_go_nat.Server.{PortForwardingChangeRequest}
use nff_go_nat.Client.{ip_or, shortest, protocol_value, known_protocol, sign_of, rule_request_of}

-- An IPv4 or an IPv6 address.
abbrev pub IsIp : List ℕ → Type 0
IsIp bytes = (length bytes ≡ 4) ⊎ (length bytes ≡ 16)

ip_or-IsIp :
    (ip : List ℕ) (o : Option (List ℕ)) → length ip ≡ 16 → HasLength 4 o → IsIp (ip_or ip o)
ip_or-IsIp ip none h k = inr h
ip_or-IsIp ip (some bytes) h k = inl k

shortest-IsIp : (s : Text) (ip : List ℕ) → parse_ip s ≡ some ip → IsIp (shortest ip)
unfolding shortest
shortest-IsIp s ip e =
    ip_or-IsIp ip (to4 ip) (subst (HasLength 16) e (parse_ip-HasLength s)) (to4-HasLength ip)

-- The values of upd.Protocol other than UNKNOWN.
abbrev pub IsProtocol : ℕ → Type 0
IsProtocol n = ((n ≡ 6) ⊎ (n ≡ 17)) ⊎ (((n ≡ 0x10006) ⊎ (n ≡ 0x10011)) ⊎ (n ≡ 0x10000))

known_protocol-IsProtocol :
    (s : Text) (n : ℕ) → known_protocol (protocol_value s) ≡ some n → IsProtocol n
unfolding protocol_value known_protocol
known_protocol-IsProtocol s n h = ground arith

-- A message with port numbers of 16 bits, a protocol and an address.
abbrev pub IsMessage : RuleMessage → Type 0
IsMessage p =
    (p.source_port_number ≤ 2 ^ 16 - 1)
    × (p.target_port_number ≤ 2 ^ 16 - 1)
    × IsProtocol p.protocol
    × ((bytes : List ℕ) × (p.target_address ≡ some bytes) × IsIp bytes)

some-IsMessage :
    (q r : PortForwardingChangeRequest)
    → ◌≡◌ {A = Option PortForwardingChangeRequest} (some q) (some r)
    → IsMessage q.rule
    → IsMessage r.rule
some-IsMessage q r e h = subst (λ x. IsMessage x.rule) (some_inj q r e) h
  where
    some_inj :
        (q r : PortForwardingChangeRequest)
        → ◌≡◌ {A = Option PortForwardingChangeRequest} (some q) (some r)
        → q ≡ r
    some_inj q r e = cc

pub rule_request_of-IsMessage :
    (parts : List Text) (r : PortForwardingChangeRequest)
    → rule_request_of parts ≡ some r
    → IsMessage r.rule
unfolding rule_request_of
rule_request_of-IsMessage (sign ∷ (index ∷ (proto ∷ (sport ∷ (addr ∷ (tport ∷ [])))))) r h =
    let (enable, e1, h1) = >>=-eq-some (sign_of sign) _ r h in
    let (id, e2, h2) = >>=-eq-some (parse_uint 32 index) _ r h1 in
    let (protocol, e3, h3) = >>=-eq-some (known_protocol (protocol_value proto)) _ r h2 in
    let (source, e4, h4) = >>=-eq-some (parse_uint 16 sport) _ r h3 in
    let (ip, e5, h5) = >>=-eq-some (parse_ip addr) _ r h4 in
    let (target, e6, h6) = >>=-eq-some (parse_uint 16 tport) _ r h5 in
    some-IsMessage _ r h6 (
      parse_uint-le 16 sport source e4,
      parse_uint-le 16 tport target e6,
      known_protocol-IsProtocol proto protocol e3,
      (shortest ip, refl, shortest-IsIp addr ip e5),
    )
rule_request_of-IsMessage _ r h = absurd (cc)

-- A destination with the very address that the bytes are: four are an IPv4 address, which is kept with
-- the last byte lowest, and others an IPv6 address.
abbrev pub IsTargetOf : Nff → List ℕ → HostPort → Type 0
IsTargetOf nff (a ∷ b ∷ c ∷ d ∷ []) host =
    (host.ipv6 ≡ false) × (host.addr4 ≡ nff.bytes_to_ipv4 d c b a)
IsTargetOf nff bytes host =
    (host.ipv6 ≡ true) × (host.addr4 ≡ 0) × (host.addr6 ≡ bytes) × (length bytes ≡ 16)

-- The rule that a message stands for, with nothing cut off.
abbrev pub IsExact : Nff → RuleMessage → ForwardedPort → Type 0
IsExact nff p fp =
    (fp.port ≡ p.source_port_number)
    × (fp.destination.port ≡ p.target_port_number)
    × (fp.protocol.id ≡ p.protocol % 0x10000)
    × (fp.protocol.ipv6 ≡ leb 0x10000 p.protocol)
    × IsTargetOf nff (bytes_of p.target_address) fp.destination

-- What the code makes of a protocol number.
abbrev ReadAs : ℕ → Type 0
ReadAs n =
    ((n ≡ 0x10000) × (is_good_protocol n ≡ false))
    ⊎ ((is_good_protocol n ≡ true)
        × (n % 256 ≡ n % 0x10000)
        × (not (bit_and n ipv6_flag == 0) ≡ leb 0x10000 n))

IsProtocol-read : (n : ℕ) → IsProtocol n → ReadAs n
unfolding is_good_protocol
IsProtocol-read n (inl (inl e)) = rw e (inr (refl, refl, refl))
IsProtocol-read n (inl (inr e)) = rw e (inr (refl, refl, refl))
IsProtocol-read n (inr (inl (inl e))) = rw e (inr (refl, refl, refl))
IsProtocol-read n (inr (inl (inr e))) = rw e (inr (refl, refl, refl))
IsProtocol-read n (inr (inr e)) = rw e (inl (refl, refl))

abbrev pub Converts : Nff → RuleMessage → Option ForwardedPort → Type 0
Converts nff p o =
    ((p.protocol ≡ 0x10000) × (o ≡ none))
    ⊎ ((fp : ForwardedPort) × (o ≡ some fp) × IsExact nff p fp)

abbrev guarded : RuleMessage → Option ℕ → Option ForwardedPort
guarded p addr =
    if is_address p addr && is_good_protocol p.protocol then some (rule_of p addr) else none

-- By what convertIPv4 made of the address.
module _ (nff : Nff) (p : RuleMessage) (addr : Option ℕ)
    (source : p.source_port_number ≤ 2 ^ 16 - 1) (target : p.target_port_number ≤ 2 ^ 16 - 1)
    (good : is_address p addr ≡ true)
    (same : IsTargetOf nff (bytes_of p.target_address) (rule_of p addr).destination) where
  read-Converts : ReadAs p.protocol → Converts nff p (guarded p addr)
  unfolding rule_of
  read-Converts (inl (e, bad)) = inl (e, rw (good, bad) refl)
  read-Converts (inr (fine, id, v6)) =
      inr (rule_of p addr, rw (good, fine) refl, (omega arith, omega arith, id, v6, same))

done_if :
    (b : Bool) (fp : ForwardedPort)
    → (if b then done (some fp) else done none) ≡ done (if b then some fp else none)
done_if true fp = refl
done_if false fp = refl

-- What convertIPv4 makes of an address: a number for four bytes, and an error for sixteen.
abbrev ReadsAddress : Nff → RuleMessage → Type 0
ReadsAddress nff p =
    (addr : Option ℕ) × (convert_ipv4 nff p.target_address ≡ done addr)
    × (is_address p addr ≡ true)
    × IsTargetOf nff (bytes_of p.target_address) (rule_of p addr).destination

IsIp-read :
    (nff : Nff) (p : RuleMessage) (bytes : List ℕ)
    → p.target_address ≡ some bytes
    → IsIp bytes
    → ReadsAddress nff p
unfolding convert_ipv4 is_address bytes_of rule_of
IsIp-read nff p (a ∷ b ∷ c ∷ d ∷ []) e ip =
    rw e (some (nff.bytes_to_ipv4 d c b a), refl, refl, (refl, refl))
IsIp-read nff p (a ∷ b ∷ c ∷ d ∷ x ∷ more) e ip =
    let sixteen : (length (a ∷ b ∷ c ∷ d ∷ x ∷ more) == 16) ≡ true =
      (==_iff _ 16).1 (omega arith) in
    rw e (none, refl, sixteen, (refl, refl, ap bytes_of e, omega arith))
IsIp-read nff p [] e ip = absurd (omega arith)
IsIp-read nff p (a ∷ []) e ip = absurd (omega arith)
IsIp-read nff p (a ∷ b ∷ []) e ip = absurd (omega arith)
IsIp-read nff p (a ∷ b ∷ c ∷ []) e ip = absurd (omega arith)

IsMessage-Converts :
    (nff : Nff) (p : RuleMessage)
    → IsMessage p
    → Returns (Converts nff p) (convert_forwarded_port nff p)
unfolding convert_forwarded_port
IsMessage-Converts nff p (source, target, protocol, (bytes, e, ip)) =
    let (addr, e', good, same) = IsIp-read nff p bytes e ip in
    rw (e', done_if (is_address p addr && is_good_protocol p.protocol) (rule_of p addr))
      (read-Converts nff p addr source target good same (IsProtocol-read p.protocol protocol))

-- From the client's argument to the server's rule: when portForwardRequestArray.Set takes the parts of
-- an argument, convertForwardedPort in the server does not panic on the message, and it gives a rule
-- with the very port numbers, protocol, family and target address that the message has, nothing cut
-- off: an IPv4 address if its address has four bytes, and an IPv6 address if it has sixteen. The one
-- exception is the protocol IPv6_Flag, which the client takes and the server refuses.
pub rule_request_of-Converts :
    (nff : Nff) (parts : List Text) (r : PortForwardingChangeRequest)
    → rule_request_of parts ≡ some r
    → Returns (Converts nff r.rule) (convert_forwarded_port nff r.rule)
rule_request_of-Converts nff parts r h =
    IsMessage-Converts nff r.rule (rule_request_of-IsMessage parts r h)
