-- ===== src/Unmarshal/Types.antt =====
-- The values that the UnmarshalJSON methods make, and the sizes of the source's types.
use nff_go_nat.Base.{
  ℕ, ◌%◌, ◌^◌, ◌≤◌, ◌<◌, ◌≡◌, refl, ◌∙◌, inl, inr, Option, none, some, List, [], ◌∷◌, length,
  length-replicate, Returns, Returns-bind, Bool-cases, arith,
}
use nff_go_nat.Nff.{Nff}
use nff_go_nat.Net.{IPv4Address}
use nff_go_nat.Config.{HostPort, Ipv4Subnet, Ipv6Subnet}
use nff_go_nat.OptionCodec.{to16}
use nff_go_nat.Dhcp.{to4, convert_ipv4}
use nff_go_nat.Text.{Text, split_host_port}
use nff_go_nat.Text.Numerals.{parse_int32}
use nff_go_nat.Text.Ip.{parse_ip, parse_cidr}
use nff_go_nat.Text.Lengths.{HasLength, parse_ip-HasLength}
use nff_go_nat.Unmarshal.{
  same_text, acquired4, with_host, with_port, with_ip, with_parts, single_address4, cidr_address4,
  unmarshal_ipv4_subnet, unmarshal_host_port, single_address6, cidr_address6, unmarshal_ipv6_subnet,
}
use nff_go_nat.Unmarshal.Sizes.{
  OrError, IsHostPort, IsSubnet4, IsSubnet6, to4-HasLength, IsCidr, parse_cidr-IsCidr,
  copy_into-length, to16-length,
}

module _ (nff : Nff) (word : (a b c d : ℕ) → nff.bytes_to_ipv4 a b c d < 2 ^ 32) where
  convert_ipv4-Word :
      (bytes : List ℕ)
      → 4 ≤ length bytes
      → Returns (OrError (λ addr. addr < 2 ^ 32)) (convert_ipv4 nff (some bytes))
  unfolding convert_ipv4
  convert_ipv4-Word (a ∷ b ∷ c ∷ d ∷ []) h = word d c b a
  convert_ipv4-Word (a ∷ b ∷ c ∷ d ∷ e ∷ bytes) h = tt
  convert_ipv4-Word [] h = absurd (omega arith)
  convert_ipv4-Word (a ∷ []) h = absurd (omega arith)
  convert_ipv4-Word (a ∷ b ∷ []) h = absurd (omega arith)
  convert_ipv4-Word (a ∷ b ∷ c ∷ []) h = absurd (omega arith)

  to4-Word :
      (o : Option (List ℕ))
      → HasLength 4 o
      → Returns (OrError (λ addr. addr < 2 ^ 32)) (convert_ipv4 nff o)
  unfolding convert_ipv4
  to4-Word none h = tt
  to4-Word (some bytes) h = convert_ipv4-Word bytes (omega arith)

  acquired4-IsSubnet4 :
      (out : Ipv4Subnet) (addr mask : Option IPv4Address)
      → OrError (λ x. x < 2 ^ 32) addr
      → OrError (λ x. x < 2 ^ 32) mask
      → OrError IsSubnet4 (acquired4 out addr mask)
  acquired4-IsSubnet4 out (some addr) (some mask) h k = (h, k)
  acquired4-IsSubnet4 out none mask h k = tt
  acquired4-IsSubnet4 out (some addr) none h k = tt

  single-IsSubnet4 :
      (out : Ipv4Subnet) (o : Option (List ℕ))
      → Returns (OrError IsSubnet4) (single_address4 nff out o)
  unfolding single_address4
  single-IsSubnet4 out none = tt
  single-IsSubnet4 out (some ip) =
      Returns-bind _ (OrError IsSubnet4) (convert_ipv4 nff (to4 ip)) _
        (to4-Word (to4 ip) (to4-HasLength ip))
        (λ addr h. acquired4-IsSubnet4 out addr (some 0xffffffff) h (omega arith))

  cidr-IsSubnet4 :
      (out : Ipv4Subnet) (s : Text) (o : Option (List ℕ × List ℕ))
      → OrError IsCidr o
      → Returns (OrError IsSubnet4) (cidr_address4 nff out s o)
  unfolding cidr_address4
  cidr-IsSubnet4 out s none h = single-IsSubnet4 out (parse_ip s)
  cidr-IsSubnet4 out s (some (ip, mask)) (h, k) =
      Returns-bind _ (OrError IsSubnet4) (convert_ipv4 nff (to4 ip)) _
        (to4-Word (to4 ip) (to4-HasLength ip))
        (λ addr a.
          Returns-bind _ (OrError IsSubnet4) (convert_ipv4 nff (some mask)) _
            (convert_ipv4-Word mask (elim k [ inl e ↦ omega arith | inr e ↦ omega arith ]))
            (λ m b. acquired4-IsSubnet4 out addr m a b))

  unmarshal_ipv4_subnet-IsSubnet4 :
      (out : Ipv4Subnet) (s : Option Text)
      → Returns (OrError IsSubnet4) (unmarshal_ipv4_subnet nff out s)
  unfolding unmarshal_ipv4_subnet
  unmarshal_ipv4_subnet-IsSubnet4 out none = tt
  unmarshal_ipv4_subnet-IsSubnet4 out (some s) = elim (Bool-cases (same_text s "dhcp")) [
    | inl dhcp ↦ rw dhcp (omega arith, omega arith)
    | inr other ↦ rw other (cidr-IsSubnet4 out s (parse_cidr s) (parse_cidr-IsCidr s))
  ]

  with_port-IsHostPort :
      (out : HostPort) (port_str : Text)
      → IsHostPort out
      → OrError IsHostPort (with_port out port_str)
  unfolding with_port
  with_port-IsHostPort out [] (h, k, l) = (h, k, omega arith)
  with_port-IsHostPort out (c ∷ s) (h, k, l) = number (parse_int32 (c ∷ s))
    where
      number :
          (o : Option ℕ)
          → OrError IsHostPort
              (elim o [ none ↦ none | some port ↦ some (record out { port = port % 2 ^ 16 }) ])
      number none = tt
      number (some port) = (h, k, omega arith)

  with_host-IsHostPort :
      (out : HostPort) (ip : List ℕ) (addr : Option IPv4Address)
      → IsHostPort out
      → length ip ≡ 16
      → OrError (λ x. x < 2 ^ 32) addr
      → IsHostPort (with_host out ip addr)
  unfolding with_host
  with_host-IsHostPort out ip (some addr) (h, k, l) e a = (a, k, l)
  with_host-IsHostPort out ip none (h, k, l) e a =
      (omega arith, copy_into-length out.addr6 (to16 ip) (omega (arith, to16-length ip e)) ∙ k, l)

  with_ip-IsHostPort :
      (out : HostPort) (port_str : Text) (o : Option (List ℕ))
      → IsHostPort out
      → HasLength 16 o
      → Returns (OrError IsHostPort) (with_ip nff out port_str o)
  unfolding with_ip
  with_ip-IsHostPort out port_str none h e = tt
  with_ip-IsHostPort out port_str (some ip) h e =
      Returns-bind _ (OrError IsHostPort) (convert_ipv4 nff (to4 ip)) _
        (to4-Word (to4 ip) (to4-HasLength ip))
        (λ addr a.
          with_port-IsHostPort (with_host out ip addr) port_str
            (with_host-IsHostPort out ip addr h e a))

  unmarshal_host_port-IsHostPort :
      (out : HostPort) (s : Option Text)
      → IsHostPort out
      → Returns (OrError IsHostPort) (unmarshal_host_port nff out s)
  unfolding unmarshal_host_port
  unmarshal_host_port-IsHostPort out none h = tt
  unmarshal_host_port-IsHostPort out (some s) h = parts (split_host_port s)
    where
      parts : (o : Option (Text × Text)) → Returns (OrError IsHostPort) (with_parts nff out o)
      parts none = tt
      parts (some (host, port)) =
          with_ip-IsHostPort out port (parse_ip host) h (parse_ip-HasLength host)

single-IsSubnet6 :
    (out : Ipv6Subnet) (o : Option (List ℕ))
    → IsSubnet6 out
    → HasLength 16 o
    → OrError IsSubnet6 (single_address6 out o)
unfolding single_address6
single-IsSubnet6 out none h e = tt
single-IsSubnet6 out (some ip) (h, k) e = (
  copy_into-length out.addr (to16 ip) (omega (arith, to16-length ip e)) ∙ h,
  length-replicate {A = ℕ} 16 0xff,
)

cidr-IsSubnet6 :
    (out : Ipv6Subnet) (s : Text) (o : Option (List ℕ × List ℕ))
    → IsSubnet6 out
    → OrError IsCidr o
    → OrError IsSubnet6 (cidr_address6 out s o)
unfolding cidr_address6
cidr-IsSubnet6 out s none h e = single-IsSubnet6 out (parse_ip s) h (parse_ip-HasLength s)
cidr-IsSubnet6 out s (some (ip, mask)) (h, k) (e, m) = (
  copy_into-length out.addr (to16 ip) (omega (arith, to16-length ip e)) ∙ h,
  copy_into-length out.mask mask (elim m [ inl x ↦ omega arith | inr x ↦ omega arith ]) ∙ k,
)

unmarshal_ipv6_subnet-IsSubnet6 :
    (out : Ipv6Subnet) (s : Option Text)
    → IsSubnet6 out
    → OrError IsSubnet6 (unmarshal_ipv6_subnet out s)
unfolding unmarshal_ipv6_subnet
unmarshal_ipv6_subnet-IsSubnet6 out none h = tt
unmarshal_ipv6_subnet-IsSubnet6 out (some s) h = elim (Bool-cases (same_text s "dhcp")) [
  | inl dhcp ↦ rw dhcp (refl, refl)
  | inr other ↦ rw other (cidr-IsSubnet6 out s (parse_cidr s) h (parse_cidr-IsCidr s))
]

-- Whatever text a configuration has for a target, an IPv4 subnet or an IPv6 subnet, its UnmarshalJSON
-- does not panic, and what it makes fits the types: addresses and masks of 32 bits or sixteen
-- bytes, and a port of 16 bits. What it fills has arrays of sixteen bytes and a target that fits,
-- and BytesToIPv4 gives a number of 32 bits.
pub unmarshal-AllTyped :
    (nff : Nff)
    → ((a b c d : ℕ) → nff.bytes_to_ipv4 a b c d < 2 ^ 32)
    → (target : HostPort) (out : Ipv4Subnet) (out6 : Ipv6Subnet) (s : Option Text)
    → IsHostPort target
    → IsSubnet6 out6
    → Returns (OrError IsHostPort) (unmarshal_host_port nff target s)
      × Returns (OrError IsSubnet4) (unmarshal_ipv4_subnet nff out s)
      × OrError IsSubnet6 (unmarshal_ipv6_subnet out6 s)
unmarshal-AllTyped nff word target out out6 s h k = (
  unmarshal_host_port-IsHostPort nff word target s h,
  unmarshal_ipv4_subnet-IsSubnet4 nff word out s,
  unmarshal_ipv6_subnet-IsSubnet6 out6 s k,
)
