-- ===== src/Printing/ReadBack.antt =====
-- What the readers of nat/config.go make of printed endpoints and addresses.
use nff_go_nat.Base.{
  ℕ, ◌+◌, ◌*◌, ◌/◌, ◌%◌, ◌^◌, ◌≤◌, ◌<◌, ◌≡◌, refl, ◌∙◌, ap, sym, subst, inl, inr, Bool, true, false,
  ◌==◌, ◌&&◌, leb, le→leb, if_false, passes_to, passes_to-at, some, List, [], ◌∷◌, ◌++◌, drop, done,
  arith,
}
use nff_go_nat.Nff.{Nff}
use nff_go_nat.Config.{HostPort, Ipv4Subnet}
use nff_go_nat.Dhcp.{to4, convert_ipv4}
use nff_go_nat.Text.{Text, contains}
use nff_go_nat.Net.{same_bytes}
use nff_go_nat.Text.Parts.{cut_first-at}
use nff_go_nat.Text.Numerals.{itoa, parse_digits, parse_int32}
use nff_go_nat.Text.Printed.{IsDigit, parse_int32-itoa, parse_digits-itoa, itoa_head}
use nff_go_nat.Text.Ip.{
  mapped, mapped_prefix, parse_ip, parse_ipv4, cidr_mask, parse_cidr, cidr_of, with_mask,
}
use nff_go_nat.Subnet.PrefixLength.{mask4, prefix_bits4-mask}
use nff_go_nat.Subnet.{prefix_bits4, with_prefix}
use nff_go_nat.Unmarshal.{
  unmarshal_host_port, with_parts, with_ip, with_host, with_port, same_text, cidr_address4,
  unmarshal_ipv4_subnet,
}
use nff_go_nat.Printing.{dotted, string_ipv4_int, tuple_string}
use nff_go_nat.Printing.Dotted.{
  contains-dotted, parse_ipv4-dotted, parse_ip-dotted, split_host_port-dotted,
}

-- types.BytesToIPv4 takes the lowest byte first.
abbrev pub IsLowestFirst : Nff → Type 0
IsLowestFirst nff =
    (a b c d : ℕ)
    → a ≤ 255
    → b ≤ 255
    → c ≤ 255
    → d ≤ 255
    → nff.bytes_to_ipv4 a b c d ≡ a + b * 2 ^ 8 + c * 2 ^ 16 + d * 2 ^ 24

with_parsed :
    (out : HostPort) (c : ℕ) (rest : Text) (port : ℕ)
    → port < 2 ^ 16
    → parse_int32 (c ∷ rest) ≡ some port
    → with_port out (c ∷ rest) ≡ some (record out { port = port })
unfolding with_port
with_parsed out c rest port h e =
    rw (e, with_port) (ap (λ x. some (record out { port = x })) (omega arith))

with_printed :
    (out : HostPort) (port : ℕ)
    → port < 2 ^ 16
    → with_port out (itoa port) ≡ some (record out { port = port })
with_printed out port h =
    let (c, rest, e, _) = itoa_head port in
    ap (with_port out) e
    ∙ with_parsed out c rest port h (sym (ap parse_int32 e) ∙ parse_int32-itoa port (omega arith))

-- Four bytes, and the number that they are.
is_word : List ℕ → ℕ → Bool
is_word (a ∷ b ∷ c ∷ d ∷ []) n =
    leb a 255
    && (leb b 255 && (leb c 255 && (leb d 255 && (d + c * 2 ^ 8 + b * 2 ^ 16 + a * 2 ^ 24 == n))))
is_word _ n = false

word_parts :
    (a b c d n : ℕ)
    → is_word (a ∷ b ∷ c ∷ d ∷ []) n ≡ true
    → (a ≤ 255) × (b ≤ 255) × (c ≤ 255) × (d ≤ 255) × (d + c * 2 ^ 8 + b * 2 ^ 16 + a * 2 ^ 24 ≡ n)
unfolding is_word
word_parts a b c d n h = ground arith

abbrev mask_is_word : ℕ → Bool
mask_is_word n = is_word (cidr_mask n 4) (mask4 n)

masks_are_words : passes_to mask_is_word 32 ≡ true
unfolding is_word cidr_mask
masks_are_words = refl

cidr_of_ipv4 :
    (host bytes : List ℕ) (n : ℕ)
    → parse_ipv4 host ≡ some bytes
    → n ≤ 32
    → cidr_of host (some n) ≡ some (mapped_prefix ++ bytes, cidr_mask n 4)
unfolding cidr_of with_mask
cidr_of_ipv4 host bytes n e k = rw (e, le→leb n 32 k, cidr_of) refl

parse_cidr_plain :
    (host rest : List ℕ)
    → contains b'/' host ≡ false
    → parse_cidr (host ++ (b'/' ∷ rest)) ≡ cidr_of host (parse_digits rest)
unfolding parse_cidr
parse_cidr_plain host rest h = rw (cut_first-at b'/' host rest h, parse_cidr) refl

not_dhcp : (s : Text) (c : ℕ) (rest : Text) → s ≡ c ∷ rest → IsDigit c → same_text s "dhcp" ≡ false
unfolding same_bytes
not_dhcp s c rest e d = subst (λ t. same_text t "dhcp" ≡ false) (sym e) (ground (arith, d))

-- A printed address begins with a digit.
string_head :
    (addr : ℕ) (more : Text)
    → (c : ℕ) × (rest : Text) × (string_ipv4_int addr ++ more ≡ c ∷ rest) × IsDigit c
unfolding string_ipv4_int
string_head addr more =
    let (c, rest, e, d) = itoa_head (addr / 2 ^ 24 % 256) in
    let later =
      b'.'
      ∷ (itoa (addr / 2 ^ 16 % 256)
          ++ (b'.' ∷ (itoa (addr / 2 ^ 8 % 256) ++ (b'.' ∷ itoa (addr % 256))))) in
    (c, (rest ++ later) ++ more, ap (λ front. (front ++ later) ++ more) e, d)

module _ (nff : Nff) (lowest_first : IsLowestFirst nff) where
  mapped_address :
      (addr : ℕ)
      → addr < 2 ^ 32
      → convert_ipv4 nff (
          to4 (
            mapped_prefix
            ++ (addr / 2 ^ 24 % 256 ∷ addr / 2 ^ 16 % 256 ∷ addr / 2 ^ 8 % 256 ∷ addr % 256 ∷ [])))
        ≡ done (some addr)
  unfolding to4 convert_ipv4
  mapped_address addr h =
      ap (λ x. done (some x))
        (lowest_first (addr % 256) (addr / 2 ^ 8 % 256) (addr / 2 ^ 16 % 256) (addr / 2 ^ 24 % 256)
            (omega arith) (omega arith) (omega arith) (omega arith)
          ∙ omega arith)

  parse_ip-string :
      (addr : ℕ)
      → parse_ip (string_ipv4_int addr)
        ≡ some (
            mapped_prefix
            ++ (addr / 2 ^ 24 % 256 ∷ addr / 2 ^ 16 % 256 ∷ addr / 2 ^ 8 % 256 ∷ addr % 256 ∷ []))
  unfolding string_ipv4_int
  parse_ip-string addr =
      let a = addr / 2 ^ 24 % 256 in
      let b = addr / 2 ^ 16 % 256 in
      let c = addr / 2 ^ 8 % 256 in
      let d = addr % 256 in
      parse_ip-dotted a b c d
      ∙ ap mapped
          (parse_ipv4-dotted a b c d (omega arith) (omega arith) (omega arith) (omega arith))

  -- An endpoint that Tuple.String prints, without the words "addr = " in front, reads back through the
  -- UnmarshalJSON of a configuration's target: the same address and port, for every address of 32
  -- bits and port of 16. BytesToIPv4 takes its bytes from the lowest.
  pub unmarshal_host_port-tuple_string :
      (out : HostPort) (addr port : ℕ)
      → addr < 2 ^ 32
      → port < 2 ^ 16
      → unmarshal_host_port nff out (some (drop 7 (tuple_string addr port)))
        ≡ done (some (record out { addr4 = addr; port = port }))
  unfolding unmarshal_host_port tuple_string with_parts with_ip with_host string_ipv4_int
  unmarshal_host_port-tuple_string out addr port h k =
      let a = addr / 2 ^ 24 % 256 in
      let b = addr / 2 ^ 16 % 256 in
      let c = addr / 2 ^ 8 % 256 in
      let d = addr % 256 in
      ap (with_parts nff out) (split_host_port-dotted a b c d port)
      ∙ (ap (with_ip nff out (itoa port)) (parse_ip-string addr)
          ∙ rw (mapped_address addr h, with_printed (record out { addr4 = addr }) port k, with_ip)
              refl)

  mask_bytes :
      (bytes : List ℕ) (mask : ℕ)
      → is_word bytes mask ≡ true
      → convert_ipv4 nff (some bytes) ≡ done (some mask)
  unfolding is_word convert_ipv4
  mask_bytes (a ∷ b ∷ c ∷ d ∷ []) mask h =
      let (ha, hb, hc, hd, e) = word_parts a b c d mask h in
      ap (λ x. done (some x)) (lowest_first d c b a hd hc hb ha ∙ e)
  mask_bytes _ mask h = absurd (cc)

  mask_of_ones : (n : ℕ) → n ≤ 32 → convert_ipv4 nff (some (cidr_mask n 4)) ≡ done (some (mask4 n))
  mask_of_ones n h =
      mask_bytes (cidr_mask n 4) (mask4 n) (passes_to-at mask_is_word 32 n h masks_are_words)

  -- An address of 32 bits, printed by StringIPv4Int, with a slash and the length that ipv4Subnet.String
  -- counts in a mask of n ones, for n up to 32, is read by UnmarshalJSON as the subnet with that very
  -- address and mask. BytesToIPv4 takes its bytes from the lowest.
  pub unmarshal_ipv4_subnet-string_ipv4_int :
      (out : Ipv4Subnet) (addr n : ℕ)
      → addr < 2 ^ 32
      → n ≤ 32
      → unmarshal_ipv4_subnet nff out
          (some (with_prefix (string_ipv4_int addr) (prefix_bits4 (mask4 n))))
        ≡ done (some (record out { addr = addr; mask = mask4 n; address_acquired = true }))
  unfolding unmarshal_ipv4_subnet string_ipv4_int cidr_address4
  unmarshal_ipv4_subnet-string_ipv4_int out addr n h k =
      let a = addr / 2 ^ 24 % 256 in
      let b = addr / 2 ^ 16 % 256 in
      let c = addr / 2 ^ 8 % 256 in
      let d = addr % 256 in
      let text = dotted a b c d ++ (b'/' ∷ itoa n) in
      let (x, rest, e, digit) = string_head addr (b'/' ∷ itoa n) in
      ap (λ m. unmarshal_ipv4_subnet nff out (some (dotted a b c d ++ (b'/' ∷ itoa m))))
        (prefix_bits4-mask n k)
      ∙ (if_false (same_text text "dhcp") _ _ (not_dhcp text x rest e digit)
          ∙ (ap (cidr_address4 nff out text) (
                parse_cidr_plain (dotted a b c d) (itoa n)
                  (contains-dotted a b c d b'/' (inr (inl refl)))
                ∙ (ap (cidr_of (dotted a b c d)) (parse_digits-itoa n)
                    ∙ cidr_of_ipv4 (dotted a b c d) (a ∷ b ∷ c ∷ d ∷ []) n
                        (parse_ipv4-dotted a b c d (omega arith) (omega arith) (omega arith)
                          (omega arith))
                        k))
              ∙ rw (mapped_address addr h, mask_of_ones n k) refl))
