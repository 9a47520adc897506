-- ===== src/TextTests.antt =====
-- Printed texts and received bytes, and the theorems about their readers at concrete inputs.
use nff_go_nat.Base.{
  ℕ, ◌+◌, ◌*◌, ◌%◌, ◌^◌, ◌≡◌, refl, true, false, List, [], ◌∷◌, ◌++◌, some, replicate, drop, done,
  panic, Returns, arith,
}
use nff_go_nat.Net.{zero_ipv6_addr}
use nff_go_nat.Nff.{Nff}
use nff_go_nat.Config.{HostPort}
use nff_go_nat.Text.{codes, split_host_port}
use nff_go_nat.Text.Numerals.{itoa, parse_int32}
use nff_go_nat.Dhcp.{to4, convert_ipv4}
use nff_go_nat.Text.Ip.{mapped_prefix, parse_ip, parse_cidr}
use nff_go_nat.Subnet.{prefix_bits4, with_prefix}
use nff_go_nat.Subnet.PrefixLength.{mask4}
use nff_go_nat.Unmarshal.{
  copy_into, unmarshal_host_port, unmarshal_ipv4_subnet, unmarshal_ipv6_subnet,
}
use nff_go_nat.Unmarshal.Types.{unmarshal-AllTyped}
use nff_go_nat.Unmarshal.Sizes.{OrError, IsHostPort, IsSubnet4, IsSubnet6}
use nff_go_nat.Printing.{string_ipv4_int, tuple_string, direction_string}
use nff_go_nat.Printing.ReadBack.{
  IsLowestFirst, unmarshal_host_port-tuple_string, unmarshal_ipv4_subnet-string_ipv4_int,
}
use nff_go_nat.Wire.{first16, read16, slice}
use nff_go_nat.OptionCodec.{to16, read_options, decode_labels}
use nff_go_nat.OptionCodec.Runs.{
  OptionsRun, LabelsGive, read_options-OptionsRun, decode_labels-LabelsGive,
}
use nff_go_nat.Samples.{nff, subnet4, subnet6}

abbrev no_target : HostPort
no_target = record { addr4 = 0; addr6 = zero_ipv6_addr; port = 0; ipv6 = false }

printed_tuple : tuple_string 0xc0a80e02 8080 ≡ codes "addr = 192.168.14.2:8080"
unfolding tuple_string itoa
printed_tuple = refl

printed_direction : direction_string 255 ≡ codes "unknown(255)"
unfolding direction_string
printed_direction = refl

-- A port beyond 16 bits is taken, and wraps.
large_port :
    unmarshal_host_port nff no_target (some (codes "192.168.14.2:70000"))
    ≡ done (some (record no_target { addr4 = 0xc0a80e02; port = 4464 }))
unfolding unmarshal_host_port split_host_port parse_ip convert_ipv4 to4 parse_int32
large_port = refl

-- An IPv4 subnet where an IPv6 one is meant: the four bytes of its mask stand in front.
ipv4_in_ipv6 :
    unmarshal_ipv6_subnet subnet6 (some (codes "10.0.0.1/8"))
    ≡ some (record subnet6 {
      addr = mapped_prefix ++ (10 ∷ 0 ∷ 0 ∷ 1 ∷ []);
      mask = 255 ∷ replicate 15 0;
      address_acquired = true;
    })
unfolding unmarshal_ipv6_subnet parse_cidr copy_into to16
ipv4_in_ipv6 = refl

lowest_first : IsLowestFirst nff
lowest_first a b c d ha hb hc hd = omega arith

unmarshal_host_port-tuple_string_example :
    unmarshal_host_port nff no_target (some (drop 7 (tuple_string 0xc0a80e02 22)))
    ≡ done (some (record no_target { addr4 = 0xc0a80e02; port = 22 }))
unmarshal_host_port-tuple_string_example =
    unmarshal_host_port-tuple_string nff lowest_first no_target 0xc0a80e02 22 (omega arith)
      (omega arith)

unmarshal_ipv4_subnet-string_ipv4_int_example :
    unmarshal_ipv4_subnet nff
      (subnet4 0)
      (some (with_prefix (string_ipv4_int 0xc0a80e01) (prefix_bits4 (mask4 24))))
    ≡ done
        (some (record (subnet4 0) { addr = 0xc0a80e01; mask = mask4 24; address_acquired = true }))
unmarshal_ipv4_subnet-string_ipv4_int_example =
    unmarshal_ipv4_subnet-string_ipv4_int nff lowest_first (subnet4 0) 0xc0a80e01 24 (omega arith)
      (omega arith)

-- BytesToIPv4, as a 32-bit number whatever the bytes.
abbrev word_nff : Nff
word_nff = record nff {
  bytes_to_ipv4 = λ a b c d. (a + b * 256 + c * 2 ^ 16 + d * 2 ^ 24) % 2 ^ 32;
}

unmarshal-AllTyped_example :
    Returns
      (OrError IsHostPort)
      (unmarshal_host_port word_nff no_target (some (codes "10.0.0.1:80")))
    × Returns
        (OrError IsSubnet4)
        (unmarshal_ipv4_subnet word_nff (subnet4 0) (some (codes "10.0.0.1:80")))
    × OrError IsSubnet6 (unmarshal_ipv6_subnet subnet6 (some (codes "10.0.0.1:80")))
unmarshal-AllTyped_example =
    unmarshal-AllTyped word_nff (λ a b c d. omega arith) no_target (subnet4 0) subnet6
      (some (codes "10.0.0.1:80")) (omega arith, refl, omega arith) (refl, refl)

-- An option of two bytes, and one that is cut off.
abbrev cut_option : List ℕ
cut_option = 0 ∷ 13 ∷ 0 ∷ 2 ∷ 0 ∷ 0 ∷ 0 ∷ 3 ∷ []

read_options-OptionsRun_example : OptionsRun cut_option 8 0 (read_options 8 cut_option 8 0)
read_options-OptionsRun_example = read_options-OptionsRun cut_option 8 8 0 (omega arith)

cut_option_panics : read_options 8 cut_option 8 0 ≡ panic
unfolding read_options read16 slice first16
cut_option_panics = refl

-- The labels "nat" and "example", and the zero that ends them.
abbrev labels : List ℕ
labels = codes "nat" ++ (7 ∷ (codes "example" ++ (0 ∷ [])))

decode_labels-LabelsGive_example : LabelsGive (decode_labels 12 3 labels []) 3 labels []
decode_labels-LabelsGive_example = decode_labels-LabelsGive 12 3 labels [] (omega arith)
