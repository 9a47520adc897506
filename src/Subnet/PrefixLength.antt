-- ===== src/Subnet/PrefixLength.antt =====
-- The prefix length that a subnet is printed with, against the masks that subnets are made with.
use nff_go_nat.Base.{
  ℕ, ◌-◌, ◌*◌, ◌%◌, ◌^◌, ◌≤◌, ◌≡◌, refl, Bool, true, ◌==◌, passes_to, passes_to-at, ==_iff,
}
use nff_go_nat.Text.Ip.{cidr_mask}
use nff_go_nat.Subnet.{prefix_bits4, prefix_bits6}

-- The mask of `n` ones, as convertSubnet shifts it.
abbrev pub mask4 : ℕ → ℕ
mask4 n = (0xffffffff * 2 ^ (32 - n)) % 2 ^ 32

abbrev reads4 : ℕ → Bool
reads4 n = prefix_bits4 (mask4 n) == n

table4 : passes_to reads4 32 ≡ true
unfolding prefix_bits4
table4 = refl

pub prefix_bits4-mask : (n : ℕ) → n ≤ 32 → prefix_bits4 (mask4 n) ≡ n
prefix_bits4-mask n h = (==_iff _ n).0 (passes_to-at reads4 32 n h table4)

abbrev reads6 : ℕ → Bool
reads6 n = prefix_bits6 (cidr_mask n 16) == n

table6 : passes_to reads6 128 ≡ true
unfolding prefix_bits6 cidr_mask
table6 = refl

pub prefix_bits6-mask : (n : ℕ) → n ≤ 128 → prefix_bits6 (cidr_mask n 16) ≡ n
prefix_bits6-mask n h = (==_iff _ n).0 (passes_to-at reads6 128 n h table6)
