-- ===== src/Server/AddressReply.antt =====
-- The answer to a request for a new IPv4 address.
use nff_go_nat.Base.{
  ℕ, zero, suc, ◌+◌, ◌-◌, ◌%◌, ◌^◌, ◌≤◌, ◌<◌, ◌≡◌, refl, ap, Bool, true, false, leb, if◌then◌else◌,
  some, List, [], ◌∷◌, done, arith, inl, inr, Bool-cases, lt→ltb, leb→le, le→ltb_false,
}
use nff_go_nat.Nff.{Nff}
use nff_go_nat.Net.{IPv4Address}
use nff_go_nat.Config.{IpPort}
use nff_go_nat.Subnet.{ipv4_subnet_string, with_prefix, prefix_bits4, count_bits4}
use nff_go_nat.Subnet.PrefixLength.{mask4, prefix_bits4-mask}
use nff_go_nat.Dhcp.{convert_ipv4}
use nff_go_nat.Kernel.{Kernel, KernelCall, set_link_ipv4}
use nff_go_nat.Server.{
  InterfaceAddressChangeRequest, ServerState, Found, found_port, get_port_and_pair_by_id,
}
use nff_go_nat.Server.Address.{
  shifted_mask, convert_subnet, subnet_of, update_port, address_reply, plain_subnet4, new_ipv4,
  change_address4, change_address, change_address_of, change_interface_address,
}

-- The shift of convertSubnet, for every prefix length of the field.
abbrev pub mask_of : ℕ → ℕ
mask_of bits = if leb bits 32 then mask4 bits else 0

-- The length that the mask is printed with.
abbrev pub printed : ℕ → ℕ
printed bits = if leb bits 32 then bits else 0

shift_below : (bits : ℕ) → 0 < bits → bits ≤ 32 → (2 ^ 32 + 32 - bits) % 2 ^ 32 ≡ 32 - bits
shift_below bits p h = omega arith

shift_above : (bits : ℕ) → 32 < bits → bits < 2 ^ 32 → 32 ≤ (2 ^ 32 + 32 - bits) % 2 ^ 32
shift_above bits p h = omega arith

shifted_mask_below : (bits : ℕ) → bits ≤ 32 → shifted_mask bits ≡ mask4 bits
unfolding shifted_mask
shifted_mask_below zero h = refl
shifted_mask_below (suc n) h =
    let small : 32 - suc n < 32 = omega arith in
    rw (shift_below (suc n) (omega arith) h, lt→ltb _ _ small) refl

shifted_mask_lem : (bits : ℕ) → bits < 2 ^ 32 → shifted_mask bits ≡ mask_of bits
shifted_mask_lem bits h = elim (Bool-cases (leb bits 32)) [
  | inl below ↦ rw below (shifted_mask_below bits (leb→le bits 32 below))
  | inr above ↦
      rw above
        (unfold shifted_mask in rw (le→ltb_false _ _ (shift_above bits (ground arith) h)) refl)
]

printed_lem : (bits : ℕ) → prefix_bits4 (mask_of bits) ≡ printed bits
unfolding prefix_bits4 count_bits4
printed_lem bits = elim (Bool-cases (leb bits 32)) [
  | inl below ↦ rw below (prefix_bits4-mask bits (leb→le bits 32 below))
  | inr above ↦ rw above refl
]

module _ (nff : Nff) (kernel : Kernel) (request : InterfaceAddressChangeRequest) (st : ServerState)
    (f : Found) (a b c d : ℕ) where
  abbrev pub new_addr : IPv4Address
  new_addr = nff.bytes_to_ipv4 d c b a

  abbrev pub bits_of : ℕ
  bits_of = request.port_subnet.mask_bits_number

  -- The port with the address and the mask, which is acquired if the kernel took them.
  abbrev pub readdressed : Bool → IpPort
  readdressed linked = record (found_port f) {
    subnet = record (found_port f).subnet {
      addr = new_addr;
      mask = mask_of bits_of;
      address_acquired = linked;
    };
  }

  -- The whole outcome of the request, by the answer of the kernel.
  abbrev pub Readdresses : Bool × List KernelCall → Type 0
  Readdresses (linked, calls) =
      change_interface_address nff kernel request st
      ≡ done (
        address_reply request.interface_id linked
            (with_prefix (nff.ipv4_string new_addr) (printed bits_of)),
        update_port st f (readdressed linked) calls,
      )

  abbrev pub linking : Bool × List KernelCall
  linking =
      set_link_ipv4 kernel st.calls (found_port f) new_addr (mask_of bits_of)
        (found_port f).subnet.addr (found_port f).subnet.mask st.config.bring_up_kni_interfaces

  converted :
      request.port_subnet.address ≡ some (a ∷ b ∷ c ∷ d ∷ [])
      → bits_of < 2 ^ 32
      → convert_subnet nff request.port_subnet
        ≡ done (new_ipv4 (plain_subnet4 new_addr (mask_of bits_of)))
  unfolding convert_subnet convert_ipv4 subnet_of
  converted four small = rw (four, shifted_mask_lem bits_of small) refl

  changed :
      (linked : Bool) (calls : List KernelCall)
      → linking ≡ (linked, calls)
      → change_address4 nff kernel request.interface_id st f
          (plain_subnet4 new_addr (mask_of bits_of))
        ≡ (
          address_reply request.interface_id linked
              (with_prefix (nff.ipv4_string new_addr) (printed bits_of)),
          update_port st f (readdressed linked) calls,
        )
  unfolding change_address4 ipv4_subnet_string
  changed true calls e = rw (e, printed_lem bits_of) refl
  changed false calls e = rw e refl

  -- ChangeInterfaceAddress for the four bytes of an IPv4 address, on a port that is found. The address
  -- and the mask of the prefix length are asked of the KNI interface in place of the old ones, and
  -- stored in the port, and in no other port. If the kernel takes them, the address is acquired and the
  -- answer names it with the very prefix length that was asked for; if not, the answer is an error, the
  -- port has the new address all the same, and it is not acquired. A length above 32 is not refused: it
  -- gives the mask 0, and the answer says 0.
  pub change_interface_address4_lem :
      get_port_and_pair_by_id st.config.port_pairs request.interface_id ≡ some f
      → request.port_subnet.address ≡ some (a ∷ b ∷ c ∷ d ∷ [])
      → bits_of < 2 ^ 32
      → Readdresses linking
  unfolding change_interface_address change_address_of change_address
  change_interface_address4_lem found four small =
      rw (found, converted four small) (ap done (changed linking.0 linking.1 refl))
