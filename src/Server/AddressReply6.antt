-- ===== src/Server/AddressReply6.antt =====
-- The answer to a request for a new IPv6 address.
use nff_go_nat.Base.{
  ℕ, ◌≡◌, refl, ap, ==_iff, Bool, true, false, leb, leb→le, if◌then◌else◌, none, some, List, [],
  ◌∷◌, length, done, arith, inl, inr, Bool-cases,
}
use nff_go_nat.Nff.{Nff}
use nff_go_nat.Net.{IPv6Address, zero_ipv6_addr}
use nff_go_nat.Config.{IpPort}
use nff_go_nat.Subnet.{ipv6_subnet_string, with_prefix, prefix_bits6, count_bits6}
use nff_go_nat.Subnet.PrefixLength.{prefix_bits6-mask}
use nff_go_nat.Text.Ip.{cidr_mask}
use nff_go_nat.Unmarshal.{copy_into}
use nff_go_nat.Unmarshal.Sizes.{cidr_mask-length}
use nff_go_nat.Dhcp.{convert_ipv4}
use nff_go_nat.Dhcp6.{single_ip_mask}
use nff_go_nat.Control.{bytes_of}
use nff_go_nat.Kernel.{Kernel, KernelCall, set_link_ipv6}
use nff_go_nat.Server.{
  InterfaceAddressChangeRequest, ServerState, Found, found_port, get_port_and_pair_by_id,
}
use nff_go_nat.Server.Address.{
  mask6, convert_subnet, convert_subnet6, subnet_of, update_port, address_reply, plain_subnet6,
  new_ipv6, link_local_first, acquired6, change_address6, change_address, change_address_of,
  change_interface_address,
}

-- The mask of a prefix length: none of its bits for a length that net.CIDRMask refuses.
abbrev pub mask6_of : ℕ → IPv6Address
mask6_of bits = if leb bits 128 then cidr_mask bits 16 else zero_ipv6_addr

-- The length that the mask is printed with.
abbrev pub printed6 : ℕ → ℕ
printed6 bits = if leb bits 128 then bits else 0

copy_into-whole : (dst src : List ℕ) → length src ≡ length dst → copy_into dst src ≡ src
unfolding copy_into
copy_into-whole [] [] e = refl
copy_into-whole (x ∷ dst) [] e = absurd (omega arith)
copy_into-whole [] (b ∷ src) e = absurd (omega arith)
copy_into-whole (x ∷ dst) (b ∷ src) e = ap (λ t. b ∷ t) (copy_into-whole dst src (omega arith))

copied_mask : (bits : ℕ) → copy_into zero_ipv6_addr (mask6 bits) ≡ mask6_of bits
unfolding mask6
copied_mask bits = elim (Bool-cases (leb bits 128)) [
  | inl below ↦
      rw below (copy_into-whole zero_ipv6_addr (cidr_mask bits 16) (cidr_mask-length bits 16))
  | inr above ↦ rw above (unfold copy_into in refl)
]

printed6_lem : (bits : ℕ) → prefix_bits6 (mask6_of bits) ≡ printed6 bits
unfolding prefix_bits6 count_bits6
printed6_lem bits = elim (Bool-cases (leb bits 128)) [
  | inl below ↦ rw below (prefix_bits6-mask bits (leb→le bits 128 below))
  | inr above ↦ rw above refl
]

sixteen_refused :
    (nff : Nff) (bytes : List ℕ) → length bytes ≡ 16 → convert_ipv4 nff (some bytes) ≡ done none
unfolding convert_ipv4
sixteen_refused nff (a ∷ b ∷ c ∷ d ∷ x ∷ bytes) h = refl
sixteen_refused nff (a ∷ b ∷ c ∷ d ∷ []) h = absurd (omega arith)
sixteen_refused nff (a ∷ b ∷ c ∷ []) h = absurd (omega arith)
sixteen_refused nff (a ∷ b ∷ []) h = absurd (omega arith)
sixteen_refused nff (a ∷ []) h = absurd (omega arith)
sixteen_refused nff [] h = absurd (omega arith)

module _ (nff : Nff) (kernel : Kernel) (request : InterfaceAddressChangeRequest) (st : ServerState)
    (f : Found) (bytes : List ℕ) where
  abbrev pub bits_of : ℕ
  bits_of = request.port_subnet.mask_bits_number

  -- The port with the address and the mask. If the kernel took them, the address is acquired, with
  -- its multicast address.
  abbrev pub readdressed6 : Bool → IpPort
  readdressed6 linked = record (found_port f) {
    subnet6 = record (found_port f).subnet6 {
      addr = bytes;
      mask = mask6_of bits_of;
      address_acquired = linked;
      multicast_addr =
          if linked then nff.multicast_addr bytes else (found_port f).subnet6.multicast_addr;
    };
  }

  -- The kernel's calls before the address: on a port without an address, its link-local one.
  abbrev pub begun6 : List KernelCall
  begun6 =
      if (found_port f).subnet6.address_acquired
      then st.calls
      else (set_link_ipv6 kernel st.calls (found_port f) (found_port f).subnet6.ll_addr
          single_ip_mask zero_ipv6_addr zero_ipv6_addr st.config.bring_up_kni_interfaces).1

  abbrev pub linking6 : Bool × List KernelCall
  linking6 =
      set_link_ipv6 kernel begun6 (found_port f) bytes (mask6_of bits_of)
        (found_port f).subnet6.addr (found_port f).subnet6.mask st.config.bring_up_kni_interfaces

  -- The whole outcome of the request, by the answer of the kernel.
  abbrev pub Readdresses6 : Bool × List KernelCall → Type 0
  Readdresses6 (linked, calls) =
      change_interface_address nff kernel request st
      ≡ done (
        address_reply request.interface_id linked
            (with_prefix (nff.ipv6_string bytes) (printed6 bits_of)),
        update_port st f (readdressed6 linked) calls,
      )

  converted :
      request.port_subnet.address ≡ some bytes
      → length bytes ≡ 16
      → convert_subnet nff request.port_subnet
        ≡ done (new_ipv6 (plain_subnet6 bytes (mask6_of bits_of)))
  unfolding convert_subnet subnet_of convert_subnet6 bytes_of
  converted address sixteen =
      rw
        (
          address,
          sixteen_refused nff bytes sixteen,
          (==_iff (length bytes) 16).1 sixteen,
          copied_mask bits_of,
          copy_into-whole zero_ipv6_addr bytes sixteen,
        )
        refl

  changed :
      (linked : Bool) (calls : List KernelCall)
      → linking6 ≡ (linked, calls)
      → change_address6 nff kernel request.interface_id st f
          (plain_subnet6 bytes (mask6_of bits_of))
        ≡ (
          address_reply request.interface_id linked
              (with_prefix (nff.ipv6_string bytes) (printed6 bits_of)),
          update_port st f (readdressed6 linked) calls,
        )
  unfolding change_address6 ipv6_subnet_string link_local_first acquired6
  changed true calls e = rw (e, printed6_lem bits_of) refl
  changed false calls e = rw e refl

  -- ChangeInterfaceAddress for the sixteen bytes of an IPv6 address, on a port that is found. A port
  -- without an IPv6 address first asks its KNI interface for the link-local one. The address and the
  -- mask of the prefix length are then asked of the KNI interface in place of the old ones, and stored
  -- in the port, and in no other port. If the kernel takes them, the address is acquired, its
  -- multicast address is stored, and the answer names it with the very prefix length that was asked
  -- for; if not, the answer is an error, the port has the new address all the same, and it is not
  -- acquired. A length above 128 is not refused: it gives the mask 0, and the answer says 0.
  pub change_interface_address6_lem :
      get_port_and_pair_by_id st.config.port_pairs request.interface_id ≡ some f
      → request.port_subnet.address ≡ some bytes
      → length bytes ≡ 16
      → Readdresses6 linking6
  unfolding change_interface_address change_address_of change_address
  change_interface_address6_lem found address sixteen =
      rw (found, converted address sixteen) (ap done (changed linking6.0 linking6.1 refl))
