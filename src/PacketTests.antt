-- ===== src/PacketTests.antt =====
-- The packet handlers and the option codec at concrete packets.
use nff_go_nat.Base.{
  ◌^◌, ◌≡◌, ◌↔◌, refl, true, false, [], ◌∷◌, ◌++◌, length, replicate, some, none, done, panic,
  arith,
}
use nff_go_nat.Packets.{Packet, Ipv4Hdr, IcmpHdr, v4_packet, icmp, udp}
use nff_go_nat.Connections.WellFormed.{WellFormed, is_translated}
use nff_go_nat.Machine.{St, port_at}
use nff_go_nat.Machine.Posts.{Ensures}
use nff_go_nat.Setup.{init_state}
use nff_go_nat.Setup.Fresh.{init_state-WellFormed}
use nff_go_nat.OptionCodec.{Iana, encode_iana, decode_iana}
use nff_go_nat.OptionCodec.RoundTrip.{IsIana, decode-encode_iana}
use nff_go_nat.Translation.{v4_hdr, is_ipv6, is_acquired}
use nff_go_nat.Translation.Ingress.{public_to_private_translation}
use nff_go_nat.Translation.Egress.{private_to_public_translation}
use nff_go_nat.Translation.Entries.{Kept, KeptWith}
use nff_go_nat.OptionCodec.{
  add_to_first, split_dots, IaAddress, encode_ia_address, decode_ia_address, StatusCode,
  encode_status, decode_status, DomainOption, encode_fqdn, decode_fqdn,
}
use nff_go_nat.OptionCodec.AddressRoundTrip.{
  IsIaAddress, decode-encode_ia_address, decode-encode_status,
}
use nff_go_nat.OptionCodec.Names.{without_dots, decode-encode_fqdn}
use nff_go_nat.Net.{tuple}
use nff_go_nat.Config.{icmpv6_number, icmp_number, i_private, has_kni}
use nff_go_nat.PortAlloc.{get_portmap}
use nff_go_nat.Connections.{allocate_new_egress_connection}
use nff_go_nat.Connections.Untranslated.{allocate_new_egress_connection_panics}
use nff_go_nat.Icmp.{handle_icmp}
use nff_go_nat.Icmp.Kni.{is_to_port, ReadsOutside, handle_icmp_panics_iff}
use nff_go_nat.Translation.Receiving.{Forwarded}
use nff_go_nat.Translation.Delivery.{public_to_private_translation_lem}
use nff_go_nat.Translation.Sending.{Masqueraded}
use nff_go_nat.Translation.Masquerade.{private_to_public_translation_lem}
use nff_go_nat.Samples.{
  nff, env, configured, public_addr, query, query_ip, query_udp, answer, answer_ip, answer_udp,
}

abbrev start : St
start = record { pp = init_state nff configured; log = [] }

start-WellFormed : WellFormed start.pp
start-WellFormed = init_state-WellFormed nff configured

public_to_private_translation_lem_example :
    Ensures
      (Kept (Forwarded env (v4_hdr answer_ip) (udp answer_udp) start.pp))
      (public_to_private_translation env answer)
      start
unfolding is_translated is_ipv6 is_acquired init_state
public_to_private_translation_lem_example =
    public_to_private_translation_lem env answer (v4_hdr answer_ip) (udp answer_udp) start refl refl
      start-WellFormed refl

private_to_public_translation_lem_example :
    Ensures
      (KeptWith (Masqueraded env (v4_hdr query_ip) (udp query_udp) start.pp))
      (private_to_public_translation env query)
      start
unfolding is_translated is_ipv6 is_acquired init_state
private_to_public_translation_lem_example =
    private_to_public_translation_lem env query (v4_hdr query_ip) (udp query_udp) start refl refl
      start-WellFormed refl refl

-- An association with one option of three bytes.
abbrev iana : Iana
iana = record {
  iaid = 7;
  t1 = 3600;
  t2 = 2 ^ 31;
  options = record { code = 13; len = 3; contents = 0 ∷ 0 ∷ b'!' ∷ [] } ∷ [];
}

iana-IsIana : IsIana iana
iana-IsIana = record {
  iaid_fits = omega arith;
  t1_fits = omega arith;
  t2_fits = omega arith;
  options_sound = (record { code_fits = omega arith; len_fits = omega arith; len_is = refl }, tt);
}

decode-encode_iana_example :
    decode_iana (encode_iana iana ++ (1 ∷ 2 ∷ [])) (length (encode_iana iana)) ≡ done (some iana)
decode-encode_iana_example = decode-encode_iana iana (1 ∷ 2 ∷ []) iana-IsIana

-- One address, 2001:db8::1, without options.
abbrev ia : IaAddress
ia = record {
  address = 0x20 ∷ 1 ∷ 0xd ∷ 0xb8 ∷ replicate 11 0 ++ (1 ∷ []);
  preferred_lifetime = 1800;
  valid_lifetime = 3600;
  options = [];
}

ia-IsIaAddress : IsIaAddress ia
ia-IsIaAddress = record {
  address_full = refl;
  preferred_fits = omega arith;
  valid_fits = omega arith;
  options_sound = tt;
}

decode-encode_ia_address_example :
    decode_ia_address (encode_ia_address ia ++ (9 ∷ [])) (length (encode_ia_address ia))
    ≡ done (some ia)
decode-encode_ia_address_example = decode-encode_ia_address ia (9 ∷ []) ia-IsIaAddress

abbrev no_addresses : StatusCode
no_addresses = record { status_code = 2; status_message = b'n' ∷ b'o' ∷ [] }

decode-encode_status_example :
    decode_status (encode_status no_addresses ++ (9 ∷ [])) (length (encode_status no_addresses))
    ≡ done (some no_addresses)
decode-encode_status_example = decode-encode_status no_addresses (9 ∷ []) (omega arith)

-- The name "a.bc".
abbrev fqdn : DomainOption
fqdn = record { flags = 1; domain_name = b'a' ∷ b'.' ∷ b'b' ∷ b'c' ∷ [] }

decode-encode_fqdn_example :
    decode_fqdn (encode_fqdn fqdn)
    ≡ done (some (record { flags = 1; domain_name = without_dots fqdn.domain_name }))
unfolding split_dots add_to_first
decode-encode_fqdn_example =
    decode-encode_fqdn fqdn ((omega arith, omega arith), ((omega arith, omega arith), tt))

without_dots_abc : without_dots fqdn.domain_name ≡ b'a' ∷ b'b' ∷ b'c' ∷ []
unfolding without_dots
without_dots_abc = refl

allocate_new_egress_connection_panics_example :
    allocate_new_egress_connection env.now start.pp false icmpv6_number (tuple 0xc0a80e02 7) ≡ panic
unfolding is_translated
allocate_new_egress_connection_panics_example =
    allocate_new_egress_connection_panics env.now start.pp false icmpv6_number (tuple 0xc0a80e02 7)
      start-WellFormed refl

-- 192.168.14.2 has pinged a host outside, and now pings 192.168.14.1, where the port has a KNI
-- interface.
abbrev ping_ip : Ipv4Hdr
ping_ip = record { src_addr = 0x020ea8c0; dst_addr = 0x010ea8c0; hdr_checksum = 0 }

abbrev ping_hdr : IcmpHdr
ping_hdr = record {
  icmp_type = 8;
  code = 0;
  identifier = 0x0700;
  cksum = 0;
  target_addr = [];
  nd_option = none;
}

abbrev ping : Packet
ping = record query { l3 = v4_packet ping_ip (icmp ping_hdr) }

abbrev pinged : St
pinged = record start {
  pp = record configured {
    private_port = record configured.private_port {
      kni_name = "myKNI";
      translation_table = λ protocol key. some (tuple public_addr 1024);
    };
  };
}

handle_icmp_panics_iff_example :
    (handle_icmp env i_private icmp_number ping ping_hdr (tuple 0xc0a80e02 7) pinged ≡ panic) ↔ (
      (is_to_port env i_private ping ping_hdr (tuple 0xc0a80e02 7) pinged ping_ip ≡ true)
      × (has_kni (port_at i_private pinged.pp) ≡ true)
      × ReadsOutside env i_private ping ping_hdr (tuple 0xc0a80e02 7) pinged)
handle_icmp_panics_iff_example =
    handle_icmp_panics_iff env i_private ping ping_hdr (tuple 0xc0a80e02 7) pinged ping_ip
      (icmp ping_hdr) refl

ping_panics :
    handle_icmp env i_private icmp_number ping ping_hdr (tuple 0xc0a80e02 7) pinged ≡ panic
unfolding has_kni get_portmap port_at
ping_panics =
    (handle_icmp_panics_iff env i_private ping ping_hdr (tuple 0xc0a80e02 7) pinged ping_ip
        (icmp ping_hdr) refl).1
      (refl, refl, (tuple public_addr 1024, refl, omega arith))
