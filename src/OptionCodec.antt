-- ===== src/OptionCodec.antt =====
-- The DHCPv6 option encoders and decoders of nat/dhcp6.go. A buffer is the list of its bytes up to its
-- capacity, with its length beside it where the two can differ.
pub mod Loops
pub mod Runs
pub mod RoundTrip
pub mod AddressRoundTrip
pub mod Names
use nff_go_nat.Base.{
  ℕ, zero, suc, ◌+◌, ◌%◌, Bool, ltb, ◌==◌, if◌then◌else◌, Option, none, some, List, [], ◌∷◌, ◌++◌,
  length, take, drop, replicate, Outcome, done, panic, ◌>>=◌,
}
use nff_go_nat.Nff.{Dhcpv6Option}
use nff_go_nat.Wire.{be16, be32, put_at, read16, read32, slice}

-- OptionsLen
unfoldable pub options_len : List Dhcpv6Option → ℕ
options_len [] = 0
options_len (o ∷ os) = o.len + 4 + options_len os

-- The loop over the options that both encoders end with.
unfoldable pub put_options : List ℕ → ℕ → List Dhcpv6Option → List ℕ
put_options buf offset [] = buf
put_options buf offset (o ∷ os) =
    let buf1 = put_at buf offset (be16 o.code) in
    let buf2 = put_at buf1 (offset + 2) (be16 o.len) in
    put_options (put_at buf2 (offset + 4) o.contents) (offset + (o.len + 4)) os

-- The loop `for offset < stop` that both decoders end with. Each round moves on by four at least.
unfoldable pub read_options : ℕ → List ℕ → ℕ → ℕ → Outcome (List Dhcpv6Option)
read_options zero buf stop offset = done []
read_options (suc fuel) buf stop offset =
    let round = λ (code len : ℕ) (contents : List ℕ). (do
      rest ← read_options fuel buf stop (offset + (len + 4))
      done (record { code = code; len = len; contents = contents } ∷ rest)) in
    if ltb offset stop
    then (do
      code ← read16 buf offset
      len ← read16 buf (offset + 2)
      contents ← slice buf (offset + 4) len
      round code len contents)
    else done []

-- DHCPv6IANA
pub record Iana : Type 0 where
  pub iaid : ℕ
  pub t1 : ℕ
  pub t2 : ℕ
  pub options : List Dhcpv6Option

unfoldable pub encode_iana : Iana → List ℕ
encode_iana iana =
    let buf = replicate (12 + options_len iana.options) 0 in
    let buf1 = put_at buf 0 (be32 iana.iaid) in
    let buf2 = put_at buf1 4 (be32 iana.t1) in
    put_options (put_at buf2 8 (be32 iana.t2)) 12 iana.options

-- `none` is the error. `stop` is `len(data)`.
unfoldable pub decode_iana : List ℕ → ℕ → Outcome (Option Iana)
decode_iana buf stop = if ltb stop 12 then done none else do
  iaid ← read32 buf 0
  t1 ← read32 buf 4
  t2 ← read32 buf 8
  options ← read_options stop buf stop 12
  done (some (record { iaid = iaid; t1 = t1; t2 = t2; options = options }))

-- DHCPv6IAAddress
pub record IaAddress : Type 0 where
  pub address : List ℕ
  pub preferred_lifetime : ℕ
  pub valid_lifetime : ℕ
  pub options : List Dhcpv6Option

-- net.IP.To16: sixteen bytes, or the IPv6 form of four; nil, which copies nothing, otherwise.
unfoldable pub to16 : List ℕ → List ℕ
to16 ip =
    if length ip == 16
    then ip
    else if length ip == 4
    then replicate 10 0 ++ (0xff ∷ 0xff ∷ ip)
    else []

unfoldable pub encode_ia_address : IaAddress → List ℕ
encode_ia_address ia =
    let buf = replicate (24 + options_len ia.options) 0 in
    let buf1 = put_at buf 0 (to16 ia.address) in
    let buf2 = put_at buf1 16 (be32 ia.preferred_lifetime) in
    put_options (put_at buf2 20 (be32 ia.valid_lifetime)) 24 ia.options

unfoldable pub decode_ia_address : List ℕ → ℕ → Outcome (Option IaAddress)
decode_ia_address buf stop = if ltb stop 24 then done none else do
  address ← slice buf 0 16
  preferred ← read32 buf 16
  valid ← read32 buf 20
  options ← read_options stop buf stop 24
  done (
      some (record {
        address = address;
        preferred_lifetime = preferred;
        valid_lifetime = valid;
        options = options;
      }))

-- DHCPv6ServerStatusCode
pub record StatusCode : Type 0 where
  pub status_code : ℕ
  pub status_message : List ℕ

unfoldable pub encode_status : StatusCode → List ℕ
encode_status sc =
    let buf = replicate (2 + length sc.status_message) 0 in
    put_at (put_at buf 0 (be16 sc.status_code)) 2 sc.status_message

-- The message is `data[2:]`, up to the length.
unfoldable pub decode_status : List ℕ → ℕ → Outcome (Option StatusCode)
decode_status buf stop = if ltb stop 2 then done none else do
  code ← read16 buf 0
  done (some (record { status_code = code; status_message = drop 2 (take stop buf) }))

-- DHCPv6FQDN; the name is the list of its bytes.
pub record DomainOption : Type 0 where
  pub flags : ℕ
  pub domain_name : List ℕ

-- strings.Split(name, "."): the labels between the dots, at least one.
unfoldable pub add_to_first : ℕ → List (List ℕ) → List (List ℕ)
add_to_first b [] = (b ∷ []) ∷ []
add_to_first b (l ∷ ls) = (b ∷ l) ∷ ls

unfoldable pub split_dots : List ℕ → List (List ℕ)
split_dots [] = [] ∷ []
split_dots (b ∷ bs) =
    let rest = split_dots bs in if b == b'.' then [] ∷ rest else add_to_first b rest

unfoldable pub encode_labels : List (List ℕ) → List ℕ
encode_labels [] = 0 ∷ []
encode_labels (l ∷ ls) = (length l % 256 ∷ l) ++ encode_labels ls

unfoldable pub encode_fqdn : DomainOption → List ℕ
encode_fqdn fqdn = fqdn.flags ∷ encode_labels (split_dots fqdn.domain_name)

-- The loop of DecodeFromBytes: `len` is the length of the next label, and `rest` begins with it.
-- `none` is the error. A label takes a byte at least, so the length of the data is fuel enough.
unfoldable pub decode_labels : ℕ → ℕ → List ℕ → List ℕ → Outcome (Option (List ℕ))
decode_labels fuel zero rest name = done (some name)
decode_labels zero (suc len) rest name = done none
decode_labels (suc fuel) (suc len) rest name = elim (drop (suc len) rest) [
  | [] ↦ done none
  | next ∷ rest' ↦ decode_labels fuel next rest' (name ++ take (suc len) rest)
]

unfoldable pub decode_fqdn : List ℕ → Outcome (Option DomainOption)
decode_fqdn (flags ∷ len ∷ rest) = do
  name ← decode_labels (length rest) len rest []
  elim name [ none ↦ done none | some n ↦ done (some (record { flags = flags; domain_name = n })) ]
decode_fqdn _ = done none
