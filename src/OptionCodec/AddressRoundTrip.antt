-- ===== src/OptionCodec/AddressRoundTrip.antt =====
-- The IA Address and status code options of nat/dhcp6.go are read back as they were written.
use mathlib.Core.List.{append_assoc, append-nil}
use nff_go_nat.Base.{
  ℕ, ◌+◌, ◌^◌, ◌<◌, ◌≡◌, refl, sym, List, [], ◌++◌, length, drop, All, length-append, le→ltb_false,
  take-append, done, some, arith, ==_iff,
}
use nff_go_nat.Wire.{be16, be32}
use nff_go_nat.Wire.Buffers.{put_at-next, read16-be16, read32-be32, length-be32, slice-middle}
use nff_go_nat.OptionCodec.{
  options_len, IaAddress, to16, encode_ia_address, decode_ia_address, StatusCode, encode_status,
  decode_status,
}
use nff_go_nat.OptionCodec.Loops.{
  IsSound, options_bytes, put_options_lem, length-options_bytes, read_options_lem,
}

-- A full address, numbers that fit, and options that declare the length of their data.
pub record IsIaAddress (x : IaAddress) : Type 0 where
  pub address_full : length x.address ≡ 16
  pub preferred_fits : x.preferred_lifetime < 2 ^ 32
  pub valid_fits : x.valid_lifetime < 2 ^ 32
  pub options_sound : All IsSound x.options

-- The bytes of the option's data, without a buffer.
unfoldable pub ia_address_bytes : IaAddress → List ℕ
ia_address_bytes x =
    x.address ++ (be32 x.preferred_lifetime ++ (be32 x.valid_lifetime ++ options_bytes x.options))

to16_full : (ip : List ℕ) → length ip ≡ 16 → to16 ip ≡ ip
unfolding to16
to16_full ip h = rw ((==_iff (length ip) 16).1 h) refl

encode-ia_address_bytes : (x : IaAddress) → IsIaAddress x → encode_ia_address x ≡ ia_address_bytes x
unfolding encode_ia_address ia_address_bytes be32
encode-ia_address_bytes x h =
    rw
      (
        to16_full x.address h.address_full,
        put_at-next [] x.address 0 (24 + options_len x.options) (8 + options_len x.options) refl
            (omega (arith, h.address_full)),
        put_at-next x.address (be32 x.preferred_lifetime) 16 (8 + options_len x.options)
            (4 + options_len x.options) (sym h.address_full) (omega arith),
        put_at-next (x.address ++ be32 x.preferred_lifetime) (be32 x.valid_lifetime) 20
            (4 + options_len x.options) (options_len x.options)
            (omega (arith, h.address_full, length-append x.address (be32 x.preferred_lifetime)))
            (omega arith),
        put_options_lem ((x.address ++ be32 x.preferred_lifetime) ++ be32 x.valid_lifetime) 24
            x.options
            (omega (
              arith,
              h.address_full,
              length-append x.address (be32 x.preferred_lifetime),
              length-append (x.address ++ be32 x.preferred_lifetime) (be32 x.valid_lifetime),
            ))
            h.options_sound,
      )
      (simp append_assoc)

length-ia_address_bytes :
    (x : IaAddress) → IsIaAddress x → length (ia_address_bytes x) ≡ 24 + options_len x.options
unfolding ia_address_bytes be32
length-ia_address_bytes x h = omega (
  arith,
  h.address_full,
  length-append x.address
      (be32 x.preferred_lifetime ++ (be32 x.valid_lifetime ++ options_bytes x.options)),
  length-options_bytes x.options h.options_sound,
)

-- The buffer, seen from each of the parts.
ia_address_shapes :
    (x : IaAddress) (more : List ℕ)
    → (ia_address_bytes x ++ more
        ≡ x.address
          ++ (be32 x.preferred_lifetime
              ++ (be32 x.valid_lifetime ++ (options_bytes x.options ++ more))))
      × (x.address
            ++ (be32 x.preferred_lifetime
                ++ (be32 x.valid_lifetime ++ (options_bytes x.options ++ more)))
          ≡ (x.address ++ be32 x.preferred_lifetime)
            ++ (be32 x.valid_lifetime ++ (options_bytes x.options ++ more)))
      × ((x.address ++ be32 x.preferred_lifetime)
            ++ (be32 x.valid_lifetime ++ (options_bytes x.options ++ more))
          ≡ ((x.address ++ be32 x.preferred_lifetime) ++ be32 x.valid_lifetime)
            ++ (options_bytes x.options ++ more))
unfolding ia_address_bytes
ia_address_shapes x more = (simp append_assoc, simp append_assoc, simp append_assoc)

-- For an IA Address option with a full address, lifetimes that fit 32 bits and options that declare
-- the length of their data: decoding its encoding gives it back, without a panic, whatever stands
-- behind it in the buffer.
pub decode-encode_ia_address :
    (x : IaAddress) (more : List ℕ)
    → IsIaAddress x
    → decode_ia_address (encode_ia_address x ++ more) (length (encode_ia_address x)) ≡ done (some x)
unfolding decode_ia_address
decode-encode_ia_address x more v =
    let len = length-ia_address_bytes x v in
    let shapes = ia_address_shapes x more in
    let n2 = length-append x.address (be32 x.preferred_lifetime) in
    let n3 = length-append (x.address ++ be32 x.preferred_lifetime) (be32 x.valid_lifetime) in
    rw (
      encode-ia_address_bytes x v,
      le→ltb_false (length (ia_address_bytes x)) 24 (omega (arith, len)),
      shapes.0,
      slice-middle [] x.address _ 0 16 refl (sym v.address_full),
      read32-be32 x.address _ 16 x.preferred_lifetime (sym v.address_full) v.preferred_fits,
      shapes.1,
      read32-be32 (x.address ++ be32 x.preferred_lifetime) _ 20 x.valid_lifetime
          (omega (arith, n2, v.address_full, length-be32 x.preferred_lifetime)) v.valid_fits,
      shapes.2,
      read_options_lem (length (ia_address_bytes x))
          ((x.address ++ be32 x.preferred_lifetime) ++ be32 x.valid_lifetime) more x.options
          (length (ia_address_bytes x)) 24
          (omega (
            arith,
            n2,
            n3,
            v.address_full,
            length-be32 x.preferred_lifetime,
            length-be32 x.valid_lifetime,
          ))
          (omega (arith, len)) (omega (arith, len)) v.options_sound,
    )

length-be16 : (x : ℕ) → length (be16 x) ≡ 2
unfolding be16
length-be16 x = refl

drop-be16 : (x : ℕ) (l : List ℕ) → drop 2 (be16 x ++ l) ≡ l
unfolding be16
drop-be16 x l = refl

encode_status_lem : (x : StatusCode) → encode_status x ≡ be16 x.status_code ++ x.status_message
unfolding encode_status be16
encode_status_lem x = rw (
  put_at-next [] (be16 x.status_code) 0 (2 + length x.status_message) (length x.status_message) refl
      (omega arith),
  put_at-next (be16 x.status_code) x.status_message 2 (length x.status_message) 0 refl
      (omega arith),
  append-nil,
)

-- For a status code option whose code fits 16 bits: decoding its encoding gives it back, whatever
-- stands behind it in the buffer.
pub decode-encode_status :
    (x : StatusCode) (more : List ℕ)
    → x.status_code < 2 ^ 16
    → decode_status (encode_status x ++ more) (length (encode_status x)) ≡ done (some x)
unfolding decode_status
decode-encode_status x more h = rw (
  encode_status_lem x,
  le→ltb_false (length (be16 x.status_code ++ x.status_message)) 2 (
      omega
        (arith, length-append (be16 x.status_code) x.status_message, length-be16 x.status_code)),
  take-append,
  append_assoc,
  read16-be16 [] _ 0 x.status_code refl h,
  drop-be16 x.status_code x.status_message,
)
