-- ===== src/OptionCodec/RoundTrip.antt =====
-- The decoders of nat/dhcp6.go read back what the encoders write.
use mathlib.Core.List.{append_assoc}
use nff_go_nat.Base.{
  ℕ, ◌+◌, ◌^◌, ◌<◌, ◌≡◌, refl, sym, List, [], ◌++◌, length, All, length-append, le→ltb_false, done,
  some, arith,
}
use nff_go_nat.Wire.{be32}
use nff_go_nat.Wire.Buffers.{put_at-next, read32-be32, length-be32}
use nff_go_nat.OptionCodec.{options_len, Iana, encode_iana, decode_iana}
use nff_go_nat.OptionCodec.Loops.{
  IsSound, options_bytes, put_options_lem, length-options_bytes, read_options_lem,
}

-- An option whose numbers fit their fields.
pub record IsIana (x : Iana) : Type 0 where
  pub iaid_fits : x.iaid < 2 ^ 32
  pub t1_fits : x.t1 < 2 ^ 32
  pub t2_fits : x.t2 < 2 ^ 32
  pub options_sound : All IsSound x.options

-- The bytes of an IANA option's data, without a buffer.
unfoldable pub iana_bytes : Iana → List ℕ
iana_bytes x = be32 x.iaid ++ (be32 x.t1 ++ (be32 x.t2 ++ options_bytes x.options))

encode-iana_bytes : (x : Iana) → All IsSound x.options → encode_iana x ≡ iana_bytes x
unfolding encode_iana iana_bytes be32
encode-iana_bytes x h = rw (
  put_at-next [] (be32 x.iaid) 0 (12 + options_len x.options) (8 + options_len x.options) refl
      (omega arith),
  put_at-next (be32 x.iaid) (be32 x.t1) 4 (8 + options_len x.options) (4 + options_len x.options)
      refl (omega arith),
  put_at-next (be32 x.iaid ++ be32 x.t1) (be32 x.t2) 8 (4 + options_len x.options)
      (options_len x.options) refl (omega arith),
  put_options_lem ((be32 x.iaid ++ be32 x.t1) ++ be32 x.t2) 12 x.options refl h,
)

length-iana_bytes :
    (x : Iana) → All IsSound x.options → length (iana_bytes x) ≡ 12 + options_len x.options
unfolding iana_bytes be32
length-iana_bytes x h = omega (arith, length-options_bytes x.options h)

-- The buffer, seen from each of the parts.
iana_shapes :
    (x : Iana) (more : List ℕ)
    → (iana_bytes x ++ more
        ≡ be32 x.iaid ++ (be32 x.t1 ++ (be32 x.t2 ++ (options_bytes x.options ++ more))))
      × (be32 x.iaid ++ (be32 x.t1 ++ (be32 x.t2 ++ (options_bytes x.options ++ more)))
          ≡ (be32 x.iaid ++ be32 x.t1) ++ (be32 x.t2 ++ (options_bytes x.options ++ more)))
      × ((be32 x.iaid ++ be32 x.t1) ++ (be32 x.t2 ++ (options_bytes x.options ++ more))
          ≡ ((be32 x.iaid ++ be32 x.t1) ++ be32 x.t2) ++ (options_bytes x.options ++ more))
unfolding iana_bytes
iana_shapes x more = (simp append_assoc, simp append_assoc, simp append_assoc)

-- For an IANA option whose numbers fit 32 bits and whose options declare the length of their data:
-- decoding its encoding gives it back, without a panic, whatever stands behind it in the buffer.
pub decode-encode_iana :
    (x : Iana) (more : List ℕ)
    → IsIana x
    → decode_iana (encode_iana x ++ more) (length (encode_iana x)) ≡ done (some x)
unfolding decode_iana
decode-encode_iana x more v =
    let len = length-iana_bytes x v.options_sound in
    let shapes = iana_shapes x more in
    let n1 = length-be32 x.iaid in
    let n2 = length-append (be32 x.iaid) (be32 x.t1) in
    let n3 = length-append (be32 x.iaid ++ be32 x.t1) (be32 x.t2) in
    rw (
      encode-iana_bytes x v.options_sound,
      le→ltb_false (length (iana_bytes x)) 12 (omega (arith, len)),
      shapes.0,
      read32-be32 [] _ 0 x.iaid refl v.iaid_fits,
      read32-be32 (be32 x.iaid) _ 4 x.t1 (sym n1) v.t1_fits,
      shapes.1,
      read32-be32 (be32 x.iaid ++ be32 x.t1) _ 8 x.t2 (omega (arith, n1, n2, length-be32 x.t1))
          v.t2_fits,
      shapes.2,
      read_options_lem (length (iana_bytes x)) ((be32 x.iaid ++ be32 x.t1) ++ be32 x.t2) more
          x.options (length (iana_bytes x)) 12
          (omega (arith, n1, n2, n3, length-be32 x.t1, length-be32 x.t2)) (omega (arith, len))
          (omega (arith, len)) v.options_sound,
    )
