-- ===== src/OptionCodec/Loops.antt =====
-- The loops over options: what they write, and that the decoder reads it back.
use mathlib.Core.List.{append_assoc}
use nff_go_nat.Base.{
  ℕ, zero, suc, ◌+◌, ◌^◌, ◌≤◌, ◌<◌, ◌≡◌, refl, List, [], ◌∷◌, ◌++◌, length, replicate, All,
  length-append, lt→ltb, done, arith,
}
use nff_go_nat.Nff.{Dhcpv6Option}
use nff_go_nat.Wire.{be16}
use nff_go_nat.Wire.Buffers.{put_at-next, read16-be16, slice-middle}
use nff_go_nat.OptionCodec.{options_len, put_options, read_options}

-- An option whose fields are 16-bit numbers and whose declared length is that of its data.
pub record IsSound (o : Dhcpv6Option) : Type 0 where
  pub code_fits : o.code < 2 ^ 16
  pub len_fits : o.len < 2 ^ 16
  pub len_is : o.len ≡ length o.contents

-- The bytes of options, one after the other.
unfoldable pub option_bytes : Dhcpv6Option → List ℕ
option_bytes o = be16 o.code ++ (be16 o.len ++ o.contents)

unfoldable pub options_bytes : List Dhcpv6Option → List ℕ
options_bytes [] = []
options_bytes (o ∷ os) = option_bytes o ++ options_bytes os

-- The offsets of the parts of an option that stands behind `pre`.
prefix_lengths :
    (pre : List ℕ) (o : Dhcpv6Option)
    → (length (pre ++ be16 o.code) ≡ length pre + 2)
      × (length ((pre ++ be16 o.code) ++ be16 o.len) ≡ length (pre ++ be16 o.code) + 2)
      × (length (((pre ++ be16 o.code) ++ be16 o.len) ++ o.contents)
          ≡ length ((pre ++ be16 o.code) ++ be16 o.len) + length o.contents)
unfolding be16
prefix_lengths pre o = (
  length-append pre (be16 o.code),
  length-append (pre ++ be16 o.code) (be16 o.len),
  length-append ((pre ++ be16 o.code) ++ be16 o.len) o.contents,
)

pub put_options_lem :
    (pre : List ℕ) (offset : ℕ) (os : List Dhcpv6Option)
    → offset ≡ length pre
    → All IsSound os
    → put_options (pre ++ replicate (options_len os) 0) offset os ≡ pre ++ options_bytes os
unfolding put_options options_bytes option_bytes options_len be16
put_options_lem pre offset [] e h = refl
put_options_lem pre offset (o ∷ os) e (s, h) =
    let lengths = prefix_lengths pre o in
    rw
      (
        put_at-next pre (be16 o.code) offset (o.len + 4 + options_len os)
            (o.len + 2 + options_len os) e (omega arith),
        put_at-next (pre ++ be16 o.code) (be16 o.len) (offset + 2) (o.len + 2 + options_len os)
            (o.len + options_len os) (omega (arith, lengths.0)) (omega arith),
        put_at-next ((pre ++ be16 o.code) ++ be16 o.len) o.contents (offset + 4)
            (o.len + options_len os) (options_len os) (omega (arith, lengths.0, lengths.1))
            (omega (arith, s.len_is)),
        put_options_lem (((pre ++ be16 o.code) ++ be16 o.len) ++ o.contents) (offset + (o.len + 4))
            os (omega (arith, lengths.0, lengths.1, lengths.2, s.len_is)) h,
      )
      (simp append_assoc)

pub length-options_bytes :
    (os : List Dhcpv6Option) → All IsSound os → length (options_bytes os) ≡ options_len os
unfolding options_bytes option_bytes options_len be16
length-options_bytes [] h = refl
length-options_bytes (o ∷ os) (s, h) =
    omega (arith, length-append o.contents (options_bytes os), length-options_bytes os h, s.len_is)

-- With fuel for every round the loop reads back what was written, whatever follows in the buffer.
pub read_options_lem :
    (fuel : ℕ) (pre more : List ℕ) (os : List Dhcpv6Option) (stop offset : ℕ)
    → offset ≡ length pre
    → stop ≡ offset + options_len os
    → options_len os ≤ fuel
    → All IsSound os
    → read_options fuel (pre ++ (options_bytes os ++ more)) stop offset ≡ done os
unfolding read_options options_bytes option_bytes options_len
read_options_lem zero pre more [] stop offset e f enough h = refl
read_options_lem zero pre more (o ∷ os) stop offset e f enough h = absurd (omega arith)
read_options_lem (suc fuel) pre more [] stop offset e f enough h = ground arith
read_options_lem (suc fuel) pre more (o ∷ os) stop offset e f enough (s, h) =
    let lengths = prefix_lengths pre o in
    let rest = options_bytes os ++ more in
    rw (
      lt→ltb offset stop (omega arith),
      shapes.0,
      read16-be16 pre (be16 o.len ++ (o.contents ++ rest)) offset o.code e s.code_fits,
      shapes.1,
      read16-be16 (pre ++ be16 o.code) (o.contents ++ rest) (offset + 2) o.len
          (omega (arith, lengths.0)) s.len_fits,
      shapes.2,
      slice-middle ((pre ++ be16 o.code) ++ be16 o.len) o.contents rest (offset + 4) o.len
          (omega (arith, lengths.0, lengths.1)) s.len_is,
      shapes.3,
      read_options_lem fuel (((pre ++ be16 o.code) ++ be16 o.len) ++ o.contents) more os stop
          (offset + (o.len + 4)) (omega (arith, lengths.0, lengths.1, lengths.2, s.len_is))
          (omega arith) (omega arith) h,
    )
  where
    -- The buffer, seen from each of the parts.
    shapes :
        (pre ++ ((be16 o.code ++ (be16 o.len ++ o.contents) ++ options_bytes os) ++ more)
          ≡ pre ++ (be16 o.code ++ (be16 o.len ++ (o.contents ++ (options_bytes os ++ more)))))
        × (pre ++ (be16 o.code ++ (be16 o.len ++ (o.contents ++ (options_bytes os ++ more))))
            ≡ (pre ++ be16 o.code) ++ (be16 o.len ++ (o.contents ++ (options_bytes os ++ more))))
        × ((pre ++ be16 o.code) ++ (be16 o.len ++ (o.contents ++ (options_bytes os ++ more)))
            ≡ ((pre ++ be16 o.code) ++ be16 o.len) ++ (o.contents ++ (options_bytes os ++ more)))
        × (((pre ++ be16 o.code) ++ be16 o.len) ++ (o.contents ++ (options_bytes os ++ more))
            ≡ (((pre ++ be16 o.code) ++ be16 o.len) ++ o.contents) ++ (options_bytes os ++ more))
    shapes = (simp append_assoc, simp append_assoc, simp append_assoc, simp append_assoc)
