-- ===== src/Wire.antt =====
-- Big-endian numbers and byte buffers, as encoding/binary and Go's slices and `copy` handle them.
pub mod Buffers
use nff_go_nat.Base.{
  ℕ, zero, suc, ◌+◌, ◌*◌, ◌/◌, ◌%◌, ◌^◌, Bool, leb, if◌then◌else◌, List, [], ◌∷◌, ◌++◌, length,
  take, drop, Outcome, done, panic, ◌>>=◌,
}

unfoldable pub be16 : ℕ → List ℕ
be16 x = x / 256 % 256 ∷ x % 256 ∷ []

unfoldable pub be32 : ℕ → List ℕ
be32 x = x / 2 ^ 24 % 256 ∷ x / 2 ^ 16 % 256 ∷ x / 256 % 256 ∷ x % 256 ∷ []

-- `copy(buf[offset:], bytes)`, and a PutUint16 or PutUint32 at `offset`: what does not fit is cut.
unfoldable pub put_at : List ℕ → ℕ → List ℕ → List ℕ
put_at [] offset bytes = []
put_at (x ∷ buf) zero [] = x ∷ buf
put_at (x ∷ buf) zero (b ∷ bytes) = b ∷ put_at buf zero bytes
put_at (x ∷ buf) (suc offset) bytes = x ∷ put_at buf offset bytes

unfoldable pub first16 : List ℕ → Outcome ℕ
first16 (a ∷ b ∷ rest) = done (a * 256 + b)
first16 _ = panic

unfoldable pub first32 : List ℕ → Outcome ℕ
first32 (a ∷ b ∷ c ∷ d ∷ rest) = done (a * 2 ^ 24 + b * 2 ^ 16 + c * 256 + d)
first32 _ = panic

-- `Uint16(buf[offset:offset+2])` and `Uint32(buf[offset:offset+4])`. The list reaches up to the
-- capacity of the slice: that, and not its length, bounds a slicing.
unfoldable pub read16 : List ℕ → ℕ → Outcome ℕ
read16 buf offset = first16 (drop offset buf)

unfoldable pub read32 : List ℕ → ℕ → Outcome ℕ
read32 buf offset = first32 (drop offset buf)

-- `buf[offset : offset+n]`
unfoldable pub slice : List ℕ → ℕ → ℕ → Outcome (List ℕ)
slice buf offset n =
    if leb (offset + n) (length buf) then done (take n (drop offset buf)) else panic
