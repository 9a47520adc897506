-- ===== src/Wire/Buffers.antt =====
-- Writing to a buffer behind what is written already, and reading back from the middle of one.
use Prim.Native.Nat.add
use mathlib.Core.List.{append_assoc}
use nff_go_nat.Base.{
  ℕ, ◌+◌, ◌^◌, ◌≤◌, ◌<◌, ◌≡◌, refl, sym, ap, List, [], ◌∷◌, ◌++◌, length, replicate, length-append,
  drop-append, take-append, le→leb, done, arith,
}
use nff_go_nat.Wire.{be16, be32, put_at, first16, first32, read16, read32, slice}

put_at-append :
    (pre buf bytes : List ℕ) → put_at (pre ++ buf) (length pre) bytes ≡ pre ++ put_at buf 0 bytes
unfolding put_at
put_at-append [] buf bytes = refl
put_at-append (x ∷ pre) buf bytes = ap (◌∷◌ x) (put_at-append pre buf bytes)

put_at-nothing : (buf : List ℕ) → put_at buf 0 [] ≡ buf
unfolding put_at
put_at-nothing [] = refl
put_at-nothing (x ∷ buf) = refl

put_at-fresh :
    (bytes : List ℕ) (n : ℕ)
    → put_at (replicate (length bytes + n) 0) 0 bytes ≡ bytes ++ replicate n 0
unfolding put_at
put_at-fresh [] n = rw add.zero (put_at-nothing (replicate n 0))
put_at-fresh (b ∷ bytes) n = rw add.suc (ap (◌∷◌ b) (put_at-fresh bytes n))

-- A write to the first untouched byte of a zeroed buffer.
pub put_at-next :
    (pre bytes : List ℕ) (offset n m : ℕ)
    → offset ≡ length pre
    → n ≡ length bytes + m
    → put_at (pre ++ replicate n 0) offset bytes ≡ (pre ++ bytes) ++ replicate m 0
put_at-next pre bytes offset n m e f =
    rw (e, f, put_at-append, put_at-fresh) (sym (append_assoc pre bytes (replicate m 0)))

pub read16-be16 :
    (pre post : List ℕ) (offset x : ℕ)
    → offset ≡ length pre
    → x < 2 ^ 16
    → read16 (pre ++ (be16 x ++ post)) offset ≡ done x
unfolding read16 be16 first16
read16-be16 pre post offset x e h = rw (e, drop-append) (ap done (omega arith))

pub read32-be32 :
    (pre post : List ℕ) (offset x : ℕ)
    → offset ≡ length pre
    → x < 2 ^ 32
    → read32 (pre ++ (be32 x ++ post)) offset ≡ done x
unfolding read32 be32 first32
read32-be32 pre post offset x e h = rw (e, drop-append) (ap done (omega arith))

pub slice-middle :
    (pre mid post : List ℕ) (offset n : ℕ)
    → offset ≡ length pre
    → n ≡ length mid
    → slice (pre ++ (mid ++ post)) offset n ≡ done mid
unfolding slice
slice-middle pre mid post offset n e f =
    rw (e, f, le→leb (length pre + length mid) _ fits, drop-append, take-append)
  where
    fits : length pre + length mid ≤ length (pre ++ (mid ++ post))
    fits = omega (arith, length-append pre (mid ++ post), length-append mid post)

pub length-be32 : (x : ℕ) → length (be32 x) ≡ 4
unfolding be32
length-be32 x = refl
