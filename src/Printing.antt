-- ===== src/Printing.antt =====
-- The texts that nat/util.go and nat/portalloc.go print for the messages of the program.
pub mod Dotted
pub mod ReadBack
use nff_go_nat.Base.{ℕ, ◌/◌, ◌%◌, ◌^◌, ◌==◌, if◌then◌else◌, List, ◌∷◌, ◌++◌}
use nff_go_nat.Net.{IPv4Address}
use nff_go_nat.Config.{pub2pri, pri2pub}
use nff_go_nat.Text.{Text, codes}
use nff_go_nat.Text.Numerals.{itoa}

-- `%d.%d.%d.%d`
abbrev pub dotted : ℕ → ℕ → ℕ → ℕ → Text
dotted a b c d = itoa a ++ (b'.' ∷ (itoa b ++ (b'.' ∷ (itoa c ++ (b'.' ∷ itoa d)))))

-- StringIPv4Int. `& 0xff` is `% 256`.
unfoldable pub string_ipv4_int : IPv4Address → Text
string_ipv4_int addr =
    dotted (addr / 2 ^ 24 % 256) (addr / 2 ^ 16 % 256) (addr / 2 ^ 8 % 256) (addr % 256)

-- Tuple.String
unfoldable pub tuple_string : IPv4Address → ℕ → Text
tuple_string addr port =
    codes "addr = "
    ++ (dotted (addr / 2 ^ 24 % 256) (addr / 2 ^ 16 % 256) (addr / 2 ^ 8 % 256) (addr % 256)
        ++ (b':' ∷ itoa port))

-- terminationDirection.String
unfoldable pub direction_string : ℕ → Text
unfolding itoa
direction_string dir =
    if dir == pub2pri
    then codes "pub2pri"
    else if dir == pri2pub
    then codes "pri2pub"
    else codes "unknown(" ++ (itoa dir ++ codes ")")
