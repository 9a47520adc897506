-- ===== src/Text.antt =====
-- What the program uses of Go's packages strings, strconv and net to read its settings. A text is the
-- list of its bytes. These are the functions of the language's library, so that the readers of
-- nat/config.go and client/client.go run; `none` stands for an error.
pub mod Numerals
pub mod Ip
pub mod Lengths
pub mod Parts
pub mod Printed
use Prim.Native.Char.{code}
use Prim.Native.String.{String}
use nff_go_nat.Base.{
  ℕ, Bool, true, false, ◌==◌, ◌||◌, if◌then◌else◌, Option, none, some, List, [], ◌∷◌,
}

abbrev pub Text : Type 0
Text = List ℕ

-- The bytes of a literal, which is ASCII in the source.
abbrev pub codes : String → Text
codes String.[] = []
codes (String.◌∷◌ c s) = code c ∷ codes s

-- `strings.IndexByte(s, c) >= 0`
unfoldable pub contains : ℕ → Text → Bool
contains c [] = false
contains c (x ∷ s) = x == c || contains c s

unfoldable pub cons_first : ℕ → List Text → List Text
cons_first c [] = (c ∷ []) ∷ []
cons_first c (part ∷ parts) = (c ∷ part) ∷ parts

-- strings.Split, for a separator of one byte: always one part more than there are separators.
unfoldable pub split : ℕ → Text → List Text
unfolding cons_first
split sep [] = [] ∷ []
split sep (c ∷ s) = let rest = split sep s in if c == sep then [] ∷ rest else cons_first c rest

unfoldable pub cons_before : ℕ → Option (Text × Text) → Option (Text × Text)
cons_before c none = none
cons_before c (some (before, after)) = some (c ∷ before, after)

-- What stands before and after the first `sep`.
unfoldable pub cut_first : ℕ → Text → Option (Text × Text)
unfolding cons_before
cut_first sep [] = none
cut_first sep (c ∷ s) =
    let rest = cut_first sep s in if c == sep then some ([], s) else cons_before c rest

unfoldable pub or_cut_here : ℕ → ℕ → Text → Option (Text × Text) → Option (Text × Text)
or_cut_here sep c s (some (before, after)) = some (c ∷ before, after)
or_cut_here sep c s none = if c == sep then some ([], s) else none

-- What stands before and after the last `sep`.
unfoldable pub cut_last : ℕ → Text → Option (Text × Text)
unfolding or_cut_here
cut_last sep [] = none
cut_last sep (c ∷ s) = or_cut_here sep c s (cut_last sep s)

-- A host in brackets: after `]` a colon and the port, the only colon there.
unfoldable pub bracketed : Option (Text × Text) → Option (Text × Text)
bracketed (some (host, colon ∷ port)) =
    if colon == b':'
    then (if contains b':' port || contains b'[' host || contains b'[' port || contains b']' port
        then none
        else some (host, port))
    else none
bracketed _ = none

unfoldable pub unbracketed : Option (Text × Text) → Option (Text × Text)
unbracketed none = none
unbracketed (some (host, port)) =
    if contains b':' host
      || contains b'[' host
      || contains b'[' port
      || contains b']' host
      || contains b']' port
    then none
    else some (host, port)

-- net.SplitHostPort
unfoldable pub split_host_port : Text → Option (Text × Text)
unfolding cut_first cut_last bracketed unbracketed contains
split_host_port [] = none
split_host_port (c ∷ s) =
    if c == b'[' then bracketed (cut_first b']' s) else unbracketed (cut_last b':' (c ∷ s))
