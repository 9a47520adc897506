-- ===== src/Program/DumpFlags.antt =====
-- Which flags the argument of -dump sets.
use nff_go_nat.Base.{◌≡◌, Bool, true, ◌==◌, ◌&&◌, ◌||◌, if◌then◌else◌, [], ◌∷◌, arith}
use nff_go_nat.Config.{dir_drop, dir_send, dir_kni}
use nff_go_nat.Text.{Text, contains}
use nff_go_nat.Program.{DumpControlArray, set_flag, set_dump_control}

-- The text up to its first character that is no flag.
abbrev pub flags_of : Text → Text
flags_of [] = []
flags_of (c ∷ s) = if c == b'd' || c == b't' || c == b'k' then c ∷ flags_of s else []

abbrev pub is_flag_text : Text → Bool
is_flag_text [] = true
is_flag_text (c ∷ s) = (c == b'd' || c == b't' || c == b'k') && is_flag_text s

-- DumpControlArray.Set succeeds exactly for a text of the letters d, t and k. It adds to the flags that
-- were set those whose letter occurs before the first other character, and takes none away, also when
-- it fails.
pub set_dump_control_lem :
    (drc : DumpControlArray) (s : Text)
    → ((set_dump_control drc s).0 ≡ is_flag_text s)
      × ((set_dump_control drc s).1 dir_drop ≡ (drc dir_drop || contains b'd' (flags_of s)))
      × ((set_dump_control drc s).1 dir_send ≡ (drc dir_send || contains b't' (flags_of s)))
      × ((set_dump_control drc s).1 dir_kni ≡ (drc dir_kni || contains b'k' (flags_of s)))
unfolding set_dump_control set_flag contains
set_dump_control_lem drc [] = ground arith
set_dump_control_lem drc (c ∷ s) = ground (
  arith,
  set_dump_control_lem (set_flag dir_drop drc) s,
  set_dump_control_lem (set_flag dir_send drc) s,
  set_dump_control_lem (set_flag dir_kni drc) s,
)
