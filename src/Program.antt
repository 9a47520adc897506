-- ===== src/Program.antt =====
-- nat.go: the flags of the command line and the start of the translator; CheckHWOffloading of
-- nat/config.go.
pub mod DumpFlags
use nff_go_nat.Base.{
  ℕ, Bool, true, false, not, ◌==◌, ◌&&◌, ◌||◌, if◌then◌else◌, List, [], ◌∷◌, ite, ℕ_discrete,
}
use nff_go_nat.Config.{PortPair, Config, dir_drop, dir_send, dir_kni}
use nff_go_nat.Text.{Text}
use nff_go_nat.Reading.{Needs}

-- A DumpControlArray: a flag for each direction.
abbrev pub DumpControlArray : Type 0
DumpControlArray = ℕ → Bool

unfoldable pub set_flag : ℕ → DumpControlArray → DumpControlArray
unfolding ℕ_discrete
set_flag dir drc i = ite (ℕ_discrete dir i) true (drc i)

-- DumpControlArray.Set: whether there was no error, and the array. The flags that come before a bad
-- character stay set.
unfoldable pub set_dump_control : DumpControlArray → Text → Bool × DumpControlArray
unfolding set_flag
set_dump_control drc [] = (true, drc)
set_dump_control drc (c ∷ s) =
    let with_drop = set_dump_control (set_flag dir_drop drc) s in
    let with_send = set_dump_control (set_flag dir_send drc) s in
    let with_kni = set_dump_control (set_flag dir_kni drc) s in
    if c == b'd'
    then with_drop
    else if c == b't'
    then with_send
    else if c == b'k'
    then with_kni
    else (false, drc)

-- The ports that CheckHWOffloading asks about.
unfoldable pub offloading_ports : List PortPair → List ℕ
offloading_ports [] = []
offloading_ports (pp ∷ pps) = pp.public_port.index ∷ (pp.private_port.index ∷ offloading_ports pps)

unfoldable pub all_true : List Bool → Bool
all_true [] = true
all_true (c ∷ cs) = if c then all_true cs else false

-- CheckHWOffloading. flow.CheckHWCapability is nff-go's: one answer for each port.
unfoldable pub check_hw_offloading : (List ℕ → List Bool) → Config → Bool
unfolding offloading_ports all_true
check_hw_offloading check_capability config =
    all_true (check_capability (offloading_ports config.port_pairs))

-- What main sets NoHWTXChecksum to: software checksums are the fallback.
unfoldable pub fall_back : Bool → Bool → Bool
fall_back no_hw_tx_checksum available =
    if not no_hw_tx_checksum && not available then true else no_hw_tx_checksum

-- Whether main starts the DHCP clients' loop.
unfoldable pub starts_dhcp_client : Needs → Bool → Bool
starts_dhcp_client needs set_kni_ip = needs.dhcp || set_kni_ip
