-- ===== src/Tests.antt =====
-- Concrete runs, and the theorems at concrete inputs.
use nff_go_nat.Base.{
  ◌≤◌, true, ℕ, ◌+◌, ◌-◌, ◌*◌, ◌^◌, ◌≡◌, ◌↔◌, refl, inl, false, ltb, [], ◌∷◌, none, done, panic,
  arith,
}
use nff_go_nat.Net.{Endpoint, tuple, zero_ipv6_addr}
use nff_go_nat.Config.{port_end, PortPair, tcp_number, ForwardedPort, i_public, pri2pub, pub2pri}
use nff_go_nat.PortAlloc.{get_public_port_portmap, make_port_addr_tuple, is_reusable}
use nff_go_nat.PortAlloc.Allocation.{AllocatesNext, alloc_new_port_lem}
use nff_go_nat.Connections.{waiting_entry, check_tcp_termination, has_flag}
use nff_go_nat.Connections.WellFormed.{WellFormed, is_translated}
use nff_go_nat.Connections.Egress.{Establishes, allocate_new_egress_connection_lem}
use nff_go_nat.Connections.Termination.{
  check_tcp_termination-WellFormed, tcp_allocated, waiting_entry-reusable,
}
use nff_go_nat.Connections.Segments.{
  Segment, SameTables, IsHalfOpen, run_segments, run_segments-keeps, run_segments-ends,
}
use nff_go_nat.Subnet.{check_addr_withing_subnet4}
use nff_go_nat.Forwarding.{
  accepted, check_port_forwarding, is_addr_zero, is_private, is_within, fill_port,
}
use nff_go_nat.Forwarding.Checks.{IsAccepted, check_port_forwarding_iff}
use nff_go_nat.Forwarding.Rules.{Enables, enable_on_public_lem}
use nff_go_nat.Control.Rules.{Replaces, replace_rule_lem}
use nff_go_nat.Control.{change_port_forwarding}
use nff_go_nat.Control.Panics.{IsTaken, change_port_forwarding_panics_iff}
use nff_go_nat.Control.Replacing.{IsTyped}
use nff_go_nat.Setup.{init_state}
use nff_go_nat.Setup.Fresh.{IsFresh, init_state-WellFormed, init_state-IsFresh}
use nff_go_nat.Samples.{nff, configured}

-- The pair that InitFlows sets up.
abbrev start : PortPair
start = init_state nff configured

start-WellFormed : WellFormed start
start-WellFormed = init_state-WellFormed nff configured

start-IsTyped : IsTyped start
unfolding init_state
start-IsTyped = (refl, refl)

abbrev host : Endpoint
host = tuple 0xc0a80e02 40000

now : ℕ
now = 100 * 10 ^ 9

alloc_new_port_lem_example : AllocatesNext now start false tcp_number
unfolding init_state
alloc_new_port_lem_example =
    alloc_new_port_lem now start false tcp_number (tcp_allocated start false start-WellFormed)
      (omega arith) (omega arith)

allocate_new_egress_connection_lem_example : Establishes now start false tcp_number host
unfolding is_translated
allocate_new_egress_connection_lem_example =
    allocate_new_egress_connection_lem now start false tcp_number host start-WellFormed refl refl

-- 192.168.14.2 connects; the connection has the public port 1024.
abbrev fin : ℕ → Segment
fin dir = record { at = now; flags = 0x11; dir = dir }

abbrev ack : ℕ → Segment
ack dir = record { at = now; flags = 0x10; dir = dir }

check_tcp_termination-WellFormed_example :
    (pp' : PortPair) × (check_tcp_termination now start false 0x14 1024 pri2pub ≡ done pp')
    × WellFormed pp'
check_tcp_termination-WellFormed_example =
    check_tcp_termination-WellFormed now start false 0x14 1024 pri2pub start-WellFormed
      (omega arith)

run_segments-keeps_example :
    (pp' : PortPair) × (run_segments start false 1024 (fin pri2pub ∷ ack pub2pri ∷ []) ≡ done pp')
    × WellFormed pp'
    × SameTables pp' start
    × IsHalfOpen pri2pub ((get_public_port_portmap pp' false tcp_number).at 1024)
unfolding init_state get_public_port_portmap has_flag
run_segments-keeps_example =
    run_segments-keeps start false 1024 pri2pub (fin pri2pub ∷ ack pub2pri ∷ []) start-WellFormed
      (omega arith) (omega arith) (inl refl)
      (((λ _. refl), (λ e. refl)), (((λ e. cc), (λ _. refl)), tt))

run_segments-ends_example :
    (pp' : PortPair) × (run_segments start false 1024 (fin pri2pub ∷ fin pub2pri ∷ ack pri2pub ∷ [])
      ≡ done pp')
    × (pp'.public_port.translation_table tcp_number
          (make_port_addr_tuple start.public_port false 1024)
        ≡ none)
    × ((get_public_port_portmap pp' false tcp_number).at 1024 ≡ waiting_entry now)
unfolding init_state get_public_port_portmap has_flag
run_segments-ends_example =
    run_segments-ends start false 1024 pri2pub (fin pri2pub) (fin pub2pri) (ack pri2pub)
      start-WellFormed (omega arith) (omega arith) refl (refl, refl) (refl, refl) (refl, refl, refl)

waiting_entry-reusable_example :
    is_reusable (now + 2 * 10 ^ 9) (waiting_entry now) ≡ ltb (10 ^ 9) (now + 2 * 10 ^ 9 - now)
unfolding now
waiting_entry-reusable_example = waiting_entry-reusable now (now + 2 * 10 ^ 9) (omega arith)

init_state-IsFresh_example :
    WellFormed (init_state nff configured) × IsFresh (init_state nff configured)
init_state-IsFresh_example = init_state-IsFresh nff configured

-- Public port 2222 goes to 192.168.14.7, port 22.
abbrev rule : ℕ → ForwardedPort
rule port = record {
  port = port;
  destination = record { addr4 = 0xc0a80e07; addr6 = zero_ipv6_addr; port = 22; ipv6 = false };
  protocol = record { id = tcp_number; ipv6 = false };
}

check_port_forwarding_iff_example :
    (check_port_forwarding configured.public_port configured.private_port (rule 2222)
      ≡ accepted (rule 2222) false)
    ↔ IsAccepted configured.public_port configured.private_port (rule 2222) (rule 2222) false
check_port_forwarding_iff_example =
    check_port_forwarding_iff configured.public_port configured.private_port (rule 2222) (rule 2222)
      false

enable_on_public_lem_example : Enables now start (rule 2222)
unfolding init_state is_translated
enable_on_public_lem_example =
    enable_on_public_lem now start (rule 2222) refl start-WellFormed refl (omega arith) refl

-- Port 65500 is a 16-bit port, and its rule is accepted.
accepted_65500 :
    check_port_forwarding configured.public_port configured.private_port (rule 65500)
    ≡ accepted (rule 65500) false
unfolding check_port_forwarding is_addr_zero is_private is_within check_addr_withing_subnet4
    fill_port
accepted_65500 = refl

change_port_forwarding_panics_iff_example :
    (change_port_forwarding now i_public (rule 65500) true start ≡ panic)
    ↔ (IsTaken start (rule 65500) × port_end ≤ (rule 65500).port)
unfolding is_translated
change_port_forwarding_panics_iff_example =
    change_port_forwarding_panics_iff now (rule 65500) true start (start-WellFormed, start-IsTyped)
      refl

replace_rule_lem_example : Replaces now start (rule 2222)
unfolding init_state is_translated
replace_rule_lem_example =
    replace_rule_lem now start (rule 2222) refl start-WellFormed refl (omega arith)
