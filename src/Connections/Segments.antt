-- ===== src/Connections/Segments.antt =====
-- A TCP connection over a sequence of segments: FINs from one side alone do not end it, and it ends
-- with the first ACK after both sides have sent a FIN.
use nff_go_nat.Base.{
  ℕ, ◌-◌, ◌≤◌, ◌<◌, ◌≡◌, refl, ◌∙◌, ◌⊎◌, inl, inr, Bool, true, false, ◌==◌, List, [], ◌∷◌, All,
  Outcome, done, ◌>>=◌, arith, Bool-cases, none,
}
use nff_go_nat.Config.{PortPair, PortMapEntry, tcp_number, port_end}
use nff_go_nat.PortAlloc.{get_public_port_portmap, make_port_addr_tuple}
use nff_go_nat.PortAlloc.Entries.{write_entry, write_entry_self, write_entry-address, forget}
use nff_go_nat.Connections.{
  tcp_flag_fin, tcp_flag_rst, tcp_flag_ack, has_flag, note_fin, check_tcp_termination,
  waiting_entry,
}
use nff_go_nat.Connections.WellFormed.{
  WellFormed, write_entry-WellFormed, write_entry-private, write_entry-table, forget-unmapped,
}
use nff_go_nat.Connections.Termination.{on_fin, on_other, on_last_ack, finished}

-- A segment of the connection: when it passes, its flags, and its direction.
pub record Segment : Type 0 where
  pub at : ℕ
  pub flags : ℕ
  pub dir : ℕ

-- What checkTCPTermination does with the segments of one connection, in order.
pub run_segments : PortPair → Bool → ℕ → List Segment → Outcome PortPair
run_segments pp ipv6 port [] = done pp
run_segments pp ipv6 port (s ∷ rest) = do
  pp' ← check_tcp_termination s.at pp ipv6 s.flags port s.dir
  run_segments pp' ipv6 port rest

-- No RST that counts, and no FIN from a side other than `side`.
abbrev pub IsOneSided : ℕ → Segment → Type 0
IsOneSided side s =
    (has_flag s.flags tcp_flag_fin ≡ true → s.dir ≡ side)
    × (has_flag s.flags tcp_flag_fin ≡ false → has_flag s.flags tcp_flag_rst ≡ false)

-- The entry has seen no FIN, or FINs from `side` alone.
abbrev pub IsHalfOpen : ℕ → PortMapEntry → Type 0
IsHalfOpen side e = (e.fin_count ≡ 0) ⊎ ((e.fin_count ≡ 1) × (e.termination_direction ≡ side))

note_fin-IsHalfOpen :
    (side : ℕ) (e : PortMapEntry)
    → side ≤ 255
    → IsHalfOpen side e
    → IsHalfOpen side (note_fin e side)
unfolding note_fin
note_fin-IsHalfOpen side e h half = ground arith

-- The tables of two pairs agree.
abbrev pub SameTables : PortPair → PortPair → Type 0
SameTables p q =
    (p.private_port ≡ q.private_port)
    × (p.public_port.translation_table ≡ q.public_port.translation_table)

-- As long as only one side sends FINs, and no RST comes, no sequence of segments panics or changes a
-- table entry of the pair, and the connection stays half open.
pub run_segments-keeps :
    (pp : PortPair) (ipv6 : Bool) (port side : ℕ) (ss : List Segment)
    → WellFormed pp
    → port < port_end
    → side ≤ 255
    → IsHalfOpen side ((get_public_port_portmap pp ipv6 tcp_number).at port)
    → All (IsOneSided side) ss
    → (pp' : PortPair) × (run_segments pp ipv6 port ss ≡ done pp')
      × WellFormed pp'
      × SameTables pp' pp
      × IsHalfOpen side ((get_public_port_portmap pp' ipv6 tcp_number).at port)
unfolding run_segments
run_segments-keeps pp ipv6 port side [] w inside byte half h = (pp, refl, w, (refl, refl), half)
run_segments-keeps pp ipv6 port side (s ∷ ss) w inside byte half ((fin_side, no_rst), h) =
    elim (Bool-cases (has_flag s.flags tcp_flag_fin)) [
      | inl fin ↦
          let e = note_fin ((get_public_port_portmap pp ipv6 tcp_number).at port) s.dir in
          let pp1 = write_entry pp ipv6 tcp_number port e in
          let (pp2, r, w2, (a, b), o2) =
            run_segments-keeps pp1 ipv6 port side ss
              (write_entry-WellFormed pp ipv6 tcp_number port e w) inside byte (half_after fin) h in
          (
            pp2,
            rw (on_fin s.at pp ipv6 s.flags port s.dir w inside fin) r,
            w2,
            (
              a ∙ write_entry-private pp ipv6 tcp_number port e,
              b ∙ write_entry-table pp ipv6 tcp_number port e,
            ),
            o2,
          )
      | inr no_fin ↦
          let (pp2, r, w2, same, o2) =
            run_segments-keeps pp ipv6 port side ss w inside byte half h in
          (
            pp2,
            rw
                (on_other s.at pp ipv6 s.flags port s.dir w inside no_fin (no_rst no_fin)
                  (λ ack. not_two))
                r,
            w2,
            same,
            o2,
          )
    ]
  where
    half_after :
        has_flag s.flags tcp_flag_fin ≡ true
        → IsHalfOpen side (
            (get_public_port_portmap
                (write_entry pp ipv6 tcp_number port
                  (note_fin ((get_public_port_portmap pp ipv6 tcp_number).at port) s.dir))
                ipv6
                tcp_number).at
              port)
    half_after fin =
        rw (write_entry_self pp ipv6 tcp_number port, fin_side fin)
          (note_fin-IsHalfOpen side _ byte half)

    not_two : (((get_public_port_portmap pp ipv6 tcp_number).at port).fin_count == 2) ≡ false
    not_two = ground arith

note_fin_both :
    (side : ℕ) (e : PortMapEntry)
    → side ≤ 255
    → e.fin_count ≡ 0
    → (note_fin (note_fin e side) (255 - side)).fin_count ≡ 2
unfolding note_fin
note_fin_both side e byte h = ground arith

finished-address :
    (now : ℕ) (pp : PortPair) (ipv6 : Bool) (port : ℕ)
    → (finished now pp ipv6 port).public_port.translation_table tcp_number
        (make_port_addr_tuple pp.public_port ipv6 port)
      ≡ none
finished-address now pp ipv6 port =
    rw (write_entry-table (forget pp ipv6 tcp_number port) ipv6 tcp_number port)
      (forget-unmapped pp ipv6 tcp_number port)

-- A FIN of either side and then an ACK without FIN and RST end a connection that had seen no FIN:
-- nothing panics, the public endpoint is no longer mapped, and the port's entry is the one that
-- makes it wait.
pub run_segments-ends :
    (pp : PortPair) (ipv6 : Bool) (port side : ℕ) (fin1 fin2 ack : Segment)
    → WellFormed pp
    → port < port_end
    → side ≤ 255
    → ((get_public_port_portmap pp ipv6 tcp_number).at port).fin_count ≡ 0
    → (has_flag fin1.flags tcp_flag_fin ≡ true) × (fin1.dir ≡ side)
    → (has_flag fin2.flags tcp_flag_fin ≡ true) × (fin2.dir ≡ 255 - side)
    → (has_flag ack.flags tcp_flag_fin ≡ false)
      × (has_flag ack.flags tcp_flag_rst ≡ false)
      × (has_flag ack.flags tcp_flag_ack ≡ true)
    → (pp' : PortPair) × (run_segments pp ipv6 port (fin1 ∷ fin2 ∷ ack ∷ []) ≡ done pp')
      × (pp'.public_port.translation_table tcp_number
            (make_port_addr_tuple pp.public_port ipv6 port)
          ≡ none)
      × ((get_public_port_portmap pp' ipv6 tcp_number).at port ≡ waiting_entry ack.at)
unfolding run_segments
run_segments-ends pp ipv6 port side fin1 fin2 ack w inside byte none_yet (f1, d1) (f2, d2)
      (a1, a2, a3) =
    let e1 = note_fin ((get_public_port_portmap pp ipv6 tcp_number).at port) fin1.dir in
    let pp1 = write_entry pp ipv6 tcp_number port e1 in
    let w1 = write_entry-WellFormed pp ipv6 tcp_number port e1 w in
    let e2 = note_fin ((get_public_port_portmap pp1 ipv6 tcp_number).at port) fin2.dir in
    let pp2 = write_entry pp1 ipv6 tcp_number port e2 in
    let w2 = write_entry-WellFormed pp1 ipv6 tcp_number port e2 w1 in
    let two : ((get_public_port_portmap pp2 ipv6 tcp_number).at port).fin_count ≡ 2 =
      rw
        (
          write_entry_self pp1 ipv6 tcp_number port,
          write_entry_self pp ipv6 tcp_number port,
          d1,
          d2,
        )
        (note_fin_both side _ byte none_yet) in
    (
      finished ack.at pp2 ipv6 port,
      rw (
        on_fin fin1.at pp ipv6 fin1.flags port fin1.dir w inside f1,
        on_fin fin2.at pp1 ipv6 fin2.flags port fin2.dir w1 inside f2,
        on_last_ack ack.at pp2 ipv6 ack.flags port ack.dir w2 inside a1 a2 a3 two,
      ),
      rw
          (
            ← write_entry-address pp ipv6 tcp_number port e1 ipv6 port,
            ← write_entry-address pp1 ipv6 tcp_number port e2 ipv6 port,
          )
          (finished-address ack.at pp2 ipv6 port),
      write_entry_self (forget pp2 ipv6 tcp_number port) ipv6 tcp_number port
          (waiting_entry ack.at),
    )
