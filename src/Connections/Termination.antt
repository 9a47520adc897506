-- ===== src/Connections/Termination.antt =====
-- checkTCPTermination, branch by branch, on a pair that is well formed.
use nff_go_nat.Base.{
  ℕ, ◌-◌, ◌≤◌, ◌<◌, ◌≡◌, refl, ◌∙◌, Bool, true, false, ◌==◌, ltb, done, arith, Bool-cases, inl, inr,
  ==_iff,
}
use nff_go_nat.Base.Slice.{get_in_range}
use nff_go_nat.Config.{
  PortPair, PortMapEntry, tcp_number, port_end, connection_timeout, port_reuse_timeout,
}
use nff_go_nat.PortAlloc.{get_public_port_portmap, is_reusable}
use nff_go_nat.PortAlloc.Entries.{
  write_entry, forget, put-write_entry, delete_old_connection-forget,
}
use nff_go_nat.Connections.{
  tcp_flag_fin, tcp_flag_rst, tcp_flag_ack, has_flag, note_fin, waiting_entry, finish_connection,
  check_tcp_termination,
}
use nff_go_nat.Connections.WellFormed.{
  WellFormed, is_translated, write_entry-WellFormed, forget-WellFormed,
}

tcp_is_translated : (ipv6 : Bool) → is_translated ipv6 tcp_number ≡ true
unfolding is_translated
tcp_is_translated ipv6 = refl

pub tcp_allocated :
    (pp : PortPair) (ipv6 : Bool)
    → WellFormed pp
    → (get_public_port_portmap pp ipv6 tcp_number).len ≡ port_end
tcp_allocated pp ipv6 w = w.allocated ipv6 tcp_number ∙ rw (tcp_is_translated ipv6)

-- The pair after a last ACK.
abbrev pub finished : ℕ → PortPair → Bool → ℕ → PortPair
finished now pp ipv6 port =
    write_entry (forget pp ipv6 tcp_number port) ipv6 tcp_number port (waiting_entry now)

module _ (now : ℕ) (pp : PortPair) (ipv6 : Bool) (flags port dir : ℕ) (w : WellFormed pp)
    (inside : port < port_end) where
  abbrev entry : PortMapEntry
  entry = (get_public_port_portmap pp ipv6 tcp_number).at port

  fits : port < (get_public_port_portmap pp ipv6 tcp_number).len
  fits = rw (tcp_allocated pp ipv6 w) inside

  fits_forgotten :
      port < (get_public_port_portmap (forget pp ipv6 tcp_number port) ipv6 tcp_number).len
  fits_forgotten = rw (tcp_allocated _ ipv6 (forget-WellFormed pp ipv6 tcp_number port w)) inside

  pub on_fin :
      has_flag flags tcp_flag_fin ≡ true
      → check_tcp_termination now pp ipv6 flags port dir
        ≡ done (
            write_entry pp ipv6 tcp_number port
              (note_fin ((get_public_port_portmap pp ipv6 tcp_number).at port) dir))
  unfolding check_tcp_termination
  on_fin fin =
      rw (fin, get_in_range (get_public_port_portmap pp ipv6 tcp_number) port fits)
        (put-write_entry pp ipv6 tcp_number port (note_fin entry dir) fits)

  pub on_rst :
      has_flag flags tcp_flag_fin ≡ false
      → has_flag flags tcp_flag_rst ≡ true
      → check_tcp_termination now pp ipv6 flags port dir ≡ done (forget pp ipv6 tcp_number port)
  unfolding check_tcp_termination
  on_rst no_fin rst = rw (no_fin, rst) (delete_old_connection-forget pp ipv6 tcp_number port fits)

  finish_lem : finish_connection now pp ipv6 port ≡ done (finished now pp ipv6 port)
  unfolding finish_connection
  finish_lem =
      rw (delete_old_connection-forget pp ipv6 tcp_number port fits)
        (put-write_entry _ ipv6 tcp_number port (waiting_entry now) fits_forgotten)

  pub on_last_ack :
      has_flag flags tcp_flag_fin ≡ false
      → has_flag flags tcp_flag_rst ≡ false
      → has_flag flags tcp_flag_ack ≡ true
      → ((get_public_port_portmap pp ipv6 tcp_number).at port).fin_count ≡ 2
      → check_tcp_termination now pp ipv6 flags port dir ≡ done (finished now pp ipv6 port)
  unfolding check_tcp_termination
  on_last_ack no_fin no_rst ack both =
      rw
        (
          no_fin,
          no_rst,
          ack,
          get_in_range (get_public_port_portmap pp ipv6 tcp_number) port fits,
          (==_iff entry.fin_count 2).1 both,
        )
        finish_lem

  -- All other segments change nothing.
  pub on_other :
      has_flag flags tcp_flag_fin ≡ false
      → has_flag flags tcp_flag_rst ≡ false
      → (has_flag flags tcp_flag_ack ≡ true
          → (((get_public_port_portmap pp ipv6 tcp_number).at port).fin_count == 2) ≡ false)
      → check_tcp_termination now pp ipv6 flags port dir ≡ done pp
  unfolding check_tcp_termination
  on_other no_fin no_rst open_yet = elim (Bool-cases (has_flag flags tcp_flag_ack)) [
    | inl ack ↦ rw (
      no_fin,
      no_rst,
      ack,
      get_in_range (get_public_port_portmap pp ipv6 tcp_number) port fits,
      open_yet ack,
    )
    | inr no_ack ↦ rw (no_fin, no_rst, no_ack)
  ]

  -- Whatever the flags, checkTCPTermination does not panic on a port inside the portmap, and keeps
  -- the pair well formed.
  pub check_tcp_termination-WellFormed :
      (pp' : PortPair) × (check_tcp_termination now pp ipv6 flags port dir ≡ done pp')
      × WellFormed pp'
  check_tcp_termination-WellFormed = elim (Bool-cases (has_flag flags tcp_flag_fin)) [
    | inl fin ↦ (
      write_entry pp ipv6 tcp_number port (note_fin entry dir),
      on_fin fin,
      write_entry-WellFormed pp ipv6 tcp_number port _ w,
    )
    | inr no_fin ↦ elim (Bool-cases (has_flag flags tcp_flag_rst)) [
      | inl rst ↦ (
        forget pp ipv6 tcp_number port,
        on_rst no_fin rst,
        forget-WellFormed pp ipv6 tcp_number port w,
      )
      | inr no_rst ↦ elim (Bool-cases (entry.fin_count == 2)) [
        | inl both ↦ elim (Bool-cases (has_flag flags tcp_flag_ack)) [
          | inl ack ↦ (
            finished now pp ipv6 port,
            on_last_ack no_fin no_rst ack ((==_iff entry.fin_count 2).0 both),
            write_entry-WellFormed _ ipv6 tcp_number port (waiting_entry now)
                (forget-WellFormed pp ipv6 tcp_number port w),
          )
          | inr no_ack ↦ (pp, on_other no_fin no_rst (λ ack. cc), w)
        ]
        | inr one ↦ (pp, on_other no_fin no_rst (λ ack. one), w)
      ]
    ]
  ]

-- A port whose connection was closed by both sides can be taken again after portReuseTimeout.
pub waiting_entry-reusable :
    (now later : ℕ)
    → connection_timeout ≤ now
    → is_reusable later (waiting_entry now) ≡ ltb port_reuse_timeout (later - now)
unfolding is_reusable
waiting_entry-reusable now later h = ground arith
