-- ===== src/PortAlloc/Unallocated.antt =====
-- allocNewPort for a protocol whose portmap was never made.
use nff_go_nat.Base.{
  ℕ, zero, suc, ◌-◌, ◌≤◌, ◌<◌, ◌≡◌, refl, Bool, inl, inr, ltb, ltb→lt, Bool-cases, none, done,
  panic, arith,
}
use nff_go_nat.Base.Slice.{Slice, get_out_of_range}
use nff_go_nat.Config.{PortPair, PortMapEntry, port_start, port_end}
use nff_go_nat.PortAlloc.{find_port, alloc_new_port, get_public_port_portmap}

find_port_panics :
    (now : ℕ) (pm : Slice PortMapEntry) (rounds p : ℕ)
    → pm.len ≡ 0
    → 0 < rounds
    → find_port now pm rounds p ≡ panic
unfolding find_port
find_port_panics now pm zero p e h = elim (nothing h) [ ]
  where
    nothing : 0 < 0 → ⊥
    nothing k = omega (arith, k)
find_port_panics now pm (suc n) p e h = rw (get_out_of_range pm p (omega (arith, e))) refl

find_port_done :
    (now : ℕ) (pm : Slice PortMapEntry) (rounds p : ℕ)
    → rounds ≡ 0
    → find_port now pm rounds p ≡ done none
unfolding find_port
find_port_done now pm rounds p e = rw e refl

-- If the portmap of a protocol is empty, as a nil slice is, and `lastport` is in its range: allocNewPort
-- panics, whatever the pair holds.
pub alloc_new_port_panics :
    (now : ℕ) (pp : PortPair) (ipv6 : Bool) (protocol : ℕ)
    → (get_public_port_portmap pp ipv6 protocol).len ≡ 0
    → port_start ≤ pp.lastport
    → pp.lastport ≤ port_end
    → alloc_new_port now pp ipv6 protocol ≡ panic
unfolding alloc_new_port
alloc_new_port_panics now pp ipv6 protocol e lo hi = elim (Bool-cases (ltb pp.lastport port_end)) [
  | inl below ↦
      rw
        (find_port_panics now (get_public_port_portmap pp ipv6 protocol) (port_end - pp.lastport)
          pp.lastport e (omega (arith, ltb→lt pp.lastport port_end below)))
        refl
  | inr at_end ↦
      rw
        (
          find_port_done now (get_public_port_portmap pp ipv6 protocol) (port_end - pp.lastport)
              pp.lastport (ground (arith, at_end)),
          find_port_panics now (get_public_port_portmap pp ipv6 protocol) (pp.lastport - port_start)
              port_start e (ground (arith, at_end, lo, hi)),
        )
        refl
]
