-- ===== src/PortAlloc/Allocation.antt =====
-- allocNewPort as a whole: it answers with the next port that can be reused, going round.
use nff_go_nat.Base.{
  ℕ, ◌-◌, ◌≤◌, ◌<◌, ◌≡◌, ◌⊎◌, inl, inr, Bool, true, Option, none, some, done, ◌∙◌, arith,
  Bool-cases, ltb, ltb→lt,
}
use nff_go_nat.Base.Slice.{Slice}
use nff_go_nat.Config.{PortPair, PortMapEntry, port_start, port_end}
use nff_go_nat.PortAlloc.{
  is_reusable, find_port, take_port, alloc_new_port, get_public_port_portmap,
}
use nff_go_nat.PortAlloc.Entries.{forget, delete_old_connection-forget}
use nff_go_nat.PortAlloc.Search.{AllBusy, IsFirst, find_port-IsFirst}

-- The port that a search from `last`, going round at `port_end`, meets first.
pub record IsNext (now : ℕ) (pm : Slice PortMapEntry) (last p : ℕ) : Type 0 where
  pub from_start : port_start ≤ p
  pub below_end : p < port_end
  pub reusable : is_reusable now (pm.at p) ≡ true
  pub first :
      ((last ≤ p) × AllBusy now pm last p)
      ⊎ ((p < last) × AllBusy now pm last port_end × AllBusy now pm port_start p)

-- Either no port at all can be reused, and the error is returned; or the next one is taken, and its
-- old connection forgotten.
abbrev pub AllocatesNext : ℕ → PortPair → Bool → ℕ → Type 0
AllocatesNext now pp ipv6 protocol =
    ((alloc_new_port now pp ipv6 protocol ≡ done none)
      × AllBusy now (get_public_port_portmap pp ipv6 protocol) port_start port_end)
    ⊎ ((p : ℕ) × (alloc_new_port now pp ipv6 protocol
          ≡ done (some (p, forget (record pp { lastport = p }) ipv6 protocol p)))
        × IsNext now (get_public_port_portmap pp ipv6 protocol) pp.lastport p)

join :
    (now : ℕ) (pm : Slice PortMapEntry) (lo mid hi : ℕ)
    → AllBusy now pm lo mid
    → AllBusy now pm mid hi
    → AllBusy now pm lo hi
join now pm lo mid hi low high i from to = elim (Bool-cases (ltb i mid)) [
  | inl e ↦ low i from (ltb→lt i mid e)
  | inr e ↦ high i (ground arith) to
]

module _ (now : ℕ) (pp : PortPair) (ipv6 : Bool) (protocol : ℕ)
    (allocated : (get_public_port_portmap pp ipv6 protocol).len ≡ port_end)
    (lower : port_start ≤ pp.lastport) (upper : pp.lastport ≤ port_end) where
  abbrev pm : Slice PortMapEntry
  pm = get_public_port_portmap pp ipv6 protocol

  abbrev Answer : Type 0
  Answer =
      ((alloc_new_port now pp ipv6 protocol ≡ done none) × AllBusy now pm port_start port_end)
      ⊎ ((p : ℕ) × (alloc_new_port now pp ipv6 protocol ≡ take_port pp ipv6 protocol p)
          × IsNext now pm pp.lastport p)

  alloc_new_port_cases : Answer
  unfolding alloc_new_port
  alloc_new_port_cases = from_up up.0 up.1 up.2
    where
      up :
          (r : Option ℕ) × (find_port now pm (port_end - pp.lastport) pp.lastport ≡ done r)
          × IsFirst now pm pp.lastport port_end r
      up = find_port-IsFirst now pm _ pp.lastport port_end (omega arith) (omega arith)

      down :
          (r : Option ℕ) × (find_port now pm (pp.lastport - port_start) port_start ≡ done r)
          × IsFirst now pm port_start pp.lastport r
      down = find_port-IsFirst now pm _ port_start pp.lastport (omega arith) (omega arith)

      from_down :
          (r : Option ℕ)
          → find_port now pm (pp.lastport - port_start) port_start ≡ done r
          → IsFirst now pm port_start pp.lastport r
          → find_port now pm (port_end - pp.lastport) pp.lastport ≡ done none
          → AllBusy now pm pp.lastport port_end
          → Answer
      from_down none e low e' high =
          inl (rw (e', e), join now pm port_start pp.lastport port_end low high)
      from_down (some p) e (a, b, free, low) e' high = inr (
        p,
        rw (e', e),
        record {
          from_start = a;
          below_end = omega arith;
          reusable = free;
          first = inr (b, high, low);
        },
      )

      from_up :
          (r : Option ℕ)
          → find_port now pm (port_end - pp.lastport) pp.lastport ≡ done r
          → IsFirst now pm pp.lastport port_end r
          → Answer
      from_up none e high = from_down down.0 down.1 down.2 e high
      from_up (some p) e (a, b, free, busy) = inr (
        p,
        rw e,
        record { from_start = omega arith; below_end = b; reusable = free; first = inl (a, busy) },
      )

  take_port-forget :
      (p : ℕ)
      → p < port_end
      → take_port pp ipv6 protocol p
        ≡ done (some (p, forget (record pp { lastport = p }) ipv6 protocol p))
  unfolding take_port get_public_port_portmap
  take_port-forget p h =
      rw (delete_old_connection-forget (record pp { lastport = p }) ipv6 protocol p (omega arith))

  -- For a protocol whose portmap is allocated, allocNewPort never panics. Either no port from
  -- `portStart` up to `portEnd` can be reused, and it returns the error; or it returns the port that
  -- a search from `lastport`, going round at `portEnd`, meets first, and leaves the pair with
  -- `lastport` at that port and the port's old connection forgotten.
  pub alloc_new_port_lem : AllocatesNext now pp ipv6 protocol
  alloc_new_port_lem = elim alloc_new_port_cases [
    | inl busy ↦ inl busy
    | inr (p, e, next) ↦ inr (p, e ∙ take_port-forget p next.below_end, next)
  ]
