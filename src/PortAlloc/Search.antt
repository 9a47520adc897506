-- ===== src/PortAlloc/Search.antt =====
-- The port search of allocNewPort: which port it stops at, and that it stops.
use nff_go_nat.Base.{
  ℕ, zero, suc, ◌+◌, ◌≤◌, ◌<◌, ◌≡◌, refl, ◌⊎◌, inl, inr, true, false, Bool-cases, Option, none,
  some, done, arith,
}
use nff_go_nat.Base.Slice.{Slice, get_in_range}
use nff_go_nat.Config.{PortMapEntry}
use nff_go_nat.PortAlloc.{is_reusable, find_port}

-- No port from `lo` on and below `hi` can be reused.
abbrev pub AllBusy : ℕ → Slice PortMapEntry → ℕ → ℕ → Type 0
AllBusy now pm lo hi = (i : ℕ) → lo ≤ i → i < hi → is_reusable now (pm.at i) ≡ false

-- The answer of a search from `lo` up to `hi`: the first port that can be reused, if any.
abbrev pub IsFirst : ℕ → Slice PortMapEntry → ℕ → ℕ → Option ℕ → Type 0
IsFirst now pm lo hi none = AllBusy now pm lo hi
IsFirst now pm lo hi (some q) =
    (lo ≤ q) × (q < hi) × (is_reusable now (pm.at q) ≡ true) × AllBusy now pm lo q

AllBusy-extend :
    (now : ℕ) (pm : Slice PortMapEntry) (lo hi : ℕ)
    → is_reusable now (pm.at lo) ≡ false
    → AllBusy now pm (lo + 1) hi
    → AllBusy now pm lo hi
AllBusy-extend now pm lo hi e h i from to = elim (split lo i from) [
  | inl here ↦ rw (← here) e
  | inr later ↦ h i later to
]
  where
    split : (lo i : ℕ) → lo ≤ i → (lo ≡ i) ⊎ (lo + 1 ≤ i)
    split lo i h = grind arith

IsFirst-extend :
    (now : ℕ) (pm : Slice PortMapEntry) (lo hi : ℕ) (r : Option ℕ)
    → is_reusable now (pm.at lo) ≡ false
    → IsFirst now pm (lo + 1) hi r
    → IsFirst now pm lo hi r
IsFirst-extend now pm lo hi none e h = AllBusy-extend now pm lo hi e h
IsFirst-extend now pm lo hi (some q) e (a, b, c, d) =
    (omega arith, b, c, AllBusy-extend now pm lo q e d)

-- A search inside the slice never panics, and answers with the first port that can be reused.
pub find_port-IsFirst :
    (now : ℕ) (pm : Slice PortMapEntry) (rounds lo hi : ℕ)
    → lo + rounds ≡ hi
    → hi ≤ pm.len
    → (r : Option ℕ) × (find_port now pm rounds lo ≡ done r) × IsFirst now pm lo hi r
unfolding find_port
find_port-IsFirst now pm zero lo hi e fits = (none, refl, λ i from to. absurd (omega arith))
find_port-IsFirst now pm (suc rounds) lo hi e fits =
    elim (Bool-cases (is_reusable now (pm.at lo))) [
      | inl free ↦ (
        some lo,
        ground (arith, get_in_range pm lo),
        (omega arith, omega arith, free, λ i from to. absurd (omega arith)),
      )
      | inr busy ↦
          let (r, found, first) = find_port-IsFirst now pm rounds (lo + 1) hi (omega arith) fits in
          (r, ground (arith, get_in_range pm lo), IsFirst-extend now pm lo hi r busy first)
    ]
