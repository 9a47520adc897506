-- ===== src/Server/Pairs.antt =====
-- The invariant of all pairs of the configuration, and a change of the pair that a lookup finds.
use nff_go_nat.Base.{
  ℕ, ◌≤◌, ◌≡◌, subst, Option, none, some, List, [], ◌∷◌, ◌++◌, All, length, Returns, arith,
}
use nff_go_nat.Nff.{Nff}
use nff_go_nat.Config.{PortPair}
use nff_go_nat.Dhcp.{convert_ipv4}
use nff_go_nat.Control.Replacing.{IsSound}
use nff_go_nat.Server.{ServerState, Found, put_back, get_port_and_pair_by_id}
use nff_go_nat.Server.Lookup.{Finds, get_port_and_pair_by_id_lem}

abbrev pub AllSound : ServerState → Type 0
AllSound st = All IsSound st.config.port_pairs

-- A slice that convertIPv4 takes or refuses, rather than reading outside of it.
abbrev pub IsLongEnough : Option (List ℕ) → Type 0
IsLongEnough none = Unit
IsLongEnough (some bytes) = 4 ≤ length bytes

pub convert_ipv4-Returns :
    (nff : Nff) (o : Option (List ℕ)) → IsLongEnough o → Returns (λ _. Unit) (convert_ipv4 nff o)
unfolding convert_ipv4
convert_ipv4-Returns nff none h = tt
convert_ipv4-Returns nff (some []) h = absurd (omega arith)
convert_ipv4-Returns nff (some (a ∷ [])) h = absurd (omega arith)
convert_ipv4-Returns nff (some (a ∷ b ∷ [])) h = absurd (omega arith)
convert_ipv4-Returns nff (some (a ∷ b ∷ c ∷ [])) h = absurd (omega arith)
convert_ipv4-Returns nff (some (a ∷ b ∷ c ∷ d ∷ [])) h = tt
convert_ipv4-Returns nff (some (a ∷ b ∷ c ∷ d ∷ e ∷ rest)) h = tt

module _ (P : PortPair → Type 0) where
  All-middle :
      (before : List PortPair) (pp : PortPair) (after : List PortPair)
      → All P (before ++ (pp ∷ after))
      → P pp × ((pp' : PortPair) → P pp' → All P (before ++ (pp' ∷ after)))
  All-middle [] pp after (h, hs) = (h, λ pp' h'. (h', hs))
  All-middle (x ∷ before) pp after (h, hs) =
      let (here, there) = All-middle before pp after hs in (here, λ pp' h'. (h, there pp' h'))

  -- The pair that a lookup finds, and the pairs after a change of it.
  pub found-All :
      (pps : List PortPair) (port_id : ℕ) (f : Found)
      → get_port_and_pair_by_id pps port_id ≡ some f
      → All P pps
      → P f.pair × ((pp' : PortPair) → P pp' → All P (put_back f pp'))
  unfolding put_back
  found-All pps port_id f e h = All-middle f.before f.pair f.after (
      subst (All P) (subst (Finds pps port_id) e (get_port_and_pair_by_id_lem pps port_id)).place h)
