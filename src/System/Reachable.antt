-- ===== src/System/Reachable.antt =====
-- What holds in every reachable state of a running translator.
use nff_go_nat.Base.{
  ℕ, ◌≡◌, subst, false, some, List, [], ◌∷◌, ◌++◌, map, All, Outcome, done, Returns,
}
use nff_go_nat.Nff.{Nff}
use nff_go_nat.Net.{Endpoint}
use nff_go_nat.Config.{PortPair}
use nff_go_nat.Connections.Links.{is_zero, LeadsBack-injective}
use nff_go_nat.Connections.WellFormed.{WellFormed}
use nff_go_nat.Setup.{init_state}
use nff_go_nat.Setup.Fresh.{init_state-WellFormed}
use nff_go_nat.Packets.{Packet}
use nff_go_nat.Machine.{St}
use nff_go_nat.Kernel.{Kernel}
use nff_go_nat.Control.Replacing.{IsTyped, IsSound}
use nff_go_nat.Translation.Entries.{KeptWith}
use nff_go_nat.Translation.Delivery.{public_to_private_translation_lem}
use nff_go_nat.Translation.Masquerade.{private_to_public_translation_lem}
use nff_go_nat.Server.{ServerState, handle_port_forwarding}
use nff_go_nat.Server.Address.{change_interface_address}
use nff_go_nat.Server.RuleChanges.{handle_port_forwarding-AllSound}
use nff_go_nat.Server.AddressChanges.{change_interface_address-AllSound}
use nff_go_nat.System.{
  with_pairs, started, Step, from_public, from_private, rule_changed, address_changed, Reach, here,
  next,
}

abbrev pub AllWellFormed : ServerState → Type 0
AllWellFormed st = All WellFormed st.config.port_pairs

returned : {A : Type 0} (P : A → Type 0) (o : Outcome A) (a : A) → Returns P o → o ≡ done a → P a
returned P o a h e = subst (Returns P) e h

left-WellFormed :
    (X : Packet → PortPair → Type 0) (o : Outcome ((ℕ × Packet) × St)) (r : ℕ × Packet) (s' : St)
    → Returns (λ x. KeptWith X x.0 x.1.pp) o
    → o ≡ done (r, s')
    → WellFormed s'.pp
left-WellFormed X o r s' h e = (returned (λ x. KeptWith X x.0 x.1.pp) o (r, s') h e).0

All-IsSound : (pps : List PortPair) → All WellFormed pps → All IsTyped pps → All IsSound pps
All-IsSound [] w t = tt
All-IsSound (pp ∷ pps) (w, ws) (t, ts) = ((w, t), All-IsSound pps ws ts)

All-WellFormed : (pps : List PortPair) → All IsSound pps → All WellFormed pps
All-WellFormed [] h = tt
All-WellFormed (pp ∷ pps) (h, hs) = (h.0, All-WellFormed pps hs)

module _ (P : PortPair → Type 0) where
  All-at :
      (before : List PortPair) (pp : PortPair) (after : List PortPair)
      → All P (before ++ (pp ∷ after))
      → P pp
  All-at [] pp after h = h.0
  All-at (x ∷ before) pp after h = All-at before pp after h.1

  All-replace :
      (before : List PortPair) (pp pp' : PortPair) (after : List PortPair)
      → All P (before ++ (pp ∷ after))
      → P pp'
      → All P (before ++ (pp' ∷ after))
  All-replace [] pp pp' after h k = (k, h.1)
  All-replace (x ∷ before) pp pp' after h k = (h.0, All-replace before pp pp' after h.1 k)

started-AllWellFormed : (nff : Nff) (st : ServerState) → AllWellFormed (started nff st)
unfolding started with_pairs
started-AllWellFormed nff st = every st.config.port_pairs
  where
    every : (pps : List PortPair) → All WellFormed (map (init_state nff) pps)
    every [] = tt
    every (pp ∷ pps) = (init_state-WellFormed nff pp, every pps)

module _ (nff : Nff) (kernel : Kernel) where
  Step-AllWellFormed :
      (st st' : ServerState) → Step nff kernel st st' → AllWellFormed st → AllWellFormed st'
  unfolding with_pairs
  Step-AllWellFormed st st' (from_public env before after pkt ip l4 s s' r e l3 tr acq run e') w =
      let w' = subst (All WellFormed) e w in
      let handled =
        public_to_private_translation_lem env pkt ip l4 s l3 tr
          (All-at WellFormed before s.pp after w') acq in
      rw e'
        (All-replace WellFormed before s.pp s'.pp after w' (left-WellFormed _ _ r s' handled run))
  Step-AllWellFormed st st'
        (from_private env before after pkt ip l4 s s' r e l3 tr acq no_kni run e') w =
      let w' = subst (All WellFormed) e w in
      let handled =
        private_to_public_translation_lem env pkt ip l4 s l3 tr
          (All-at WellFormed before s.pp after w') acq no_kni in
      rw e'
        (All-replace WellFormed before s.pp s'.pp after w' (left-WellFormed _ _ r s' handled run))
  Step-AllWellFormed st st' (rule_changed now request reply types inside long run) w =
      All-WellFormed st'.config.port_pairs (
        returned (λ x. All IsSound x.1.config.port_pairs)
          (handle_port_forwarding nff now request st) (reply, st')
          (handle_port_forwarding-AllSound nff now request st
            (All-IsSound st.config.port_pairs w types) inside long)
          run)
  Step-AllWellFormed st st' (address_changed request reply types long run) w =
      All-WellFormed st'.config.port_pairs (
        returned (λ x. All IsSound x.1.config.port_pairs)
          (change_interface_address nff kernel request st) (reply, st')
          (change_interface_address-AllSound nff kernel request st
            (All-IsSound st.config.port_pairs w types) long)
          run)

  Reach-AllWellFormed :
      (st st' : ServerState) → Reach nff kernel st st' → AllWellFormed st → AllWellFormed st'
  Reach-AllWellFormed st st' here w = w
  Reach-AllWellFormed st st' (next {t} r step) w =
      Step-AllWellFormed t st' step (Reach-AllWellFormed st t r w)

  -- Start the pairs of any configuration without rules, and let the steps of System.Step follow each
  -- other in any order and number: packets of a protocol that is translated in their family, on a port
  -- whose address is known, other than ICMP from a private port with a KNI interface; and, while the
  -- ports have their types, requests whose address is nil or has at least four bytes, for a rule or
  -- an address, a rule's source port being below portEnd. In every state that is reached, every pair
  -- is well formed, and no two private endpoints are translated to one public endpoint of the same
  -- protocol: if two keys of the private table have the same value, other than a KNI interface's zero
  -- address, they are the same key, and the public table leads from that value back to it.
  pub Reach-private_keys :
      (st st' : ServerState) (before after : List PortPair) (pp : PortPair)
      → Reach nff kernel (started nff st) st'
      → st'.config.port_pairs ≡ before ++ (pp ∷ after)
      → WellFormed pp
        × ((protocol : ℕ) (k k' q : Endpoint)
            → pp.private_port.translation_table protocol k ≡ some q
            → pp.private_port.translation_table protocol k' ≡ some q
            → is_zero q ≡ false
            → (k ≡ k') × (pp.public_port.translation_table protocol q ≡ some k))
  Reach-private_keys st st' before after pp r e = (w, unique)
    where
      w : WellFormed pp
      w = All-at WellFormed before pp after (
          subst (All WellFormed) e
            (Reach-AllWellFormed (started nff st) st' r (started-AllWellFormed nff st)))

      unique :
          (protocol : ℕ) (k k' q : Endpoint)
          → pp.private_port.translation_table protocol k ≡ some q
          → pp.private_port.translation_table protocol k' ≡ some q
          → is_zero q ≡ false
          → (k ≡ k') × (pp.public_port.translation_table protocol q ≡ some k)
      unique protocol k k' q a b z = (
        LeadsBack-injective _ _ protocol k k' q w.leads_back a b z,
        w.leads_back protocol k q a z,
      )
