-- ===== src/RequestLoop/Rounds.antt =====
-- What a round of requests does to a pair.
use nff_go_nat.Base.{◌≡◌, refl, ap, ◌∙◌, Bool, List}
use nff_go_nat.Config.{IpPort, PortPair, InterfaceType, i_public, i_private}
use nff_go_nat.Machine.{Env, Event, St, port_at, set_port}
use nff_go_nat.Machine.Posts.{Ensures, Ensures-bind, Ensures-weaken}
use nff_go_nat.RequestLoop.{Draws, request_ipv4, request_ipv6, request_port, request_pair}
use nff_go_nat.RequestLoop.Sending.{asked4, asked6, set_port_twice}
use nff_go_nat.RequestLoop.Ipv4Part.{Asked4, request_ipv4-Asked}
use nff_go_nat.RequestLoop.Ipv6Part.{request_ipv6-Asked}

-- A port after its turn, with what is noted of the KNI interface for either family.
abbrev pub asked : Draws → InterfaceType → Bool → Bool → IpPort → IpPort
asked draws side k k6 port = asked6 (draws.xid6 side) k6 (asked4 (draws.xid side) k port)

abbrev pub AskedOn : Draws → InterfaceType → PortPair → PortPair → Type 0
AskedOn draws side pp pp' =
    (k : Bool) × (k6 : Bool) × (pp' ≡ set_port side pp (asked draws side k k6 (port_at side pp)))

-- A pair after the turns of both its ports.
abbrev pub RoundOf : Draws → PortPair → PortPair → Type 0
RoundOf draws pp pp' =
    (k : Bool) × (k6 : Bool) × (l : Bool) × (l6 : Bool) × (pp' ≡ record pp {
      public_port = asked draws i_public k k6 pp.public_port;
      private_port = asked draws i_private l l6 pp.private_port;
    })

both_sides :
    (draws : Draws) (p q r : PortPair)
    → AskedOn draws i_public p q
    → AskedOn draws i_private q r
    → RoundOf draws p r
unfolding set_port port_at
both_sides draws p q r (k, k6, e) (l, l6, e') = (k, k6, l, l6, e' ∙ rw e refl)

module _ (env : Env) (set_kni_ip : Bool) (links : List Event → Event → Bool) (draws : Draws) where
  request_port-AskedOn :
      (side : InterfaceType) (s : St)
      → Ensures
          (λ _ pp. AskedOn draws side s.pp pp)
          (request_port env set_kni_ip links draws side)
          s
  unfolding request_port
  request_port-AskedOn side s =
      Ensures-bind (λ _ pp. Asked4 env set_kni_ip links side s (draws.xid side) pp)
        (λ _ pp. AskedOn draws side s.pp pp) s
        (request_ipv4 env set_kni_ip links side (draws.xid side)) _
        (request_ipv4-Asked env set_kni_ip links side s (draws.xid side))
        (λ a s' asked_4.
          Ensures-weaken (λ _ pp. AskedOn draws side s.pp pp) s' _
            (request_ipv6 env set_kni_ip links side (draws.xid6 side) (draws.iaid side))
            (request_ipv6-Asked env set_kni_ip links side s' (draws.xid6 side) (draws.iaid side))
            (λ b pp asked_6. (
              asked_4.0,
              asked_6.0,
              asked_6.1
                  ∙ (ap (λ p. set_port side p (asked6 (draws.xid6 side) asked_6.0 (port_at side p)))
                        asked_4.1
                      ∙ set_port_twice side s.pp _ (asked6 (draws.xid6 side) asked_6.0)),
            )))

  -- A round of sendDHCPRequests for a pair does not panic, whatever the kernel answers. On either port
  -- and in either family: without an address, the client's state becomes that of a new transaction
  -- whose last packet is a discover or a solicit message; with one, the client's state stays, and at
  -- most the note changes whether the KNI interface has the address. All else in the pair, its
  -- addresses, tables and portmaps among it, is as before.
  pub request_pair-RoundOf :
      (s : St) → Ensures (λ _ pp. RoundOf draws s.pp pp) (request_pair env set_kni_ip links draws) s
  unfolding request_pair
  request_pair-RoundOf s =
      Ensures-bind (λ _ pp. AskedOn draws i_public s.pp pp) (λ _ pp. RoundOf draws s.pp pp) s
        (request_port env set_kni_ip links draws i_public) _ (request_port-AskedOn i_public s)
        (λ a s' first.
          Ensures-weaken (λ _ pp. RoundOf draws s.pp pp) s' _
            (request_port env set_kni_ip links draws i_private) (request_port-AskedOn i_private s')
            (λ b pp second. both_sides draws s.pp s'.pp pp first second))
