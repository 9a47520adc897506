-- ===== src/Server/Lookup.antt =====
-- Which port getPortAndPairByID finds.
use nff_go_nat.Base.{
  ℕ, ◌≡◌, refl, ap, Bool, true, false, ◌==◌, Option, none, some, List, [], ◌∷◌, ◌++◌, All,
  if◌then◌else◌, ==_iff,
}
use nff_go_nat.Config.{PortPair, i_public, i_private}
use nff_go_nat.Machine.{port_at}
use nff_go_nat.Server.{Found, found_port, later_pair, get_port_and_pair_by_id}

-- Neither port of the pair has the index.
abbrev pub Lacks : ℕ → PortPair → Type 0
Lacks port_id pp =
    ((pp.public_port.index == port_id) ≡ false) × ((pp.private_port.index == port_id) ≡ false)

-- The port has the index, and is the first: no pair before it has, and the private port of its pair is
-- found only if the public one has another index.
pub record IsFirst (pps : List PortPair) (port_id : ℕ) (f : Found) : Type 0 where
  pub place : pps ≡ f.before ++ (f.pair ∷ f.after)
  pub index : (found_port f).index ≡ port_id
  pub earlier : All (Lacks port_id) f.before
  pub public_first : f.side ≡ i_private → (f.pair.public_port.index == port_id) ≡ false

abbrev pub Finds : List PortPair → ℕ → Option Found → Type 0
Finds pps port_id none = All (Lacks port_id) pps
Finds pps port_id (some f) = IsFirst pps port_id f

Finds-later :
    (pp : PortPair) (pps : List PortPair) (port_id : ℕ) (o : Option Found)
    → Lacks port_id pp
    → Finds pps port_id o
    → Finds (pp ∷ pps) port_id (later_pair pp o)
unfolding later_pair found_port
Finds-later pp pps port_id none l h = (l, h)
Finds-later pp pps port_id (some f) l h = record {
  place = ap (◌∷◌ pp) h.place;
  index = h.index;
  earlier = (l, h.earlier);
  public_first = h.public_first;
}

Finds-pair :
    (pp : PortPair) (pps : List PortPair) (port_id : ℕ) (o : Option Found) (b c : Bool)
    → (pp.public_port.index == port_id) ≡ b
    → (pp.private_port.index == port_id) ≡ c
    → Finds pps port_id o
    → Finds (pp ∷ pps) port_id (
        if b
        then some (record { before = []; pair = pp; side = i_public; after = pps })
        else if c
        then some (record { before = []; pair = pp; side = i_private; after = pps })
        else later_pair pp o)
unfolding found_port port_at
Finds-pair pp pps port_id o true c e e' h = record {
  place = refl;
  index = (==_iff pp.public_port.index port_id).0 e;
  earlier = tt;
  public_first = λ q. absurd (cc);
}
Finds-pair pp pps port_id o false true e e' h = record {
  place = refl;
  index = (==_iff pp.private_port.index port_id).0 e';
  earlier = tt;
  public_first = λ q. e;
}
Finds-pair pp pps port_id o false false e e' h = Finds-later pp pps port_id o (e, e') h

-- getPortAndPairByID returns the first port of the configuration that has the index, with its pair, the
-- public port of a pair coming before the private one; it returns nil exactly if no port has it.
pub get_port_and_pair_by_id_lem :
    (pps : List PortPair) (port_id : ℕ) → Finds pps port_id (get_port_and_pair_by_id pps port_id)
unfolding get_port_and_pair_by_id
get_port_and_pair_by_id_lem [] port_id = tt
get_port_and_pair_by_id_lem (pp ∷ pps) port_id =
    Finds-pair pp pps port_id (get_port_and_pair_by_id pps port_id) _ _ refl refl
      (get_port_and_pair_by_id_lem pps port_id)
