-- ===== src/Flows.antt =====
-- The flow graph that InitFlows of nat/config.go builds for a port pair, as the list of its calls of
-- nff-go's package flow. A flow is the number that it gets when a call makes it.
pub mod Routes
use nff_go_nat.Base.{
  ℕ, ◌+◌, Bool, true, false, if◌then◌else◌, Option, none, some, List, [], ◌∷◌, ◌++◌,
}
use nff_go_nat.Config.{
  PortPair, InterfaceType, i_public, i_private, has_kni, dir_drop, dir_send, dir_kni,
}

abbrev pub Flow : Type 0
Flow = ℕ

-- The calls, with the flows that they take and make. A splitter makes one flow for each direction that
-- its handler answers with, numbered from its first one. A KNI device goes by the side of its port.
pub data Call : Type 0 where
  set_receiver : ℕ → Flow → Call
  set_splitter : InterfaceType → Flow → Flow → ℕ → Call
  set_stopper : Flow → Call
  create_kni_device : InterfaceType → ℕ → Call
  set_sender_kni : Flow → InterfaceType → Call
  set_receiver_kni : InterfaceType → Flow → Call
  set_merger : Flow → Flow → Flow → Call
  set_sender : Flow → ℕ → Call

pub record Graph : Type 0 where
  pub next : Flow
  pub calls : List Call

abbrev pub G : Type 0 → Type 0
G A = Graph → A × Graph

infixl 5 ◌>>=◌ ◌>>◌
abbrev pub ◌>>=◌ : {A B : Type 0} → G A → (A → G B) → G B
◌>>=◌ m f g = let (a, g') = m g in f a g'

abbrev pub ◌>>◌ : {B : Type 0} → G (Unit {0}) → G B → G B
m >> k = m >>= λ _. k

abbrev pub return : {A : Type 0} → A → G A
return a g = (a, g)

-- A call that makes `n` flows, and gives the first of them.
abbrev pub making : ℕ → (Flow → Call) → G Flow
making n call g = (g.next, record { next = g.next + n; calls = g.calls ++ (call g.next ∷ []) })

abbrev pub calling : Call → G (Unit {0})
calling call g = (tt, record g { calls = g.calls ++ (call ∷ []) })

-- The receiver and the splitter of one port, by its index and whether it has a KNI interface: the
-- first of the flows for the directions, of which there is a third with a KNI interface.
unfoldable pub split_received : InterfaceType → Bool → ℕ → G Flow
split_received side kni index = do
  received ← making 1 (set_receiver index)
  out ←
      making (if kni then 3 else 2)
        (λ first. set_splitter side received first (if kni then 3 else 2))
  calling (set_stopper (out + dir_drop))
  return out

-- The KNI device of a port, if it has one: the flow that comes from it.
unfoldable pub init_kni : InterfaceType → Bool → ℕ → Flow → G (Option Flow)
init_kni side false index out = return none
init_kni side true index out = do
  calling (create_kni_device side index)
  calling (set_sender_kni (out + dir_kni) side)
  from_kni ← making 1 (set_receiver_kni side)
  return (some from_kni)

-- What is sent out of a port: what comes from its KNI device, merged with the translated packets.
unfoldable pub merge : Option Flow → Flow → G Flow
merge none translated = return translated
merge (some from_kni) translated = making 1 (set_merger from_kni translated)

-- The body of the loop of InitFlows from the receiver of the public port on.
unfoldable pub init_flows : Bool → ℕ → Bool → ℕ → G (Unit {0})
unfolding split_received init_kni merge
init_flows pub_kni pub_index priv_kni priv_index = do
  pub_out ← split_received i_public pub_kni pub_index
  from_pub_kni ← init_kni i_public pub_kni pub_index pub_out
  priv_out ← split_received i_private priv_kni priv_index
  from_priv_kni ← init_kni i_private priv_kni priv_index priv_out
  to_pub ← merge from_pub_kni (priv_out + dir_send)
  to_priv ← merge from_priv_kni (pub_out + dir_send)
  calling (set_sender to_priv priv_index)
  calling (set_sender to_pub pub_index)

abbrev pub empty_graph : Graph
empty_graph = record { next = 0; calls = [] }

unfoldable pub graph_of : Bool → ℕ → Bool → ℕ → Graph
unfolding init_flows
graph_of pub_kni pub_index priv_kni priv_index =
    (init_flows pub_kni pub_index priv_kni priv_index empty_graph).1

unfoldable pub flow_graph : PortPair → Graph
unfolding graph_of has_kni
flow_graph pp =
    graph_of (has_kni pp.public_port) pp.public_port.index (has_kni pp.private_port)
      pp.private_port.index
