-- ===== src/Flows/Routes.antt =====
-- Where the flows of a pair end.
use nff_go_nat.Base.{
  ℕ, zero, suc, ◌+◌, ◌≡◌, refl, Bool, true, false, ◌==◌, ◌&&◌, ◌||◌, ltb, if◌then◌else◌, Option,
  none, some, List, [], ◌∷◌, length,
}
use nff_go_nat.Config.{
  PortPair, InterfaceType, i_public, i_private, has_kni, dir_drop, dir_send, dir_kni,
}
use nff_go_nat.Flows.{
  Flow, Call, set_receiver, set_splitter, set_stopper, create_kni_device, set_sender_kni,
  set_receiver_kni, set_merger, set_sender, Graph, graph_of, flow_graph,
}

-- The end of a flow.
pub data End : Type 0 where
  stopped : End
  sent_to : ℕ → End
  to_kni : InterfaceType → End

-- How a call takes a flow: as its end, or on into another flow.
pub data Use : Type 0 where
  ends : End → Use
  goes_into : Flow → Use

use_by : Flow → Call → Option Use
use_by f (set_receiver port g) = none
use_by f (set_splitter side g first n) = if g == f then some (goes_into first) else none
use_by f (set_stopper g) = if g == f then some (ends stopped) else none
use_by f (create_kni_device side index) = none
use_by f (set_sender_kni g side) = if g == f then some (ends (to_kni side)) else none
use_by f (set_receiver_kni side g) = none
use_by f (set_merger a b g) = if a == f || b == f then some (goes_into g) else none
use_by f (set_sender g port) = if g == f then some (ends (sent_to port)) else none

cons_use : Option Use → List Use → List Use
cons_use none us = us
cons_use (some u) us = u ∷ us

-- All uses of a flow.
pub uses : Flow → List Call → List Use
uses f [] = []
uses f (c ∷ cs) = cons_use (use_by f c) (uses f cs)

-- Where a flow ends that is used once each time, over at most so many mergers.
pub end_of : ℕ → Flow → List Call → Option End
end_of zero f cs = none
end_of (suc rounds) f cs = elim (uses f cs) [
  | [] ↦ none
  | u ∷ us ↦ elim us [
    | [] ↦ elim u [ ends e ↦ some e | goes_into g ↦ end_of rounds g cs ]
    | _ ↦ none
  ]
]

abbrev same_side : InterfaceType → InterfaceType → Bool
same_side i_public i_public = true
same_side i_private i_private = true
same_side _ _ = false

-- The flow of a direction out of the splitter with the handler of a side, if the splitter has it.
pub splitter_out : InterfaceType → ℕ → List Call → Option Flow
splitter_out side dir [] = none
splitter_out side dir (set_splitter t f first n ∷ cs) =
    if same_side side t && ltb dir n then some (first + dir) else splitter_out side dir cs
splitter_out side dir (_ ∷ cs) = splitter_out side dir cs

-- The flow that comes from the KNI device of a side.
pub kni_in : InterfaceType → List Call → Option Flow
kni_in side [] = none
kni_in side (set_receiver_kni t f ∷ cs) = if same_side side t then some f else kni_in side cs
kni_in side (_ ∷ cs) = kni_in side cs

end_of_option : List Call → Option Flow → Option End
end_of_option cs none = none
end_of_option cs (some f) = end_of 3 f cs

-- Where a packet ends that a side's handler answers a direction for, and one from its KNI device.
unfoldable pub route : Graph → InterfaceType → ℕ → Option End
unfolding splitter_out end_of_option end_of uses use_by cons_use
route g side dir = end_of_option g.calls (splitter_out side dir g.calls)

unfoldable pub kni_route : Graph → InterfaceType → Option End
unfolding kni_in end_of_option end_of uses use_by cons_use
kni_route g side = end_of_option g.calls (kni_in side g.calls)

-- Whether each flow below a number is used exactly once.
used_once : ℕ → List Call → Bool
unfolding uses
used_once zero cs = true
used_once (suc f) cs = length (uses f cs) == 1 && used_once f cs

unfoldable pub is_closed : Graph → Bool
unfolding used_once uses use_by cons_use
is_closed g = used_once g.next g.calls

abbrev pub if_kni : Bool → End → Option End
if_kni kni e = if kni then some e else none

-- The ends of all flows of a pair of ports with these indexes.
abbrev pub Routes : Graph → Bool → ℕ → Bool → ℕ → Type 0
Routes g pub_kni pub_index priv_kni priv_index =
    (is_closed g ≡ true)
    × (route g i_public dir_drop ≡ some stopped)
    × (route g i_public dir_send ≡ some (sent_to priv_index))
    × (route g i_public dir_kni ≡ if_kni pub_kni (to_kni i_public))
    × (kni_route g i_public ≡ if_kni pub_kni (sent_to pub_index))
    × (route g i_private dir_drop ≡ some stopped)
    × (route g i_private dir_send ≡ some (sent_to pub_index))
    × (route g i_private dir_kni ≡ if_kni priv_kni (to_kni i_private))
    × (kni_route g i_private ≡ if_kni priv_kni (sent_to priv_index))

graph_of-Routes :
    (a : Bool) (pub_index : ℕ) (b : Bool) (priv_index : ℕ)
    → Routes (graph_of a pub_index b priv_index) a pub_index b priv_index
unfolding is_closed route kni_route graph_of
graph_of-Routes true i true j = (refl, refl, refl, refl, refl, refl, refl, refl, refl)
graph_of-Routes true i false j = (refl, refl, refl, refl, refl, refl, refl, refl, refl)
graph_of-Routes false i true j = (refl, refl, refl, refl, refl, refl, refl, refl, refl)
graph_of-Routes false i false j = (refl, refl, refl, refl, refl, refl, refl, refl, refl)

-- The flow graph of a pair, with or without KNI interfaces on its ports: every flow that is made is
-- used exactly once. What PublicToPrivateTranslation drops is stopped, what it sends leaves by the
-- private port, and what it hands to the kernel goes to the public port's KNI device, if there is one;
-- what comes from that device leaves by the public port. The same holds the other way round for
-- PrivateToPublicTranslation and the private port.
pub flow_graph-Routes :
    (pp : PortPair)
    → Routes
        (flow_graph pp)
        (has_kni pp.public_port)
        pp.public_port.index
        (has_kni pp.private_port)
        pp.private_port.index
unfolding flow_graph
flow_graph-Routes pp = graph_of-Routes _ pp.public_port.index _ pp.private_port.index
