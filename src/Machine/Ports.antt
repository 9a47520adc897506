-- ===== src/Machine/Ports.antt =====
-- Changes of a port outside of its tables and portmaps, and the invariant of a pair.
use nff_go_nat.Base.{◌≡◌}
use nff_go_nat.Config.{IpPort, PortPair, InterfaceType, i_public, i_private}
use nff_go_nat.PortAlloc.{get_portmap, get_public_port_portmap}
use nff_go_nat.Connections.WellFormed.{WellFormed}
use nff_go_nat.Machine.{St, port_at, set_port, modify_port}
use nff_go_nat.Machine.Posts.{Ensures}

pub set_port-WellFormed :
    (side : InterfaceType) (pp : PortPair) (port : IpPort)
    → port.translation_table ≡ (port_at side pp).translation_table
    → port.portmap ≡ (port_at side pp).portmap
    → port.portmap6 ≡ (port_at side pp).portmap6
    → WellFormed pp
    → WellFormed (set_port side pp port)
unfolding set_port port_at get_public_port_portmap get_portmap
set_port-WellFormed i_public pp port t m m6 w = record {
  leads_back = rw t w.leads_back;
  public_entries = rw t w.public_entries;
  private_entries = w.private_entries;
  allocated = rw (m, m6) w.allocated;
  lower = w.lower;
  upper = w.upper;
}
set_port-WellFormed i_private pp port t m m6 w = record {
  leads_back = rw t w.leads_back;
  public_entries = w.public_entries;
  private_entries = rw t w.private_entries;
  allocated = w.allocated;
  lower = w.lower;
  upper = w.upper;
}

pub modify_port-WellFormed :
    (side : InterfaceType) (f : IpPort → IpPort) (s : St)
    → (f (port_at side s.pp)).translation_table ≡ (port_at side s.pp).translation_table
    → (f (port_at side s.pp)).portmap ≡ (port_at side s.pp).portmap
    → (f (port_at side s.pp)).portmap6 ≡ (port_at side s.pp).portmap6
    → WellFormed s.pp
    → Ensures (λ _ pp. WellFormed pp) (modify_port side f) s
modify_port-WellFormed side f s t m m6 w =
    set_port-WellFormed side s.pp (f (port_at side s.pp)) t m m6 w
