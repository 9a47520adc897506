-- ===== src/Reading/Ports.antt =====
-- The reading of one port, in ReadConfig.
use Prim.Native.String.{String}
use text.Mathlib.Text.{◌==◌ as str_eq}
use nff_go_nat.Base.{
  ◌≡◌, refl, sym, ◌∙◌, ◌⊎◌, inl, inr, true, false, ◌&&◌, List, [], ◌∷◌, All, arith,
}
use nff_go_nat.Base.Results.{ok, >>=-eq-ok, if_err-eq-ok}
use nff_go_nat.Config.{HostPort, IpPort, ForwardedPort, has_kni}
use nff_go_nat.Forwarding.{is_within}
use nff_go_nat.Reading.{
  no_host_name, Needs, note_kni, note_dhcp, read_rules, set_static_arp, read_port,
}
use nff_go_nat.Reading.Readable.{IsRule, IsReadablePort, finished, lacks_address}
use nff_go_nat.Reading.Rules.{read_rules_complete, read_rules_sound}

abbrev pub port_needs : IpPort → Needs → Needs
port_needs port needs = note_kni (has_kni port) (note_dhcp (lacks_address port) needs)

source_ok :
    (host_name : String) (port : IpPort)
    → ((port.subnet.address_acquired ≡ true) ⊎ (str_eq host_name "" ≡ false))
    → (lacks_address port && str_eq host_name "") ≡ false
source_ok host_name port h = ground arith

source_sound :
    (host_name : String) (port : IpPort)
    → (lacks_address port && str_eq host_name "") ≡ false
    → (port.subnet.address_acquired ≡ true) ⊎ (str_eq host_name "" ≡ false)
source_sound host_name port h = ground arith

kni_noted :
    (port : IpPort) (needs : Needs) → has_kni port ≡ true → (port_needs port needs).kni ≡ true
unfolding note_kni
kni_noted port needs h = ground arith

pub read_port_complete :
    (host_name : String) (port opposite : IpPort) (needs : Needs)
    → IsReadablePort host_name port opposite
    → read_port host_name port opposite needs ≡ ok (finished port, port_needs port needs)
unfolding read_port
read_port_complete host_name port opposite needs (source, rules) =
    rw
      (
        source_ok host_name port source,
        read_rules_complete port opposite (port_needs port needs) port.forward_ports
            (kni_noted port needs) rules,
      )
      refl

pub read_port_sound :
    (host_name : String) (port opposite : IpPort) (needs : Needs) (r : IpPort × Needs)
    → read_port host_name port opposite needs ≡ ok r
    → IsReadablePort host_name port opposite
unfolding read_port
read_port_sound host_name port opposite needs r h =
    let (good, h1) = if_err-eq-ok (lacks_address port && str_eq host_name "") no_host_name _ r h in
    let (a, e, h2) =
      >>=-eq-ok (read_rules port opposite (port_needs port needs) port.forward_ports) _ r h1 in
    (
      source_sound host_name port good,
      read_rules_sound port opposite (port_needs port needs) port.forward_ports a e,
    )

module _ (host_name : String) (port opposite opposite' : IpPort)
    (same : (d : HostPort) → is_within opposite d ≡ is_within opposite' d) where
  All-IsRule :
      (fps : List ForwardedPort) → All (IsRule port opposite) fps → All (IsRule port opposite') fps
  All-IsRule [] h = tt
  All-IsRule (fp ∷ fps) ((family, inl r), hs) = ((family, inl r), All-IsRule fps hs)
  All-IsRule (fp ∷ fps) ((family, inr r), hs) = (
    (
      family,
      inr (record {
        nonzero = r.nonzero;
        on_public = r.on_public;
        within = sym (same fp.destination) ∙ r.within;
      }),
    ),
    All-IsRule fps hs,
  )

  pub IsReadablePort-same :
      IsReadablePort host_name port opposite → IsReadablePort host_name port opposite'
  IsReadablePort-same (source, rules) = (source, All-IsRule port.forward_ports rules)

-- The rules of the public port are checked against the private port as it is then.
pub is_within-finished :
    (port : IpPort) (d : HostPort) → is_within (finished port) d ≡ is_within port d
unfolding is_within set_static_arp
is_within-finished port d = ground arith
