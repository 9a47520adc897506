-- ===== src/Control/Replacing.antt =====
-- What a pair keeps when a rule of a port is replaced, on every branch of ChangePortForwarding of
-- nat/grpc.go and for both kinds of port.
use nff_go_nat.Base.{
  ℕ, ◌<◌, ◌≡◌, refl, ap, sym, ◌∙◌, subst, Bool, true, false, Option, none, some, Outcome, done,
  Returns, arith,
}
use nff_go_nat.Net.{Endpoint, store}
use nff_go_nat.Config.{
  zero_entry, PortMapEntry, PortPair, InterfaceType, i_public, i_private, ForwardedPort, port_end,
}
use nff_go_nat.PortAlloc.{
  delete_entries, make_port_addr_tuple, delete_port_forwarding_entry, get_public_port_portmap,
}
use nff_go_nat.PortAlloc.Entries.{write_entry, forget, delete_old_connection-forget}
use nff_go_nat.Connections.{fresh_entry}
use nff_go_nat.Connections.Links.{
  Entries-store, Entries-delete, LeadsBack-store_kni, LeadsBack-delete_private,
}
use nff_go_nat.Connections.WellFormed.{
  WellFormed, FitsPrivate, is_translated, forget-WellFormed, write_entry-private,
}
use nff_go_nat.Forwarding.{
  is_private, key_entry, val_entry, has_target, store_rule, enable_static_port_forward, enable_on,
}
use nff_go_nat.Forwarding.Rules.{with_rule, enable_on_public, entries_parts, no_target-is_zero}
use nff_go_nat.Control.{clear_port, replace_rule}
use nff_go_nat.Control.Rules.{
  replace_rule_lem, write_entry-interface_type, delete_entries-interface_type,
}

-- A pair as ReadConfig types its ports.
abbrev pub IsTyped : PortPair → Type 0
IsTyped pp =
    (pp.public_port.interface_type ≡ i_public) × (pp.private_port.interface_type ≡ i_private)

abbrev pub IsSound : PortPair → Type 0
IsSound pp = WellFormed pp × IsTyped pp

delete_entries-private_type :
    (pp : PortPair) (protocol : ℕ) (k : Endpoint) (o : Option Endpoint)
    → (delete_entries pp protocol k o).private_port.interface_type ≡ pp.private_port.interface_type
unfolding delete_entries
delete_entries-private_type pp protocol k none = refl
delete_entries-private_type pp protocol k (some v) = refl

forget-IsTyped :
    (pp : PortPair) (ipv6 : Bool) (protocol port : ℕ)
    → IsTyped pp
    → IsTyped (forget pp ipv6 protocol port)
unfolding forget
forget-IsTyped pp ipv6 protocol port (a, b) = (
  write_entry-interface_type _ ipv6 protocol port zero_entry
      ∙ (delete_entries-interface_type pp protocol _ _ ∙ a),
  ap (λ p. p.interface_type) (write_entry-private _ ipv6 protocol port zero_entry)
      ∙ (delete_entries-private_type pp protocol _ _ ∙ b),
)

with_rule-IsTyped : (pp : PortPair) (fp : ForwardedPort) → IsTyped pp → IsTyped (with_rule pp fp)
unfolding with_rule store_rule
with_rule-IsTyped pp fp h = ground arith

written-IsTyped :
    (pp : PortPair) (ipv6 : Bool) (protocol port : ℕ) (e : PortMapEntry)
    → IsTyped pp
    → IsTyped (write_entry pp ipv6 protocol port e)
written-IsTyped pp ipv6 protocol port e (a, b) = (
  write_entry-interface_type pp ipv6 protocol port e ∙ a,
  ap (λ p. p.interface_type) (write_entry-private pp ipv6 protocol port e) ∙ b,
)

same_done : {A : Type 0} (a b : A) → ◌≡◌ {A = Outcome A} (done a) (done b) → a ≡ b
same_done a b e = cc

-- The pair with the entry of a rule of its private port.
abbrev with_kni_rule : PortPair → ForwardedPort → PortPair
with_kni_rule pp fp = record pp {
  private_port = record pp.private_port {
    translation_table =
        store fp.protocol.id (key_entry pp.private_port fp) (val_entry fp)
          pp.private_port.translation_table;
  };
}

is_private_lem : (t : InterfaceType) → t ≡ i_private → is_private t ≡ true
unfolding is_private
is_private_lem t e = rw e

enable_on_private :
    (now : ℕ) (pp : PortPair) (fp : ForwardedPort)
    → is_private pp.private_port.interface_type ≡ true
    → has_target fp ≡ false
    → enable_on now pp i_private fp ≡ done (with_kni_rule pp fp)
unfolding enable_on enable_static_port_forward store_rule
enable_on_private now pp fp e kni = rw (e, kni) refl

with_kni_rule-WellFormed :
    (pp : PortPair) (fp : ForwardedPort)
    → WellFormed pp
    → is_translated fp.protocol.ipv6 fp.protocol.id ≡ true
    → fp.port < port_end
    → has_target fp ≡ false
    → fp.destination.port ≡ fp.port
    → WellFormed (with_kni_rule pp fp)
unfolding get_public_port_portmap
with_kni_rule-WellFormed pp fp w translated inside kni same =
    let (a, b, c, d) = entries_parts pp.private_port fp in
    record {
      leads_back =
          LeadsBack-store_kni _ _ fp.protocol.id (val_entry fp) _ (no_target-is_zero fp kni)
            w.leads_back;
      public_entries = w.public_entries;
      private_entries =
          Entries-store FitsPrivate _ fp.protocol.id _ (val_entry fp)
            (c ∙ sym a, rw (c, d, same, translated) inside) w.private_entries;
      allocated = w.allocated;
      lower = w.lower;
      upper = w.upper;
    }

module _ (now : ℕ) (pp : PortPair) (fp : ForwardedPort) (sound : IsSound pp)
    (translated : is_translated fp.protocol.ipv6 fp.protocol.id ≡ true)
    (inside : fp.port < port_end) where
  abbrev cleared : PortPair
  cleared = forget pp fp.protocol.ipv6 fp.protocol.id fp.port

  cleared-IsTyped : IsTyped cleared
  cleared-IsTyped = forget-IsTyped pp fp.protocol.ipv6 fp.protocol.id fp.port sound.1

  public_enabled : Returns IsSound (replace_rule now i_public fp true pp)
  public_enabled =
      let (e, enabled) = replace_rule_lem now pp fp sound.1.0 sound.0 translated inside in
      let (pp', e', w, _, _, _) = enabled in
      let e'' =
        enable_on_public now cleared fp cleared-IsTyped.0
          (forget-WellFormed pp fp.protocol.ipv6 fp.protocol.id fp.port sound.0) translated
          inside in
      rw (e, e')
        (
          w,
          subst IsTyped (same_done _ _ (sym e'' ∙ e')) (
              written-IsTyped (with_rule cleared fp) fp.protocol.ipv6 fp.protocol.id fp.port
                (fresh_entry now true) (with_rule-IsTyped cleared fp cleared-IsTyped)),
        )

  fits : fp.port < (get_public_port_portmap pp fp.protocol.ipv6 fp.protocol.id).len
  fits = rw (sound.0.allocated fp.protocol.ipv6 fp.protocol.id, translated) inside

  public_disabled : Returns IsSound (replace_rule now i_public fp false pp)
  unfolding replace_rule clear_port
  public_disabled =
      rw (delete_old_connection-forget pp fp.protocol.ipv6 fp.protocol.id fp.port fits)
        (forget-WellFormed pp fp.protocol.ipv6 fp.protocol.id fp.port sound.0, cleared-IsTyped)

  abbrev port_key : Endpoint
  port_key = make_port_addr_tuple pp.private_port fp.protocol.ipv6 fp.port

  -- The pair without the private table's entry for the port.
  abbrev private_cleared : PortPair
  private_cleared = record pp {
    private_port =
        delete_port_forwarding_entry pp.private_port fp.protocol.ipv6 fp.protocol.id fp.port;
  }

  private_cleared-IsSound : IsSound private_cleared
  unfolding delete_port_forwarding_entry get_public_port_portmap
  private_cleared-IsSound = (
    record {
      leads_back = LeadsBack-delete_private _ _ fp.protocol.id port_key port_key sound.0.leads_back;
      public_entries = sound.0.public_entries;
      private_entries = Entries-delete FitsPrivate _ fp.protocol.id _ sound.0.private_entries;
      allocated = sound.0.allocated;
      lower = sound.0.lower;
      upper = sound.0.upper;
    },
    sound.1,
  )

  private_disabled : Returns IsSound (replace_rule now i_private fp false pp)
  unfolding replace_rule clear_port
  private_disabled = private_cleared-IsSound

  -- A rule of the private port hands packets to its KNI interface.
  private_enabled :
      has_target fp ≡ false
      → fp.destination.port ≡ fp.port
      → Returns IsSound (replace_rule now i_private fp true pp)
  unfolding replace_rule clear_port
  private_enabled kni same =
      rw
        (enable_on_private now private_cleared fp
          (unfold delete_port_forwarding_entry in is_private_lem _ sound.1.1) kni)
        (
          with_kni_rule-WellFormed private_cleared fp private_cleared-IsSound.0 translated inside
              kni same,
          private_cleared-IsSound.1,
        )

  -- With either kind of rule, enabled or disabled.
  pub replaced-IsSound :
      (side : InterfaceType) (enable : Bool)
      → (side ≡ i_private → (has_target fp ≡ false) × (fp.destination.port ≡ fp.port))
      → Returns IsSound (replace_rule now side fp enable pp)
  replaced-IsSound i_public true kni = public_enabled
  replaced-IsSound i_public false kni = public_disabled
  replaced-IsSound i_private true kni = private_enabled (kni refl).0 (kni refl).1
  replaced-IsSound i_private false kni = private_disabled
