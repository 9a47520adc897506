-- ===== src/RequestLoop/Acquisition.antt =====
-- What it takes for a DHCP client to acquire an address.
use nff_go_nat.Base.{
  ℕ, ◌≡◌, refl, ◌∙◌, ap, Bool, true, false, not, ◌==◌, ==_iff, if◌then◌else◌, Option, none, some,
  List, [], ◌∷◌, ◌++◌, not-false, Outcome, done, arith,
}
use nff_go_nat.Packets.{UdpHdr}
use nff_go_nat.Nff.{DhcpReply}
use nff_go_nat.Config.{PortPair, InterfaceType, i_public, i_private}
use nff_go_nat.Machine.{Env, St, lift, port_at, set_port, modify_port}
use nff_go_nat.Machine.Partial.{
  Partly, Partly-true, Ensures-Partly, Partly-lift, Partly-if, Partly-bind,
}
use nff_go_nat.Dhcp.{
  discover, offer, request, acknowledge, opt_message_type, get_dhcp_option, first_byte, reset_dhcp,
  note_sent, handle_dhcp_offer, handle_dhcp_ack, is_dhcp, answers, dispatch_dhcp, handle_typed,
  handle_parsed, handle_dhcp, send_dhcp_request_request, dhcp_options, new_option, opt_server_id,
  opt_request_ip, compose_and_send_dhcp_packet,
}
use nff_go_nat.RequestLoop.Sending.{composed4}

answers-true :
    (env : Env) (side : InterfaceType) (last sent wanted : ℕ) (bytes : List ℕ)
    → answers env side last sent wanted bytes ≡ done true
    → (last ≡ sent) × ((rest : List ℕ) × (bytes ≡ wanted ∷ rest))
unfolding answers first_byte
answers-true env side last sent wanted [] h = absurd (ground arith)
answers-true env side last sent wanted (b ∷ rest) h =
    let (same, found) = passed (last == sent) (b == wanted) h in
    ((==_iff last sent).0 same, (rest, ap (λ x. x ∷ rest) ((==_iff b wanted).0 found)))
  where
    passed :
        (t r : Bool)
        → ◌≡◌ {A = Outcome Bool} (if t then done r else done false) (done true)
        → (t ≡ true) × (r ≡ true)
    passed t r h = ground arith

second_test :
    (b : Bool) (o : Outcome Bool) → (if b then done false else o) ≡ done true → o ≡ done true
second_test true o h = absurd (cc)
second_test false o h = h

noted :
    (side : InterfaceType) (pp : PortPair)
    → (port_at side
        (set_port side pp (note_sent request (port_at side pp)))).subnet.address_acquired
      ≡ (port_at side pp).subnet.address_acquired
unfolding port_at set_port note_sent
noted i_public pp = refl
noted i_private pp = refl

reset_lem :
    (side : InterfaceType) (pp : PortPair)
    → (port_at side (set_port side pp (reset_dhcp (port_at side pp)))).subnet.address_acquired
      ≡ false
unfolding port_at set_port reset_dhcp
reset_lem i_public pp = refl
reset_lem i_private pp = refl

module _ (env : Env) (side : InterfaceType) (u : UdpHdr) (s : St) where
  open env use {nff}

  abbrev last_sent : ℕ
  last_sent = (port_at side s.pp).subnet.ds.last_dhcp_packet_type_sent

  -- The client had sent a request, and this is a DHCP server's acknowledgement.
  pub record IsAcknowledged : Type 0 where
    pub requested : last_sent ≡ request
    pub from_server : is_dhcp env side u ≡ true
    pub dhcp : DhcpReply
    pub parsed : nff.parse_dhcp u.payload ≡ some dhcp
    pub rest : List ℕ
    pub acknowledged : get_dhcp_option dhcp.options opt_message_type ≡ some (acknowledge ∷ rest)

  abbrev pub OnlyAcknowledged : PortPair → Type 0
  OnlyAcknowledged pp = (port_at side pp).subnet.address_acquired ≡ true → IsAcknowledged

  module _ (acquired : (port_at side s.pp).subnet.address_acquired ≡ false) where
    not_acquired :
        (pp : PortPair) → (port_at side pp).subnet.address_acquired ≡ false → OnlyAcknowledged pp
    not_acquired pp e h = absurd (false_true _ e h)
      where
        false_true : (b : Bool) → b ≡ false → b ≡ true → ⊥
        false_true b e h = cc

    offered :
        (dhcp : DhcpReply) (s' : St)
        → s'.pp ≡ s.pp
        → Partly (λ _ pp. OnlyAcknowledged pp) (handle_dhcp_offer env side dhcp) s'
    unfolding handle_dhcp_offer send_dhcp_request_request
    offered dhcp s' same =
        let options =
          dhcp_options
          ++ (new_option opt_server_id dhcp.next_server_ip
              ∷ new_option opt_request_ip dhcp.your_client_ip
              ∷ []) in
        Ensures-Partly (λ _ pp. OnlyAcknowledged pp) _
          (compose_and_send_dhcp_packet env side request options) s'
          (composed4 env side request options s')
          (λ a pp e. not_acquired pp (
            ap (λ p. (port_at side p).subnet.address_acquired) e
            ∙ (noted side s'.pp
                ∙ (ap (λ p. (port_at side p).subnet.address_acquired) same ∙ acquired))))

    decided :
        (dhcp : DhcpReply) (is_offer is_ack : Bool) (s' : St)
        → s'.pp ≡ s.pp
        → (is_ack ≡ true → IsAcknowledged)
        → Partly
            (λ _ pp. OnlyAcknowledged pp)
            (if is_offer
              then handle_dhcp_offer env side dhcp
              else if is_ack
              then handle_dhcp_ack env side dhcp
              else modify_port side reset_dhcp)
            s'
    decided dhcp true is_ack s' same evidence = offered dhcp s' same
    decided dhcp false true s' same evidence =
        Partly-true (λ _ pp. OnlyAcknowledged pp) (handle_dhcp_ack env side dhcp) s'
          (λ a pp h. evidence refl)
    decided dhcp false false s' same evidence = not_acquired _ (reset_lem side s'.pp)

    dispatched :
        (dhcp : DhcpReply) (message_type : List ℕ)
        → is_dhcp env side u ≡ true
        → nff.parse_dhcp u.payload ≡ some dhcp
        → get_dhcp_option dhcp.options opt_message_type ≡ some message_type
        → Partly (λ _ pp. OnlyAcknowledged pp) (dispatch_dhcp env side dhcp message_type) s
    unfolding dispatch_dhcp
    dispatched dhcp message_type from_server parsed typed =
        let first = answers env side last_sent discover offer message_type in
        let second = answers env side last_sent request acknowledge message_type in
        Partly-bind (λ b pp. pp ≡ s.pp) (λ _ pp. OnlyAcknowledged pp) s (lift first) _
          (Partly-lift (λ b pp. pp ≡ s.pp) first s (λ a e. refl))
          (λ is_offer s' same.
            let chosen = if is_offer then done false else second in
            Partly-bind (λ b pp. (pp ≡ s.pp) × (chosen ≡ done b)) (λ _ pp. OnlyAcknowledged pp) s'
              (lift chosen) _
              (Partly-lift (λ b pp. (pp ≡ s.pp) × (chosen ≡ done b)) chosen s' (λ a e. (same, e)))
              (λ is_ack s'' both. decided dhcp is_offer is_ack s'' both.0 (λ yes.
                evidence dhcp message_type from_server parsed typed
                  (second_test is_offer second (both.1 ∙ ap done yes)))))
      where
        evidence :
            (dhcp : DhcpReply) (message_type : List ℕ)
            → is_dhcp env side u ≡ true
            → nff.parse_dhcp u.payload ≡ some dhcp
            → get_dhcp_option dhcp.options opt_message_type ≡ some message_type
            → answers env side last_sent request acknowledge message_type ≡ done true
            → IsAcknowledged
        evidence dhcp message_type from_server parsed typed e =
            let (requested, found) =
              answers-true env side last_sent request acknowledge message_type e in
            record {
              requested = requested;
              from_server = from_server;
              dhcp = dhcp;
              parsed = parsed;
              rest = found.0;
              acknowledged = typed ∙ ap some found.1;
            }

    typed-OnlyAcknowledged :
        (dhcp : DhcpReply) (o : Option (List ℕ))
        → is_dhcp env side u ≡ true
        → nff.parse_dhcp u.payload ≡ some dhcp
        → get_dhcp_option dhcp.options opt_message_type ≡ o
        → Partly (λ _ pp. OnlyAcknowledged pp) (handle_typed env side dhcp o) s
    unfolding handle_typed
    typed-OnlyAcknowledged dhcp none from_server parsed e = not_acquired s.pp acquired
    typed-OnlyAcknowledged dhcp (some message_type) from_server parsed e =
        Partly-bind (λ _ pp. OnlyAcknowledged pp) (λ _ pp. OnlyAcknowledged pp) s
          (dispatch_dhcp env side dhcp message_type) _
          (dispatched dhcp message_type from_server parsed e) (λ a s' h. h)

    parsed-OnlyAcknowledged :
        (o : Option DhcpReply)
        → is_dhcp env side u ≡ true
        → nff.parse_dhcp u.payload ≡ o
        → Partly (λ _ pp. OnlyAcknowledged pp) (handle_parsed env side o) s
    unfolding handle_parsed
    parsed-OnlyAcknowledged none from_server e = not_acquired s.pp acquired
    parsed-OnlyAcknowledged (some dhcp) from_server e =
        typed-OnlyAcknowledged dhcp _ from_server e refl

    -- If handleDHCP returns on a port without an IPv4 address and the port has one then, the client
    -- had sent a request as its last message, and the packet is a DHCP server's to the client's port
    -- whose message type is an acknowledgement.
    pub handle_dhcp-OnlyAcknowledged :
        Partly (λ _ pp. OnlyAcknowledged pp) (handle_dhcp env side u) s
    unfolding handle_dhcp
    handle_dhcp-OnlyAcknowledged = rw acquired (
        Partly-if (λ _ pp. OnlyAcknowledged pp) (not (is_dhcp env side u)) _ _ s
          (λ e. not_acquired s.pp acquired) (λ e. parsed-OnlyAcknowledged _ (not-false _ e) refl))
