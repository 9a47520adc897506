-- ===== src/Machine/Posts.antt =====
-- Postconditions of handlers: what a part returns, and the pair that it leaves behind.
use nff_go_nat.Base.{
  ℕ, ◌≡◌, refl, sym, subst, inl, inr, Bool, true, false, if◌then◌else◌, Outcome, done, panic,
  Returns, Bool-cases,
}
use nff_go_nat.Net.{MacAddress, IpAddress, ArpTable, store_arp}
use nff_go_nat.Packets.{Packet}
use nff_go_nat.Config.{PortPair, InterfaceType, i_public, i_private}
use nff_go_nat.Machine.{
  port_at, set_port, Env, St, M, ◌>>=◌, lift, on_pair, dump_packet, send_packet, learn,
}

-- The part returns, without a panic, a value and a pair that satisfy `Q`.
abbrev pub Ensures : {A : Type 0} → (A → PortPair → Type 0) → M A → St → Type 0
Ensures Q m s = Returns (λ r. Q r.0 r.1.pp) (m s)

bind_lem :
    {A B : Type 0} (Q : A → PortPair → Type 0) (P : B → PortPair → Type 0) (f : A → M B) (s : St)
    (o : Outcome (A × St))
    → Returns (λ r. Q r.0 r.1.pp) o
    → ((a : A) (s' : St) → Q a s'.pp → Ensures P (f a) s')
    → Ensures P ((λ _. o) >>= f) s
bind_lem Q P f s (done (a, s')) h k = k a s' h
bind_lem Q P f s panic h k = h

module _ {A B : Type 0} (Q : A → PortPair → Type 0) (P : B → PortPair → Type 0) (s : St) where
  pub Ensures-bind :
      (m : M A) (f : A → M B)
      → Ensures Q m s
      → ((a : A) (s' : St) → Q a s'.pp → Ensures P (f a) s')
      → Ensures P (m >>= f) s
  Ensures-bind m f h k = bind_lem Q P f s (m s) h k

module _ {A : Type 0} (P : A → PortPair → Type 0) (s : St) where
  pub Ensures-if :
      (b : Bool) (m n : M A)
      → (b ≡ true → Ensures P m s)
      → (b ≡ false → Ensures P n s)
      → Ensures P (if b then m else n) s
  Ensures-if true m n h k = h refl
  Ensures-if false m n h k = k refl

  weaken_outcome :
      (Q : A → PortPair → Type 0) (o : Outcome (A × St))
      → Returns (λ r. Q r.0 r.1.pp) o
      → ((a : A) (pp : PortPair) → Q a pp → P a pp)
      → Returns (λ r. P r.0 r.1.pp) o
  weaken_outcome Q (done (a, s')) h k = k a s'.pp h
  weaken_outcome Q panic h k = h

  pub Ensures-weaken :
      (Q : A → PortPair → Type 0) (m : M A)
      → Ensures Q m s
      → ((a : A) (pp : PortPair) → Q a pp → P a pp)
      → Ensures P m s
  Ensures-weaken Q m h k = weaken_outcome Q (m s) h k

-- A part that can panic and returns `a`.
pub lift_returns :
    {A : Type 0} (o : Outcome A) (a : A) (s : St)
    → o ≡ done a
    → Ensures (λ b pp. (b ≡ a) × (pp ≡ s.pp)) (lift o) s
lift_returns o a s e = rw e (refl, refl)

pub on_pair_returns :
    (f : PortPair → Outcome PortPair) (pp : PortPair) (s : St)
    → f s.pp ≡ done pp
    → Ensures (λ _ pp'. pp' ≡ pp) (on_pair f) s
on_pair_returns f pp s e = rw (on_pair, e) refl

-- Tracing and sending change the log alone.
pub dump_packet-pp :
    (env : Env) (side : InterfaceType) (pkt : Packet) (dir : ℕ) (s : St)
    → Ensures (λ _ pp. pp ≡ s.pp) (dump_packet env side pkt dir) s
unfolding dump_packet
dump_packet-pp env side pkt dir s = elim (Bool-cases (env.dump_enabled dir)) [
  | inl e ↦ rw e refl
  | inr e ↦ rw e refl
]

pub send_packet-pp :
    (env : Env) (side : InterfaceType) (pkt : Packet) (s : St)
    → Ensures (λ _ pp. pp ≡ s.pp) (send_packet env side pkt) s
unfolding send_packet
send_packet-pp env side pkt s =
    Ensures-bind (λ _ pp. pp ≡ s.pp) (λ _ pp. pp ≡ s.pp) s (dump_packet env side pkt 1) _
      (dump_packet-pp env side pkt 1 s) (λ a s' e. e)

-- A pair with other ARP caches.
abbrev pub with_arp : PortPair → ArpTable → ArpTable → PortPair
with_arp pp private public = record pp {
  private_port = record pp.private_port { arp_table = private };
  public_port = record pp.public_port { arp_table = public };
}

-- The pair differs in its ARP caches at most.
abbrev pub SameButArp : PortPair → PortPair → Type 0
SameButArp pp pp' = (a : ArpTable) × (b : ArpTable) × (pp' ≡ with_arp pp a b)

pub SameButArp-refl : (pp pp' : PortPair) → pp' ≡ pp → SameButArp pp pp'
SameButArp-refl pp pp' e = (pp.private_port.arp_table, pp.public_port.arp_table, e)

pub SameButArp-trans : (p q r : PortPair) → SameButArp p q → SameButArp q r → SameButArp p r
SameButArp-trans p q r (a, b, e) (a', b', e') = (a', b', rw (e', e) refl)

pub learn-SameButArp :
    (side : InterfaceType) (ip : IpAddress) (mac : MacAddress) (s : St)
    → Ensures (λ _ pp. SameButArp s.pp pp) (learn side ip mac) s
unfolding learn port_at set_port
learn-SameButArp i_public ip mac s =
    (s.pp.private_port.arp_table, store_arp ip mac s.pp.public_port.arp_table, refl)
learn-SameButArp i_private ip mac s =
    (store_arp ip mac s.pp.private_port.arp_table, s.pp.public_port.arp_table, refl)

module _ {A : Type 0} (P Q : A → PortPair → Type 0) where
  both_outcome :
      (o : Outcome (A × St))
      → Returns (λ r. P r.0 r.1.pp) o
      → Returns (λ r. Q r.0 r.1.pp) o
      → Returns (λ r. P r.0 r.1.pp × Q r.0 r.1.pp) o
  both_outcome (done (a, s')) h k = (h, k)
  both_outcome panic h k = h

  pub Ensures-both :
      (m : M A) (s : St) → Ensures P m s → Ensures Q m s → Ensures (λ a pp. P a pp × Q a pp) m s
  Ensures-both m s h k = both_outcome (m s) h k

-- A step whose outcome is known.
pub lift_step :
    {A B : Type 0} (P : B → PortPair → Type 0) (o : Outcome A) (a : A) (f : A → M B) (s : St)
    → o ≡ done a
    → Ensures P (f a) s
    → Ensures P (lift o >>= f) s
lift_step P o a f s e h = subst (λ x. Ensures P (lift x >>= f) s) (sym e) h

pub pair_step :
    {B : Type 0} (P : B → PortPair → Type 0) (f : PortPair → Outcome PortPair) (pp : PortPair)
    (g : Unit {0} → M B) (s : St)
    → f s.pp ≡ done pp
    → Ensures P (g tt) (record s { pp = pp })
    → Ensures P (on_pair f >>= g) s
pair_step P f pp g s e h = subst (λ x. Ensures P (on_pair (λ _. x) >>= g) s) (sym e) h

pub run_step :
    {A B : Type 0} (P : B → PortPair → Type 0) (m : M A) (a : A) (s' : St) (f : A → M B) (s : St)
    → m s ≡ done (a, s')
    → Ensures P (f a) s'
    → Ensures P (m >>= f) s
run_step P m a s' f s e h = subst (λ x. Ensures P ((λ _. x) >>= f) s) (sym e) h
