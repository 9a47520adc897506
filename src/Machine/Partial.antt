-- ===== src/Machine/Partial.antt =====
-- Postconditions of handlers that may panic: what holds if a part returns.
use nff_go_nat.Base.{◌≡◌, refl, Bool, true, false, if◌then◌else◌, Outcome, done, panic, Returns}
use nff_go_nat.Config.{PortPair}
use nff_go_nat.Machine.{St, M, ◌>>=◌, lift}
use nff_go_nat.Machine.Posts.{Ensures}

abbrev pub IfDone : {A : Type 0} → (A → Type 0) → Outcome A → Type 0
IfDone P (done a) = P a
IfDone P panic = Unit

abbrev pub Partly : {A : Type 0} → (A → PortPair → Type 0) → M A → St → Type 0
Partly Q m s = IfDone (λ r. Q r.0 r.1.pp) (m s)

module _ {A : Type 0} (Q : A → PortPair → Type 0) where
  outcome_true :
      (o : Outcome (A × St)) → ((a : A) (pp : PortPair) → Q a pp) → IfDone (λ r. Q r.0 r.1.pp) o
  outcome_true (done (a, s)) h = h a s.pp
  outcome_true panic h = tt

  pub Partly-true : (m : M A) (s : St) → ((a : A) (pp : PortPair) → Q a pp) → Partly Q m s
  Partly-true m s h = outcome_true (m s) h

  outcome_partly :
      (P : A → PortPair → Type 0) (o : Outcome (A × St))
      → Returns (λ r. P r.0 r.1.pp) o
      → ((a : A) (pp : PortPair) → P a pp → Q a pp)
      → IfDone (λ r. Q r.0 r.1.pp) o
  outcome_partly P (done (a, s)) h k = k a s.pp h
  outcome_partly P panic h k = tt

  pub Ensures-Partly :
      (P : A → PortPair → Type 0) (m : M A) (s : St)
      → Ensures P m s
      → ((a : A) (pp : PortPair) → P a pp → Q a pp)
      → Partly Q m s
  Ensures-Partly P m s h k = outcome_partly P (m s) h k

  pub Partly-lift :
      (o : Outcome A) (s : St) → ((a : A) → o ≡ done a → Q a s.pp) → Partly Q (lift o) s
  Partly-lift (done a) s h = h a refl
  Partly-lift panic s h = tt

  pub Partly-if :
      (b : Bool) (m n : M A) (s : St)
      → (b ≡ true → Partly Q m s)
      → (b ≡ false → Partly Q n s)
      → Partly Q (if b then m else n) s
  Partly-if true m n s h k = h refl
  Partly-if false m n s h k = k refl

module _ {A B : Type 0} (Q : A → PortPair → Type 0) (P : B → PortPair → Type 0) (s : St) where
  bind_outcome :
      (o : Outcome (A × St)) (f : A → M B)
      → IfDone (λ r. Q r.0 r.1.pp) o
      → ((a : A) (s' : St) → Q a s'.pp → Partly P (f a) s')
      → Partly P ((λ _. o) >>= f) s
  bind_outcome (done (a, s')) f h k = k a s' h
  bind_outcome panic f h k = tt

  pub Partly-bind :
      (m : M A) (f : A → M B)
      → Partly Q m s
      → ((a : A) (s' : St) → Q a s'.pp → Partly P (f a) s')
      → Partly P (m >>= f) s
  Partly-bind m f h k = bind_outcome (m s) f h k
