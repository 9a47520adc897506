-- ===== src/Base/Slice.antt =====
-- A Go slice of fixed length: an access out of range panics.
use Prim.Native.Nat.{ℕ, ◌≤◌, ◌<◌}
use mathlib.Core.Path.{◌≡◌}
use mathlib.Core.Logic.{ite}
use native.Mathlib.Omega.{arith}
use native.Mathlib.Decide.{ℕ_discrete}
use nff_go_nat.Base.Tests.{ltb, if◌then◌else◌}
use nff_go_nat.Base.Outcomes.{Outcome, done, panic}

pub record Slice {ℓ} (A : Type ℓ) : Type ℓ where
  pub len : ℕ
  pub at : ℕ → A

module _ {ℓ} {A : Type ℓ} where
  -- `s[i]`
  unfoldable pub get : Slice A → ℕ → Outcome A
  get s i = if ltb i s.len then done (s.at i) else panic

  -- `s[i] = v`
  unfoldable pub put : Slice A → ℕ → A → Outcome (Slice A)
  put s i v =
      if ltb i s.len then done (record s { at = λ j. ite (ℕ_discrete i j) v (s.at j) }) else panic

  -- `make([]A, n)` with every element the zero value.
  abbrev pub make : ℕ → A → Slice A
  make n zero_value = record { len = n; at = λ _. zero_value }

  pub get_in_range : (s : Slice A) (i : ℕ) → i < s.len → get s i ≡ done (s.at i)
  unfolding get
  get_in_range s i h = ground arith

  pub put_in_range :
      (s : Slice A) (i : ℕ) (v : A)
      → i < s.len
      → put s i v ≡ done (record s { at = λ j. ite (ℕ_discrete i j) v (s.at j) })
  unfolding put
  put_in_range s i v h = ground arith

  pub put_out_of_range : (s : Slice A) (i : ℕ) (v : A) → s.len ≤ i → put s i v ≡ panic
  unfolding put
  put_out_of_range s i v h = ground arith

  pub get_out_of_range : (s : Slice A) (i : ℕ) → s.len ≤ i → get s i ≡ panic
  unfolding get
  get_out_of_range s i h = ground arith
