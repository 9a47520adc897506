-- ===== src/Text/Parts.antt =====
-- Taking a text apart where a separator stands.
use nff_go_nat.Base.{ℕ, ◌<◌, ◌≡◌, refl, ◌⊎◌, false, none, some, [], ◌∷◌, ◌++◌, All, arith}
use nff_go_nat.Text.{
  Text, contains, split, cons_first, cut_first, cons_before, cut_last, or_cut_here,
}

pub contains-append :
    (c : ℕ) (s t : Text) → contains c s ≡ false → contains c t ≡ false → contains c (s ++ t) ≡ false
unfolding contains
contains-append c [] t h k = k
contains-append c (x ∷ s) t h k = ground (arith, contains-append c s t)

pub contains-outside :
    (c : ℕ) (s : Text) → All (λ x. x < c) s ⊎ All (λ x. c < x) s → contains c s ≡ false
unfolding contains
contains-outside c [] h = refl
contains-outside c (x ∷ s) h = ground (arith, contains-outside c s)

module _ (sep : ℕ) where
  pub split_one : (s : Text) → contains sep s ≡ false → split sep s ≡ s ∷ []
  unfolding split contains cons_first
  split_one [] h = refl
  split_one (c ∷ s) h = ground (arith, split_one s)

  pub split-at :
      (s t : Text) → contains sep s ≡ false → split sep (s ++ (sep ∷ t)) ≡ s ∷ split sep t
  unfolding split contains cons_first
  split-at [] t h = ground arith
  split-at (c ∷ s) t h = ground (arith, split-at s t)

  pub cut_first-at :
      (s t : Text) → contains sep s ≡ false → cut_first sep (s ++ (sep ∷ t)) ≡ some (s, t)
  unfolding cut_first contains cons_before
  cut_first-at [] t h = ground arith
  cut_first-at (c ∷ s) t h = ground (arith, cut_first-at s t)

  cut_last-none : (s : Text) → contains sep s ≡ false → cut_last sep s ≡ none
  unfolding cut_last contains or_cut_here
  cut_last-none [] h = refl
  cut_last-none (c ∷ s) h = ground (arith, cut_last-none s)

  pub cut_last-at :
      (s t : Text) → contains sep t ≡ false → cut_last sep (s ++ (sep ∷ t)) ≡ some (s, t)
  unfolding cut_last or_cut_here
  cut_last-at [] t h = ground (arith, cut_last-none t h)
  cut_last-at (c ∷ s) t h = rw (cut_last-at s t h) refl
