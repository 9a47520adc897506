-- ===== src/Connections/Links.antt =====
-- How the two lookup tables of a pair hang together, as facts about tables alone.
use nff_go_nat.Base.{ℕ, ◌≡◌, ◌⊎◌, inl, inr, Bool, true, false, ◌==◌, none, some, arith}
use nff_go_nat.Net.{Endpoint, tuple, tuple6, Table, store, delete, zero_ipv6_addr, same_bytes}

-- Which family an endpoint is of, its port, and whether its address is zero.
abbrev pub is_v6 : Endpoint → Bool
is_v6 (tuple addr port) = false
is_v6 (tuple6 addr port) = true

abbrev pub port_number : Endpoint → ℕ
port_number (tuple addr port) = port
port_number (tuple6 addr port) = port

abbrev pub is_zero : Endpoint → Bool
is_zero (tuple addr port) = addr == 0
is_zero (tuple6 addr port) = same_bytes addr zero_ipv6_addr

-- Every private entry that does not stand for a KNI interface leads to a public entry, and that one
-- leads back.
abbrev pub LeadsBack : Table → Table → Type 0
LeadsBack priv public =
    (p : ℕ) (k q : Endpoint) → priv p k ≡ some q → is_zero q ≡ false → public p q ≡ some k

-- A property of all entries of a table.
abbrev pub Entries : (ℕ → Endpoint → Endpoint → Type 0) → Table → Type 0
Entries P t = (p : ℕ) (k v : Endpoint) → t p k ≡ some v → P p k v

store_inv :
    (protocol : ℕ) (key v : Endpoint) (t : Table) (p : ℕ) (k w : Endpoint)
    → store protocol key v t p k ≡ some w
    → ((protocol ≡ p) × (key ≡ k) × (v ≡ w)) ⊎ (t p k ≡ some w)
unfolding store
store_inv protocol key v t p k w e = ground arith

delete_inv :
    (protocol : ℕ) (key : Endpoint) (t : Table) (p : ℕ) (k w : Endpoint)
    → delete protocol key t p k ≡ some w
    → t p k ≡ some w
unfolding delete
delete_inv protocol key t p k w e = ground arith

module _ (P : ℕ → Endpoint → Endpoint → Type 0) (t : Table) (protocol : ℕ) (key : Endpoint) where
  pub Entries-store :
      (v : Endpoint) → P protocol key v → Entries P t → Entries P (store protocol key v t)
  Entries-store v new old p k w e = elim (store_inv protocol key v t p k w e) [
    | inl (a, b, c) ↦ rw (← a, ← b, ← c) new
    | inr e' ↦ old p k w e'
  ]

  pub Entries-delete : Entries P t → Entries P (delete protocol key t)
  Entries-delete old p k w e = old p k w (delete_inv protocol key t p k w e)

module _ (priv public : Table) (protocol : ℕ) (pub_key priv_key : Endpoint) where
  pub LeadsBack-delete :
      public protocol pub_key ≡ some priv_key
      → LeadsBack priv public
      → LeadsBack (delete protocol priv_key priv) (delete protocol pub_key public)
  unfolding delete
  LeadsBack-delete found old p k q e z = ground (arith, old p k q)

  pub LeadsBack-store :
      public protocol pub_key ≡ none
      → LeadsBack priv public
      → LeadsBack (store protocol priv_key pub_key priv) (store protocol pub_key priv_key public)
  unfolding store
  LeadsBack-store unused old p k q e z = ground (arith, old p k q)

  pub LeadsBack-store_public :
      public protocol pub_key ≡ none
      → LeadsBack priv public
      → LeadsBack priv (store protocol pub_key priv_key public)
  unfolding store
  LeadsBack-store_public unused old p k q e z = ground (arith, old p k q)

  pub LeadsBack-store_kni :
      is_zero pub_key ≡ true
      → LeadsBack priv public
      → LeadsBack (store protocol priv_key pub_key priv) public
  unfolding store
  LeadsBack-store_kni kni old p k q e z = ground (arith, old p k q)

  pub LeadsBack-delete_private :
      LeadsBack priv public → LeadsBack (delete protocol priv_key priv) public
  unfolding delete
  LeadsBack-delete_private old p k q e z = ground (arith, old p k q)

-- So no two private endpoints share a public one.
pub LeadsBack-injective :
    (priv public : Table) (p : ℕ) (k k' q : Endpoint)
    → LeadsBack priv public
    → priv p k ≡ some q
    → priv p k' ≡ some q
    → is_zero q ≡ false
    → k ≡ k'
LeadsBack-injective priv public p k k' q h e e' z = ground (arith, h p k q, h p k' q)
