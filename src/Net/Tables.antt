-- ===== src/Net/Tables.antt =====
-- The lookup tables: a sync.Map for every protocol number, and one for MAC addresses.
use nff_go_nat.Base.{ℕ, ◌≡◌, ℕ_discrete, Option, none, some, ite, refl, arith}
use nff_go_nat.Net.Addresses.{MacAddress, Endpoint, IpAddress, endpoint_discrete, ip_discrete}

-- `translationTable[protocol].Load(key)` is `t protocol key`; `none` is Go's `found == false`.
abbrev pub Table : Type 0
Table = ℕ → Endpoint → Option Endpoint

-- Every sync.Map is new.
abbrev pub empty : Table
empty _ _ = none

-- A map entry written anew: `some v` for `Store`, `none` for `Delete`.
unfoldable pub assign : ℕ → Endpoint → Option Endpoint → Table → Table
unfolding endpoint_discrete ℕ_discrete
assign protocol key v t q k =
    ite (ℕ_discrete protocol q) (ite (endpoint_discrete key k) v (t q k)) (t q k)

-- `translationTable[protocol].Store(key, v)`
unfoldable pub store : ℕ → Endpoint → Endpoint → Table → Table
unfolding assign
store protocol key v = assign protocol key (some v)

-- `translationTable[protocol].Delete(key)`
unfoldable pub delete : ℕ → Endpoint → Table → Table
unfolding assign
delete protocol key = assign protocol key none

pub store_lem :
    (p : ℕ) (k v : Endpoint) (t : Table) (q : ℕ) (j : Endpoint)
    → store p k v t q j
      ≡ ite (ℕ_discrete p q) (ite (endpoint_discrete k j) (some v) (t q j)) (t q j)
unfolding store
store_lem p k v t q j = refl

pub delete_lem :
    (p : ℕ) (k : Endpoint) (t : Table) (q : ℕ) (j : Endpoint)
    → delete p k t q j ≡ ite (ℕ_discrete p q) (ite (endpoint_discrete k j) none (t q j)) (t q j)
unfolding delete
delete_lem p k t q j = refl

pub store_self : (p : ℕ) (k v : Endpoint) (t : Table) → store p k v t p k ≡ some v
unfolding store
store_self p k v t = ground arith

pub delete_self : (p : ℕ) (k : Endpoint) (t : Table) → delete p k t p k ≡ none
unfolding delete
delete_self p k t = ground arith

-- `arpTable`: one sync.Map, whose keys are addresses of either family.
abbrev pub ArpTable : Type 0
ArpTable = IpAddress → Option MacAddress

-- `arpTable.Store(ip, mac)`
unfoldable pub store_arp : IpAddress → MacAddress → ArpTable → ArpTable
unfolding ip_discrete
store_arp ip mac t j = ite (ip_discrete ip j) (some mac) (t j)
