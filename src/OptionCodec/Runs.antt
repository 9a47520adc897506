-- ===== src/OptionCodec/Runs.antt =====
-- The two loops of the DHCPv6 decoders as the source has them, without a count of rounds: what it
-- means that a loop ends, and with what.
use nff_go_nat.Base.{
  ℕ, zero, suc, ◌+◌, ◌≤◌, ◌≡◌, refl, ap, Bool, true, false, ltb, le→ltb_false, if◌then◌else◌, ◌*◌,
  Option, none, some, List, [], ◌∷◌, ◌++◌, length, take, drop, Outcome, done, panic, ◌>>=◌, arith,
}
use nff_go_nat.Nff.{Dhcpv6Option}
use nff_go_nat.Wire.{read16, slice}
use nff_go_nat.OptionCodec.{read_options, decode_labels}

-- A run of `for offset < stop`, from an offset: its end, a round and the run after it, or a panic in
-- one of the three reads of a round.
pub data OptionsRun (buf : List ℕ) (stop : ℕ) : ℕ → Outcome (List Dhcpv6Option) → Type 0 where
  at_stop : {offset : ℕ} → ltb offset stop ≡ false → OptionsRun buf stop offset (done [])
  no_code :
      {offset : ℕ}
      → ltb offset stop ≡ true
      → read16 buf offset ≡ panic
      → OptionsRun buf stop offset panic
  no_length :
      {offset code : ℕ}
      → ltb offset stop ≡ true
      → read16 buf offset ≡ done code
      → read16 buf (offset + 2) ≡ panic
      → OptionsRun buf stop offset panic
  no_contents :
      {offset code len : ℕ}
      → ltb offset stop ≡ true
      → read16 buf offset ≡ done code
      → read16 buf (offset + 2) ≡ done len
      → slice buf (offset + 4) len ≡ panic
      → OptionsRun buf stop offset panic
  round :
      {offset code len : ℕ} {contents : List ℕ} {rest : Outcome (List Dhcpv6Option)}
      → ltb offset stop ≡ true
      → read16 buf offset ≡ done code
      → read16 buf (offset + 2) ≡ done len
      → slice buf (offset + 4) len ≡ done contents
      → OptionsRun buf stop (offset + (len + 4)) rest
      → OptionsRun buf stop offset (do
        options ← rest
        done (record { code = code; len = len; contents = contents } ∷ options))

module _ (buf : List ℕ) (stop fuel : ℕ) where
  abbrev Ends : ℕ → Type 0
  Ends offset = OptionsRun buf stop offset (read_options fuel buf stop offset)

  contents_OptionsRun :
      (offset code len : ℕ) (contents : Outcome (List ℕ))
      → ltb offset stop ≡ true
      → read16 buf offset ≡ done code
      → read16 buf (offset + 2) ≡ done len
      → slice buf (offset + 4) len ≡ contents
      → Ends (offset + (len + 4))
      → OptionsRun buf stop offset (
          contents >>= λ bytes. (do
            options ← read_options fuel buf stop (offset + (len + 4))
            done (record { code = code; len = len; contents = bytes } ∷ options)))
  contents_OptionsRun offset code len panic h c l e run = no_contents h c l e
  contents_OptionsRun offset code len (done bytes) h c l e run = round h c l e run

  len_OptionsRun :
      (offset code : ℕ) (len : Outcome ℕ)
      → ltb offset stop ≡ true
      → read16 buf offset ≡ done code
      → read16 buf (offset + 2) ≡ len
      → ((n : ℕ) → Ends (offset + (n + 4)))
      → OptionsRun buf stop offset (do
        n ← len
        bytes ← slice buf (offset + 4) n
        options ← read_options fuel buf stop (offset + (n + 4))
        done (record { code = code; len = n; contents = bytes } ∷ options))
  len_OptionsRun offset code panic h c e runs = no_length h c e
  len_OptionsRun offset code (done len) h c e runs =
      contents_OptionsRun offset code len (slice buf (offset + 4) len) h c e refl (runs len)

  code_OptionsRun :
      (offset : ℕ) (code : Outcome ℕ)
      → ltb offset stop ≡ true
      → read16 buf offset ≡ code
      → ((n : ℕ) → Ends (offset + (n + 4)))
      → OptionsRun buf stop offset (do
        m ← code
        n ← read16 buf (offset + 2)
        bytes ← slice buf (offset + 4) n
        options ← read_options fuel buf stop (offset + (n + 4))
        done (record { code = m; len = n; contents = bytes } ∷ options))
  code_OptionsRun offset panic h e runs = no_code h e
  code_OptionsRun offset (done code) h e runs =
      len_OptionsRun offset code (read16 buf (offset + 2)) h e refl runs

  step_OptionsRun :
      (offset : ℕ) (b : Bool)
      → ltb offset stop ≡ b
      → ((n : ℕ) → Ends (offset + (n + 4)))
      → OptionsRun buf stop offset (
          if b
          then (do
            m ← read16 buf offset
            n ← read16 buf (offset + 2)
            bytes ← slice buf (offset + 4) n
            options ← read_options fuel buf stop (offset + (n + 4))
            done (record { code = m; len = n; contents = bytes } ∷ options))
          else done [])
  step_OptionsRun offset false e runs = at_stop e
  step_OptionsRun offset true e runs = code_OptionsRun offset (read16 buf offset) e refl runs

-- With a round for every four bytes between an offset and the end, and the decoders have more than
-- that, the loop over options ends for all data: what it computes is a whole run of the source's
-- loop, up to the end or to a panic.
pub read_options-OptionsRun :
    (buf : List ℕ) (stop fuel offset : ℕ)
    → stop ≤ 4 * fuel + offset
    → OptionsRun buf stop offset (read_options fuel buf stop offset)
unfolding read_options
read_options-OptionsRun buf stop zero offset h = at_stop (le→ltb_false offset stop (omega arith))
read_options-OptionsRun buf stop (suc fuel) offset h =
    step_OptionsRun buf stop fuel offset (ltb offset stop) refl
      (λ n. read_options-OptionsRun buf stop fuel (offset + (n + 4)) (omega arith))

-- A run of the loop of DHCPv6FQDN.DecodeFromBytes: `len` is the length of the label that comes next,
-- and `rest` is what follows that byte. It has no panic.
pub data LabelsRun : ℕ → List ℕ → List ℕ → Option (List ℕ) → Type 0 where
  at_zero : {rest name : List ℕ} → LabelsRun zero rest name (some name)
  cut_off :
      {len : ℕ} {rest name : List ℕ} → drop (suc len) rest ≡ [] → LabelsRun (suc len) rest name none
  label :
      {len next : ℕ} {rest later name : List ℕ} {decoded : Option (List ℕ)}
      → drop (suc len) rest ≡ next ∷ later
      → LabelsRun next later (name ++ take (suc len) rest) decoded
      → LabelsRun (suc len) rest name decoded

abbrev pub LabelsGive : Outcome (Option (List ℕ)) → ℕ → List ℕ → List ℕ → Type 0
LabelsGive o len rest name =
    (decoded : Option (List ℕ)) × (o ≡ done decoded) × LabelsRun len rest name decoded

drop_shorter :
    (n : ℕ) (bytes : List ℕ) (b : ℕ) (later : List ℕ)
    → drop n bytes ≡ b ∷ later
    → suc (length later) ≤ length bytes
drop_shorter zero bytes b later e = omega (arith, ap length e)
drop_shorter (suc n) [] b later e = absurd (cc)
drop_shorter (suc n) (x ∷ bytes) b later e = omega (arith, drop_shorter n bytes b later e)

module _ (fuel len : ℕ) (rest name : List ℕ) where
  next_LabelsGive :
      (left : List ℕ)
      → drop (suc len) rest ≡ left
      → ((next : ℕ) (later : List ℕ)
          → left ≡ next ∷ later
          → LabelsGive
              (decode_labels fuel next later (name ++ take (suc len) rest))
              next
              later
              (name ++ take (suc len) rest))
      → LabelsGive
          (elim left [
            | [] ↦ done none
            | next ∷ later ↦ decode_labels fuel next later (name ++ take (suc len) rest)
          ])
          (suc len)
          rest
          name
  next_LabelsGive [] e k = (none, refl, cut_off e)
  next_LabelsGive (next ∷ later) e k =
      let (decoded, e', run) = k next later refl in (decoded, e', label e run)

-- Whatever the data, the loop over the labels of a name ends, without a panic, within as many rounds
-- as there are bytes, which is what the decoder has.
pub decode_labels-LabelsGive :
    (fuel len : ℕ) (rest name : List ℕ)
    → length rest ≤ fuel
    → LabelsGive (decode_labels fuel len rest name) len rest name
unfolding decode_labels
decode_labels-LabelsGive fuel zero rest name h = (some name, refl, at_zero)
decode_labels-LabelsGive zero (suc len) [] name h = (none, refl, cut_off refl)
decode_labels-LabelsGive zero (suc len) (b ∷ rest) name h = absurd (omega arith)
decode_labels-LabelsGive (suc fuel) (suc len) rest name h =
    next_LabelsGive fuel len rest name (drop (suc len) rest) refl (λ next later e.
      decode_labels-LabelsGive fuel next later (name ++ take (suc len) rest)
        (omega (arith, drop_shorter (suc len) rest next later e)))
