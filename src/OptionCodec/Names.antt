-- ===== src/OptionCodec/Names.antt =====
-- DHCPv6FQDN of nat/dhcp6.go: which name comes back from an encoded one.
use mathlib.Core.List.{append_assoc, append-nil}
use nff_go_nat.Base.{
  ℕ, zero, suc, ◌%◌, ◌<◌, ◌≡◌, refl, ◌∙◌, ap, inl, inr, Bool-cases, ◌==◌, if◌then◌else◌, List, [],
  ◌∷◌, ◌++◌, length, All, length-append, take-append, drop-append, done, some, arith,
}
use nff_go_nat.OptionCodec.{
  DomainOption, add_to_first, split_dots, encode_labels, encode_fqdn, decode_labels, decode_fqdn,
}

-- A label of a name: not empty, and of a length that fits a byte.
abbrev pub IsLabel : List ℕ → Type 0
IsLabel l = (0 < length l) × (length l < 256)

join : List (List ℕ) → List ℕ
join [] = []
join (l ∷ ls) = l ++ join ls

-- A name without its dots.
unfoldable pub without_dots : List ℕ → List ℕ
without_dots [] = []
without_dots (b ∷ bs) = if b == b'.' then without_dots bs else b ∷ without_dots bs

join-add_to_first : (b : ℕ) (ls : List (List ℕ)) → join (add_to_first b ls) ≡ b ∷ join ls
unfolding join add_to_first
join-add_to_first b [] = refl
join-add_to_first b (l ∷ ls) = refl

join-split_dots : (name : List ℕ) → join (split_dots name) ≡ without_dots name
unfolding join split_dots without_dots
join-split_dots [] = refl
join-split_dots (b ∷ bs) = elim (Bool-cases (b == b'.')) [
  | inl e ↦ rw e (join-split_dots bs)
  | inr e ↦ rw e (join-add_to_first b (split_dots bs) ∙ ap (◌∷◌ b) (join-split_dots bs))
]

length-encode_labels : (ls : List (List ℕ)) → length ls < length (encode_labels ls)
unfolding encode_labels
length-encode_labels [] = omega arith
length-encode_labels (l ∷ ls) =
    omega (arith, length-encode_labels ls, length-append l (encode_labels ls))

not_below : (n : ℕ) → n < 0 → ⊥
not_below n h = omega (arith, h)

decode-encode_labels :
    (l : List ℕ) (ls : List (List ℕ)) (fuel : ℕ) (name : List ℕ)
    → IsLabel l
    → All IsLabel ls
    → length ls < fuel
    → decode_labels fuel (length l) (l ++ encode_labels ls) name
      ≡ done (some (name ++ (l ++ join ls)))
unfolding decode_labels encode_labels join
decode-encode_labels [] ls fuel name (pos, fits) all enough = elim (not_below 0 pos) [ ]
decode-encode_labels (b ∷ bs) ls zero name good all enough = elim (not_below (length ls) enough) [ ]
decode-encode_labels (b ∷ bs) [] (suc fuel) name good all enough =
    rw (drop-append bs (0 ∷ []), take-append bs (0 ∷ []), append-nil) refl
decode-encode_labels (b ∷ bs) (m ∷ ms) (suc fuel) name good (good', all) enough =
    rw
      (
        drop-append bs (length m % 256 ∷ (m ++ encode_labels ms)),
        take-append bs (length m % 256 ∷ (m ++ encode_labels ms)),
        small,
        decode-encode_labels m ms fuel (name ++ (b ∷ bs)) good' all (omega (arith, enough)),
      )
      (simp append_assoc)
  where
    small : length m % 256 ≡ length m
    small = omega (arith, good'.1)

decode_fqdn_labels :
    (flags : ℕ) (ls : List (List ℕ))
    → All IsLabel ls
    → decode_fqdn (flags ∷ encode_labels ls)
      ≡ done (some (record { flags = flags; domain_name = join ls }))
unfolding decode_fqdn encode_labels join decode_labels
decode_fqdn_labels flags [] all = refl
decode_fqdn_labels flags (l ∷ ls) (good, all) =
    rw
      (
        small,
        decode-encode_labels l ls (length (l ++ encode_labels ls)) [] good all
            (omega (arith, length-append l (encode_labels ls), length-encode_labels ls)),
      )
      refl
  where
    small : length l % 256 ≡ length l
    small = omega (arith, good.1)

-- For a name whose labels, between its dots, are not empty and shorter than 256 bytes: decoding its
-- encoding gives back its flags and, in place of the name, the name without its dots.
pub decode-encode_fqdn :
    (f : DomainOption)
    → All IsLabel (split_dots f.domain_name)
    → decode_fqdn (encode_fqdn f)
      ≡ done (some (record { flags = f.flags; domain_name = without_dots f.domain_name }))
unfolding encode_fqdn
decode-encode_fqdn f all =
    decode_fqdn_labels f.flags (split_dots f.domain_name) all
    ∙ ap (λ n. done (some (record { flags = f.flags; domain_name = n })))
        (join-split_dots f.domain_name)
