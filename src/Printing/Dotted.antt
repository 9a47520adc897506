-- ===== src/Printing/Dotted.antt =====
-- Addresses as four numbers between dots, and what the readers of texts find in them.
use nff_go_nat.Base.{
  ℕ, ◌≤◌, ◌<◌, ◌≡◌, refl, ◌∙◌, ap, sym, subst, ◌⊎◌, inl, inr, true, false, ◌==◌, some, All, List,
  [], ◌∷◌, ◌++◌, length, arith,
}
use nff_go_nat.Text.{Text, contains, split, split_host_port, unbracketed}
use nff_go_nat.Text.Numerals.{itoa}
use nff_go_nat.Text.Parts.{contains-append, split_one, split-at, cut_last-at}
use nff_go_nat.Text.Printed.{IsDigit, itoa_head, itoa-IsDigit, contains-itoa, parse_digits-itoa}
use nff_go_nat.Text.Ip.{octet, octets, parse_ipv4, mapped, parse_ip, parse_ip_by}
use nff_go_nat.Printing.{dotted}

octet-itoa : (n : ℕ) → n ≤ 255 → octet (itoa n) ≡ some n
unfolding octet
octet-itoa n h = rw (parse_digits-itoa n) (ground arith)

next_octet :
    (n : ℕ) (parts : List Text) (bytes : List ℕ)
    → n ≤ 255
    → octets parts ≡ some bytes
    → octets (itoa n ∷ parts) ≡ some (n ∷ bytes)
unfolding octets
next_octet n parts bytes h e = rw (octet-itoa n h, e, octets) refl

four_octets :
    (s : Text) (bytes : List ℕ)
    → octets (split b'.' s) ≡ some bytes
    → (length bytes == 4) ≡ true
    → parse_ipv4 s ≡ some bytes
unfolding parse_ipv4
four_octets s bytes e h = rw (e, h, parse_ipv4) refl

no_octets : octets [] ≡ some []
unfolding octets
no_octets = refl

-- No other separator than the dot stands in an address.
module _ (a b c d : ℕ) where
  pub contains-dotted :
      (sep : ℕ)
      → (sep < b'.') ⊎ ((sep ≡ b'/') ⊎ (b'9' < sep))
      → contains sep (dotted a b c d) ≡ false
  unfolding contains
  contains-dotted sep h =
      joined a (itoa b ++ _)
        (joined b (itoa c ++ _) (joined c (itoa d) (contains-itoa sep d digit)))
    where
      digit : (sep < b'0') ⊎ (b'9' < sep)
      digit = elim h [
        | inl x ↦ inl (omega arith)
        | inr (inl x) ↦ inl (omega arith)
        | inr (inr x) ↦ inr x
      ]

      dot : (t : Text) → contains sep t ≡ false → contains sep (b'.' ∷ t) ≡ false
      dot t k = ground (arith, h)

      joined :
          (n : ℕ) (t : Text) → contains sep t ≡ false → contains sep (itoa n ++ (b'.' ∷ t)) ≡ false
      joined n t k = contains-append sep (itoa n) (b'.' ∷ t) (contains-itoa sep n digit) (dot t k)

  split-dotted : split b'.' (dotted a b c d) ≡ itoa a ∷ itoa b ∷ itoa c ∷ itoa d ∷ []
  split-dotted =
      rw
        (
          split-at b'.' (itoa a) (itoa b ++ (b'.' ∷ (itoa c ++ (b'.' ∷ itoa d))))
              (contains-itoa b'.' a (inl (omega arith))),
          split-at b'.' (itoa b) (itoa c ++ (b'.' ∷ itoa d))
              (contains-itoa b'.' b (inl (omega arith))),
          split-at b'.' (itoa c) (itoa d) (contains-itoa b'.' c (inl (omega arith))),
          split_one b'.' (itoa d) (contains-itoa b'.' d (inl (omega arith))),
        )
        refl

pub parse_ipv4-dotted :
    (a b c d : ℕ)
    → a ≤ 255
    → b ≤ 255
    → c ≤ 255
    → d ≤ 255
    → parse_ipv4 (dotted a b c d) ≡ some (a ∷ b ∷ c ∷ d ∷ [])
parse_ipv4-dotted a b c d ha hb hc hd =
    four_octets (dotted a b c d) (a ∷ b ∷ c ∷ d ∷ [])
      (ap octets (split-dotted a b c d) ∙ all_octets) refl
  where
    all_octets : octets (itoa a ∷ itoa b ∷ itoa c ∷ itoa d ∷ []) ≡ some (a ∷ b ∷ c ∷ d ∷ [])
    all_octets =
        next_octet a _ _ ha
          (next_octet b _ _ hb (next_octet c _ _ hc (next_octet d _ _ hd no_octets)))

-- net.ParseIP finds the dot before any colon.
to_first_dot :
    (s t : Text) (digits : Text)
    → All IsDigit digits
    → parse_ip_by s (digits ++ (b'.' ∷ t)) ≡ mapped (parse_ipv4 s)
unfolding parse_ip_by
to_first_dot s t [] h = refl
to_first_dot s t (x ∷ digits) (h, hs) = ground (arith, to_first_dot s t digits hs)

pub parse_ip-dotted :
    (a b c d : ℕ) → parse_ip (dotted a b c d) ≡ mapped (parse_ipv4 (dotted a b c d))
unfolding parse_ip
parse_ip-dotted a b c d =
    to_first_dot (dotted a b c d) (itoa b ++ (b'.' ∷ (itoa c ++ (b'.' ∷ itoa d)))) (itoa a)
      (itoa-IsDigit a)

-- net.SplitHostPort of a host without brackets and colons.
plain_host :
    (c : ℕ) (rest port : Text)
    → (c == b'[') ≡ false
    → contains b':' (c ∷ rest) ≡ false
    → contains b'[' (c ∷ rest) ≡ false
    → contains b']' (c ∷ rest) ≡ false
    → contains b':' port ≡ false
    → contains b'[' port ≡ false
    → contains b']' port ≡ false
    → split_host_port ((c ∷ rest) ++ (b':' ∷ port)) ≡ some (c ∷ rest, port)
unfolding split_host_port unbracketed
plain_host c rest port h h1 h2 h3 p1 p2 p3 =
    rw (h, cut_last-at b':' (c ∷ rest) port p1, h1, h2, h3, p2, p3, unbracketed) refl

pub split_host_port-dotted :
    (a b c d port : ℕ)
    → split_host_port (dotted a b c d ++ (b':' ∷ itoa port)) ≡ some (dotted a b c d, itoa port)
split_host_port-dotted a b c d port =
    let (x, rest, e, digit) = itoa_head a in
    starting (dotted a b c d) x (rest ++ (b'.' ∷ (itoa b ++ (b'.' ∷ (itoa c ++ (b'.' ∷ itoa d))))))
      (ap (λ front. front ++ (b'.' ∷ (itoa b ++ (b'.' ∷ (itoa c ++ (b'.' ∷ itoa d)))))) e)
      (ground (arith, digit)) (without b':' (omega arith)) (without b'[' (omega arith))
      (without b']' (omega arith))
  where
    without : (sep : ℕ) → b'9' < sep → contains sep (dotted a b c d) ≡ false
    without sep h = contains-dotted a b c d sep (inr (inr h))

    without_port : (sep : ℕ) → b'9' < sep → contains sep (itoa port) ≡ false
    without_port sep h = contains-itoa sep port (inr h)

    starting :
        (host : Text) (x : ℕ) (rest : Text)
        → host ≡ x ∷ rest
        → (x == b'[') ≡ false
        → contains b':' host ≡ false
        → contains b'[' host ≡ false
        → contains b']' host ≡ false
        → split_host_port (host ++ (b':' ∷ itoa port)) ≡ some (host, itoa port)
    starting host x rest e h =
        subst
          (λ t.
            contains b':' t ≡ false
            → contains b'[' t ≡ false
            → contains b']' t ≡ false
            → split_host_port (t ++ (b':' ∷ itoa port)) ≡ some (t, itoa port))
          (sym e)
          (λ h1 h2 h3.
            plain_host x rest (itoa port) h h1 h2 h3 (without_port b':' (omega arith))
              (without_port b'[' (omega arith)) (without_port b']' (omega arith)))
