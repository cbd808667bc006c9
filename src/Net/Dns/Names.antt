-- ===== src/Net/Dns/Names.antt =====
-- kernel/netstack.c, dns_build_name: a host's name as DNS labels.
use sol_os.Base.{
  ℕ, zero, suc, ◌+◌, ◌≤◌, ◌<◌, ◌≡◌, refl, sym, ap, ◌∙◌, true, false, List, [], ◌∷◌, ◌++◌, arith,
  ltb, ◌==◌, if◌then◌else◌, lt→ltb, if_true, length, length-append, take, drop, All,
}
use sol_os.Net.Dns.{label_len, dns_labels, dns_build_name, starts_with_dot, is_empty, one_label}

-- A label: 1 to 63 characters, none of which is a dot.
abbrev pub IsLabel : List ℕ → Type 0
IsLabel l = (0 < length l) × (length l < 64) × All (λ (c : ℕ). (c == 46) ≡ false) l

-- The labels with a dot between them.
unfoldable pub dotted : List ℕ → List (List ℕ) → List ℕ
dotted l [] = l
dotted l (k ∷ ks) = l ++ (46 ∷ dotted k ks)

-- Each label after its length.
unfoldable pub encoded : List ℕ → List (List ℕ) → List ℕ
encoded l [] = length l ∷ l
encoded l (k ∷ ks) = length l ∷ (l ++ encoded k ks)

label_len-append :
    (n : ℕ) (l rest : List ℕ)
    → length l < n
    → All (λ (c : ℕ). (c == 46) ≡ false) l
    → starts_with_dot rest ≡ true
    → label_len n (l ++ rest) ≡ length l
unfolding label_len
label_len-append zero l rest h d s = absurd (omega arith)
label_len-append (suc n) [] [] h d s = ground arith
label_len-append (suc n) [] (c ∷ cs) h d s = ground arith
label_len-append (suc n) (x ∷ l) rest h d s =
    ground (arith, label_len-append n l rest (omega arith) d.1 s)

label_len-whole :
    (n : ℕ) (l : List ℕ)
    → length l < n
    → All (λ (c : ℕ). (c == 46) ≡ false) l
    → label_len n l ≡ length l
unfolding label_len
label_len-whole zero l h d = absurd (omega arith)
label_len-whole (suc n) [] h d = refl
label_len-whole (suc n) (x ∷ l) h d = ground (arith, label_len-whole n l (omega arith) d.1)

take-append {ℓ} : {A : Type ℓ} (xs ys : List A) → take (length xs) (xs ++ ys) ≡ xs
take-append [] ys = refl
take-append (x ∷ xs) ys = ap (λ t. x ∷ t) (take-append xs ys)

drop-append {ℓ} : {A : Type ℓ} (xs ys : List A) → drop (length xs) (xs ++ ys) ≡ ys
drop-append [] ys = refl
drop-append (x ∷ xs) ys = drop-append xs ys

take-whole {ℓ} : {A : Type ℓ} (xs : List A) → take (length xs) xs ≡ xs
take-whole [] = refl
take-whole (x ∷ xs) = ap (λ t. x ∷ t) (take-whole xs)

drop-whole {ℓ} : {A : Type ℓ} (xs : List A) → drop (length xs) xs ≡ []
drop-whole [] = refl
drop-whole (x ∷ xs) = drop-whole xs

one_label-fits :
    (cap off : ℕ) (name : List ℕ) (part : ℕ) (rest more : List ℕ)
    → is_empty name ≡ false
    → part < 64
    → off + part + 1 < cap
    → one_label cap off name part rest more
      ≡ part ∷ (take part name ++ (if starts_with_dot rest then more else []))
unfolding one_label
one_label-fits cap off name part rest more e l h = ground arith

-- A round on a label that fits.
round_is :
    (n cap off : ℕ) (name : List ℕ) (k : ℕ)
    → is_empty name ≡ false
    → k < 64
    → off + k + 1 < cap
    → label_len 64 name ≡ k
    → dns_labels (suc n) cap off name
      ≡ k
        ∷ (take k name
            ++ (if starts_with_dot (drop k name)
                then dns_labels n cap (off + k + 1) (drop 1 (drop k name))
                else []))
unfolding dns_labels
round_is n cap off name k e l h p =
    ap
      (λ part.
        one_label cap off name part (drop part name)
          (dns_labels n cap (off + part + 1) (drop 1 (drop part name))))
      p
    ∙ one_label-fits cap off name k (drop k name)
        (dns_labels n cap (off + k + 1) (drop 1 (drop k name))) e l h

is_empty-label : (l rest : List ℕ) → 0 < length l → is_empty (l ++ rest) ≡ false
is_empty-label [] rest h = absurd (omega arith)
is_empty-label (x ∷ l) rest h = refl

append-[] {ℓ} : {A : Type ℓ} (xs : List A) → xs ++ [] ≡ xs
append-[] [] = refl
append-[] (x ∷ xs) = ap (λ t. x ∷ t) (append-[] xs)

last_label :
    (n cap off : ℕ) (l : List ℕ)
    → IsLabel l
    → off + length l + 1 < cap
    → dns_labels (suc n) cap off l ≡ length l ∷ l
last_label n cap off l p g =
    round_is n cap off l (length l) (ap is_empty (sym (append-[] l)) ∙ is_empty-label l [] p.0) p.1
      g (label_len-whole 64 l p.1 p.2)
    ∙ rw (take-whole l, drop-whole l) (ap (λ t. length l ∷ t) (append-[] l))

next_label :
    (n cap off : ℕ) (l rest : List ℕ)
    → IsLabel l
    → off + length l + 1 < cap
    → dns_labels (suc n) cap off (l ++ (46 ∷ rest))
      ≡ length l ∷ (l ++ dns_labels n cap (off + length l + 1) rest)
next_label n cap off l rest p g =
    round_is n cap off (l ++ (46 ∷ rest)) (length l) (is_empty-label l _ p.0) p.1 g
      (label_len-append 64 l (46 ∷ rest) p.1 p.2 refl)
    ∙ rw (take-append l (46 ∷ rest), drop-append l (46 ∷ rest)) refl

dns_labels-encoded :
    (n cap off : ℕ) (l : List ℕ) (ks : List (List ℕ))
    → IsLabel l
    → All IsLabel ks
    → length (dotted l ks) ≤ n
    → off + length (encoded l ks) < cap
    → dns_labels n cap off (dotted l ks) ≡ encoded l ks
unfolding dotted encoded
dns_labels-encoded zero cap off l [] p q h g = absurd (omega (arith, p.0))
dns_labels-encoded zero cap off l (k ∷ ks) p q h g =
    absurd (omega (arith, p.0, length-append l (46 ∷ dotted k ks)))
dns_labels-encoded (suc n) cap off l [] p q h g = last_label n cap off l p (omega arith)
dns_labels-encoded (suc n) cap off l (k ∷ ks) p q h g =
    let size = length-append l (encoded k ks) in
    let chars = length-append l (46 ∷ dotted k ks) in
    next_label n cap off l (dotted k ks) p (omega (arith, size))
    ∙ ap (λ t. length l ∷ (l ++ t))
        (dns_labels-encoded n cap (off + length l + 1) k ks q.0 q.1 (omega (arith, chars))
          (omega (arith, size)))

-- For labels of 1 to 63 characters without dots, joined by dots, dns_build_name writes each label
-- after its length and then a 0, when the result fits into its buffer with a byte to spare; the fuel
-- of the model is enough for it.
pub dns_build_name_lem :
    (cap : ℕ) (l : List ℕ) (ks : List (List ℕ))
    → IsLabel l
    → All IsLabel ks
    → length (encoded l ks) < cap
    → dns_build_name cap (dotted l ks) ≡ encoded l ks ++ (0 ∷ [])
unfolding dns_build_name
dns_build_name_lem cap l ks p q g =
    ap (λ t. t ++ (if ltb (length t) cap then 0 ∷ [] else []))
      (dns_labels-encoded (length (dotted l ks)) cap 0 l ks p q (omega arith) (omega arith))
    ∙ ap (λ t. encoded l ks ++ t) (if_true _ _ (lt→ltb _ _ g))
