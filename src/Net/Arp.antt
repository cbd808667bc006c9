-- ===== src/Net/Arp.antt =====
-- kernel/netstack.c: the ARP cache. An address is the number that `ip4` reads.
use sol_os.Base.{
  ℕ, ◌≡◌, refl, ◌≢◌, ◌⊎◌, inl, inr, Bool, true, false, ◌&&◌, ◌||◌, not, Option, none, some, List,
  [], ◌∷◌, arith, ◌==◌, if◌then◌else◌, Bool-cases,
}

pub record ArpEnt : Type 0 where
  pub ip : ℕ
  pub mac : List ℕ
  pub valid : Bool

abbrev pub hit : ArpEnt → ℕ → Bool
hit e ip = e.valid && (e.ip == ip)

unfoldable pub arp_lookup : List ArpEnt → ℕ → Option (List ℕ)
arp_lookup [] ip = none
arp_lookup (e ∷ es) ip = if hit e ip then some e.mac else arp_lookup es ip

-- The first loop of `arp_update`: the entry of a known address.
unfoldable pub refresh : List ArpEnt → ℕ → List ℕ → Option (List ArpEnt)
refresh [] ip mac = none
refresh (e ∷ es) ip mac = elim (hit e ip) [
  | true ↦ some (record e { mac = mac } ∷ es)
  | false ↦ elim (refresh es ip mac) [ none ↦ none | some es' ↦ some (e ∷ es') ]
]

-- The second loop: the first free entry.
unfoldable pub claim_free : List ArpEnt → ℕ → List ℕ → Option (List ArpEnt)
claim_free [] ip mac = none
claim_free (e ∷ es) ip mac = elim e.valid [
  | false ↦ some (record { ip = ip; mac = mac; valid = true } ∷ es)
  | true ↦ elim (claim_free es ip mac) [ none ↦ none | some es' ↦ some (e ∷ es') ]
]

-- The cache is full: entry 0 goes.
unfoldable pub evict : List ArpEnt → ℕ → List ℕ → List ArpEnt
evict [] ip mac = []
evict (e ∷ es) ip mac = record e { ip = ip; mac = mac } ∷ es

unfoldable pub arp_update : List ArpEnt → ℕ → List ℕ → List ArpEnt
unfolding refresh claim_free evict
arp_update c ip mac = elim (refresh c ip mac) [
  | some c' ↦ c'
  | none ↦ elim (claim_free c ip mac) [ some c' ↦ c' | none ↦ evict c ip mac ]
]

-- What the first loop leaves: nothing for an unknown address, else the new entry and all others.
abbrev pub Stored : List ArpEnt → ℕ → List ℕ → List ArpEnt → Type 0
Stored c ip mac c' =
    (arp_lookup c' ip ≡ some mac) × ((a : ℕ) → a ≢ ip → arp_lookup c' a ≡ arp_lookup c a)

refresh_cases :
    (c : List ArpEnt) (ip : ℕ) (mac : List ℕ)
    → ((refresh c ip mac ≡ none) × (arp_lookup c ip ≡ none))
      ⊎ ((c' : List ArpEnt) × (refresh c ip mac ≡ some c') × Stored c ip mac c')
unfolding refresh arp_lookup
refresh_cases [] ip mac = inl (refl, refl)
refresh_cases (e ∷ es) ip mac = elim (Bool-cases (hit e ip)) [
  | inl t ↦
      inr (record e { mac = mac } ∷ es, rw (t, refresh) refl, (ground arith, λ a n. ground arith))
  | inr t ↦ elim (refresh_cases es ip mac) [
    | inl (u, v) ↦ inl (rw (t, u, refresh) refl, rw (t, arp_lookup) v)
    | inr (c', u, (v, k)) ↦
        inr (e ∷ c', rw (t, u, refresh) refl, (rw (t, arp_lookup) v, λ a n. ground (arith, k a n)))
  ]
]

-- The second loop, for an unknown address.
claim_free_cases :
    (c : List ArpEnt) (ip : ℕ) (mac : List ℕ)
    → arp_lookup c ip ≡ none
    → (claim_free c ip mac ≡ none)
      ⊎ ((c' : List ArpEnt) × (claim_free c ip mac ≡ some c') × Stored c ip mac c')
unfolding claim_free arp_lookup
claim_free_cases [] ip mac h = inl refl
claim_free_cases (e ∷ es) ip mac h = elim (Bool-cases e.valid) [
  | inl t ↦ elim (claim_free_cases es ip mac (ground arith)) [
    | inl u ↦ inl (rw (t, u, claim_free) refl)
    | inr (c', u, (v, k)) ↦ inr (e ∷ c', ground arith, (ground arith, λ a n. ground (arith, k a n)))
  ]
  | inr t ↦ inr (
    record { ip = ip; mac = mac; valid = true } ∷ es,
    rw (t, claim_free) refl,
    (ground arith, λ a n. ground arith),
  )
]

-- A free entry is one that no look-up finds.
unfoldable pub has_free : List ArpEnt → Bool
has_free [] = false
has_free (e ∷ es) = not e.valid || has_free es

claim_free-has_free :
    (c : List ArpEnt) (ip : ℕ) (mac : List ℕ) → has_free c ≡ true → claim_free c ip mac ≢ none
unfolding claim_free has_free
claim_free-has_free [] ip mac h e = ground arith
claim_free-has_free (x ∷ es) ip mac h e = ground (arith, claim_free-has_free es ip mac)

claim_free-valid :
    (e : ArpEnt) (es : List ArpEnt) (ip : ℕ) (mac : List ℕ)
    → claim_free (e ∷ es) ip mac ≡ none
    → e.valid ≡ true
unfolding claim_free
claim_free-valid e es ip mac h = ground arith

-- With a free entry in the cache, or an address that it knows, arp_update stores the new entry and
-- changes what is found for no other address.
pub arp_update-Stored :
    (c : List ArpEnt) (ip : ℕ) (mac : List ℕ)
    → (has_free c ≡ true) ⊎ (arp_lookup c ip ≢ none)
    → Stored c ip mac (arp_update c ip mac)
unfolding arp_update
arp_update-Stored c ip mac h = elim (refresh_cases c ip mac) [
  | inr (c', u, s) ↦ rw (u, arp_update) s
  | inl (u, v) ↦ elim (claim_free_cases c ip mac v) [
    | inr (c', w, s) ↦ rw (u, w, arp_update) s
    | inl w ↦ elim h [ inl f ↦ absurd (claim_free-has_free c ip mac f w) | inr g ↦ absurd (g v) ]
  ]
]

-- Whatever a cache of at least one entry holds, the address that arp_update was given is found
-- afterwards with its hardware address, also when the cache was full.
pub arp_lookup-arp_update :
    (e : ArpEnt) (es : List ArpEnt) (ip : ℕ) (mac : List ℕ)
    → arp_lookup (arp_update (e ∷ es) ip mac) ip ≡ some mac
unfolding arp_update arp_lookup evict claim_free
arp_lookup-arp_update e es ip mac = elim (refresh_cases (e ∷ es) ip mac) [
  | inr (c', u, (v, k)) ↦ rw (u, arp_update) v
  | inl (u, v) ↦ elim (claim_free_cases (e ∷ es) ip mac v) [
    | inr (c', w, (x, k)) ↦ rw (u, w, arp_update) x
    | inl w ↦ rw (u, w, arp_update, evict) (ground (arith, claim_free-valid e es ip mac w))
  ]
]
