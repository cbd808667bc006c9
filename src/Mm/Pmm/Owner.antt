-- ===== src/Mm/Pmm/Owner.antt =====
-- Clients of kernel/mm/pmm.c: any sequence of pmm_alloc_page and pmm_free_page by callers that free
-- only what they hold.
use sol_os.Base.{
  subst, ℕ, ◌+◌, ◌*◌, ◌/◌, ◌%◌, ◌<◌, ◌≡◌, ◌≢◌, inl, inr, true, false, none, some, List, ◌∷◌, ◌++◌,
  arith, ◌==◌, if◌then◌else◌, Option-cases, length, All, Distinct, All-imp, All-and, All-middle,
  Distinct-middle, length_middle,
}
use sol_os.Mm.Pmm.{
  Pmm, bitmap_test, take_page, give_page, find_free, free_page, alloc_page, page_size,
}
use sol_os.Mm.Pmm.Bits.{test-set}
use sol_os.Mm.Pmm.Alloc.{
  IsValid, find_free-some, alloc_page-none, alloc_page-some, take_page-IsValid, take_page-count,
}
use sol_os.Mm.Pmm.Free.{frees, free_page_yes, free_page-IsValid, give_page-test, give_page-count}

-- The manager and the addresses that its callers hold.
pub record System : Type 0 where
  pub pmm : Pmm
  pub owned : List ℕ

-- A caller of `pmm_alloc_page` holds what it returned, unless that is 0.
unfoldable pub after_alloc : System → System
after_alloc t =
    let r = alloc_page t.pmm in
    record { pmm = r.0; owned = if r.1 == 0 then t.owned else r.1 ∷ t.owned }

-- The `held` case frees an address that its caller holds, and gives it up.
pub data Step (t : System) : System → Type 0 where
  alloc : Step t (after_alloc t)
  held :
      (xs : List ℕ) (a : ℕ) (ys : List ℕ)
      → t.owned ≡ xs ++ a ∷ ys
      → Step t (record { pmm = free_page t.pmm a; owned = xs ++ ys })

pub data Reach (s : System) : System → Type 0 where
  here : Reach s s
  next : {t u : System} → Reach s t → Step t u → Reach s u

-- The address of a page that is in use.
abbrev pub Held : Pmm → ℕ → Type 0
Held s a =
    (0 < a)
    × (a % page_size ≡ 0)
    × (a / page_size < s.total_pages)
    × (bitmap_test s.bitmap (a / page_size) ≡ true)

-- `total` counts the pages that are free or held.
pub record Inv (total : ℕ) (t : System) : Type 0 where
  pub valid : IsValid t.pmm
  pub held : All (Held t.pmm) t.owned
  pub distinct : Distinct t.owned
  pub conserved : length t.owned + t.pmm.free_count ≡ total

Held-take_page : (s : Pmm) (p a : ℕ) → Held s a → Held (take_page s p) a
unfolding take_page
Held-take_page s p a h = ground (arith, test-set s.bitmap p (a / page_size))

Held-new : (s : Pmm) (p : ℕ) → 0 < p → p < s.total_pages → Held (take_page s p) (p * page_size)
unfolding take_page
Held-new s p pos l = ground (arith, test-set s.bitmap p p)

-- A free page's address is held by nobody.
fresh : (s : Pmm) (p a : ℕ) → bitmap_test s.bitmap p ≡ false → Held s a → p * page_size ≢ a
fresh s p a f h e =
    let same : a / page_size ≡ p = omega arith in
    let used : bitmap_test s.bitmap p ≡ true = rw (← same) h.3 in cc

after_alloc-none : (t : System) → IsValid t.pmm → find_free t.pmm ≡ none → after_alloc t ≡ t
unfolding after_alloc
after_alloc-none t v e = ground (arith, alloc_page-none t.pmm v e)

after_alloc-some :
    (t : System) (p : ℕ)
    → IsValid t.pmm
    → find_free t.pmm ≡ some p
    → 0 < p
    → after_alloc t ≡ record { pmm = take_page t.pmm p; owned = (p * page_size) ∷ t.owned }
unfolding after_alloc
after_alloc-some t p v e pos = ground (arith, alloc_page-some t.pmm p v e)

take_page-Inv :
    (total : ℕ) (t : System) (p : ℕ)
    → Inv total t
    → bitmap_test t.pmm.bitmap p ≡ false
    → p < t.pmm.total_pages
    → 0 < p
    → Inv total (record { pmm = take_page t.pmm p; owned = (p * page_size) ∷ t.owned })
take_page-Inv total t p v f l pos = record {
  valid = take_page-IsValid t.pmm p v.valid f l;
  held = (Held-new t.pmm p pos l, All-imp (Held t.pmm) _ (Held-take_page t.pmm p) t.owned v.held);
  distinct = (All-imp (Held t.pmm) _ (λ a. fresh t.pmm p a f) t.owned v.held, v.distinct);
  conserved = omega (arith, take_page-count t.pmm p v.valid f l, v.conserved);
}

after_alloc-Inv : (total : ℕ) (t : System) → Inv total t → Inv total (after_alloc t)
after_alloc-Inv total t v = elim (Option-cases (find_free t.pmm)) [
  | inl e ↦ rw (after_alloc-none t v.valid e) v
  | inr (p, e) ↦
      let (f, l, pos) = find_free-some t.pmm v.valid e in
      rw (after_alloc-some t p v.valid e pos) (take_page-Inv total t p v f l pos)
]

Held-frees : (s : Pmm) (a : ℕ) → Held s a → frees s a ≡ true
Held-frees s a h = ground arith

-- Another held address stays held.
Held-give_page :
    (s : Pmm) (a b : ℕ) → Held s a → a ≢ b × Held s b → Held (give_page s (a / page_size)) b
unfolding give_page
Held-give_page s a b h k = ground (arith, give_page-test s (a / page_size) (b / page_size))

held-Inv :
    (total : ℕ) (s : Pmm) (xs : List ℕ) (a : ℕ) (ys : List ℕ)
    → Inv total (record { pmm = s; owned = xs ++ a ∷ ys })
    → Inv total (record { pmm = free_page s a; owned = xs ++ ys })
held-Inv total s xs a ys v =
    let (h, hs) = All-middle (Held s) xs a ys v.held in
    let (ne, d) = Distinct-middle xs a ys v.distinct in
    let given = free_page_yes s a (Held-frees s a h) in
    record {
      valid = free_page-IsValid s a v.valid;
      held = rw given (
          All-imp _ _ (λ b k. Held-give_page s a b h k) (xs ++ ys)
            (All-and (λ y. a ≢ y) (Held s) (xs ++ ys) ne hs));
      distinct = d;
      conserved =
          rw given
            (omega (arith, give_page-count s (a / page_size), length_middle xs a ys, v.conserved));
    }

Step-Inv : (total : ℕ) {t u : System} → Step t u → Inv total t → Inv total u
Step-Inv total {t} alloc v = after_alloc-Inv total t v
Step-Inv total {t} (held xs a ys e) v =
    held-Inv total t.pmm xs a ys (subst (λ l. Inv total (record { pmm = t.pmm; owned = l })) e v)

-- After any sequence of allocations, and frees of held addresses: the held addresses are distinct
-- page addresses in range, each marked in use, the manager is valid, and held and free pages add
-- up to the same number throughout.
pub Reach-Inv : (total : ℕ) {s t : System} → Reach s t → Inv total s → Inv total t
Reach-Inv total here v = v
Reach-Inv total (next r st) v = Step-Inv total st (Reach-Inv total r v)
