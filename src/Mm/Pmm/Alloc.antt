-- ===== src/Mm/Pmm/Alloc.antt =====
-- kernel/mm/pmm.c, pmm_alloc_page: what it returns and what it changes.
use sol_os.Base.{
  subst, ℕ, ◌+◌, ◌-◌, ◌*◌, ◌≤◌, ◌<◌, ◌≡◌, sym, ap, ◌∙◌, ◌⊎◌, inl, inr, true, false, ◌||◌, none,
  some, arith, dec_lt, ◌==◌, Option-cases,
}
use sol_os.Mm.Pmm.{Pmm, bitmap_test, scan, take_page, find_free, alloc_page, page_size}
use sol_os.Mm.Pmm.Bits.{test-set}
use sol_os.Mm.Pmm.Count.{count_free, count_free-set, count_free_none, scan-some, scan-none}

-- The count is the bitmap's, the hint is in range, and page 0, whose address means failure, is taken.
pub record IsValid (s : Pmm) : Type 0 where
  pub present : s.present ≡ true
  pub hint_in : s.first_free_hint ≤ s.total_pages
  pub counted : s.free_count ≡ count_free s.bitmap s.total_pages
  pub zero_used : bitmap_test s.bitmap 0 ≡ true

pub find_free-some :
    (s : Pmm) {p : ℕ}
    → IsValid s
    → find_free s ≡ some p
    → (bitmap_test s.bitmap p ≡ false) × (p < s.total_pages) × (0 < p)
unfolding find_free
find_free-some s {p} v e = ground (
  arith,
  scan-some s.bitmap (s.total_pages - s.first_free_hint) s.first_free_hint {q = p},
  scan-some s.bitmap s.first_free_hint 0 {q = p},
)

pub find_free-none : (s : Pmm) → IsValid s → find_free s ≡ none → s.free_count ≡ 0
unfolding find_free
find_free-none s v e = v.counted ∙ count_free_none s.bitmap s.total_pages all_used
  where
    both :
        (scan s.bitmap (s.total_pages - s.first_free_hint) s.first_free_hint ≡ none)
        × (scan s.bitmap s.first_free_hint 0 ≡ none)
    both = ground arith

    all_used : (q : ℕ) → q < s.total_pages → bitmap_test s.bitmap q ≡ true
    all_used q l = elim (dec_lt q s.first_free_hint) [
      | yes below ↦ scan-none s.bitmap s.first_free_hint 0 both.1 q (omega arith) (omega arith)
      | no above ↦
          scan-none s.bitmap (s.total_pages - s.first_free_hint) s.first_free_hint both.0 q
            (omega arith) (omega arith)
    ]

pub take_page-IsValid :
    (s : Pmm) (p : ℕ)
    → IsValid s
    → bitmap_test s.bitmap p ≡ false
    → p < s.total_pages
    → IsValid (take_page s p)
unfolding take_page
take_page-IsValid s p v f l =
    ground (arith, count_free-set s.bitmap s.total_pages p l f, test-set s.bitmap p 0)

pub alloc_page-none : (s : Pmm) → IsValid s → find_free s ≡ none → alloc_page s ≡ (s, 0)
unfolding alloc_page
alloc_page-none s v e = ground arith

pub alloc_page-some :
    (s : Pmm) (p : ℕ)
    → IsValid s
    → find_free s ≡ some p
    → alloc_page s ≡ (take_page s p, p * page_size)
unfolding alloc_page
alloc_page-some s p v e = ground arith

pub take_page-count :
    (s : Pmm) (p : ℕ)
    → IsValid s
    → bitmap_test s.bitmap p ≡ false
    → p < s.total_pages
    → (take_page s p).free_count + 1 ≡ s.free_count
unfolding take_page
take_page-count s p v f l = ground (arith, count_free-set s.bitmap s.total_pages p l f)

-- From a valid state, `pmm_alloc_page` fails exactly when no page is free, and then changes
-- nothing; else it returns the address of a page other than 0 that was free and in range, marks that
-- page and no other as used, and counts one page less.
pub alloc_page_lem :
    (s : Pmm)
    → IsValid s
    → ((s.free_count ≡ 0) × (alloc_page s ≡ (s, 0)))
      ⊎ ((p : ℕ) × ((alloc_page s).1 ≡ p * page_size)
          × (0 < p)
          × (p < s.total_pages)
          × (bitmap_test s.bitmap p ≡ false)
          × ((q : ℕ) → bitmap_test (alloc_page s).0.bitmap q ≡ (p == q || bitmap_test s.bitmap q))
          × ((alloc_page s).0.free_count + 1 ≡ s.free_count))
unfolding alloc_page
alloc_page_lem s v = elim (Option-cases (find_free s)) [
  | inl e ↦ inl (find_free-none s v e, alloc_page-none s v e)
  | inr (p, e) ↦
      let (f, l, pos) = find_free-some s v e in
      let found = alloc_page-some s p v e in
      inr (
        p,
        ap (λ r. r.1) found,
        pos,
        l,
        f,
        λ q. ap (λ r. bitmap_test r.0.bitmap q) found ∙ test-set s.bitmap p q,
        ap (λ r. r.0.free_count + 1) found ∙ take_page-count s p v f l,
      )
]

-- `pmm_alloc_page` keeps the manager valid, whether it succeeds or fails.
pub alloc_page-IsValid : (s : Pmm) → IsValid s → IsValid (alloc_page s).0
alloc_page-IsValid s v = elim (Option-cases (find_free s)) [
  | inl e ↦ subst (λ r. IsValid r.0) (sym (alloc_page-none s v e)) v
  | inr (p, e) ↦
      let (f, l, _) = find_free-some s v e in
      subst (λ r. IsValid r.0) (sym (alloc_page-some s p v e)) (take_page-IsValid s p v f l)
]
