-- ===== src/Mm/Pmm/Free.antt =====
-- kernel/mm/pmm.c, pmm_free_page: which frees take effect, and what they undo.
use sol_os.Base.{
  subst, ℕ, ◌+◌, ◌*◌, ◌/◌, ◌%◌, ◌<◌, ◌≡◌, refl, sym, ap, ◌∙◌, ◌⊎◌, inl, inr, Bool, true, false,
  ◌&&◌, not, arith, ltb, ◌==◌, if◌then◌else◌, Bool-cases, Option-cases,
}
use sol_os.Mm.Pmm.{
  Pmm, bitmap_test, bitmap_set, give_page, take_page, find_free, free_page, alloc_page, page_size,
}
use sol_os.Mm.Pmm.Bits.{test-clear, test-set}
use sol_os.Mm.Pmm.Count.{count_free-clear}
use sol_os.Mm.Pmm.Alloc.{find_free-some, alloc_page-none, alloc_page-some, take_page-count, IsValid}

-- The frees that take effect: of the page-aligned address, other than 0, of a page in range and in use.
abbrev pub frees : Pmm → ℕ → Bool
frees s a =
    not (a == 0)
    && (a % page_size == 0)
    && ltb (a / page_size) s.total_pages
    && bitmap_test s.bitmap (a / page_size)

pub free_page-eq :
    (s : Pmm) (a : ℕ) → free_page s a ≡ (if frees s a then give_page s (a / page_size) else s)
unfolding free_page
free_page-eq s a = ground arith

pub give_page-IsValid :
    (s : Pmm) (p : ℕ)
    → IsValid s
    → 0 < p
    → p < s.total_pages
    → bitmap_test s.bitmap p ≡ true
    → IsValid (give_page s p)
unfolding give_page
give_page-IsValid s p v pos l u =
    ground (arith, count_free-clear s.bitmap s.total_pages p l u, test-clear s.bitmap p 0)

pub frees-facts :
    (s : Pmm) (a : ℕ)
    → frees s a ≡ true
    → (0 < a / page_size)
      × (a / page_size < s.total_pages)
      × (bitmap_test s.bitmap (a / page_size) ≡ true)
frees-facts s a h = ground arith

-- `pmm_free_page` keeps the manager valid whatever address it is given.
pub free_page-IsValid : (s : Pmm) (a : ℕ) → IsValid s → IsValid (free_page s a)
free_page-IsValid s a v = rw (free_page-eq s a) (elim (Bool-cases (frees s a)) [
  | inl e ↦
      let (pos, l, u) = frees-facts s a e in rw e (give_page-IsValid s (a / page_size) v pos l u)
  | inr e ↦ rw e v
])

pub free_page_yes :
    (s : Pmm) (a : ℕ) → frees s a ≡ true → free_page s a ≡ give_page s (a / page_size)
free_page_yes s a e = rw (free_page-eq s a) (ground arith)

pub free_page_no : (s : Pmm) (a : ℕ) → frees s a ≡ false → free_page s a ≡ s
free_page_no s a e = rw (free_page-eq s a) (ground arith)

pub give_page-test :
    (s : Pmm) (p q : ℕ)
    → bitmap_test (give_page s p).bitmap q ≡ (if p == q then false else bitmap_test s.bitmap q)
unfolding give_page
give_page-test s p q = test-clear s.bitmap p q

pub give_page-count : (s : Pmm) (p : ℕ) → (give_page s p).free_count ≡ s.free_count + 1
unfolding give_page
give_page-count s p = refl

frees-give_page : (s : Pmm) (a : ℕ) → frees (give_page s (a / page_size)) a ≡ false
frees-give_page s a = ground (arith, give_page-test s (a / page_size) (a / page_size))

-- A free takes effect exactly when the address is a non-zero multiple of the page size whose page is
-- in range and in use: then that page and no other becomes free and the count grows by one. Any
-- other call changes nothing.
pub free_page_lem :
    (s : Pmm) (a : ℕ)
    → ((frees s a ≡ true)
        × ((q : ℕ)
            → bitmap_test (free_page s a).bitmap q
              ≡ (if a / page_size == q then false else bitmap_test s.bitmap q))
        × ((free_page s a).free_count ≡ s.free_count + 1))
      ⊎ ((frees s a ≡ false) × (free_page s a ≡ s))
free_page_lem s a = elim (Bool-cases (frees s a)) [
  | inl e ↦ inl (
    e,
    λ q.
        ap (λ r. bitmap_test r.bitmap q) (free_page_yes s a e) ∙ give_page-test s (a / page_size) q,
    ap (λ r. r.free_count) (free_page_yes s a e) ∙ give_page-count s (a / page_size),
  )
  | inr e ↦ inr (e, free_page_no s a e)
]

-- Freeing the same address twice is the same as freeing it once.
pub free_page_twice : (s : Pmm) (a : ℕ) → free_page (free_page s a) a ≡ free_page s a
free_page_twice s a = elim (Bool-cases (frees s a)) [
  | inl e ↦
      rw (free_page_yes s a e) (free_page_no (give_page s (a / page_size)) a (frees-give_page s a))
  | inr e ↦ ap (λ r. free_page r a) (free_page_no s a e)
]

frees-take_page :
    (s : Pmm) (p : ℕ) → 0 < p → p < s.total_pages → frees (take_page s p) (p * page_size) ≡ true
unfolding take_page
frees-take_page s p pos l = ground (arith, test-set s.bitmap p p)

give-take_page :
    (s : Pmm) (p q : ℕ)
    → bitmap_test s.bitmap p ≡ false
    → bitmap_test (give_page (take_page s p) p).bitmap q ≡ bitmap_test s.bitmap q
unfolding give_page take_page
give-take_page s p q f =
    ground (arith, test-clear (bitmap_set s.bitmap p) p q, test-set s.bitmap p q)

-- The address of a page leads back to the page.
free_page-take_page :
    (s : Pmm) (p : ℕ)
    → 0 < p
    → p < s.total_pages
    → free_page (take_page s p) (p * page_size) ≡ give_page (take_page s p) p
free_page-take_page s p pos l =
    let back : p * page_size / page_size ≡ p = omega arith in
    free_page_yes (take_page s p) (p * page_size) (frees-take_page s p pos l)
    ∙ ap (give_page (take_page s p)) back

-- What a free does just after an allocation: the same tests and the same count.
abbrev pub Restored : Pmm → Pmm → Type 0
Restored s t =
    ((q : ℕ) → bitmap_test t.bitmap q ≡ bitmap_test s.bitmap q) × (t.free_count ≡ s.free_count)

-- Freeing the address that `pmm_alloc_page` returned, 0 included, restores the test of every page
-- and the count of free pages.
pub free_page-alloc_page :
    (s : Pmm) → IsValid s → Restored s (free_page (alloc_page s).0 (alloc_page s).1)
free_page-alloc_page s v = elim (Option-cases (find_free s)) [
  | inl e ↦
      subst (λ (r : Pmm × ℕ). Restored s (free_page r.0 r.1)) (sym (alloc_page-none s v e))
        (subst (Restored s) (sym (free_page_no s 0 refl)) (λ q. refl, refl))
  | inr (p, e) ↦
      let (f, l, pos) = find_free-some s v e in
      subst (λ (r : Pmm × ℕ). Restored s (free_page r.0 r.1)) (sym (alloc_page-some s p v e))
        (subst (Restored s) (sym (free_page-take_page s p pos l)) (
          λ q. give-take_page s p q f,
          give_page-count (take_page s p) p ∙ take_page-count s p v f l,
        ))
]
