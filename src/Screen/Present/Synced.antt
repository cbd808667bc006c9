-- ===== src/Screen/Present/Synced.antt =====
-- kernel/desktop.c, present_flip: the damage of two frames is enough to keep both pages.
use sol_os.Base.{
  subst, ℕ, zero, suc, ◌+◌, ◌-◌, ◌*◌, ◌^◌, ◌≤◌, ◌<◌, ◌≡◌, refl, sym, ap, ◌∙◌, ◌⊎◌, inl, inr, true,
  false, ◌&&◌, arith, Bool-cases, if_true, if_false,
}
use sol_os.Base.Int.{ℤ, ◌+ℤ◌, ◌≤ℤ◌, ltb_ℤ, leb_ℤ, IsI64, pos, negsuc}
use sol_os.Screen.Clip.{Screen}
use sol_os.Screen.Fill.{Buffer}
use sol_os.Screen.Fill.Pixels.{row_end}
use sol_os.Screen.Damage.{Damage}
use sol_os.Screen.Damage.Cover.{Covers}
use sol_os.Screen.Present.{Frame, page_base, fb_flip_pages, blit_damage, present_flip}
use sol_os.Screen.Present.Blit.{shown_at, OffPage}
use sol_os.Screen.Present.Copied.{blit_rect_lem}

-- A recorded damage lies on the screen.
abbrev pub OnFrame : Screen → Damage → Type 0
OnFrame s d =
    d.present ≡ true
    → (pos 0 ≤ℤ d.x)
      × (pos 0 ≤ℤ d.w)
      × (d.x +ℤ d.w ≤ℤ pos s.width)
      × (pos 0 ≤ℤ d.y)
      × (pos 0 ≤ℤ d.h)
      × (d.y +ℤ d.h ≤ℤ pos s.height)

-- The pixels of a page that are not in the damages show the back buffer.
abbrev pub Shows : Screen → ℕ → (ℤ → ℤ → Type 0) → Buffer → Buffer → Type 0
Shows s page Stale v m =
    (px py : ℕ)
    → px < s.width
    → py < s.height
    → (Stale (pos px) (pos py) → ⊥)
    → v (shown_at (page_base s page) s.width px py) ≡ m (py * s.width + px)

-- What holds between two frames: the page on display misses this frame's damage at most, the other
-- page also that of the frame before.
abbrev pub Synced : Screen → Frame → Type 0
Synced s f =
    (f.front ≤ 1)
    × (f.y_offset ≡ f.front * s.height)
    × OnFrame s f.damage
    × OnFrame s f.damage_prev
    × Shows s f.front (Covers f.damage) f.vram f.bb
    × Shows s (1 - f.front) (λ p q. Covers f.damage p q ⊎ Covers f.damage_prev p q) f.vram f.bb

dec_Covers : (d : Damage) (p q : ℤ) → Covers d p q ⊎ (Covers d p q → ⊥)
dec_Covers d p q =
    elim (Bool-cases
      (d.present && leb_ℤ d.x p && ltb_ℤ p (d.x +ℤ d.w) && leb_ℤ d.y q && ltb_ℤ q (d.y +ℤ d.h))) [
        | inl e ↦ inl (ground arith)
        | inr e ↦ inr λ c. ground arith
      ]

span-IsI64 :
    (x w : ℤ) (n : ℕ) → pos 0 ≤ℤ x → pos 0 ≤ℤ w → x +ℤ w ≤ℤ pos n → n < 2 ^ 63 → IsI64 x × IsI64 w
unfolding ◌+ℤ◌
span-IsI64 (pos a) (pos b) n h k l b63 = ground arith
span-IsI64 (negsuc a) w n h k l b63 = absurd (omega arith)
span-IsI64 (pos a) (negsuc b) n h k l b63 = absurd (omega arith)

-- A page after the copy of a damage.
abbrev DamageAfter : Screen → ℕ → Damage → Buffer → Buffer → Buffer → Type 0
DamageAfter s base d m v new =
    ((px py : ℕ)
      → px < s.width
      → py < s.height
      → (Covers d (pos px) (pos py) → new (shown_at base s.width px py) ≡ m (py * s.width + px))
        × ((Covers d (pos px) (pos py) → ⊥)
            → new (shown_at base s.width px py) ≡ v (shown_at base s.width px py)))
    × ((j : ℕ) → OffPage base s.width s.height j → new j ≡ v j)

blit_damage_lem :
    (s : Screen) (base : ℕ) (v m : Buffer) (d : Damage)
    → s.clip_active ≡ false
    → s.width < 2 ^ 63
    → s.height < 2 ^ 63
    → OnFrame s d
    → DamageAfter s base d m v (blit_damage s base v m d)
unfolding blit_damage
blit_damage_lem s base v m d c bw bh fits = elim (Bool-cases d.present) [
  | inl e ↦
      let o = fits e in
      let xs = span-IsI64 d.x d.w s.width o.0 o.1 o.2 bw in
      let ys = span-IsI64 d.y d.h s.height o.3 o.4 o.5 bh in
      let after =
        blit_rect_lem s s.width base v m d.x d.y d.w d.h (omega arith) bw bh xs.0 ys.0 xs.1 ys.1 in
      subst (λ n. DamageAfter s base d m v n) (sym (if_true _ _ e))
        (
          λ px py p q. (
            λ i. (after.0 px py p).0 (i.1, ground arith, λ t. absurd (ground arith)),
            λ i. (after.0 px py p).1 λ w. i (e, w.0),
          ),
          after.1,
        )
  | inr e ↦
      subst (λ n. DamageAfter s base d m v n) (sym (if_false _ _ e))
        (λ px py p q. (λ i. absurd (ground arith), λ i. refl), λ j off. refl)
]

other_page :
    (front w h px py : ℕ)
    → front ≤ 1
    → px < w
    → py < h
    → OffPage ((1 - front) * (h * w)) w h (front * (h * w) + (py * w + px))
other_page zero w h px py f p q = inl (ground (arith, row_end py h w))
other_page (suc zero) w h px py f p q = inr (omega arith)
other_page (suc (suc n)) w h px py f p q = absurd (omega arith)

flip_offset :
    (s : Screen) (front y_offset : ℕ)
    → front ≤ 1
    → s.height ≤ 65535
    → fb_flip_pages s (1 - front) y_offset ≡ (1 - front) * s.height
unfolding fb_flip_pages
flip_offset s zero y_offset f h = ground arith
flip_offset s (suc zero) y_offset f h = ground arith
flip_offset s (suc (suc n)) y_offset f h = absurd (omega arith)

-- Both damages copied: nothing on the page is stale, and nothing off it has changed.
two_copies :
    (s : Screen) (page : ℕ) (f : Frame)
    → s.clip_active ≡ false
    → s.width < 2 ^ 63
    → s.height < 2 ^ 63
    → OnFrame s f.damage
    → OnFrame s f.damage_prev
    → Shows s page (λ p q. Covers f.damage p q ⊎ Covers f.damage_prev p q) f.vram f.bb
    → Shows s page
        (λ p q. ⊥)
        (blit_damage s
          (page_base s page)
          (blit_damage s (page_base s page) f.vram f.bb f.damage_prev)
          f.bb
          f.damage)
        f.bb
two_copies s page f c bw bh on on_prev shows px py p q stale =
    let v1 = blit_damage s (page_base s page) f.vram f.bb f.damage_prev in
    let first =
      (blit_damage_lem s (page_base s page) f.vram f.bb f.damage_prev c bw bh on_prev).0 px py p
        q in
    let second = (blit_damage_lem s (page_base s page) v1 f.bb f.damage c bw bh on).0 px py p q in
    elim (dec_Covers f.damage (pos px) (pos py)) [
      | inl i ↦ second.0 i
      | inr i ↦ elim (dec_Covers f.damage_prev (pos px) (pos py)) [
        | inl k ↦ second.1 i ∙ first.0 k
        | inr k ↦
            second.1 i ∙ first.1 k ∙ shows px py p q (λ h. elim h [ inl a ↦ i a | inr a ↦ k a ])
      ]
    ]

other_kept :
    (s : Screen) (f : Frame)
    → s.clip_active ≡ false
    → s.width < 2 ^ 63
    → s.height < 2 ^ 63
    → Synced s f
    → Shows s f.front (Covers f.damage) (present_flip s f).vram f.bb
unfolding present_flip
other_kept s f c bw bh sync px py p q stale =
    let base = page_base s (1 - f.front) in
    let v1 = blit_damage s base f.vram f.bb f.damage_prev in
    let off = other_page f.front s.width s.height px py sync.0 p q in
    (blit_damage_lem s base v1 f.bb f.damage c bw bh sync.2).1 _ off
    ∙ (blit_damage_lem s base f.vram f.bb f.damage_prev c bw bh sync.3).1 _ off
    ∙ sync.4 px py p q stale

-- The pixel on display.
abbrev pub displayed : Screen → Frame → ℕ → ℕ → ℕ
displayed s f px py = f.vram ((py + f.y_offset) * s.width + px)

at_offset :
    (s : Screen) (y_offset page px py : ℕ)
    → y_offset ≡ page * s.height
    → (py + y_offset) * s.width + px ≡ shown_at (page_base s page) s.width px py
at_offset s y_offset page px py e = rw e (grind arith)

-- With no clip active and a screen of at most 65535 rows, which fb_enable_double_buffer checks, and
-- two pages that miss no more than their damages: after present_flip the screen displays the back
-- buffer at every pixel, whatever the pages held before, and the pages again miss no more than
-- their damages.
pub present_flip_lem :
    (s : Screen) (f : Frame)
    → s.clip_active ≡ false
    → s.width < 2 ^ 63
    → s.height ≤ 65535
    → Synced s f
    → ((px py : ℕ)
        → px < s.width
        → py < s.height
        → displayed s (present_flip s f) px py ≡ f.bb (py * s.width + px))
      × Synced s (present_flip s f)
unfolding present_flip
present_flip_lem s f c bw bh sync =
    let fresh = two_copies s (1 - f.front) f c bw (omega arith) sync.2 sync.3 sync.5 in
    let twice : 1 - (1 - f.front) ≡ f.front = omega (arith, sync.0) in
    let offset = flip_offset s f.front f.y_offset sync.0 bh in
    (
      λ px py p q.
          ap (present_flip s f).vram (at_offset s _ (1 - f.front) px py offset)
          ∙ fresh px py p q (λ o. o),
      (
        omega arith,
        offset,
        λ e. absurd (ground arith),
        sync.2,
        λ px py p q stale. fresh px py p q (λ o. o),
        λ px py p q stale.
            subst
              (λ k.
                (present_flip s f).vram (shown_at (page_base s k) s.width px py)
                ≡ f.bb (py * s.width + px))
              (sym twice) (other_kept s f c bw (omega arith) sync px py p q λ i. stale (inr i)),
      ),
    )
