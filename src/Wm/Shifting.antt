-- ===== src/Wm/Shifting.antt =====
-- viewshift of src/main.c: the tag that it shows.
use native.Mathlib.Nat.{pow-suc}
use monowm.Base.{
  and_low, pow_pos, pow-lt, ℕ, zero, suc, ◌/◌, ◌%◌, ◌^◌, ◌<◌, ◌≡◌, refl, ap, ◌∙◌, some, arith,
  ==_ne, bit_and, ℤ, pos, negsuc, sym, subst, ◌≢◌, ◌+◌, ◌-◌, ◌*◌, inl, inr, true, false, Bool-cases,
  ltb, ◌==◌, test_bit, test_bit-and, test_bit-pow, test_bit-zero, test_bit-low, test_bit-suc,
}
use monowm.Wm.State.{Monitor, Server, tagset, selected, tag_mask, tagcount, lowest}
use monowm.Wm.Tags.{view, viewshift, shift_idx, first_idx}
use monowm.Wm.Showing.{Shows, view-Shows}

pow_low : (i : ℕ) → i < tagcount → bit_and (2 ^ i) tag_mask ≡ 2 ^ i
pow_low i l = and_low tagcount (2 ^ i) (pow-lt tagcount i l)

lowest-pow : (n i : ℕ) → i < n → lowest n (2 ^ i) ≡ i
unfolding lowest
lowest-pow zero i l = elim l [ ]
lowest-pow (suc n) zero l = refl
lowest-pow (suc n) (suc i) l =
    let half : 2 ^ suc i / 2 ≡ 2 ^ i = omega (arith, pow-suc 2 i) in
    let even : 2 ^ suc i % 2 ≡ 0 = omega (arith, pow-suc 2 i) in
    rw (half, even) (ap suc (lowest-pow n i (omega arith)))

first_idx-pow : (i : ℕ) → i < tagcount → first_idx (2 ^ i) ≡ i
unfolding first_idx
first_idx-pow i l =
    rw (pow_low i l, ==_ne (2 ^ i) 0 (λ e. absurd (omega (arith, pow_pos i))))
      (lowest-pow tagcount i l)

-- The opposite shift.
abbrev pub back_by : ℤ → ℤ
back_by (pos zero) = pos 0
back_by (pos (suc n)) = negsuc n
back_by (negsuc n) = pos (suc n)

pub shift_idx-lt : (i : ℕ) (d : ℤ) → shift_idx i d < tagcount
unfolding shift_idx
shift_idx-lt i (pos n) = omega arith
shift_idx-lt i (negsuc n) = ground arith

-- Shifting back returns to the index that one came from.
pub shift_idx-back : (i : ℕ) (d : ℤ) → i < tagcount → shift_idx (shift_idx i d) (back_by d) ≡ i
unfolding shift_idx
shift_idx-back i (pos zero) l = omega arith
shift_idx-back i (pos (suc n)) l = ground arith
shift_idx-back i (negsuc n) l = ground arith

pub viewshift-view :
    (s : Server) (m : Monitor) (d : ℤ)
    → selected s ≡ some m
    → viewshift s d ≡ view s (2 ^ shift_idx (first_idx (tagset m)) d)
unfolding viewshift view
viewshift-view s m d h = rw h refl

viewshift-shown :
    (s : Server) (m : Monitor) (d : ℤ)
    → selected s ≡ some m
    → Shows (viewshift s d) (2 ^ shift_idx (first_idx (tagset m)) d)
viewshift-shown s m d h =
    let j = shift_idx (first_idx (tagset m)) d in
    let low = pow_low j (shift_idx-lt (first_idx (tagset m)) d) in
    let (n, hn, e) = view-Shows s m (2 ^ j) h (omega (arith, low, pow_pos j)) in
    (n, ap selected (viewshift-view s m d h) ∙ hn, e ∙ low)

-- The lowest of some tags.
pub record IsFirst (i tags : ℕ) : Type 0 where
  pub bound : i < tagcount
  pub set : test_bit tags i ≡ true
  pub lower : (j : ℕ) → j < i → test_bit tags j ≡ false

lowest-first :
    (n i t : ℕ)
    → i < n
    → test_bit t i ≡ true
    → ((j : ℕ) → j < i → test_bit t j ≡ false)
    → lowest n t ≡ i
unfolding lowest
lowest-first zero i t l h below = absurd (omega (arith, l))
lowest-first (suc n) zero t l h below = let odd = sym (test_bit-low t) ∙ h in rw odd refl
lowest-first (suc n) (suc i) t l h below =
    let even = sym (test_bit-low t) ∙ below 0 (omega arith) in
    rw even (
      ap suc (
        lowest-first n i (t / 2) (omega (arith, l)) (sym (test_bit-suc t i) ∙ h)
          (λ j k. sym (test_bit-suc t j) ∙ below (suc j) (omega (arith, k)))))

mask_bit : (i : ℕ) → i < tagcount → test_bit tag_mask i ≡ true
mask_bit i l =
    let one : test_bit (2 ^ i) i ≡ true = ground (arith, test_bit-pow i i) in
    let both =
      sym (test_bit-and (2 ^ i) tag_mask i) ∙ ap (λ (a : ℕ). test_bit a i) (pow_low i l) ∙ one in
    ground (arith, both, one)

first_idx-IsFirst : (i t : ℕ) → IsFirst i t → first_idx t ≡ i
unfolding first_idx
first_idx-IsFirst i t h =
    let u = bit_and t tag_mask in
    let kept : test_bit u i ≡ true =
      ground (arith, test_bit-and t tag_mask i, mask_bit i h.bound, h.set) in
    let some_tag : u ≢ 0 =
      λ e. absurd (let q = sym kept ∙ ap (λ (a : ℕ). test_bit a i) e ∙ test_bit-zero i in cc) in
    rw (==_ne u 0 some_tag) (
      lowest-first tagcount i u h.bound kept
        (λ j l. ground (arith, test_bit-and t tag_mask j, h.lower j l)))

-- `j` stands `d` places after `i`, counted round the nine tags.
abbrev pub IsPlace : ℕ → ℤ → ℕ → Type 0
IsPlace i (pos n) j = (rounds : ℕ) × (i + n ≡ j + rounds * tagcount)
IsPlace i (negsuc n) j = (rounds : ℕ) × (i + rounds * tagcount ≡ j + suc n)

shift_idx-IsPlace : (i : ℕ) (d : ℤ) → i < tagcount → IsPlace i d (shift_idx i d)
unfolding shift_idx
shift_idx-IsPlace i (pos n) l = ((i + n) / tagcount, omega arith)
shift_idx-IsPlace i (negsuc n) l = elim (Bool-cases (ltb i (suc n))) [
  | inr e ↦ (0, rw e (ground (arith, e)))
  | inl e ↦ elim (Bool-cases ((suc n - i) % tagcount == 0)) [
    | inl f ↦ ((suc n - i) / tagcount, rw (e, f) (ground (arith, e, f)))
    | inr f ↦ (suc ((suc n - i) / tagcount), rw (e, f) (ground (arith, e, f)))
  ]
]

-- If a monitor is selected and its first tag shown has the index i, viewshift by d shows one tag
-- alone, whose index j is below nine with j = i + d up to a multiple of nine. The sum does not
-- overflow.
pub viewshift_lem :
    (s : Server) (m : Monitor) (d : ℤ) (i : ℕ)
    → selected s ≡ some m
    → IsFirst i (tagset m)
    → (j : ℕ) × (j < tagcount) × IsPlace i d j × Shows (viewshift s d) (2 ^ j)
viewshift_lem s m d i h first =
    let same = first_idx-IsFirst i (tagset m) first in
    (
      shift_idx i d,
      shift_idx-lt i d,
      shift_idx-IsPlace i d first.bound,
      subst (λ (k : ℕ). Shows (viewshift s d) (2 ^ shift_idx k d)) same (viewshift-shown s m d h),
    )

-- If a monitor is selected and shows one tag alone, shifting the view and then shifting it by
-- the opposite number shows that tag again.
pub viewshift_back :
    (s : Server) (m : Monitor) (d : ℤ) (i : ℕ)
    → selected s ≡ some m
    → i < tagcount
    → tagset m ≡ 2 ^ i
    → Shows (viewshift (viewshift s d) (back_by d)) (tagset m)
viewshift_back s m d i h l e =
    let (n, hn, shown) = viewshift-shown s m d h in
    let first : first_idx (tagset m) ≡ i = rw e (first_idx-pow i l) in
    let next : first_idx (tagset n) ≡ shift_idx i d =
      rw (shown, first) (first_idx-pow (shift_idx i d) (shift_idx-lt i d)) in
    let (k, hk, again) = viewshift-shown (viewshift s d) n (back_by d) hn in
    (k, hk, rw (again, next, shift_idx-back i d l, e) refl)
