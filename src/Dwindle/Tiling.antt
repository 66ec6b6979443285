-- ===== src/Dwindle/Tiling.antt =====
-- The geometry of the boxes that dwindle_recalc of src/main.c gives out.
use monowm.Base.{
  ℕ, zero, suc, ◌+◌, ◌*◌, ◌^◌, ◌≤◌, ◌≡◌, refl, ap, inl, inr, Bool, true, false, List, [], ◌∷◌, ◌++◌,
  arith, All, All-append, All-map, int_laws,
}
use native.Mathlib.Nat.{pow-suc, one-le-pow}
use monowm.Dwindle.Tree.{Box, Split, DwindleNode, leaf, node}
use monowm.Dwindle.Recalc.{
  first_size, second_size, first_box, second_box, splits_top, recalc, tiles, Inside, Apart,
  Pairwise, depth, Room,
}

-- A split of one side: with room for one more level the halves and the gap make up the whole, the
-- halves differ by one pixel at most, and each has room for one level less.
halves :
    (gap d size : ℕ)
    → (gap + 1) * 2 ^ suc d ≤ size + gap
    → (first_size gap size + gap + second_size gap size ≡ size)
      × (first_size gap size ≤ second_size gap size + 1)
      × (second_size gap size ≤ first_size gap size + 1)
      × ((gap + 1) * 2 ^ d ≤ first_size gap size + gap)
      × ((gap + 1) * 2 ^ d ≤ second_size gap size + gap)
halves gap d size h =
    let p : (gap + 1) * 2 ^ suc d ≡ 2 * ((gap + 1) * 2 ^ d) =
      omega (arith, ap (λ (t : ℕ). (gap + 1) * t) (pow-suc 2 d)) in
    let q : gap + 1 ≤ (gap + 1) * 2 ^ d = grind (arith, one-le-pow d 2) in omega arith

Inside-refl : (b : Box) → Inside b b
Inside-refl b = omega int_laws

Inside-trans : (a b c : Box) → Inside a b → Inside b c → Inside a c
Inside-trans a b c h k = record {
  left = omega (int_laws, h.left, k.left);
  right = omega (int_laws, h.right, k.right);
  top = omega (int_laws, h.top, k.top);
  bottom = omega (int_laws, h.bottom, k.bottom);
}

Apart-Inside : (gap : ℕ) (a b c d : Box) → Apart gap a b → Inside a c → Inside b d → Apart gap c d
Apart-Inside gap a b c d (inl e) h k = inl (omega (int_laws, h.right, k.left))
Apart-Inside gap a b c d (inr e) h k = inr (omega (int_laws, h.bottom, k.top))

Room-suc : (gap d n : ℕ) → (gap + 1) * 2 ^ suc d ≤ n → (gap + 1) * 2 ^ d ≤ n
Room-suc gap d n h = omega (arith, ap (λ (t : ℕ). (gap + 1) * t) (pow-suc 2 d))

-- What one split gives, with room for it.
record IsSplit (gap d : ℕ) (b l r : Box) : Type 0 where
  first_in : Inside b l
  second_in : Inside b r
  apart : Apart gap l r
  first_room : Room gap d l
  second_room : Room gap d r

halves-IsSplit :
    (gap d : ℕ) (top : Bool) (b : Box)
    → Room gap (suc d) b
    → IsSplit gap d b (first_box gap top b) (second_box gap top b)
unfolding first_box second_box
halves-IsSplit gap d true b h =
    let e = halves gap d b.height h.1 in
    let w = Room-suc gap d (b.width + gap) h.0 in
    record {
      first_in = omega (int_laws, e.0);
      second_in = omega (int_laws, e.0);
      apart = inr (omega int_laws);
      first_room = (w, e.3);
      second_room = (w, e.4);
    }
halves-IsSplit gap d false b h =
    let e = halves gap d b.width h.0 in
    let w = Room-suc gap d (b.height + gap) h.1 in
    record {
      first_in = omega (int_laws, e.0);
      second_in = omega (int_laws, e.0);
      apart = inl (omega int_laws);
      first_room = (e.3, w);
      second_room = (e.4, w);
    }

Pairwise-append {ℓ κ} :
    {A : Type ℓ} (R : A → A → Type κ) (xs ys : List A)
    → Pairwise R xs
    → Pairwise R ys
    → All (λ x. All (R x) ys) xs
    → Pairwise R (xs ++ ys)
Pairwise-append R [] ys p q c = q
Pairwise-append R (x ∷ xs) ys p q c =
    (All-append (R x) xs ys p.0 c.0, Pairwise-append R xs ys p.1 q c.1)

-- A list of tiles that fills its box as it should.
abbrev pub Tiled : ℕ → Box → List (ℕ × Box) → Type 0
Tiled gap b ts = All (λ t. Inside b t.1) ts × Pairwise (λ t u. Apart gap t.1 u.1) ts

Tiled-append :
    (gap d : ℕ) (b x y : Box) (xs ys : List (ℕ × Box))
    → IsSplit gap d b x y
    → Tiled gap x xs
    → Tiled gap y ys
    → Tiled gap b (xs ++ ys)
Tiled-append gap d b x y xs ys i p q = (
  All-append (λ t. Inside b t.1) xs ys
      (All-map (λ t. Inside x t.1) (λ t. Inside b t.1) (λ t h. Inside-trans b x t.1 i.first_in h) xs
        p.0)
      (All-map (λ t. Inside y t.1) (λ t. Inside b t.1) (λ t h. Inside-trans b y t.1 i.second_in h)
        ys q.0),
  Pairwise-append (λ t u. Apart gap t.1 u.1) xs ys p.1 q.1
      (All-map (λ t. Inside x t.1) (λ t. All (λ u. Apart gap t.1 u.1) ys)
        (λ t h.
          All-map (λ u. Inside y u.1) (λ u. Apart gap t.1 u.1)
            (λ u k. Apart-Inside gap x y t.1 u.1 i.apart h k) ys q.0)
        xs p.0),
)

-- Where a tree is at most `d` splits deep and its area has at least (gap + 1) * 2 ^ d - gap
-- pixels on each side, the boxes that the layout computes for its windows all lie inside that
-- area, and any two of them are apart by at least the gap, the later one to the right of or
-- below the earlier one.
pub recalc-tiles :
    (gap d : ℕ) (b : Box) (n : DwindleNode)
    → depth n ≤ d
    → Room gap d b
    → Tiled gap b (tiles (recalc gap b n))
unfolding recalc tiles depth
recalc-tiles gap d b (leaf c old) h room = ((Inside-refl b, tt), (tt, tt))
recalc-tiles gap zero b (node s l r) h room = absurd (omega arith)
recalc-tiles gap (suc d) b (node s l r) h room =
    let top = splits_top s b in
    let i = halves-IsSplit gap d top b room in
    Tiled-append gap d b (first_box gap top b) (second_box gap top b) _ _ i
      (recalc-tiles gap d (first_box gap top b) l (omega arith) i.first_room)
      (recalc-tiles gap d (second_box gap top b) r (omega arith) i.second_room)

splits_top_again :
    (s : Split) (b : Box)
    → splits_top (record s { box = b; split_top = splits_top s b }) b ≡ splits_top s b
splits_top_again s b = ground arith

-- Laying out a tree again in the same area with the same gap changes nothing.
pub recalc-recalc :
    (gap : ℕ) (b : Box) (n : DwindleNode) → recalc gap b (recalc gap b n) ≡ recalc gap b n
unfolding recalc
recalc-recalc gap b (leaf c old) = refl
recalc-recalc gap b (node s l r) = rw (
  splits_top_again s b,
  recalc-recalc gap (first_box gap (splits_top s b) b) l,
  recalc-recalc gap (second_box gap (splits_top s b) b) r,
)
