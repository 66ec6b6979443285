-- ===== src/Dwindle/Recalc.antt =====
-- dwindle_recalc of src/main.c: boxes for every node below a box, and the windows to resize.
-- `split_ratio` is 1.0, so (int)(size / 2.0f * split_ratio) is size / 2: the division by 2.0f is
-- exact for sizes below 2 ^ 24, which screens are.
use monowm.Base.{
  ℕ, suc, ◌+◌, ◌-◌, ◌*◌, ◌/◌, ◌^◌, ◌≤◌, max, ◌≡◌, refl, ◌⊎◌, Bool, not, List, [], ◌∷◌, ◌++◌, ltb,
  keep, All, if◌then◌else◌, pos, ◌+ℤ◌, ◌≤ℤ◌,
}
use monowm.Dwindle.Tree.{Box, Split, DwindleNode, leaf, node, leaves}

-- The size of the first half, and of what is left for the second.
abbrev pub first_size : ℕ → ℕ → ℕ
first_size gap size = max 1 (size / 2 - gap / 2)

abbrev pub second_size : ℕ → ℕ → ℕ
second_size gap size = max 1 (size - first_size gap size - gap)

unfoldable pub first_box : ℕ → Bool → Box → Box
first_box gap top b =
    if top
    then record b { height = first_size gap b.height }
    else record b { width = first_size gap b.width }

unfoldable pub second_box : ℕ → Bool → Box → Box
second_box gap top b =
    if top
    then record b {
      y = b.y +ℤ pos (first_size gap b.height) +ℤ pos gap;
      height = second_size gap b.height;
    }
    else record b {
      x = b.x +ℤ pos (first_size gap b.width) +ℤ pos gap;
      width = second_size gap b.width;
    }

-- Wider than tall splits left and right, unless the user chose.
abbrev pub splits_top : Split → Box → Bool
splits_top s b = if s.split_fixed then s.split_top else ltb b.width b.height

-- The tree with its root's box set to `b` and all boxes below it laid out.
unfoldable pub recalc : ℕ → Box → DwindleNode → DwindleNode
unfolding first_box second_box
recalc gap b (leaf c old) = leaf c b
recalc gap b (node s l r) =
    let top = splits_top s b in
    node (record s { box = b; split_top = top }) (recalc gap (first_box gap top b) l)
      (recalc gap (second_box gap top b) r)

-- The clients with their boxes, in the order in which the recursion meets them.
unfoldable pub tiles : DwindleNode → List (ℕ × Box)
tiles (leaf c b) = (c, b) ∷ []
tiles (node s l r) = tiles l ++ tiles r

-- The tree after dwindle_recalc(n, gap) with n->box = b, and the calls of resize() that it made.
unfoldable pub dwindle_recalc : (ℕ → Bool) → ℕ → Box → DwindleNode → DwindleNode × List (ℕ × Box)
unfolding recalc tiles
dwindle_recalc fullscreen gap b n =
    let laid = recalc gap b n in (laid, keep (λ t. not (fullscreen t.0)) (tiles laid))

pub leaves-recalc : (gap : ℕ) (b : Box) (n : DwindleNode) → leaves (recalc gap b n) ≡ leaves n
unfolding recalc leaves
leaves-recalc gap b (leaf c old) = refl
leaves-recalc gap b (node s l r) = rw (
  leaves-recalc gap (first_box gap (splits_top s b) b) l,
  leaves-recalc gap (second_box gap (splits_top s b) b) r,
)

-- One box inside another.
pub record Inside (outer inner : Box) : Type 0 where
  pub left : outer.x ≤ℤ inner.x
  pub right : inner.x +ℤ pos inner.width ≤ℤ outer.x +ℤ pos outer.width
  pub top : outer.y ≤ℤ inner.y
  pub bottom : inner.y +ℤ pos inner.height ≤ℤ outer.y +ℤ pos outer.height

-- A gap between two boxes, the second to the right of the first or below it.
abbrev pub Apart : ℕ → Box → Box → Type 0
Apart gap a b = (a.x +ℤ pos a.width +ℤ pos gap ≤ℤ b.x) ⊎ (a.y +ℤ pos a.height +ℤ pos gap ≤ℤ b.y)

-- Every entry is related to all later ones.
abbrev pub Pairwise {ℓ κ} : {A : Type ℓ} → (A → A → Type κ) → List A → Type κ
Pairwise R [] = Unit
Pairwise R (x ∷ xs) = All (R x) xs × Pairwise R xs

unfoldable pub depth : DwindleNode → ℕ
depth (leaf c b) = 0
depth (node s l r) = suc (max (depth l) (depth r))

-- Room for `d` further levels of splits: every tile will be one pixel at least.
abbrev pub Room : ℕ → ℕ → Box → Type 0
Room gap d b = ((gap + 1) * 2 ^ d ≤ b.width + gap) × ((gap + 1) * 2 ^ d ≤ b.height + gap)
