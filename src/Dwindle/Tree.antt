-- ===== src/Dwindle/Tree.antt =====
-- The dwindle tree of src/main.c: struct DwindleNode, and the walks along its links.
-- An internal node is `node`, a leaf is `leaf`. A pointer to a node is a place: the node with the
-- chain of its parents, innermost first (`parent` followed upwards), each with the other child.
-- `split_ratio` is 1.0 from allocation on and is not stored.
use monowm.Base.{ℕ, ℤ, Bool, Option, none, some, List, [], ◌∷◌, ◌++◌, ◌==◌, if◌then◌else◌}

-- struct wlr_box. Sizes are not negative: every writer takes MAX(1, …) of them.
pub record Box : Type 0 where
  pub x : ℤ
  pub y : ℤ
  pub width : ℕ
  pub height : ℕ

-- What an internal node holds beside its children.
pub record Split : Type 0 where
  pub box : Box
  pub split_top : Bool
  pub split_fixed : Bool

pub data DwindleNode : Type 0 where
  leaf : ℕ → Box → DwindleNode
  node : Split → DwindleNode → DwindleNode → DwindleNode

-- A parent seen from its child: `in_first s n` from children[0], `n` being children[1].
pub data Frame : Type 0 where
  in_first : Split → DwindleNode → Frame
  in_second : Split → DwindleNode → Frame

pub record Leaf : Type 0 where
  pub parents : List Frame
  pub client : ℕ
  pub box : Box

unfoldable pub box_of : DwindleNode → Box
box_of (leaf c b) = b
box_of (node s l r) = s.box

abbrev pub fill : Frame → DwindleNode → DwindleNode
fill (in_first s r) n = node s n r
fill (in_second s l) n = node s l n

-- The root reached from a node by its parent links.
unfoldable pub plug : List Frame → DwindleNode → DwindleNode
plug [] n = n
plug (f ∷ fs) n = plug fs (fill f n)

-- The clients in the order of the leaves.
unfoldable pub leaves : DwindleNode → List ℕ
leaves (leaf c b) = c ∷ []
leaves (node s l r) = leaves l ++ leaves r

unfoldable pub leaves? : Option DwindleNode → List ℕ
unfolding leaves
leaves? none = []
leaves? (some n) = leaves n

-- The leaves that stand before and after a node.
unfoldable pub before : List Frame → List ℕ
before [] = []
before (in_first s r ∷ fs) = before fs
before (in_second s l ∷ fs) = before fs ++ leaves l

unfoldable pub after : List Frame → List ℕ
after [] = []
after (in_first s r ∷ fs) = leaves r ++ after fs
after (in_second s l ∷ fs) = after fs

unfoldable pub dwindle_find_leaf : List Frame → DwindleNode → ℕ → Option Leaf
dwindle_find_leaf fs (leaf d b) c =
    if d == c then some (record { parents = fs; client = d; box = b }) else none
dwindle_find_leaf fs (node s l r) c = elim (dwindle_find_leaf (in_first s r ∷ fs) l c) [
  | none ↦ dwindle_find_leaf (in_second s l ∷ fs) r c
  | some found ↦ some found
]

unfoldable pub dwindle_first_leaf : List Frame → DwindleNode → Leaf
dwindle_first_leaf fs (leaf c b) = record { parents = fs; client = c; box = b }
dwindle_first_leaf fs (node s l r) = dwindle_first_leaf (in_first s r ∷ fs) l

-- The loop `while (n->parent && n == n->parent->children[1]) n = n->parent`, and what follows it.
unfoldable pub climb : List Frame → DwindleNode → Option Leaf
unfolding dwindle_first_leaf
climb [] n = none
climb (in_second s l ∷ fs) n = climb fs (node s l n)
climb (in_first s r ∷ fs) n = some (dwindle_first_leaf (in_second s n ∷ fs) r)

abbrev pub as_node : Leaf → DwindleNode
as_node p = leaf p.client p.box

unfoldable pub dwindle_next_leaf : Leaf → Option Leaf
unfolding climb
dwindle_next_leaf p = climb p.parents (as_node p)

-- The tree that a place stands in.
abbrev pub root_of : Leaf → DwindleNode
root_of p = plug p.parents (as_node p)
