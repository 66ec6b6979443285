-- ===== src/Dwindle/Moving.antt =====
-- The part of dwindle_move_to_edge in src/main.c that changes the tree: a window is dragged to an
-- edge of another. The layout that follows is Dwindle/Recalc.
use monowm.Base.{
  ℕ, ◌≡◌, refl, sym, ◌∙◌, Bool, true, false, not, ◌||◌, Option, none, some, List, [], ◌∷◌, ◌++◌,
  arith, elem, erase, ◌==◌, if◌then◌else◌, ==_ne, ◌≢◌,
}
use monowm.Dwindle.Tree.{DwindleNode, Leaf, leaves, leaves?, dwindle_find_leaf}
use monowm.Dwindle.Walk.{Finds, dwindle_find_leaf-Finds}
use monowm.Dwindle.Edit.{
  DwindleEdge, edge_none, dwindle_insert_at_edge, dwindle_remove, is_first_edge,
}
use monowm.Dwindle.Remove.{leaves-remove}
use monowm.Dwindle.Insert.{beside, dwindle_insert_at_edge-Inserted}

abbrev pub is_edge : DwindleEdge → Bool
is_edge edge_none = false
is_edge _ = true

abbrev pub is_found : Option Leaf → Bool
is_found none = false
is_found (some p) = true

-- The root afterwards, and whether the window was moved.
unfoldable pub dwindle_move_to_edge :
    Option DwindleNode → ℕ → ℕ → DwindleEdge → Option DwindleNode × Bool
unfolding dwindle_find_leaf dwindle_remove dwindle_insert_at_edge
dwindle_move_to_edge none a b edge = (none, false)
dwindle_move_to_edge (some root) a b edge =
    if a == b
      || not (is_edge edge)
      || not (is_found (dwindle_find_leaf [] root a))
      || not (is_found (dwindle_find_leaf [] root b))
    then (some root, false)
    else dwindle_insert_at_edge (dwindle_remove (some root) a).0 a b edge

found-elem :
    (root : DwindleNode) (c : ℕ)
    → elem c (leaves root) ≡ true
    → is_found (dwindle_find_leaf [] root c) ≡ true
found-elem root c h = go (dwindle_find_leaf [] root c) (dwindle_find_leaf-Finds [] root c)
  where
    go : (o : Option Leaf) → Finds [] root c o → is_found o ≡ true
    go none e = absurd cc
    go (some p) e = refl

elem-erase :
    (a b : ℕ) (xs : List ℕ) → (a == b) ≡ false → elem b xs ≡ true → elem b (erase a xs) ≡ true
elem-erase a b [] n h = h
elem-erase a b (x ∷ xs) n h = ground (arith, elem-erase a b xs)

-- The window that was moved stands beside the target, which the tree still has.
pub record Moved (root : DwindleNode) (a b : ℕ) (edge : DwindleEdge)
    (result : Option DwindleNode × Bool) : Type 0 where
  pub tree : DwindleNode
  pub left : List ℕ
  pub right : List ℕ
  pub returns : result ≡ (some tree, true)
  pub others : erase a (leaves root) ≡ left ++ b ∷ right
  pub is_first : elem b left ≡ false
  pub now : leaves tree ≡ left ++ (beside (is_first_edge edge) a b ++ right)

inserted-Moved :
    (root : DwindleNode) (a b : ℕ) (edge : DwindleEdge) (o : Option DwindleNode)
    → leaves? o ≡ erase a (leaves root)
    → elem b (erase a (leaves root)) ≡ true
    → Moved root a b edge (dwindle_insert_at_edge o a b edge)
unfolding leaves?
inserted-Moved root a b edge none l h = absurd (let q = rw (← l) at h in cc)
inserted-Moved root a b edge (some n) l h =
    let i = dwindle_insert_at_edge-Inserted n a b edge (rw l h) in
    record {
      tree = i.tree;
      left = i.left;
      right = i.right;
      returns = i.returns;
      others = sym l ∙ i.was;
      is_first = i.is_first;
      now = i.now;
    }

-- Moving a window to an edge of another one works if they are two, each has a leaf and the edge
-- is one of the four: the tree still has the target after the removal, and the window then
-- stands directly beside the first leaf of the target, on the side of the edge, all other leaves
-- in their order.
pub dwindle_move_to_edge-Moved :
    (root : DwindleNode) (a b : ℕ) (edge : DwindleEdge)
    → a ≢ b
    → is_edge edge ≡ true
    → elem a (leaves root) ≡ true
    → elem b (leaves root) ≡ true
    → Moved root a b edge (dwindle_move_to_edge (some root) a b edge)
unfolding dwindle_move_to_edge
dwindle_move_to_edge-Moved root a b edge n e ha hb =
    rw (==_ne a b n, e, found-elem root a ha, found-elem root b hb)
      (inserted-Moved root a b edge (dwindle_remove (some root) a).0
        (leaves-remove (some root) a ∙ (unfold leaves? in refl))
        (elem-erase a b (leaves root) (==_ne a b n) hb))
