-- ===== src/Dwindle/Remove.antt =====
-- dwindle_remove of src/main.c: the leaves of the tree after it.
use monowm.Base.{
  ℕ, ◌≡◌, refl, sym, ap, ◌∙◌, false, Option, none, some, List, [], ◌∷◌, ◌++◌, append_assoc, arith,
  elem, erase,
}
use monowm.Dwindle.Tree.{
  DwindleNode, Frame, in_first, in_second, Leaf, plug, leaves, leaves?, before, after,
  dwindle_find_leaf, as_node, root_of,
}
use monowm.Dwindle.Walk.{leaves-plug, Finds, dwindle_find_leaf-Finds}
use monowm.Dwindle.Edit.{dwindle_remove_leaf, drop_below, remove_found, dwindle_remove}

leaves-drop_below : (fs : List Frame) → leaves? (drop_below fs).0 ≡ before fs ++ after fs
unfolding drop_below leaves? before after
leaves-drop_below [] = refl
leaves-drop_below (in_first s n ∷ fs) = leaves-plug fs n
leaves-drop_below (in_second s n ∷ fs) =
    leaves-plug fs n ∙ sym (append_assoc (before fs) (leaves n) (after fs))

pub leaves-remove_leaf :
    (p : Leaf) → leaves? (dwindle_remove_leaf p).0 ≡ before p.parents ++ after p.parents
unfolding dwindle_remove_leaf
leaves-remove_leaf p = leaves-drop_below p.parents

pub leaves-root_of :
    (p : Leaf) → leaves (root_of p) ≡ before p.parents ++ p.client ∷ after p.parents
unfolding leaves
leaves-root_of p = leaves-plug p.parents (as_node p)

pub erase_absent : (c : ℕ) (xs : List ℕ) → elem c xs ≡ false → erase c xs ≡ xs
erase_absent c [] h = refl
erase_absent c (x ∷ xs) h = ground (arith, erase_absent c xs)

pub erase_first : (c : ℕ) (xs ys : List ℕ) → elem c xs ≡ false → erase c (xs ++ c ∷ ys) ≡ xs ++ ys
erase_first c [] ys h = ground arith
erase_first c (x ∷ xs) ys h = ground (arith, erase_first c xs ys)

erase-found :
    (root : DwindleNode) (c : ℕ) (p : Leaf)
    → Finds [] root c (some p)
    → leaves? (dwindle_remove_leaf p).0 ≡ erase c (leaves root)
unfolding plug before
erase-found root c p h =
    leaves-remove_leaf p
    ∙ sym (erase_first c (before p.parents) (after p.parents) h.2)
    ∙ ap (erase c) (sym (rw (← h.1, ← h.0) (leaves-root_of p)))

-- Removing a window takes its first leaf out of the tree and leaves the others in their order;
-- without a leaf of the window the leaves stay as they are.
pub leaves-remove :
    (root : Option DwindleNode) (c : ℕ) → leaves? (dwindle_remove root c).0 ≡ erase c (leaves? root)
unfolding dwindle_remove leaves?
leaves-remove none c = refl
leaves-remove (some root) c = pick (dwindle_find_leaf [] root c) (dwindle_find_leaf-Finds [] root c)
  where
    pick :
        (o : Option Leaf)
        → Finds [] root c o
        → leaves? (remove_found root o).0 ≡ erase c (leaves root)
    pick none h = sym (erase_absent c (leaves root) h)
    pick (some p) h = erase-found root c p h
