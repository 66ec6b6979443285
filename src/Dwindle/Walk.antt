-- ===== src/Dwindle/Walk.antt =====
-- The walks of Dwindle/Tree (src/main.c): the places that they end at.
use monowm.Base.{
  ℕ, ◌≡◌, refl, ◌∙◌, inl, inr, false, Option, none, some, List, [], ◌∷◌, ◌++◌, append_assoc,
  append-nil, arith, elem, elem-append, Bool-cases, ◌==◌,
}
use monowm.Dwindle.Tree.{
  Split, DwindleNode, leaf, node, Frame, in_first, in_second, Leaf, plug, leaves, before, after,
  dwindle_find_leaf, dwindle_first_leaf, climb, dwindle_next_leaf, as_node, root_of,
}

pub leaves-plug :
    (fs : List Frame) (n : DwindleNode) → leaves (plug fs n) ≡ before fs ++ (leaves n ++ after fs)
unfolding plug leaves before after
leaves-plug [] n = simp append-nil
leaves-plug (in_first s r ∷ fs) n = simp (leaves-plug fs (node s n r), append_assoc)
leaves-plug (in_second s l ∷ fs) n = simp (leaves-plug fs (node s l n), append_assoc)

-- What a search may answer: no leaf holds the client, or the first leaf that does.
abbrev pub Finds : List Frame → DwindleNode → ℕ → Option Leaf → Type 0
Finds fs n c none = elem c (leaves n) ≡ false
Finds fs n c (some p) =
    (p.client ≡ c) × (root_of p ≡ plug fs n) × (elem c (before p.parents) ≡ elem c (before fs))

-- A search below a place answers a leaf of the searched window in the same tree, with that
-- window before it only where it already stood before the place; if it answers nothing, no leaf
-- below the place holds the window.
pub dwindle_find_leaf-Finds :
    (fs : List Frame) (n : DwindleNode) (c : ℕ) → Finds fs n c (dwindle_find_leaf fs n c)
unfolding dwindle_find_leaf leaves before
dwindle_find_leaf-Finds fs (leaf d b) c = elim (Bool-cases (d == c)) [
  | inl e ↦ rw e (ground arith, refl, refl)
  | inr e ↦ rw e (ground arith)
]
dwindle_find_leaf-Finds fs (node s l r) c =
    pick (dwindle_find_leaf (in_first s r ∷ fs) l c)
      (dwindle_find_leaf-Finds (in_first s r ∷ fs) l c) (dwindle_find_leaf (in_second s l ∷ fs) r c)
      (dwindle_find_leaf-Finds (in_second s l ∷ fs) r c)
  where
    pick :
        (a : Option Leaf)
        → Finds (in_first s r ∷ fs) l c a
        → (b : Option Leaf) → Finds (in_second s l ∷ fs) r c b
        → Finds fs (node s l r) c (elim a [ none ↦ b | some found ↦ some found ])
    pick none h none k = ground (arith, elem-append c (leaves l) (leaves r))
    pick none h (some q) k =
        (k.0, unfold plug in k.1, k.2 ∙ ground (arith, elem-append c (before fs) (leaves l)))
    pick (some p) h b k = (h.0, unfold plug in h.1, h.2)

-- Descending to the first leaf leaves the tree as it is and passes no leaf.
pub dwindle_first_leaf_lem :
    (fs : List Frame) (n : DwindleNode)
    → (root_of (dwindle_first_leaf fs n) ≡ plug fs n)
      × (before (dwindle_first_leaf fs n).parents ≡ before fs)
unfolding dwindle_first_leaf plug before
dwindle_first_leaf_lem fs (leaf c b) = (refl, refl)
dwindle_first_leaf_lem fs (node s l r) = dwindle_first_leaf_lem (in_first s r ∷ fs) l

abbrev pub Follows : List Frame → DwindleNode → Option Leaf → Type 0
Follows fs n none = after fs ≡ []
Follows fs n (some q) = (root_of q ≡ plug fs n) × (before q.parents ≡ before fs ++ leaves n)

Follows-up :
    (s : Split) (l : DwindleNode) (fs : List Frame) (n : DwindleNode) (o : Option Leaf)
    → Follows fs (node s l n) o
    → Follows (in_second s l ∷ fs) n o
unfolding before after leaves plug
Follows-up s l fs n none h = h
Follows-up s l fs n (some q) h = (h.0, rw append_assoc h.1)

pub climb-Follows : (fs : List Frame) (n : DwindleNode) → Follows fs n (climb fs n)
unfolding climb before after leaves plug
climb-Follows [] n = refl
climb-Follows (in_second s l ∷ fs) n =
    Follows-up s l fs n (climb fs (node s l n)) (climb-Follows fs (node s l n))
climb-Follows (in_first s r ∷ fs) n = dwindle_first_leaf_lem (in_second s n ∷ fs) r

-- The successor of a leaf is in the same tree, with the leaf and all that stand before it as the
-- leaves before it; if there is no successor, no leaf stands after the leaf.
pub dwindle_next_leaf-Follows : (p : Leaf) → Follows p.parents (as_node p) (dwindle_next_leaf p)
unfolding dwindle_next_leaf
dwindle_next_leaf-Follows p = climb-Follows p.parents (as_node p)
