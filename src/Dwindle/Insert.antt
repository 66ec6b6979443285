-- ===== src/Dwindle/Insert.antt =====
-- dwindle_insert and dwindle_insert_at_edge of src/main.c: the leaves of the tree after them.
use monowm.Base.{
  ℕ, ◌≡◌, refl, ap, ◌∙◌, ◌⊎◌, inl, inr, Bool, true, false, Option, none, some, List, [], ◌∷◌, ◌++◌,
  arith, elem, elem-append, ltb, ◌==◌, ==_refl, if◌then◌else◌,
}
use monowm.Dwindle.Tree.{
  Split, DwindleNode, leaf, node, Frame, in_first, in_second, Leaf, plug, leaves, before, after,
  dwindle_find_leaf, as_node, root_of,
}
use monowm.Dwindle.Walk.{leaves-plug, Finds, dwindle_find_leaf-Finds, dwindle_first_leaf_lem}
use monowm.Dwindle.Remove.{leaves-root_of}
use monowm.Dwindle.Edit.{
  DwindleEdge, Cursor, unset_box, new_leaf, pair_up, is_first_edge, open_at_edge, insert_found,
  dwindle_insert_at_edge, cursor_first, or_first, opening_on, open_on, dwindle_insert,
  dwindle_remove,
}

-- A new client and the old one of the leaf, in their order on the screen.
abbrev pub beside : Bool → ℕ → ℕ → List ℕ
beside new_first new_c old = if new_first then new_c ∷ old ∷ [] else old ∷ new_c ∷ []

-- Splitting the leaf at a place for a new client.
abbrev pub split_at : Split → Bool → Leaf → ℕ → DwindleNode
split_at s new_first p new_c = plug p.parents (pair_up s new_first (new_leaf new_c) (as_node p))

pub leaves-split_at :
    (s : Split) (first : Bool) (p : Leaf) (c : ℕ)
    → leaves (split_at s first p c)
      ≡ before p.parents ++ (beside first c p.client ++ after p.parents)
unfolding leaves
leaves-split_at s true p c = leaves-plug p.parents (node s (new_leaf c) (as_node p))
leaves-split_at s false p c = leaves-plug p.parents (node s (as_node p) (new_leaf c))

find-absent :
    (fs : List Frame) (n : DwindleNode) (c : ℕ)
    → elem c (leaves n) ≡ false
    → dwindle_find_leaf fs n c ≡ none
unfolding dwindle_find_leaf leaves
find-absent fs (leaf d b) c h = ground arith
find-absent fs (node s l r) c h =
    rw (find-absent (in_first s r ∷ fs) l c (ground (arith, elem-append c (leaves l) (leaves r))))
      (find-absent (in_second s l ∷ fs) r c (ground (arith, elem-append c (leaves l) (leaves r))))

-- A search from the root goes on into a subtree if the client is not before it.
pub find-plug :
    (fs : List Frame) (n : DwindleNode) (c : ℕ) (p : Leaf)
    → elem c (before fs) ≡ false
    → dwindle_find_leaf fs n c ≡ some p
    → dwindle_find_leaf [] (plug fs n) c ≡ some p
unfolding plug before dwindle_find_leaf
find-plug [] n c p h e = e
find-plug (in_first s r ∷ fs) n c p h e = find-plug fs (node s n r) c p h (rw e)
find-plug (in_second s l ∷ fs) n c p h e =
    find-plug fs (node s l n) c p (ground (arith, elem-append c (before fs) (leaves l))) (
      rw
        (find-absent (in_first s n ∷ fs) l c (ground (arith, elem-append c (before fs) (leaves l))))
        e)

-- The place of the new leaf after a split.
abbrev new_place : Split → Bool → Leaf → ℕ → Leaf
new_place s first p c = record {
  parents = (if first then in_first s (as_node p) else in_second s (as_node p)) ∷ p.parents;
  client = c;
  box = unset_box;
}

module _ (p : Leaf) (c : ℕ) (h : elem c (leaves (root_of p)) ≡ false) where
  absent_parts : (elem c (before p.parents) ≡ false) × ((p.client == c) ≡ false)
  absent_parts =
      let h' = rw (leaves-root_of p) at h in
      ground (arith, elem-append c (before p.parents) (p.client ∷ after p.parents))

  find-new_place :
      (s : Split) (first : Bool)
      → dwindle_find_leaf [] (split_at s first p c) c ≡ some (new_place s first p c)
  unfolding dwindle_find_leaf
  find-new_place s true =
      find-plug p.parents (node s (new_leaf c) (as_node p)) c (new_place s true p c) absent_parts.0
        (ground (arith, ==_refl c))
  find-new_place s false =
      find-plug p.parents (node s (as_node p) (new_leaf c)) c (new_place s false p c) absent_parts.0
        (ground (arith, absent_parts.1, ==_refl c))

  -- Where the new client has no other leaf, removing it gives back the tree as it was.
  pub remove-split_at :
      (s : Split) (first : Bool)
      → (dwindle_remove (some (split_at s first p c)) c).0 ≡ some (root_of p)
  unfolding dwindle_remove
  remove-split_at s true = rw (find-new_place s true)
  remove-split_at s false = rw (find-new_place s false)

-- What dwindle_insert_at_edge answers when the target has a leaf: the new client stands beside the
-- first leaf of the target, before it for the left and top edges and after it otherwise.
pub record InsertedAtEdge (root : DwindleNode) (new_c target : ℕ) (edge : DwindleEdge)
    (result : Option DwindleNode × Bool) : Type 0 where
  pub tree : DwindleNode
  pub left : List ℕ
  pub right : List ℕ
  pub returns : result ≡ (some tree, true)
  pub was : leaves root ≡ left ++ target ∷ right
  pub is_first : elem target left ≡ false
  pub now : leaves tree ≡ left ++ (beside (is_first_edge edge) new_c target ++ right)

edge_found :
    (root : DwindleNode) (new_c target : ℕ) (edge : DwindleEdge) (o : Option Leaf)
    → Finds [] root target o
    → elem target (leaves root) ≡ true
    → InsertedAtEdge root new_c target edge (insert_found root new_c edge o)
unfolding plug before open_at_edge
edge_found root new_c target edge none h e = cc
edge_found root new_c target edge (some p) h e = record {
  tree = open_at_edge p new_c edge;
  left = before p.parents;
  right = after p.parents;
  returns = refl;
  was = rw (← h.1, ← h.0) (leaves-root_of p);
  is_first = h.2;
  now = rw (← h.0) (leaves-split_at _ (is_first_edge edge) p new_c);
}

-- If the target has a leaf, insertion at an edge succeeds, and the new window stands in the
-- order of the leaves directly beside the first leaf of the target, before it for the left and
-- top edges and after it for the others; all other leaves stay.
pub dwindle_insert_at_edge-Inserted :
    (root : DwindleNode) (new_c target : ℕ) (edge : DwindleEdge)
    → elem target (leaves root) ≡ true
    → InsertedAtEdge root new_c target edge (dwindle_insert_at_edge (some root) new_c target edge)
unfolding dwindle_insert_at_edge
dwindle_insert_at_edge-Inserted root new_c target edge =
    edge_found root new_c target edge (dwindle_find_leaf [] root target)
      (dwindle_find_leaf-Finds [] root target)

-- Which leaf dwindle_insert splits: the focused client's first leaf, or else the first of all.
abbrev pub Opens : DwindleNode → Option ℕ → Leaf → Type 0
Opens root none p = before p.parents ≡ []
Opens root (some f) p =
    ((p.client ≡ f) × (elem f (before p.parents) ≡ false))
    ⊎ ((elem f (leaves root) ≡ false) × (before p.parents ≡ []))

opening_on-Opens :
    (root : DwindleNode) (focused : Option ℕ)
    → (root_of (opening_on root focused) ≡ root) × Opens root focused (opening_on root focused)
unfolding opening_on plug before
opening_on-Opens root none = dwindle_first_leaf_lem [] root
opening_on-Opens root (some f) =
    pick (dwindle_find_leaf [] root f) (dwindle_find_leaf-Finds [] root f)
  where
    pick :
        (o : Option Leaf)
        → Finds [] root f o
        → (root_of (or_first root o) ≡ root) × Opens root (some f) (or_first root o)
    pick none h = ((dwindle_first_leaf_lem [] root).0, inr (h, (dwindle_first_leaf_lem [] root).1))
    pick (some p) h = (h.1, inl (h.0, h.2))

-- What dwindle_insert does to a tree with leaves.
pub record Inserted (cur : Cursor) (root : DwindleNode) (new_c : ℕ) (focused : Option ℕ)
    (tree : DwindleNode) : Type 0 where
  pub opened : Leaf
  pub stands : root_of opened ≡ root
  pub chosen : Opens root focused opened
  pub now :
      leaves tree
      ≡ before opened.parents
        ++ (beside
              (cursor_first cur opened.box (ltb opened.box.width opened.box.height))
              new_c
              opened.client
            ++ after opened.parents)

-- Insertion into a tree opens the first leaf of the focused window, or the first leaf of all if
-- there is no focused window or it has none, and puts the new window beside it, before it
-- exactly if the cursor is on the first half of its box; all other leaves stay.
pub dwindle_insert-Inserted :
    (cur : Cursor) (root : DwindleNode) (new_c : ℕ) (focused : Option ℕ)
    → Inserted cur root new_c focused (dwindle_insert cur (some root) new_c focused).0
unfolding dwindle_insert open_on
dwindle_insert-Inserted cur root new_c focused = record {
  opened = opening_on root focused;
  stands = (opening_on-Opens root focused).0;
  chosen = (opening_on-Opens root focused).1;
  now = leaves-split_at _ _ (opening_on root focused) new_c;
}

-- If a window has no leaf in a tree, removing it directly after its insertion gives back the
-- same tree, boxes and splits included.
pub remove-insert :
    (cur : Cursor) (root : DwindleNode) (new_c : ℕ) (focused : Option ℕ)
    → elem new_c (leaves root) ≡ false
    → (dwindle_remove (some (dwindle_insert cur (some root) new_c focused).0) new_c).0 ≡ some root
unfolding dwindle_insert open_on
remove-insert cur root new_c focused a =
    let stands = (opening_on-Opens root focused).0 in
    remove-split_at (opening_on root focused) new_c (rw stands a) _ _ ∙ ap some stands

-- If the target has a leaf in a tree and the new window has none, removing the new window
-- directly after its insertion at an edge gives back the same tree.
pub remove-insert_at_edge :
    (root : DwindleNode) (new_c target : ℕ) (edge : DwindleEdge)
    → elem target (leaves root) ≡ true
    → elem new_c (leaves root) ≡ false
    → (dwindle_remove (dwindle_insert_at_edge (some root) new_c target edge).0 new_c).0 ≡ some root
unfolding dwindle_insert_at_edge plug open_at_edge
remove-insert_at_edge root new_c target edge e a =
    pick (dwindle_find_leaf [] root target) (dwindle_find_leaf-Finds [] root target)
  where
    pick :
        (o : Option Leaf)
        → Finds [] root target o
        → (dwindle_remove (insert_found root new_c edge o).0 new_c).0 ≡ some root
    pick none h = absurd (ground (arith, h))
    pick (some p) h = remove-split_at p new_c (rw h.1 a) _ (is_first_edge edge) ∙ ap some h.1
