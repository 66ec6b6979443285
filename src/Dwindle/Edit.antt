-- ===== src/Dwindle/Edit.antt =====
-- Changing the dwindle tree of src/main.c: dwindle_insert_at_edge, dwindle_insert,
-- dwindle_remove_leaf and dwindle_remove. `Option DwindleNode` is the root pointer, `none` for NULL.
use monowm.Base.{
  ℕ, ◌/◌, ℤ, pos, ◌+ℤ◌, Bool, true, false, Option, none, some, List, [], ◌∷◌, ltb, if◌then◌else◌,
}
use monowm.Dwindle.Tree.{
  Box, Split, DwindleNode, leaf, node, Frame, in_first, in_second, Leaf, box_of, plug,
  dwindle_find_leaf, dwindle_first_leaf, as_node,
}

pub data DwindleEdge : Type 0 where
  edge_none edge_left edge_right edge_top edge_bottom : DwindleEdge

pub record DwindleHint : Type 0 where
  pub edge : DwindleEdge
  pub old_box : Box

-- The cursor is at a point with floating coordinates: all that is asked of it is whether it lies
-- left of, or above, a pixel coordinate.
pub record Cursor : Type 0 where
  pub left_of : ℤ → Bool
  pub above : ℤ → Bool

-- The box of a node fresh from calloc.
abbrev pub unset_box : Box
unset_box = record { x = pos 0; y = pos 0; width = 0; height = 0 }

-- dwindle_new_node, given a client.
abbrev pub new_leaf : ℕ → DwindleNode
new_leaf c = leaf c unset_box

-- Two nodes under a new parent, in the order that the flag says.
abbrev pub pair_up : Split → Bool → DwindleNode → DwindleNode → DwindleNode
pair_up s new_first new old = if new_first then node s new old else node s old new

abbrev pub is_first_edge : DwindleEdge → Bool
is_first_edge edge_left = true
is_first_edge edge_top = true
is_first_edge _ = false

abbrev pub is_top_split : DwindleEdge → Bool
is_top_split edge_top = true
is_top_split edge_bottom = true
is_top_split _ = false

-- Beside the leaf at a place, at an edge chosen by the user.
unfoldable pub open_at_edge : Leaf → ℕ → DwindleEdge → DwindleNode
unfolding plug
open_at_edge p new_c edge = plug p.parents (
    pair_up (record { box = p.box; split_top = is_top_split edge; split_fixed = true })
      (is_first_edge edge) (new_leaf new_c) (as_node p))

-- The root afterwards, and whether the target was found.
abbrev pub insert_found : DwindleNode → ℕ → DwindleEdge → Option Leaf → Option DwindleNode × Bool
insert_found root new_c edge none = (some root, false)
insert_found root new_c edge (some p) = (some (open_at_edge p new_c edge), true)

unfoldable pub dwindle_insert_at_edge :
    Option DwindleNode → ℕ → ℕ → DwindleEdge → Option DwindleNode × Bool
unfolding dwindle_find_leaf open_at_edge
dwindle_insert_at_edge none new_c target edge = (none, false)
dwindle_insert_at_edge (some root) new_c target edge =
    insert_found root new_c edge (dwindle_find_leaf [] root target)

-- The side of a leaf that the cursor is on.
unfoldable pub cursor_first : Cursor → Box → Bool → Bool
cursor_first cur b split_top =
    if split_top
    then cur.above (b.y +ℤ pos (b.height / 2))
    else cur.left_of (b.x +ℤ pos (b.width / 2))

abbrev pub edge_of : Bool → Bool → DwindleEdge
edge_of split_top first =
    if split_top
    then (if first then edge_top else edge_bottom)
    else (if first then edge_left else edge_right)

abbrev pub or_first : DwindleNode → Option Leaf → Leaf
or_first root none = dwindle_first_leaf [] root
or_first root (some p) = p

-- The leaf that a new client splits: the focused client's, or else the first.
unfoldable pub opening_on : DwindleNode → Option ℕ → Leaf
unfolding dwindle_find_leaf dwindle_first_leaf
opening_on root none = dwindle_first_leaf [] root
opening_on root (some f) = or_first root (dwindle_find_leaf [] root f)

-- Split a leaf along its longer side, the new client on the cursor's half.
unfoldable pub open_on : Cursor → Leaf → ℕ → DwindleNode × DwindleHint
unfolding cursor_first plug
open_on cur p new_c =
    let split_top = ltb p.box.width p.box.height in
    let new_first = cursor_first cur p.box split_top in
    (
      plug p.parents (
          pair_up (record { box = p.box; split_top = split_top; split_fixed = false }) new_first
            (new_leaf new_c) (as_node p)),
      record { edge = edge_of split_top new_first; old_box = p.box },
    )

-- The root afterwards, and the hint, if a leaf was split.
unfoldable pub dwindle_insert :
    Cursor → Option DwindleNode → ℕ → Option ℕ → DwindleNode × Option DwindleHint
unfolding opening_on open_on
dwindle_insert cur none new_c focused = (new_leaf new_c, none)
dwindle_insert cur (some root) new_c focused =
    let (t, h) = open_on cur (opening_on root focused) new_c in (t, some h)

-- Promote the sibling into the parent's place, and say which side it grew towards.
unfoldable pub promote : List Frame → Split → DwindleNode → Bool → DwindleNode × DwindleHint
unfolding plug box_of
promote fs s sibling leaf_is_first =
    (plug fs sibling, record { edge = edge_of s.split_top leaf_is_first; old_box = box_of sibling })

-- The root without the leaf below these parents; the only leaf leaves no tree.
unfoldable pub drop_below : List Frame → Option DwindleNode × Option DwindleHint
unfolding promote
drop_below [] = (none, none)
drop_below (in_first s sibling ∷ fs) = let (t, h) = promote fs s sibling true in (some t, some h)
drop_below (in_second s sibling ∷ fs) = let (t, h) = promote fs s sibling false in (some t, some h)

unfoldable pub dwindle_remove_leaf : Leaf → Option DwindleNode × Option DwindleHint
unfolding drop_below
dwindle_remove_leaf p = drop_below p.parents

abbrev pub remove_found : DwindleNode → Option Leaf → Option DwindleNode × Option DwindleHint
remove_found root none = (some root, none)
remove_found root (some p) = dwindle_remove_leaf p

unfoldable pub dwindle_remove : Option DwindleNode → ℕ → Option DwindleNode × Option DwindleHint
unfolding dwindle_find_leaf dwindle_remove_leaf
dwindle_remove none c = (none, none)
dwindle_remove (some root) c = remove_found root (dwindle_find_leaf [] root c)
