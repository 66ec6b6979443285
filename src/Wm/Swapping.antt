-- ===== src/Wm/Swapping.antt =====
-- swapdir and swaptiled of src/main.c: two windows change places in the trees. The geometry that
-- swapdir exchanges in the floating layout is not kept.
use monowm.Base.{
  ℕ, Bool, true, false, ◌&&◌, ◌||◌, Option, none, some, List, [], ◌∷◌, keep, map, ◌==◌,
  if◌then◌else◌, ltb,
}
use monowm.Dwindle.Tree.{
  Box, DwindleNode, leaf, node, Frame, in_first, in_second, Leaf, dwindle_find_leaf,
}
use monowm.Dwindle.Recalc.{recalc}
use monowm.Wm.State.{
  Monitor, Server, floating, dwindle_layout, layout, update_mon, tagcount, current_tag_idx,
  selected, on_mon,
}
use monowm.Wm.Focus.{focusclient}
use monowm.Wm.Arrange.{client_ids, tile_area, set_root}
use monowm.Wm.Tags.{sel, with_sel}
use monowm.Wm.Directions.{towards, swappable}

-- The way down to a leaf, from its parents: `true` for children[1].
abbrev pub side : Frame → Bool
side (in_first s n) = false
side (in_second s n) = true

unfoldable pub way_to : List Frame → List Bool → List Bool
way_to [] way = way
way_to (f ∷ fs) way = way_to fs (side f ∷ way)

-- The client of the leaf at the end of a way is overwritten.
unfoldable pub put_client : List Bool → ℕ → DwindleNode → DwindleNode
put_client way k (leaf c b) = leaf k b
put_client [] k (node s l r) = node s l r
put_client (false ∷ way) k (node s l r) = node s (put_client way k l) r
put_client (true ∷ way) k (node s l r) = node s l (put_client way k r)

abbrev pub exchange : ℕ → ℕ → DwindleNode → Option Leaf → Option Leaf → DwindleNode
exchange a b n (some la) (some lb) =
    put_client (way_to lb.parents []) a (put_client (way_to la.parents []) b n)
exchange a b n _ _ = n

-- The two leaves of a tree, if both are there.
unfoldable pub swap_leaves : ℕ → ℕ → DwindleNode → DwindleNode
unfolding dwindle_find_leaf put_client way_to
swap_leaves a b n = exchange a b n (dwindle_find_leaf [] n a) (dwindle_find_leaf [] n b)

abbrev pub has_leaf : Option Leaf → Bool
has_leaf none = false
has_leaf (some l) = true

abbrev pub outer_gap : Server → Monitor → ℕ
outer_gap s m = if m.gaps then s.cfg_gaps else 0

-- A tree after the exchange; it is laid out anew only where both windows have a leaf.
unfoldable pub swap_root : Server → ℕ → ℕ → Monitor → Option DwindleNode → Option DwindleNode
unfolding swap_leaves recalc tile_area
swap_root s a b m none = none
swap_root s a b m (some n) =
    if has_leaf (dwindle_find_leaf [] n a) && has_leaf (dwindle_find_leaf [] n b)
    then some (recalc (outer_gap s m) (tile_area m (outer_gap s m)) (swap_leaves a b n))
    else some n

abbrev pub swap_shown : Server → ℕ → ℕ → Monitor → Monitor
swap_shown s a b m =
    set_root (current_tag_idx m) (swap_root s a b m (m.dwindle_root (current_tag_idx m))) m

abbrev pub swap_tile : Server → ℕ → ℕ → Monitor → Server
swap_tile s a b m = elim (layout m) [
  | floating ↦ s
  | dwindle_layout ↦ update_mon m.id (swap_shown s a b) s
]

abbrev pub swap_best : Server → Monitor → ℕ → Option ℕ → Server
swap_best s m a none = s
swap_best s m a (some b) = focusclient (swap_tile s a b m) (some a)

unfoldable pub swapdir : (ℕ → Box) → Server → ℕ → Server
unfolding sel selected towards swappable swap_root current_tag_idx focusclient
swapdir geom s dir = with_sel s (sel s) λ c.
    if c.isfloating || c.isfullscreen
    then s
    else on_mon s (selected s)
        λ m. swap_best s m c.id (towards geom dir c.id (keep (swappable s m c.id) (client_ids s)))

-- All trees of a monitor.
abbrev pub swap_all : Server → ℕ → ℕ → Monitor → Monitor
swap_all s a b m = record m {
  dwindle_root =
      λ i. if ltb i tagcount then swap_root s a b m (m.dwindle_root i) else m.dwindle_root i;
}

unfoldable pub swaptiled : Server → ℕ → ℕ → Server
unfolding swap_root focusclient
swaptiled s a b =
    if a == b then s else focusclient (record s { mons = map (swap_all s a b) s.mons }) (some a)
