-- ===== src/Dwindle/Examples.antt =====
-- The theorems on the dwindle tree of src/main.c at a tree of three windows, 1 beside 2 above 3.
use monowm.Base.{ℕ, ◌≡◌, refl, Bool, true, false, not, some, [], ◌∷◌, ◌==◌, arith, pos, elem}
use monowm.Dwindle.Tree.{
  Box, Split, DwindleNode, leaf, node, Leaf, leaves, leaves?, in_second, in_first,
}
use monowm.Dwindle.Edit.{Cursor, edge_top, dwindle_insert, dwindle_insert_at_edge, dwindle_remove}
use monowm.Dwindle.Remove.{leaves-remove}
use monowm.Dwindle.Insert.{
  InsertedAtEdge, dwindle_insert_at_edge-Inserted, Inserted, dwindle_insert-Inserted, remove-insert,
  remove-insert_at_edge,
}
use monowm.Dwindle.Moving.{Moved, dwindle_move_to_edge, dwindle_move_to_edge-Moved}
use monowm.Dwindle.Sweep.{sweep_all, sweep_all-keep}
use monowm.Dwindle.Recalc.{recalc, tiles, depth}
use monowm.Dwindle.Tiling.{Tiled, recalc-tiles}

abbrev screen : Box
screen = record { x = pos 0; y = pos 0; width = 1920; height = 1080 }

abbrev right_half : Box
right_half = record { x = pos 965; y = pos 0; width = 955; height = 1080 }

abbrev small : Box
small = record { x = pos 0; y = pos 0; width = 955; height = 535 }

abbrev wide : Split
wide = record { box = screen; split_top = false; split_fixed = false }

abbrev tall : Split
tall = record { box = right_half; split_top = true; split_fixed = false }

abbrev three : DwindleNode
three = node wide (leaf 1 small) (node tall (leaf 2 small) (leaf 3 small))

abbrev second : Leaf
second = record {
  parents = in_first tall (leaf 3 small) ∷ in_second wide (leaf 1 small) ∷ [];
  client = 2;
  box = small;
}

abbrev corner : Cursor
corner = record { left_of = λ x. true; above = λ y. true }

abbrev odd_ones : ℕ → Bool
odd_ones k = not (k == 2)

leaves-remove_example : leaves? (dwindle_remove (some three) 2).0 ≡ 1 ∷ 3 ∷ []
leaves-remove_example = unfold leaves? leaves in leaves-remove (some three) 2

edge_example : InsertedAtEdge three 4 2 edge_top (dwindle_insert_at_edge (some three) 4 2 edge_top)
edge_example = dwindle_insert_at_edge-Inserted three 4 2 edge_top (unfold leaves in refl)

insert_example : Inserted corner three 4 (some 2) (dwindle_insert corner (some three) 4 (some 2)).0
insert_example = dwindle_insert-Inserted corner three 4 (some 2)

remove-insert_example :
    (dwindle_remove (some (dwindle_insert corner (some three) 4 (some 2)).0) 4).0 ≡ some three
remove-insert_example = remove-insert corner three 4 (some 2) (unfold leaves in refl)

remove-insert_at_edge_example :
    (dwindle_remove (dwindle_insert_at_edge (some three) 4 2 edge_top).0 4).0 ≡ some three
remove-insert_at_edge_example =
    remove-insert_at_edge three 4 2 edge_top (unfold leaves in refl) (unfold leaves in refl)

sweep_all_example :
    (leaves? (sweep_all odd_ones (some three)).root ≡ 1 ∷ 3 ∷ [])
    × ((d : ℕ) → elem d (sweep_all odd_ones (some three)).placed ≡ elem d (1 ∷ 3 ∷ []))
sweep_all_example = unfold leaves? leaves in sweep_all-keep odd_ones (some three)

recalc-tiles_example : Tiled 10 screen (tiles (recalc 10 screen three))
recalc-tiles_example =
    recalc-tiles 10 2 screen three (unfold depth in omega arith) (omega arith, omega arith)

dwindle_move_to_edge-Moved_example :
    Moved three 1 3 edge_top (dwindle_move_to_edge (some three) 1 3 edge_top)
dwindle_move_to_edge-Moved_example =
    dwindle_move_to_edge-Moved three 1 3 edge_top (λ e. absurd (omega (arith, e))) refl
      (unfold leaves in refl) (unfold leaves in refl)
