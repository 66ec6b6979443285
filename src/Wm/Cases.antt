-- ===== src/Wm/Cases.antt =====
-- Actions and rules of src/main.c at one monitor with a few windows.
use monowm.Base.{
  Bool-cases, inl, inr, ==_iff, none, if◌then◌else◌, ℕ, ◌+◌, ◌*◌, ◌≤◌, ◌≡◌, refl, Bool, true, false,
  Option, some, List, [], ◌∷◌, arith, pos, negsuc, ◌==◌, map, count,
}
use monowm.Config.Lua.{bytes}
use monowm.Dwindle.Tree.{DwindleNode, leaves?, Box, leaf, node, leaves}
use monowm.Wm.Toggles.{dir_right}
use monowm.Wm.Directions.{towards}
use monowm.Wm.Nearest.{IsNearest, towards-IsNearest}
use monowm.Wm.Swapping.{swap_leaves}
use monowm.Wm.Exchanging.{turn, leaves-swap_leaves}
use monowm.Wm.Dispatch.{World, keybinding}
use monowm.Wm.Rules.{applybounds, contains}
use monowm.Wm.Ruling.{Meets, applybounds-Meets}
use monowm.Wm.Arrange.{client_ids}
use monowm.Wm.Closing.{closemon}
use monowm.Wm.Homes.{homes}
use monowm.Wm.Evicting.{evict}
use monowm.Wm.Closed.{closemon-evict}
use monowm.Wm.State.{opt_eq, Client, Server, Monitor}
use monowm.Wm.Examples.{server, monitor, window}
use monowm.Wm.Mapping.{Mapped, mapnotify}
use monowm.Wm.Unmapping.{unmapnotify}
use monowm.Wm.Unmapped.{AtMostOne, IsGone, unmapnotify-IsGone}
use monowm.Config.Bindings.{runs}

-- Windows side by side, a hundred pixels apart.
abbrev row : ℕ → Box
row k = record { x = pos (k * 100); y = pos 0; width = 80; height = 60 }

abbrev others : List ℕ
others = 3 ∷ 0 ∷ 2 ∷ []

towards-IsNearest_example : IsNearest row dir_right 1 others (towards row dir_right 1 others)
towards-IsNearest_example = towards-IsNearest row dir_right 1 others refl

next_right : towards row dir_right 1 others ≡ some 2
unfolding towards monowm.Base.Int.◌+ℤ◌ monowm.Base.Int.◌-ℤ◌
next_right = refl

abbrev screen : Box
screen = record { x = pos 0; y = pos 0; width = 1920; height = 1080 }

abbrev outside_screen : Box
outside_screen = record { x = pos 5000; y = negsuc 4000; width = 1; height = 300 }

-- A window far out is brought back to an edge.
abbrev bounded : Box
bounded = applybounds false 2 screen outside_screen

applybounds-Meets_example :
    (g : Box) × (applybounds false 2 screen outside_screen ≡ g)
    × Meets (pos 0) 1920 g.x g.width
    × Meets (pos 0) 1080 g.y g.height
    × (5 ≤ g.width)
    × (5 ≤ g.height)
applybounds-Meets_example = applybounds-Meets 2 screen outside_screen (omega arith) (omega arith)

-- Three windows, the second half of the screen split once more.
abbrev three_tiles : DwindleNode
three_tiles =
    node (record { box = screen; split_top = false; split_fixed = false }) (leaf 1 screen)
      (node (record { box = screen; split_top = false; split_fixed = false }) (leaf 2 screen)
        (leaf 3 screen))

leaves-swap_leaves_example :
    leaves (swap_leaves 1 3 three_tiles) ≡ map (turn 1 3) (leaves three_tiles)
unfolding leaves
leaves-swap_leaves_example = leaves-swap_leaves three_tiles 1 3 (omega arith) refl refl

swapped : map (turn 1 3) (leaves three_tiles) ≡ 3 ∷ 2 ∷ 1 ∷ []
unfolding leaves
swapped = refl

abbrev pub world : World
world = record {
  outputs = record { has = λ k. true; adjacent = λ d k. none; farthest = λ d k. none };
  geom = row;
  has_children = λ k. false;
  atoi = λ s. pos 2;
  cursor_free = true;
  grabbed = none;
  lower = λ k. k;
  clean = λ m. m;
  script = λ r. [];
}

-- A key bound to view 2 shows the second tag.
pressed :
    (keybinding world server
      (record {
        mods = 64;
        key = 0x71;
        bound = runs (record { action = bytes "view"; args = bytes "2" ∷ [] });
      }
        ∷ [])
      64
      0x71).0
    ≡ true
unfolding keybinding
pressed = refl

found : contains (bytes "foot terminal") (bytes "term") ≡ true
unfolding contains
found = refl

-- The first window has a tile on the first tag.
abbrev tiled_monitor : Monitor
tiled_monitor = record monitor { dwindle_root = λ i. if i == 0 then some (leaf 7 screen) else none }

abbrev tiled_server : Server
tiled_server = record server { mons = tiled_monitor ∷ []; dragging = some 7 }

one_tile : AtMostOne 7 tiled_monitor
unfolding leaves? leaves
one_tile i = elim (Bool-cases (i == 0)) [
  | inl e ↦ rw ((==_iff i 0).0 e) (omega arith)
  | inr e ↦ rw e (omega arith)
]

unmapnotify-IsGone_example : IsGone 7 (unmapnotify tiled_server 7)
unmapnotify-IsGone_example =
    unmapnotify-IsGone tiled_server 7 (window 7 1) refl (one_tile, tt) (omega arith)

-- A dialog of the second window, mapped while the first tag is shown.
abbrev dialog : Mapped
dialog = record { parent = some 8; title = []; appid = []; float_type = false; under = some 1 }

abbrev no_output : Client
no_output = record (window 9 0) { mon = none }

-- It gets its parent's tags.
mapped :
    map (λ (c : Client). c.tags) (mapnotify [] dialog server no_output).clients ≡ 2 ∷ 1 ∷ 2 ∷ []
unfolding mapnotify
mapped = refl

-- Two outputs side by side, with a window on each.
abbrev outputs : Server
outputs = record server {
  mons = monitor ∷ record monitor { id = 2 } ∷ [];
  clients = window 7 1 ∷ record (window 8 2) { mon = some 2 } ∷ [];
}

distinct : (i : ℕ) → count i (client_ids outputs) ≤ 1
distinct i = ground arith

closemon-evict_example :
    (homes (closemon outputs 1) ≡ map (evict 1 (closemon outputs 1).selmon) (homes outputs))
    × (opt_eq (closemon outputs 1).selmon 1 ≡ false)
closemon-evict_example = closemon-evict outputs 1 distinct

other_selected : (closemon outputs 1).selmon ≡ some 2
unfolding closemon
other_selected = refl
