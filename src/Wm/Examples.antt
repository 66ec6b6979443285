-- ===== src/Wm/Examples.antt =====
-- The theorems on tags and views of src/main.c at one monitor with two windows.
use Prim.Native.Nat.{bit_xor}
use monowm.Base.{
  ℕ, ◌^◌, ◌<◌, ◌≡◌, refl, ◌⊎◌, true, false, none, some, [], ◌∷◌, arith, pos, negsuc, bit_and, count,
  test_bit-low,
}
use monowm.Dwindle.Tree.{Box, leaves?}
use monowm.Dwindle.Edit.{Cursor}
use monowm.Wm.State.{
  Client, Monitor, Server, floating, dwindle_layout, nothing, selected, tag_mask, tagcount,
  visible_on,
}
use monowm.Wm.Arrange.{tiled, dwindle}
use monowm.Wm.Tags.{view, toggleview, viewshift}
use monowm.Wm.Showing.{Shows, view_back, toggleview_lem}
use monowm.Wm.Shifting.{IsPlace, viewshift_lem, viewshift_back, back_by}
use monowm.Wm.Windows.{setmon}
use monowm.Wm.Safe.{IsTagged}
use monowm.Wm.Steps.{stop, then_next, toggling_view, setting_mon, Steps-IsTagged}
use monowm.Wm.Places.{shown_tree, dwindle-tiled}

abbrev output_box : Box
output_box = record { x = pos 0; y = pos 0; width = 1920; height = 1080 }

-- The first monitor, which shows the first tag.
abbrev pub monitor : Monitor
monitor = record {
  id = 1;
  enabled = true;
  seltags = false;
  tagset0 = 1;
  tagset1 = 1;
  canvas_tags = 0;
  sellt = false;
  lt0 = dwindle_layout;
  lt1 = floating;
  gaps = true;
  w = output_box;
  dwindle_root = λ i. none;
  dwindle_focus = λ i. none;
}

abbrev pub window : ℕ → ℕ → Client
window k tags = record {
  id = k;
  mon = some 1;
  tags = tags;
  isfloating = false;
  isurgent = false;
  isfullscreen = false;
  incanvas = false;
  canvas_wasfloating = false;
}

abbrev corner : Cursor
corner = record { left_of = λ x. true; above = λ y. true }

abbrev pub server : Server
server = record {
  mons = monitor ∷ [];
  clients = window 7 1 ∷ window 8 2 ∷ [];
  fstack = 7 ∷ 8 ∷ [];
  selmon = some 1;
  locked = false;
  focused_surface = nothing;
  dragging = none;
  cursor = corner;
  cfg_gaps = 10;
  smart_gaps = true;
}

shows_first : selected server ≡ some monitor
unfolding selected
shows_first = refl

view_back_example : Shows (view server 6) 6 × Shows (view (view server 6) 0) 1
view_back_example =
    view_back server monitor 6 shows_first (omega arith) (λ e. absurd (omega (arith, e)))

toggleview_lem_example :
    ((bit_xor 1 (bit_and 2 tag_mask) ≡ 0) × (toggleview server 2 ≡ server))
    ⊎ ((0 < bit_xor 1 (bit_and 2 tag_mask))
        × Shows (toggleview server 2) (bit_xor 1 (bit_and 2 tag_mask)))
toggleview_lem_example = toggleview_lem server monitor 2 shows_first

viewshift_lem_example :
    (j : ℕ) × (j < tagcount) × IsPlace 0 (negsuc 0) j × Shows (viewshift server (negsuc 0)) (2 ^ j)
viewshift_lem_example =
    viewshift_lem server monitor (negsuc 0) 0 shows_first
      (record { bound = omega arith; set = test_bit-low 1; lower = λ j l. absurd (omega arith) })

viewshift_back_example : Shows (viewshift (viewshift server (negsuc 0)) (back_by (negsuc 0))) 1
viewshift_back_example = viewshift_back server monitor (negsuc 0) 0 shows_first (omega arith) refl

dwindle-tiled_example : count 7 (leaves? (shown_tree (dwindle server monitor))) ≡ 1
dwindle-tiled_example =
    dwindle-tiled server monitor 7 (unfold tiled visible_on in refl) refl
      (unfold leaves? in omega arith)

pub server-IsTagged : IsTagged server
server-IsTagged = record {
  mons_tagged = (((omega arith, omega arith), (omega arith, omega arith)), tt);
  clients_tagged = ((omega arith, omega arith), ((omega arith, omega arith), tt));
}

Steps-IsTagged_example : IsTagged (setmon (toggleview server 2) 7 none 4)
Steps-IsTagged_example =
    Steps-IsTagged server (setmon (toggleview server 2) 7 none 4)
      (then_next (then_next stop (toggling_view 2)) (setting_mon 7 none 4 (omega arith)))
      server-IsTagged
