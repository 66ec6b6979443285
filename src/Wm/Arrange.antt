-- ===== src/Wm/Arrange.antt =====
-- arrange() of src/main.c with the parts of canvas_leave(), canvas_layout() and dwindle() that
-- decide which windows are tiled and what the layout trees hold.
use monowm.Base.{
  ℕ, ◌-◌, ◌*◌, pos, ◌+ℤ◌, max, Bool, true, false, not, ◌&&◌, ◌||◌, Option, none, some, List, map,
  ◌==◌, if◌then◌else◌, bit_and, shares, keep, length,
}
use monowm.Dwindle.Tree.{Box, DwindleNode}
use monowm.Dwindle.Fill.{refill}
use monowm.Dwindle.Recalc.{recalc}
use monowm.Wm.State.{
  Client, Monitor, Server, Layout, floating, dwindle_layout, opt_eq, tagset, layout, find_mon,
  visible_on, client_is, update_mon, current_tag_idx,
}

-- canvas_active, for a client of this monitor.
unfoldable pub canvas_active : Client → Monitor → Bool
canvas_active c m =
    opt_eq c.mon m.id && shares (bit_and m.canvas_tags c.tags) (tagset m) && not c.isfullscreen

-- canvas_leave: the floating state from before the canvas comes back.
unfoldable pub canvas_leave : Client → Client
canvas_leave c =
    if c.incanvas then record c { incanvas = false; isfloating = c.canvas_wasfloating } else c

-- One round of the second loop of arrange(): a shown window whose tags left the canvas.
unfoldable pub leave_hidden_canvas : Monitor → Client → Client
unfolding visible_on canvas_active canvas_leave
leave_hidden_canvas m c =
    if visible_on c m && c.incanvas && not (canvas_active c m) && not c.isfullscreen
    then canvas_leave c
    else c

-- One round of canvas_layout(): a window in the canvas floats, and remembers whether it did before.
unfoldable pub enter_canvas : Monitor → Client → Client
unfolding visible_on canvas_active
enter_canvas m c =
    if visible_on c m && canvas_active c m
    then record c {
      isfloating = true;
      incanvas = true;
      canvas_wasfloating = if c.incanvas then c.canvas_wasfloating else c.isfloating;
    }
    else c

unfoldable pub canvas_layout : Monitor → Server → Server
unfolding enter_canvas
canvas_layout m s = record s { clients = map (enter_canvas m) s.clients }

-- The windows that dwindle() gives a leaf, and those whose leaf it keeps.
unfoldable pub tiled : Server → Monitor → ℕ → Bool
unfolding visible_on
tiled s m k =
    not (opt_eq s.dragging k)
    && client_is s (λ c. visible_on c m && not c.isfloating && not c.isfullscreen) k

unfoldable pub stays : Server → Monitor → ℕ → Bool
unfolding visible_on
stays s m k = opt_eq s.dragging k || client_is s (λ c. visible_on c m && not c.isfloating) k

abbrev pub client_ids : Server → List ℕ
client_ids s = map (λ c. c.id) s.clients

-- The gap around and between the tiles.
unfoldable pub gap_of : Server → Monitor → ℕ → ℕ
gap_of s m n = if m.gaps && not (s.smart_gaps && n == 1) then s.cfg_gaps else 0

-- The monitor's work area inside the outer gap.
unfoldable pub tile_area : Monitor → ℕ → Box
tile_area m e = record {
  x = m.w.x +ℤ pos e;
  y = m.w.y +ℤ pos e;
  width = max 1 (m.w.width - 2 * e);
  height = max 1 (m.w.height - 2 * e);
}

abbrev pub lay_out : ℕ → Box → Option DwindleNode → Option DwindleNode
lay_out e b none = none
lay_out e b (some n) = some (recalc e b n)

abbrev pub set_root : ℕ → Option DwindleNode → Monitor → Monitor
set_root i t m = record m { dwindle_root = λ j. if j == i then t else m.dwindle_root j }

unfoldable pub dwindle : Server → Monitor → Monitor
unfolding tiled stays gap_of tile_area current_tag_idx refill recalc
dwindle s m =
    let n = length (keep (tiled s m) (client_ids s)) in
    let e = gap_of s m n in
    let i = current_tag_idx m in
    let filled =
      refill s.cursor (stays s m) (tiled s m) (m.dwindle_focus i) (client_ids s)
        (m.dwindle_root i) in
    if n == 0 then m else set_root i (lay_out e (tile_area m e) filled) m

abbrev pub run_layout : Layout → Server → Monitor → Monitor
run_layout floating s m = m
run_layout dwindle_layout s m = dwindle s m

unfoldable pub arrange_mon : Monitor → Server → Server
unfolding leave_hidden_canvas canvas_layout dwindle
arrange_mon m s =
    let left = record s { clients = map (leave_hidden_canvas m) s.clients } in
    let placed = if shares m.canvas_tags (tagset m) then canvas_layout m left else left in
    update_mon m.id (run_layout (layout m) placed) placed

unfoldable pub arrange : Server → ℕ → Server
unfolding arrange_mon
arrange s k = elim (find_mon s k) [ none ↦ s | some m ↦ if m.enabled then arrange_mon m s else s ]
