-- ===== src/Wm/Toggles.antt =====
-- Actions of src/main.c on the focused window and the selected output: togglefloating,
-- togglefullscreen, togglegaps, togglecanvas, dirtomon, focusmon and tagmon. Where outputs stand is
-- wlroots' output layout, behind an interface.
use Prim.Native.Nat.{bit_xor}
use monowm.Base.{
  ℕ, zero, suc, ◌+◌, Bool, false, not, ◌&&◌, Option, none, some, List, map, length, ◌==◌,
  if◌then◌else◌, bit_and, shares,
}
use monowm.Wm.State.{
  Client, Monitor, Server, opt_eq, tagset, update_mon, find_mon, focustop, selected, on_mon,
}
use monowm.Wm.Focus.{focusclient}
use monowm.Wm.Arrange.{arrange, canvas_leave}
use monowm.Wm.Tags.{sel, with_sel}
use monowm.Wm.Windows.{setfloating, setfullscreen, setmon}

unfoldable pub togglefloating : Server → Server
unfolding sel setfloating
togglefloating s =
    with_sel s (sel s) (λ c. if c.isfullscreen then s else setfloating s c.id (not c.isfloating))

unfoldable pub togglefullscreen : Server → Server
unfolding sel setfullscreen
togglefullscreen s = with_sel s (sel s) (λ c. setfullscreen s c.id (not c.isfullscreen))

unfoldable pub togglegaps : Server → Server
unfolding selected arrange
togglegaps s =
    on_mon s (selected s)
      λ m. arrange (update_mon m.id (λ n. record n { gaps = not n.gaps }) s) m.id

-- A window whose last canvas tag is disabled leaves the canvas; `canvas_tags` are those afterwards.
unfoldable pub leave_disabled : ℕ → ℕ → ℕ → Client → Client
unfolding canvas_leave
leave_disabled k disabled canvas_tags c =
    if opt_eq c.mon k && shares c.tags disabled && not (shares c.tags canvas_tags)
    then canvas_leave c
    else c

-- The loop over the windows where some tags are disabled.
unfoldable pub leave_canvas : ℕ → ℕ → ℕ → List Client → List Client
unfolding leave_disabled
leave_canvas k disabled canvas_tags cs =
    if disabled == 0 then cs else map (leave_disabled k disabled canvas_tags) cs

unfoldable pub togglecanvas : Server → Server
unfolding selected arrange leave_canvas
togglecanvas s = on_mon s (selected s) λ m.
    let disabled = bit_and m.canvas_tags (tagset m) in
    let canvas_tags = bit_xor m.canvas_tags (tagset m) in
    let t = update_mon m.id (λ n. record n { canvas_tags = canvas_tags }) s in
    arrange (record t { clients = leave_canvas m.id disabled canvas_tags t.clients }) m.id

-- WLR_DIRECTION_*.
abbrev pub dir_up : ℕ
dir_up = 1

abbrev pub dir_down : ℕ
dir_down = 2

abbrev pub dir_left : ℕ
dir_left = 4

abbrev pub dir_right : ℕ
dir_right = 8

-- Whether an output is in the layout, and the next and the farthest output in a direction.
pub record OutputLayout : Type 0 where
  pub has : ℕ → Bool
  pub adjacent : ℕ → ℕ → Option ℕ
  pub farthest : ℕ → ℕ → Option ℕ

abbrev pub or_else : Option ℕ → ℕ → ℕ
or_else none k = k
or_else (some j) k = j

unfoldable pub dirtomon : OutputLayout → ℕ → ℕ → ℕ
dirtomon O dir k =
    if O.has k
    then or_else (O.adjacent dir k) (or_else (O.farthest (bit_xor dir (dir_left + dir_right)) k) k)
    else k

abbrev pub is_enabled : Option Monitor → Bool
is_enabled none = false
is_enabled (some m) = m.enabled

-- The loop of focusmon, in the rounds that are left after the first.
unfoldable pub next_enabled : OutputLayout → Server → ℕ → ℕ → ℕ → ℕ
unfolding dirtomon
next_enabled O s dir zero k = dirtomon O dir k
next_enabled O s dir (suc n) k =
    let next = dirtomon O dir k in
    let rest = next_enabled O s dir n next in if is_enabled (find_mon s next) then next else rest

abbrev pub pick_mon : OutputLayout → Server → ℕ → ℕ → Server
pick_mon O s dir k = record s { selmon = some (next_enabled O s dir (length s.mons) k) }

abbrev pub focus_top : Server → Server
focus_top s = focusclient s (focustop s (selected s))

unfoldable pub focusmon : OutputLayout → Server → ℕ → Server
unfolding next_enabled focusclient focustop selected
focusmon O s dir = on_mon s (selected s) (λ m. focus_top (pick_mon O s dir m.id))

unfoldable pub tagmon : OutputLayout → Server → ℕ → Server
unfolding sel dirtomon setmon selected
tagmon O s dir =
    with_sel s (sel s)
      (λ c. on_mon s (selected s) (λ m. setmon s c.id (some (dirtomon O dir m.id)) 0))
