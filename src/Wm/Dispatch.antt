-- ===== src/Wm/Dispatch.antt =====
-- dispatch_action, keybinding and moveresize of src/main.c: from the name of an action to the function
-- that runs. What spawn, killclient, quit, canvaspan, movecenter and chvt do is not part of the state
-- that is kept. A function of Lua that is bound to a key is the calls of mono.action that it makes.
use monowm.Base.{
  ℕ, ◌-◌, ◌^◌, Bool, true, false, not, ◌&&◌, Option, none, some, List, [], ◌∷◌, ◌==◌, if◌then◌else◌,
  ℤ, pos,
}
use monowm.Config.Lua.{bytes, same_bytes}
use monowm.Config.Types.{as_word}
use monowm.Config.Bindings.{CfgCommand, CfgKeybind, Bound, runs, calls}
use monowm.Dwindle.Tree.{Box}
use monowm.Wm.State.{Client, Monitor, Server, floating, dwindle_layout, layout}
use monowm.Wm.Arrange.{canvas_active}
use monowm.Wm.Tags.{
  view, toggleview, viewshift, tag, toggletag, tagshift, setlayout, client_at, with_sel,
}
use monowm.Wm.Windows.{setfloating, mon_of}
use monowm.Wm.Toggles.{
  OutputLayout, togglefloating, togglefullscreen, togglegaps, togglecanvas, focusmon, tagmon,
  dir_up, dir_down, dir_left, dir_right,
}
use monowm.Wm.Directions.{focusdir}
use monowm.Wm.Swapping.{swapdir}

-- What the actions ask of their surroundings: the outputs, the windows' geometry and children,
-- atoi, whether the pointer is free, the window below it, the keysyms in lower case, CLEANMASK, and
-- what a bound function of Lua does.
pub record World : Type 0 where
  pub outputs : OutputLayout
  pub geom : ℕ → Box
  pub has_children : ℕ → Bool
  pub atoi : List ℕ → ℤ
  pub cursor_free : Bool
  pub grabbed : Option ℕ
  pub lower : ℕ → ℕ
  pub clean : ℕ → ℕ
  pub script : ℕ → List CfgCommand

-- What to call, with its argument.
pub data Act : Type 0 where
  outside act_togglefloating act_togglefullscreen act_togglegaps act_togglecanvas : Act
  act_viewshift act_tagshift : ℤ → Act
  act_view act_toggleview act_tag act_toggletag : ℕ → Act
  act_focusdir act_swapdir act_focusmon act_tagmon act_moveresize : ℕ → Act
  act_setlayout : Option ℕ → Act

abbrev pub first_arg : List (List ℕ) → Option (List ℕ)
first_arg [] = none
first_arg (a ∷ args) = some a

abbrev pub is_arg : Option (List ℕ) → List ℕ → Bool
is_arg none s = false
is_arg (some a) s = same_bytes a s

abbrev pub side_of : Option (List ℕ) → ℕ
side_of a =
    if is_arg a (bytes "left") then dir_left else if is_arg a (bytes "right") then dir_right else 0

abbrev pub direction_of : Option (List ℕ) → ℕ
direction_of a =
    if is_arg a (bytes "left")
    then dir_left
    else if is_arg a (bytes "right")
    then dir_right
    else if is_arg a (bytes "up")
    then dir_up
    else if is_arg a (bytes "down")
    then dir_down
    else 0

abbrev pub cur_move : ℕ
cur_move = 2

abbrev pub cur_resize : ℕ
cur_resize = 3

abbrev pub cursor_mode_of : Option (List ℕ) → ℕ
cursor_mode_of a =
    if is_arg a (bytes "move")
    then cur_move
    else if is_arg a (bytes "resize")
    then cur_resize
    else 0

module _ (W : World) where
  abbrev pub int_of : Option (List ℕ) → ℤ
  int_of none = pos 0
  int_of (some a) = W.atoi a

  abbrev pub index_of : Option (List ℕ) → Option ℕ
  index_of none = none
  index_of (some a) = some (as_word (W.atoi a))

  abbrev pub tags_of : Option (List ℕ) → ℕ
  tags_of a = if is_arg a (bytes "all") then 2 ^ 32 - 1 else as_word (int_of a)

  -- The chain of strcmp.
  unfoldable pub action_of : List ℕ → Option (List ℕ) → Act
  action_of action a0 =
      if same_bytes action (bytes "togglefloating")
      then act_togglefloating
      else if same_bytes action (bytes "togglefullscreen")
      then act_togglefullscreen
      else if same_bytes action (bytes "togglegaps")
      then act_togglegaps
      else if same_bytes action (bytes "viewshift")
      then act_viewshift (int_of a0)
      else if same_bytes action (bytes "togglecanvas")
      then act_togglecanvas
      else if same_bytes action (bytes "tagshift")
      then act_tagshift (int_of a0)
      else if same_bytes action (bytes "view")
      then act_view (tags_of a0)
      else if same_bytes action (bytes "toggleview")
      then act_toggleview (as_word (int_of a0))
      else if same_bytes action (bytes "tag")
      then act_tag (as_word (int_of a0))
      else if same_bytes action (bytes "toggletag")
      then act_toggletag (as_word (int_of a0))
      else if same_bytes action (bytes "focusdir")
      then act_focusdir (direction_of a0)
      else if same_bytes action (bytes "swapdir")
      then act_swapdir (direction_of a0)
      else if same_bytes action (bytes "focusmon")
      then act_focusmon (side_of a0)
      else if same_bytes action (bytes "setlayout")
      then act_setlayout (index_of a0)
      else if same_bytes action (bytes "tagmon")
      then act_tagmon (side_of a0)
      else if same_bytes action (bytes "moveresize")
      then act_moveresize (cursor_mode_of a0)
      else outside

  -- Whether moveresize drags a window as a tile: it is moved, not floating, and its output's layout
  -- arranges.
  abbrev pub drags : ℕ → Client → Option Monitor → Bool
  drags mode c none = false
  drags mode c (some m) =
      not (canvas_active c m)
      && mode == cur_move
      && not c.isfloating
      && elim (layout m) [ floating ↦ false | dwindle_layout ↦ true ]

  unfoldable pub moveresize : Server → ℕ → Server
  unfolding canvas_active setfloating
  moveresize s mode =
      if not W.cursor_free
      then s
      else with_sel s (client_at s W.grabbed) λ c.
        if c.isfullscreen
        then s
        else if drags mode c (mon_of s c.mon)
        then record s { dragging = some c.id }
        else setfloating s c.id true

  unfoldable pub run_act : Server → Act → Server
  unfolding togglefloating togglefullscreen togglegaps togglecanvas viewshift tagshift view
      toggleview tag toggletag focusdir swapdir focusmon setlayout tagmon moveresize
  run_act s outside = s
  run_act s act_togglefloating = togglefloating s
  run_act s act_togglefullscreen = togglefullscreen s
  run_act s act_togglegaps = togglegaps s
  run_act s act_togglecanvas = togglecanvas s
  run_act s (act_viewshift i) = viewshift s i
  run_act s (act_tagshift i) = tagshift s i
  run_act s (act_view ui) = view s ui
  run_act s (act_toggleview ui) = toggleview s ui
  run_act s (act_tag ui) = tag s ui
  run_act s (act_toggletag ui) = toggletag s ui
  run_act s (act_focusdir dir) = focusdir W.geom W.has_children s dir
  run_act s (act_swapdir dir) = swapdir W.geom s dir
  run_act s (act_focusmon dir) = focusmon W.outputs s dir
  run_act s (act_tagmon dir) = tagmon W.outputs s dir
  run_act s (act_moveresize mode) = moveresize s mode
  run_act s (act_setlayout i) = setlayout s i

  unfoldable pub dispatch_action : Server → CfgCommand → Server
  unfolding action_of run_act
  dispatch_action s command = run_act s (action_of command.action (first_arg command.args))

  -- The calls of mono.action that a function makes.
  unfoldable pub run_script : Server → List CfgCommand → Server
  unfolding dispatch_action
  run_script s [] = s
  run_script s (c ∷ cs) = run_script (dispatch_action s c) cs

  unfoldable pub run_bound : Server → Bound → Server
  unfolding dispatch_action run_script
  run_bound s (runs command) = dispatch_action s command
  run_bound s (calls ref) = run_script s (W.script ref)

  -- Whether a key is bound, and the state: the first binding that fits runs.
  unfoldable pub keybinding : Server → List CfgKeybind → ℕ → ℕ → Bool × Server
  unfolding run_bound
  keybinding s [] mods sym = (false, s)
  keybinding s (k ∷ ks) mods sym =
      let rest = keybinding s ks mods sym in
      if W.clean mods == W.clean k.mods && W.lower sym == W.lower k.key
      then (true, run_bound s k.bound)
      else rest
