-- ===== src/Wm/Keys.antt =====
-- Tag sets under dispatch_action and keybinding of src/main.c.
use monowm.Base.{ℕ, true, not, ◌&&◌, Bool-cases, inl, inr, some, List, [], ◌∷◌, ◌==◌}
use monowm.Config.Bindings.{CfgCommand, CfgKeybind, Bound, runs, calls}
use monowm.Wm.State.{Server}
use monowm.Wm.Safe.{IsTagged}
use monowm.Wm.Tags.{client_at}
use monowm.Wm.Windows.{mon_of}
use monowm.Wm.Actions.{
  view-IsTagged, toggleview-IsTagged, viewshift-IsTagged, tag-IsTagged, toggletag-IsTagged,
  tagshift-IsTagged, setlayout-IsTagged, with_sel-IsTagged,
}
use monowm.Wm.Moves.{setfloating-IsTagged}
use monowm.Wm.Pressing.{
  if-IsTagged, togglefloating-IsTagged, togglefullscreen-IsTagged, togglegaps-IsTagged,
  togglecanvas-IsTagged, focusmon-IsTagged, tagmon-IsTagged, focusdir-IsTagged, swapdir-IsTagged,
}
use monowm.Wm.Dispatch.{
  World, Act, outside, act_togglefloating, act_togglefullscreen, act_togglegaps, act_togglecanvas,
  act_viewshift, act_tagshift, act_view, act_toggleview, act_tag, act_toggletag, act_focusdir,
  act_swapdir, act_focusmon, act_tagmon, act_moveresize, act_setlayout, drags, moveresize, run_act,
  dispatch_action, run_script, run_bound, keybinding,
}

module _ (W : World) where
  moveresize-IsTagged : (s : Server) (mode : ℕ) → IsTagged s → IsTagged (moveresize W s mode)
  unfolding moveresize
  moveresize-IsTagged s mode h = if-IsTagged (not W.cursor_free) s _ h (
      with_sel-IsTagged s (client_at s W.grabbed) _
        (λ c. if-IsTagged c.isfullscreen s _ h (
          if-IsTagged (drags W mode c (mon_of s c.mon)) (record s { dragging = some c.id }) _ h
            (setfloating-IsTagged s c.id true h)))
        h)

  run_act-IsTagged : (s : Server) (a : Act) → IsTagged s → IsTagged (run_act W s a)
  unfolding run_act
  run_act-IsTagged s outside h = h
  run_act-IsTagged s act_togglefloating h = togglefloating-IsTagged s h
  run_act-IsTagged s act_togglefullscreen h = togglefullscreen-IsTagged s h
  run_act-IsTagged s act_togglegaps h = togglegaps-IsTagged s h
  run_act-IsTagged s act_togglecanvas h = togglecanvas-IsTagged s h
  run_act-IsTagged s (act_viewshift i) h = viewshift-IsTagged s i h
  run_act-IsTagged s (act_tagshift i) h = tagshift-IsTagged s i h
  run_act-IsTagged s (act_view ui) h = view-IsTagged s ui h
  run_act-IsTagged s (act_toggleview ui) h = toggleview-IsTagged s ui h
  run_act-IsTagged s (act_tag ui) h = tag-IsTagged s ui h
  run_act-IsTagged s (act_toggletag ui) h = toggletag-IsTagged s ui h
  run_act-IsTagged s (act_focusdir dir) h = focusdir-IsTagged W.geom W.has_children s dir h
  run_act-IsTagged s (act_swapdir dir) h = swapdir-IsTagged W.geom s dir h
  run_act-IsTagged s (act_focusmon dir) h = focusmon-IsTagged W.outputs s dir h
  run_act-IsTagged s (act_tagmon dir) h = tagmon-IsTagged W.outputs s dir h
  run_act-IsTagged s (act_moveresize mode) h = moveresize-IsTagged s mode h
  run_act-IsTagged s (act_setlayout i) h = setlayout-IsTagged s i h

  pub dispatch_action-IsTagged :
      (s : Server) (c : CfgCommand) → IsTagged s → IsTagged (dispatch_action W s c)
  unfolding dispatch_action
  dispatch_action-IsTagged s c h = run_act-IsTagged s _ h

  run_script-IsTagged :
      (s : Server) (cs : List CfgCommand) → IsTagged s → IsTagged (run_script W s cs)
  unfolding run_script
  run_script-IsTagged s [] h = h
  run_script-IsTagged s (c ∷ cs) h =
      run_script-IsTagged (dispatch_action W s c) cs (dispatch_action-IsTagged s c h)

  run_bound-IsTagged : (s : Server) (b : Bound) → IsTagged s → IsTagged (run_bound W s b)
  unfolding run_bound
  run_bound-IsTagged s (runs command) h = dispatch_action-IsTagged s command h
  run_bound-IsTagged s (calls ref) h = run_script-IsTagged s (W.script ref) h

  pub keybinding-IsTagged :
      (s : Server) (ks : List CfgKeybind) (mods sym : ℕ)
      → IsTagged s
      → IsTagged (keybinding W s ks mods sym).1
  unfolding keybinding
  keybinding-IsTagged s [] mods sym h = h
  keybinding-IsTagged s (k ∷ ks) mods sym h =
      elim (Bool-cases (W.clean mods == W.clean k.mods && W.lower sym == W.lower k.key)) [
        | inl e ↦ rw e (run_bound-IsTagged s k.bound h)
        | inr e ↦ rw e (keybinding-IsTagged s ks mods sym h)
      ]
