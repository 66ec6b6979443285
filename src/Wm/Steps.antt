-- ===== src/Wm/Steps.antt =====
-- Sequences of actions on tags, views and windows of src/main.c.
use monowm.Base.{ℕ, ◌≡◌, false, none, some, Bool, Option, ◌<◌, ◌^◌, ℤ, List, All}
use monowm.Config.Bindings.{CfgCommand, CfgKeybind}
use monowm.Config.Types.{CfgRule}
use monowm.Wm.Dispatch.{World, dispatch_action, keybinding}
use monowm.Wm.Keys.{dispatch_action-IsTagged, keybinding-IsTagged}
use monowm.Wm.Unmapping.{unmapnotify}
use monowm.Wm.Unmapped.{unmapnotify-IsTagged}
use monowm.Wm.Swapping.{swaptiled}
use monowm.Wm.Pressing.{swaptiled-IsTagged}
use monowm.Wm.Rules.{applyrules}
use monowm.Wm.Ruling.{applyrules-IsTagged}
use monowm.Ext.State.{Request}
use monowm.Glue.Desk.{ExtWorkspace}
use monowm.Glue.Commit.{handle_ext_commit}
use monowm.Glue.Asked.{handle_ext_commit-IsTagged}
use monowm.Wm.Mapping.{Mapped, mapnotify}
use monowm.Wm.Entered.{target_of, mapnotify-IsTagged}
use monowm.Wm.State.{Client, Monitor, Server, find_mon, opt_eq, tagcount}
use monowm.Wm.Focus.{focusclient}
use monowm.Wm.Arrange.{arrange}
use monowm.Wm.Tags.{view, toggleview, viewshift, settags, tag, toggletag, tagshift, setlayout}
use monowm.Wm.Windows.{setfloating, setfullscreen, setmon}
use monowm.Wm.Closing.{closemon, closemon-IsTagged}
use monowm.Wm.Ipc.{
  ipc_set_tags, ipc_set_client_tags, ipc_set_layout, ipc_set_tags-IsTagged,
  ipc_set_client_tags-IsTagged, ipc_set_layout-IsTagged,
}
use monowm.Wm.Safe.{IsTagged}
use monowm.Wm.Actions.{
  view-IsTagged, toggleview-IsTagged, viewshift-IsTagged, settags-IsTagged, tag-IsTagged,
  toggletag-IsTagged, tagshift-IsTagged, setlayout-IsTagged, arrange-IsTagged,
}
use monowm.Wm.Moves.{
  setfloating-IsTagged, setfullscreen-IsTagged, setmon-IsTagged, focusclient-IsTagged,
}

-- One action. The tags that setmon is given have no bit beyond the nine tags.
pub data Step : Server → Server → Type 0 where
  viewing : {s : Server} (ui : ℕ) → Step s (view s ui)
  toggling_view : {s : Server} (ui : ℕ) → Step s (toggleview s ui)
  shifting_view : {s : Server} (i : ℤ) → Step s (viewshift s i)
  setting_tags : {s : Server} (k : Option ℕ) (newtags : ℕ) → Step s (settags s k newtags)
  tagging : {s : Server} (ui : ℕ) → Step s (tag s ui)
  toggling_tag : {s : Server} (ui : ℕ) → Step s (toggletag s ui)
  shifting_tag : {s : Server} (i : ℤ) → Step s (tagshift s i)
  setting_layout : {s : Server} (i : Option ℕ) → Step s (setlayout s i)
  setting_floating : {s : Server} (k : ℕ) (b : Bool) → Step s (setfloating s k b)
  setting_fullscreen : {s : Server} (k : ℕ) (b : Bool) → Step s (setfullscreen s k b)
  setting_mon :
      {s : Server} (k : ℕ) (m : Option ℕ) (newtags : ℕ)
      → newtags < 2 ^ tagcount
      → Step s (setmon s k m newtags)
  closing_mon : {s : Server} (k : ℕ) → Step s (closemon s k)
  ipc_tags :
      {s : Server} (k : Option ℕ) (tagmask : ℕ) (toggle_tagset : Bool)
      → Step s (ipc_set_tags s k tagmask toggle_tagset)
  ipc_client_tags :
      {s : Server} (k : Option ℕ) (and_tags xor_tags : ℕ)
      → Step s (ipc_set_client_tags s k and_tags xor_tags)
  ipc_layout : {s : Server} (k : Option ℕ) (idx : ℕ) → Step s (ipc_set_layout s k idx)
  focusing : {s : Server} (k : Option ℕ) → Step s (focusclient s k)
  arranging : {s : Server} (k : ℕ) → Step s (arrange s k)
  pressing :
      {s : Server} (W : World) (ks : List CfgKeybind) (mods sym : ℕ)
      → Step s (keybinding W s ks mods sym).1
  dispatching : {s : Server} (W : World) (c : CfgCommand) → Step s (dispatch_action W s c)
  unmapping : {s : Server} (k : ℕ) → Step s (unmapnotify s k)
  swapping : {s : Server} (a b : ℕ) → Step s (swaptiled s a b)
  ruling :
      {s : Server} (rules : List CfgRule) (k : ℕ) (title appid : List ℕ) (float_type : Bool)
      → All (λ (r : CfgRule). r.tags < 2 ^ tagcount) rules
      → Step s (applyrules s rules k title appid float_type)
  ext_commit :
      {s : Server} (ws : List ExtWorkspace) (rs : List Request) → Step s (handle_ext_commit ws rs s)
  -- The window has no output before it is mapped.
  mapping :
      {s : Server} (rules : List CfgRule) (e : Mapped) (c : Client) (j : ℕ) (m : Monitor)
      → All (λ (r : CfgRule). r.tags < 2 ^ tagcount) rules
      → opt_eq e.parent c.id ≡ false
      → target_of rules e s c e.parent ≡ some j
      → find_mon s j ≡ some m
      → Step s (mapnotify rules e s (record c { mon = none }))

Step-IsTagged : {s t : Server} → Step s t → IsTagged s → IsTagged t
Step-IsTagged {s} (viewing ui) h = view-IsTagged s ui h
Step-IsTagged {s} (toggling_view ui) h = toggleview-IsTagged s ui h
Step-IsTagged {s} (shifting_view i) h = viewshift-IsTagged s i h
Step-IsTagged {s} (setting_tags k newtags) h = settags-IsTagged s k newtags h
Step-IsTagged {s} (tagging ui) h = tag-IsTagged s ui h
Step-IsTagged {s} (toggling_tag ui) h = toggletag-IsTagged s ui h
Step-IsTagged {s} (shifting_tag i) h = tagshift-IsTagged s i h
Step-IsTagged {s} (setting_layout i) h = setlayout-IsTagged s i h
Step-IsTagged {s} (setting_floating k b) h = setfloating-IsTagged s k b h
Step-IsTagged {s} (setting_fullscreen k b) h = setfullscreen-IsTagged s k b h
Step-IsTagged {s} (setting_mon k m newtags l) h = setmon-IsTagged s k m newtags l h
Step-IsTagged {s} (closing_mon k) h = closemon-IsTagged s k h
Step-IsTagged {s} (ipc_tags k t b) h = ipc_set_tags-IsTagged s k t b h
Step-IsTagged {s} (ipc_client_tags k a x) h = ipc_set_client_tags-IsTagged s k a x h
Step-IsTagged {s} (ipc_layout k i) h = ipc_set_layout-IsTagged s k i h
Step-IsTagged {s} (focusing k) h = focusclient-IsTagged s k h
Step-IsTagged {s} (arranging k) h = arrange-IsTagged s k h
Step-IsTagged {s} (pressing W ks mods sym) h = keybinding-IsTagged W s ks mods sym h
Step-IsTagged {s} (dispatching W c) h = dispatch_action-IsTagged W s c h
Step-IsTagged {s} (unmapping k) h = unmapnotify-IsTagged s k h
Step-IsTagged {s} (swapping a b) h = swaptiled-IsTagged s a b h
Step-IsTagged {s} (ruling rules k title appid f good) h =
    applyrules-IsTagged s rules k title appid f good h
Step-IsTagged {s} (ext_commit ws rs) h = handle_ext_commit-IsTagged ws rs s h
Step-IsTagged {s} (mapping rules e c j m good other on here) h =
    mapnotify-IsTagged rules e s c j m good other on here h

-- Any number of actions.
pub data Steps : Server → Server → Type 0 where
  stop : {s : Server} → Steps s s
  then_next : {s t u : Server} → Steps s t → Step t u → Steps s u

-- If every tag set of a monitor and the tags of every window name some of the nine tags and
-- nothing else, this still holds after any number of the actions view, toggleview, viewshift,
-- settags, tag, toggletag, tagshift, setlayout, setfloating, setfullscreen, setmon, closemon,
-- focusclient, arrange, swaptiled, applyrules, unmapnotify and mapnotify, of the requests of
-- dwl-ipc and of ext-workspace, and of key presses and named actions by keybinding and
-- dispatch_action, provided that the tags that setmon is asked for and those of the rules are
-- below 2 ^ 9, that a window which is mapped is not its own parent, and that its parent or the
-- rules give it one of the outputs.
pub Steps-IsTagged : (s t : Server) → Steps s t → IsTagged s → IsTagged t
Steps-IsTagged s t stop h = h
Steps-IsTagged s u (then_next {t = t} before step) h =
    Step-IsTagged step (Steps-IsTagged s t before h)
