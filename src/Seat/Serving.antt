-- ===== src/Seat/Serving.antt =====
-- What the requests of include/mono/ipc.h and include/mono/ext.h, and windows of src/main.c, do while the
-- session is locked.
use monowm.Base.{
  ℕ, inl, inr, Bool, Option, none, some, List, [], ◌∷◌, ◌==◌, if◌then◌else◌, ◌||◌, bit_and, bit_xor,
  Option-cases,
}
use monowm.Config.Types.{CfgRule}
use monowm.Ext.State.{Request, create_workspace, activate, deactivate, assign, remove}
use monowm.Glue.Desk.{ExtWorkspace, tag_bit}
use monowm.Glue.Commit.{
  handle_ext_commit, handle_request, activate_at, deactivate_at, select, find_handle, is_shown,
}
use monowm.Wm.State.{
  set_tagset, Layout, Client, Monitor, Server, Surface, find_mon, focustop, selected, update_client,
  update_mon, tagset, tag_mask,
}
use monowm.Wm.Arrange.{arrange}
use monowm.Wm.Tags.{
  refocus, view, toggleview, viewed, settags, settags_of, settags_on, retag, client_at, layout_at,
  put_layout, dwindle_remove_client,
}
use monowm.Wm.Focus.{focusclient}
use monowm.Wm.Closing.{closemon}
use monowm.Wm.Windows.{mon_of, setmon, setfullscreen}
use monowm.Wm.Ipc.{ipc_set_tags, ipc_set_client_tags, ipc_set_layout, use_layout, taken}
use monowm.Wm.Mapping.{Mapped, mapnotify}
use monowm.Wm.Unmapping.{unmapnotify}
use monowm.Seat.Resting.{
  closemon-Rests, Rests, focusclient-Rests, arrange-Rests, with_sel-Rests, on_mon-Rests, if-Rests,
  setfullscreen-Rests, setmon-Rests,
}
use monowm.Seat.Windows.{mapnotify-Rests, unmapnotify-Rests}

-- One thing that a client of a protocol, or a window, has the compositor do.
pub data Served : Server → Server → Type 0 where
  focusing : {s : Server} (k : Option ℕ) → Served s (focusclient s k)
  arranging : {s : Server} (k : ℕ) → Served s (arrange s k)
  moving : {s : Server} (k : ℕ) (m : Option ℕ) (newtags : ℕ) → Served s (setmon s k m newtags)
  filling : {s : Server} (k : ℕ) (v : Bool) → Served s (setfullscreen s k v)
  closing : {s : Server} (k : ℕ) → Served s (closemon s k)
  mapping :
      {s : Server} (rules : List CfgRule) (e : Mapped) (c : Client)
      → Served s (mapnotify rules e s c)
  unmapping : {s : Server} (k : ℕ) → Served s (unmapnotify s k)
  setting_tags : {s : Server} (k : Option ℕ) (t : ℕ) (v : Bool) → Served s (ipc_set_tags s k t v)
  setting_client_tags :
      {s : Server} (k : Option ℕ) (a x : ℕ) → Served s (ipc_set_client_tags s k a x)
  setting_layout : {s : Server} (k : Option ℕ) (i : ℕ) → Served s (ipc_set_layout s k i)
  committing :
      {s : Server} (ws : List ExtWorkspace) (rs : List Request)
      → Served s (handle_ext_commit ws rs s)

module _ (b : Bool) (f : Surface) where
  refocus-Rests : (s : Server) (k : ℕ) → Rests b f s → Rests b f (refocus s k)
  unfolding refocus
  refocus-Rests s k h =
      arrange-Rests b f _ k (focusclient-Rests b f s (focustop s (find_mon s k)) h)

  view-Rests : (s : Server) (ui : ℕ) → Rests b f s → Rests b f (view s ui)
  unfolding view
  view-Rests s ui h =
      let seen : Monitor → Server =
        (λ m. refocus (update_mon m.id (viewed (bit_and ui tag_mask)) s) m.id) in
      on_mon-Rests b f s (selected s) (λ m. if bit_and ui tag_mask == tagset m then s else seen m) h
        (λ m.
          if-Rests b f (bit_and ui tag_mask == tagset m) s (seen m) h
            (refocus-Rests (update_mon m.id (viewed (bit_and ui tag_mask)) s) m.id h))

  toggleview-Rests : (s : Server) (ui : ℕ) → Rests b f s → Rests b f (toggleview s ui)
  unfolding toggleview
  toggleview-Rests s ui h =
      let next : Monitor → ℕ = (λ m. bit_xor (tagset m) (bit_and ui tag_mask)) in
      let seen : Monitor → Server = (λ m. refocus (update_mon m.id (set_tagset (next m)) s) m.id) in
      on_mon-Rests b f s (selected s) (λ m. if next m == 0 then s else seen m) h
        (λ m.
          if-Rests b f (next m == 0) s (seen m) h
            (refocus-Rests (update_mon m.id (set_tagset (next m)) s) m.id h))

  ipc_set_tags-Rests :
      (s : Server) (k : Option ℕ) (t : ℕ) (v : Bool)
      → Rests b f s
      → Rests b f (ipc_set_tags s k t v)
  unfolding ipc_set_tags
  ipc_set_tags-Rests s k t v h =
      let u = bit_and t tag_mask in
      let seen : Monitor → Server = (λ m. refocus (update_mon m.id (taken u v) s) m.id) in
      on_mon-Rests b f s (mon_of s k) (λ m. if u == 0 then s else seen m) h
        (λ m.
          if-Rests b f (u == 0) s (seen m) h (refocus-Rests (update_mon m.id (taken u v) s) m.id h))

  settags_of-Rests :
      (s : Server) (o : Option Client) (t : ℕ) → Rests b f s → Rests b f (settags_of s o t)
  unfolding settags_on dwindle_remove_client
  settags_of-Rests s none t h = h
  settags_of-Rests s (some c) t h = elim (Option-cases c.mon) [
    | inl e ↦ rw e h
    | inr (k, e) ↦ rw e (
        if-Rests b f (t == 0 || c.tags == t) s (settags_on s c k t) h
          (refocus-Rests (update_client c.id (retag t) (dwindle_remove_client s c.id)) k h))
  ]

  ipc_set_client_tags-Rests :
      (s : Server) (k : Option ℕ) (a x : ℕ) → Rests b f s → Rests b f (ipc_set_client_tags s k a x)
  unfolding ipc_set_client_tags settags
  ipc_set_client_tags-Rests s k a x h = on_mon-Rests b f s (mon_of s k) _ h λ m.
      with_sel-Rests b f s (client_at s (focustop s (some m))) _ h
        (λ c. settags_of-Rests s (client_at s (some c.id)) _ h)

  use_layout-Rests :
      (o : Option Layout) (m : Monitor) (s : Server) → Rests b f s → Rests b f (use_layout o m s)
  use_layout-Rests none m s h = h
  use_layout-Rests (some l) m s h = arrange-Rests b f (update_mon m.id (put_layout l) s) m.id h

  ipc_set_layout-Rests :
      (s : Server) (k : Option ℕ) (i : ℕ) → Rests b f s → Rests b f (ipc_set_layout s k i)
  unfolding ipc_set_layout
  ipc_set_layout-Rests s k i h =
      on_mon-Rests b f s (mon_of s k) _ h (λ m. use_layout-Rests (layout_at (some i)) m s h)

  activate_at-Rests :
      (o : Option ExtWorkspace) (s : Server) → Rests b f s → Rests b f (activate_at o s)
  unfolding activate_at
  activate_at-Rests none s h = h
  activate_at-Rests (some w) s h = view-Rests (select w.m s) (tag_bit w.tag) h

  deactivate_at-Rests :
      (o : Option ExtWorkspace) (s : Server) → Rests b f s → Rests b f (deactivate_at o s)
  unfolding deactivate_at
  deactivate_at-Rests none s h = h
  deactivate_at-Rests (some w) s h =
      if-Rests b f (is_shown (find_mon s w.m) w.tag) _ s
        (toggleview-Rests (select w.m s) (tag_bit w.tag) h) h

  handle_request-Rests :
      (ws : List ExtWorkspace) (r : Request) (s : Server)
      → Rests b f s
      → Rests b f (handle_request ws r s)
  unfolding handle_request
  handle_request-Rests ws (activate k) s h = activate_at-Rests (find_handle ws k) s h
  handle_request-Rests ws (deactivate k) s h = deactivate_at-Rests (find_handle ws k) s h
  handle_request-Rests ws (create_workspace g t) s h = h
  handle_request-Rests ws (assign g k) s h = h
  handle_request-Rests ws (remove k) s h = h

  handle_ext_commit-Rests :
      (ws : List ExtWorkspace) (rs : List Request) (s : Server)
      → Rests b f s
      → Rests b f (handle_ext_commit ws rs s)
  unfolding handle_ext_commit
  handle_ext_commit-Rests ws [] s h = h
  handle_ext_commit-Rests ws (r ∷ rs) s h =
      handle_ext_commit-Rests ws rs (handle_request ws r s) (handle_request-Rests ws r s h)

  pub Served-Rests : (s t : Server) → Served s t → Rests b f s → Rests b f t
  Served-Rests s t (focusing k) h = focusclient-Rests b f s k h
  Served-Rests s t (arranging k) h = arrange-Rests b f s k h
  Served-Rests s t (moving k m newtags) h = setmon-Rests b f s k m newtags h
  Served-Rests s t (filling k v) h = setfullscreen-Rests b f s k v h
  Served-Rests s t (closing k) h = closemon-Rests b f s k h
  Served-Rests s t (mapping rules e c) h = mapnotify-Rests b f rules e s c h
  Served-Rests s t (unmapping k) h = unmapnotify-Rests b f s k h
  Served-Rests s t (setting_tags k u v) h = ipc_set_tags-Rests s k u v h
  Served-Rests s t (setting_client_tags k a x) h = ipc_set_client_tags-Rests s k a x h
  Served-Rests s t (setting_layout k i) h = ipc_set_layout-Rests s k i h
  Served-Rests s t (committing ws rs) h = handle_ext_commit-Rests ws rs s h
