-- ===== src/Glue/Desk.antt =====
-- The workspaces that include/mono/ext.h keeps for the tags of each output, the outputs that are
-- bound over dwl-ipc (include/mono/ipc.h), and status_emit of src/main.c, which tells all of them.
use monowm.Base.{
  ℕ, zero, suc, ◌+◌, ◌-◌, ◌^◌, Bool, false, not, ◌&&◌, Option, none, some, List, [], ◌∷◌, ◌++◌,
  ◌==◌, map, keep, if◌then◌else◌, any_of, shares, leb, bit_and,
}
use monowm.Wm.State.{Server, Monitor, tagset, tagcount, tag_mask, find_mon}
use monowm.Ext.State.{Manager, Env, Workspace}
use monowm.Ext.Groups.{group_create, group_destroy, output_entered, output_left}
use monowm.Ext.Workspaces.{
  workspace_create, workspace_destroy, set_group, set_name, set_state, find_workspace, has_text,
}
use monowm.Status.Collect.{MonitorStatus, status_collect}
use monowm.Status.Send.{Texts, IpcEvent, Line, ipc_send_output_state, status_lines}

-- struct ext_workspace. `m` is an output.
pub record ExtWorkspace : Type 0 where
  pub tag : ℕ
  pub m : ℕ
  pub handle : ℕ

-- A resource of an output, with the version it was bound with; `mon` is NULL once that is freed.
pub record IpcOutput : Type 0 where
  pub resource : ℕ
  pub version : ℕ
  pub mon : Option ℕ

-- `status` and `ext_group` are the fields of each Monitor.
pub record Desk : Type 0 where
  pub server : Server
  pub status : ℕ → MonitorStatus
  pub ext_group : ℕ → Option ℕ
  pub manager : Manager
  pub ext_workspaces : List ExtWorkspace
  pub ipc_outputs : List IpcOutput
  pub ipc_sent : List (ℕ × List IpcEvent)
  pub lines : List Line

abbrev pub put {ℓ} : {A : Type ℓ} → (ℕ → A) → ℕ → A → ℕ → A
put f k v i = if i == k then v else f i

-- EXT_WORKSPACE_CAPS.
abbrev pub ext_workspace_caps : ℕ
ext_workspace_caps = 3

abbrev pub state_active : ℕ
state_active = 2 ^ 0

abbrev pub state_urgent : ℕ
state_urgent = 2 ^ 1

abbrev pub state_hidden : ℕ
state_hidden = 2 ^ 2

-- 1 << (tag - 1).
abbrev pub tag_bit : ℕ → ℕ
tag_bit tag = 2 ^ (tag - 1)

unfoldable pub get_tag_status : ℕ → MonitorStatus → ℕ
get_tag_status tag st =
    if shares st.urgent (tag_bit tag) then 2 else if shares st.occupied (tag_bit tag) then 1 else 0

unfoldable pub tag_name : ℕ → List ℕ
tag_name tag = if leb 1 tag && leb tag 9 then (b'0' + tag) ∷ [] else b'?' ∷ []

-- The text "%s:%u"; TAGCOUNT is 9, so a tag has one digit.
abbrev pub id_text : List ℕ → ℕ → List ℕ
id_text name tag = name ++ b':' ∷ (b'0' + tag) ∷ []

-- Whether the handle of some workspace has this id already.
abbrev pub has_id : Option Workspace → List ℕ → Bool
has_id none t = false
has_id (some v) t = has_text v.text_id t

unfoldable pub is_unique : Manager → List ExtWorkspace → List ℕ → Bool
is_unique mgr ws t = not (any_of (λ w. has_id (find_workspace mgr w.handle) t) ws)

-- The group of an output that comes.
unfoldable pub with_group : Env → ℕ → Desk → Desk
unfolding group_create output_entered
with_group env m d =
    let g = d.manager.next in
    record d {
      manager = output_entered env g m (group_create env 0 d.manager);
      ext_group = put d.ext_group m (some g);
    }

module _ (T : Texts) where
  unfoldable pub ext_workspace_create : ℕ → ℕ → Desk → Desk
  unfolding is_unique tag_name workspace_create set_group set_name
  ext_workspace_create tag m d =
      let t = id_text (T.output_name m) tag in
      let h = d.manager.next in
      record d {
        manager = set_name h (tag_name tag) (
            set_group h (d.ext_group m) (
              workspace_create (if is_unique d.manager d.ext_workspaces t then some t else none)
                ext_workspace_caps d.manager));
        ext_workspaces = d.ext_workspaces ++ record { tag = tag; m = m; handle = h } ∷ [];
      }

  -- The loop over the tags, by the rounds that are left.
  unfoldable pub create_tags : ℕ → ℕ → ℕ → Desk → Desk
  unfolding ext_workspace_create
  create_tags zero i m d = d
  create_tags (suc n) i m d = create_tags n (suc i) m (ext_workspace_create i m d)

  unfoldable pub ext_workspace_createmon : Env → ℕ → Desk → Desk
  unfolding create_tags with_group
  ext_workspace_createmon env m d = create_tags tagcount 1 m (with_group env m d)

-- The loop of ext_workspace_cleanupmon.
unfoldable pub destroy_all : List ExtWorkspace → Manager → Manager
unfolding workspace_destroy
destroy_all [] mgr = mgr
destroy_all (w ∷ ws) mgr = destroy_all ws (workspace_destroy w.handle mgr)

abbrev pub drop_group : Env → Option ℕ → ℕ → Manager → Manager
drop_group env none m mgr = mgr
drop_group env (some g) m mgr = group_destroy g (output_left env g m mgr)

unfoldable pub ext_workspace_cleanupmon : Env → ℕ → Desk → Desk
unfolding destroy_all group_destroy output_left
ext_workspace_cleanupmon env m d = record d {
  manager =
      drop_group env (d.ext_group m) m
        (destroy_all (keep (λ w. w.m == m) d.ext_workspaces) d.manager);
  ext_workspaces = keep (λ w. not (w.m == m)) d.ext_workspaces;
  ext_group = put d.ext_group m none;
}

-- What a workspace is told of its tag.
unfoldable pub tell_workspace : Monitor → MonitorStatus → ExtWorkspace → Manager → Manager
unfolding get_tag_status set_state
tell_workspace m st w mgr =
    set_state w.handle state_active (shares (bit_and (tagset m) (tag_bit w.tag)) tag_mask) (
      set_state w.handle state_hidden false
        (set_state w.handle state_urgent (get_tag_status w.tag st == 2) mgr))

unfoldable pub ext_workspace_printstatus :
    Monitor → MonitorStatus → List ExtWorkspace → Manager → Manager
unfolding tell_workspace
ext_workspace_printstatus m st [] mgr = mgr
ext_workspace_printstatus m st (w ∷ ws) mgr =
    ext_workspace_printstatus m st ws (if w.m == m.id then tell_workspace m st w mgr else mgr)

-- The outputs of dwl-ipc.
abbrev pub send_state :
    Texts → Server → (ℕ → MonitorStatus) → IpcOutput → Option Monitor → List (ℕ × List IpcEvent)
send_state T s status o none = []
send_state T s status o (some m) =
    (o.resource, ipc_send_output_state T o.version s (status m.id) m) ∷ []

abbrev pub mon_at : Server → Option ℕ → Option Monitor
mon_at s none = none
mon_at s (some k) = find_mon s k

unfoldable pub ipc_printstatus : Texts → List IpcOutput → Desk → Desk
unfolding ipc_send_output_state
ipc_printstatus T [] d = d
ipc_printstatus T (o ∷ os) d =
    ipc_printstatus T os (record d {
      ipc_sent = d.ipc_sent ++ send_state T d.server d.status o (mon_at d.server o.mon);
    })

unfoldable pub ipc_cleanupmon : ℕ → Desk → Desk
ipc_cleanupmon k d = record d {
  ipc_outputs =
      map
        (λ o. if elim o.mon [ none ↦ false | some j ↦ j == k ] then record o { mon = none } else o)
        d.ipc_outputs;
}

-- A client binds an output.
abbrev pub first_state : Texts → IpcOutput → Option Monitor → Desk → Desk
first_state T o none d = d
first_state T o (some m) d =
    let status = put d.status m.id (status_collect d.server m) in
    record d { status = status; ipc_sent = d.ipc_sent ++ send_state T d.server status o (some m) }

unfoldable pub ipc_manager_handle_get_output : Texts → ℕ → ℕ → Option ℕ → Desk → Desk
unfolding ipc_send_output_state status_collect
ipc_manager_handle_get_output T resource version m d =
    let o : IpcOutput = record { resource = resource; version = version; mon = m } in
    first_state T o (mon_at d.server m) (record d { ipc_outputs = o ∷ d.ipc_outputs })

unfoldable pub ipc_output_destroy : ℕ → Desk → Desk
ipc_output_destroy r d = record d { ipc_outputs = keep (λ o. not (o.resource == r)) d.ipc_outputs }

-- One round of status_emit.
unfoldable pub emit_mon : Texts → Monitor → Desk → Desk
unfolding status_collect status_lines ext_workspace_printstatus
emit_mon T m d =
    let st = status_collect d.server m in
    record d {
      status = put d.status m.id st;
      lines = d.lines ++ status_lines T d.server st m;
      manager = ext_workspace_printstatus m st d.ext_workspaces d.manager;
    }

unfoldable pub emit_mons : Texts → List Monitor → Desk → Desk
unfolding emit_mon
emit_mons T [] d = d
emit_mons T (m ∷ ms) d = emit_mons T ms (emit_mon T m d)

unfoldable pub status_emit : Texts → Desk → Desk
unfolding emit_mons ipc_printstatus
status_emit T d = let told = emit_mons T d.server.mons d in ipc_printstatus T told.ipc_outputs told
