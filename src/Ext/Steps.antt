-- ===== src/Ext/Steps.antt =====
-- The calls that the compositor, clients and wlroots make into src/workspace.c, and what holds
-- after any sequence of them.
use monowm.Base.{ℕ, Bool, Option, List}
use monowm.Ext.State.{Manager, Env}
use monowm.Ext.Groups.{group_create, group_destroy, output_entered, output_left, handle_output_bind}
use monowm.Ext.Workspaces.{
  workspace_create, workspace_destroy, set_group, set_name, set_coordinates, set_state,
}
use monowm.Ext.Clients.{
  workspace_handle_activate, workspace_handle_deactivate, workspace_handle_remove,
  workspace_handle_assign, group_handle_create_workspace, workspace_resource_destroy,
  group_resource_destroy, manager_handle_commit, manager_handle_stop, destroy_manager_resource,
  manager_bind, handle_idle, new_manager,
}
use monowm.Ext.Live.{Known, Live, group_ids}
use monowm.Ext.Adding.{
  group_create-Live, workspace_create-Live, output_entered-Live, output_left-Live,
}
use monowm.Ext.Changing.{set_group-Live, set_name-Live, set_coordinates-Live, set_state-Live}
use monowm.Ext.Binding.{manager_bind-Live}
use monowm.Ext.Removing.{
  group_destroy-Live, workspace_destroy-Live, destroy_manager_resource-Live,
  manager_handle_stop-Live, workspace_resource_destroy-Live, group_resource_destroy-Live,
}
use monowm.Ext.Asking.{
  manager_handle_commit-Live, workspace_handle_activate-Live, workspace_handle_deactivate-Live,
  workspace_handle_remove-Live, workspace_handle_assign-Live, group_handle_create_workspace-Live,
}

-- One call. Setting a group takes a pointer to a group that is there.
pub data Step (env : Env) : Manager → Manager → Type 0 where
  bind : {s : Manager} (client : ℕ) → Step env s (manager_bind env client s)
  idle : {s : Manager} → Step env s (handle_idle s)
  group_created : {s : Manager} (caps : ℕ) → Step env s (group_create env caps s)
  group_destroyed : {s : Manager} (g : ℕ) → Step env s (group_destroy g s)
  entered : {s : Manager} (g o : ℕ) → Step env s (output_entered env g o s)
  left : {s : Manager} (g o : ℕ) → Step env s (output_left env g o s)
  output_bound : {s : Manager} (g client o : ℕ) → Step env s (handle_output_bind g client o s)
  created :
      {s : Manager} (text : Option (List ℕ)) (caps : ℕ) → Step env s (workspace_create text caps s)
  destroyed : {s : Manager} (w : ℕ) → Step env s (workspace_destroy w s)
  grouped :
      {s : Manager} (w : ℕ) (g : Option ℕ) → Known (group_ids s) g → Step env s (set_group w g s)
  named : {s : Manager} (w : ℕ) (t : List ℕ) → Step env s (set_name w t s)
  placed : {s : Manager} (w : ℕ) (cs : List ℕ) → Step env s (set_coordinates w cs s)
  marked : {s : Manager} (w bit : ℕ) (b : Bool) → Step env s (set_state w bit b s)
  activated : {s : Manager} (r : ℕ) → Step env s (workspace_handle_activate r s)
  deactivated : {s : Manager} (r : ℕ) → Step env s (workspace_handle_deactivate r s)
  remove_asked : {s : Manager} (r : ℕ) → Step env s (workspace_handle_remove r s)
  assigned : {s : Manager} (r g : ℕ) → Step env s (workspace_handle_assign r g s)
  workspace_asked :
      {s : Manager} (g : ℕ) (t : List ℕ) → Step env s (group_handle_create_workspace g t s)
  workspace_dropped : {s : Manager} (r : ℕ) → Step env s (workspace_resource_destroy r s)
  group_dropped : {s : Manager} (r : ℕ) → Step env s (group_resource_destroy r s)
  committed : {s : Manager} (m : ℕ) → Step env s (manager_handle_commit m s).1
  stopped : {s : Manager} (m : ℕ) → Step env s (manager_handle_stop m s)
  client_gone : {s : Manager} (m : ℕ) → Step env s (destroy_manager_resource m s)

-- Each single call of the compositor, of a client or of wlroots leaves no reference dangling, if
-- none was dangling before; where a call sets the group of a workspace, that group exists or is
-- NULL.
pub Step-Live : {env : Env} {s t : Manager} → Step env s t → Live s → Live t
Step-Live {env} {s} (bind client) h = manager_bind-Live env client s h
Step-Live {env} {s} idle h = unfold handle_idle in h
Step-Live {env} {s} (group_created caps) h = group_create-Live env caps s h
Step-Live {env} {s} (group_destroyed g) h = group_destroy-Live g s h
Step-Live {env} {s} (entered g o) h = output_entered-Live env g o s h
Step-Live {env} {s} (left g o) h = output_left-Live env g o s h
Step-Live {env} {s} (output_bound g client o) h = unfold handle_output_bind in h
Step-Live {env} {s} (created text caps) h = workspace_create-Live text caps s h
Step-Live {env} {s} (destroyed w) h = workspace_destroy-Live w s h
Step-Live {env} {s} (grouped w g k) h = set_group-Live w g s k h
Step-Live {env} {s} (named w t) h = set_name-Live w t s h
Step-Live {env} {s} (placed w cs) h = set_coordinates-Live w cs s h
Step-Live {env} {s} (marked w bit b) h = set_state-Live w bit b s h
Step-Live {env} {s} (activated r) h = workspace_handle_activate-Live r s h
Step-Live {env} {s} (deactivated r) h = workspace_handle_deactivate-Live r s h
Step-Live {env} {s} (remove_asked r) h = workspace_handle_remove-Live r s h
Step-Live {env} {s} (assigned r g) h = workspace_handle_assign-Live r g s h
Step-Live {env} {s} (workspace_asked g t) h = group_handle_create_workspace-Live g t s h
Step-Live {env} {s} (workspace_dropped r) h = workspace_resource_destroy-Live r s h
Step-Live {env} {s} (group_dropped r) h = group_resource_destroy-Live r s h
Step-Live {env} {s} (committed m) h = manager_handle_commit-Live m s h
Step-Live {env} {s} (stopped m) h = manager_handle_stop-Live m s h
Step-Live {env} {s} (client_gone m) h = destroy_manager_resource-Live m s h

-- The states after any number of calls on a new manager.
pub data Reachable (env : Env) : Manager → Type 0 where
  start : Reachable env new_manager
  next : {s t : Manager} → Reachable env s → Step env s t → Reachable env t

-- After any sequence of calls on a new manager, no reference dangles: each resource is of a
-- group or workspace that exists and of a client that is bound, the group of each workspace
-- exists, and each queued request names only groups and workspaces that exist.
pub Reachable-Live : (env : Env) (s : Manager) → Reachable env s → Live s
Reachable-Live env s start = record {
  groups_held = tt;
  workspaces_held = tt;
  entered = tt;
  asked = tt;
}
Reachable-Live env t (next {s} before step) = Step-Live step (Reachable-Live env s before)
