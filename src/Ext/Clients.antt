-- ===== src/Ext/Clients.antt =====
-- What clients do in src/workspace.c: bind, queue requests, commit, and go away.
use monowm.Base.{
  ℕ, suc, false, not, Option, none, some, List, [], ◌∷◌, ◌++◌, map, ◌==◌, if◌then◌else◌, find_by,
  keep,
}
use monowm.Ext.State.{
  Manager, ManagerResource, Group, Workspace, Resource, Env, Request, create_workspace, activate,
  deactivate, assign, remove, done, finished, workspace_enter, send, resources_of, resource,
}
use monowm.Ext.Groups.{announce_group}
use monowm.Ext.Workspaces.{announce_workspace}

unfoldable pub queue : ℕ → Request → Manager → Manager
queue mgr q s = record s {
  resources =
      map (λ m. if m.id == mgr then record m { requests = m.requests ++ q ∷ [] } else m)
        s.resources;
}

-- A handler that does nothing on a resource whose handle is gone.
abbrev pub on_resource : Option Resource → (Resource → Manager) → Manager → Manager
on_resource none f s = s
on_resource (some r) f s = f r

unfoldable pub workspace_handle_activate : ℕ → Manager → Manager
unfolding queue
workspace_handle_activate k s =
    on_resource (resource s.workspace_resources k)
      (λ r. queue r.manager (activate (some r.handle)) s) s

unfoldable pub workspace_handle_deactivate : ℕ → Manager → Manager
unfolding queue
workspace_handle_deactivate k s =
    on_resource (resource s.workspace_resources k)
      (λ r. queue r.manager (deactivate (some r.handle)) s) s

unfoldable pub workspace_handle_remove : ℕ → Manager → Manager
unfolding queue
workspace_handle_remove k s =
    on_resource (resource s.workspace_resources k) (λ r. queue r.manager (remove (some r.handle)) s)
      s

unfoldable pub workspace_handle_assign : ℕ → ℕ → Manager → Manager
unfolding queue
workspace_handle_assign k g s =
    on_resource (resource s.workspace_resources k)
      (λ r.
        on_resource (resource s.group_resources g)
          (λ q. queue r.manager (assign (some q.handle) (some r.handle)) s) s)
      s

unfoldable pub group_handle_create_workspace : ℕ → List ℕ → Manager → Manager
unfolding queue
group_handle_create_workspace g t s =
    on_resource (resource s.group_resources g)
      (λ q. queue q.manager (create_workspace (some q.handle) t) s) s

-- A client destroys its resource of a workspace or of a group.
unfoldable pub workspace_resource_destroy : ℕ → Manager → Manager
workspace_resource_destroy k s = record s {
  workspace_resources = keep (λ r. not (r.id == k)) s.workspace_resources;
}

unfoldable pub group_resource_destroy : ℕ → Manager → Manager
group_resource_destroy k s = record s {
  group_resources = keep (λ r. not (r.id == k)) s.group_resources;
}

abbrev pub no_requests : ManagerResource → ManagerResource
no_requests m = record m { requests = [] }

abbrev pub requests_of : Option ManagerResource → List Request
requests_of none = []
requests_of (some m) = m.requests

-- What a commit hands to the compositor, and the state after it.
unfoldable pub manager_handle_commit : ℕ → Manager → List Request × Manager
manager_handle_commit mgr s = (
  requests_of (find_by (λ m. m.id == mgr) s.resources),
  record s { resources = map (λ m. if m.id == mgr then no_requests m else m) s.resources },
)

unfoldable pub handle_idle : Manager → Manager
handle_idle s = record s {
  sent = s.sent ++ map (λ m. done m.id) s.resources;
  done_scheduled = false;
}

unfoldable pub destroy_manager_resource : ℕ → Manager → Manager
destroy_manager_resource mgr s = record s {
  workspace_resources = keep (λ r. not (r.manager == mgr)) s.workspace_resources;
  group_resources = keep (λ r. not (r.manager == mgr)) s.group_resources;
  resources = keep (λ m. not (m.id == mgr)) s.resources;
}

unfoldable pub manager_handle_stop : ℕ → Manager → Manager
unfolding destroy_manager_resource
manager_handle_stop mgr s = destroy_manager_resource mgr (send (finished mgr ∷ []) s)

unfoldable pub bind_groups : Env → ℕ → List Group → Manager → Manager
unfolding announce_group
bind_groups env mgr [] s = s
bind_groups env mgr (g ∷ gs) s = bind_groups env mgr gs (announce_group env mgr g s)

-- The new resource of a workspace enters the client's resources of its group.
abbrev pub enter_own : ℕ → ℕ → Option ℕ → Manager → Manager
enter_own mgr wr none s = s
enter_own mgr wr (some g) s =
    send
      (map (λ r. workspace_enter r.id wr)
        (keep (λ r. r.manager == mgr) (resources_of s.group_resources g)))
      s

unfoldable pub bind_workspaces : ℕ → List Workspace → Manager → Manager
unfolding announce_workspace
bind_workspaces mgr [] s = s
bind_workspaces mgr (w ∷ ws) s =
    bind_workspaces mgr ws (enter_own mgr s.next w.group (announce_workspace mgr w s))

unfoldable pub manager_bind : Env → ℕ → Manager → Manager
unfolding bind_groups bind_workspaces
manager_bind env client s =
    let mgr = s.next in
    let bound = record s {
      resources = record { id = mgr; client = client; requests = [] } ∷ s.resources;
      next = suc mgr;
    } in
    send (done mgr ∷ []) (bind_workspaces mgr s.workspaces (bind_groups env mgr s.groups bound))

-- wlr_ext_workspace_manager_v1_create.
abbrev pub new_manager : Manager
new_manager = record {
  groups = [];
  workspaces = [];
  resources = [];
  group_resources = [];
  workspace_resources = [];
  done_scheduled = false;
  sent = [];
  next = 0;
}
