-- ===== src/Ext/Groups.antt =====
-- Groups of workspaces in src/workspace.c: creation, outputs and destruction.
use monowm.Base.{
  ℕ, suc, Bool, false, not, Option, none, some, List, [], ◌∷◌, ◌++◌, map, ◌==◌, if◌then◌else◌,
  find_by, keep, elem, erase,
}
use monowm.Ext.State.{
  Manager, ManagerResource, Group, Workspace, Resource, Env, Event, workspace_group, capabilities,
  output_enter, output_leave, removed, send, manager_schedule_done, resources_of, is_ref, flat_map,
  client_of, workspace_send_group, clear_requests_by,
}

unfoldable pub create_group_resource : ℕ → ℕ → Manager → Manager
create_group_resource g mgr s = record s {
  group_resources = record { id = s.next; handle = g; manager = mgr } ∷ s.group_resources;
  next = suc s.next;
}

-- Sends of output_enter or output_leave to one client's resource of a group.
unfoldable pub output_events : Env → (ℕ → ℕ → Event) → Manager → ℕ → Resource → List Event
output_events env event s output r =
    map (λ o. event r.id o.0)
      (keep (λ o. is_ref (client_of s r.manager) o.1) (env.output_resources output))

unfoldable pub group_send_output : Env → (ℕ → ℕ → Event) → ℕ → ℕ → Manager → Manager
unfolding output_events manager_schedule_done
group_send_output env event g output s =
    manager_schedule_done
      (send (flat_map (output_events env event s output) (resources_of s.group_resources g)) s)

unfoldable pub group_send_details : Env → Group → Resource → Manager → Manager
unfolding output_events manager_schedule_done
group_send_details env g r s = manager_schedule_done (
    send (capabilities r.id g.caps ∷ flat_map (λ o. output_events env output_enter s o r) g.outputs)
      s)

-- A new resource for a client, announced with its details.
unfoldable pub announce_group : Env → ℕ → Group → Manager → Manager
unfolding create_group_resource group_send_details
announce_group env mgr g s =
    group_send_details env g (record { id = s.next; handle = g.id; manager = mgr })
      (send (workspace_group mgr s.next ∷ []) (create_group_resource g.id mgr s))

unfoldable pub announce_group_all : Env → Group → List ManagerResource → Manager → Manager
unfolding announce_group
announce_group_all env g [] s = s
announce_group_all env g (m ∷ ms) s = announce_group_all env g ms (announce_group env m.id g s)

unfoldable pub group_create : Env → ℕ → Manager → Manager
unfolding announce_group_all manager_schedule_done
group_create env caps s =
    let g : Group = record { id = s.next; caps = caps; outputs = [] } in
    manager_schedule_done (
      announce_group_all env g s.resources
        (record s { groups = s.groups ++ g ∷ []; next = suc s.next }))

abbrev pub update_group : ℕ → (Group → Group) → Manager → Manager
update_group g f s = record s { groups = map (λ h. if h.id == g then f h else h) s.groups }

abbrev pub find_group : Manager → ℕ → Option Group
find_group s g = find_by (λ h. h.id == g) s.groups

abbrev pub group_has : Option Group → ℕ → Bool
group_has none output = false
group_has (some h) output = elem output h.outputs

-- get_group_output as a test.
unfoldable pub has_output : Manager → ℕ → ℕ → Bool
has_output s g output = group_has (find_group s g) output

unfoldable pub output_entered : Env → ℕ → ℕ → Manager → Manager
unfolding has_output group_send_output
output_entered env g output s =
    if has_output s g output
    then s
    else group_send_output env output_enter g output
        (update_group g (λ h. record h { outputs = output ∷ h.outputs }) s)

unfoldable pub output_left : Env → ℕ → ℕ → Manager → Manager
unfolding has_output group_send_output
output_left env g output s =
    if has_output s g output
    then update_group g (λ h. record h { outputs = erase output h.outputs })
        (group_send_output env output_leave g output s)
    else s

-- handle_output_bind: a client bound an output that the group is on.
unfoldable pub handle_output_bind : ℕ → ℕ → ℕ → Manager → Manager
unfolding manager_schedule_done
handle_output_bind g client bound s = manager_schedule_done (
    send
      (map (λ r. output_enter r.id bound)
        (keep (λ r. is_ref (client_of s r.manager) client) (resources_of s.group_resources g)))
      s)

-- wlr_ext_workspace_group_handle_v1_destroy, loop by loop. Its last loop sends nothing, since no
-- resource of the group is left by then.
abbrev pub leave_group : ℕ → Workspace → Workspace
leave_group g w = if is_ref w.group g then record w { group = none } else w

unfoldable pub group_destroy : ℕ → Manager → Manager
unfolding workspace_send_group clear_requests_by manager_schedule_done
group_destroy g s =
    let left =
      send
        (flat_map (λ w. workspace_send_group w.id g false s)
          (keep (λ w. is_ref w.group g) s.workspaces))
        (record s { workspaces = map (leave_group g) s.workspaces }) in
    let gone =
      send (map (λ r. removed r.id) (resources_of s.group_resources g))
        (record left { group_resources = keep (λ r. not (r.handle == g)) s.group_resources }) in
    manager_schedule_done (record gone {
      resources = map (clear_requests_by (some g) none) s.resources;
      groups = keep (λ h. not (h.id == g)) s.groups;
    })
