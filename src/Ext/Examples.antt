-- ===== src/Ext/Examples.antt =====
-- The theorems on src/workspace.c at a manager with one group, one workspace and one client.
use monowm.Base.{◌≡◌, refl, false, none, some, [], ◌∷◌, ◌++◌}
use monowm.Ext.State.{Manager, ManagerResource, Group, Workspace, Env, activate, remove}
use monowm.Ext.Groups.{group_create}
use monowm.Ext.Workspaces.{workspace_create}
use monowm.Ext.Clients.{queue, manager_handle_commit, manager_bind, new_manager}
use monowm.Ext.Live.{Live}
use monowm.Ext.Steps.{group_created, created, bind, start, next, Reachable-Live}
use monowm.Ext.Teardown.{
  IsEmpty, manager_handle_display_destroy, manager_handle_display_destroy-IsEmpty,
}
use monowm.Ext.Delivery.{commit-queue}

-- Each output has one resource, held by client 5.
abbrev env : Env
env = record { output_resources = λ o. (o, 5) ∷ [] }

abbrev client : ManagerResource
client = record { id = 3; client = 5; requests = activate (some 2) ∷ [] }

abbrev group : Group
group = record { id = 1; caps = 1; outputs = [] }

abbrev space : Workspace
space = record {
  id = 2;
  group = some 1;
  name = none;
  text_id = none;
  coordinates = [];
  caps = 1;
  state = 2;
}

abbrev store : Manager
store = record {
  groups = group ∷ [];
  workspaces = space ∷ [];
  resources = client ∷ [];
  group_resources = record { id = 4; handle = 1; manager = 3 } ∷ [];
  workspace_resources = record { id = 5; handle = 2; manager = 3 } ∷ [];
  done_scheduled = false;
  sent = [];
  next = 6;
}

store-Live : Live store
store-Live = record {
  groups_held = ((refl, refl), tt);
  workspaces_held = ((refl, refl), tt);
  entered = (refl, tt);
  asked = ((refl, tt), tt);
}

Reachable-Live_example :
    Live (manager_bind env 5 (workspace_create none 1 (group_create env 1 new_manager)))
Reachable-Live_example =
    Reachable-Live env
      (manager_bind env 5 (workspace_create none 1 (group_create env 1 new_manager)))
      (next (next (next start (group_created 1)) (created none 1)) (bind 5))

commit-queue_example :
    (manager_handle_commit 3 (queue 3 (remove (some 2)) store)).0
    ≡ (manager_handle_commit 3 store).0 ++ remove (some 2) ∷ []
commit-queue_example = commit-queue 3 (remove (some 2)) store client refl

manager_handle_display_destroy-IsEmpty_example : IsEmpty (manager_handle_display_destroy store)
manager_handle_display_destroy-IsEmpty_example =
    manager_handle_display_destroy-IsEmpty store store-Live
