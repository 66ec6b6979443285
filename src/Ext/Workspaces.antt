-- ===== src/Ext/Workspaces.antt =====
-- Workspace handles in src/workspace.c: creation, what is told of them, and destruction.
use Prim.Native.Nat.{bit_or}
use monowm.Base.{
  ℕ, suc, ◌-◌, Bool, true, false, not, ◌&&◌, Option, none, some, List, [], ◌∷◌, ◌++◌, map, ◌==◌,
  if◌then◌else◌, find_by, keep, bit_and,
}
use monowm.Ext.State.{
  Manager, ManagerResource, Workspace, Event, workspace, capabilities, coordinates, name, text_id,
  state, removed, send, manager_schedule_done, resources_of, workspace_send_group,
  clear_requests_by,
}

unfoldable pub create_workspace_resource : ℕ → ℕ → Manager → Manager
create_workspace_resource w mgr s = record s {
  workspace_resources = record { id = s.next; handle = w; manager = mgr } ∷ s.workspace_resources;
  next = suc s.next;
}

abbrev pub some_text : (List ℕ → Event) → Option (List ℕ) → List Event
some_text event none = []
some_text event (some t) = event t ∷ []

abbrev pub is_nil : List ℕ → Bool
is_nil [] = true
is_nil (x ∷ xs) = false

unfoldable pub workspace_send_details : Workspace → ℕ → Manager → Manager
unfolding manager_schedule_done
workspace_send_details w r s = manager_schedule_done (
    send
      (capabilities r w.caps
          ∷ (if is_nil w.coordinates then [] else coordinates r w.coordinates ∷ [])
        ++ some_text (name r) w.name
        ++ some_text (text_id r) w.text_id
        ++ state r w.state ∷ [])
      s)

unfoldable pub announce_workspace : ℕ → Workspace → Manager → Manager
unfolding create_workspace_resource workspace_send_details
announce_workspace mgr w s =
    workspace_send_details w s.next
      (send (workspace mgr s.next ∷ []) (create_workspace_resource w.id mgr s))

unfoldable pub announce_workspace_all : Workspace → List ManagerResource → Manager → Manager
unfolding announce_workspace
announce_workspace_all w [] s = s
announce_workspace_all w (m ∷ ms) s = announce_workspace_all w ms (announce_workspace m.id w s)

unfoldable pub workspace_create : Option (List ℕ) → ℕ → Manager → Manager
unfolding announce_workspace_all manager_schedule_done
workspace_create text caps s =
    let w : Workspace = record {
      id = s.next;
      group = none;
      name = none;
      text_id = text;
      coordinates = [];
      caps = caps;
      state = 0;
    } in
    manager_schedule_done (
      announce_workspace_all w s.resources
        (record s { workspaces = s.workspaces ++ w ∷ []; next = suc s.next }))

abbrev pub find_workspace : Manager → ℕ → Option Workspace
find_workspace s w = find_by (λ v. v.id == w) s.workspaces

abbrev pub update_workspace : ℕ → (Workspace → Workspace) → Manager → Manager
update_workspace w f s = record s {
  workspaces = map (λ v. if v.id == w then f v else v) s.workspaces;
}

abbrev pub in_group : ℕ → Option ℕ → Bool → Manager → List Event
in_group w none enter s = []
in_group w (some g) enter s = workspace_send_group w g enter s

unfoldable pub workspace_destroy : ℕ → Manager → Manager
unfolding workspace_send_group clear_requests_by manager_schedule_done
workspace_destroy w s =
    let left : List Event = elim (find_workspace s w) [
      | none ↦ []
      | some v ↦ in_group w v.group false s
    ] in
    manager_schedule_done
      (record (send (left ++ map (λ r. removed r.id) (resources_of s.workspace_resources w)) s) {
        workspace_resources = keep (λ r. not (r.handle == w)) s.workspace_resources;
        resources = map (clear_requests_by none (some w)) s.resources;
        workspaces = keep (λ v. not (v.id == w)) s.workspaces;
      })

abbrev pub same_group : Option ℕ → Option ℕ → Bool
same_group none none = true
same_group (some a) (some b) = a == b
same_group _ _ = false

-- workspace_send_group schedules `done` itself, where it is called at all.
abbrev pub send_group : ℕ → Option ℕ → Bool → Manager → Manager
send_group w none enter s = s
send_group w (some g) enter s = record s {
  sent = s.sent ++ workspace_send_group w g enter s;
  done_scheduled = true;
}

unfoldable pub set_group_of : Workspace → Option ℕ → Manager → Manager
unfolding workspace_send_group
set_group_of v g s =
    if same_group v.group g
    then s
    else send_group v.id g true
        (update_workspace v.id (λ u. record u { group = g }) (send_group v.id v.group false s))

unfoldable pub set_group : ℕ → Option ℕ → Manager → Manager
unfolding set_group_of
set_group w g s = elim (find_workspace s w) [ none ↦ s | some v ↦ set_group_of v g s ]

-- A change of a workspace that all its resources are told of.
abbrev pub tell : ℕ → (Workspace → Workspace) → (ℕ → Event) → Manager → Manager
tell w f event s = record (update_workspace w f s) {
  sent = s.sent ++ map (λ r. event r.id) (resources_of s.workspace_resources w);
  done_scheduled = true;
}

abbrev pub same_text : List ℕ → List ℕ → Bool
same_text [] [] = true
same_text (x ∷ xs) (y ∷ ys) = let rest = same_text xs ys in x == y && rest
same_text _ _ = false

abbrev pub has_text : Option (List ℕ) → List ℕ → Bool
has_text none t = false
has_text (some u) t = same_text u t

unfoldable pub set_name : ℕ → List ℕ → Manager → Manager
set_name w t s = elim (find_workspace s w) [
  | none ↦ s
  | some v ↦
      if has_text v.name t then s else tell w (λ u. record u { name = some t }) (λ r. name r t) s
]

unfoldable pub set_coordinates : ℕ → List ℕ → Manager → Manager
set_coordinates w cs s = elim (find_workspace s w) [
  | none ↦ s
  | some v ↦
      if same_text cs v.coordinates
      then s
      else tell w (λ u. record u { coordinates = cs }) (λ r. coordinates r cs) s
]

-- `state & ~bit` on a mask of any width.
unfoldable pub with_bit : ℕ → ℕ → Bool → ℕ
with_bit old bit enabled = if enabled then bit_or old bit else old - bit_and old bit

unfoldable pub set_state : ℕ → ℕ → Bool → Manager → Manager
unfolding with_bit
set_state w bit enabled s = elim (find_workspace s w) [
  | none ↦ s
  | some v ↦
      let new = with_bit v.state bit enabled in
      if v.state == new then s else tell w (λ u. record u { state = new }) (λ r. state r new) s
]
