-- ===== src/Ext/State.antt =====
-- The store of src/workspace.c and include/mono/workspace.h. Handles and resources are ids.
-- workspace->resources and manager_res->workspace_resources are parts of one list, newest first,
-- as every insertion is at the head of both; the same holds for groups. A resource whose user data
-- is NULL is not in the list. Allocation does not fail. Texts are lists of bytes.
use monowm.Base.{
  ℕ, Bool, true, false, Option, none, some, List, [], ◌∷◌, ◌++◌, map, ◌==◌, if◌then◌else◌, find_by,
  keep,
}

-- struct wlr_ext_workspace_v1_request: `none` for a reference that is NULL.
pub data Request : Type 0 where
  create_workspace : Option ℕ → List ℕ → Request
  activate deactivate remove : Option ℕ → Request
  assign : Option ℕ → Option ℕ → Request

-- A resource of a group or of a workspace.
pub record Resource : Type 0 where
  pub id : ℕ
  pub handle : ℕ
  pub manager : ℕ

pub record ManagerResource : Type 0 where
  pub id : ℕ
  pub client : ℕ
  pub requests : List Request

pub record Group : Type 0 where
  pub id : ℕ
  pub caps : ℕ
  pub outputs : List ℕ

pub record Workspace : Type 0 where
  pub id : ℕ
  pub group : Option ℕ
  pub name : Option (List ℕ)
  pub text_id : Option (List ℕ)
  pub coordinates : List ℕ
  pub caps : ℕ
  pub state : ℕ

-- What is sent to a client; the first argument is the resource it is sent on.
pub data Event : Type 0 where
  workspace_group workspace : ℕ → ℕ → Event
  capabilities state : ℕ → ℕ → Event
  output_enter output_leave : ℕ → ℕ → Event
  workspace_enter workspace_leave : ℕ → ℕ → Event
  coordinates name text_id : ℕ → List ℕ → Event
  removed done finished : ℕ → Event

-- `done_scheduled` is idle_source being set; `next` names the next new object.
pub record Manager : Type 0 where
  pub groups : List Group
  pub workspaces : List Workspace
  pub resources : List ManagerResource
  pub group_resources : List Resource
  pub workspace_resources : List Resource
  pub done_scheduled : Bool
  pub sent : List Event
  pub next : ℕ

-- The lists of wlroots: the resources that clients hold of an output, each with its client.
pub record Env : Type 0 where
  pub output_resources : ℕ → List (ℕ × ℕ)

abbrev pub send : List Event → Manager → Manager
send es s = record s { sent = s.sent ++ es }

unfoldable pub manager_schedule_done : Manager → Manager
manager_schedule_done s = record s { done_scheduled = true }

abbrev pub resources_of : List Resource → ℕ → List Resource
resources_of rs h = keep (λ r. r.handle == h) rs

abbrev pub resource : List Resource → ℕ → Option Resource
resource rs k = find_by (λ r. r.id == k) rs

abbrev pub is_ref : Option ℕ → ℕ → Bool
is_ref none k = false
is_ref (some j) k = j == k

abbrev pub flat_map {ℓ κ} : {A : Type ℓ} {B : Type κ} → (A → List B) → List A → List B
flat_map f [] = []
flat_map f (x ∷ xs) = f x ++ flat_map f xs

abbrev pub client_of : Manager → ℕ → Option ℕ
client_of s m = elim (find_by (λ r. r.id == m) s.resources) [ none ↦ none | some r ↦ some r.client ]

-- The loop of workspace_send_group.
abbrev pub entering : Bool → ℕ → ℕ → Event
entering enter g w = if enter then workspace_enter g w else workspace_leave g w

unfoldable pub workspace_send_group : ℕ → ℕ → Bool → Manager → List Event
workspace_send_group w g enter s =
    flat_map
      (λ wr.
        map (λ gr. entering enter gr.id wr.id)
          (keep (λ gr. gr.manager == wr.manager) (resources_of s.group_resources g)))
      (resources_of s.workspace_resources w)

-- clear_requests_by: a reference to the freed object becomes NULL.
unfoldable pub clear_ref : Option ℕ → Option ℕ → Option ℕ
clear_ref none ref = ref
clear_ref (some k) ref = if is_ref ref k then none else ref

unfoldable pub clear_request : Option ℕ → Option ℕ → Request → Request
unfolding clear_ref
clear_request group ws (create_workspace g n) = create_workspace (clear_ref group g) n
clear_request group ws (activate w) = activate (clear_ref ws w)
clear_request group ws (deactivate w) = deactivate (clear_ref ws w)
clear_request group ws (assign g w) = assign (clear_ref group g) (clear_ref ws w)
clear_request group ws (remove w) = remove (clear_ref ws w)

unfoldable pub clear_requests_by : Option ℕ → Option ℕ → ManagerResource → ManagerResource
unfolding clear_request
clear_requests_by group ws m = record m { requests = map (clear_request group ws) m.requests }
