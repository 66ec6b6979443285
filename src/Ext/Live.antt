-- ===== src/Ext/Live.antt =====
-- When a reference in the store of src/workspace.c is to an object that exists.
use monowm.Base.{
  ℕ, ◌≡◌, true, Option, none, some, List, ◌++◌, map, elem, elem-append, All, All-map, arith,
}
use monowm.Ext.State.{
  Manager, ManagerResource, Group, Workspace, Resource, Request, create_workspace, activate,
  deactivate, assign, remove,
}

-- A reference to one of some objects, or NULL.
abbrev pub Known : List ℕ → Option ℕ → Type 0
Known ks none = Unit
Known ks (some k) = elem k ks ≡ true

abbrev pub KnownRequest : List ℕ → List ℕ → Request → Type 0
KnownRequest gs ws (create_workspace g t) = Known gs g
KnownRequest gs ws (activate w) = Known ws w
KnownRequest gs ws (deactivate w) = Known ws w
KnownRequest gs ws (assign g w) = Known gs g × Known ws w
KnownRequest gs ws (remove w) = Known ws w

abbrev pub KnownResource : List ℕ → List ℕ → Resource → Type 0
KnownResource hs ms r = (elem r.handle hs ≡ true) × (elem r.manager ms ≡ true)

-- Every reference is to an object among these groups, workspaces and clients.
pub record LiveLists (gs ws ms : List ℕ) (held : List Resource) (held_workspaces : List Resource)
    (spaces : List Workspace) (clients : List ManagerResource) : Type 0 where
  pub groups_held : All (KnownResource gs ms) held
  pub workspaces_held : All (KnownResource ws ms) held_workspaces
  pub entered : All (λ (w : Workspace). Known gs w.group) spaces
  pub asked : All (λ (m : ManagerResource). All (KnownRequest gs ws) m.requests) clients

-- The same of a store.
abbrev pub LiveIn : List ℕ → List ℕ → List ℕ → Manager → Type 0
LiveIn gs ws ms s =
    LiveLists gs ws ms s.group_resources s.workspace_resources s.workspaces s.resources

abbrev pub group_ids : Manager → List ℕ
group_ids s = map (λ (g : Group). g.id) s.groups

abbrev pub workspace_ids : Manager → List ℕ
workspace_ids s = map (λ (w : Workspace). w.id) s.workspaces

abbrev pub manager_ids : Manager → List ℕ
manager_ids s = map (λ (m : ManagerResource). m.id) s.resources

-- No reference dangles.
abbrev pub Live : Manager → Type 0
Live s = LiveIn (group_ids s) (workspace_ids s) (manager_ids s) s

-- No object of the one list is missing in the other.
abbrev pub Keeps : List ℕ → List ℕ → Type 0
Keeps xs ys = (k : ℕ) → elem k xs ≡ true → elem k ys ≡ true

pub Keeps-same : (xs ys : List ℕ) → ys ≡ xs → Keeps xs ys
Keeps-same xs ys e k h = rw e h

pub Keeps-grown : (xs ys : List ℕ) → Keeps xs (xs ++ ys)
Keeps-grown xs ys k h = ground (arith, elem-append k xs ys)

Known-grow : (xs ys : List ℕ) → Keeps xs ys → (o : Option ℕ) → Known xs o → Known ys o
Known-grow xs ys f none h = h
Known-grow xs ys f (some k) h = f k h

KnownRequest-grow :
    (gs hs ws vs : List ℕ)
    → Keeps gs hs
    → Keeps ws vs
    → (q : Request) → KnownRequest gs ws q
    → KnownRequest hs vs q
KnownRequest-grow gs hs ws vs f g (create_workspace o t) h = Known-grow gs hs f o h
KnownRequest-grow gs hs ws vs f g (activate o) h = Known-grow ws vs g o h
KnownRequest-grow gs hs ws vs f g (deactivate o) h = Known-grow ws vs g o h
KnownRequest-grow gs hs ws vs f g (assign o p) h =
    (Known-grow gs hs f o h.0, Known-grow ws vs g p h.1)
KnownRequest-grow gs hs ws vs f g (remove o) h = Known-grow ws vs g o h

-- More objects may come.
pub LiveIn-grow :
    (gs hs ws vs ms ns : List ℕ) (s : Manager)
    → Keeps gs hs
    → Keeps ws vs
    → Keeps ms ns
    → LiveIn gs ws ms s
    → LiveIn hs vs ns s
LiveIn-grow gs hs ws vs ms ns s f g k h = record {
  groups_held =
      All-map (KnownResource gs ms) (KnownResource hs ns) (λ r p. (f r.handle p.0, k r.manager p.1))
        s.group_resources h.groups_held;
  workspaces_held =
      All-map (KnownResource ws ms) (KnownResource vs ns) (λ r p. (g r.handle p.0, k r.manager p.1))
        s.workspace_resources h.workspaces_held;
  entered =
      All-map (λ w. Known gs w.group) (λ w. Known hs w.group) (λ w p. Known-grow gs hs f w.group p)
        s.workspaces h.entered;
  asked =
      All-map (λ m. All (KnownRequest gs ws) m.requests) (λ m. All (KnownRequest hs vs) m.requests)
        (λ m p.
          All-map (KnownRequest gs ws) (KnownRequest hs vs) (KnownRequest-grow gs hs ws vs f g)
            m.requests p)
        s.resources h.asked;
}
