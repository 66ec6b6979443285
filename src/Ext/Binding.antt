-- ===== src/Ext/Binding.antt =====
-- References in the store of src/workspace.c when a client binds the manager.
use monowm.Base.{
  ℕ, suc, ◌≡◌, refl, ◌∙◌, true, Option, none, some, List, [], ◌∷◌, ==_refl, elem, All, arith,
}
use monowm.Ext.State.{Manager, ManagerResource, Group, Workspace, Env}
use monowm.Ext.Groups.{announce_group}
use monowm.Ext.Workspaces.{announce_workspace}
use monowm.Ext.Clients.{bind_groups, bind_workspaces, enter_own, manager_bind}
use monowm.Ext.Live.{LiveIn, Live, group_ids, workspace_ids, manager_ids, LiveIn-grow}
use monowm.Ext.Adding.{announce_group-LiveIn, announce_workspace-LiveIn, own_ids, settled}

module _ (gs ws ms : List ℕ) where
  bind_groups-LiveIn :
      (env : Env) (mgr : ℕ) (groups : List Group) (s : Manager)
      → All (λ (g : Group). elem g.id gs ≡ true) groups
      → elem mgr ms ≡ true
      → LiveIn gs ws ms s
      → LiveIn gs ws ms (bind_groups env mgr groups s)
  unfolding bind_groups
  bind_groups-LiveIn env mgr [] s p q h = h
  bind_groups-LiveIn env mgr (g ∷ groups) s p q h =
      bind_groups-LiveIn env mgr groups (announce_group env mgr g s) p.1 q
        (announce_group-LiveIn gs ws ms env mgr g s p.0 q h)

  enter_own-LiveIn :
      (mgr wr : ℕ) (g : Option ℕ) (s : Manager)
      → LiveIn gs ws ms s
      → LiveIn gs ws ms (enter_own mgr wr g s)
  enter_own-LiveIn mgr wr none s h = h
  enter_own-LiveIn mgr wr (some g) s h = h

  bind_workspaces-LiveIn :
      (mgr : ℕ) (spaces : List Workspace) (s : Manager)
      → All (λ (w : Workspace). elem w.id ws ≡ true) spaces
      → elem mgr ms ≡ true
      → LiveIn gs ws ms s
      → LiveIn gs ws ms (bind_workspaces mgr spaces s)
  unfolding bind_workspaces
  bind_workspaces-LiveIn mgr [] s p q h = h
  bind_workspaces-LiveIn mgr (w ∷ spaces) s p q h =
      bind_workspaces-LiveIn mgr spaces (enter_own mgr s.next w.group (announce_workspace mgr w s))
        p.1 q
        (enter_own-LiveIn mgr s.next w.group (announce_workspace mgr w s)
          (announce_workspace-LiveIn gs ws ms mgr w s p.0 q h))

-- The lists of objects, which binding does not change once the client has its resource.
abbrev SameObjects : Manager → Manager → Type 0
SameObjects t s =
    (group_ids t ≡ group_ids s)
    × (workspace_ids t ≡ workspace_ids s)
    × (manager_ids t ≡ manager_ids s)

bind_groups-same :
    (env : Env) (mgr : ℕ) (groups : List Group) (s : Manager)
    → SameObjects (bind_groups env mgr groups s) s
unfolding bind_groups announce_group
bind_groups-same env mgr [] s = (refl, refl, refl)
bind_groups-same env mgr (g ∷ groups) s =
    bind_groups-same env mgr groups (announce_group env mgr g s)

enter_own-same : (mgr wr : ℕ) (g : Option ℕ) (s : Manager) → SameObjects (enter_own mgr wr g s) s
enter_own-same mgr wr none s = (refl, refl, refl)
enter_own-same mgr wr (some g) s = (refl, refl, refl)

bind_workspaces-same :
    (mgr : ℕ) (spaces : List Workspace) (s : Manager) → SameObjects (bind_workspaces mgr spaces s) s
unfolding bind_workspaces announce_workspace
bind_workspaces-same mgr [] s = (refl, refl, refl)
bind_workspaces-same mgr (w ∷ spaces) s =
    let (a, b, c) =
      bind_workspaces-same mgr spaces (enter_own mgr s.next w.group (announce_workspace mgr w s)) in
    let (d, e, f) = enter_own-same mgr s.next w.group (announce_workspace mgr w s) in
    (a ∙ d, b ∙ e, c ∙ f)

pub manager_bind-Live :
    (env : Env) (client : ℕ) (s : Manager) → Live s → Live (manager_bind env client s)
unfolding manager_bind
manager_bind-Live env client s h =
    let mgr = s.next in
    let fresh : ManagerResource = record { id = mgr; client = client; requests = [] } in
    let bound : Manager = record s { resources = fresh ∷ s.resources; next = suc mgr } in
    let ms = mgr ∷ manager_ids s in
    let here : elem mgr ms ≡ true = ground (arith, ==_refl mgr) in
    let grown =
      LiveIn-grow (group_ids s) (group_ids s) (workspace_ids s) (workspace_ids s) (manager_ids s) ms
        s (λ k e. e) (λ k e. e) (λ k e. ground (arith, e)) h in
    let start : LiveIn (group_ids s) (workspace_ids s) ms bound = record {
      groups_held = grown.groups_held;
      workspaces_held = grown.workspaces_held;
      entered = grown.entered;
      asked = (tt, grown.asked);
    } in
    let t = bind_groups env mgr s.groups bound in
    let (a, b, c) = bind_groups-same env mgr s.groups bound in
    let (d, e, f) = bind_workspaces-same mgr s.workspaces t in
    settled (group_ids s) (workspace_ids s) ms (bind_workspaces mgr s.workspaces t)
      (d ∙ a, e ∙ b, f ∙ c)
      (bind_workspaces-LiveIn (group_ids s) (workspace_ids s) ms mgr s.workspaces t
        (own_ids (λ (w : Workspace). w.id) s.workspaces) here
        (bind_groups-LiveIn (group_ids s) (workspace_ids s) ms env mgr s.groups bound
          (own_ids (λ (g : Group). g.id) s.groups) here start))
