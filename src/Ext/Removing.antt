-- ===== src/Ext/Removing.antt =====
-- References in the store of src/workspace.c when objects are freed.
use monowm.Base.{
  All-of_map, All-of_keep, map-same, map-keep, ℕ, ◌≡◌, refl, true, false, not, Option, none, some,
  List, ◌==◌, keep, elem, elem-keep, All, arith, Bool-cases, inl, inr,
}
use monowm.Ext.State.{
  Manager, ManagerResource, Group, Workspace, Request, create_workspace, activate, deactivate,
  assign, remove, clear_ref, clear_request, clear_requests_by,
}
use monowm.Ext.Groups.{group_destroy, leave_group}
use monowm.Ext.Workspaces.{workspace_destroy}
use monowm.Ext.Clients.{
  workspace_resource_destroy, group_resource_destroy, destroy_manager_resource, manager_handle_stop,
}
use monowm.Ext.Live.{
  Known, KnownResource, KnownRequest, Live, group_ids, workspace_ids, manager_ids, Keeps-same,
  LiveIn-grow,
}

-- The objects that are left when one is freed.
abbrev pub without : ℕ → List ℕ → List ℕ
without k xs = keep (λ x. not (x == k)) xs

elem-without :
    (k j : ℕ) (xs : List ℕ) → elem j xs ≡ true → (j == k) ≡ false → elem j (without k xs) ≡ true
elem-without k j xs h e = ground (arith, elem-keep (λ x. not (x == k)) j xs)

-- A cleared reference is to an object that is left.
clear_ref-Known :
    (k : ℕ) (xs : List ℕ) (o : Option ℕ) → Known xs o → Known (without k xs) (clear_ref (some k) o)
unfolding clear_ref
clear_ref-Known k xs none h = tt
clear_ref-Known k xs (some j) h = elim (Bool-cases (j == k)) [
  | inl e ↦ rw e tt
  | inr e ↦ rw e (elem-without k j xs h e)
]

clear_request-Known_group :
    (k : ℕ) (gs ws : List ℕ) (q : Request)
    → KnownRequest gs ws q
    → KnownRequest (without k gs) ws (clear_request (some k) none q)
unfolding clear_request
clear_request-Known_group k gs ws (create_workspace g t) h = clear_ref-Known k gs g h
clear_request-Known_group k gs ws (activate w) h = unfold clear_ref in h
clear_request-Known_group k gs ws (deactivate w) h = unfold clear_ref in h
clear_request-Known_group k gs ws (assign g w) h =
    (clear_ref-Known k gs g h.0, unfold clear_ref in h.1)
clear_request-Known_group k gs ws (remove w) h = unfold clear_ref in h

clear_request-Known_workspace :
    (k : ℕ) (gs ws : List ℕ) (q : Request)
    → KnownRequest gs ws q
    → KnownRequest gs (without k ws) (clear_request none (some k) q)
unfolding clear_request
clear_request-Known_workspace k gs ws (create_workspace g t) h = unfold clear_ref in h
clear_request-Known_workspace k gs ws (activate w) h = clear_ref-Known k ws w h
clear_request-Known_workspace k gs ws (deactivate w) h = clear_ref-Known k ws w h
clear_request-Known_workspace k gs ws (assign g w) h =
    (unfold clear_ref in h.0, clear_ref-Known k ws w h.1)
clear_request-Known_workspace k gs ws (remove w) h = clear_ref-Known k ws w h

leave_group-clear_ref :
    (k : ℕ) (w : Workspace) → (leave_group k w).group ≡ clear_ref (some k) w.group
unfolding clear_ref
leave_group-clear_ref k w = ground arith

leave_group-Known :
    (k : ℕ) (gs : List ℕ) (w : Workspace)
    → Known gs w.group
    → Known (without k gs) (leave_group k w).group
leave_group-Known k gs w h = rw (leave_group-clear_ref k w) (clear_ref-Known k gs w.group h)

pub group_destroy-Live : (g : ℕ) (s : Manager) → Live s → Live (group_destroy g s)
unfolding group_destroy clear_requests_by
group_destroy-Live g s h =
    let gs = group_ids s in
    let ws = workspace_ids s in
    let ms = manager_ids s in
    LiveIn-grow (without g gs) _ ws _ ms _ (group_destroy g s)
      (Keeps-same _ _ (map-keep (λ (k : Group). k.id) (λ x. not (x == g)) s.groups))
      (Keeps-same _ _
        (map-same (λ (w : Workspace). w.id) (leave_group g) (λ w. ground arith) s.workspaces))
      (Keeps-same _ _ (
        map-same (λ (m : ManagerResource). m.id) (clear_requests_by (some g) none) (λ m. refl)
          s.resources))
      (record {
        groups_held =
            All-of_keep (KnownResource gs ms) (KnownResource (without g gs) ms)
              (λ r. not (r.handle == g))
              (λ r e p. (elem-without g r.handle gs p.0 (ground (arith, e)), p.1)) s.group_resources
              h.groups_held;
        workspaces_held = h.workspaces_held;
        entered =
            All-of_map (λ w. Known gs w.group) (λ w. Known (without g gs) w.group) (leave_group g)
              (leave_group-Known g gs) s.workspaces h.entered;
        asked =
            All-of_map (λ m. All (KnownRequest gs ws) m.requests)
              (λ m. All (KnownRequest (without g gs) ws) m.requests)
              (clear_requests_by (some g) none)
              (λ m p.
                All-of_map (KnownRequest gs ws) (KnownRequest (without g gs) ws)
                  (clear_request (some g) none) (clear_request-Known_group g gs ws) m.requests p)
              s.resources h.asked;
      })

pub workspace_destroy-Live : (w : ℕ) (s : Manager) → Live s → Live (workspace_destroy w s)
unfolding workspace_destroy clear_requests_by
workspace_destroy-Live w s h =
    let gs = group_ids s in
    let ws = workspace_ids s in
    let ms = manager_ids s in
    LiveIn-grow gs _ (without w ws) _ ms _ (workspace_destroy w s) (λ k e. e)
      (Keeps-same _ _ (map-keep (λ (v : Workspace). v.id) (λ x. not (x == w)) s.workspaces))
      (Keeps-same _ _ (
        map-same (λ (m : ManagerResource). m.id) (clear_requests_by none (some w)) (λ m. refl)
          s.resources))
      (record {
        groups_held = h.groups_held;
        workspaces_held =
            All-of_keep (KnownResource ws ms) (KnownResource (without w ws) ms)
              (λ r. not (r.handle == w))
              (λ r e p. (elem-without w r.handle ws p.0 (ground (arith, e)), p.1))
              s.workspace_resources h.workspaces_held;
        entered =
            All-of_keep (λ v. Known gs v.group) (λ v. Known gs v.group) (λ v. not (v.id == w))
              (λ v e p. p) s.workspaces h.entered;
        asked =
            All-of_map (λ m. All (KnownRequest gs ws) m.requests)
              (λ m. All (KnownRequest gs (without w ws)) m.requests)
              (clear_requests_by none (some w))
              (λ m p.
                All-of_map (KnownRequest gs ws) (KnownRequest gs (without w ws))
                  (clear_request none (some w)) (clear_request-Known_workspace w gs ws) m.requests
                  p)
              s.resources h.asked;
      })

pub destroy_manager_resource-Live :
    (mgr : ℕ) (s : Manager) → Live s → Live (destroy_manager_resource mgr s)
unfolding destroy_manager_resource
destroy_manager_resource-Live mgr s h =
    let gs = group_ids s in
    let ws = workspace_ids s in
    let ms = manager_ids s in
    LiveIn-grow gs _ ws _ (without mgr ms) _ (destroy_manager_resource mgr s) (λ k e. e) (λ k e. e)
      (Keeps-same _ _ (map-keep (λ (m : ManagerResource). m.id) (λ x. not (x == mgr)) s.resources))
      (record {
        groups_held =
            All-of_keep (KnownResource gs ms) (KnownResource gs (without mgr ms))
              (λ r. not (r.manager == mgr))
              (λ r e p. (p.0, elem-without mgr r.manager ms p.1 (ground (arith, e))))
              s.group_resources h.groups_held;
        workspaces_held =
            All-of_keep (KnownResource ws ms) (KnownResource ws (without mgr ms))
              (λ r. not (r.manager == mgr))
              (λ r e p. (p.0, elem-without mgr r.manager ms p.1 (ground (arith, e))))
              s.workspace_resources h.workspaces_held;
        entered = h.entered;
        asked =
            All-of_keep (λ m. All (KnownRequest gs ws) m.requests)
              (λ m. All (KnownRequest gs ws) m.requests) (λ m. not (m.id == mgr)) (λ m e p. p)
              s.resources h.asked;
      })

pub workspace_resource_destroy-Live :
    (k : ℕ) (s : Manager) → Live s → Live (workspace_resource_destroy k s)
unfolding workspace_resource_destroy
workspace_resource_destroy-Live k s h = record {
  groups_held = h.groups_held;
  workspaces_held =
      All-of_keep (KnownResource (workspace_ids s) (manager_ids s))
        (KnownResource (workspace_ids s) (manager_ids s)) (λ r. not (r.id == k)) (λ r e p. p)
        s.workspace_resources h.workspaces_held;
  entered = h.entered;
  asked = h.asked;
}

pub group_resource_destroy-Live : (k : ℕ) (s : Manager) → Live s → Live (group_resource_destroy k s)
unfolding group_resource_destroy
group_resource_destroy-Live k s h = record {
  groups_held =
      All-of_keep (KnownResource (group_ids s) (manager_ids s))
        (KnownResource (group_ids s) (manager_ids s)) (λ r. not (r.id == k)) (λ r e p. p)
        s.group_resources h.groups_held;
  workspaces_held = h.workspaces_held;
  entered = h.entered;
  asked = h.asked;
}

pub manager_handle_stop-Live : (mgr : ℕ) (s : Manager) → Live s → Live (manager_handle_stop mgr s)
unfolding manager_handle_stop
manager_handle_stop-Live mgr s h = destroy_manager_resource-Live mgr s h
