-- ===== src/Ext/Asking.antt =====
-- References in the store of src/workspace.c when clients queue and commit requests.
use monowm.Base.{
  All-of_map, All-found, map-same, ℕ, ◌≡◌, refl, true, some, List, [], ◌∷◌, ◌++◌, map, ◌==◌,
  if◌then◌else◌, elem, All, All-append, arith, Bool-cases, Option-cases, inl, inr,
}
use monowm.Ext.State.{
  Manager, ManagerResource, Resource, Request, create_workspace, activate, deactivate, assign,
  remove, resource,
}
use monowm.Ext.Clients.{
  queue, on_resource, workspace_handle_activate, workspace_handle_deactivate,
  workspace_handle_remove, workspace_handle_assign, group_handle_create_workspace,
  manager_handle_commit, no_requests,
}
use monowm.Ext.Live.{
  KnownResource, KnownRequest, Live, group_ids, workspace_ids, manager_ids, Keeps-same, LiveIn-grow,
}

-- Changing a client's queue of requests.
requests-Live :
    (mgr : ℕ) (f : ManagerResource → ManagerResource) (s : Manager)
    → ((m : ManagerResource) → (f m).id ≡ m.id)
    → ((m : ManagerResource)
        → All (KnownRequest (group_ids s) (workspace_ids s)) m.requests
        → All (KnownRequest (group_ids s) (workspace_ids s)) (f m).requests)
    → Live s
    → Live (record s { resources = map (λ m. if m.id == mgr then f m else m) s.resources })
requests-Live mgr f s same known h =
    let R =
      λ (m : ManagerResource). All (KnownRequest (group_ids s) (workspace_ids s)) m.requests in
    LiveIn-grow (group_ids s) _ (workspace_ids s) _ (manager_ids s) _
      (record s { resources = map (λ m. if m.id == mgr then f m else m) s.resources }) (λ k e. e)
      (λ k e. e)
      (Keeps-same _ _ (
        map-same (λ (m : ManagerResource). m.id) (λ m. if m.id == mgr then f m else m)
          (λ m. ground (arith, same m)) s.resources))
      (record {
        groups_held = h.groups_held;
        workspaces_held = h.workspaces_held;
        entered = h.entered;
        asked =
            All-of_map R R (λ m. if m.id == mgr then f m else m)
              (λ m p. elim (Bool-cases (m.id == mgr)) [ inl e ↦ rw e (known m p) | inr e ↦ rw e p ])
              s.resources h.asked;
      })

queue-Live :
    (mgr : ℕ) (q : Request) (s : Manager)
    → KnownRequest (group_ids s) (workspace_ids s) q
    → Live s
    → Live (queue mgr q s)
unfolding queue
queue-Live mgr q s k h =
    requests-Live mgr (λ m. record m { requests = m.requests ++ q ∷ [] }) s (λ m. refl)
      (λ m p.
        All-append (KnownRequest (group_ids s) (workspace_ids s)) m.requests (q ∷ []) p (k, tt))
      h

pub manager_handle_commit-Live :
    (mgr : ℕ) (s : Manager) → Live s → Live (manager_handle_commit mgr s).1
unfolding manager_handle_commit
manager_handle_commit-Live mgr s h = requests-Live mgr no_requests s (λ m. refl) (λ m p. tt) h

-- A handler that works on what a live resource refers to.
on_resource-Live :
    (rs : List Resource) (hs : List ℕ) (k : ℕ) (f : Resource → Manager) (s : Manager)
    → All (KnownResource hs (manager_ids s)) rs
    → ((r : Resource) → elem r.handle hs ≡ true → Live (f r))
    → Live s
    → Live (on_resource (resource rs k) f s)
on_resource-Live rs hs k f s all good h = elim (Option-cases (resource rs k)) [
  | inl e ↦ rw e h
  | inr (r, e) ↦
      rw e (good r (All-found (KnownResource hs (manager_ids s)) (λ q. q.id == k) rs r e all).0)
]

pub workspace_handle_activate-Live :
    (k : ℕ) (s : Manager) → Live s → Live (workspace_handle_activate k s)
unfolding workspace_handle_activate
workspace_handle_activate-Live k s h =
    on_resource-Live s.workspace_resources (workspace_ids s) k _ s h.workspaces_held
      (λ r p. queue-Live r.manager (activate (some r.handle)) s p h) h

pub workspace_handle_deactivate-Live :
    (k : ℕ) (s : Manager) → Live s → Live (workspace_handle_deactivate k s)
unfolding workspace_handle_deactivate
workspace_handle_deactivate-Live k s h =
    on_resource-Live s.workspace_resources (workspace_ids s) k _ s h.workspaces_held
      (λ r p. queue-Live r.manager (deactivate (some r.handle)) s p h) h

pub workspace_handle_remove-Live :
    (k : ℕ) (s : Manager) → Live s → Live (workspace_handle_remove k s)
unfolding workspace_handle_remove
workspace_handle_remove-Live k s h =
    on_resource-Live s.workspace_resources (workspace_ids s) k _ s h.workspaces_held
      (λ r p. queue-Live r.manager (remove (some r.handle)) s p h) h

pub workspace_handle_assign-Live :
    (k g : ℕ) (s : Manager) → Live s → Live (workspace_handle_assign k g s)
unfolding workspace_handle_assign
workspace_handle_assign-Live k g s h =
    on_resource-Live s.workspace_resources (workspace_ids s) k _ s h.workspaces_held
      (λ r p.
        on_resource-Live s.group_resources (group_ids s) g _ s h.groups_held
          (λ q e. queue-Live r.manager (assign (some q.handle) (some r.handle)) s (e, p) h) h)
      h

pub group_handle_create_workspace-Live :
    (g : ℕ) (t : List ℕ) (s : Manager) → Live s → Live (group_handle_create_workspace g t s)
unfolding group_handle_create_workspace
group_handle_create_workspace-Live g t s h =
    on_resource-Live s.group_resources (group_ids s) g _ s h.groups_held
      (λ q p. queue-Live q.manager (create_workspace (some q.handle) t) s p h) h
