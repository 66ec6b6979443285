-- ===== src/Ext/Teardown.antt =====
-- manager_handle_display_destroy of src/workspace.c: the display goes away.
use monowm.Base.{
  ==_refl, ℕ, ◌≡◌, refl, ◌∙◌, true, not, List, [], ◌∷◌, ◌==◌, elem, All, All-map, All-of_keep,
  map-keep, arith,
}
use monowm.Ext.State.{Manager, ManagerResource, Group, Workspace, Resource}
use monowm.Ext.Groups.{group_destroy}
use monowm.Ext.Workspaces.{workspace_destroy}
use monowm.Ext.Clients.{destroy_manager_resource}
use monowm.Ext.Live.{Live, KnownResource, group_ids, workspace_ids, manager_ids}
use monowm.Ext.Removing.{
  without, group_destroy-Live, workspace_destroy-Live, destroy_manager_resource-Live,
}

-- One loop of the handler, over the objects that it starts with.
unfoldable pub destroy_each : (ℕ → Manager → Manager) → List ℕ → Manager → Manager
destroy_each f [] s = s
destroy_each f (k ∷ ks) s = destroy_each f ks (f k s)

abbrev destroy_groups : Manager → Manager
destroy_groups s = destroy_each group_destroy (group_ids s) s

abbrev destroy_workspaces : Manager → Manager
destroy_workspaces s = destroy_each workspace_destroy (workspace_ids s) s

abbrev destroy_managers : Manager → Manager
destroy_managers s = destroy_each destroy_manager_resource (manager_ids s) s

unfoldable pub manager_handle_display_destroy : Manager → Manager
unfolding destroy_each group_destroy workspace_destroy destroy_manager_resource
manager_handle_display_destroy s = destroy_managers (destroy_workspaces (destroy_groups s))

module _ (f : ℕ → Manager → Manager) where
  -- What each round keeps, the loop keeps.
  destroy_each-keeps {ℓ} :
      (P : Manager → Type ℓ)
      → ((k : ℕ) (s : Manager) → P s → P (f k s))
      → (ks : List ℕ) (s : Manager) → P s
      → P (destroy_each f ks s)
  unfolding destroy_each
  destroy_each-keeps P step [] s h = h
  destroy_each-keeps P step (k ∷ ks) s h = destroy_each-keeps P step ks (f k s) (step k s h)

  -- A loop over all objects leaves none.
  destroy_each-empties :
      (ids : Manager → List ℕ)
      → ((k : ℕ) (s : Manager) → ids (f k s) ≡ without k (ids s))
      → (ks : List ℕ) (s : Manager) → All (λ x. elem x ks ≡ true) (ids s)
      → ids (destroy_each f ks s) ≡ []
  unfolding destroy_each
  destroy_each-empties ids step [] s h = none_left (ids s) h
    where
      none_left : (xs : List ℕ) → All (λ x. elem x [] ≡ true) xs → xs ≡ []
      none_left [] p = refl
      none_left (x ∷ xs) p = absurd (let q = p.0 in cc)
  destroy_each-empties ids step (k ∷ ks) s h = destroy_each-empties ids step ks (f k s) (
      rw (step k s) (
        All-of_keep (λ x. elem x (k ∷ ks) ≡ true) (λ x. elem x ks ≡ true) (λ x. not (x == k))
          (λ x e p. ground (arith, e, p)) (ids s) h))

group_destroy-ids :
    (g : ℕ) (s : Manager) → (group_ids (group_destroy g s) ≡ without g (group_ids s))
unfolding group_destroy
group_destroy-ids g s = map-keep (λ (k : Group). k.id) (λ x. not (x == g)) s.groups

workspace_destroy-ids :
    (w : ℕ) (s : Manager)
    → (workspace_ids (workspace_destroy w s) ≡ without w (workspace_ids s))
      × (group_ids (workspace_destroy w s) ≡ group_ids s)
unfolding workspace_destroy
workspace_destroy-ids w s =
    (map-keep (λ (k : Workspace). k.id) (λ x. not (x == w)) s.workspaces, refl)

destroy_manager_resource-ids :
    (m : ℕ) (s : Manager)
    → (manager_ids (destroy_manager_resource m s) ≡ without m (manager_ids s))
      × (group_ids (destroy_manager_resource m s) ≡ group_ids s)
      × (workspace_ids (destroy_manager_resource m s) ≡ workspace_ids s)
unfolding destroy_manager_resource
destroy_manager_resource-ids m s =
    (map-keep (λ (k : ManagerResource). k.id) (λ x. not (x == m)) s.resources, refl, refl)

-- Every number of a list is in it.
own : (xs : List ℕ) → All (λ x. elem x xs ≡ true) xs
own [] = tt
own (x ∷ xs) = (
  ground (arith, ==_refl x),
  All-map (λ y. elem y xs ≡ true) (λ y. elem y (x ∷ xs) ≡ true) (λ y p. ground (arith, p)) xs
      (own xs),
)

-- Nothing is left of a manager.
pub record IsEmpty (s : Manager) : Type 0 where
  pub no_groups : group_ids s ≡ []
  pub no_workspaces : workspace_ids s ≡ []
  pub no_clients : manager_ids s ≡ []
  pub no_group_resources : s.group_resources ≡ []
  pub no_workspace_resources : s.workspace_resources ≡ []

no_resources :
    (hs ms : List ℕ) (rs : List Resource) → hs ≡ [] → All (KnownResource hs ms) rs → rs ≡ []
no_resources hs ms [] e h = refl
no_resources hs ms (r ∷ rs) e h = absurd (let q = rw e at h.0.0 in cc)

-- If no reference dangles when the display goes away, the handler leaves no group, no workspace,
-- no bound client and no resource of a group or workspace.
pub manager_handle_display_destroy-IsEmpty :
    (s : Manager) → Live s → IsEmpty (manager_handle_display_destroy s)
unfolding manager_handle_display_destroy
manager_handle_display_destroy-IsEmpty s h =
    let a = destroy_groups s in
    let b = destroy_workspaces a in
    let c = destroy_managers b in
    let ga : group_ids a ≡ [] =
      destroy_each-empties group_destroy group_ids group_destroy-ids (group_ids s) s
        (own (group_ids s)) in
    let la : Live a = destroy_each-keeps group_destroy Live group_destroy-Live (group_ids s) s h in
    let wb : workspace_ids b ≡ [] =
      destroy_each-empties workspace_destroy workspace_ids (λ k t. (workspace_destroy-ids k t).0)
        (workspace_ids a) a (own (workspace_ids a)) in
    let gb : group_ids b ≡ [] =
      destroy_each-keeps workspace_destroy (λ t. group_ids t ≡ [])
        (λ k t e. (workspace_destroy-ids k t).1 ∙ e) (workspace_ids a) a ga in
    let lb : Live b =
      destroy_each-keeps workspace_destroy Live workspace_destroy-Live (workspace_ids a) a la in
    let gc : group_ids c ≡ [] =
      destroy_each-keeps destroy_manager_resource (λ t. group_ids t ≡ [])
        (λ k t e. (destroy_manager_resource-ids k t).1 ∙ e) (manager_ids b) b gb in
    let wc : workspace_ids c ≡ [] =
      destroy_each-keeps destroy_manager_resource (λ t. workspace_ids t ≡ [])
        (λ k t e. (destroy_manager_resource-ids k t).2 ∙ e) (manager_ids b) b wb in
    let lc : Live c =
      destroy_each-keeps destroy_manager_resource Live destroy_manager_resource-Live (manager_ids b)
        b lb in
    record {
      no_groups = gc;
      no_workspaces = wc;
      no_clients =
          destroy_each-empties destroy_manager_resource manager_ids
            (λ k t. (destroy_manager_resource-ids k t).0) (manager_ids b) b (own (manager_ids b));
      no_group_resources = no_resources _ _ c.group_resources gc lc.groups_held;
      no_workspace_resources = no_resources _ _ c.workspace_resources wc lc.workspaces_held;
    }
