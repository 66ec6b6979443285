-- ===== src/Ext/Adding.antt =====
-- References in the store of src/workspace.c when groups, workspaces and outputs are added.
use monowm.Base.{
  map-same, ℕ, suc, ◌≡◌, refl, ◌∙◌, true, Option, none, List, [], ◌∷◌, ◌++◌, map, ◌==◌, ==_refl,
  if◌then◌else◌, elem, elem-append, All, All-append, All-map, arith, Bool-cases, inl, inr, erase,
}
use monowm.Ext.State.{Manager, ManagerResource, Group, Workspace, Env}
use monowm.Ext.Groups.{
  announce_group, announce_group_all, group_create, update_group, has_output, output_entered,
  output_left, group_send_output,
}
use monowm.Ext.Workspaces.{announce_workspace, announce_workspace_all, workspace_create}
use monowm.Ext.Live.{
  Known, LiveIn, Live, group_ids, workspace_ids, manager_ids, Keeps-same, Keeps-grown, LiveIn-grow,
}

module _ (gs ws ms : List ℕ) where
  pub announce_group-LiveIn :
      (env : Env) (mgr : ℕ) (g : Group) (s : Manager)
      → elem g.id gs ≡ true
      → elem mgr ms ≡ true
      → LiveIn gs ws ms s
      → LiveIn gs ws ms (announce_group env mgr g s)
  unfolding announce_group
  announce_group-LiveIn env mgr g s p q h = record {
    groups_held = ((p, q), h.groups_held);
    workspaces_held = h.workspaces_held;
    entered = h.entered;
    asked = h.asked;
  }

  announce_group_all-LiveIn :
      (env : Env) (g : Group) (rs : List ManagerResource) (s : Manager)
      → elem g.id gs ≡ true
      → All (λ (m : ManagerResource). elem m.id ms ≡ true) rs
      → LiveIn gs ws ms s
      → LiveIn gs ws ms (announce_group_all env g rs s)
  unfolding announce_group_all
  announce_group_all-LiveIn env g [] s p q h = h
  announce_group_all-LiveIn env g (m ∷ rs) s p q h =
      announce_group_all-LiveIn env g rs (announce_group env m.id g s) p q.1
        (announce_group-LiveIn env m.id g s p q.0 h)

  pub announce_workspace-LiveIn :
      (mgr : ℕ) (w : Workspace) (s : Manager)
      → elem w.id ws ≡ true
      → elem mgr ms ≡ true
      → LiveIn gs ws ms s
      → LiveIn gs ws ms (announce_workspace mgr w s)
  unfolding announce_workspace
  announce_workspace-LiveIn mgr w s p q h = record {
    groups_held = h.groups_held;
    workspaces_held = ((p, q), h.workspaces_held);
    entered = h.entered;
    asked = h.asked;
  }

  announce_workspace_all-LiveIn :
      (w : Workspace) (rs : List ManagerResource) (s : Manager)
      → elem w.id ws ≡ true
      → All (λ (m : ManagerResource). elem m.id ms ≡ true) rs
      → LiveIn gs ws ms s
      → LiveIn gs ws ms (announce_workspace_all w rs s)
  unfolding announce_workspace_all
  announce_workspace_all-LiveIn w [] s p q h = h
  announce_workspace_all-LiveIn w (m ∷ rs) s p q h =
      announce_workspace_all-LiveIn w rs (announce_workspace m.id w s) p q.1
        (announce_workspace-LiveIn m.id w s p q.0 h)

-- Every entry of a list is among the list's ids.
pub own_ids {ℓ} :
    {A : Type ℓ} (id : A → ℕ) (xs : List A) → All (λ x. elem (id x) (map id xs) ≡ true) xs
own_ids id [] = tt
own_ids id (x ∷ xs) = (
  ground (arith, ==_refl (id x)),
  All-map (λ y. elem (id y) (map id xs) ≡ true) (λ y. elem (id y) (map id (x ∷ xs)) ≡ true)
      (λ y p. ground (arith, p)) xs (own_ids id xs),
)

map_end {ℓ} :
    {A : Type ℓ} (id : A → ℕ) (xs : List A) (x : A) → map id (xs ++ x ∷ []) ≡ map id xs ++ id x ∷ []
map_end id [] x = refl
map_end id (y ∷ xs) x = rw (map_end id xs x) refl

elem_end : (xs : List ℕ) (k : ℕ) → elem k (xs ++ k ∷ []) ≡ true
elem_end xs k = ground (arith, elem-append k xs (k ∷ []), ==_refl k)

pub announce_group_all-keeps :
    (env : Env) (g : Group) (rs : List ManagerResource) (s : Manager)
    → (group_ids (announce_group_all env g rs s) ≡ group_ids s)
      × (workspace_ids (announce_group_all env g rs s) ≡ workspace_ids s)
      × (manager_ids (announce_group_all env g rs s) ≡ manager_ids s)
unfolding announce_group_all announce_group
announce_group_all-keeps env g [] s = (refl, refl, refl)
announce_group_all-keeps env g (m ∷ rs) s =
    announce_group_all-keeps env g rs (announce_group env m.id g s)

pub announce_workspace_all-keeps :
    (w : Workspace) (rs : List ManagerResource) (s : Manager)
    → (group_ids (announce_workspace_all w rs s) ≡ group_ids s)
      × (workspace_ids (announce_workspace_all w rs s) ≡ workspace_ids s)
      × (manager_ids (announce_workspace_all w rs s) ≡ manager_ids s)
unfolding announce_workspace_all announce_workspace
announce_workspace_all-keeps w [] s = (refl, refl, refl)
announce_workspace_all-keeps w (m ∷ rs) s =
    announce_workspace_all-keeps w rs (announce_workspace m.id w s)

-- A state with the ids of these lists is live if its references are to them.
pub settled :
    (gs ws ms : List ℕ) (s : Manager)
    → (group_ids s ≡ gs) × (workspace_ids s ≡ ws) × (manager_ids s ≡ ms)
    → LiveIn gs ws ms s
    → Live s
settled gs ws ms s e h =
    LiveIn-grow gs (group_ids s) ws (workspace_ids s) ms (manager_ids s) s (Keeps-same gs _ e.0)
      (Keeps-same ws _ e.1) (Keeps-same ms _ e.2) h

pub group_create-Live :
    (env : Env) (caps : ℕ) (s : Manager) → Live s → Live (group_create env caps s)
unfolding group_create
group_create-Live env caps s h =
    let g : Group = record { id = s.next; caps = caps; outputs = [] } in
    let t : Manager = record s { groups = s.groups ++ g ∷ []; next = suc s.next } in
    let gs = group_ids s ++ s.next ∷ [] in
    let (a, b, c) = announce_group_all-keeps env g s.resources t in
    settled gs (workspace_ids s) (manager_ids s) (group_create env caps s)
      (a ∙ map_end (λ (k : Group). k.id) s.groups g, b, c)
      (announce_group_all-LiveIn gs (workspace_ids s) (manager_ids s) env g s.resources t
        (elem_end (group_ids s) s.next) (own_ids (λ (m : ManagerResource). m.id) s.resources)
        (LiveIn-grow (group_ids s) gs (workspace_ids s) _ (manager_ids s) _ s
          (Keeps-grown (group_ids s) (s.next ∷ [])) (λ k e. e) (λ k e. e) h))

pub workspace_create-Live :
    (text : Option (List ℕ)) (caps : ℕ) (s : Manager) → Live s → Live (workspace_create text caps s)
unfolding workspace_create
workspace_create-Live text caps s h =
    let w : Workspace = record {
      id = s.next;
      group = none;
      name = none;
      text_id = text;
      coordinates = [];
      caps = caps;
      state = 0;
    } in
    let t : Manager = record s { workspaces = s.workspaces ++ w ∷ []; next = suc s.next } in
    let ws = workspace_ids s ++ s.next ∷ [] in
    let (a, b, c) = announce_workspace_all-keeps w s.resources t in
    let grown =
      LiveIn-grow (group_ids s) _ (workspace_ids s) ws (manager_ids s) _ s (λ k e. e)
        (Keeps-grown (workspace_ids s) (s.next ∷ [])) (λ k e. e) h in
    settled (group_ids s) ws (manager_ids s) (workspace_create text caps s)
      (a, b ∙ map_end (λ (k : Workspace). k.id) s.workspaces w, c)
      (announce_workspace_all-LiveIn (group_ids s) ws (manager_ids s) w s.resources t
        (elem_end (workspace_ids s) s.next) (own_ids (λ (m : ManagerResource). m.id) s.resources)
        (record {
          groups_held = grown.groups_held;
          workspaces_held = grown.workspaces_held;
          entered =
              All-append (λ (v : Workspace). Known (group_ids s) v.group) s.workspaces (w ∷ [])
                grown.entered (tt, tt);
          asked = grown.asked;
        }))

-- Changing a group in place, its id kept, is no matter.
update_group-Live :
    (g : ℕ) (f : Group → Group) (s : Manager)
    → ((h : Group) → (f h).id ≡ h.id)
    → Live s
    → Live (update_group g f s)
update_group-Live g f s keeps h =
    settled (group_ids s) (workspace_ids s) (manager_ids s) (update_group g f s)
      (
        map-same (λ (k : Group). k.id) (λ k. if k.id == g then f k else k)
            (λ k. ground (arith, keeps k)) s.groups,
        refl,
        refl,
      )
      h

pub output_entered-Live :
    (env : Env) (g o : ℕ) (s : Manager) → Live s → Live (output_entered env g o s)
unfolding output_entered group_send_output
output_entered-Live env g o s h = elim (Bool-cases (has_output s g o)) [
  | inl e ↦ rw (e, output_entered) h
  | inr e ↦
      rw (e, output_entered)
        (update_group-Live g (λ k. record k { outputs = o ∷ k.outputs }) s (λ k. refl) h)
]

pub output_left-Live : (env : Env) (g o : ℕ) (s : Manager) → Live s → Live (output_left env g o s)
unfolding output_left group_send_output
output_left-Live env g o s h = elim (Bool-cases (has_output s g o)) [
  | inl e ↦
      rw (e, output_left)
        (update_group-Live g (λ k. record k { outputs = erase o k.outputs }) s (λ k. refl) h)
  | inr e ↦ rw (e, output_left) h
]
