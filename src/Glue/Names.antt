-- ===== src/Glue/Names.antt =====
-- The names of new objects under the calls of src/workspace.c that include/mono/ext.h makes.
use monowm.Base.{
  ℕ, ◌<◌, ◌≤◌, ◌≡◌, refl, ◌∙◌, inl, inr, Bool, true, false, Option, none, some, List, [], ◌∷◌,
  arith, Bool-cases,
}
use monowm.Ext.State.{Manager, ManagerResource, Env, Workspace, Group}
use monowm.Ext.Groups.{
  group_create, output_entered, output_left, announce_group, announce_group_all, group_send_output,
  has_output,
}
use monowm.Ext.Workspaces.{
  workspace_create, workspace_destroy, set_group, set_name, set_group_of, find_workspace,
  announce_workspace, announce_workspace_all, send_group, same_group, has_text,
}
use monowm.Glue.Desk.{ExtWorkspace, destroy_all}

-- The names of new objects only grow.
announce_all-next :
    (w : Workspace) (ms : List ManagerResource) (s : Manager)
    → s.next ≤ (announce_workspace_all w ms s).next
unfolding announce_workspace_all announce_workspace
announce_all-next w [] s = omega arith
announce_all-next w (m ∷ ms) s = omega (arith, announce_all-next w ms (announce_workspace m.id w s))

pub create-next :
    (t : Option (List ℕ)) (caps : ℕ) (s : Manager) → s.next < (workspace_create t caps s).next
unfolding workspace_create
create-next t caps s = omega (arith, announce_all-next _ s.resources _)

pub set_name-next : (w : ℕ) (t : List ℕ) (s : Manager) → (set_name w t s).next ≡ s.next
unfolding set_name
set_name-next w t s = go (find_workspace s w) refl
  where
    go : (o : Option Workspace) → find_workspace s w ≡ o → (set_name w t s).next ≡ s.next
    go none e = rw (e, set_name) refl
    go (some v) e = elim (Bool-cases (has_text v.name t)) [
      | inl f ↦ rw (e, f, set_name) refl
      | inr f ↦ rw (e, f, set_name) refl
    ]

send_group-next :
    (w : ℕ) (g : Option ℕ) (b : Bool) (s : Manager) → (send_group w g b s).next ≡ s.next
send_group-next w none b s = refl
send_group-next w (some g) b s = refl

pub set_group-next : (w : ℕ) (g : Option ℕ) (s : Manager) → (set_group w g s).next ≡ s.next
unfolding set_group set_group_of
set_group-next w g s = go (find_workspace s w) refl
  where
    go : (o : Option Workspace) → find_workspace s w ≡ o → (set_group w g s).next ≡ s.next
    go none e = rw (e, set_group) refl
    go (some v) e = elim (Bool-cases (same_group v.group g)) [
      | inl f ↦ rw (e, f, set_group) refl
      | inr f ↦
          rw (e, f, set_group)
            (send_group-next v.id g true _ ∙ send_group-next v.id v.group false s)
    ]

announce_groups-next :
    (env : Env) (g : Group) (ms : List ManagerResource) (s : Manager)
    → s.next ≤ (announce_group_all env g ms s).next
unfolding announce_group_all announce_group
announce_groups-next env g [] s = omega arith
announce_groups-next env g (m ∷ ms) s =
    omega (arith, announce_groups-next env g ms (announce_group env m.id g s))

pub group_create-next :
    (env : Env) (caps : ℕ) (s : Manager) → s.next < (group_create env caps s).next
unfolding group_create
group_create-next env caps s = omega (arith, announce_groups-next env _ s.resources _)

pub entered-next : (env : Env) (g o : ℕ) (s : Manager) → (output_entered env g o s).next ≡ s.next
unfolding output_entered group_send_output
entered-next env g o s = elim (Bool-cases (has_output s g o)) [
  | inl e ↦ rw (e, output_entered) refl
  | inr e ↦ rw (e, output_entered) refl
]

pub left-next : (env : Env) (g o : ℕ) (s : Manager) → (output_left env g o s).next ≡ s.next
unfolding output_left group_send_output
left-next env g o s = elim (Bool-cases (has_output s g o)) [
  | inl e ↦ rw (e, output_left) refl
  | inr e ↦ rw (e, output_left) refl
]

pub destroy_all-next : (ws : List ExtWorkspace) (s : Manager) → (destroy_all ws s).next ≡ s.next
unfolding destroy_all workspace_destroy
destroy_all-next [] s = refl
destroy_all-next (w ∷ ws) s = destroy_all-next ws (workspace_destroy w.handle s)
