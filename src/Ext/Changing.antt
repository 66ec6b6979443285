-- ===== src/Ext/Changing.antt =====
-- References in the store of src/workspace.c when a workspace is changed in place.
use monowm.Base.{
  All-of_map, map-same, ℕ, ◌≡◌, refl, Bool, true, false, Option, none, some, List, ◌==◌,
  if◌then◌else◌, arith, Bool-cases, Option-cases, inl, inr,
}
use monowm.Ext.State.{Manager, Workspace, Event, name, coordinates, state}
use monowm.Ext.Workspaces.{
  update_workspace, find_workspace, tell, set_group, set_group_of, send_group, same_group, set_name,
  has_text, set_coordinates, same_text, set_state, with_bit,
}
use monowm.Ext.Live.{Known, Live, group_ids, workspace_ids, manager_ids}
use monowm.Ext.Adding.{settled}

-- Changing a workspace in place: its id is kept, and its group is known.
update_workspace-Live :
    (w : ℕ) (f : Workspace → Workspace) (s : Manager)
    → ((v : Workspace) → (f v).id ≡ v.id)
    → ((v : Workspace) → Known (group_ids s) v.group → Known (group_ids s) (f v).group)
    → Live s
    → Live (update_workspace w f s)
update_workspace-Live w f s keeps known h =
    settled (group_ids s) (workspace_ids s) (manager_ids s) (update_workspace w f s)
      (
        refl,
        map-same (λ (k : Workspace). k.id) (λ k. if k.id == w then f k else k)
            (λ k. ground (arith, keeps k)) s.workspaces,
        refl,
      )
      (record {
        groups_held = h.groups_held;
        workspaces_held = h.workspaces_held;
        entered =
            All-of_map (λ (v : Workspace). Known (group_ids s) v.group)
              (λ (v : Workspace). Known (group_ids s) v.group) (λ v. if v.id == w then f v else v)
              (λ v p. elim (Bool-cases (v.id == w)) [ inl e ↦ rw e (known v p) | inr e ↦ rw e p ])
              s.workspaces h.entered;
        asked = h.asked;
      })

tell-Live :
    (w : ℕ) (f : Workspace → Workspace) (event : ℕ → Event) (s : Manager)
    → ((v : Workspace) → (f v).id ≡ v.id)
    → ((v : Workspace) → (f v).group ≡ v.group)
    → Live s
    → Live (tell w f event s)
tell-Live w f event s keeps same h = update_workspace-Live w f s keeps (λ v p. rw (same v) p) h

pub set_name-Live : (w : ℕ) (t : List ℕ) (s : Manager) → Live s → Live (set_name w t s)
unfolding set_name
set_name-Live w t s h = elim (Option-cases (find_workspace s w)) [
  | inl e ↦ rw (e, set_name) h
  | inr (v, e) ↦ elim (Bool-cases (has_text v.name t)) [
    | inl f ↦ rw (e, f, set_name) h
    | inr f ↦
        rw (e, f, set_name)
          (tell-Live w (λ u. record u { name = some t }) (λ r. name r t) s (λ u. refl) (λ u. refl)
            h)
  ]
]

pub set_coordinates-Live :
    (w : ℕ) (cs : List ℕ) (s : Manager) → Live s → Live (set_coordinates w cs s)
unfolding set_coordinates
set_coordinates-Live w cs s h = elim (Option-cases (find_workspace s w)) [
  | inl e ↦ rw (e, set_coordinates) h
  | inr (v, e) ↦ elim (Bool-cases (same_text cs v.coordinates)) [
    | inl f ↦ rw (e, f, set_coordinates) h
    | inr f ↦
        rw (e, f, set_coordinates)
          (tell-Live w (λ u. record u { coordinates = cs }) (λ r. coordinates r cs) s (λ u. refl)
            (λ u. refl) h)
  ]
]

pub set_state-Live : (w bit : ℕ) (b : Bool) (s : Manager) → Live s → Live (set_state w bit b s)
unfolding set_state
set_state-Live w bit b s h = elim (Option-cases (find_workspace s w)) [
  | inl e ↦ rw (e, set_state) h
  | inr (v, e) ↦ elim (Bool-cases (v.state == with_bit v.state bit b)) [
    | inl f ↦ rw (e, f, set_state) h
    | inr f ↦
        rw (e, f, set_state)
          (tell-Live w (λ u. record u { state = with_bit v.state bit b })
            (λ r. state r (with_bit v.state bit b)) s (λ u. refl) (λ u. refl) h)
  ]
]

send_group-Live :
    (w : ℕ) (g : Option ℕ) (b : Bool) (s : Manager) → Live s → Live (send_group w g b s)
send_group-Live w none b s h = h
send_group-Live w (some g) b s h = h

send_group-ids :
    (w : ℕ) (g : Option ℕ) (b : Bool) (s : Manager) → group_ids (send_group w g b s) ≡ group_ids s
send_group-ids w none b s = refl
send_group-ids w (some g) b s = refl

pub set_group-Live :
    (w : ℕ) (g : Option ℕ) (s : Manager) → Known (group_ids s) g → Live s → Live (set_group w g s)
unfolding set_group set_group_of
set_group-Live w g s k h = elim (Option-cases (find_workspace s w)) [
  | inl e ↦ rw (e, set_group) h
  | inr (v, e) ↦ elim (Bool-cases (same_group v.group g)) [
    | inl f ↦ rw (e, set_group) (rw f h)
    | inr f ↦
        rw (e, set_group)
          (rw f (
            send_group-Live v.id g true _ (
              update_workspace-Live v.id (λ u. record u { group = g })
                (send_group v.id v.group false s) (λ u. refl)
                (λ u p. rw (send_group-ids v.id v.group false s) k)
                (send_group-Live v.id v.group false s h))))
  ]
]
