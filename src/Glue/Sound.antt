-- ===== src/Glue/Sound.antt =====
-- The handles that include/mono/ext.h keeps, as outputs come and go.
use monowm.Base.{
  ℕ, zero, suc, ◌<◌, ◌≡◌, refl, ◌∙◌, inl, inr, Bool, false, not, Option, none, some, List, [], ◌∷◌,
  ◌++◌, ◌==◌, map, keep, if◌then◌else◌, elem, elem-append, Distinct, All, All-append, All-map,
  All-of_keep, arith, Bool-cases,
}
use monowm.Ext.State.{Manager, Env}
use monowm.Ext.Groups.{group_create, group_destroy, output_left}
use monowm.Wm.State.{tagcount}
use monowm.Status.Send.{Texts}
use monowm.Glue.Desk.{
  Desk, ExtWorkspace, ext_workspace_create, create_tags, ext_workspace_createmon, with_group,
  ext_workspace_cleanupmon, destroy_all, drop_group, id_text, is_unique, ext_workspace_caps,
  tag_name,
}
use monowm.Glue.Names.{
  create-next, set_name-next, set_group-next, group_create-next, entered-next, left-next,
  destroy_all-next,
}

abbrev pub handles : Desk → List ℕ
handles d = map (λ (w : ExtWorkspace). w.handle) d.ext_workspaces

-- No two workspaces share a handle, and no handle is the name of an object to come.
pub record IsSound (d : Desk) : Type 0 where
  pub distinct : Distinct (handles d)
  pub below : All (λ (w : ExtWorkspace). w.handle < d.manager.next) d.ext_workspaces

elem-below :
    (k : ℕ) (ws : List ExtWorkspace)
    → All (λ (w : ExtWorkspace). w.handle < k) ws
    → elem k (map (λ (w : ExtWorkspace). w.handle) ws) ≡ false
elem-below k [] h = refl
elem-below k (w ∷ ws) h = ground (arith, elem-below k ws h.1, h.0)

Distinct-last : (xs : List ℕ) (k : ℕ) → Distinct xs → elem k xs ≡ false → Distinct (xs ++ k ∷ [])
Distinct-last [] k d e = (refl, tt)
Distinct-last (x ∷ xs) k d e =
    (ground (arith, elem-append x xs (k ∷ []), d.0), Distinct-last xs k d.1 (ground arith))

map-last :
    (ws : List ExtWorkspace) (w : ExtWorkspace)
    → map (λ (x : ExtWorkspace). x.handle) (ws ++ w ∷ [])
      ≡ map (λ (x : ExtWorkspace). x.handle) ws ++ w.handle ∷ []
map-last [] w = refl
map-last (x ∷ ws) w = rw (map-last ws w) refl

module _ (T : Texts) where
  created-next :
      (tag m : ℕ) (d : Desk) → d.manager.next < (ext_workspace_create T tag m d).manager.next
  unfolding ext_workspace_create
  created-next tag m d = omega (
    arith,
    set_name-next d.manager.next (tag_name tag) _,
    set_group-next d.manager.next (d.ext_group m) _,
    create-next
        (if is_unique d.manager d.ext_workspaces (id_text (T.output_name m) tag)
          then some (id_text (T.output_name m) tag)
          else none)
        ext_workspace_caps d.manager,
  )

  create-IsSound : (tag m : ℕ) (d : Desk) → IsSound d → IsSound (ext_workspace_create T tag m d)
  unfolding ext_workspace_create
  create-IsSound tag m d h =
      let more = created-next tag m d in
      let w : ExtWorkspace = record { tag = tag; m = m; handle = d.manager.next } in
      record {
        distinct = rw (map-last d.ext_workspaces w) (
            Distinct-last (handles d) d.manager.next h.distinct
              (elem-below d.manager.next d.ext_workspaces h.below));
        below =
            All-append
              (λ (x : ExtWorkspace). x.handle < (ext_workspace_create T tag m d).manager.next)
              d.ext_workspaces (w ∷ [])
              (All-map (λ (x : ExtWorkspace). x.handle < d.manager.next)
                (λ (x : ExtWorkspace). x.handle < (ext_workspace_create T tag m d).manager.next)
                (λ x p. omega (arith, more, p)) d.ext_workspaces h.below)
              (more, tt);
      }

  create_tags-IsSound : (n i m : ℕ) (d : Desk) → IsSound d → IsSound (create_tags T n i m d)
  unfolding create_tags
  create_tags-IsSound zero i m d h = h
  create_tags-IsSound (suc n) i m d h =
      create_tags-IsSound n (suc i) m (ext_workspace_create T i m d) (create-IsSound i m d h)

with_group-IsSound : (env : Env) (m : ℕ) (d : Desk) → IsSound d → IsSound (with_group env m d)
unfolding with_group
with_group-IsSound env m d h = record {
  distinct = h.distinct;
  below =
      All-map (λ (x : ExtWorkspace). x.handle < d.manager.next)
        (λ (x : ExtWorkspace). x.handle < (with_group env m d).manager.next)
        (λ x p. omega (
          arith,
          p,
          entered-next env d.manager.next m (group_create env 0 d.manager),
          group_create-next env 0 d.manager,
        ))
        d.ext_workspaces h.below;
}

pub createmon-IsSound :
    (T : Texts) (env : Env) (m : ℕ) (d : Desk)
    → IsSound d
    → IsSound (ext_workspace_createmon T env m d)
unfolding ext_workspace_createmon
createmon-IsSound T env m d h =
    create_tags-IsSound T tagcount 1 m (with_group env m d) (with_group-IsSound env m d h)

elem-keep_handles :
    (p : ExtWorkspace → Bool) (k : ℕ) (ws : List ExtWorkspace)
    → elem k (map (λ (w : ExtWorkspace). w.handle) ws) ≡ false
    → elem k (map (λ (w : ExtWorkspace). w.handle) (keep p ws)) ≡ false
elem-keep_handles p k [] e = refl
elem-keep_handles p k (w ∷ ws) e = ground (arith, elem-keep_handles p k ws)

Distinct-keep :
    (p : ExtWorkspace → Bool) (ws : List ExtWorkspace)
    → Distinct (map (λ (w : ExtWorkspace). w.handle) ws)
    → Distinct (map (λ (w : ExtWorkspace). w.handle) (keep p ws))
Distinct-keep p [] d = tt
Distinct-keep p (w ∷ ws) d = elim (Bool-cases (p w)) [
  | inl e ↦ rw e (elem-keep_handles p w.handle ws d.0, Distinct-keep p ws d.1)
  | inr e ↦ rw e (Distinct-keep p ws d.1)
]

group_destroy-next : (g : ℕ) (s : Manager) → (group_destroy g s).next ≡ s.next
unfolding group_destroy
group_destroy-next g s = refl

drop_group-next :
    (env : Env) (g : Option ℕ) (m : ℕ) (s : Manager) → (drop_group env g m s).next ≡ s.next
drop_group-next env none m s = refl
drop_group-next env (some g) m s =
    group_destroy-next g (output_left env g m s) ∙ left-next env g m s

pub cleanupmon-IsSound :
    (env : Env) (m : ℕ) (d : Desk) → IsSound d → IsSound (ext_workspace_cleanupmon env m d)
unfolding ext_workspace_cleanupmon
cleanupmon-IsSound env m d h =
    let gone = keep (λ (w : ExtWorkspace). w.m == m) d.ext_workspaces in
    let same : (ext_workspace_cleanupmon env m d).manager.next ≡ d.manager.next =
      drop_group-next env (d.ext_group m) m (destroy_all gone d.manager)
      ∙ destroy_all-next gone d.manager in
    record {
      distinct = Distinct-keep (λ (w : ExtWorkspace). not (w.m == m)) d.ext_workspaces h.distinct;
      below =
          All-of_keep (λ (x : ExtWorkspace). x.handle < d.manager.next)
            (λ (x : ExtWorkspace). x.handle < (ext_workspace_cleanupmon env m d).manager.next)
            (λ (w : ExtWorkspace). not (w.m == m)) (λ x e p. omega (arith, same, p))
            d.ext_workspaces h.below;
    }
