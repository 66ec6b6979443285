-- ===== src/Glue/Coming.antt =====
-- An output that comes and goes again, in include/mono/ext.h.
use monowm.Base.{
  ℕ, zero, suc, ◌≡◌, refl, sym, ap, ◌∙◌, Bool, false, not, List, [], ◌∷◌, ◌++◌, ◌==◌, map, keep,
  keep-append, any_of, append_assoc, append-nil, ==_refl, arith,
}
use monowm.Ext.State.{Env}
use monowm.Wm.State.{tagcount}
use monowm.Status.Send.{Texts}
use monowm.Glue.Desk.{
  Desk, ExtWorkspace, ext_workspace_create, create_tags, with_group, ext_workspace_createmon,
  ext_workspace_cleanupmon,
}

-- The tags of an output's workspaces, in order.
abbrev pub tags_shown : ℕ → Desk → List ℕ
tags_shown m d =
    map (λ (w : ExtWorkspace). w.tag) (keep (λ (w : ExtWorkspace). w.m == m) d.ext_workspaces)

abbrev others : ℕ → Desk → List ExtWorkspace
others m d = keep (λ (w : ExtWorkspace). not (w.m == m)) d.ext_workspaces

-- Consecutive tags, from one on.
abbrev pub tags_from : ℕ → ℕ → List ℕ
tags_from zero i = []
tags_from (suc n) i = i ∷ tags_from n (suc i)

map-tag_append :
    (xs ys : List ExtWorkspace)
    → map (λ (w : ExtWorkspace). w.tag) (xs ++ ys)
      ≡ map (λ (w : ExtWorkspace). w.tag) xs ++ map (λ (w : ExtWorkspace). w.tag) ys
map-tag_append [] ys = refl
map-tag_append (x ∷ xs) ys = rw (map-tag_append xs ys) refl

keep-none :
    (p : ExtWorkspace → Bool) (ws : List ExtWorkspace)
    → any_of p ws ≡ false
    → (keep p ws ≡ []) × (keep (λ w. not (p w)) ws ≡ ws)
keep-none p [] e = (refl, refl)
keep-none p (w ∷ ws) e = ground (arith, keep-none p ws)

module _ (T : Texts) (m : ℕ) where
  created-others : (i : ℕ) (d : Desk) → others m (ext_workspace_create T i m d) ≡ others m d
  unfolding ext_workspace_create
  created-others i d =
      keep-append (λ (w : ExtWorkspace). not (w.m == m)) d.ext_workspaces
        (record { tag = i; m = m; handle = d.manager.next } ∷ [])
      ∙ rw (==_refl m) (append-nil (others m d))

  created-tags :
      (i : ℕ) (d : Desk) → tags_shown m (ext_workspace_create T i m d) ≡ tags_shown m d ++ i ∷ []
  unfolding ext_workspace_create
  created-tags i d =
      let w : ExtWorkspace = record { tag = i; m = m; handle = d.manager.next } in
      ap (map (λ (x : ExtWorkspace). x.tag))
        (keep-append (λ (x : ExtWorkspace). x.m == m) d.ext_workspaces (w ∷ []))
      ∙ map-tag_append (keep (λ (x : ExtWorkspace). x.m == m) d.ext_workspaces)
          (keep (λ (x : ExtWorkspace). x.m == m) (w ∷ []))
      ∙ rw (==_refl m) refl

  create_tags-others : (n i : ℕ) (d : Desk) → others m (create_tags T n i m d) ≡ others m d
  unfolding create_tags
  create_tags-others zero i d = refl
  create_tags-others (suc n) i d =
      create_tags-others n (suc i) (ext_workspace_create T i m d) ∙ created-others i d

  create_tags-tags :
      (n i : ℕ) (d : Desk) → tags_shown m (create_tags T n i m d) ≡ tags_shown m d ++ tags_from n i
  unfolding create_tags
  create_tags-tags zero i d = sym (append-nil (tags_shown m d))
  create_tags-tags (suc n) i d =
      create_tags-tags n (suc i) (ext_workspace_create T i m d)
      ∙ ap (λ (ts : List ℕ). ts ++ tags_from n (suc i)) (created-tags i d)
      ∙ append_assoc (tags_shown m d) (i ∷ []) (tags_from n (suc i))

  -- If an output has no workspaces yet, it has one for each of the nine tags, in order, after it
  -- comes, and if it then goes, the list of workspaces is the one from before.
  pub cleanupmon-createmon :
      (env : Env) (d : Desk)
      → any_of (λ (w : ExtWorkspace). w.m == m) d.ext_workspaces ≡ false
      → (tags_shown m (ext_workspace_createmon T env m d) ≡ tags_from tagcount 1)
        × ((ext_workspace_cleanupmon env m (ext_workspace_createmon T env m d)).ext_workspaces
            ≡ d.ext_workspaces)
  unfolding ext_workspace_createmon ext_workspace_cleanupmon with_group
  cleanupmon-createmon env d e =
      let (none_yet, all_other) = keep-none (λ (w : ExtWorkspace). w.m == m) d.ext_workspaces e in
      (
        create_tags-tags tagcount 1 (with_group env m d)
            ∙ ap
                (λ (ws : List ExtWorkspace).
                  map (λ (w : ExtWorkspace). w.tag) ws ++ tags_from tagcount 1)
                none_yet,
        create_tags-others tagcount 1 (with_group env m d) ∙ all_other,
      )
