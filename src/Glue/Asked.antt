-- ===== src/Glue/Asked.antt =====
-- What an output shows after a client of ext-workspace activated or deactivated a tag.
use Prim.Native.Nat.{bit_xor}
use monowm.Base.{
  ℕ, ◌+◌, ◌-◌, ◌<◌, ◌≤◌, ◌≡◌, refl, sym, ap, subst, ◌∙◌, inl, inr, ◌⊎◌, true, false, Option, none,
  some, List, [], ◌∷◌, if◌then◌else◌, shares, shares-pow, bit_and, and_low, pow-lt, pow_pos,
  test_bit, test_bit-xor, arith, Bool-cases, eq_of_test_bit, test_bit-zero,
}
use monowm.Ext.State.{Request, create_workspace, activate, deactivate, assign, remove}
use monowm.Wm.State.{Server, Monitor, tagset, find_mon, selected, tag_mask, tagcount}
use monowm.Wm.Tags.{view, toggleview}
use monowm.Wm.Showing.{Shows, view-Shows, toggleview_lem}
use monowm.Wm.Safe.{IsTagged}
use monowm.Wm.Actions.{view-IsTagged, toggleview-IsTagged}
use monowm.Glue.Desk.{ExtWorkspace, tag_bit}
use monowm.Glue.Commit.{
  find_handle, select, activate_at, deactivate_at, is_shown, handle_request, handle_ext_commit,
}

-- The tags are counted from 1.
abbrev pub IsTag : ℕ → Type 0
IsTag tag = (1 ≤ tag) × (tag ≤ tagcount)

tag_bit-masked : (tag : ℕ) → IsTag tag → bit_and (tag_bit tag) tag_mask ≡ tag_bit tag
tag_bit-masked tag h = and_low tagcount (tag_bit tag) (pow-lt tagcount (tag - 1) (omega arith))

selected-select : (s : Server) (k : ℕ) → selected (select k s) ≡ find_mon s k
unfolding selected
selected-select s k = refl

activated :
    (ws : List ExtWorkspace) (h : ℕ) (w : ExtWorkspace) (s : Server)
    → find_handle ws (some h) ≡ some w
    → handle_ext_commit ws (activate (some h) ∷ []) s ≡ view (select w.m s) (tag_bit w.tag)
unfolding handle_ext_commit handle_request activate_at
activated ws h w s found = ap (λ (o : Option ExtWorkspace). activate_at o s) found

-- If a client of ext-workspace commits the request to activate the workspace of a tag whose
-- output exists, the selected output shows exactly this tag afterwards.
pub commit-activate :
    (ws : List ExtWorkspace) (h : ℕ) (w : ExtWorkspace) (s : Server) (m : Monitor)
    → find_handle ws (some h) ≡ some w
    → find_mon s w.m ≡ some m
    → IsTag w.tag
    → Shows (handle_ext_commit ws (activate (some h) ∷ []) s) (tag_bit w.tag)
commit-activate ws h w s m found here t =
    let masked = tag_bit-masked w.tag t in
    subst (λ (r : Server). Shows r (tag_bit w.tag)) (sym (activated ws h w s found))
      (subst (λ (v : ℕ). Shows (view (select w.m s) (tag_bit w.tag)) v) masked
        (view-Shows (select w.m s) m (tag_bit w.tag) (selected-select s w.m ∙ here)
          (subst (λ (v : ℕ). 0 < v) (sym masked) (pow_pos (w.tag - 1)))))

deactivated :
    (ws : List ExtWorkspace) (h : ℕ) (w : ExtWorkspace) (s : Server)
    → find_handle ws (some h) ≡ some w
    → handle_ext_commit ws (deactivate (some h) ∷ []) s
      ≡ (if is_shown (find_mon s w.m) w.tag then toggleview (select w.m s) (tag_bit w.tag) else s)
unfolding handle_ext_commit handle_request deactivate_at
deactivated ws h w s found = ap (λ (o : Option ExtWorkspace). deactivate_at o s) found

xor_zero : (a b : ℕ) → bit_xor a b ≡ 0 → a ≡ b
xor_zero a b e =
    eq_of_test_bit (a + b) a b (omega arith) (omega arith)
      λ i. ground (arith, test_bit-xor a b i, ap (λ (v : ℕ). test_bit v i) e, test_bit-zero i)

-- If a client of ext-workspace commits the request to deactivate the workspace of a tag whose
-- output exists, then nothing happens where the output does not show the tag; where it shows
-- this tag alone, the output is selected and nothing else happens; otherwise the selected output
-- shows the tags that it showed but this one.
pub commit-deactivate :
    (ws : List ExtWorkspace) (h : ℕ) (w : ExtWorkspace) (s : Server) (m : Monitor)
    → find_handle ws (some h) ≡ some w
    → find_mon s w.m ≡ some m
    → IsTag w.tag
    → ((test_bit (tagset m) (w.tag - 1) ≡ false)
        × (handle_ext_commit ws (deactivate (some h) ∷ []) s ≡ s))
      ⊎ ((tagset m ≡ tag_bit w.tag)
          × (handle_ext_commit ws (deactivate (some h) ∷ []) s ≡ select w.m s))
      ⊎ ((test_bit (tagset m) (w.tag - 1) ≡ true)
          × (0 < bit_xor (tagset m) (tag_bit w.tag))
          × Shows
              (handle_ext_commit ws (deactivate (some h) ∷ []) s)
              (bit_xor (tagset m) (tag_bit w.tag)))
commit-deactivate ws h w s m found here t = elim (Bool-cases (test_bit (tagset m) (w.tag - 1))) [
  | inr e ↦ inl (e, ran ∙ rw (bit, e) refl)
  | inl e ↦
      let toggled = ran ∙ rw (bit, e) refl in
      inr (elim (toggleview_lem (select w.m s) m (tag_bit w.tag) (selected-select s w.m ∙ here)) [
        | inl (z, same) ↦ inl (
          xor_zero (tagset m) (tag_bit w.tag) (sym (ap (bit_xor (tagset m)) masked) ∙ z),
          toggled ∙ same,
        )
        | inr (z, shows) ↦ inr (
          e,
          subst (λ (v : ℕ). 0 < bit_xor (tagset m) v) masked z,
          subst (λ (r : Server). Shows r (bit_xor (tagset m) (tag_bit w.tag))) (sym toggled)
              (subst
                (λ (v : ℕ).
                  Shows (toggleview (select w.m s) (tag_bit w.tag)) (bit_xor (tagset m) v))
                masked shows),
        )
      ])
]
  where
    masked : bit_and (tag_bit w.tag) tag_mask ≡ tag_bit w.tag
    masked = tag_bit-masked w.tag t

    bit : shares (tagset m) (tag_bit w.tag) ≡ test_bit (tagset m) (w.tag - 1)
    bit = shares-pow (tagset m) (w.tag - 1)

    ran : handle_ext_commit ws (deactivate (some h) ∷ []) s ≡ (
        if shares (tagset m) (tag_bit w.tag) then toggleview (select w.m s) (tag_bit w.tag) else s)
    ran =
        deactivated ws h w s found
        ∙ ap
            (λ (o : Option Monitor).
              if is_shown o w.tag then toggleview (select w.m s) (tag_bit w.tag) else s)
            here

activate_at-IsTagged :
    (o : Option ExtWorkspace) (s : Server) → IsTagged s → IsTagged (activate_at o s)
unfolding activate_at
activate_at-IsTagged none s h = h
activate_at-IsTagged (some w) s h = view-IsTagged (select w.m s) (tag_bit w.tag) h

deactivate_at-IsTagged :
    (o : Option ExtWorkspace) (s : Server) → IsTagged s → IsTagged (deactivate_at o s)
unfolding deactivate_at
deactivate_at-IsTagged none s h = h
deactivate_at-IsTagged (some w) s h = elim (Bool-cases (is_shown (find_mon s w.m) w.tag)) [
  | inl e ↦ rw e (toggleview-IsTagged (select w.m s) (tag_bit w.tag) h)
  | inr e ↦ rw e h
]

handle_request-IsTagged :
    (ws : List ExtWorkspace) (r : Request) (s : Server)
    → IsTagged s
    → IsTagged (handle_request ws r s)
unfolding handle_request
handle_request-IsTagged ws (activate k) s h = activate_at-IsTagged (find_handle ws k) s h
handle_request-IsTagged ws (deactivate k) s h = deactivate_at-IsTagged (find_handle ws k) s h
handle_request-IsTagged ws (create_workspace g t) s h = h
handle_request-IsTagged ws (assign g k) s h = h
handle_request-IsTagged ws (remove k) s h = h

-- The requests of a commit keep the tag sets sound.
pub handle_ext_commit-IsTagged :
    (ws : List ExtWorkspace) (rs : List Request) (s : Server)
    → IsTagged s
    → IsTagged (handle_ext_commit ws rs s)
unfolding handle_ext_commit
handle_ext_commit-IsTagged ws [] s h = h
handle_ext_commit-IsTagged ws (r ∷ rs) s h =
    handle_ext_commit-IsTagged ws rs (handle_request ws r s) (handle_request-IsTagged ws r s h)
