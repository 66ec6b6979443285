-- ===== src/Glue/Told.antt =====
-- What clients of ext-workspace see of an output's tags after status_emit (src/main.c) told them.
use monowm.Base.{
  ℕ, ◌-◌, ◌^◌, ◌<◌, ◌≡◌, refl, sym, ap, subst, ◌∙◌, inl, inr, Bool, true, false, not, Option, none,
  some, List, [], ◌∷◌, ◌==◌, map, if◌then◌else◌, find_by, elem, Distinct, any_of, shares,
  shares-pow, bit_and, and_low, and-lt, pow-lt, test_bit, arith, Bool-cases, ==_iff,
}
use monowm.Ext.State.{Manager, Workspace}
use monowm.Ext.Workspaces.{set_state, find_workspace, with_bit}
use monowm.Ext.Delivery.{set_state-test_bit}
use monowm.Wm.State.{Monitor, tagset, tag_mask, tagcount}
use monowm.Status.Collect.{MonitorStatus, status_collect, status_collect_lem, urgent_on_tag}
use monowm.Status.Send.{Texts}
use monowm.Glue.Desk.{
  Desk, emit_mon, ExtWorkspace, tag_bit, get_tag_status, tell_workspace, ext_workspace_printstatus,
  state_active, state_urgent, state_hidden,
}
use monowm.Glue.Commit.{find_handle}
use monowm.Glue.Asked.{IsTag}

find_by-other :
    (f : Workspace → Workspace) (k j : ℕ) (same : (v : Workspace) → (f v).id ≡ v.id)
    (vs : List Workspace)
    → (k == j) ≡ false
    → find_by (λ v. v.id == j) (map (λ v. if v.id == k then f v else v) vs)
      ≡ find_by (λ v. v.id == j) vs
find_by-other f k j same [] e = refl
find_by-other f k j same (v ∷ vs) e = elim (Bool-cases (v.id == k)) [
  | inl g ↦
      let other : (v.id == j) ≡ false = ground (arith, g, e) in
      rw (g, same v, other) (find_by-other f k j same vs e)
  | inr g ↦ rw g (rw (find_by-other f k j same vs e) refl)
]

-- Telling one workspace of its state leaves the others alone.
set_state-other :
    (k bit j : ℕ) (b : Bool) (s : Manager)
    → (k == j) ≡ false
    → find_workspace (set_state k bit b s) j ≡ find_workspace s j
unfolding set_state
set_state-other k bit j b s e = go (find_workspace s k) refl
  where
    go :
        (o : Option Workspace)
        → find_workspace s k ≡ o
        → find_workspace (set_state k bit b s) j ≡ find_workspace s j
    go none f = rw (f, set_state) refl
    go (some v) f = elim (Bool-cases (v.state == with_bit v.state bit b)) [
      | inl g ↦ rw (f, g, set_state) refl
      | inr g ↦
          rw (f, g, set_state)
            (find_by-other (λ u. record u { state = with_bit v.state bit b }) k j (λ u. refl)
              s.workspaces e)
    ]

module _ (m : Monitor) (st : MonitorStatus) where
  abbrev after_urgent : ExtWorkspace → Manager → Manager
  after_urgent w mgr = set_state w.handle state_urgent (get_tag_status w.tag st == 2) mgr

  abbrev after_hidden : ExtWorkspace → Manager → Manager
  after_hidden w mgr = set_state w.handle state_hidden false (after_urgent w mgr)

  abbrev is_active : ExtWorkspace → Bool
  is_active w = shares (bit_and (tagset m) (tag_bit w.tag)) tag_mask

  tell-other :
      (w : ExtWorkspace) (j : ℕ) (mgr : Manager)
      → (w.handle == j) ≡ false
      → find_workspace (tell_workspace m st w mgr) j ≡ find_workspace mgr j
  unfolding tell_workspace
  tell-other w j mgr e =
      set_state-other w.handle state_active j (is_active w) (after_hidden w mgr) e
      ∙ set_state-other w.handle state_hidden j false (after_urgent w mgr) e
      ∙ set_state-other w.handle state_urgent j (get_tag_status w.tag st == 2) mgr e

  printstatus-other :
      (ws : List ExtWorkspace) (j : ℕ) (mgr : Manager)
      → elem j (map (λ (w : ExtWorkspace). w.handle) ws) ≡ false
      → find_workspace (ext_workspace_printstatus m st ws mgr) j ≡ find_workspace mgr j
  unfolding ext_workspace_printstatus
  printstatus-other [] j mgr e = refl
  printstatus-other (w ∷ ws) j mgr e =
      let here : (w.handle == j) ≡ false = ground arith in
      let later : elem j (map (λ (v : ExtWorkspace). v.handle) ws) ≡ false = ground arith in
      elim (Bool-cases (w.m == m.id)) [
        | inl f ↦
            rw (f, ext_workspace_printstatus)
              (printstatus-other ws j (tell_workspace m st w mgr) later ∙ tell-other w j mgr here)
        | inr f ↦ rw (f, ext_workspace_printstatus) (printstatus-other ws j mgr later)
      ]

  -- The three bits that a workspace is told.
  abbrev pub Told : ExtWorkspace → Option Workspace → Type 0
  Told w o =
      (u : Workspace) × (o ≡ some u)
      × (test_bit u.state 0 ≡ test_bit (tagset m) (w.tag - 1))
      × (test_bit u.state 1 ≡ test_bit st.urgent (w.tag - 1))
      × (test_bit u.state 2 ≡ false)

  active-test_bit :
      (i : ℕ) → i < tagcount → shares (bit_and (tagset m) (2 ^ i)) tag_mask ≡ test_bit (tagset m) i
  active-test_bit i l =
      ap (λ (a : ℕ). not (a == 0))
        (and_low tagcount (bit_and (tagset m) (2 ^ i))
          (and-lt tagcount (tagset m) (2 ^ i) (pow-lt tagcount i l)))
      ∙ shares-pow (tagset m) i

  urgent-test_bit : (tag : ℕ) → (get_tag_status tag st == 2) ≡ test_bit st.urgent (tag - 1)
  unfolding get_tag_status
  urgent-test_bit tag = ground (arith, shares-pow st.urgent (tag - 1))

  tell-Told :
      (w : ExtWorkspace) (v : Workspace) (mgr : Manager)
      → IsTag w.tag
      → find_workspace mgr w.handle ≡ some v
      → Told w (find_workspace (tell_workspace m st w mgr) w.handle)
  unfolding tell_workspace
  tell-Told w v mgr t found =
      let (a, found_a, bits_a) =
        set_state-test_bit w.handle 1 (get_tag_status w.tag st == 2) mgr v found in
      let (b, found_b, bits_b) =
        set_state-test_bit w.handle 2 false (after_urgent w mgr) a found_a in
      let (c, found_c, bits_c) =
        set_state-test_bit w.handle 0 (is_active w) (after_hidden w mgr) b found_b in
      (
        c,
        found_c,
        bits_c 0 ∙ active-test_bit (w.tag - 1) (omega arith),
        bits_c 1 ∙ bits_b 1 ∙ bits_a 1 ∙ urgent-test_bit w.tag,
        bits_c 2 ∙ bits_b 2,
      )

  printstatus-Told :
      (ws : List ExtWorkspace) (w : ExtWorkspace) (v : Workspace) (mgr : Manager)
      → Distinct (map (λ (x : ExtWorkspace). x.handle) ws)
      → find_handle ws (some w.handle) ≡ some w
      → w.m ≡ m.id
      → IsTag w.tag
      → find_workspace mgr w.handle ≡ some v
      → Told w (find_workspace (ext_workspace_printstatus m st ws mgr) w.handle)
  unfolding ext_workspace_printstatus find_handle
  printstatus-Told [] w v mgr d f on t found = cc
  printstatus-Told (x ∷ ws) w v mgr d f on t found = elim (Bool-cases (x.handle == w.handle)) [
    | inl e ↦
        let same : x ≡ w = (let q = rw e at f in cc) in
        let shown : (w.m == m.id) ≡ true = (==_iff w.m m.id).1 on in
        rw (same, shown, ext_workspace_printstatus)
          (subst (λ (o : Option Workspace). Told w o)
            (sym (printstatus-other ws w.handle (tell_workspace m st w mgr) (rw same at d.0)))
            (tell-Told w v mgr t found))
    | inr e ↦
        let rest = rw e at f in
        elim (Bool-cases (x.m == m.id)) [
          | inl g ↦
              rw (g, ext_workspace_printstatus)
                (printstatus-Told ws w v (tell_workspace m st x mgr) d.1 rest on t
                  (tell-other x w.handle mgr e ∙ found))
          | inr g ↦
              rw (g, ext_workspace_printstatus) (printstatus-Told ws w v mgr d.1 rest on t found)
        ]
  ]

-- After a round of status_emit for an output, the handle of each of its tags, among handles of
-- which no two are the same, has the state active exactly if the output shows the tag, urgent
-- exactly if an urgent window of the output has the tag, and is not hidden.
pub emit_mon-Told :
    (T : Texts) (m : Monitor) (d : Desk) (w : ExtWorkspace) (v : Workspace)
    → Distinct (map (λ (x : ExtWorkspace). x.handle) d.ext_workspaces)
    → find_handle d.ext_workspaces (some w.handle) ≡ some w
    → w.m ≡ m.id
    → IsTag w.tag
    → find_workspace d.manager w.handle ≡ some v
    → (u : Workspace) × (find_workspace (emit_mon T m d).manager w.handle ≡ some u)
      × (test_bit u.state 0 ≡ test_bit (tagset m) (w.tag - 1))
      × (test_bit u.state 1 ≡ any_of (urgent_on_tag m (w.tag - 1)) d.server.clients)
      × (test_bit u.state 2 ≡ false)
unfolding emit_mon
emit_mon-Told T m d w v distinct found on t known =
    let (u, there, shown, urg, hid) =
      printstatus-Told m (status_collect d.server m) d.ext_workspaces w v d.manager distinct found
        on t known in
    (u, there, shown, urg ∙ (status_collect_lem d.server m (w.tag - 1) (omega arith)).1, hid)
