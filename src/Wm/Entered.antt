-- ===== src/Wm/Entered.antt =====
-- Tag sets under mapnotify of src/main.c.
use monowm.Base.{
  ℕ, ◌^◌, ◌<◌, ◌≡◌, refl, sym, subst, inl, inr, true, false, ◌&&◌, ◌||◌, Option, none, some, List,
  [], ◌∷◌, ◌==◌, ==_refl, shares, All, arith, Option-cases, map-same,
}
use monowm.Config.Types.{CfgRule}
use monowm.Wm.State.{
  Client, Monitor, Server, find_client, find_mon, update_client, opt_eq, tagset, tagcount,
}
use monowm.Wm.Arrange.{canvas_layout, enter_canvas, client_ids}
use monowm.Wm.Tags.{with_sel}
use monowm.Wm.Windows.{setmon, setfullscreen, mon_of}
use monowm.Wm.Safe.{IsTagged}
use monowm.Wm.Actions.{with_sel-IsTagged, find_mon-IsTagset}
use monowm.Wm.Closing.{found-tags}
use monowm.Wm.Moves.{setfullscreen-IsTagged}
use monowm.Wm.Pressing.{if-IsTagged}
use monowm.Wm.Rules.{ruled, start, applyrules}
use monowm.Wm.Ruling.{ruled-tags}
use monowm.Wm.Mapping.{
  Mapped, listed, place_mapped, lay_canvas, or_under, hides, unset_fullscreen, after_placing,
  mapnotify,
}
use monowm.Wm.Entering.{entered, enter_canvas-tags, setmon_first-IsTagged}

nowhere : {j : ℕ} → none ≡ some j → ⊥
nowhere e = cc

-- The output that a window is mapped on.
abbrev pub target_of : List CfgRule → Mapped → Server → Client → Option ℕ → Option ℕ
target_of rules e s c none = (ruled s.mons e.title e.appid rules (start s c)).mon
target_of rules e s c (some p) = elim (find_client s p) [ none ↦ none | some q ↦ q.mon ]

module _ (rules : List CfgRule) (e : Mapped) (s : Server) (c : Client) (j : ℕ) (m : Monitor) where
  abbrev fresh : Server
  fresh = listed (record c { mon = none }) s

  found_fresh : find_client fresh c.id ≡ some (record c { mon = none })
  found_fresh = rw (==_refl c.id) refl

  rules-IsTagged :
      All (λ (r : CfgRule). r.tags < 2 ^ tagcount) rules
      → target_of rules e s c none ≡ some j
      → find_mon s j ≡ some m
      → IsTagged s
      → IsTagged (applyrules fresh rules c.id e.title e.appid e.float_type)
  unfolding applyrules
  rules-IsTagged good on here h =
      let d = ruled s.mons e.title e.appid rules (start s c) in
      let l = ruled-tags s.mons e.title e.appid rules (start s c) good (omega arith) in
      let given =
        setmon_first-IsTagged c s (d.isfloating || e.float_type) j d.newtags m here l
          (find_mon-IsTagset s j m here h) h in
      rw found_fresh (
        subst
          (λ (o : Option ℕ).
            IsTagged
              (setmon (entered c s (d.isfloating || e.float_type) j d.newtags m) c.id o d.newtags))
          (sym on) given)

  parent-IsTagged :
      (p : ℕ)
      → (c.id == p) ≡ false
      → (elim (find_client s p) [ none ↦ none | some q ↦ q.mon ]) ≡ some j
      → find_mon s j ≡ some m
      → IsTagged s
      → IsTagged (
          with_sel fresh (find_client fresh p) (λ q.
            setmon
              (update_client c.id (λ d. record d { isfloating = true }) fresh)
              c.id
              q.mon
              q.tags))
  parent-IsTagged p other on here h = elim (Option-cases (find_client s p)) [
    | inl f ↦ absurd (nowhere (rw f at on))
    | inr (q, f) ↦
        rw (other, f)
          (subst (λ (o : Option ℕ). IsTagged (setmon (entered c s true j q.tags m) c.id o q.tags))
            (sym (rw f at on))
            (setmon_first-IsTagged c s true j q.tags m here
              (found-tags s.clients (λ d. d.id == p) q f h.clients_tagged).1
              (find_mon-IsTagset s j m here h) h))
  ]

lay_canvas-IsTagged :
    (o : Option ℕ) (s : Server) (n : Option Monitor) → IsTagged s → IsTagged (lay_canvas o s n)
unfolding canvas_layout
lay_canvas-IsTagged o s none h = h
lay_canvas-IsTagged o s (some m) h =
    if-IsTagged (opt_eq o m.id && shares m.canvas_tags (tagset m)) (canvas_layout m s) s
      (rw (map-same (λ (c : Client). c.tags) (enter_canvas m) (enter_canvas-tags m) s.clients) h) h

unset_fullscreen-IsTagged :
    (c : Client) (parent m : Option ℕ) (ks : List ℕ) (s : Server)
    → IsTagged s
    → IsTagged (unset_fullscreen c parent m ks s)
unfolding unset_fullscreen
unset_fullscreen-IsTagged c parent m [] s h = h
unset_fullscreen-IsTagged c parent m (k ∷ ks) s h = unset_fullscreen-IsTagged c parent m ks _ (
    with_sel-IsTagged s (find_client s k) _
      (λ w.
        if-IsTagged (hides c parent m w) (setfullscreen s k false) s
          (setfullscreen-IsTagged s k false h) h)
      h)

after_placing-IsTagged :
    (e : Mapped) (k : ℕ) (s : Server) → IsTagged s → IsTagged (after_placing e k s)
after_placing-IsTagged e k s h =
    with_sel-IsTagged s (find_client s k) _
      (λ c.
        let laid = lay_canvas s.selmon s (mon_of s c.mon) in
        unset_fullscreen-IsTagged c e.parent (or_under c.mon e.under) (client_ids laid) laid
          (lay_canvas-IsTagged s.selmon s (mon_of s c.mon) h))
      h

apart : (a b : ℕ) → (a == b) ≡ false → (b == a) ≡ false
apart a b e = grind arith

-- If every rule's tags are below 2 ^ 9, the window that is mapped has no output yet and is not its
-- own parent, and the output that its parent or the rules name is one of the outputs, then the
-- tag sets of the monitors and the tags of the windows, the new one among them, still name some
-- of the nine tags and nothing else after mapnotify.
pub mapnotify-IsTagged :
    (rules : List CfgRule) (e : Mapped) (s : Server) (c : Client) (j : ℕ) (m : Monitor)
    → All (λ (r : CfgRule). r.tags < 2 ^ tagcount) rules
    → opt_eq e.parent c.id ≡ false
    → target_of rules e s c e.parent ≡ some j
    → find_mon s j ≡ some m
    → IsTagged s
    → IsTagged (mapnotify rules e s (record c { mon = none }))
unfolding mapnotify place_mapped
mapnotify-IsTagged rules e s c j m good other on here h =
    after_placing-IsTagged e c.id (place_mapped rules e (listed (record c { mon = none }) s) c.id)
      (elim (Option-cases e.parent) [
        | inl f ↦ rw f (rules-IsTagged rules e s c j m good (rw f at on) here h)
        | inr (p, f) ↦
            rw f
              (parent-IsTagged rules e s c j m p (apart p c.id (rw f at other)) (rw f at on) here h)
      ])
