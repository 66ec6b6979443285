-- ===== src/Wm/Actions.antt =====
-- Tag sets under the actions on tags and views of src/main.c.
use Prim.Native.Nat.{bit_xor}
use monowm.Base.{
  subst, ℕ, ◌^◌, ◌<◌, ◌≡◌, refl, sym, inl, inr, Bool, ◌||◌, Option, none, some, List, [], ◌∷◌, map,
  ◌==◌, if◌then◌else◌, find_by, arith, All, Bool-cases, Option-cases, bit_and, and-lt, xor-lt, ℤ,
}
use monowm.Wm.State.{
  Layout, Client, Monitor, Server, tagset, set_tagset, find_mon, selected, update_mon,
  update_client, focustop, tag_mask, tagcount,
}
use monowm.Wm.Arrange.{arrange}
use monowm.Wm.Tags.{
  view, viewed, toggleview, viewshift, settags, settags_of, settags_on, client_at,
  dwindle_remove_client, forget_leaf, retag, tag, toggletag, tagshift, setlayout, choose_layout,
  layout_at, sel, with_sel, shift_idx, first_idx,
}
use monowm.Wm.Views.{View, view_of, views, arrange-views}
use monowm.Wm.Showing.{selected_at}
use monowm.Wm.Shifting.{viewshift-view}
use monowm.Wm.Safe.{IsTagset, IsView, IsTagged, refocus-IsTagged, arrange-tags}

-- Changing monitors, where each change keeps a sound view sound.
pub update_mon-IsTagged :
    (k : ℕ) (f : Monitor → Monitor) (s : Server)
    → ((m : Monitor) → IsView (view_of m) → IsView (view_of (f m)))
    → IsTagged s
    → IsTagged (update_mon k f s)
update_mon-IsTagged k f s good h = record {
  mons_tagged = go s.mons h.mons_tagged;
  clients_tagged = h.clients_tagged;
}
  where
    go :
        (ms : List Monitor)
        → All IsView (map view_of ms)
        → All IsView (map view_of (map (λ m. if m.id == k then f m else m) ms))
    go [] p = tt
    go (m ∷ ms) p = elim (Bool-cases (m.id == k)) [
      | inl e ↦ rw e (good m p.0, go ms p.1)
      | inr e ↦ rw e (p.0, go ms p.1)
    ]

-- Changing windows likewise.
pub update_client-IsTagged :
    (k : ℕ) (f : Client → Client) (s : Server)
    → ((c : Client) → IsTagset c.tags → IsTagset (f c).tags)
    → IsTagged s
    → IsTagged (update_client k f s)
update_client-IsTagged k f s good h = record {
  mons_tagged = h.mons_tagged;
  clients_tagged = go s.clients h.clients_tagged;
}
  where
    go :
        (cs : List Client)
        → All IsTagset (map (λ (c : Client). c.tags) cs)
        → All IsTagset (map (λ (c : Client). c.tags) (map (λ c. if c.id == k then f c else c) cs))
    go [] p = tt
    go (c ∷ cs) p = elim (Bool-cases (c.id == k)) [
      | inl e ↦ rw e (good c p.0, go cs p.1)
      | inr e ↦ rw e (p.0, go cs p.1)
    ]

pub masked : (ui : ℕ) → bit_and ui tag_mask < 2 ^ tagcount
masked ui = and-lt tagcount ui tag_mask (omega arith)

viewed-IsView :
    (t : ℕ) (m : Monitor) → t < 2 ^ tagcount → IsView (view_of m) → IsView (view_of (viewed t m))
unfolding viewed
viewed-IsView t m l h = ground arith

pub view-IsTagged : (s : Server) (ui : ℕ) → IsTagged s → IsTagged (view s ui)
unfolding view
view-IsTagged s ui h = elim (Option-cases (selected s)) [
  | inl e ↦ rw e h
  | inr (m, e) ↦ rw e (elim (Bool-cases (bit_and ui tag_mask == tagset m)) [
    | inl f ↦ rw f h
    | inr f ↦ rw f (
        refocus-IsTagged (update_mon m.id (viewed (bit_and ui tag_mask)) s) m.id (
          update_mon-IsTagged m.id (viewed (bit_and ui tag_mask)) s
            (λ n. viewed-IsView (bit_and ui tag_mask) n (masked ui)) h))
  ])
]

-- The tag set of a monitor that was found.
found-IsTagset :
    (ms : List Monitor) (t : Monitor → Bool) (m : Monitor)
    → find_by t ms ≡ some m
    → All IsView (map view_of ms)
    → IsTagset (tagset m)
found-IsTagset [] t m e p = cc
found-IsTagset (n ∷ ms) t m e p = elim (Bool-cases (t n)) [
  | inl f ↦ let same : n ≡ m = (let q = rw f at e in cc) in rw (← same) (ground (arith, p.0))
  | inr f ↦ found-IsTagset ms t m (rw f at e) p.1
]

pub find_mon-IsTagset :
    (s : Server) (k : ℕ) (m : Monitor) → find_mon s k ≡ some m → IsTagged s → IsTagset (tagset m)
find_mon-IsTagset s k m e h = found-IsTagset s.mons (λ n. n.id == k) m e h.mons_tagged

set_tagset-IsView :
    (t : ℕ) (m : Monitor) → IsTagset t → IsView (view_of m) → IsView (view_of (set_tagset t m))
set_tagset-IsView t m k h = ground arith

pub toggleview-IsTagged : (s : Server) (ui : ℕ) → IsTagged s → IsTagged (toggleview s ui)
unfolding toggleview
toggleview-IsTagged s ui h = elim (Option-cases (selected s)) [
  | inl e ↦ rw e h
  | inr (m, e) ↦
      let t = bit_xor (tagset m) (bit_and ui tag_mask) in
      let was = find_mon-IsTagset s m.id m (selected_at s m e).1 h in
      rw e (elim (Bool-cases (t == 0)) [
        | inl f ↦ rw f h
        | inr f ↦
            let new : IsTagset t =
              (ground arith, xor-lt tagcount (tagset m) (bit_and ui tag_mask) was.1 (masked ui)) in
            rw f (
              refocus-IsTagged (update_mon m.id (set_tagset t) s) m.id
                (update_mon-IsTagged m.id (set_tagset t) s (λ n. set_tagset-IsView t n new) h))
      ])
]

pub viewshift-IsTagged : (s : Server) (d : ℤ) → IsTagged s → IsTagged (viewshift s d)
unfolding viewshift
viewshift-IsTagged s d h = elim (Option-cases (selected s)) [
  | inl e ↦ rw e h
  | inr (m, e) ↦
      rw (viewshift-view s m d e) (view-IsTagged s (2 ^ shift_idx (first_idx (tagset m)) d) h)
]

dwindle_remove_client-views : (s : Server) (k : ℕ) → views (dwindle_remove_client s k) ≡ views s
unfolding dwindle_remove_client forget_leaf
dwindle_remove_client-views s k = go s.mons
  where
    go : (ms : List Monitor) → map view_of (map (forget_leaf k) ms) ≡ map view_of ms
    go [] = refl
    go (m ∷ ms) = rw (go ms) refl

settags_of-IsTagged :
    (s : Server) (o : Option Client) (t : ℕ)
    → t < 2 ^ tagcount
    → IsTagged s
    → IsTagged (settags_of s o t)
unfolding settags_on
settags_of-IsTagged s none t l h = h
settags_of-IsTagged s (some c) t l h = elim (Option-cases c.mon) [
  | inl e ↦ rw e h
  | inr (k, e) ↦ rw e (elim (Bool-cases (t == 0 || c.tags == t)) [
    | inl f ↦ rw f h
    | inr f ↦ rw f (changed k (ground arith))
  ])
]
  where
    changed : (k : ℕ) → 0 < t → IsTagged (settags_on s c k t)
    changed k p = refocus-IsTagged (update_client c.id (retag t) (dwindle_remove_client s c.id)) k (
        update_client-IsTagged c.id (retag t) (dwindle_remove_client s c.id) (λ d q. (p, l))
          (rw (dwindle_remove_client-views s c.id) h))

pub settags-IsTagged : (s : Server) (k : Option ℕ) (t : ℕ) → IsTagged s → IsTagged (settags s k t)
unfolding settags
settags-IsTagged s k t h = settags_of-IsTagged s (client_at s k) (bit_and t tag_mask) (masked t) h

pub tag-IsTagged : (s : Server) (ui : ℕ) → IsTagged s → IsTagged (tag s ui)
unfolding tag
tag-IsTagged s ui h = settags-IsTagged s (focustop s (selected s)) ui h

pub with_sel-IsTagged :
    (s : Server) (o : Option Client) (f : Client → Server)
    → ((c : Client) → IsTagged (f c))
    → IsTagged s
    → IsTagged (with_sel s o f)
with_sel-IsTagged s none f good h = h
with_sel-IsTagged s (some c) f good h = good c

pub toggletag-IsTagged : (s : Server) (ui : ℕ) → IsTagged s → IsTagged (toggletag s ui)
unfolding toggletag
toggletag-IsTagged s ui h =
    with_sel-IsTagged s (sel s) _
      (λ c. settags-IsTagged s (some c.id) (bit_xor c.tags (bit_and ui tag_mask)) h) h

pub tagshift-IsTagged : (s : Server) (d : ℤ) → IsTagged s → IsTagged (tagshift s d)
unfolding tagshift
tagshift-IsTagged s d h =
    with_sel-IsTagged s (sel s) _ (λ c. tag-IsTagged s (2 ^ shift_idx (first_idx c.tags) d) h) h

choose_layout-view : (l : Option Layout) (m : Monitor) → view_of (choose_layout l m) ≡ view_of m
unfolding choose_layout
choose_layout-view none m = refl
choose_layout-view (some l) m = ground arith

pub arrange-IsTagged : (s : Server) (k : ℕ) → IsTagged s → IsTagged (arrange s k)
arrange-IsTagged s k h = rw (arrange-views s k, arrange-tags s k) h

pub setlayout-IsTagged : (s : Server) (i : Option ℕ) → IsTagged s → IsTagged (setlayout s i)
unfolding setlayout
setlayout-IsTagged s i h = elim (Option-cases (selected s)) [
  | inl e ↦ rw e h
  | inr (m, e) ↦ rw e (
      arrange-IsTagged (update_mon m.id (choose_layout (layout_at i)) s) m.id (
        update_mon-IsTagged m.id (choose_layout (layout_at i)) s
          (λ n p. subst (λ (v : View). IsView v) (sym (choose_layout-view (layout_at i) n)) p) h))
]
