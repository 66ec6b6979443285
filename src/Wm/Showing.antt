-- ===== src/Wm/Showing.antt =====
-- The actions view and toggleview of src/main.c: what the selected monitor shows afterwards.
use Prim.Native.Nat.{bit_xor}
use monowm.Base.{
  ℕ, ◌+◌, ◌<◌, ◌≡◌, refl, sym, ap, ◌∙◌, ◌⊎◌, inl, inr, ◌≢◌, Option, none, some, List, ◌==◌,
  if◌then◌else◌, arith, find_by_holds, ==_iff, ==_ne, Bool-cases, bit_and, eq_of_test_bit,
  test_bit-xor,
}
use monowm.Wm.State.{Monitor, Server, tagset, set_tagset, find_mon, selected, update_mon, tag_mask}
use monowm.Wm.Tags.{refocus, view, viewed, toggleview}
use monowm.Wm.Views.{
  View, view_of, view_of?, views, shown, find_mon-shown, find_mon-update, refocus-views,
  refocus-selmon,
}

-- The selected monitor is the one that selmon names.
pub selected_at :
    (s : Server) (m : Monitor)
    → selected s ≡ some m
    → (s.selmon ≡ some m.id) × (find_mon s m.id ≡ some m)
unfolding selected
selected_at s m h = go s.selmon refl h
  where
    go :
        (o : Option ℕ)
        → s.selmon ≡ o
        → elim o [ none ↦ none | some k ↦ find_mon s k ] ≡ some m
        → (s.selmon ≡ some m.id) × (find_mon s m.id ≡ some m)
    go none e f = cc
    go (some k) e f =
        let same = (==_iff m.id k).0 (find_by_holds (λ n. n.id == k) s.mons m f) in
        (e ∙ ap some (sym same), ap (find_mon s) same ∙ f)

-- The monitor with an id, known by its view.
view_at :
    (s t : Server) (k : ℕ) (m : Monitor)
    → views t ≡ views s
    → t.selmon ≡ some k
    → find_mon s k ≡ some m
    → (n : Monitor) × (selected t ≡ some n) × (view_of n ≡ view_of m)
unfolding selected
view_at s t k m v h f = go (find_mon t k) refl
  where
    same : view_of? (find_mon t k) ≡ view_of? (find_mon s k)
    same =
        find_mon-shown t.mons k
        ∙ ap (λ (vs : List View). shown vs k) v
        ∙ sym (find_mon-shown s.mons k)

    go :
        (o : Option Monitor)
        → find_mon t k ≡ o
        → (n : Monitor) × (selected t ≡ some n) × (view_of n ≡ view_of m)
    go none e = absurd (let q = rw (e, f) at same in cc)
    go (some n) e = (n, rw h e, let q = rw (e, f) at same in cc)

-- An action that changes the selected monitor's view and then refocuses shows that view.
refocused :
    (s : Server) (m : Monitor) (f : Monitor → Monitor)
    → selected s ≡ some m
    → ((n : Monitor) → (f n).id ≡ n.id)
    → (n : Monitor) × (selected (refocus (update_mon m.id f s) m.id) ≡ some n)
      × (view_of n ≡ view_of (f m))
refocused s m f h keeps =
    let (sel, found) = selected_at s m h in
    let t = update_mon m.id f s in
    let there = find_mon-update s.mons m.id f m keeps found in
    view_at t (refocus t m.id) m.id (f m) (refocus-views t m.id)
      (refocus-selmon t m.id (f m) there sel) there

-- Asking for other tags than those shown shows them; asking for none shows the previous ones.
pub view_lem :
    (s : Server) (m : Monitor) (ui : ℕ)
    → selected s ≡ some m
    → bit_and ui tag_mask ≢ tagset m
    → (n : Monitor) × (selected (view s ui) ≡ some n)
      × (view_of n ≡ view_of (viewed (bit_and ui tag_mask) m))
unfolding view
view_lem s m ui h ne = rw h (
    rw (==_ne (bit_and ui tag_mask) (tagset m) ne)
      (refocused s m (viewed (bit_and ui tag_mask)) h (λ n. unfold viewed in ground arith)))

abbrev view_tagset : View → ℕ
view_tagset v = if v.seltags then v.tagset1 else v.tagset0

pub same_tagset : (n m : Monitor) → view_of n ≡ view_of m → tagset n ≡ tagset m
same_tagset n m e = ap view_tagset e

-- What a monitor shows: some window of tags, on the monitor that is selected.
abbrev pub Shows : Server → ℕ → Type 0
Shows s t = (n : Monitor) × (selected s ≡ some n) × (tagset n ≡ t)

-- The other tag set of a view.
abbrev view_other : View → ℕ
view_other v = if v.seltags then v.tagset0 else v.tagset1

viewed_other : (m : Monitor) (t : ℕ) → 0 < t → view_other (view_of (viewed t m)) ≡ tagset m
unfolding viewed
viewed_other m t h = ground arith

viewed_zero : (n : Monitor) → tagset (viewed 0 n) ≡ view_other (view_of n)
unfolding viewed
viewed_zero n = ground arith

tagset-viewed : (m : Monitor) (t : ℕ) → 0 < t → tagset (viewed t m) ≡ t
unfolding viewed
tagset-viewed m t h = ground arith

-- If a monitor is selected, and the tags asked for are not empty and not those shown, view shows
-- exactly the asked tags, and a following `view 0` brings back the tags shown before.
pub view_back :
    (s : Server) (m : Monitor) (ui : ℕ)
    → selected s ≡ some m
    → 0 < bit_and ui tag_mask
    → bit_and ui tag_mask ≢ tagset m
    → Shows (view s ui) (bit_and ui tag_mask) × Shows (view (view s ui) 0) (tagset m)
view_back s m ui h asked other =
    let t = bit_and ui tag_mask in
    let (n, hn, e) = view_lem s m ui h other in
    let shows : tagset n ≡ t = same_tagset n (viewed t m) e ∙ tagset-viewed m t asked in
    let (k, hk, f) = view_lem (view s ui) n 0 hn (ground (arith, shows)) in
    (
      (n, hn, shows),
      (
        k,
        hk,
        same_tagset k (viewed 0 n) f ∙ viewed_zero n ∙ ap view_other e ∙ viewed_other m t asked,
      ),
    )

-- If a monitor is selected and the tags asked for are not empty, view leaves exactly these tags
-- shown, also if they were shown before.
pub view-Shows :
    (s : Server) (m : Monitor) (ui : ℕ)
    → selected s ≡ some m
    → 0 < bit_and ui tag_mask
    → Shows (view s ui) (bit_and ui tag_mask)
view-Shows s m ui h asked = elim (Bool-cases (bit_and ui tag_mask == tagset m)) [
  | inl e ↦
      let same = (==_iff (bit_and ui tag_mask) (tagset m)).0 e in
      (m, unfold view in rw h (rw e h), sym same)
  | inr e ↦ (view_back s m ui h asked (λ same. absurd (ground (arith, same)))).0
]

tagset_set : (v : ℕ) (m : Monitor) → tagset (set_tagset v m) ≡ v
tagset_set v m = ground arith

-- If a monitor is selected, toggleview either does nothing, which is where the shown tags and
-- the asked ones are the same, or shows the tags that are in exactly one of the two.
pub toggleview_lem :
    (s : Server) (m : Monitor) (ui : ℕ)
    → selected s ≡ some m
    → ((bit_xor (tagset m) (bit_and ui tag_mask) ≡ 0) × (toggleview s ui ≡ s))
      ⊎ ((0 < bit_xor (tagset m) (bit_and ui tag_mask))
          × Shows (toggleview s ui) (bit_xor (tagset m) (bit_and ui tag_mask)))
unfolding toggleview
toggleview_lem s m ui h =
    let t = bit_xor (tagset m) (bit_and ui tag_mask) in
    elim (Bool-cases (t == 0)) [
      | inl e ↦ inl ((==_iff t 0).0 e, rw h (rw e refl))
      | inr e ↦
          let (n, hn, g) = refocused s m (set_tagset t) h (λ k. ground arith) in
          inr (ground arith, rw h (rw e (n, hn, same_tagset n (set_tagset t m) g ∙ tagset_set t m)))
    ]

xor_twice : (a b : ℕ) → bit_xor (bit_xor a b) b ≡ a
xor_twice a b =
    eq_of_test_bit (bit_xor (bit_xor a b) b + a) _ a (omega arith) (omega arith)
      λ i. rw (test_bit-xor, test_bit-xor) (ground arith)

-- If a monitor is selected, shows some tag and would still show one after the toggle, toggling
-- the same tags twice shows the tags shown before.
pub toggleview_twice :
    (s : Server) (m : Monitor) (ui : ℕ)
    → selected s ≡ some m
    → 0 < tagset m
    → 0 < bit_xor (tagset m) (bit_and ui tag_mask)
    → Shows (toggleview (toggleview s ui) ui) (tagset m)
toggleview_twice s m ui h some_shown some_left = elim (toggleview_lem s m ui h) [
  | inl (e, f) ↦ absurd (omega arith)
  | inr (p, first) ↦
      let (n, hn, e) = first in
      elim (toggleview_lem (toggleview s ui) n ui hn) [
        | inl (g, q) ↦ absurd (omega (arith, back n e))
        | inr (g, second) ↦ let (k, hk, q) = second in (k, hk, q ∙ back n e)
      ]
]
  where
    back :
        (n : Monitor)
        → tagset n ≡ bit_xor (tagset m) (bit_and ui tag_mask)
        → bit_xor (tagset n) (bit_and ui tag_mask) ≡ tagset m
    back n e = rw e (xor_twice (tagset m) (bit_and ui tag_mask))
