-- ===== src/Wm/Unmapped.antt =====
-- What unmapnotify of src/main.c leaves.
use monowm.Base.{
  ℕ, ◌≤◌, ◌≡◌, refl, inl, inr, Bool, false, not, Option, none, some, List, [], ◌∷◌, map, keep,
  erase, count, ◌==◌, ltb, if◌then◌else◌, All, map-same, arith, Bool-cases, sym, ap, ◌∙◌,
  count-append,
}
use monowm.Dwindle.Tree.{
  DwindleNode, leaf, node, Frame, in_first, in_second, leaves, leaves?, dwindle_find_leaf,
}
use monowm.Dwindle.Remove.{leaves-remove}
use monowm.Wm.State.{Client, Monitor, Server, find_client, opt_eq, tagcount}
use monowm.Wm.Arrange.{arrange, client_ids}
use monowm.Wm.Tags.{dwindle_remove_client, forget_leaf}
use monowm.Wm.Unmapping.{drop_drag, unlist, leave_mon, unmapnotify}
use monowm.Wm.Leaving.{LacksLeaf, Going}
use monowm.Wm.Parting.{leave_mon-Going}
use monowm.Wm.Views.{view_of}
use monowm.Wm.Safe.{IsTagset, IsTagged}
use monowm.Wm.Actions.{arrange-IsTagged, with_sel-IsTagged}
use monowm.Wm.Moves.{focusclient-IsTagged}
use monowm.Wm.Pressing.{if-IsTagged}

-- A window has at most one leaf in each tree of an output, and none outside the nine.
abbrev pub AtMostOne : ℕ → Monitor → Type 0
AtMostOne k m = (i : ℕ) → count k (leaves? (m.dwindle_root i)) ≤ (if ltb i tagcount then 1 else 0)

count-erase_self : (k : ℕ) (xs : List ℕ) → count k xs ≤ 1 → count k (erase k xs) ≡ 0
count-erase_self k [] h = refl
count-erase_self k (x ∷ xs) h = ground (arith, count-erase_self k xs)

forget_leaf-LacksLeaf : (k : ℕ) (m : Monitor) → AtMostOne k m → LacksLeaf k (forget_leaf k m)
unfolding forget_leaf
forget_leaf-LacksLeaf k m h i = elim (Bool-cases (ltb i tagcount)) [
  | inl e ↦ rw e (rw (leaves-remove (m.dwindle_root i) k) (count-erase_self k _ (rw e at (h i))))
  | inr e ↦ rw e (let q = rw e at (h i) in omega arith)
]

forget_each :
    (k : ℕ) (ms : List Monitor) → All (AtMostOne k) ms → All (LacksLeaf k) (map (forget_leaf k) ms)
forget_each k [] h = tt
forget_each k (m ∷ ms) h = (forget_leaf-LacksLeaf k m h.0, forget_each k ms h.1)

count-unlist :
    (k : ℕ) (cs : List Client)
    → count k (map (λ (c : Client). c.id) (keep (λ c. not (c.id == k)) cs)) ≡ 0
count-unlist k [] = refl
count-unlist k (c ∷ cs) = ground (arith, count-unlist k cs)

removed-Going :
    (k : ℕ) (s : Server)
    → All (AtMostOne k) s.mons
    → count k s.fstack ≤ 1
    → Going k (dwindle_remove_client (unlist k (drop_drag k s)) k)
unfolding dwindle_remove_client
removed-Going k s one stack = elim (Bool-cases (opt_eq s.dragging k)) [
  | inl e ↦ rw e (record {
    leaf_free = forget_each k s.mons one;
    unlisted = count-unlist k s.clients;
    stacked = stack;
    undragged = refl;
  })
  | inr e ↦ rw e (record {
    leaf_free = forget_each k s.mons one;
    unlisted = count-unlist k s.clients;
    stacked = stack;
    undragged = e;
  })
]

-- The search for a window finds nothing in the trees of an output, also where dwindle_focus asks for it.
abbrev pub NotFound : ℕ → Monitor → Type 0
NotFound k m =
    (i : ℕ) (n : DwindleNode) → m.dwindle_root i ≡ some n → dwindle_find_leaf [] n k ≡ none

find_leaf-none :
    (fs : List Frame) (n : DwindleNode) (k : ℕ)
    → count k (leaves n) ≡ 0
    → dwindle_find_leaf fs n k ≡ none
unfolding dwindle_find_leaf leaves
find_leaf-none fs (leaf d b) k h = elim (Bool-cases (d == k)) [
  | inl e ↦ absurd (let q = rw e at h in omega (arith, q))
  | inr e ↦ rw e refl
]
find_leaf-none fs (node s l r) k h =
    let both = sym (count-append k (leaves l) (leaves r)) ∙ h in
    rw
      (
        find_leaf-none (in_first s r ∷ fs) l k (omega (arith, both)),
        find_leaf-none (in_second s l ∷ fs) r k (omega (arith, both)),
      )
      refl

LacksLeaf-NotFound : (k : ℕ) (m : Monitor) → LacksLeaf k m → NotFound k m
unfolding leaves leaves?
LacksLeaf-NotFound k m h i n e =
    find_leaf-none [] n k (ap (λ (o : Option DwindleNode). count k (leaves? o)) (sym e) ∙ h i)

all-NotFound : (k : ℕ) (ms : List Monitor) → All (LacksLeaf k) ms → All (NotFound k) ms
all-NotFound k [] h = tt
all-NotFound k (m ∷ ms) h = (LacksLeaf-NotFound k m h.0, all-NotFound k ms h.1)

-- No tree has a leaf of a window, no list has it, and it is not being dragged.
pub record IsGone (k : ℕ) (s : Server) : Type 0 where
  leaf_free : All (LacksLeaf k) s.mons
  unfound : All (NotFound k) s.mons
  unlisted : count k (client_ids s) ≡ 0
  unstacked : count k s.fstack ≡ 0
  undragged : opt_eq s.dragging k ≡ false

-- If a window is in the window list, at most once in the focus stack and at most once in each of
-- the nine trees of each output, and in no other tree, then after unmapnotify no tree of any
-- output has a leaf of it, although other windows were focused and arranged meanwhile, it is
-- neither in the window list nor in the focus stack, and it is not being dragged. The field
-- dwindle_focus of an output may still hold it; the search for it in each tree finds nothing.
pub unmapnotify-IsGone :
    (s : Server) (k : ℕ) (c : Client)
    → find_client s k ≡ some c
    → All (AtMostOne k) s.mons
    → count k s.fstack ≤ 1
    → IsGone k (unmapnotify s k)
unfolding unmapnotify
unmapnotify-IsGone s k c found one stack =
    let g = leave_mon-Going k c.mon _ (removed-Going k s one stack) in
    rw found (record {
      leaf_free = g.leaf_free;
      unfound = all-NotFound k _ g.leaf_free;
      unlisted = g.unlisted;
      unstacked = count-erase_self k _ g.stacked;
      undragged = g.undragged;
    })

keep-tags :
    (p : Client → Bool) (cs : List Client)
    → All IsTagset (map (λ (c : Client). c.tags) cs)
    → All IsTagset (map (λ (c : Client). c.tags) (keep p cs))
keep-tags p [] h = tt
keep-tags p (c ∷ cs) h = elim (Bool-cases (p c)) [
  | inl e ↦ rw e (h.0, keep-tags p cs h.1)
  | inr e ↦ rw e (keep-tags p cs h.1)
]

unlist-IsTagged : (k : ℕ) (s : Server) → IsTagged s → IsTagged (unlist k s)
unlist-IsTagged k s h = record {
  mons_tagged = h.mons_tagged;
  clients_tagged = keep-tags (λ c. not (c.id == k)) s.clients h.clients_tagged;
}

forget-IsTagged : (k : ℕ) (s : Server) → IsTagged s → IsTagged (dwindle_remove_client s k)
unfolding dwindle_remove_client forget_leaf
forget-IsTagged k s h = rw (map-same view_of (forget_leaf k) (λ m. refl) s.mons) h

leave_mon-IsTagged : (o : Option ℕ) (s : Server) → IsTagged s → IsTagged (leave_mon o s)
unfolding leave_mon
leave_mon-IsTagged none s h = h
leave_mon-IsTagged (some m) s h = focusclient-IsTagged (arrange s m) _ (arrange-IsTagged s m h)

pub unmapnotify-IsTagged : (s : Server) (k : ℕ) → IsTagged s → IsTagged (unmapnotify s k)
unfolding unmapnotify
unmapnotify-IsTagged s k h =
    with_sel-IsTagged s (find_client s k) _
      (λ c.
        let dropped = drop_drag k s in
        let u = unlist k dropped in
        leave_mon-IsTagged c.mon (dwindle_remove_client u k) (
          forget-IsTagged k u (
            unlist-IsTagged k dropped
              (if-IsTagged (opt_eq s.dragging k) (record s { dragging = none }) s h h))))
      h
