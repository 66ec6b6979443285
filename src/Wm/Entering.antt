-- ===== src/Wm/Entering.antt =====
-- The tags of a window that mapnotify of src/main.c puts in the lists.
use monowm.Base.{
  ℕ, ◌^◌, ◌<◌, ◌≡◌, refl, inl, inr, Bool, true, false, none, some, List, [], ◌∷◌, map, ◌==◌,
  ==_refl, if◌then◌else◌, All, arith, Bool-cases, ◌⊎◌,
}
use monowm.Wm.State.{
  Client, Monitor, Server, find_client, find_mon, update_client, tagset, tagcount, focustop,
  selected,
}
use monowm.Wm.Arrange.{canvas_leave, enter_canvas}
use monowm.Wm.Windows.{setmon, setmon_of, enter_mon, give_tags, redo_floating, redo_fullscreen}
use monowm.Wm.Views.{views}
use monowm.Wm.Safe.{IsView, IsTagset, IsTagged}
use monowm.Wm.Moves.{focusclient-IsTagged, redo_floating-IsTagged, redo_fullscreen-IsTagged}
use monowm.Wm.Mapping.{listed}

-- Every window but one has tags.
record TaggedBut (k : ℕ) (s : Server) : Type 0 where
  mons_tagged : All IsView (views s)
  others : All (λ (c : Client). ((c.id == k) ≡ true) ⊎ IsTagset c.tags) s.clients

others_tagged :
    (k : ℕ) (cs : List Client)
    → All IsTagset (map (λ (c : Client). c.tags) cs)
    → All (λ (c : Client). ((c.id == k) ≡ true) ⊎ IsTagset c.tags) cs
others_tagged k [] h = tt
others_tagged k (c ∷ cs) h = (inr h.0, others_tagged k cs h.1)

listed-TaggedBut : (c : Client) (s : Server) → IsTagged s → TaggedBut c.id (listed c s)
listed-TaggedBut c s h = record {
  mons_tagged = h.mons_tagged;
  others = (inl (==_refl c.id), others_tagged c.id s.clients h.clients_tagged);
}

update_client-TaggedBut :
    (k : ℕ) (f : Client → Client) (s : Server)
    → ((c : Client) → (f c).id ≡ c.id)
    → TaggedBut k s
    → TaggedBut k (update_client k f s)
update_client-TaggedBut k f s same h = record {
  mons_tagged = h.mons_tagged;
  others = go s.clients h.others;
}
  where
    go :
        (cs : List Client)
        → All (λ (c : Client). ((c.id == k) ≡ true) ⊎ IsTagset c.tags) cs
        → All
            (λ (c : Client). ((c.id == k) ≡ true) ⊎ IsTagset c.tags)
            (map (λ c. if c.id == k then f c else c) cs)
    go [] p = tt
    go (c ∷ cs) p = elim (Bool-cases (c.id == k)) [
      | inl e ↦ rw e (inl (rw (same c) e), go cs p.1)
      | inr e ↦ rw e (p.0, go cs p.1)
    ]

given : (x : ℕ) (b : Bool) → b ≡ false → (b ≡ true) ⊎ IsTagset x → IsTagset x
given x b e (inl f) = cc
given x b e (inr p) = p

give_tags-TaggedBut :
    (s : Server) (k t : ℕ) (m : Monitor)
    → t < 2 ^ tagcount
    → IsTagset (tagset m)
    → TaggedBut k s
    → IsTagged (give_tags k t m s)
give_tags-TaggedBut s k t m l shown h = record {
  mons_tagged = h.mons_tagged;
  clients_tagged = go s.clients h.others;
}
  where
    go :
        (cs : List Client)
        → All (λ (c : Client). ((c.id == k) ≡ true) ⊎ IsTagset c.tags) cs
        → All IsTagset (
            map
              (λ (c : Client). c.tags)
              (map
                (λ c. if c.id == k then record c { tags = if t == 0 then tagset m else t } else c)
                cs))
    go [] p = tt
    go (c ∷ cs) p = elim (Bool-cases (c.id == k)) [
      | inl e ↦ rw e (ground (arith, shown), go cs p.1)
      | inr e ↦ rw e (given c.tags (c.id == k) e p.0, go cs p.1)
    ]

canvas_leave-id : (c : Client) → (canvas_leave c).id ≡ c.id
unfolding canvas_leave
canvas_leave-id c = ground arith

pub enter_canvas-tags : (m : Monitor) (c : Client) → (enter_canvas m c).tags ≡ c.tags
unfolding enter_canvas
enter_canvas-tags m c = ground arith

-- The first output of a window gives it tags.
module _ (c : Client) (s : Server) (b : Bool) (j t : ℕ) (m : Monitor) where
  -- A window without an output, in the lists.
  abbrev pub entered : Server
  entered =
      update_client c.id (λ d. record d { isfloating = b }) (listed (record c { mon = none }) s)

  found_first : find_client entered c.id ≡ some (record c { mon = none; isfloating = b })
  found_first = rw (==_refl c.id) (rw (==_refl c.id) refl)

  pub setmon_first-IsTagged :
      find_mon s j ≡ some m
      → t < 2 ^ tagcount
      → IsTagset (tagset m)
      → IsTagged s
      → IsTagged (setmon entered c.id (some j) t)
  unfolding setmon setmon_of enter_mon
  setmon_first-IsTagged here l shown h =
      let moved = update_client c.id (λ d. record (canvas_leave d) { mon = some j }) entered in
      let but =
        update_client-TaggedBut c.id (λ d. record (canvas_leave d) { mon = some j }) entered
          canvas_leave-id
          (update_client-TaggedBut c.id (λ d. record d { isfloating = b })
            (listed (record c { mon = none }) s) (λ d. refl)
            (listed-TaggedBut (record c { mon = none }) s h)) in
      let full = redo_fullscreen c.id (give_tags c.id t m moved) in
      let placed = redo_floating c.id full in
      let tagged =
        redo_fullscreen-IsTagged (give_tags c.id t m moved) c.id
          (give_tags-TaggedBut moved c.id t m l shown but) in
      rw (found_first, here)
        (focusclient-IsTagged placed (focustop placed (selected placed))
          (redo_floating-IsTagged full c.id tagged))
