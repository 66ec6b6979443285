-- ===== src/Wm/Leaving.antt =====
-- A window that is on its way out of src/main.c's lists and trees, under focusing and arranging.
use monowm.Base.{
  ℕ, ◌≤◌, ◌≡◌, ap, ◌∙◌, inl, inr, false, Option, none, some, List, [], ◌∷◌, map, keep, count, ◌==◌,
  if◌then◌else◌, All, map-same, length, shares, arith, Bool-cases,
}
use monowm.Config.Bounds.{if-holds}
use monowm.Wm.Places.{leaves-lay_out}
use monowm.Dwindle.Tree.{DwindleNode, leaves?}
use monowm.Dwindle.Fill.{refill, count-refill}
use monowm.Wm.State.{
  Client, Monitor, Server, floating, dwindle_layout, layout, find_mon, update_mon, opt_eq, tagset,
  Layout, current_tag_idx,
}
use monowm.Wm.Arrange.{
  canvas_leave, arrange, arrange_mon, client_ids, dwindle, tiled, stays, lay_out, set_root,
  tile_area, gap_of, run_layout, leave_hidden_canvas, enter_canvas, canvas_layout,
}

-- No tree of an output has a leaf of a window.
abbrev pub LacksLeaf : ℕ → Monitor → Type 0
LacksLeaf k m = (i : ℕ) → count k (leaves? (m.dwindle_root i)) ≡ 0

-- A window that is on its way out.
pub record Going (k : ℕ) (s : Server) : Type 0 where
  pub leaf_free : All (LacksLeaf k) s.mons
  pub unlisted : count k (client_ids s) ≡ 0
  pub stacked : count k s.fstack ≤ 1
  pub undragged : opt_eq s.dragging k ≡ false

refill-count :
    (k : ℕ) (s : Server) (m : Monitor) (root : Option DwindleNode)
    → count k (client_ids s) ≡ 0
    → count k (leaves? root) ≡ 0
    → count k (
        leaves? (
          refill s.cursor
            (stays s m)
            (tiled s m)
            (m.dwindle_focus (current_tag_idx m))
            (client_ids s)
            root))
      ≡ 0
refill-count k s m root n h = ground (
  arith,
  count-refill s.cursor (stays s m) (tiled s m) (m.dwindle_focus (current_tag_idx m)) (client_ids s)
      root k,
)

set_root-LacksLeaf :
    (k j : ℕ) (t : Option DwindleNode) (m : Monitor)
    → count k (leaves? t) ≡ 0
    → LacksLeaf k m
    → LacksLeaf k (set_root j t m)
set_root-LacksLeaf k j t m e h i = elim (Bool-cases (i == j)) [
  | inl f ↦ rw f e
  | inr f ↦ rw f (h i)
]

dwindle-LacksLeaf :
    (k : ℕ) (s : Server) (m : Monitor)
    → count k (client_ids s) ≡ 0
    → LacksLeaf k m
    → LacksLeaf k (dwindle s m)
unfolding dwindle
dwindle-LacksLeaf k s m n h =
    let e = gap_of s m (length (keep (tiled s m) (client_ids s))) in
    let j = current_tag_idx m in
    let filled =
      refill s.cursor (stays s m) (tiled s m) (m.dwindle_focus j) (client_ids s)
        (m.dwindle_root j) in
    if-holds (LacksLeaf k) (length (keep (tiled s m) (client_ids s)) == 0) m
      (set_root j (lay_out e (tile_area m e) filled) m) h
      (set_root-LacksLeaf k j _ m
        (rw (leaves-lay_out e m filled) (refill-count k s m (m.dwindle_root j) n (h j))) h)

run_layout-LacksLeaf :
    (k : ℕ) (l : Layout) (s : Server) (m : Monitor)
    → count k (client_ids s) ≡ 0
    → LacksLeaf k m
    → LacksLeaf k (run_layout l s m)
run_layout-LacksLeaf k floating s m n h = h
run_layout-LacksLeaf k dwindle_layout s m n h = dwindle-LacksLeaf k s m n h

update_mon-All :
    (P : Monitor → Type 0) (k : ℕ) (f : Monitor → Monitor) (ms : List Monitor)
    → ((m : Monitor) → P m → P (f m))
    → All P ms
    → All P (map (λ m. if m.id == k then f m else m) ms)
update_mon-All P k f [] g h = tt
update_mon-All P k f (m ∷ ms) g h = elim (Bool-cases (m.id == k)) [
  | inl e ↦ rw e (g m h.0, update_mon-All P k f ms g h.1)
  | inr e ↦ rw e (h.0, update_mon-All P k f ms g h.1)
]

leave_hidden_canvas-id : (m : Monitor) (c : Client) → (leave_hidden_canvas m c).id ≡ c.id
unfolding leave_hidden_canvas canvas_leave
leave_hidden_canvas-id m c = ground arith

enter_canvas-id : (m : Monitor) (c : Client) → (enter_canvas m c).id ≡ c.id
unfolding enter_canvas
enter_canvas-id m c = ground arith

pub clients-Going :
    (k : ℕ) (f : Client → Client) (s : Server)
    → ((c : Client) → (f c).id ≡ c.id)
    → Going k s
    → Going k (record s { clients = map f s.clients })
clients-Going k f s same g = record {
  leaf_free = g.leaf_free;
  unlisted = ap (count k) (map-same (λ (c : Client). c.id) f same s.clients) ∙ g.unlisted;
  stacked = g.stacked;
  undragged = g.undragged;
}

pub update_mon-Going :
    (k j : ℕ) (f : Monitor → Monitor) (s : Server)
    → ((m : Monitor) → LacksLeaf k m → LacksLeaf k (f m))
    → Going k s
    → Going k (update_mon j f s)
update_mon-Going k j f s keeps g = record {
  leaf_free = update_mon-All (LacksLeaf k) j f s.mons keeps g.leaf_free;
  unlisted = g.unlisted;
  stacked = g.stacked;
  undragged = g.undragged;
}

-- The server before the layout runs.
abbrev readied : Monitor → Server → Server
readied m s =
    let left = record s { clients = map (leave_hidden_canvas m) s.clients } in
    if shares m.canvas_tags (tagset m) then canvas_layout m left else left

readied-Going : (k : ℕ) (m : Monitor) (s : Server) → Going k s → Going k (readied m s)
unfolding canvas_layout
readied-Going k m s g =
    let left = record s { clients = map (leave_hidden_canvas m) s.clients } in
    let h = clients-Going k (leave_hidden_canvas m) s (leave_hidden_canvas-id m) g in
    if-holds (Going k) (shares m.canvas_tags (tagset m)) (canvas_layout m left) left
      (clients-Going k (enter_canvas m) left (enter_canvas-id m) h) h

arrange_mon-Going : (k : ℕ) (m : Monitor) (s : Server) → Going k s → Going k (arrange_mon m s)
unfolding arrange_mon
arrange_mon-Going k m s g =
    let h = readied-Going k m s g in
    update_mon-Going k m.id (run_layout (layout m) (readied m s)) (readied m s)
      (λ n l. run_layout-LacksLeaf k (layout m) (readied m s) n h.unlisted l) h

pub arrange-Going : (k j : ℕ) (s : Server) → Going k s → Going k (arrange s j)
unfolding arrange
arrange-Going k j s g = go (find_mon s j)
  where
    go :
        (o : Option Monitor)
        → Going k (elim o [ none ↦ s | some m ↦ if m.enabled then arrange_mon m s else s ])
    go none = g
    go (some m) = if-holds (Going k) m.enabled (arrange_mon m s) s (arrange_mon-Going k m s g) g
