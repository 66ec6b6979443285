-- ===== src/Wm/Views.antt =====
-- What each monitor of src/main.c shows, apart from the layout trees, and this view under focusing
-- and arranging.
use monowm.Base.{
  ℕ, ◌≡◌, refl, ap, ◌∙◌, inl, inr, Bool, true, false, Option, none, some, List, [], ◌∷◌, map, ◌==◌,
  if◌then◌else◌, find_by, arith, shares, find_by_holds, ==_iff, Option-cases,
}
use monowm.Wm.State.{
  Client, Monitor, Server, tagset, layout, find_client, find_mon, focustop, visible_on, client_is,
  Layout, floating, dwindle_layout,
}
use monowm.Wm.Focus.{focusclient, raise_focus, anchor, focus_some}
use monowm.Wm.Arrange.{
  arrange, arrange_mon, run_layout, dwindle, canvas_layout, leave_hidden_canvas,
}
use monowm.Wm.Tags.{refocus}

pub record View : Type 0 where
  pub id : ℕ
  pub enabled : Bool
  pub seltags : Bool
  pub tagset0 : ℕ
  pub tagset1 : ℕ
  pub canvas_tags : ℕ

abbrev pub view_of : Monitor → View
view_of m = record {
  id = m.id;
  enabled = m.enabled;
  seltags = m.seltags;
  tagset0 = m.tagset0;
  tagset1 = m.tagset1;
  canvas_tags = m.canvas_tags;
}

abbrev pub views : Server → List View
views s = map view_of s.mons

-- A function that leaves the view of a monitor alone, wherever it is applied.
pub views-update :
    (k : ℕ) (f : Monitor → Monitor) (ms : List Monitor)
    → ((m : Monitor) → view_of (f m) ≡ view_of m)
    → map view_of (map (λ m. if m.id == k then f m else m) ms) ≡ map view_of ms
views-update k f [] h = refl
views-update k f (m ∷ ms) h = ground (arith, h m, views-update k f ms h)

raise_focus-views : (s : Server) (c : Client) → views (raise_focus s c) ≡ views s
unfolding raise_focus
raise_focus-views s c = elim (Option-cases c.mon) [
  | inl e ↦ rw (e, raise_focus) refl
  | inr (k, e) ↦ ground (arith, e, views-update k (anchor c) s.mons (λ m. refl))
]

-- Focusing changes no view.
pub focusclient-views : (s : Server) (k : Option ℕ) → views (focusclient s k) ≡ views s
unfolding focusclient
focusclient-views s none = ground arith
focusclient-views s (some k) = elim (Option-cases (find_client s k)) [
  | inl e ↦ rw (e, focus_some) (ground arith)
  | inr (c, e) ↦ ground (arith, e, raise_focus-views s c)
]

run_layout-view : (l : Layout) (s : Server) (m : Monitor) → view_of (run_layout l s m) ≡ view_of m
unfolding dwindle
run_layout-view floating s m = refl
run_layout-view dwindle_layout s m = ground arith

arrange_mon-views : (m : Monitor) (s : Server) → views (arrange_mon m s) ≡ views s
unfolding arrange_mon canvas_layout
arrange_mon-views m s = views-any (shares m.canvas_tags (tagset m))
  where
    left : Server
    left = record s { clients = map (leave_hidden_canvas m) s.clients }

    views-any :
        (b : Bool)
        → map view_of (
            map
              (λ n.
                if n.id == m.id
                then run_layout (layout m) (if b then canvas_layout m left else left) n
                else n)
              (if b then canvas_layout m left else left).mons)
          ≡ map view_of s.mons
    views-any true =
        views-update m.id (run_layout (layout m) (canvas_layout m left)) s.mons
          (run_layout-view (layout m) (canvas_layout m left))
    views-any false =
        views-update m.id (run_layout (layout m) left) s.mons (run_layout-view (layout m) left)

-- Arranging changes no view.
pub arrange-views : (s : Server) (k : ℕ) → views (arrange s k) ≡ views s
unfolding arrange
arrange-views s k = elim (Option-cases (find_mon s k)) [
  | inl e ↦ rw (e, arrange) refl
  | inr (m, e) ↦ ground (arith, e, arrange_mon-views m s)
]

pub arrange-selmon : (s : Server) (k : ℕ) → (arrange s k).selmon ≡ s.selmon
unfolding arrange arrange_mon canvas_layout
arrange-selmon s k = elim (Option-cases (find_mon s k)) [
  | inl e ↦ rw (e, arrange) refl
  | inr (m, e) ↦ ground (arith, e)
]

-- A window found by focustop is on the monitor that was asked.
pub focustop-mon :
    (s : Server) (m : Monitor) (k : ℕ) (c : Client)
    → focustop s (some m) ≡ some k
    → find_client s k ≡ some c
    → c.mon ≡ some m.id
unfolding focustop visible_on
focustop-mon s m k c h e =
    ground (arith, find_by_holds (client_is s (λ d. visible_on d m)) s.fstack k h)

raise_focus-selmon : (s : Server) (c : Client) → (raise_focus s c).selmon ≡ c.mon
unfolding raise_focus
raise_focus-selmon s c = elim (Option-cases c.mon) [
  | inl e ↦ rw (e, raise_focus) e
  | inr (k, e) ↦ ground (arith, e)
]

focus_some-selmon :
    (s : Server) (o : Option Client) (k : ℕ)
    → s.selmon ≡ some k
    → ((c : Client) → o ≡ some c → c.mon ≡ some k)
    → (focus_some s o).selmon ≡ some k
focus_some-selmon s none k h g = h
focus_some-selmon s (some c) k h g = ground (arith, g c refl, raise_focus-selmon s c)

-- Focusing the topmost window of the selected monitor keeps it selected.
pub focusclient-selmon :
    (s : Server) (m : Monitor) (k : ℕ)
    → s.selmon ≡ some k
    → m.id ≡ k
    → (focusclient s (focustop s (some m))).selmon ≡ some k
focusclient-selmon s m k h e = elim (Option-cases (focustop s (some m))) [
  | inl n ↦ rw n (unfold focusclient in ground arith)
  | inr (j, f) ↦
      let r =
        focus_some-selmon s (find_client s j) k h (λ c g. focustop-mon s m j c f g ∙ ap some e) in
      rw f (unfold focusclient in ground (arith, r))
]

-- Focusing the topmost window of a monitor and arranging it leaves the tag sets, the chosen one
-- of them and the canvas tags of every monitor as they were.
pub refocus-views : (s : Server) (k : ℕ) → views (refocus s k) ≡ views s
unfolding refocus
refocus-views s k =
    arrange-views (focusclient s (focustop s (find_mon s k))) k
    ∙ focusclient-views s (focustop s (find_mon s k))

pub refocus-selmon :
    (s : Server) (k : ℕ) (m : Monitor)
    → find_mon s k ≡ some m
    → s.selmon ≡ some k
    → (refocus s k).selmon ≡ some k
unfolding refocus
refocus-selmon s k m f h =
    arrange-selmon (focusclient s (focustop s (find_mon s k))) k
    ∙ rw f
        (focusclient-selmon s m k h ((==_iff m.id k).0 (find_by_holds (λ n. n.id == k) s.mons m f)))

-- A monitor's view by its id.
abbrev pub shown : List View → ℕ → Option View
shown vs k = find_by (λ v. v.id == k) vs

abbrev pub view_of? : Option Monitor → Option View
view_of? none = none
view_of? (some m) = some (view_of m)

pub find_mon-shown :
    (ms : List Monitor) (k : ℕ) → view_of? (find_by (λ m. m.id == k) ms) ≡ shown (map view_of ms) k
find_mon-shown [] k = refl
find_mon-shown (m ∷ ms) k = ground (arith, find_mon-shown ms k)

pub find_mon-update :
    (ms : List Monitor) (k : ℕ) (f : Monitor → Monitor) (m : Monitor)
    → ((n : Monitor) → (f n).id ≡ n.id)
    → find_by (λ n. n.id == k) ms ≡ some m
    → find_by (λ n. n.id == k) (map (λ n. if n.id == k then f n else n) ms) ≡ some (f m)
find_mon-update [] k f m h e = cc
find_mon-update (n ∷ ns) k f m h e =
    ground (arith, h n, find_mon-update ns k f m h, λ (g : n ≡ m). ap f g)
