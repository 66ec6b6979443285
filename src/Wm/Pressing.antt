-- ===== src/Wm/Pressing.antt =====
-- Tag sets under the actions of src/main.c that keys and buttons are bound to.
use Prim.Native.Nat.{bit_xor}
use monowm.Base.{
  ℕ, ◌≡◌, refl, inl, inr, Bool, true, false, not, ◌&&◌, ◌||◌, map-same, Option, none, some, List,
  map, ◌==◌, if◌then◌else◌, arith, bit_and, Bool-cases,
}
use monowm.Dwindle.Tree.{Box}
use monowm.Wm.State.{
  Layout, Client, Monitor, Server, floating, dwindle_layout, layout, selected, on_mon, update_mon,
  tagset,
}
use monowm.Wm.Views.{view_of}
use monowm.Wm.Safe.{IsTagged, canvas_leave-tags}
use monowm.Wm.Actions.{update_mon-IsTagged, with_sel-IsTagged, arrange-IsTagged}
use monowm.Wm.Moves.{
  setfloating-IsTagged, setfullscreen-IsTagged, setmon-IsTagged, focusclient-IsTagged,
}
use monowm.Wm.Tags.{sel}
use monowm.Wm.Toggles.{
  OutputLayout, togglefloating, togglefullscreen, togglegaps, togglecanvas, leave_canvas,
  leave_disabled, pick_mon, focusmon, tagmon, dirtomon,
}
use monowm.Wm.Directions.{focus_best, focusdir}
use monowm.Wm.Swapping.{swap_tile, swap_best, swapdir, swaptiled, swap_shown, swap_all}

on_mon-IsTagged :
    (s : Server) (o : Option Monitor) (f : Monitor → Server)
    → ((m : Monitor) → IsTagged (f m))
    → IsTagged s
    → IsTagged (on_mon s o f)
on_mon-IsTagged s none f k h = h
on_mon-IsTagged s (some m) f k h = k m

pub if-IsTagged :
    (b : Bool) (s t : Server) → IsTagged s → IsTagged t → IsTagged (if b then s else t)
if-IsTagged true s t h k = h
if-IsTagged false s t h k = k

pub togglefloating-IsTagged : (s : Server) → IsTagged s → IsTagged (togglefloating s)
unfolding togglefloating
togglefloating-IsTagged s h =
    with_sel-IsTagged s (sel s) _
      (λ c. if-IsTagged c.isfullscreen s _ h (setfloating-IsTagged s c.id (not c.isfloating) h)) h

pub togglefullscreen-IsTagged : (s : Server) → IsTagged s → IsTagged (togglefullscreen s)
unfolding togglefullscreen
togglefullscreen-IsTagged s h =
    with_sel-IsTagged s (sel s) _ (λ c. setfullscreen-IsTagged s c.id (not c.isfullscreen) h) h

pub togglegaps-IsTagged : (s : Server) → IsTagged s → IsTagged (togglegaps s)
unfolding togglegaps
togglegaps-IsTagged s h =
    on_mon-IsTagged s (selected s) _
      (λ m.
        arrange-IsTagged _ m.id
          (update_mon-IsTagged m.id (λ n. record n { gaps = not n.gaps }) s (λ n p. p) h))
      h

leave_disabled-tags : (k d t : ℕ) (c : Client) → (leave_disabled k d t c).tags ≡ c.tags
unfolding leave_disabled
leave_disabled-tags k d t c = ground (arith, canvas_leave-tags c)

leave_canvas-tags :
    (k d t : ℕ) (cs : List Client)
    → map (λ (c : Client). c.tags) (leave_canvas k d t cs) ≡ map (λ (c : Client). c.tags) cs
unfolding leave_canvas
leave_canvas-tags k d t cs = elim (Bool-cases (d == 0)) [
  | inl e ↦ rw e refl
  | inr e ↦
      rw e (map-same (λ (c : Client). c.tags) (leave_disabled k d t) (leave_disabled-tags k d t) cs)
]

pub togglecanvas-IsTagged : (s : Server) → IsTagged s → IsTagged (togglecanvas s)
unfolding togglecanvas
togglecanvas-IsTagged s h =
    on_mon-IsTagged s (selected s) _
      (λ m.
        let disabled = bit_and m.canvas_tags (tagset m) in
        let canvas_tags = bit_xor m.canvas_tags (tagset m) in
        let t = update_mon m.id (λ n. record n { canvas_tags = canvas_tags }) s in
        let k =
          update_mon-IsTagged m.id (λ n. record n { canvas_tags = canvas_tags }) s (λ n p. p) h in
        arrange-IsTagged _ m.id (rw (leave_canvas-tags m.id disabled canvas_tags t.clients) k))
      h

pub focusmon-IsTagged :
    (O : OutputLayout) (s : Server) (dir : ℕ) → IsTagged s → IsTagged (focusmon O s dir)
unfolding focusmon
focusmon-IsTagged O s dir h =
    on_mon-IsTagged s (selected s) _ (λ m. focusclient-IsTagged (pick_mon O s dir m.id) _ h) h

pub tagmon-IsTagged :
    (O : OutputLayout) (s : Server) (dir : ℕ) → IsTagged s → IsTagged (tagmon O s dir)
unfolding tagmon
tagmon-IsTagged O s dir h =
    with_sel-IsTagged s (sel s) _
      (λ c.
        on_mon-IsTagged s (selected s) _
          (λ m. setmon-IsTagged s c.id (some (dirtomon O dir m.id)) 0 (omega arith) h) h)
      h

focus_best-IsTagged :
    (geom : ℕ → Box) (s : Server) (o : Option ℕ) → IsTagged s → IsTagged (focus_best geom s o)
focus_best-IsTagged geom s none h = h
focus_best-IsTagged geom s (some k) h = focusclient-IsTagged s (some k) h

pub focusdir-IsTagged :
    (geom : ℕ → Box) (p : ℕ → Bool) (s : Server) (dir : ℕ)
    → IsTagged s
    → IsTagged (focusdir geom p s dir)
unfolding focusdir
focusdir-IsTagged geom p s dir h =
    with_sel-IsTagged s (sel s) _
      (λ c.
        if-IsTagged (c.isfullscreen && not (p c.id)) s _ h
          (on_mon-IsTagged s (selected s) _ (λ m. focus_best-IsTagged geom s _ h) h))
      h

swap_tile-IsTagged :
    (s : Server) (a b : ℕ) (m : Monitor) → IsTagged s → IsTagged (swap_tile s a b m)
swap_tile-IsTagged s a b m h = of_layout (layout m)
  where
    of_layout :
        (l : Layout)
        → IsTagged (elim l [ floating ↦ s | dwindle_layout ↦ update_mon m.id (swap_shown s a b) s ])
    of_layout floating = h
    of_layout dwindle_layout = update_mon-IsTagged m.id (swap_shown s a b) s (λ n p. p) h

swap_best-IsTagged :
    (s : Server) (m : Monitor) (a : ℕ) (o : Option ℕ) → IsTagged s → IsTagged (swap_best s m a o)
swap_best-IsTagged s m a none h = h
swap_best-IsTagged s m a (some b) h =
    focusclient-IsTagged (swap_tile s a b m) (some a) (swap_tile-IsTagged s a b m h)

pub swapdir-IsTagged :
    (geom : ℕ → Box) (s : Server) (dir : ℕ) → IsTagged s → IsTagged (swapdir geom s dir)
unfolding swapdir
swapdir-IsTagged geom s dir h =
    with_sel-IsTagged s (sel s) _
      (λ c.
        if-IsTagged (c.isfloating || c.isfullscreen) s _ h
          (on_mon-IsTagged s (selected s) _ (λ m. swap_best-IsTagged s m c.id _ h) h))
      h

pub swaptiled-IsTagged : (s : Server) (a b : ℕ) → IsTagged s → IsTagged (swaptiled s a b)
unfolding swaptiled
swaptiled-IsTagged s a b h = if-IsTagged (a == b) s _ h (
    focusclient-IsTagged (record s { mons = map (swap_all s a b) s.mons }) (some a)
      (rw (map-same view_of (swap_all s a b) (λ m. refl) s.mons) h))
