-- ===== src/Wm/Homes.antt =====
-- The outputs of windows, and the selected output, under setmon of src/main.c.
use monowm.Base.{
  ℕ, ◌≡◌, refl, sym, ap, ◌∙◌, inl, inr, Bool, false, Option, none, some, List, [], ◌∷◌, map, ◌==◌,
  if◌then◌else◌, arith, Bool-cases, Option-cases, find_by_holds,
}
use monowm.Wm.State.{
  Client, Monitor, Server, find_client, find_mon, focustop, selected, update_client,
}
use monowm.Wm.Focus.{focusclient}
use monowm.Wm.Arrange.{arrange, canvas_leave, enter_canvas}
use monowm.Wm.Tags.{with_sel}
use monowm.Wm.Windows.{
  arrange_of, arranges, mon_of, same_mon, setfloating, setfullscreen, enter_mon, setmon_of,
  redo_floating, redo_fullscreen, give_tags,
}
use monowm.Wm.Views.{arrange-selmon, focusclient-selmon}
use monowm.Wm.Kept.{each_client, update_client-each, focusclient-each, arrange-each}

abbrev pub home : Client → ℕ × Option ℕ
home c = (c.id, c.mon)

abbrev pub homes : Server → List (ℕ × Option ℕ)
homes s = each_client home s

-- What is kept of a server here.
abbrev Stays : Server → Server → Type 0
Stays s t = (homes t ≡ homes s) × (t.selmon ≡ s.selmon)

canvas_leave-home : (c : Client) → home (canvas_leave c) ≡ home c
unfolding canvas_leave
canvas_leave-home c = ground arith

canvas_leave-id : (c : Client) → (canvas_leave c).id ≡ c.id
unfolding canvas_leave
canvas_leave-id c = ground arith

enter_canvas-home : (m : Monitor) (c : Client) → home (enter_canvas m c) ≡ home c
unfolding enter_canvas
enter_canvas-home m c = ground arith

arrange-Stays : (s : Server) (k : ℕ) → Stays s (arrange s k)
arrange-Stays s k = (arrange-each home canvas_leave-home enter_canvas-home s k, arrange-selmon s k)

arrange_of-Stays : (o : Option ℕ) (s : Server) → Stays s (arrange_of o s)
arrange_of-Stays none s = (refl, refl)
arrange_of-Stays (some k) s = arrange-Stays s k

Stays-then : (s t u : Server) → Stays s t → Stays t u → Stays s u
Stays-then s t u h i = (i.0 ∙ h.0, i.1 ∙ h.1)

with_sel-Stays :
    (s : Server) (o : Option Client) (g : Client → Server)
    → ((c : Client) → Stays s (g c))
    → Stays s (with_sel s o g)
with_sel-Stays s none g h = (refl, refl)
with_sel-Stays s (some c) g h = h c

changed-Stays :
    (k : ℕ) (f : Client → Client) (s : Server)
    → ((c : Client) → home (f c) ≡ home c)
    → Stays s (update_client k f s)
changed-Stays k f s h = (update_client-each home k f h s, refl)

setfloating-Stays : (s : Server) (k : ℕ) (b : Bool) → Stays s (setfloating s k b)
unfolding setfloating
setfloating-Stays s k b =
    let changed = update_client k (λ d. record d { isfloating = b }) s in
    with_sel-Stays s (find_client s k) (λ c. arrange_of (arranges (mon_of s c.mon) c.mon) changed)
      λ c.
        let o = arranges (mon_of s c.mon) c.mon in
        Stays-then s changed (arrange_of o changed)
          (changed-Stays k (λ d. record d { isfloating = b }) s (λ d. refl))
          (arrange_of-Stays o changed)

setfullscreen-Stays : (s : Server) (k : ℕ) (b : Bool) → Stays s (setfullscreen s k b)
unfolding setfullscreen
setfullscreen-Stays s k b =
    let changed = update_client k (λ d. record d { isfullscreen = b }) s in
    with_sel-Stays s (find_client s k) (λ c. arrange_of c.mon changed)
      λ c.
        Stays-then s changed (arrange_of c.mon changed)
          (changed-Stays k (λ d. record d { isfullscreen = b }) s (λ d. refl))
          (arrange_of-Stays c.mon changed)

enter_mon-Stays : (s : Server) (k : ℕ) (o : Option Monitor) (t : ℕ) → Stays s (enter_mon s k o t)
unfolding enter_mon
enter_mon-Stays s k none t = (refl, refl)
enter_mon-Stays s k (some m) t =
    let given = give_tags k t m s in
    let full = redo_fullscreen k given in
    Stays-then s given (redo_floating k full) (changed-Stays k _ s (λ d. refl)) (
      Stays-then given full (redo_floating k full)
        (with_sel-Stays given (find_client given k) (λ c. setfullscreen given k c.isfullscreen)
          (λ c. setfullscreen-Stays given k c.isfullscreen))
        (with_sel-Stays full (find_client full k) (λ c. setfloating full k c.isfloating)
          (λ c. setfloating-Stays full k c.isfloating)))

selected-selmon : (s : Server) (m : Monitor) → selected s ≡ some m → s.selmon ≡ some m.id
unfolding selected
selected-selmon s m h = go s.selmon h
  where
    go : (o : Option ℕ) → elim o [ none ↦ none | some k ↦ find_mon s k ] ≡ some m → o ≡ some m.id
    go none e = absurd cc
    go (some k) e = ap some (ground (arith, find_by_holds (λ (n : Monitor). n.id == k) s.mons m e))

-- Focusing the topmost window of the selected output selects no other.
focus_selected-selmon : (s : Server) → (focusclient s (focustop s (selected s))).selmon ≡ s.selmon
focus_selected-selmon s = elim (Option-cases (selected s)) [
  | inl e ↦ rw e (unfold focusclient focustop in ground arith)
  | inr (m, e) ↦
      let here = selected-selmon s m e in rw e (focusclient-selmon s m m.id here refl ∙ sym here)
]

pub focus_selected-Stays : (s : Server) → Stays s (focusclient s (focustop s (selected s)))
focus_selected-Stays s =
    (focusclient-each home (λ c. refl) s (focustop s (selected s)), focus_selected-selmon s)

abbrev pub rehome : ℕ → Option ℕ → ℕ × Option ℕ → ℕ × Option ℕ
rehome k m (i, n) = if i == k then (i, m) else (i, n)

moved-home :
    (k : ℕ) (m : Option ℕ) (cs : List Client)
    → map home (map (λ c. if c.id == k then record (canvas_leave c) { mon = m } else c) cs)
      ≡ map (rehome k m) (map home cs)
moved-home k m [] = refl
moved-home k m (c ∷ cs) = elim (Bool-cases (c.id == k)) [
  | inl e ↦ rw (e, canvas_leave-id c) (ap (λ hs. (c.id, m) ∷ hs) (moved-home k m cs))
  | inr e ↦ rw e (ap (λ hs. home c ∷ hs) (moved-home k m cs))
]

-- A window that is not yet there moves to the output that setmon is asked for.
pub setmon_of-homes :
    (s : Server) (c : Client) (m : Option ℕ) (t : ℕ)
    → same_mon c.mon m ≡ false
    → (homes (setmon_of s c m t) ≡ map (rehome c.id m) (homes s))
      × ((setmon_of s c m t).selmon ≡ s.selmon)
unfolding setmon_of
setmon_of-homes s c m t h =
    let moved = update_client c.id (λ d. record (canvas_leave d) { mon = m }) s in
    let cleared = arrange_of c.mon moved in
    let placed = enter_mon cleared c.id (mon_of cleared m) t in
    let focused = focusclient placed (focustop placed (selected placed)) in
    let stays = Stays-then moved cleared focused (arrange_of-Stays c.mon moved) (
      Stays-then cleared placed focused (enter_mon-Stays cleared c.id (mon_of cleared m) t)
        (focus_selected-Stays placed)) in
    rw h (stays.0 ∙ moved-home c.id m s.clients, stays.1)
