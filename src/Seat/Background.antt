-- ===== src/Seat/Background.antt =====
-- Layer surfaces of src/main.c and the background that covers the outputs of a locked session.
use monowm.Base.{
  ℕ, ◌≡◌, refl, inl, inr, Bool, not, Option, none, some, ◌==◌, ◌∷◌, if◌then◌else◌, Bool-cases,
  Option-cases,
}
use monowm.Wm.State.{Monitor, find_mon, opt_eq}
use monowm.Seat.Session.{Session, LayerSurface}
use monowm.Seat.Layers.{
  Scene, arrangelayers, arrangelayers_on, topmost, createlayersurface, commitlayersurfacenotify,
  unmaplayersurfacenotify, disable, is_layer, rearranged, update_layer, or_else, with_state,
  committed, without, unmapped,
}
use monowm.Seat.Covered.{take_focus-lock}

pub arrangelayers-covered :
    (C : Scene) (k : ℕ) (s : Session) → (arrangelayers C k s).background ≡ s.background
unfolding arrangelayers
arrangelayers-covered C k s = go (find_mon s.server k)
  where
    go : (o : Option Monitor) → (arrangelayers_on C o s).background ≡ s.background
    go none = refl
    go (some m) = elim (Bool-cases (not m.enabled)) [
      | inl e ↦ rw (e, arrangelayers_on) refl
      | inr e ↦
          rw (e, arrangelayers_on) (take_focus-lock (topmost s.server.locked (s.layers m.id)) _).1
    ]

pub unmap-covered :
    (C : Scene) (o : Option ℕ) (m i k : ℕ) (s : Session)
    → (unmaplayersurfacenotify C o m i k s).background ≡ s.background
unfolding unmaplayersurfacenotify
unmap-covered C o m i k s =
    let off = record (update_layer m i (unmapped k) s) {
      server = record s.server { focused_surface = disable k s.server.focused_surface };
      exclusive_focus = if opt_eq s.exclusive_focus k then none else s.exclusive_focus;
    } in
    let t = rearranged C o off in
    elim (Bool-cases (is_layer t.server.focused_surface k)) [
      | inl e ↦ rw e (go o off)
      | inr e ↦ rw e (go o off)
    ]
  where
    go : (o : Option ℕ) (t : Session) → (rearranged C o t).background ≡ t.background
    go none t = refl
    go (some j) t = arrangelayers-covered C j t

pub commit-covered :
    (C : Scene) (b : Bool) (m from to : ℕ) (l : LayerSurface) (s : Session)
    → (commitlayersurfacenotify C b m from to l s).background ≡ s.background
unfolding commitlayersurfacenotify
commit-covered C b m from to l s = elim (Bool-cases (not b)) [
  | inl e ↦ rw (e, commitlayersurfacenotify) refl
  | inr e ↦ elim (Bool-cases (from == to)) [
    | inl f ↦
        rw (e, f, commitlayersurfacenotify)
          (arrangelayers-covered C m (update_layer m to (with_state l) (committed l to s)))
    | inr f ↦
        rw (e, f, commitlayersurfacenotify)
          (arrangelayers-covered C m (
            update_layer m to (λ ls. l ∷ ls)
              (update_layer m from (without l.id) (committed l to s))))
  ]
]

pub create-covered :
    (o : Option ℕ) (i : ℕ) (l : LayerSurface) (s : Session)
    → (createlayersurface o i l s).background ≡ s.background
unfolding createlayersurface
create-covered o i l s = elim (Option-cases (or_else o s.server.selmon)) [
  | inl e ↦ rw (e, createlayersurface) refl
  | inr (m, e) ↦ rw (e, createlayersurface) refl
]
