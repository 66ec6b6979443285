-- ===== src/Seat/Covered.antt =====
-- Layer surfaces of src/main.c and the session lock.
use monowm.Base.{
  ℕ, ◌≡◌, refl, ap, ◌∙◌, inl, inr, Bool, true, not, Option, none, some, List, ◌==◌, ◌∷◌,
  if◌then◌else◌, Bool-cases, Option-cases,
}
use monowm.Dwindle.Tree.{Box}
use monowm.Wm.State.{
  Server, Monitor, Surface, nothing, client_surface, layer_surface, lock_surface, focustop,
  selected, find_mon, opt_eq,
}
use monowm.Wm.Focus.{focusclient}
use monowm.Seat.Session.{Session, LayerSurface}
use monowm.Seat.Layers.{
  Scene, arrangelayers, arrangelayers_on, arrange_area, usable_area, topmost, take_focus,
  createlayersurface, destroylayersurfacenotify, commit_initial, commitlayersurfacenotify,
  unmaplayersurfacenotify, disable, is_layer, rearranged, update_layer, or_else, with_state,
  with_pending, raised_to, committed, without, unmapped,
}
use monowm.Seat.Guarded.{
  is_client, IsGuarded, IsGuarded-kept, focusclient-locked, focusclient_locked, arrange-keyboard,
}

arrange_area-keyboard :
    (C : Scene) (b : Box) (m : Monitor) (s : Server)
    → ((arrange_area C b m s).locked ≡ s.locked)
      × ((arrange_area C b m s).focused_surface ≡ s.focused_surface)
arrange_area-keyboard C b m s = elim (Bool-cases (C.wlr_box_equal b m.w)) [
  | inl e ↦ rw (e, arrange_area) (refl, refl)
  | inr e ↦ rw (e, arrange_area) (arrange-keyboard _ m.id)
]

take_focus-locked :
    (o : Option LayerSurface) (s : Session) → (take_focus o s).server.locked ≡ s.server.locked
take_focus-locked none s = refl
take_focus-locked (some l) s = focusclient-locked s.server none

pub take_focus-lock :
    (o : Option LayerSurface) (s : Session)
    → ((take_focus o s).cur_lock ≡ s.cur_lock) × ((take_focus o s).background ≡ s.background)
take_focus-lock none s = (refl, refl)
take_focus-lock (some l) s = (refl, refl)

topmost_locked : (layers : ℕ → List LayerSurface) → topmost true layers ≡ none
unfolding topmost
topmost_locked layers = refl

arrangelayers_on-IsGuarded :
    (C : Scene) (o : Option Monitor) (s : Session)
    → IsGuarded s
    → IsGuarded (arrangelayers_on C o s)
arrangelayers_on-IsGuarded C none s h = h
arrangelayers_on-IsGuarded C (some m) s h = elim (Bool-cases (not m.enabled)) [
  | inl e ↦ rw (e, arrangelayers_on) h
  | inr e ↦
      let b = usable_area C (s.layers m.id) (s.area m.id) in
      let t = record s { server = arrange_area C b m s.server } in
      let kept = arrange_area-keyboard C b m s.server in
      let o = topmost s.server.locked (s.layers m.id) in
      rw (e, arrangelayers_on)
        (IsGuarded-kept s (take_focus o t) h (take_focus-lock o t).0 (take_focus-lock o t).1
          (take_focus-locked o t ∙ kept.0)
          (λ p.
            ap (λ (q : Option LayerSurface). is_client (take_focus q t).server.focused_surface)
              (ap (λ (c : Bool). topmost c (s.layers m.id)) p ∙ topmost_locked (s.layers m.id))
            ∙ ap is_client kept.1
            ∙ h.no_client p))
]

pub arrangelayers-IsGuarded :
    (C : Scene) (k : ℕ) (s : Session) → IsGuarded s → IsGuarded (arrangelayers C k s)
unfolding arrangelayers
arrangelayers-IsGuarded C k s h = arrangelayers_on-IsGuarded C (find_mon s.server k) s h

same_server :
    (s : Session) (layers : ℕ → ℕ → List LayerSurface)
    → IsGuarded s
    → IsGuarded (record s { layers = layers })
same_server s layers h = record { locks = h.locks; covers = h.covers; no_client = h.no_client }

pub createlayersurface-IsGuarded :
    (o : Option ℕ) (i : ℕ) (l : LayerSurface) (s : Session)
    → IsGuarded s
    → IsGuarded (createlayersurface o i l s)
unfolding createlayersurface
createlayersurface-IsGuarded o i l s h = elim (Option-cases (or_else o s.server.selmon)) [
  | inl e ↦ rw (e, createlayersurface) h
  | inr (m, e) ↦ rw (e, createlayersurface) (same_server s _ h)
]

pub destroylayersurfacenotify-IsGuarded :
    (m i k : ℕ) (s : Session) → IsGuarded s → IsGuarded (destroylayersurfacenotify m i k s)
unfolding destroylayersurfacenotify
destroylayersurfacenotify-IsGuarded m i k s h = same_server s _ h

pub commit_initial-IsGuarded :
    (C : Scene) (m i : ℕ) (l : LayerSurface) (s : Session)
    → IsGuarded s
    → IsGuarded (commit_initial C m i l s)
unfolding commit_initial
commit_initial-IsGuarded C m i l s h =
    same_server (arrangelayers C m (update_layer m i (with_pending l) s)) s.layers
      (arrangelayers-IsGuarded C m (update_layer m i (with_pending l) s) (same_server s _ h))

is_client-raised_to :
    (l : LayerSurface) (to : ℕ) (f : Surface) → is_client (raised_to l to f) ≡ is_client f
is_client-raised_to l to nothing = refl
is_client-raised_to l to (client_surface j) = refl
is_client-raised_to l to (layer_surface j above) = elim (Bool-cases (j == l.id)) [
  | inl e ↦ rw (e, raised_to) refl
  | inr e ↦ rw (e, raised_to) refl
]
is_client-raised_to l to (lock_surface j) = refl

committed-IsGuarded :
    (l : LayerSurface) (to : ℕ) (s : Session) → IsGuarded s → IsGuarded (committed l to s)
committed-IsGuarded l to s h =
    IsGuarded-kept s (committed l to s) h refl refl refl
      (λ p. is_client-raised_to l to s.server.focused_surface ∙ h.no_client p)

pub commitlayersurfacenotify-IsGuarded :
    (C : Scene) (b : Bool) (m from to : ℕ) (l : LayerSurface) (s : Session)
    → IsGuarded s
    → IsGuarded (commitlayersurfacenotify C b m from to l s)
unfolding commitlayersurfacenotify
commitlayersurfacenotify-IsGuarded C b m from to l s h =
    let t = committed l to s in
    let g = committed-IsGuarded l to s h in
    elim (Bool-cases (not b)) [
      | inl e ↦ rw (e, commitlayersurfacenotify) h
      | inr e ↦ elim (Bool-cases (from == to)) [
        | inl f ↦
            rw (e, f, commitlayersurfacenotify)
              (arrangelayers-IsGuarded C m (update_layer m to (with_state l) t) (same_server t _ g))
        | inr f ↦
            rw (e, f, commitlayersurfacenotify)
              (arrangelayers-IsGuarded C m
                (update_layer m to (λ ls. l ∷ ls) (update_layer m from (without l.id) t))
                (same_server t _ g))
      ]
    ]

is_client-disable : (k : ℕ) (f : Surface) → is_client (disable k f) ≡ is_client f
is_client-disable k nothing = refl
is_client-disable k (client_surface j) = refl
is_client-disable k (layer_surface j above) = elim (Bool-cases (j == k)) [
  | inl e ↦ rw (e, disable) refl
  | inr e ↦ rw (e, disable) refl
]
is_client-disable k (lock_surface j) = refl

rearranged-IsGuarded :
    (C : Scene) (o : Option ℕ) (s : Session) → IsGuarded s → IsGuarded (rearranged C o s)
rearranged-IsGuarded C none s h = h
rearranged-IsGuarded C (some m) s h = arrangelayers-IsGuarded C m s h

-- Focusing a window leaves a session guarded.
refocus-IsGuarded :
    (k : Option ℕ) (s : Session)
    → IsGuarded s
    → IsGuarded (record s { server = focusclient s.server k })
refocus-IsGuarded k s h =
    IsGuarded-kept s (record s { server = focusclient s.server k }) h refl refl
      (focusclient-locked s.server k)
      (λ p.
        ap (λ (v : Server). is_client v.focused_surface) (focusclient_locked s.server k p)
        ∙ h.no_client p)

pub unmaplayersurfacenotify-IsGuarded :
    (C : Scene) (o : Option ℕ) (m i k : ℕ) (s : Session)
    → IsGuarded s
    → IsGuarded (unmaplayersurfacenotify C o m i k s)
unfolding unmaplayersurfacenotify
unmaplayersurfacenotify-IsGuarded C o m i k s h =
    let off = record (update_layer m i (unmapped k) s) {
      server = record s.server { focused_surface = disable k s.server.focused_surface };
      exclusive_focus = if opt_eq s.exclusive_focus k then none else s.exclusive_focus;
    } in
    let t = rearranged C o off in
    let good = rearranged-IsGuarded C o off (
      IsGuarded-kept s off h refl refl refl
        (λ p. is_client-disable k s.server.focused_surface ∙ h.no_client p)) in
    elim (Bool-cases (is_layer t.server.focused_surface k)) [
      | inl e ↦ rw e (refocus-IsGuarded (focustop t.server (selected t.server)) t good)
      | inr e ↦ rw e good
    ]
