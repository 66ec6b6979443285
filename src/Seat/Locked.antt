-- ===== src/Seat/Locked.antt =====
-- The session lock of src/main.c against everything that moves the keyboard focus.
use monowm.Base.{
  ℕ, ◌≡◌, refl, sym, ap, ◌∙◌, inl, inr, Bool, true, false, Option, List, Bool-cases, subst,
}
use monowm.Config.Bindings.{CfgKeybind}
use monowm.Wm.State.{Server, nothing}
use monowm.Wm.Dispatch.{World}
use monowm.Seat.Session.{
  Background, Session, LayerSurface, locksession, createlocksurface, destroylocksurface,
  destroylock, enter, is_set,
}
use monowm.Seat.Layers.{
  Scene, arrangelayers, createlayersurface, destroylayersurfacenotify, commit_initial,
  commitlayersurfacenotify, unmaplayersurfacenotify, update_layer, with_pending,
}
use monowm.Seat.Keyboard.{VtKeys, KeyboardGroup, Key, keypress, keyrepeat}
use monowm.Seat.Serving.{Served, Served-Rests}
use monowm.Wm.State.{Monitor}
use monowm.Seat.Outputs.{
  Outputs, updatemons, laid, plug, unplug, switch, cleanupmon, unlock_surface,
}
use monowm.Seat.Plugged.{
  served-IsGuarded, updatemons-IsGuarded, laid-IsGuarded, mons-IsGuarded, cleanupmon-IsGuarded,
  updatemons-background, destroylocksurface-covered, unlock_surface-covered,
}
use monowm.Seat.Silent.{keypress_rests, keyrepeat_locked}
use monowm.Seat.Guarded.{
  is_client, IsGuarded, IsGuarded-kept, locksession-IsGuarded, createlocksurface-IsGuarded,
  destroylocksurface-IsGuarded, destroylock-IsGuarded,
}
use monowm.Seat.Covered.{
  arrangelayers-IsGuarded, createlayersurface-IsGuarded, destroylayersurfacenotify-IsGuarded,
  commit_initial-IsGuarded, commitlayersurfacenotify-IsGuarded, unmaplayersurfacenotify-IsGuarded,
}
use monowm.Seat.Background.{arrangelayers-covered, unmap-covered, commit-covered, create-covered}

-- One call while the lock is not given up. `laid` is that wlroots changes the output layout, and then
-- updatemons runs.
pub data Step (C : Scene) : Session → Session → Type 0 where
  locks : {s : Session} (k : ℕ) → Step C s (locksession k s)
  surface_comes : {s : Session} (k m : ℕ) → Step C s (createlocksurface k m s)
  surface_goes : {s : Session} (m : ℕ) (first : Option ℕ) → Step C s (destroylocksurface m first s)
  lock_vanishes : {s : Session} → is_set s.cur_lock ≡ true → Step C s (destroylock false s)
  serves : {s : Session} {t : Server} → Served s.server t → Step C s (record s { server = t })
  outputs_change : {s : Session} (O : Outputs) → Step C s (updatemons C O (laid O s))
  output_comes :
      {s : Session} (O : Outputs) (m : Monitor) → Step C s (updatemons C O (laid O (plug m s)))
  output_switches :
      {s : Session} (O : Outputs) (k : ℕ) (b : Bool)
      → Step C s (updatemons C O (laid O (switch k b s)))
  output_goes :
      {s : Session} (O : Outputs) (k : ℕ) (first : Option ℕ) → Step C s (cleanupmon C O k first s)
  presses :
      {s : Session} (W : World) (ks : List CfgKeybind) (V : VtKeys) (session delays : Bool)
      (k : Key) (g : KeyboardGroup)
      → s.server.locked ≡ true
      → Step C s (record s { server = (keypress W ks V session delays k g s.server).2 })
  repeats :
      {s : Session} (W : World) (ks : List CfgKeybind) (rates : Bool) (g : KeyboardGroup)
      → s.server.locked ≡ true
      → Step C s (record s { server = (keyrepeat W ks rates g s.server).1 })
  loses : {s : Session} → Step C s (record s { server = enter nothing s.server })
  arranges : {s : Session} (m : ℕ) → Step C s (arrangelayers C m s)
  layer_comes :
      {s : Session} (o : Option ℕ) (i : ℕ) (l : LayerSurface)
      → Step C s (createlayersurface o i l s)
  layer_goes : {s : Session} (m i k : ℕ) → Step C s (destroylayersurfacenotify m i k s)
  layer_first : {s : Session} (m i : ℕ) (l : LayerSurface) → Step C s (commit_initial C m i l s)
  layer_commits :
      {s : Session} (b : Bool) (m from to : ℕ) (l : LayerSurface)
      → Step C s (commitlayersurfacenotify C b m from to l s)
  layer_unmaps :
      {s : Session} (o : Option ℕ) (m i k : ℕ) → Step C s (unmaplayersurfacenotify C o m i k s)

unmoved-IsGuarded :
    (s : Session) (t : Server) → IsGuarded s → t ≡ s.server → IsGuarded (record s { server = t })
unmoved-IsGuarded s t h e =
    served-IsGuarded s t h
      (ap (λ (v : Server). v.locked) e, λ p. ap (λ (v : Server). v.focused_surface) e)

Step-IsGuarded : {C : Scene} {s t : Session} → Step C s t → IsGuarded s → IsGuarded t
Step-IsGuarded {C} {s} (locks k) h = locksession-IsGuarded k s h
Step-IsGuarded {C} {s} (surface_comes k m) h = createlocksurface-IsGuarded k m s h
Step-IsGuarded {C} {s} (surface_goes m first) h = destroylocksurface-IsGuarded m first s h
Step-IsGuarded {C} {s} (lock_vanishes p) h = destroylock-IsGuarded false s p h
Step-IsGuarded {C} {s} (serves {t = t} one) h =
    served-IsGuarded s t h
      (Served-Rests s.server.locked s.server.focused_surface s.server t one (refl, λ p. refl))
Step-IsGuarded {C} {s} (outputs_change O) h =
    updatemons-IsGuarded C O (laid O s) (laid-IsGuarded O s h)
Step-IsGuarded {C} {s} (output_comes O m) h =
    updatemons-IsGuarded C O (laid O (plug m s))
      (laid-IsGuarded O (plug m s) (mons-IsGuarded _ s h))
Step-IsGuarded {C} {s} (output_switches O k b) h =
    updatemons-IsGuarded C O (laid O (switch k b s))
      (laid-IsGuarded O (switch k b s) (mons-IsGuarded _ s h))
Step-IsGuarded {C} {s} (output_goes O k first) h = cleanupmon-IsGuarded C O k first s h
Step-IsGuarded {C} {s} (presses W ks V session delays k g p) h =
    unmoved-IsGuarded s _ h (keypress_rests W ks V session delays k g s.server p)
Step-IsGuarded {C} {s} (repeats W ks rates g p) h =
    unmoved-IsGuarded s _ h (keyrepeat_locked W ks rates g s.server p)
Step-IsGuarded {C} {s} loses h =
    IsGuarded-kept s (record s { server = enter nothing s.server }) h refl refl refl (λ p. refl)
Step-IsGuarded {C} {s} (arranges m) h = arrangelayers-IsGuarded C m s h
Step-IsGuarded {C} {s} (layer_comes o i l) h = createlayersurface-IsGuarded o i l s h
Step-IsGuarded {C} {s} (layer_goes m i k) h = destroylayersurfacenotify-IsGuarded m i k s h
Step-IsGuarded {C} {s} (layer_first m i l) h = commit_initial-IsGuarded C m i l s h
Step-IsGuarded {C} {s} (layer_commits c m from to l) h =
    commitlayersurfacenotify-IsGuarded C c m from to l s h
Step-IsGuarded {C} {s} (layer_unmaps o m i k) h = unmaplayersurfacenotify-IsGuarded C o m i k s h

-- The background is enabled, and has the place and size of the output layout.
abbrev pub Covers : Background → Type 0
Covers b = (b.enabled ≡ true) × (b.box ≡ b.layout)

abbrev pub IsCovered : Session → Type 0
IsCovered s = Covers s.background

updatemons-IsCovered :
    (C : Scene) (O : Outputs) (s : Session)
    → s.background.enabled ≡ true
    → IsCovered (updatemons C O (laid O s))
updatemons-IsCovered C O s h =
    let e = updatemons-background C O (laid O s) in
    (
      ap (λ (b : Background). b.enabled) e ∙ h,
      ap (λ (b : Background). b.box) e ∙ sym (ap (λ (b : Background). b.layout) e),
    )

locksession-background :
    (k : ℕ) (s : Session) → (locksession k s).background ≡ record s.background { enabled = true }
unfolding locksession
locksession-background k s = elim (Bool-cases (is_set s.cur_lock)) [
  | inl e ↦ rw (e, locksession) refl
  | inr e ↦ rw (e, locksession) refl
]

Step-IsCovered : {C : Scene} {s t : Session} → Step C s t → IsCovered s → IsCovered t
unfolding createlocksurface destroylock destroylayersurfacenotify commit_initial cleanupmon
Step-IsCovered {C} {s} (locks k) h =
    let e = locksession-background k s in
    (
      ap (λ (b : Background). b.enabled) e,
      ap (λ (b : Background). b.box) e ∙ h.1 ∙ sym (ap (λ (b : Background). b.layout) e),
    )
Step-IsCovered (surface_comes k m) h = h
Step-IsCovered {C} {s} (surface_goes m first) h =
    subst Covers (sym (destroylocksurface-covered m first s)) h
Step-IsCovered (lock_vanishes p) h = h
Step-IsCovered (serves one) h = h
Step-IsCovered {C} {s} (outputs_change O) h = updatemons-IsCovered C O s h.0
Step-IsCovered {C} {s} (output_comes O m) h = updatemons-IsCovered C O (plug m s) h.0
Step-IsCovered {C} {s} (output_switches O k b) h = updatemons-IsCovered C O (switch k b s) h.0
Step-IsCovered {C} {s} (output_goes O k first) h =
    let u = unplug k s in
    updatemons-IsCovered C O (unlock_surface k first u)
      (ap (λ (b : Background). b.enabled) (unlock_surface-covered k first u) ∙ h.0)
Step-IsCovered (presses W ks V session delays k g p) h = h
Step-IsCovered (repeats W ks rates g p) h = h
Step-IsCovered loses h = h
Step-IsCovered {C} {s} (arranges m) h = subst Covers (sym (arrangelayers-covered C m s)) h
Step-IsCovered {C} {s} (layer_comes o i l) h = subst Covers (sym (create-covered o i l s)) h
Step-IsCovered (layer_goes m i k) h = h
Step-IsCovered {C} {s} (layer_first m i l) h =
    subst Covers (sym (arrangelayers-covered C m (update_layer m i (with_pending l) s))) h
Step-IsCovered {C} {s} (layer_commits c m from to l) h =
    subst Covers (sym (commit-covered C c m from to l s)) h
Step-IsCovered {C} {s} (layer_unmaps o m i k) h = subst Covers (sym (unmap-covered C o m i k s)) h

pub data Steps (C : Scene) : Session → Session → Type 0 where
  stop : {s : Session} → Steps C s s
  then_next : {s t u : Session} → Steps C s t → Step C t u → Steps C s u

Steps-IsGuarded : (C : Scene) (s t : Session) → Steps C s t → IsGuarded s → IsGuarded t
Steps-IsGuarded C s t stop h = h
Steps-IsGuarded C s u (then_next {t = t} before step) h =
    Step-IsGuarded step (Steps-IsGuarded C s t before h)

Steps-IsCovered : (C : Scene) (s t : Session) → Steps C s t → IsCovered s → IsCovered t
Steps-IsCovered C s t stop h = h
Steps-IsCovered C s u (then_next {t = t} before step) h =
    Step-IsCovered step (Steps-IsCovered C s t before h)

-- If a session is locked, the background of the lock is enabled exactly where it is locked and
-- has the box of the output layout, a lock that is there has locked it, and no window has the
-- keyboard, then the session is still locked, the background is still enabled and has the box
-- that the output layout has by then, and no window has the keyboard, after any calls in any
-- order of these: keys are pressed and repeated; windows are mapped, unmapped, moved, made to
-- fill the screen, focused and arranged; clients of dwl-ipc and ext-workspace ask for tags and
-- layouts; outputs are added, switched on or off, moved and removed, each with the updatemons
-- that the change of the layout makes run; layer surfaces come, change and go; lock surfaces
-- come and go; the surface with the keyboard is destroyed; more locks are asked for; and the
-- client of the lock may vanish, but it does not ask to unlock.
pub Steps-locked :
    (C : Scene) (s t : Session)
    → Steps C s t
    → IsGuarded s
    → s.server.locked ≡ true
    → s.background.box ≡ s.background.layout
    → (t.server.locked ≡ true)
      × (t.background.enabled ≡ true)
      × (t.background.box ≡ t.background.layout)
      × (is_client t.server.focused_surface ≡ false)
Steps-locked C s t steps h p size =
    let there = Steps-IsGuarded C s t steps h in
    let covered = Steps-IsCovered C s t steps (h.covers ∙ p, size) in
    let locked = sym there.covers ∙ covered.0 in
    (locked, covered.0, covered.1, there.no_client locked)
