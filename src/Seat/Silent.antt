-- ===== src/Seat/Silent.antt =====
-- keypress and keyrepeat of src/main.c in a locked session.
use monowm.Base.{◌≡◌, refl, ap, inl, inr, Bool, true, false, none, List, Option-cases}
use monowm.Config.Bindings.{CfgKeybind}
use monowm.Wm.State.{Server}
use monowm.Wm.Dispatch.{World}
use monowm.Seat.Keyboard.{
  VtKeys, KeyboardGroup, Key, passed, keypress, keyrepeat, run_key, vt_switch, finish,
}

run_key_locked :
    (W : World) (ks : List CfgKeybind) (k : Key) (s : Server)
    → s.locked ≡ true
    → run_key W ks k s ≡ (false, s)
unfolding run_key
run_key_locked W ks k s h = rw (h, run_key) refl

pub keyrepeat_locked :
    (W : World) (ks : List CfgKeybind) (rates : Bool) (g : KeyboardGroup) (s : Server)
    → s.locked ≡ true
    → (keyrepeat W ks rates g s).1 ≡ s
unfolding keyrepeat
keyrepeat_locked W ks rates g s h = rw (h, keyrepeat) refl

-- If the session is locked, a key that does not switch to another terminal is passed to the
-- surface with the keyboard and leaves the windows and outputs as they are, whatever bindings
-- there are; a key that repeats leaves them as they are too.
pub keypress_locked :
    (W : World) (ks : List CfgKeybind) (V : VtKeys) (session delays rates : Bool) (k : Key)
    (g : KeyboardGroup) (s : Server)
    → s.locked ≡ true
    → vt_switch V session k ≡ none
    → ((keypress W ks V session delays k g s).0 ≡ passed s.focused_surface)
      × ((keypress W ks V session delays k g s).2 ≡ s)
      × ((keyrepeat W ks rates g s).1 ≡ s)
unfolding keypress
keypress_locked W ks V session delays rates k g s h vt = (
  rw (vt, keypress)
      (ap (λ (r : Bool × Server). (finish delays k g r).0) (run_key_locked W ks k s h)),
  rw (vt, keypress)
      (ap (λ (r : Bool × Server). (finish delays k g r).2) (run_key_locked W ks k s h)),
  keyrepeat_locked W ks rates g s h,
)

-- Also where the key switches to another terminal.
pub keypress_rests :
    (W : World) (ks : List CfgKeybind) (V : VtKeys) (session delays : Bool) (k : Key)
    (g : KeyboardGroup) (s : Server)
    → s.locked ≡ true
    → (keypress W ks V session delays k g s).2 ≡ s
unfolding keypress
keypress_rests W ks V session delays k g s h = elim (Option-cases (vt_switch V session k)) [
  | inl e ↦ (keypress_locked W ks V session delays false k g s h e).1
  | inr (n, e) ↦ rw (e, keypress) refl
]
