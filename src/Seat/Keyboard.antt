-- ===== src/Seat/Keyboard.antt =====
-- keypress and keyrepeat of src/main.c.
use monowm.Base.{
  ℕ, ◌+◌, ◌-◌, Bool, true, false, not, ◌&&◌, ◌||◌, Option, none, some, List, [], ◌∷◌, if◌then◌else◌,
  leb,
}
use monowm.Config.Bindings.{CfgKeybind}
use monowm.Wm.State.{Server, Surface}
use monowm.Wm.Dispatch.{World, keybinding}

-- XKB_KEY_XF86Switch_VT_1 and XKB_KEY_XF86Switch_VT_12.
pub record VtKeys : Type 0 where
  pub first : ℕ
  pub last : ℕ

-- The part of a KeyboardGroup that repeats keys; `timer` is that the timer runs.
pub record KeyboardGroup : Type 0 where
  pub mods : ℕ
  pub keysyms : List ℕ
  pub timer : Bool

-- A key: its keysyms with and without the modifiers, and whether it was pressed or released.
pub record Key : Type 0 where
  pub mods : ℕ
  pub syms : List ℕ
  pub base_syms : List ℕ
  pub pressed : Bool

-- What became of a key: another terminal, a binding that ran, or the focused surface.
pub data Outcome : Type 0 where
  switched : ℕ → Outcome
  handled : Outcome
  passed : Surface → Outcome

unfoldable pub vt_of : VtKeys → List ℕ → Option ℕ
vt_of V [] = none
vt_of V (x ∷ xs) =
    let rest = vt_of V xs in if leb V.first x && leb x V.last then some (x - V.first + 1) else rest

abbrev or_vt : Option ℕ → Option ℕ → Option ℕ
or_vt none b = b
or_vt (some a) b = some a

abbrev pub vt_switch : VtKeys → Bool → Key → Option ℕ
vt_switch V session k =
    if session && k.pressed then or_vt (vt_of V k.syms) (vt_of V k.base_syms) else none

-- Every keysym is tried; some of them may be bound.
unfoldable try_syms : World → List CfgKeybind → ℕ → List ℕ → Server → Bool × Server
unfolding keybinding
try_syms W ks mods [] s = (false, s)
try_syms W ks mods (x ∷ xs) s =
    let (now, t) = keybinding W s ks mods x in
    let (later, u) = try_syms W ks mods xs t in (later || now, u)

abbrev or_base : World → List CfgKeybind → Key → Bool × Server → Bool × Server
or_base W ks k (done, s) = if done then (true, s) else try_syms W ks k.mods k.base_syms s

unfoldable pub run_key : World → List CfgKeybind → Key → Server → Bool × Server
unfolding try_syms
run_key W ks k s =
    if not s.locked && k.pressed then or_base W ks k (try_syms W ks k.mods k.syms s) else (false, s)

-- `delays` is that the delay of repeated keys is above 0.
abbrev pub finish : Bool → Key → KeyboardGroup → Bool × Server → Outcome × KeyboardGroup × Server
finish delays k g (done, s) = (
  if done then handled else passed s.focused_surface,
  if done && delays
      then record { mods = k.mods; keysyms = k.base_syms; timer = true }
      else record g { keysyms = []; timer = false },
  s,
)

unfoldable pub keypress :
    World
    → List CfgKeybind
    → VtKeys
    → Bool
    → Bool
    → Key
    → KeyboardGroup
    → Server
    → Outcome × KeyboardGroup × Server
unfolding vt_of run_key
keypress W ks V session delays k g s = elim (vt_switch V session k) [
  | none ↦ finish delays k g (run_key W ks k s)
  | some n ↦ (switched n, g, s)
]

abbrev pub is_nil : List ℕ → Bool
is_nil [] = true
is_nil (x ∷ xs) = false

-- The timer went off. `rates` is that the rate of repeated keys is above 0.
unfoldable pub keyrepeat :
    World → List CfgKeybind → Bool → KeyboardGroup → Server → KeyboardGroup × Server
unfolding try_syms
keyrepeat W ks rates g s =
    if s.locked
    then (record g { keysyms = []; timer = false }, s)
    else if is_nil g.keysyms || not rates
    then (record g { timer = false }, s)
    else (record g { timer = true }, (try_syms W ks g.mods g.keysyms s).1)
