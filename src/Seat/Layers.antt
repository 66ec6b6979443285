-- ===== src/Seat/Layers.antt =====
-- Layer surfaces of src/main.c: arrangelayers and the handlers that call it. What
-- wlr_scene_layer_surface_v1_configure leaves of the usable area is a parameter; where it puts a
-- surface is not kept, so the round over the surfaces that are not exclusive is left out.
use monowm.Base.{
  ℕ, Bool, true, false, not, ◌&&◌, Option, none, some, List, [], ◌∷◌, ◌==◌, if◌then◌else◌, map,
  keep, leb,
}
use monowm.Dwindle.Tree.{Box}
use monowm.Wm.State.{
  Server, Monitor, Surface, layer_surface, opt_eq, focustop, selected, find_mon, update_mon,
}
use monowm.Wm.Focus.{focusclient}
use monowm.Wm.Arrange.{arrange}
use monowm.Seat.Session.{LayerSurface, Session, enter, put}

-- What wlroots computes: the area that a surface leaves of the usable one, and whether two boxes
-- are the same.
pub record Scene : Type 0 where
  pub configure : ℕ → Box → Box
  pub wlr_box_equal : Box → Box → Bool

abbrev pub overlay : ℕ
overlay = 3

abbrev pub top : ℕ
top = 2

-- arrangelayer for the surfaces that are exclusive.
unfoldable arrangelayer : Scene → List LayerSurface → Box → Box
arrangelayer C [] usable = usable
arrangelayer C (l ∷ ls) usable =
    arrangelayer C ls (if l.initialized && l.exclusive then C.configure l.id usable else usable)

-- From the top layer down.
unfoldable pub usable_area : Scene → (ℕ → List LayerSurface) → Box → Box
unfolding arrangelayer
usable_area C layers area =
    arrangelayer C (layers 0) (
      arrangelayer C (layers 1)
        (arrangelayer C (layers top) (arrangelayer C (layers overlay) area)))

abbrev takes_keyboard : LayerSurface → Bool
takes_keyboard l = l.interactive && l.mapped

-- The last one of a list that takes the keyboard.
abbrev last_taking : List LayerSurface → Option LayerSurface
last_taking [] = none
last_taking (l ∷ ls) = elim (last_taking ls) [
  | none ↦ if takes_keyboard l then some l else none
  | some k ↦ some k
]

abbrev pub or_else {ℓ} : {A : Type ℓ} → Option A → Option A → Option A
or_else none b = b
or_else (some a) b = some a

unfoldable pub topmost : Bool → (ℕ → List LayerSurface) → Option LayerSurface
topmost locked layers =
    if locked then none else or_else (last_taking (layers overlay)) (last_taking (layers top))

abbrev pub take_focus : Option LayerSurface → Session → Session
take_focus none s = s
take_focus (some l) s = record s {
  exclusive_focus = some l.id;
  server = enter (layer_surface l.id true) (focusclient s.server none);
}

abbrev pub arrange_area : Scene → Box → Monitor → Server → Server
arrange_area C usable m s =
    if C.wlr_box_equal usable m.w
    then s
    else arrange (update_mon m.id (λ n. record n { w = usable }) s) m.id

abbrev pub arrangelayers_on : Scene → Option Monitor → Session → Session
arrangelayers_on C none s = s
arrangelayers_on C (some m) s =
    if not m.enabled
    then s
    else take_focus (topmost s.server.locked (s.layers m.id)) (record s {
      server = arrange_area C (usable_area C (s.layers m.id) (s.area m.id)) m s.server;
    })

unfoldable pub arrangelayers : Scene → ℕ → Session → Session
unfolding usable_area topmost focusclient arrange
arrangelayers C k s = arrangelayers_on C (find_mon s.server k) s

abbrev pub update_layer : ℕ → ℕ → (List LayerSurface → List LayerSurface) → Session → Session
update_layer m i f s = record s { layers = put s.layers m (put (s.layers m) i (f (s.layers m i))) }

-- A new surface, on the output that it asks for or else the selected one.
unfoldable pub createlayersurface : Option ℕ → ℕ → LayerSurface → Session → Session
createlayersurface output layer l s = elim (or_else output s.server.selmon) [
  | none ↦ s
  | some m ↦ update_layer m layer (λ ls. l ∷ ls) s
]

abbrev pub without : ℕ → List LayerSurface → List LayerSurface
without k ls = keep (λ l. not (l.id == k)) ls

unfoldable pub destroylayersurfacenotify : ℕ → ℕ → ℕ → Session → Session
destroylayersurfacenotify m layer k s = update_layer m layer (without k) s

abbrev pub with_state : LayerSurface → List LayerSurface → List LayerSurface
with_state l ls = map (λ k. if k.id == l.id then l else k) ls

abbrev pub with_pending : LayerSurface → List LayerSurface → List LayerSurface
with_pending l ls = map (λ k. if k.id == l.id then record l { mapped = k.mapped } else k) ls

-- The first commit: the surface is arranged with its pending state, and keeps its current one.
unfoldable pub commit_initial : Scene → ℕ → ℕ → LayerSurface → Session → Session
unfolding arrangelayers
commit_initial C m layer pending s =
    record (arrangelayers C m (update_layer m layer (with_pending pending) s)) { layers = s.layers }

-- focusclient asks a surface for its layer as it is then, and whether its node is enabled, which it is
-- while the surface is mapped.
abbrev pub raised_to : LayerSurface → ℕ → Surface → Surface
raised_to l to (layer_surface j above) =
    if j == l.id then layer_surface j (l.mapped && leb top to) else layer_surface j above
raised_to l to other = other

abbrev pub committed : LayerSurface → ℕ → Session → Session
committed l to s = record s { server = enter (raised_to l to s.server.focused_surface) s.server }

-- A later commit, from one layer to another; `changed` is that the state or the mapping changed.
unfoldable pub commitlayersurfacenotify :
    Scene → Bool → ℕ → ℕ → ℕ → LayerSurface → Session → Session
unfolding arrangelayers
commitlayersurfacenotify C changed m from to l s =
    if not changed
    then s
    else arrangelayers C m (
        if from == to
        then update_layer m to (with_state l) (committed l to s)
        else update_layer m to (λ ls. l ∷ ls)
            (update_layer m from (without l.id) (committed l to s)))

abbrev pub is_layer : Surface → ℕ → Bool
is_layer (layer_surface j above) k = j == k
is_layer _ k = false

-- A surface whose node is disabled stands above nothing.
abbrev pub disable : ℕ → Surface → Surface
disable k (layer_surface j above) = if j == k then layer_surface j false else layer_surface j above
disable k other = other

abbrev pub unmapped : ℕ → List LayerSurface → List LayerSurface
unmapped k ls = map (λ l. if l.id == k then record l { mapped = false } else l) ls

-- `output` is the output of the surface, if it is still there.
abbrev pub rearranged : Scene → Option ℕ → Session → Session
rearranged C none s = s
rearranged C (some m) s = arrangelayers C m s

unfoldable pub unmaplayersurfacenotify : Scene → Option ℕ → ℕ → ℕ → ℕ → Session → Session
unfolding arrangelayers focusclient focustop selected
unmaplayersurfacenotify C output m layer k s =
    let off = record (update_layer m layer (unmapped k) s) {
      server = enter (disable k s.server.focused_surface) s.server;
      exclusive_focus = if opt_eq s.exclusive_focus k then none else s.exclusive_focus;
    } in
    let t = rearranged C output off in
    if is_layer t.server.focused_surface k
    then record t { server = focusclient t.server (focustop t.server (selected t.server)) }
    else t
