-- ===== src/Seat/Session.antt =====
-- The session lock of src/main.c: locksession, createlocksurface, destroylocksurface, destroylock. Scene
-- nodes are not kept, but for whether the background that covers the outputs is enabled. The pointer
-- is not kept.
use monowm.Base.{ℕ, Bool, true, false, not, Option, none, some, List, ◌==◌, if◌then◌else◌}
use monowm.Dwindle.Tree.{Box}
use monowm.Wm.State.{Server, Surface, nothing, lock_surface, opt_eq, focustop, selected}
use monowm.Wm.Focus.{focusclient}

-- A layer surface, with the part of its current state that the code reads.
pub record LayerSurface : Type 0 where
  pub id : ℕ
  pub mapped : Bool
  pub initialized : Bool
  pub exclusive : Bool
  pub interactive : Bool

-- locked_bg: whether it is enabled, and its place and size. `layout` is the box of the output layout,
-- which wlroots keeps.
pub record Background : Type 0 where
  pub enabled : Bool
  pub box : Box
  pub layout : Box

-- `mon_lock` is the field lock_surface, `layers` the field
-- layers and `area` the field m of each output.
pub record Session : Type 0 where
  pub server : Server
  pub cur_lock : Option ℕ
  pub background : Background
  pub mon_lock : ℕ → Option ℕ
  pub layers : ℕ → ℕ → List LayerSurface
  pub area : ℕ → Box
  pub exclusive_focus : Option ℕ

abbrev pub put {ℓ} : {A : Type ℓ} → (ℕ → A) → ℕ → A → ℕ → A
put f k v i = if i == k then v else f i

abbrev pub enter : Surface → Server → Server
enter target s = record s { focused_surface = target }

abbrev pub is_set : Option ℕ → Bool
is_set none = false
is_set (some k) = true

abbrev pub show_background : Bool → Session → Session
show_background b s = record s { background = record s.background { enabled = b } }

-- A client asks for a lock; a second one is turned down.
unfoldable pub locksession : ℕ → Session → Session
unfolding focusclient
locksession k s =
    if is_set s.cur_lock then show_background true s else record (show_background true s) {
      cur_lock = some k;
      server = record (focusclient s.server none) { locked = true };
    }

unfoldable pub createlocksurface : ℕ → ℕ → Session → Session
createlocksurface surface m s = record s {
  mon_lock = put s.mon_lock m (some surface);
  server = if opt_eq s.server.selmon m then enter (lock_surface surface) s.server else s.server;
}

abbrev pub is_lock : Surface → Option ℕ → Bool
is_lock (lock_surface j) k = opt_eq k j
is_lock _ k = false

abbrev pub or_nothing : Option ℕ → Surface
or_nothing none = nothing
or_nothing (some k) = lock_surface k

-- The lock surface of an output goes. `first` is the first surface of the lock, if there is a lock
-- that has one.
unfoldable pub destroylocksurface : ℕ → Option ℕ → Session → Session
unfolding focusclient focustop selected
destroylocksurface m first s =
    let gone = record s { mon_lock = put s.mon_lock m none } in
    if not (is_lock s.server.focused_surface (s.mon_lock m)) then gone else record gone {
      server =
          if s.server.locked
          then enter (if is_set s.cur_lock then or_nothing first else nothing) s.server
          else focusclient s.server (focustop s.server (selected s.server));
    }

-- The lock goes: `unlock` is that its client asked for it, and did not just vanish.
unfoldable pub destroylock : Bool → Session → Session
unfolding focusclient focustop selected
destroylock unlock s =
    let cleared = record (enter nothing s.server) { locked = not unlock } in
    if unlock
    then record (show_background false s) {
      cur_lock = none;
      server = focusclient cleared (focustop cleared (selected cleared));
    }
    else record s { cur_lock = none; server = cleared }
