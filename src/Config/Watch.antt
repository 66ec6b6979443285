-- ===== src/Config/Watch.antt =====
-- The watcher of the configuration's file in src/parser.c: watch_target and watch_dispatch up to the
-- load. The file system and inotify stand behind an interface: whether the path is a symbolic link,
-- its real path, and the descriptor of a new watch.
use monowm.Base.{
  ℕ, Bool, true, false, not, ◌&&◌, ◌||◌, Option, none, some, List, [], ◌∷◌, if◌then◌else◌, elem,
  ◌==◌, ℤ, pos, negsuc,
}
use monowm.Config.Lua.{copied, same_bytes}

pub record Files : Type 0 where
  pub is_link : List ℕ → Bool
  pub realpath : List ℕ → Option (List ℕ)
  pub add_watch : List ℕ → ℤ

-- One event: whether its mask has IN_IGNORED and IN_CREATE, and its name if it has one.
pub record Event : Type 0 where
  pub wd : ℤ
  pub ignored : Bool
  pub create : Bool
  pub name : Option (List ℕ)

-- The watches that were removed are kept in `removed`.
pub record WatchState : Type 0 where
  pub dir_wd : ℤ
  pub target_wd : ℤ
  pub target_name : List ℕ
  pub path : List ℕ
  pub name : List ℕ
  pub removed : List ℤ

abbrev pub slash : ℕ
slash = b'/'

abbrev pub name_size : ℕ
name_size = 256

abbrev pub no_wd : ℤ
no_wd = negsuc 0

abbrev pub same_wd : ℤ → ℤ → Bool
same_wd (pos a) (pos b) = a == b
same_wd (negsuc a) (negsuc b) = a == b
same_wd _ _ = false

abbrev pub is_wd : ℤ → Bool
is_wd (pos a) = true
is_wd (negsuc a) = false

-- The text after the last slash, and the one before it.
unfoldable pub after_slash : List ℕ → List ℕ
after_slash [] = []
after_slash (c ∷ s) =
    let rest = after_slash s in if elem slash s then rest else if c == slash then s else c ∷ s

unfoldable pub before_slash : List ℕ → List ℕ
before_slash [] = []
before_slash (c ∷ s) =
    let rest = before_slash s in if elem slash s then c ∷ rest else if c == slash then [] else c ∷ s

abbrev pub or_root : List ℕ → List ℕ
or_root [] = slash ∷ []
or_root (c ∷ s) = c ∷ s

abbrev pub target_dir : List ℕ → List ℕ
target_dir target = or_root (before_slash target)

-- The watch of the target changes hands.
abbrev pub new_target : ℤ → WatchState → WatchState
new_target wd ws =
    let stale =
      is_wd ws.target_wd && not (same_wd ws.target_wd wd) && not (same_wd ws.target_wd ws.dir_wd) in
    record ws { target_wd = wd; removed = if stale then ws.target_wd ∷ ws.removed else ws.removed }

abbrev pub same_name : Option (List ℕ) → List ℕ → Bool
same_name none s = false
same_name (some name) s = same_bytes name s

module _ (F : Files) where
  abbrev target_with : Option (List ℕ) → WatchState → WatchState
  target_with none ws = ws
  target_with (some target) ws =
      new_target (F.add_watch (target_dir target))
        (record ws { target_name = copied name_size (after_slash target) })

  unfoldable pub watch_target : WatchState → WatchState
  unfolding after_slash before_slash copied
  watch_target ws =
      if F.is_link ws.path then target_with (F.realpath ws.path) ws else new_target no_wd ws

  abbrev pub is_config_entry : WatchState → Event → Bool
  is_config_entry ws ev = same_wd ev.wd ws.dir_wd && same_name ev.name ws.name

  abbrev pub is_target_entry : WatchState → Event → Bool
  is_target_entry ws ev = same_wd ev.wd ws.target_wd && same_name ev.name ws.target_name

  -- A new regular file waits until it is written.
  abbrev pub is_change : WatchState → Event → Bool
  is_change ws ev =
      (is_config_entry ws ev || is_target_entry ws ev)
      && not (ev.create && not (is_config_entry ws ev && F.is_link ws.path))

  abbrev pub forget : Event → WatchState → WatchState
  forget ev ws = record ws {
    target_wd = if same_wd ev.wd ws.target_wd then no_wd else ws.target_wd;
    dir_wd = if same_wd ev.wd ws.dir_wd then no_wd else ws.dir_wd;
  }

  -- The loop over the events, with whether the file changed.
  unfoldable pub drain : List Event → WatchState → Bool → WatchState × Bool
  drain [] ws changed = (ws, changed)
  drain (ev ∷ evs) ws changed =
      drain evs (if ev.ignored then forget ev ws else ws)
        (changed || (not ev.ignored && is_change ws ev))

  -- Whether the configuration is loaded again; `none` is a read that fails.
  unfoldable pub watch_dispatch : Option (List Event) → WatchState → WatchState × Bool
  unfolding drain watch_target
  watch_dispatch none ws = (ws, false)
  watch_dispatch (some evs) ws =
      let (ws', changed) = drain evs ws false in
      if changed then (watch_target ws', true) else (ws', false)
