-- ===== src/Config/Load.antt =====
-- config_load in src/parser.c: a fresh configuration is read, and replaces the old one only if all of
-- it succeeds. A Lua state is known by a number; the file that Lua runs stands behind the calls of
-- mono.bind that it makes, whether it ends without an error, and the state that it leaves.
use monowm.Base.{ℕ, Bool, true, false, Option, none, some, List, [], ◌∷◌, ◌++◌, if◌then◌else◌}
use monowm.Config.Lua.{Lua, bytes, same_bytes}
use monowm.Config.Sections.{
  parse_appearance, parse_animations, parse_input, parse_rules, parse_monitors, parse_autostart,
}
use monowm.Config.Types.{CfgAppearance, CfgInput, CfgRule, CfgMonitorRule}
use monowm.Config.Bindings.{
  Keys, BindCall, CfgKeybind, CfgButton, Ended, returned, parse_keybinds, parse_buttons,
  l_mono_bind,
}

pub data LogLevel : Type 0 where
  silent error info debug : LogLevel

pub record Config (D F : Type 0) : Type 0 where
  pub appearance : CfgAppearance F
  pub animations : Bool × D
  pub input : CfgInput D
  pub rules : List CfgRule
  pub monitors : List (CfgMonitorRule F)
  pub keybinds : List CfgKeybind
  pub buttons : List CfgButton
  pub sloppyfocus : Bool
  pub bypass_surface_visibility : Bool
  pub log_level : LogLevel
  pub autostart : List (List ℕ)

-- The caller's configuration, g_L, the bindings of the configuration behind g_loading_cfg, and the
-- Lua states that were closed.
pub record Store (D F : Type 0) : Type 0 where
  pub out : Config D F
  pub current : Option ℕ
  pub loading : Option (List CfgKeybind)
  pub closed : List ℕ

abbrev pub log_of : List ℕ → LogLevel
log_of s =
    if same_bytes s (bytes "silent")
    then silent
    else if same_bytes s (bytes "info")
    then info
    else if same_bytes s (bytes "debug")
    then debug
    else error

-- `if (old_L) lua_close(old_L)`.
abbrev pub close_old : Option ℕ → List ℕ → List ℕ
close_old none closed = closed
close_old (some l) closed = closed ++ l ∷ []

abbrev pub or_no_binds : Option (List CfgKeybind) → List CfgKeybind
or_no_binds none = []
or_no_binds (some binds) = binds

module _ (K : Keys) (L : Lua) where
  -- mono.bind: nothing happens unless a configuration is being loaded.
  abbrev bind_into : BindCall → Option (List CfgKeybind) → Ended × Option (List CfgKeybind)
  bind_into call none = (returned, none)
  bind_into call (some binds) =
      let (ended, binds') = l_mono_bind K call binds in (ended, some binds')

  unfoldable pub mono_bind : BindCall → Store L.Double L.Float → Ended × Store L.Double L.Float
  unfolding l_mono_bind
  mono_bind call s =
      let (ended, loading) = bind_into call s.loading in (ended, record s { loading = loading })

  -- The calls of mono.bind that the file makes, in their order. An error that the file does not
  -- catch ends the list.
  unfoldable pub run_binds : List BindCall → Store L.Double L.Float → Store L.Double L.Float
  unfolding mono_bind
  run_binds [] s = s
  run_binds (call ∷ calls) s = run_binds calls (mono_bind call s).1

  abbrev pub bool_or : L.Value → Bool → Bool
  bool_or v def = if L.is_boolean v then L.to_boolean v else def

  abbrev pub log_level_of : L.Value → LogLevel
  log_level_of v = if L.is_string v then log_of (L.text v) else error

  -- The fresh configuration, after the bindings that the file made.
  unfoldable pub read_config : List CfgKeybind → Config L.Double L.Float
  unfolding parse_appearance parse_animations parse_input parse_rules parse_monitors parse_keybinds
      parse_buttons parse_autostart
  read_config binds = record {
    appearance = parse_appearance L;
    animations = parse_animations L;
    input = parse_input L;
    rules = parse_rules L;
    monitors = parse_monitors L;
    keybinds = parse_keybinds K L binds;
    buttons = parse_buttons K L;
    sloppyfocus = bool_or (L.global "sloppy_focus") true;
    bypass_surface_visibility = bool_or (L.global "bypass_surface_visibility") false;
    log_level = log_level_of (L.global "log_level");
    autostart = parse_autostart L;
  }

  abbrev load_with :
      Option ℕ → List BindCall → Bool → Store L.Double L.Float → Bool × Store L.Double L.Float
  load_with none calls ok s = (false, s)
  load_with (some l) calls ok s =
      let ran = run_binds calls (record s { current = some l; loading = some [] }) in
      if ok
      then (
        true,
        record ran {
          out = read_config (or_no_binds ran.loading);
          loading = none;
          closed = close_old s.current ran.closed;
        },
      )
      else (
        false,
        record ran { loading = none; closed = ran.closed ++ l ∷ []; current = s.current },
      )

  -- Whether it returns 0, and the store. `made` is what luaL_newstate returns, `ok` is whether
  -- luaL_dofile returns LUA_OK.
  unfoldable pub config_load :
      Option ℕ → List BindCall → Bool → Store L.Double L.Float → Bool × Store L.Double L.Float
  unfolding run_binds read_config
  config_load made calls ok s = load_with made calls ok s
