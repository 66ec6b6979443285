-- ===== src/Config/Sizes.antt =====
-- The sizes of a configuration that config_load (src/parser.c) reads, against the arrays of
-- include/mono/parser.h.
use monowm.Base.{
  ℕ, ◌<◌, ◌≡◌, inl, inr, Bool, true, false, Option, none, some, List, [], ◌∷◌, length,
  length-append, All-append, arith, Bool-cases, leb, ◌==◌, Option-cases, ◌++◌,
}
use monowm.Config.Lua.{Lua, copied, max_strlen}
use monowm.Config.Types.{max_rules, max_monitors, max_autostart, max_autostart_cmd}
use monowm.Config.Combo.{is_bad_combo, tokens, but_last, last_of}
use monowm.Config.Bindings.{
  Keys, CfgCommand, Bound, runs, calls, CfgKeybind, CfgButton, max_keybinds, max_args, Ended,
  returned, raised, arg_text, parse_command, key_with, keybind_of, button_with, mouse_of,
  parse_keybinds, parse_buttons, bind_key, bind_combo, check_args, BindCall, l_mono_bind,
  lua_get_mods, or_mods,
}
use monowm.Config.Load.{Config, Store, read_config, config_load}
use monowm.Config.Bounds.{
  Each, if-holds, Fits, Holds, RuleFits, MonitorFits, copied-Fits, length-fill_array_le,
  fill_array-All, text_of, parse_rules-Holds, parse_monitors-Holds, parse_autostart-Holds,
}
use monowm.Config.Transaction.{atomic, bound_by, config_load-atomic}

abbrev CommandFits : CfgCommand → Type 0
CommandFits c = Fits max_strlen c.action × Holds max_args (Fits max_strlen) c.args

abbrev BoundFits : Bound → Type 0
BoundFits (runs c) = CommandFits c
BoundFits (calls ref) = Unit {0}

abbrev KeyFits : CfgKeybind → Type 0
KeyFits k = BoundFits k.bound

abbrev ButtonFits : CfgButton → Type 0
ButtonFits b = CommandFits b.command

-- The arrays and texts of a configuration, in the room that its type has.
pub record IsBounded {D F : Type 0} (c : Config D F) : Type 0 where
  rules : Holds max_rules RuleFits c.rules
  monitors : Holds max_monitors MonitorFits c.monitors
  keybinds : Holds max_keybinds KeyFits c.keybinds
  buttons : Holds max_keybinds ButtonFits c.buttons
  autostart : Holds max_autostart (Fits max_autostart_cmd) c.autostart

abbrev BindsFit : Ended × List CfgKeybind → Type 0
BindsFit r = Holds max_keybinds KeyFits r.1

module _ (K : Keys) (L : Lua) where
  arg_text-Fits : (v : L.Value) → Each (Fits max_strlen) (arg_text K L v)
  arg_text-Fits v =
      if-holds (Each (Fits max_strlen)) (L.is_string v) (some _) none
        (copied-Fits max_strlen (L.text v) (omega arith)) tt

  parse_command-Fits : (t : L.Value) → CommandFits (parse_command K L t)
  unfolding parse_command
  parse_command-Fits t = elim (Bool-cases (L.is_table (L.field t "args"))) [
    | inl e ↦ (
      text_of L t "action",
      rw e (
        length-fill_array_le L max_args (arg_text K L) _ [] (omega arith),
        fill_array-All L max_args (arg_text K L) (Fits max_strlen) arg_text-Fits _ [] tt,
      ),
    )
    | inr e ↦ (text_of L t "action", rw e (omega arith, tt))
  ]

  key_with-Fits : (t : L.Value) (key : ℕ) (o : Option ℕ) → Each KeyFits (key_with K L t key o)
  key_with-Fits t key none = tt
  key_with-Fits t key (some mods) =
      if-holds (Each KeyFits) (key == 0) none (some _) tt (parse_command-Fits t)

  keybind_of-Fits : (v : L.Value) → Each KeyFits (keybind_of K L v)
  unfolding keybind_of
  keybind_of-Fits v =
      if-holds (Each KeyFits) (L.is_table v) _ none (key_with-Fits v _ (lua_get_mods K L v)) tt

  button_with-Fits : (t : L.Value) (o : Option ℕ) → Each ButtonFits (button_with K L t o)
  button_with-Fits t none = tt
  button_with-Fits t (some mods) = parse_command-Fits t

  mouse_of-Fits : (v : L.Value) → Each ButtonFits (mouse_of K L v)
  unfolding mouse_of
  mouse_of-Fits v =
      if-holds (Each ButtonFits) (L.is_table v) _ none (button_with-Fits v (lua_get_mods K L v)) tt

  bind_key-Holds :
      (b : Bool) (ref key : ℕ) (o : Option ℕ) (binds : List CfgKeybind)
      → length binds < max_keybinds
      → Holds max_keybinds KeyFits binds
      → Holds max_keybinds KeyFits (bind_key K b ref key o binds).1
  bind_key-Holds b ref key none binds room h = h
  bind_key-Holds b ref key (some mods) binds room h =
      let added = binds ++ record { mods = mods; key = key; bound = calls ref } ∷ [] in
      if-holds BindsFit (key == 0) (returned, binds) _ h
        (if-holds BindsFit b (returned, added) (raised, binds)
          (
            omega (
              arith,
              length-append binds (record { mods = mods; key = key; bound = calls ref } ∷ []),
            ),
            All-append KeyFits binds _ h.1 (tt, tt),
          )
          h)

  bind_combo-Holds :
      (b : Bool) (combo : List ℕ) (ref : ℕ) (binds : List CfgKeybind)
      → length binds < max_keybinds
      → Holds max_keybinds KeyFits binds
      → Holds max_keybinds KeyFits (bind_combo K b combo ref binds).1
  unfolding bind_combo
  bind_combo-Holds b combo ref binds room h =
      if-holds BindsFit (is_bad_combo combo) (raised, binds) _ h
        (bind_key-Holds b ref (K.keysym (last_of (tokens (copied max_strlen combo))))
          (or_mods K (but_last (tokens (copied max_strlen combo))) 0) binds room h)

  check_args-Holds :
      (call : BindCall) (binds : List CfgKeybind)
      → length binds < max_keybinds
      → Holds max_keybinds KeyFits binds
      → Holds max_keybinds KeyFits (check_args K call binds).1
  check_args-Holds call binds room h = elim (Option-cases call.combo) [
    | inl e ↦ rw e h
    | inr (combo, e) ↦ elim (Option-cases call.callback) [
      | inl f ↦ rw (e, f) h
      | inr (ref, f) ↦ rw (e, f) (bind_combo-Holds call.allocates combo ref binds room h)
    ]
  ]

  l_mono_bind-Holds :
      (call : BindCall) (binds : List CfgKeybind)
      → Holds max_keybinds KeyFits binds
      → Holds max_keybinds KeyFits (l_mono_bind K call binds).1
  unfolding l_mono_bind
  l_mono_bind-Holds call binds h = elim (Bool-cases (leb max_keybinds (length binds))) [
    | inl full ↦ rw full h
    | inr room ↦ rw room (check_args-Holds call binds (ground arith) h)
  ]

  bound_by-Holds :
      (cs : List BindCall) (binds : List CfgKeybind)
      → Holds max_keybinds KeyFits binds
      → Holds max_keybinds KeyFits (bound_by K L cs binds)
  unfolding bound_by
  bound_by-Holds [] binds h = h
  bound_by-Holds (call ∷ cs) binds h = bound_by-Holds cs _ (l_mono_bind-Holds call binds h)

  parse_keybinds-Holds :
      (binds : List CfgKeybind)
      → Holds max_keybinds KeyFits binds
      → Holds max_keybinds KeyFits (parse_keybinds K L binds)
  unfolding parse_keybinds
  parse_keybinds-Holds binds h = elim (Bool-cases (L.is_table (L.global "keybinds"))) [
    | inl e ↦ rw e (
      length-fill_array_le L max_keybinds (keybind_of K L) _ binds h.0,
      fill_array-All L max_keybinds (keybind_of K L) KeyFits keybind_of-Fits _ binds h.1,
    )
    | inr e ↦ rw e h
  ]

  parse_buttons-Holds : Holds max_keybinds ButtonFits (parse_buttons K L)
  unfolding parse_buttons
  parse_buttons-Holds = elim (Bool-cases (L.is_table (L.global "buttons"))) [
    | inl e ↦ rw e (
      length-fill_array_le L max_keybinds (mouse_of K L) _ [] (omega arith),
      fill_array-All L max_keybinds (mouse_of K L) ButtonFits mouse_of-Fits _ [] tt,
    )
    | inr e ↦ rw e (omega arith, tt)
  ]

  pub read_config-IsBounded :
      (binds : List CfgKeybind)
      → Holds max_keybinds KeyFits binds
      → IsBounded (read_config K L binds)
  unfolding read_config
  read_config-IsBounded binds h = record {
    rules = parse_rules-Holds L;
    monitors = parse_monitors-Holds L;
    keybinds = parse_keybinds-Holds binds h;
    buttons = parse_buttons-Holds;
    autostart = parse_autostart-Holds L;
  }

  atomic-IsBounded :
      (fresh : Config L.Double L.Float) (made : Option ℕ) (ok : Bool) (s : Store L.Double L.Float)
      → IsBounded fresh
      → IsBounded s.out
      → IsBounded (atomic fresh made ok s).1.out
  atomic-IsBounded fresh none ok s h k = k
  atomic-IsBounded fresh (some l) true s h k = h
  atomic-IsBounded fresh (some l) false s h k = k

  -- If no configuration is being loaded and the old configuration stays within the arrays of its
  -- type, so does the one after config_load, whether it fails or not: at most 64 rules, 16
  -- monitors, 256 key bindings, 256 buttons and 32 commands, each text shorter than its buffer,
  -- at most 16 arguments to a command, and the tags of a rule below 2 ^ 32.
  pub config_load-IsBounded :
      (made : Option ℕ) (cs : List BindCall) (ok : Bool) (s : Store L.Double L.Float)
      → s.loading ≡ none
      → IsBounded s.out
      → IsBounded (config_load K L made cs ok s).1.out
  config_load-IsBounded made cs ok s idle h = rw (config_load-atomic K L made cs ok s idle) (
      atomic-IsBounded _ made ok s
        (read_config-IsBounded _ (bound_by-Holds cs [] (omega arith, tt))) h)
