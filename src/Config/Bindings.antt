-- ===== src/Config/Bindings.antt =====
-- Key and mouse bindings in src/parser.c: modifiers, commands, the tables `keybinds` and `buttons`,
-- and mono.bind. The keysym of a name and the values of the modifiers and buttons are those of
-- libxkbcommon, wlroots and the kernel.
use monowm.Base.{
  ℕ, length, Option, none, some, List, [], ◌∷◌, ◌++◌, map, ◌==◌, if◌then◌else◌, leb, bit_or, keep,
  Bool,
}
use monowm.Config.Lua.{Lua, bytes, same_bytes, copied, max_strlen, lua_get_string, entries}
use monowm.Config.Sections.{fill_array}
use monowm.Config.Combo.{is_bad_combo, tokens, but_last, last_of}

pub record Keys : Type 0 where
  pub shift : ℕ
  pub ctrl : ℕ
  pub alt : ℕ
  pub logo : ℕ
  pub mod2 : ℕ
  pub mod3 : ℕ
  pub mod5 : ℕ
  pub btn_left : ℕ
  pub btn_right : ℕ
  pub btn_middle : ℕ
  pub keysym : List ℕ → ℕ
  pub atoi : List ℕ → ℕ

pub record CfgCommand : Type 0 where
  pub action : List ℕ
  pub args : List (List ℕ)

-- `command` or `lua_ref`: what a key does.
pub data Bound : Type 0 where
  runs : CfgCommand → Bound
  calls : ℕ → Bound

pub record CfgKeybind : Type 0 where
  pub mods : ℕ
  pub key : ℕ
  pub bound : Bound

pub record CfgButton : Type 0 where
  pub mods : ℕ
  pub button : ℕ
  pub command : CfgCommand

abbrev pub max_keybinds : ℕ
max_keybinds = 256

abbrev pub max_args : ℕ
max_args = 16

-- How a call of mono.bind ends: it returns, or it raises a Lua error.
-- A call of mono.bind: the text that luaL_checkstring makes of its first argument, if it makes one,
-- the reference of its second argument, if that is a function, and whether memory is left.
pub record BindCall : Type 0 where
  pub combo : Option (List ℕ)
  pub callback : Option ℕ
  pub allocates : Bool

pub data Ended : Type 0 where
  returned raised : Ended

module _ (K : Keys) where
  unfoldable pub parse_modifier : List ℕ → ℕ
  parse_modifier name =
      if same_bytes name (bytes "shift")
      then K.shift
      else if same_bytes name (bytes "ctrl")
      then K.ctrl
      else if same_bytes name (bytes "alt")
      then K.alt
      else if same_bytes name (bytes "logo")
      then K.logo
      else if same_bytes name (bytes "mod2")
      then K.mod2
      else if same_bytes name (bytes "mod3")
      then K.mod3
      else if same_bytes name (bytes "mod5")
      then K.mod5
      else 0

  -- Modifiers or-ed together; `none` once one is unknown.
  unfoldable pub or_mods : List (List ℕ) → ℕ → Option ℕ
  unfolding parse_modifier
  or_mods [] mods = some mods
  or_mods (name ∷ names) mods =
      let rest = or_mods names (bit_or mods (parse_modifier name)) in
      if parse_modifier name == 0 then none else rest

  abbrev pub button_of : List ℕ → ℕ
  button_of name =
      if same_bytes name (bytes "left")
      then K.btn_left
      else if same_bytes name (bytes "right")
      then K.btn_right
      else if same_bytes name (bytes "middle")
      then K.btn_middle
      else K.atoi name

  module _ (L : Lua) where
    -- The texts among the entries of a table.
    abbrev pub texts_of : L.Value → List (List ℕ)
    texts_of t = map L.text (keep L.is_string (entries L t))

    unfoldable pub lua_get_mods : L.Value → Option ℕ
    unfolding or_mods entries
    lua_get_mods t =
        let mods = L.field t "mods" in if L.is_table mods then or_mods (texts_of mods) 0 else some 0

    abbrev pub arg_text : L.Value → Option (List ℕ)
    arg_text v = if L.is_string v then some (copied max_strlen (L.text v)) else none

    unfoldable pub parse_command : L.Value → CfgCommand
    unfolding lua_get_string entries copied fill_array
    parse_command t =
        let args = L.field t "args" in
        record {
          action = lua_get_string L t "action" max_strlen [];
          args = if L.is_table args then fill_array L max_args arg_text (entries L args) [] else [];
        }

    -- One entry of `keybinds`: passed over if a modifier or the key is unknown.
    abbrev pub key_with : L.Value → ℕ → Option ℕ → Option CfgKeybind
    key_with t key none = none
    key_with t key (some mods) =
        if key == 0
        then none
        else some (record { mods = mods; key = key; bound = runs (parse_command t) })

    unfoldable pub keybind_of : L.Value → Option CfgKeybind
    unfolding lua_get_mods lua_get_string parse_command
    keybind_of t =
        if L.is_table t
        then key_with t (K.keysym (lua_get_string L t "key" max_strlen [])) (lua_get_mods t)
        else none

    abbrev pub button_with : L.Value → Option ℕ → Option CfgButton
    button_with t none = none
    button_with t (some mods) = some (record {
      mods = mods;
      button = button_of (lua_get_string L t "button" max_strlen []);
      command = parse_command t;
    })

    unfoldable pub mouse_of : L.Value → Option CfgButton
    unfolding lua_get_mods lua_get_string parse_command
    mouse_of t = if L.is_table t then button_with t (lua_get_mods t) else none

    -- The bindings of mono.bind come first.
    unfoldable pub parse_keybinds : List CfgKeybind → List CfgKeybind
    unfolding fill_array entries keybind_of
    parse_keybinds binds =
        let t = L.global "keybinds" in
        if L.is_table t then fill_array L max_keybinds keybind_of (entries L t) binds else binds

    unfoldable pub parse_buttons : List CfgButton
    unfolding fill_array entries mouse_of
    parse_buttons =
        let t = L.global "buttons" in
        if L.is_table t then fill_array L max_keybinds mouse_of (entries L t) [] else []

  -- `allocates` is that realloc gives the array of bindings one more entry.
  abbrev pub bind_key : Bool → ℕ → ℕ → Option ℕ → List CfgKeybind → Ended × List CfgKeybind
  bind_key allocates ref key none binds = (raised, binds)
  bind_key allocates ref key (some mods) binds =
      if key == 0
      then (returned, binds)
      else if allocates
      then (returned, binds ++ record { mods = mods; key = key; bound = calls ref } ∷ [])
      else (raised, binds)

  -- The call after its arguments are checked.
  unfoldable pub bind_combo : Bool → List ℕ → ℕ → List CfgKeybind → Ended × List CfgKeybind
  unfolding or_mods tokens copied
  bind_combo allocates combo ref binds =
      let ts = tokens (copied max_strlen combo) in
      if is_bad_combo combo
      then (raised, binds)
      else bind_key allocates ref (K.keysym (last_of ts)) (or_mods (but_last ts) 0) binds

  abbrev pub check_args : BindCall → List CfgKeybind → Ended × List CfgKeybind
  check_args call binds = elim call.combo [
    | none ↦ (raised, binds)
    | some combo ↦ elim call.callback [
      | none ↦ (raised, binds)
      | some ref ↦ bind_combo call.allocates combo ref binds
    ]
  ]

  -- mono.bind while a configuration is loaded.
  unfoldable pub l_mono_bind : BindCall → List CfgKeybind → Ended × List CfgKeybind
  unfolding bind_combo
  l_mono_bind call binds =
      if leb max_keybinds (length binds) then (returned, binds) else check_args call binds
