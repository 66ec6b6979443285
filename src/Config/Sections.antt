-- ===== src/Config/Sections.antt =====
-- The sections of a configuration in src/parser.c: appearance, animations, input, rules, monitors
-- and autostart.
use monowm.Base.{
  ℕ, length, Bool, true, false, Option, none, some, List, [], ◌∷◌, ◌++◌, if◌then◌else◌, leb, pos,
  negsuc,
}
use monowm.Config.Colors.{parse_color_hex, lua_get_color, gray, red_only}
use monowm.Config.Types.{
  Color, CfgAppearance, ScrollMethod, AccelProfile, ClickMethod, SendEvents, TapMap, CfgInput,
  CfgRule, CfgMonitorRule, max_rules, max_monitors, max_autostart, max_autostart_cmd, scroll_of,
  accel_of, click_of, send_of, tap_of, as_word, scroll_zero, accel_adaptive, click_zero,
  send_enabled, tap_lrm,
}
use monowm.Config.Lua.{
  Lua, bytes, is_empty, copied, max_strlen, lua_get_string, lua_get_int, lua_get_size,
  lua_get_double, lua_get_bool, entries,
}

abbrev pub add_one : {A : Type 0} → Option A → List A → List A
add_one none xs = xs
add_one (some x) xs = xs ++ x ∷ []

abbrev pub or_dwindle : List ℕ → List ℕ
or_dwindle name = if is_empty name then bytes "dwindle" else name

module _ (L : Lua) where
  -- Colours that are constants of the source.
  abbrev black : ℕ → Color L.Float
  black alpha = gray L (L.float 0 0) (L.float alpha 0)

  abbrev gray_of : ℕ → ℕ → Color L.Float
  gray_of a k = gray L (L.float a k) (L.float 1 0)

  abbrev pure_red : Color L.Float
  pure_red = red_only L (L.float 1 0) (L.float 0 0) (L.float 1 0)

  unfoldable pub appearance_table : L.Value → CfgAppearance L.Float
  unfolding lua_get_size lua_get_bool lua_get_color
  appearance_table t = record {
    inner_border_px = lua_get_size L t "inner_border_px" 1;
    outer_border_px = lua_get_size L t "outer_border_px" 1;
    gaps = lua_get_size L t "gaps" 10;
    smart_gaps = lua_get_bool L t "smart_gaps" false;
    inner_border_color = lua_get_color L t "inner_border_color" (black 0);
    outer_border_color = lua_get_color L t "outer_border_color" (black 0);
    inner_focus_color = lua_get_color L t "inner_focus_color" (gray_of 91 2);
    outer_focus_color = lua_get_color L t "outer_focus_color" (gray_of 91 2);
    inner_urgent_color = lua_get_color L t "inner_urgent_color" pure_red;
    outer_urgent_color = lua_get_color L t "outer_urgent_color" pure_red;
    root_color = lua_get_color L t "root_color" (gray_of 133 3);
    fullscreen_bg = lua_get_color L t "fullscreen_bg" (black 1);
  }

  -- What stays zero in the fresh configuration is written as such.
  unfoldable pub parse_appearance : CfgAppearance L.Float
  unfolding appearance_table parse_color_hex
  parse_appearance =
      let t = L.global "appearance" in
      if L.is_table t then appearance_table t else record {
        inner_border_px = 1;
        outer_border_px = 1;
        gaps = 10;
        smart_gaps = false;
        inner_border_color = parse_color_hex L 0;
        outer_border_color = parse_color_hex L 0;
        inner_focus_color = parse_color_hex L 0xe8e8e8ff;
        outer_focus_color = parse_color_hex L 0xe8e8e8ff;
        inner_urgent_color = parse_color_hex L 0xff0000ff;
        outer_urgent_color = parse_color_hex L 0xff0000ff;
        root_color = parse_color_hex L 0x222222ff;
        fullscreen_bg = black 1;
      }

  -- Whether animations run, and their speed.
  unfoldable pub parse_animations : Bool × L.Double
  unfolding lua_get_bool lua_get_double
  parse_animations =
      let t = L.global "animations" in
      let speed = lua_get_double L t "speed" (L.literal 1 0) in
      if L.is_table t
      then (lua_get_bool L t "enabled" true, if L.is_positive speed then speed else L.literal 1 0)
      else (true, L.literal 1 0)

  -- The options that are not texts.
  abbrev pub input_with :
      L.Value → ScrollMethod → AccelProfile → ClickMethod → SendEvents → TapMap → CfgInput L.Double
  input_with t scroll accel click send tap = record {
    repeat_rate = lua_get_int L t "repeat_rate" (pos 50);
    repeat_delay = lua_get_int L t "repeat_delay" (pos 150);
    tap_to_click = lua_get_bool L t "tap_to_click" true;
    tap_and_drag = lua_get_bool L t "tap_and_drag" true;
    drag_lock = lua_get_bool L t "drag_lock" true;
    natural_scrolling = lua_get_bool L t "natural_scrolling" false;
    disable_while_typing = lua_get_bool L t "disable_while_typing" true;
    left_handed = lua_get_bool L t "left_handed" false;
    middle_button_emulation = lua_get_bool L t "middle_button_emulation" false;
    accel_speed = lua_get_double L t "accel_speed" (L.literal 0 0);
    scroll_method = scroll;
    accel_profile = accel;
    click_method = click;
    send_events_mode = send;
    tap_button_map = tap;
  }

  -- The buffer `scratch` after each of its five uses: a text that is missing leaves the one before.
  abbrev pub scratch_scroll : L.Value → List ℕ
  scratch_scroll t = lua_get_string L t "scroll_method" max_strlen []

  abbrev pub scratch_accel : L.Value → List ℕ
  scratch_accel t = lua_get_string L t "accel_profile" max_strlen (scratch_scroll t)

  abbrev pub scratch_click : L.Value → List ℕ
  scratch_click t = lua_get_string L t "click_method" max_strlen (scratch_accel t)

  abbrev pub scratch_send : L.Value → List ℕ
  scratch_send t = lua_get_string L t "send_events_mode" max_strlen (scratch_click t)

  abbrev pub scratch_tap : L.Value → List ℕ
  scratch_tap t = lua_get_string L t "tap_button_map" max_strlen (scratch_send t)

  unfoldable pub parse_input_table : L.Value → CfgInput L.Double
  unfolding lua_get_string lua_get_int lua_get_bool lua_get_double
  parse_input_table t =
      input_with t (scroll_of (scratch_scroll t)) (accel_of (scratch_accel t))
        (click_of (scratch_click t)) (send_of (scratch_send t)) (tap_of (scratch_tap t))

  -- What remains zero in the fresh configuration is written as such.
  unfoldable pub parse_input : CfgInput L.Double
  unfolding parse_input_table
  parse_input =
      let t = L.global "input" in
      if L.is_table t then parse_input_table t else record {
        repeat_rate = pos 50;
        repeat_delay = pos 150;
        tap_to_click = true;
        tap_and_drag = false;
        drag_lock = false;
        natural_scrolling = false;
        disable_while_typing = false;
        left_handed = false;
        middle_button_emulation = false;
        accel_speed = L.literal 0 0;
        scroll_method = scroll_zero;
        accel_profile = accel_adaptive;
        click_method = click_zero;
        send_events_mode = send_enabled;
        tap_button_map = tap_lrm;
      }

  abbrev pub rule_of : L.Value → CfgRule
  rule_of t = record {
    app_id = lua_get_string L t "app_id" max_strlen [];
    title = lua_get_string L t "title" max_strlen [];
    tags = as_word (lua_get_int L t "tags" (pos 0));
    floating = lua_get_bool L t "floating" false;
    monitor = lua_get_int L t "monitor" (negsuc 0);
  }

  -- A loop over the entries of a table that adds to an array until the array is full; `read` is
  -- `none` for an entry that it passes over.
  unfoldable pub fill_array :
      {A : Type 0} → ℕ → (L.Value → Option A) → List L.Value → List A → List A
  fill_array size read [] xs = xs
  fill_array size read (v ∷ vs) xs =
      let rest = fill_array size read vs (add_one (read v) xs) in
      if leb size (length xs) then xs else rest

  abbrev pub if_table : {A : Type 0} → (L.Value → A) → L.Value → Option A
  if_table read v = if L.is_table v then some (read v) else none

  unfoldable pub parse_rules : List CfgRule
  unfolding fill_array entries lua_get_string lua_get_int lua_get_bool
  parse_rules =
      let t = L.global "rules" in
      if L.is_table t then fill_array max_rules (if_table rule_of) (entries L t) [] else []

  abbrev pub monitor_of : L.Value → CfgMonitorRule L.Float
  monitor_of t = record {
    name = lua_get_string L t "name" max_strlen [];
    mfact = L.narrow (lua_get_double L t "mfact" (L.literal 55 2));
    nmaster = lua_get_int L t "nmaster" (pos 1);
    scale = L.narrow (lua_get_double L t "scale" (L.literal 1 0));
    layout = or_dwindle (lua_get_string L t "layout" max_strlen []);
    transform = lua_get_int L t "transform" (pos 0);
    x = lua_get_int L t "x" (negsuc 0);
    y = lua_get_int L t "y" (negsuc 0);
  }

  abbrev pub any_monitor : CfgMonitorRule L.Float
  any_monitor = record {
    name = [];
    mfact = L.float 55 2;
    nmaster = pos 1;
    scale = L.float 1 0;
    layout = bytes "dwindle";
    transform = pos 0;
    x = negsuc 0;
    y = negsuc 0;
  }

  unfoldable pub parse_monitors : List (CfgMonitorRule L.Float)
  unfolding fill_array entries lua_get_string lua_get_int lua_get_double
  parse_monitors =
      let t = L.global "monitors" in
      if L.is_table t
      then fill_array max_monitors (if_table monitor_of) (entries L t) []
      else any_monitor ∷ []

  abbrev pub command_text : L.Value → Option (List ℕ)
  command_text v = if L.is_string v then some (copied max_autostart_cmd (L.text v)) else none

  unfoldable pub parse_autostart : List (List ℕ)
  unfolding fill_array entries copied
  parse_autostart =
      let t = L.global "autostart" in
      if L.is_table t then fill_array max_autostart command_text (entries L t) [] else []
