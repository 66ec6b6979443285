-- ===== src/Config/Types.antt =====
-- The parts of a configuration in include/mono/parser.h, and the texts that choose a value of libinput
-- in src/parser.c.
use monowm.Base.{ℕ, ◌-◌, ◌%◌, ◌^◌, Bool, List, if◌then◌else◌, ℤ, pos, negsuc}
use monowm.Config.Lua.{bytes, same_bytes}

pub record Color (F : Type 0) : Type 0 where
  pub red : F
  pub green : F
  pub blue : F
  pub alpha : F

pub record CfgAppearance (F : Type 0) : Type 0 where
  pub inner_border_px : ℕ
  pub outer_border_px : ℕ
  pub gaps : ℕ
  pub smart_gaps : Bool
  pub inner_border_color : Color F
  pub outer_border_color : Color F
  pub inner_focus_color : Color F
  pub outer_focus_color : Color F
  pub inner_urgent_color : Color F
  pub outer_urgent_color : Color F
  pub root_color : Color F
  pub fullscreen_bg : Color F

-- The values of libinput's enumerations that a configuration can ask for; `scroll_zero` and
-- `click_zero` are what a zeroed field holds.
pub data ScrollMethod : Type 0 where
  scroll_zero scroll_2fg scroll_edge scroll_on_button_down : ScrollMethod

pub data AccelProfile : Type 0 where
  accel_flat accel_adaptive : AccelProfile

pub data ClickMethod : Type 0 where
  click_zero clickfinger button_areas : ClickMethod

pub data SendEvents : Type 0 where
  send_disabled send_disabled_on_external send_enabled : SendEvents

pub data TapMap : Type 0 where
  tap_lmr tap_lrm : TapMap

pub record CfgInput (D : Type 0) : Type 0 where
  pub repeat_rate : ℤ
  pub repeat_delay : ℤ
  pub tap_to_click : Bool
  pub tap_and_drag : Bool
  pub drag_lock : Bool
  pub natural_scrolling : Bool
  pub disable_while_typing : Bool
  pub left_handed : Bool
  pub middle_button_emulation : Bool
  pub accel_speed : D
  pub scroll_method : ScrollMethod
  pub accel_profile : AccelProfile
  pub click_method : ClickMethod
  pub send_events_mode : SendEvents
  pub tap_button_map : TapMap

pub record CfgRule : Type 0 where
  pub app_id : List ℕ
  pub title : List ℕ
  pub tags : ℕ
  pub floating : Bool
  pub monitor : ℤ

pub record CfgMonitorRule (D : Type 0) : Type 0 where
  pub name : List ℕ
  pub mfact : D
  pub nmaster : ℤ
  pub scale : D
  pub layout : List ℕ
  pub transform : ℤ
  pub x : ℤ
  pub y : ℤ

abbrev pub max_rules : ℕ
max_rules = 64

abbrev pub max_monitors : ℕ
max_monitors = 16

abbrev pub max_autostart : ℕ
max_autostart = 32

abbrev pub max_autostart_cmd : ℕ
max_autostart_cmd = 512

abbrev pub scroll_of : List ℕ → ScrollMethod
scroll_of s =
    if same_bytes s (bytes "2fg")
    then scroll_2fg
    else if same_bytes s (bytes "edge")
    then scroll_edge
    else if same_bytes s (bytes "button")
    then scroll_on_button_down
    else scroll_2fg

abbrev pub accel_of : List ℕ → AccelProfile
accel_of s = if same_bytes s (bytes "flat") then accel_flat else accel_adaptive

abbrev pub click_of : List ℕ → ClickMethod
click_of s =
    if same_bytes s (bytes "clickfinger")
    then clickfinger
    else if same_bytes s (bytes "button_areas")
    then button_areas
    else button_areas

abbrev pub send_of : List ℕ → SendEvents
send_of s =
    if same_bytes s (bytes "disabled")
    then send_disabled
    else if same_bytes s (bytes "disabled_on_external")
    then send_disabled_on_external
    else send_enabled

abbrev pub tap_of : List ℕ → TapMap
tap_of s = if same_bytes s (bytes "lmr") then tap_lmr else tap_lrm

-- An int as a uint32_t.
abbrev pub as_word : ℤ → ℕ
as_word (pos n) = n % 2 ^ 32
as_word (negsuc n) = 2 ^ 32 - 1 - n % 2 ^ 32
