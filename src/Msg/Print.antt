-- ===== src/Msg/Print.antt =====
-- What tools/monomsg/src/main.c does at the events of an output: with -g and -w it prints them, with -s
-- it sends its requests at a frame. `died` is that it called die(), before anything was flushed.
use monowm.Base.{
  ℕ, ◌+◌, ◌-◌, ◌*◌, ◌%◌, not, leb, ◌^◌, Bool, true, false, ◌&&◌, ◌||◌, Option, none, some, List, [],
  ◌∷◌, ◌++◌, if◌then◌else◌, ltb, bit_or, shares,
}
use monowm.Config.Lua.{same_bytes}
use monowm.Msg.Parse.{is_digit, parse_tagset, parse_client_tags}
use monowm.Status.Send.{
  IpcEvent, active, fullscreen, floats, tag_state, layout_index, layout_symbol, title, appid, frame,
  state_active, state_urgent,
}

pub data Mode : Type 0 where
  no_mode set_mode get_mode watch_mode : Mode

abbrev pub gets : Mode → Bool
gets no_mode = false
gets set_mode = false
gets get_mode = true
gets watch_mode = true

abbrev pub sets : Mode → Bool
sets set_mode = true
sets _ = false

abbrev pub watches : Mode → Bool
watches watch_mode = true
watches _ = false

-- The flags of the command line, and their arguments.
pub record Flags : Type 0 where
  pub mode : Mode
  pub fflag_focus : Bool
  pub oflag : Bool
  pub tflag : Bool
  pub lflag : Bool
  pub cflag : Bool
  pub vflag : Bool
  pub mflag : Bool
  pub fflag : Bool
  pub output_name : Option (List ℕ)
  pub layout_name : List ℕ
  pub tagset : List ℕ
  pub client_tags : List ℕ

-- What a line says after the name of its output.
pub data Said : Type 0 where
  toggle : Said
  selmon fullscreen_is floating_is : Bool → Said
  tag_is : ℕ → ℕ → ℕ → Bool → Said
  tags_are : ℕ → ℕ → ℕ → ℕ → Said
  layout_is title_is appid_is focusmon : List ℕ → Said

pub data IpcRequest : Type 0 where
  set_layout : ℕ → IpcRequest
  set_tags : ℕ → Bool → IpcRequest
  set_client_tags : ℕ → ℕ → IpcRequest

-- The variables of the program that the events change, and what was printed.
pub record Watcher : Type 0 where
  pub focused_output : Option (List ℕ)
  pub occ : ℕ
  pub seltags : ℕ
  pub sel : ℕ
  pub urg : ℕ
  pub printed : List (Option (List ℕ) × Said)
  pub tagcount : ℕ
  pub layoutcount : ℕ
  pub layout_idx : Option ℕ
  pub requests_sent : Bool
  pub requests : List IpcRequest
  pub died : Bool

-- The digits of a layout's number, a size_t.
unfoldable pub read_layout : List ℕ → ℕ → Option ℕ
read_layout [] i = some i
read_layout (c ∷ t) i =
    let rest = read_layout t ((c - b'0' + i * 10) % 2 ^ 64) in if is_digit c then rest else none

-- The index of the layout: that of its name, or its number.
abbrev pub layout_number : Option ℕ → List ℕ → Option ℕ
layout_number (some i) name = some i
layout_number none name = read_layout name 0

abbrev pub layout_request : ℕ → Option ℕ → Option (List IpcRequest)
layout_request layoutcount none = none
layout_request layoutcount (some i) = if leb layoutcount i then none else some (set_layout i ∷ [])

abbrev pub tags_request : Option (ℕ × Bool) → Option (List IpcRequest)
tags_request none = none
tags_request (some (mask, toggles)) = some (set_tags mask toggles ∷ [])

abbrev pub client_tags_request : Option (ℕ × ℕ) → Option (List IpcRequest)
client_tags_request none = none
client_tags_request (some (a, x)) = some (set_client_tags a x ∷ [])

-- One after the other, unless one of them dies.
abbrev pub also : Option (List IpcRequest) → Option (List IpcRequest) → Option (List IpcRequest)
also none rs = none
also (some qs) none = none
also (some qs) (some rs) = some (qs ++ rs)

abbrev pub if_asked : Bool → Option (List IpcRequest) → Option (List IpcRequest)
if_asked b rs = if b then rs else some []

unfoldable pub asked : Flags → Watcher → Option (List IpcRequest)
unfolding read_layout parse_tagset parse_client_tags
asked F s =
    also
      (if_asked F.lflag (layout_request s.layoutcount (layout_number s.layout_idx F.layout_name)))
      (also (if_asked F.tflag (tags_request (parse_tagset s.tagcount s.seltags F.tagset)))
        (if_asked F.cflag (client_tags_request (parse_client_tags s.tagcount F.client_tags))))

abbrev pub sent : Option (List IpcRequest) → Watcher → Watcher
sent none s = record s { requests_sent = true; died = true }
sent (some rs) s = record s { requests_sent = true; requests = s.requests ++ rs }

-- The output that the requests go to: the one that -o names, or the focused one.
abbrev pub target : Option (List ℕ) → Option (List ℕ) → Option (List ℕ)
target none focused = focused
target (some []) focused = focused
target (some (c ∷ name)) focused = some (c ∷ name)

-- Events without a name are those of the output that -o names.
abbrev pub is_target : Option (List ℕ) → Option (List ℕ) → Bool
is_target wanted none = true
is_target none (some name) = false
is_target (some t) (some name) = same_bytes t name

unfoldable pub dwl_ipc_output_frame_set : Flags → Option (List ℕ) → Watcher → Watcher
unfolding asked
dwl_ipc_output_frame_set F name s =
    if s.requests_sent || not (is_target (target F.output_name s.focused_output) name)
    then s
    else sent (asked F s) s

abbrev pub print : Option (List ℕ) → Said → Watcher → Watcher
print name what s = record s { printed = s.printed ++ (name, what) ∷ [] }

abbrev pub print_if : Bool → Option (List ℕ) → Said → Watcher → Watcher
print_if b name what s = if b then print name what s else s

module _ (F : Flags) (name : Option (List ℕ)) where
  unfoldable pub dwl_ipc_output_active : Bool → Watcher → Watcher
  dwl_ipc_output_active now s =
      print_if F.oflag name (selmon now) (if now then record s { focused_output = name } else s)

  abbrev pub mark : Bool → ℕ → ℕ → ℕ
  mark b tag mask = if b then bit_or mask (2 ^ tag) else mask

  unfoldable pub dwl_ipc_output_tag : ℕ → ℕ → ℕ → Bool → Watcher → Watcher
  dwl_ipc_output_tag tag state clients focused s =
      if F.tflag
      then print_if (gets F.mode) name (tag_is tag state clients focused) (record s {
        seltags = mark (shares state state_active) tag s.seltags;
        urg = mark (shares state state_urgent) tag s.urg;
        occ = mark (ltb 0 clients) tag s.occ;
        sel = mark focused tag s.sel;
      })
      else s

  abbrev pub tell_focused : Option (List ℕ) → Watcher → Watcher
  tell_focused none s = s
  tell_focused (some o) s = print_if (F.fflag_focus && watches F.mode) none (focusmon o) s

  -- The frame with -g or -w.
  unfoldable pub dwl_ipc_output_frame : Watcher → Watcher
  dwl_ipc_output_frame s =
      let told = tell_focused s.focused_output s in
      if F.tflag
      then record (print name (tags_are told.occ told.seltags told.sel told.urg) told) {
        occ = 0;
        seltags = 0;
        sel = 0;
        urg = 0;
      }
      else told

  unfoldable pub receive : IpcEvent → Watcher → Watcher
  unfolding dwl_ipc_output_active dwl_ipc_output_tag dwl_ipc_output_frame dwl_ipc_output_frame_set
  receive (active now) s = dwl_ipc_output_active now s
  receive (fullscreen b) s = print_if F.mflag name (fullscreen_is b) s
  receive (floats b) s = print_if F.fflag name (floating_is b) s
  receive (tag_state i state clients focused) s = dwl_ipc_output_tag i state clients focused s
  receive (layout_index i) s = s
  receive (layout_symbol t) s = print_if (F.lflag && gets F.mode) name (layout_is t) s
  receive (title t) s = print_if (F.cflag && gets F.mode) name (title_is t) s
  receive (appid t) s = print_if (F.cflag && gets F.mode) name (appid_is t) s
  receive frame s =
      if sets F.mode then dwl_ipc_output_frame_set F name s else dwl_ipc_output_frame s

  unfoldable pub receive_all : List IpcEvent → Watcher → Watcher
  unfolding receive
  receive_all [] s = s
  receive_all (e ∷ es) s = receive_all es (receive e s)
