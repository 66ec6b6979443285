-- ===== src/Wm/Focus.antt =====
-- focusclient() of src/main.c. Popups, colours and the protocol's activation events go to wlroots
-- and are not kept.
use monowm.Base.{ℕ, Bool, false, not, ◌&&◌, Option, none, some, ◌∷◌, ◌==◌, if◌then◌else◌, erase}
use monowm.Wm.State.{
  Client, Monitor, Server, Surface, nothing, client_surface, layer_surface, find_client,
  update_client, update_mon, current_tag_idx,
}

abbrev pub is_surface_of : Surface → ℕ → Bool
is_surface_of (client_surface j) k = j == k
is_surface_of _ k = false

-- A layer surface above the windows keeps the keyboard.
abbrev pub keeps_keyboard : Surface → Bool
keeps_keyboard (layer_surface l above) = above
keeps_keyboard _ = false

-- The anchor of the next dwindle insertion.
abbrev pub anchor : Client → Monitor → Monitor
anchor c m = record m {
  dwindle_focus = λ i. if i == current_tag_idx m then some c.id else m.dwindle_focus i;
}

-- Put a client on top of the focus stack and select its monitor.
unfoldable pub raise_focus : Server → Client → Server
unfolding current_tag_idx
raise_focus s c =
    let s1 = record s { fstack = c.id ∷ erase c.id s.fstack; selmon = c.mon } in
    let s2 = update_client c.id (λ d. record d { isurgent = false }) s1 in
    elim c.mon [
      | none ↦ s2
      | some k ↦ if not c.isfloating && not c.isfullscreen then update_mon k (anchor c) s2 else s2
    ]

abbrev pub give_keyboard : Surface → Server → Server
give_keyboard target s =
    if keeps_keyboard s.focused_surface then s else record s { focused_surface = target }

abbrev pub focus_some : Server → Option Client → Server
focus_some s none = s
focus_some s (some c) =
    if is_surface_of s.focused_surface c.id
    then s
    else give_keyboard (client_surface c.id) (raise_focus s c)

unfoldable pub focusclient : Server → Option ℕ → Server
unfolding raise_focus
focusclient s none = if s.locked then s else give_keyboard nothing s
focusclient s (some k) = if s.locked then s else focus_some s (find_client s k)
