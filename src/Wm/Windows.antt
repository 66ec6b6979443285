-- ===== src/Wm/Windows.antt =====
-- setfloating, setfullscreen and setmon of src/main.c. Windows are mapped; what they do to geometry,
-- borders and scene nodes is not kept.
use monowm.Base.{ℕ, Bool, true, false, Option, none, some, ◌==◌, if◌then◌else◌}
use monowm.Wm.State.{
  Client, Monitor, Server, floating, dwindle_layout, tagset, layout, find_client, find_mon,
  update_client, focustop, selected,
}
use monowm.Wm.Focus.{focusclient}
use monowm.Wm.Arrange.{arrange, canvas_leave}
use monowm.Wm.Tags.{with_sel}

abbrev pub arrange_of : Option ℕ → Server → Server
arrange_of none s = s
arrange_of (some k) s = arrange s k

-- Whether a monitor's layout has a function that arranges.
abbrev pub arranges : Option Monitor → Option ℕ → Option ℕ
arranges none k = none
arranges (some m) k = elim (layout m) [ floating ↦ none | dwindle_layout ↦ k ]

abbrev pub mon_of : Server → Option ℕ → Option Monitor
mon_of s none = none
mon_of s (some k) = find_mon s k

unfoldable pub setfloating : Server → ℕ → Bool → Server
unfolding arrange
setfloating s k b = with_sel s (find_client s k) λ c.
    arrange_of (arranges (mon_of s c.mon) c.mon)
      (update_client k (λ d. record d { isfloating = b }) s)

unfoldable pub setfullscreen : Server → ℕ → Bool → Server
unfolding arrange
setfullscreen s k b =
    with_sel s (find_client s k)
      λ c. arrange_of c.mon (update_client k (λ d. record d { isfullscreen = b }) s)

abbrev pub same_mon : Option ℕ → Option ℕ → Bool
same_mon none none = true
same_mon (some a) (some b) = a == b
same_mon _ _ = false

-- The calls setfullscreen(c, c->isfullscreen) and setfloating(c, c->isfloating).
abbrev pub redo_fullscreen : ℕ → Server → Server
redo_fullscreen k s = with_sel s (find_client s k) (λ c. setfullscreen s k c.isfullscreen)

abbrev pub redo_floating : ℕ → Server → Server
redo_floating k s = with_sel s (find_client s k) (λ c. setfloating s k c.isfloating)

-- The tags that setmon gives a window: those asked, or the monitor's.
abbrev pub give_tags : ℕ → ℕ → Monitor → Server → Server
give_tags k newtags m s =
    update_client k (λ d. record d { tags = if newtags == 0 then tagset m else newtags }) s

unfoldable pub enter_mon : Server → ℕ → Option Monitor → ℕ → Server
unfolding setfloating setfullscreen
enter_mon s k none newtags = s
enter_mon s k (some m) newtags = redo_floating k (redo_fullscreen k (give_tags k newtags m s))

unfoldable pub setmon_of : Server → Client → Option ℕ → ℕ → Server
unfolding canvas_leave enter_mon focusclient focustop selected arrange
setmon_of s c m newtags =
    let moved = update_client c.id (λ d. record (canvas_leave d) { mon = m }) s in
    let cleared = arrange_of c.mon moved in
    let placed = enter_mon cleared c.id (mon_of cleared m) newtags in
    if same_mon c.mon m then s else focusclient placed (focustop placed (selected placed))

unfoldable pub setmon : Server → ℕ → Option ℕ → ℕ → Server
unfolding setmon_of
setmon s k m newtags = with_sel s (find_client s k) (λ c. setmon_of s c m newtags)
