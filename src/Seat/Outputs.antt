-- ===== src/Seat/Outputs.antt =====
-- updatemons and cleanupmon of src/main.c: outputs come and go. What the output layout gives each of them, and
-- which of them sleep, are parameters.
use monowm.Base.{
  ℕ, Bool, not, ◌||◌, Option, none, some, List, [], ◌∷◌, if◌then◌else◌, map, pos, keep, ◌==◌,
}
use monowm.Dwindle.Tree.{Box}
use monowm.Wm.State.{
  Monitor, Server, lock_surface, find_mon, find_client, focustop, selected, update_mon,
}
use monowm.Wm.Focus.{focusclient}
use monowm.Wm.Arrange.{arrange, client_ids}
use monowm.Wm.Tags.{with_sel}
use monowm.Wm.Windows.{setmon}
use monowm.Wm.Closing.{closemon}
use monowm.Seat.Session.{Session, enter, is_set, put, destroylocksurface}
use monowm.Seat.Layers.{Scene, arrangelayers}

-- The output layout, after the code removed and added outputs: the box of an output, the box of all of
-- them, and whether an output is only asleep.
pub record Outputs : Type 0 where
  pub box : ℕ → Box
  pub whole : Box
  pub asleep : ℕ → Bool

abbrev pub no_box : Box
no_box = record { x = pos 0; y = pos 0; width = 0; height = 0 }

-- m->m = m->w = box
abbrev pub set_box : ℕ → Box → Session → Session
set_box k box s = record s {
  area = put s.area k box;
  server = update_mon k (λ m. record m { w = box }) s.server;
}

abbrev pub close_one : Outputs → ℕ → Session → Option Monitor → Session
close_one O k s none = s
close_one O k s (some m) =
    if m.enabled || O.asleep k
    then s
    else set_box k no_box (record s { server = closemon s.server k })

unfoldable pub close_each : Outputs → List ℕ → Session → Session
unfolding closemon
close_each O [] s = s
close_each O (k ∷ ks) s = close_each O ks (close_one O k s (find_mon s.server k))

abbrev pub or_select : ℕ → Server → Server
or_select k s = if is_set s.selmon then s else record s { selmon = some k }

abbrev pub show_one : Scene → Outputs → ℕ → Session → Option Monitor → Session
show_one C O k s none = s
show_one C O k s (some m) =
    let laid = arrangelayers C k (set_box k (O.box k) s) in
    if not m.enabled then s else record laid { server = or_select k (arrange laid.server k) }

unfoldable pub show_each : Scene → Outputs → List ℕ → Session → Session
unfolding arrangelayers arrange
show_each C O [] s = s
show_each C O (k ∷ ks) s = show_each C O ks (show_one C O k s (find_mon s.server k))

-- The windows without an output go to the selected one.
unfoldable pub adopt_each : List ℕ → Server → Server
unfolding setmon
adopt_each [] s = s
adopt_each (k ∷ ks) s =
    adopt_each ks (
      with_sel s (find_client s k) (λ c. if is_set c.mon then s else setmon s c.id s.selmon c.tags))

abbrev pub give_lock : Option ℕ → Server → Server
give_lock none s = s
give_lock (some k) s = enter (lock_surface k) s

abbrev pub lock_of : (ℕ → Option ℕ) → Option ℕ → Option ℕ
lock_of mon_lock none = none
lock_of mon_lock (some k) = mon_lock k

abbrev pub settle_on : (ℕ → Option ℕ) → Server → Option Monitor → Server
settle_on mon_lock s none = s
settle_on mon_lock s (some m) =
    let adopted = adopt_each (client_ids s) s in
    let focused = focusclient adopted (focustop adopted (selected adopted)) in
    if not m.enabled then s else give_lock (lock_of mon_lock focused.selmon) focused

unfoldable pub settle : (ℕ → Option ℕ) → Server → Server
unfolding adopt_each focusclient focustop selected
settle mon_lock s = settle_on mon_lock s (selected s)

abbrev pub mon_ids : Server → List ℕ
mon_ids s = map (λ m. m.id) s.mons

-- locked_bg gets the box of the layout.
abbrev pub resized : Outputs → Session → Session
resized O s = record s { background = record s.background { box = O.whole } }

unfoldable pub updatemons : Scene → Outputs → Session → Session
unfolding close_each show_each settle
updatemons C O s =
    let shown = show_each C O (mon_ids s.server) (resized O (close_each O (mon_ids s.server) s)) in
    record shown { server = settle shown.mon_lock shown.server }

-- What wlroots does before updatemons runs.
abbrev pub laid : Outputs → Session → Session
laid O s = record s { background = record s.background { layout = O.whole } }

-- createmon links a new output.
abbrev pub plug : Monitor → Session → Session
plug m s = record s { server = record s.server { mons = m ∷ s.server.mons } }

-- An output is switched on or off.
abbrev pub switch : ℕ → Bool → Session → Session
switch k b s = record s { server = update_mon k (λ m. record m { enabled = b }) s.server }

abbrev pub unplug : ℕ → Session → Session
unplug k s = record s {
  server = record s.server { mons = keep (λ m. not (m.id == k)) s.server.mons };
}

abbrev pub unlock_surface : ℕ → Option ℕ → Session → Session
unlock_surface k first s = if is_set (s.mon_lock k) then destroylocksurface k first s else s

-- An output goes, after its layer surfaces. Taking it out of the layout runs updatemons. Once it is out of
-- the list it is neither arranged nor is its topmost window focused here, which the code still does while
-- selmon points to it; closemon then selects another output and focuses there.
unfoldable pub cleanupmon : Scene → Outputs → ℕ → Option ℕ → Session → Session
unfolding destroylocksurface updatemons closemon
cleanupmon C O k first s =
    let t = updatemons C O (laid O (unlock_surface k first (unplug k s))) in
    record t { server = closemon t.server k }
