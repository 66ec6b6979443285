-- ===== src/Wm/Mapping.antt =====
-- mapnotify of src/main.c: a window enters the lists and gets an output, tags and the focus. Scene
-- nodes, borders and geometry are not kept, and windows that manage themselves are left out.
use monowm.Base.{
  ℕ, Bool, true, false, not, ◌&&◌, Option, none, some, List, [], ◌∷◌, ◌==◌, if◌then◌else◌, shares,
}
use monowm.Config.Types.{CfgRule}
use monowm.Wm.State.{Client, Monitor, Server, find_client, update_client, opt_eq, tagset}
use monowm.Wm.Arrange.{canvas_layout, client_ids}
use monowm.Wm.Tags.{with_sel}
use monowm.Wm.Windows.{setmon, setfullscreen, mon_of, same_mon}
use monowm.Wm.Rules.{applyrules}

-- What a surface says of itself: its parent window, its texts, whether it wants to float, and the
-- output at its place.
pub record Mapped : Type 0 where
  pub parent : Option ℕ
  pub title : List ℕ
  pub appid : List ℕ
  pub float_type : Bool
  pub under : Option ℕ

abbrev pub listed : Client → Server → Server
listed c s = record s { clients = c ∷ s.clients; fstack = c.id ∷ s.fstack }

-- With a parent the window floats beside it; without one the rules apply.
unfoldable pub place_mapped : List CfgRule → Mapped → Server → ℕ → Server
unfolding applyrules setmon
place_mapped rules e s k = elim e.parent [
  | none ↦ applyrules s rules k e.title e.appid e.float_type
  | some p ↦
      with_sel s (find_client s p)
        λ q. setmon (update_client k (λ c. record c { isfloating = true }) s) k q.mon q.tags
]

-- On the canvas of the selected output.
abbrev pub lay_canvas : Option ℕ → Server → Option Monitor → Server
lay_canvas selmon s none = s
lay_canvas selmon s (some m) =
    if opt_eq selmon m.id && shares m.canvas_tags (tagset m) then canvas_layout m s else s

abbrev pub or_under : Option ℕ → Option ℕ → Option ℕ
or_under none under = under
or_under (some m) under = some m

-- Another window that fills the output on a tag of the new one.
abbrev pub hides : Client → Option ℕ → Option ℕ → Client → Bool
hides c parent m w =
    not (w.id == c.id)
    && not (opt_eq parent w.id)
    && w.isfullscreen
    && same_mon m w.mon
    && shares w.tags c.tags

unfoldable pub unset_fullscreen : Client → Option ℕ → Option ℕ → List ℕ → Server → Server
unfolding setfullscreen
unset_fullscreen c parent m [] s = s
unset_fullscreen c parent m (k ∷ ks) s =
    unset_fullscreen c parent m ks (
      with_sel s (find_client s k) (λ w. if hides c parent m w then setfullscreen s k false else s))

abbrev pub after_placing : Mapped → ℕ → Server → Server
after_placing e k s = with_sel s (find_client s k) λ c.
    let laid = lay_canvas s.selmon s (mon_of s c.mon) in
    unset_fullscreen c e.parent (or_under c.mon e.under) (client_ids laid) laid

-- The window comes with the fields that it had before; its output is NULL.
unfoldable pub mapnotify : List CfgRule → Mapped → Server → Client → Server
unfolding place_mapped canvas_layout unset_fullscreen
mapnotify rules e s c = after_placing e c.id (place_mapped rules e (listed c s) c.id)
