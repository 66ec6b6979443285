-- ===== src/Wm/State.antt =====
-- The state of src/main.c that decides which windows are shown, focused and tiled: struct Client,
-- struct Monitor, the lists `mons`, `clients` and `fstack`, `selmon`, and the seat's keyboard focus.
-- Pointers to clients and monitors are their ids. Of a canvas the membership of its windows is
-- kept; world coordinates, zoom and animations are floats and are not. The build is the one
-- without XWAYLAND, where no client is unmanaged.
use monowm.Base.{
  ℕ, zero, suc, ◌-◌, ◌/◌, ◌%◌, ◌^◌, Bool, false, ◌&&◌, Option, none, some, List, map, ◌==◌,
  if◌then◌else◌, find_by, bit_and, shares,
}
use monowm.Dwindle.Tree.{Box, DwindleNode}
use monowm.Dwindle.Edit.{Cursor}

abbrev pub tagcount : ℕ
tagcount = 9

-- TAGMASK.
abbrev pub tag_mask : ℕ
tag_mask = 2 ^ tagcount - 1

pub record Client : Type 0 where
  pub id : ℕ
  pub mon : Option ℕ
  pub tags : ℕ
  pub isfloating : Bool
  pub isurgent : Bool
  pub isfullscreen : Bool
  pub incanvas : Bool
  pub canvas_wasfloating : Bool

-- The entries of layouts[].
pub data Layout : Type 0 where
  floating dwindle_layout : Layout

-- seltags and sellt are 0 or 1: `false` for 0.
pub record Monitor : Type 0 where
  pub id : ℕ
  pub enabled : Bool
  pub seltags : Bool
  pub tagset0 : ℕ
  pub tagset1 : ℕ
  pub canvas_tags : ℕ
  pub sellt : Bool
  pub lt0 : Layout
  pub lt1 : Layout
  pub gaps : Bool
  pub w : Box
  pub dwindle_root : ℕ → Option DwindleNode
  pub dwindle_focus : ℕ → Option ℕ

-- The surface with the keyboard focus; a layer surface may stand above the windows.
pub data Surface : Type 0 where
  nothing : Surface
  client_surface : ℕ → Surface
  layer_surface : ℕ → Bool → Surface
  lock_surface : ℕ → Surface

pub record Server : Type 0 where
  pub mons : List Monitor
  pub clients : List Client
  pub fstack : List ℕ
  pub selmon : Option ℕ
  pub locked : Bool
  pub focused_surface : Surface
  pub dragging : Option ℕ
  pub cursor : Cursor
  pub cfg_gaps : ℕ
  pub smart_gaps : Bool

abbrev pub opt_eq : Option ℕ → ℕ → Bool
opt_eq none k = false
opt_eq (some j) k = j == k

-- m->tagset[m->seltags].
abbrev pub tagset : Monitor → ℕ
tagset m = if m.seltags then m.tagset1 else m.tagset0

abbrev pub set_tagset : ℕ → Monitor → Monitor
set_tagset v m = if m.seltags then record m { tagset1 = v } else record m { tagset0 = v }

-- m->lt[m->sellt].
abbrev pub layout : Monitor → Layout
layout m = if m.sellt then m.lt1 else m.lt0

abbrev pub find_client : Server → ℕ → Option Client
find_client s k = find_by (λ c. c.id == k) s.clients

abbrev pub find_mon : Server → ℕ → Option Monitor
find_mon s k = find_by (λ m. m.id == k) s.mons

-- The macro VISIBLEON for a monitor that is not NULL.
unfoldable pub visible_on : Client → Monitor → Bool
visible_on c m = opt_eq c.mon m.id && shares c.tags (tagset m)

-- A test of the client with an id.
abbrev pub client_is : Server → (Client → Bool) → ℕ → Bool
client_is s p k = elim (find_client s k) [ none ↦ false | some c ↦ p c ]

abbrev pub update_client : ℕ → (Client → Client) → Server → Server
update_client k f s = record s { clients = map (λ c. if c.id == k then f c else c) s.clients }

abbrev pub update_mon : ℕ → (Monitor → Monitor) → Server → Server
update_mon k f s = record s { mons = map (λ m. if m.id == k then f m else m) s.mons }

-- The first bit of a tag set, counted from 0, in the rounds that are left.
unfoldable pub lowest : ℕ → ℕ → ℕ
lowest zero tags = 0
lowest (suc n) tags = let rest = suc (lowest n (tags / 2)) in if tags % 2 == 1 then 0 else rest

unfoldable pub current_tag_idx : Monitor → ℕ
unfolding lowest
current_tag_idx m =
    let tags = bit_and (tagset m) tag_mask in if tags == 0 then 0 else lowest tagcount tags

-- focustop: the topmost window of the focus stack that the monitor shows.
unfoldable pub focustop : Server → Option Monitor → Option ℕ
unfolding visible_on
focustop s none = none
focustop s (some m) = find_by (client_is s (λ c. visible_on c m)) s.fstack

-- The monitor that selmon points to.
unfoldable pub selected : Server → Option Monitor
selected s = elim s.selmon [ none ↦ none | some k ↦ find_mon s k ]

-- An action on a monitor, if there is one.
abbrev pub on_mon : Server → Option Monitor → (Monitor → Server) → Server
on_mon s none f = s
on_mon s (some m) f = f m
