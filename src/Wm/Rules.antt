-- ===== src/Wm/Rules.antt =====
-- applyrules and applybounds of src/main.c. The title and the application id are lists of bytes.
use monowm.Base.{
  ℕ, zero, suc, ◌+◌, ◌*◌, max, ◌==◌, Bool, true, false, ◌&&◌, ◌||◌, Option, some, List, [], ◌∷◌,
  if◌then◌else◌, bit_or, ℤ, pos, negsuc, ◌+ℤ◌, ◌-ℤ◌, leb_ℤ,
}
use monowm.Config.Lua.{is_empty}
use monowm.Config.Types.{CfgRule}
use monowm.Dwindle.Tree.{Box}
use monowm.Wm.State.{Client, Monitor, Server, find_client, update_client}
use monowm.Wm.Tags.{with_sel}
use monowm.Wm.Windows.{setmon}

-- strstr(s, t) finds t.
abbrev pub begins : List ℕ → List ℕ → Bool
begins s [] = true
begins [] (d ∷ t) = false
begins (c ∷ s) (d ∷ t) = c == d && begins s t

unfoldable pub contains : List ℕ → List ℕ → Bool
contains [] t = begins [] t
contains (c ∷ s) t = begins (c ∷ s) t || contains s t

-- An empty text of a rule fits every window.
unfoldable pub fits : CfgRule → List ℕ → List ℕ → Bool
unfolding contains
fits r title appid =
    (is_empty r.title || contains title r.title) && (is_empty r.app_id || contains appid r.app_id)

-- The loop over the outputs: the one with the rule's number, or the one before.
abbrev pub numbered : List Monitor → ℕ → Option ℕ → Option ℕ
numbered [] n mon = mon
numbered (m ∷ ms) zero mon = some m.id
numbered (m ∷ ms) (suc n) mon = numbered ms n mon

abbrev pub rule_mon : List Monitor → ℤ → Option ℕ → Option ℕ
rule_mon ms (pos n) mon = numbered ms n mon
rule_mon ms (negsuc n) mon = mon

pub record Ruled : Type 0 where
  pub isfloating : Bool
  pub newtags : ℕ
  pub mon : Option ℕ

abbrev pub obey : List Monitor → CfgRule → Ruled → Ruled
obey ms r d = record {
  isfloating = r.floating;
  newtags = bit_or d.newtags r.tags;
  mon = rule_mon ms r.monitor d.mon;
}

-- The loop over the rules.
unfoldable pub ruled : List Monitor → List ℕ → List ℕ → List CfgRule → Ruled → Ruled
unfolding fits
ruled ms title appid [] d = d
ruled ms title appid (r ∷ rs) d =
    ruled ms title appid rs (if fits r title appid then obey ms r d else d)

abbrev pub start : Server → Client → Ruled
start s c = record { isfloating = c.isfloating; newtags = 0; mon = s.selmon }

abbrev pub place_ruled : Server → ℕ → Bool → Ruled → Server
place_ruled s k float_type d =
    setmon (update_client k (λ c. record c { isfloating = d.isfloating || float_type }) s) k d.mon
      d.newtags

unfoldable pub applyrules : Server → List CfgRule → ℕ → List ℕ → List ℕ → Bool → Server
unfolding ruled setmon
applyrules s rules k title appid float_type =
    with_sel s (find_client s k)
      λ c. place_ruled s k float_type (ruled s.mons title appid rules (start s c))

-- One axis of applybounds: a window from `x` on, `w` long, and bounds from `lo` on, `len` long.
abbrev pub from_above : ℤ → ℕ → ℤ → ℕ → ℤ
from_above lo len x w = if leb_ℤ (lo +ℤ pos len) x then lo +ℤ pos len -ℤ pos w else x

abbrev pub from_below : ℤ → ℤ → ℕ → ℤ
from_below lo x w = if leb_ℤ (x +ℤ pos w) lo then lo else x

unfoldable pub bound_axis : ℤ → ℕ → ℤ → ℕ → ℤ
bound_axis lo len x w = from_below lo (from_above lo len x w) w

-- `on_canvas` is c->mon && (c->mon->canvas_tags & c->tags).
unfoldable pub applybounds : Bool → ℕ → Box → Box → Box
unfolding bound_axis
applybounds on_canvas bw bbox geom =
    let w = max (1 + 2 * bw) geom.width in
    let h = max (1 + 2 * bw) geom.height in
    record {
      x = if on_canvas then geom.x else bound_axis bbox.x bbox.width geom.x w;
      y = if on_canvas then geom.y else bound_axis bbox.y bbox.height geom.y h;
      width = w;
      height = h;
    }
