-- ===== src/Wm/Ruling.antt =====
-- What applybounds and applyrules of src/main.c leave.
use monowm.Base.{
  ℕ, ◌+◌, ◌*◌, ◌^◌, ◌<◌, ◌≤◌, ◌≡◌, refl, inl, inr, Bool, false, ◌||◌, List, [], ◌∷◌, or-lt, All, ℤ,
  pos, ◌+ℤ◌, ◌-ℤ◌, ◌≤ℤ◌, leb_ℤ, arith, Bool-cases, +ℤ_parts, -ℤ_parts,
}
use monowm.Config.Bounds.{if-holds}
use monowm.Config.Types.{CfgRule}
use monowm.Dwindle.Tree.{Box}
use monowm.Wm.State.{Monitor, Server, find_client, tagcount}
use monowm.Wm.Safe.{IsTagged}
use monowm.Wm.Actions.{update_client-IsTagged, with_sel-IsTagged}
use monowm.Wm.Moves.{setmon-IsTagged}
use monowm.Wm.Rules.{
  fits, Ruled, obey, ruled, start, applyrules, from_below, bound_axis, applybounds,
}

-- Some of an axis is within the bounds.
abbrev pub Meets : ℤ → ℕ → ℤ → ℕ → Type 0
Meets lo len x w = (x +ℤ pos 1 ≤ℤ lo +ℤ pos len) × (lo +ℤ pos 1 ≤ℤ x +ℤ pos w)

from_below-Meets :
    (lo : ℤ) (len : ℕ) (x : ℤ) (w : ℕ)
    → 0 < len
    → 0 < w
    → x +ℤ pos 1 ≤ℤ lo +ℤ pos len
    → Meets lo len (from_below lo x w) w
from_below-Meets lo len x w p q h = elim (Bool-cases (leb_ℤ (x +ℤ pos w) lo)) [
  | inl e ↦ rw e (
    omega (arith, +ℤ_parts lo (pos 1), +ℤ_parts lo (pos len)),
    omega (arith, +ℤ_parts lo (pos 1), +ℤ_parts lo (pos w)),
  )
  | inr e ↦ rw e (h, ground (arith, e, +ℤ_parts lo (pos 1), +ℤ_parts x (pos w)))
]

below_end : (lo : ℤ) (len : ℕ) (w : ℕ) → 0 < w → (lo +ℤ pos len -ℤ pos w) +ℤ pos 1 ≤ℤ lo +ℤ pos len
below_end lo len w q =
    omega (arith, -ℤ_parts (lo +ℤ pos len) (pos w), +ℤ_parts (lo +ℤ pos len -ℤ pos w) (pos 1))

not_past : (x e : ℤ) → leb_ℤ e x ≡ false → x +ℤ pos 1 ≤ℤ e
not_past x e h = ground (arith, h, +ℤ_parts x (pos 1))

bound_axis-Meets :
    (lo : ℤ) (len : ℕ) (x : ℤ) (w : ℕ) → 0 < len → 0 < w → Meets lo len (bound_axis lo len x w) w
unfolding bound_axis
bound_axis-Meets lo len x w p q = elim (Bool-cases (leb_ℤ (lo +ℤ pos len) x)) [
  | inl e ↦ rw e (from_below-Meets lo len (lo +ℤ pos len -ℤ pos w) w p q (below_end lo len w q))
  | inr e ↦ rw e (from_below-Meets lo len x w p q (not_past x (lo +ℤ pos len) e))
]

-- Off a canvas and for bounds that are not empty, applybounds leaves a window of which some part
-- is within the bounds, wherever it was, and whose sides are at least one pixel longer than its
-- two borders.
pub applybounds-Meets :
    (bw : ℕ) (bbox geom : Box)
    → 0 < bbox.width
    → 0 < bbox.height
    → (g : Box) × (applybounds false bw bbox geom ≡ g)
      × Meets bbox.x bbox.width g.x g.width
      × Meets bbox.y bbox.height g.y g.height
      × (1 + 2 * bw ≤ g.width)
      × (1 + 2 * bw ≤ g.height)
unfolding applybounds
applybounds-Meets bw bbox geom p q = (
  _,
  refl,
  bound_axis-Meets bbox.x bbox.width geom.x _ p (omega arith),
  bound_axis-Meets bbox.y bbox.height geom.y _ q (omega arith),
  omega arith,
  omega arith,
)

pub ruled-tags :
    (ms : List Monitor) (title appid : List ℕ) (rs : List CfgRule) (d : Ruled)
    → All (λ (r : CfgRule). r.tags < 2 ^ tagcount) rs
    → d.newtags < 2 ^ tagcount
    → (ruled ms title appid rs d).newtags < 2 ^ tagcount
unfolding ruled
ruled-tags ms title appid [] d good h = h
ruled-tags ms title appid (r ∷ rs) d good h = ruled-tags ms title appid rs _ good.1 (
    if-holds (λ (e : Ruled). e.newtags < 2 ^ tagcount) (fits r title appid) (obey ms r d) d
      (or-lt tagcount d.newtags r.tags h good.0) h)

pub applyrules-IsTagged :
    (s : Server) (rules : List CfgRule) (k : ℕ) (title appid : List ℕ) (float_type : Bool)
    → All (λ (r : CfgRule). r.tags < 2 ^ tagcount) rules
    → IsTagged s
    → IsTagged (applyrules s rules k title appid float_type)
unfolding applyrules
applyrules-IsTagged s rules k title appid float_type good h =
    with_sel-IsTagged s (find_client s k) _
      (λ c.
        let d = ruled s.mons title appid rules (start s c) in
        setmon-IsTagged _ k d.mon d.newtags
          (ruled-tags s.mons title appid rules (start s c) good (omega arith))
          (update_client-IsTagged k (λ b. record b { isfloating = d.isfloating || float_type }) s
            (λ b p. p) h))
      h
