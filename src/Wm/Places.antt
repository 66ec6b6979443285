-- ===== src/Wm/Places.antt =====
-- What the layout of src/main.c's dwindle() leaves in the trees of a monitor.
use monowm.Base.{
  ℕ, ◌≤◌, ◌≡◌, refl, ap, inl, inr, Bool, true, false, Option, none, some, List, [], ◌∷◌, ◌==◌,
  ==_refl, arith, count, keep, length, Option-cases,
}
use monowm.Dwindle.Tree.{DwindleNode, leaves?}
use monowm.Dwindle.Fill.{refill-tiled}
use monowm.Dwindle.Recalc.{leaves-recalc}
use monowm.Wm.State.{Monitor, Server, current_tag_idx, find_client}
use monowm.Wm.Arrange.{dwindle, tiled, stays, client_ids, lay_out, set_root, tile_area}

-- The tree of the view that a monitor shows.
abbrev pub shown_tree : Monitor → Option DwindleNode
shown_tree m = m.dwindle_root (current_tag_idx m)

pub leaves-lay_out :
    (e : ℕ) (m : Monitor) (t : Option DwindleNode)
    → leaves? (lay_out e (tile_area m e) t) ≡ leaves? t
unfolding leaves?
leaves-lay_out e m none = refl
leaves-lay_out e m (some n) = leaves-recalc e (tile_area m e) n

-- A tiled window keeps the leaf it has.
tiled-stays : (s : Server) (m : Monitor) (k : ℕ) → tiled s m k ≡ true → stays s m k ≡ true
unfolding tiled stays
tiled-stays s m k h = elim (Option-cases (find_client s k)) [
  | inl e ↦ ground (arith, e)
  | inr (c, e) ↦ ground (arith, e)
]

keep_some :
    (p : ℕ → Bool) (k : ℕ) (xs : List ℕ)
    → p k ≡ true
    → count k xs ≡ 1
    → (length (keep p xs) == 0) ≡ false
keep_some p k [] h e = absurd (omega arith)
keep_some p k (x ∷ xs) h e = ground (arith, keep_some p k xs, λ (f : x ≡ k). ap p f)

shown_tree-set :
    (t : Option DwindleNode) (m : Monitor) → shown_tree (set_root (current_tag_idx m) t m) ≡ t
unfolding current_tag_idx
shown_tree-set t m = rw ==_refl refl

-- After dwindle() on a monitor, a window that is tiled there, that is once in the window list
-- and that had at most one leaf in the tree of the view shown has exactly one leaf in that tree.
pub dwindle-tiled :
    (s : Server) (m : Monitor) (k : ℕ)
    → tiled s m k ≡ true
    → count k (client_ids s) ≡ 1
    → count k (leaves? (shown_tree m)) ≤ 1
    → count k (leaves? (shown_tree (dwindle s m))) ≡ 1
unfolding dwindle
dwindle-tiled s m k t one most = rw (keep_some (tiled s m) k (client_ids s) t one) (
    rw (shown_tree-set, leaves-lay_out)
      (refill-tiled s.cursor (stays s m) (tiled s m) (m.dwindle_focus (current_tag_idx m))
        (client_ids s) (shown_tree m) k t (tiled-stays s m k t) one most))
