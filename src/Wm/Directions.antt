-- ===== src/Wm/Directions.antt =====
-- focusdir of src/main.c, and the search that swapdir shares. The geometry of windows is a function from their
-- ids, and so is whether a window has children. Distances are exact, as doubles are for centres less
-- than 2 ^ 26 apart.
use monowm.Base.{
  ℕ, ◌+◌, ◌*◌, ◌/◌, ◌^◌, Bool, true, not, ◌&&◌, Option, none, some, List, [], ◌∷◌, keep, ◌==◌,
  if◌then◌else◌, ltb, ℤ, pos, ◌+ℤ◌, ◌-ℤ◌, pos_part, neg_part, ltb_ℤ,
}
use monowm.Dwindle.Tree.{Box}
use monowm.Wm.State.{Monitor, Server, visible_on, client_is, selected, on_mon}
use monowm.Wm.Focus.{focusclient}
use monowm.Wm.Arrange.{client_ids}
use monowm.Wm.Tags.{sel, with_sel}
use monowm.Wm.Toggles.{dir_up, dir_down, dir_left, dir_right}

unfoldable pub client_center : Box → ℤ × ℤ
client_center b = (b.x +ℤ pos (b.width / 2), b.y +ℤ pos (b.height / 2))

abbrev pub is_direction : ℕ → Bool
is_direction dir =
    if dir == dir_left
    then true
    else if dir == dir_right
    then true
    else if dir == dir_up
    then true
    else dir == dir_down

-- The switch over the direction, from the centre (sx, sy).
abbrev pub lies : ℕ → ℤ × ℤ → ℤ × ℤ → Bool
lies dir (sx, sy) (cx, cy) =
    if dir == dir_left
    then ltb_ℤ cx sx
    else if dir == dir_right
    then ltb_ℤ sx cx
    else if dir == dir_up
    then ltb_ℤ cy sy
    else ltb_ℤ sy cy

abbrev pub square : ℤ → ℕ
square d = (pos_part d + neg_part d) * (pos_part d + neg_part d)

unfoldable pub distance : ℤ × ℤ → ℤ × ℤ → ℕ
distance (sx, sy) (cx, cy) = square (cx -ℤ sx) + square (cy -ℤ sy)

-- 1e18.
abbrev pub farthest : ℕ
farthest = 10 ^ 18

-- The loop over the windows that are not skipped: the best so far, and its distance.
unfoldable pub nearest : (ℕ → Bool) → (ℕ → ℕ) → List ℕ → Option ℕ → ℕ → Option ℕ
nearest ok dist [] best bestdist = best
nearest ok dist (k ∷ ks) best bestdist =
    let better = ok k && ltb (dist k) bestdist in
    nearest ok dist ks (if better then some k else best) (if better then dist k else bestdist)

-- The windows that focusdir, or swapdir, does not skip.
unfoldable pub focusable : Server → Monitor → ℕ → ℕ → Bool
unfolding visible_on
focusable s m k j = not (j == k) && client_is s (λ c. visible_on c m && not c.isfloating) j

unfoldable pub swappable : Server → Monitor → ℕ → ℕ → Bool
unfolding visible_on
swappable s m k j =
    not (j == k) && client_is s (λ c. visible_on c m && not c.isfloating && not c.isfullscreen) j

module _ (geom : ℕ → Box) where
  -- The window that a direction leads to from window `k`, among some.
  unfoldable pub towards : ℕ → ℕ → List ℕ → Option ℕ
  unfolding nearest client_center distance
  towards dir k ks =
      let c = client_center (geom k) in
      if is_direction dir
      then nearest (λ j. lies dir c (client_center (geom j)))
          (λ j. distance c (client_center (geom j))) ks none farthest
      else none

  abbrev pub focus_best : Server → Option ℕ → Server
  focus_best s none = s
  focus_best s (some k) = focusclient s (some k)

  unfoldable pub focusdir : (ℕ → Bool) → Server → ℕ → Server
  unfolding sel selected towards focusable focusclient
  focusdir has_children s dir = with_sel s (sel s) λ c.
      if c.isfullscreen && not (has_children c.id)
      then s
      else on_mon s (selected s)
          λ m. focus_best s (towards dir c.id (keep (focusable s m c.id) (client_ids s)))
