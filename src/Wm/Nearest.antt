-- ===== src/Wm/Nearest.antt =====
-- Which window focusdir and swapdir of src/main.c find.
use monowm.Base.{
  ℕ, ◌≤◌, ◌<◌, ◌≡◌, ◌⊎◌, refl, sym, subst, inl, inr, Bool, true, false, ◌&&◌, Option, none, some,
  List, [], ◌∷◌, ltb, elem, All, arith, Bool-cases, ==_refl,
}
use monowm.Dwindle.Tree.{Box}
use monowm.Wm.Directions.{client_center, is_direction, lies, distance, farthest, nearest, towards}

-- The distance that a result stands for, `top` for none.
abbrev pub value : (ℕ → ℕ) → ℕ → Option ℕ → ℕ
value dist top none = top
value dist top (some k) = dist k

module _ (ok : ℕ → Bool) (dist : ℕ → ℕ) (top : ℕ) where
  value-nearest_le :
      (ks : List ℕ) (best : Option ℕ) (bd : ℕ)
      → value dist top best ≡ bd
      → value dist top (nearest ok dist ks best bd) ≤ bd
  unfolding nearest
  value-nearest_le [] best bd e = omega (arith, e)
  value-nearest_le (k ∷ ks) best bd e = elim (Bool-cases (ok k && ltb (dist k) bd)) [
    | inl h ↦
        rw h (le_lt (value-nearest_le ks (some k) (dist k) refl) (and_lt (ok k) (dist k) bd h))
    | inr h ↦ rw h (value-nearest_le ks best bd e)
  ]
    where
      le_lt : {a b c : ℕ} → a ≤ b → b < c → a ≤ c
      le_lt p q = omega arith

      and_lt : (b : Bool) (x y : ℕ) → (b && ltb x y) ≡ true → x < y
      and_lt b x y h = ground (arith, h)

  -- One round of the loop.
  nearest-better :
      (k : ℕ) (ks : List ℕ) (best : Option ℕ) (bd : ℕ)
      → (ok k && ltb (dist k) bd) ≡ true
      → nearest ok dist (k ∷ ks) best bd ≡ nearest ok dist ks (some k) (dist k)
  unfolding nearest
  nearest-better k ks best bd h = rw h refl

  nearest-worse :
      (k : ℕ) (ks : List ℕ) (best : Option ℕ) (bd : ℕ)
      → (ok k && ltb (dist k) bd) ≡ false
      → nearest ok dist (k ∷ ks) best bd ≡ nearest ok dist ks best bd
  unfolding nearest
  nearest-worse k ks best bd h = rw h refl

  -- No window that fits is nearer than a result.
  abbrev pub Nearer : List ℕ → Option ℕ → Type 0
  Nearer ks r = All (λ j. (ok j ≡ false) ⊎ (value dist top r ≤ dist j)) ks

  nearest-Nearer :
      (ks : List ℕ) (best : Option ℕ) (bd : ℕ)
      → value dist top best ≡ bd
      → Nearer ks (nearest ok dist ks best bd)
  nearest-Nearer [] best bd e = tt
  nearest-Nearer (k ∷ ks) best bd e = elim (Bool-cases (ok k && ltb (dist k) bd)) [
    | inl h ↦
        subst (Nearer (k ∷ ks)) (sym (nearest-better k ks best bd h)) (
          inr (value-nearest_le ks (some k) (dist k) refl),
          nearest-Nearer ks (some k) (dist k) refl,
        )
    | inr h ↦
        subst (Nearer (k ∷ ks)) (sym (nearest-worse k ks best bd h))
          (worse (ok k) h (value-nearest_le ks best bd e), nearest-Nearer ks best bd e)
  ]
    where
      worse :
          (b : Bool) {v : ℕ} → (b && ltb (dist k) bd) ≡ false → v ≤ bd → (b ≡ false) ⊎ (v ≤ dist k)
      worse true h p = inr (ground arith)
      worse false h p = inl refl

  -- A result is a window of the list that fits, or what was there before.
  abbrev pub Origin : List ℕ → Option ℕ → Option ℕ → Type 0
  Origin ks best r = (r ≡ best) ⊎ ((b : ℕ) × (r ≡ some b) × (elem b ks ≡ true) × (ok b ≡ true))

  later : (k : ℕ) (ks : List ℕ) (best r : Option ℕ) → Origin ks best r → Origin (k ∷ ks) best r
  later k ks best r (inl e) = inl e
  later k ks best r (inr (b, e, m, f)) = inr (b, e, ground (arith, m), f)

  chosen_now :
      (k : ℕ) (ks : List ℕ) (best r : Option ℕ)
      → ok k ≡ true
      → Origin ks (some k) r
      → Origin (k ∷ ks) best r
  chosen_now k ks best r f (inl e) = inr (k, e, rw (==_refl k) refl, f)
  chosen_now k ks best r f (inr (b, e, m, g)) = inr (b, e, ground (arith, m), g)

  nearest-Origin :
      (ks : List ℕ) (best : Option ℕ) (bd : ℕ) → Origin ks best (nearest ok dist ks best bd)
  unfolding nearest
  nearest-Origin [] best bd = inl refl
  nearest-Origin (k ∷ ks) best bd = elim (Bool-cases (ok k && ltb (dist k) bd)) [
    | inl h ↦
        rw h (chosen_now k ks best _ (first_true (ok k) h) (nearest-Origin ks (some k) (dist k)))
    | inr h ↦ rw h (later k ks best _ (nearest-Origin ks best bd))
  ]
    where
      first_true : (b : Bool) → (b && ltb (dist k) bd) ≡ true → b ≡ true
      first_true true h = refl
      first_true false h = cc

-- The window found among some, in a direction from another: it is one of them in this direction, and
-- none of them in this direction is nearer; none is found only if all are far away.
abbrev pub IsNearest : (ℕ → Box) → ℕ → ℕ → List ℕ → Option ℕ → Type 0
IsNearest geom dir k ks r =
    let c = client_center (geom k) in
    let ok = λ (j : ℕ). lies dir c (client_center (geom j)) in
    let dist = λ (j : ℕ). distance c (client_center (geom j)) in
    Nearer ok dist farthest ks r × Origin ok dist farthest ks none r

-- In one of the four directions from a window, the search that focusdir and swapdir make among
-- some windows finds one of them that lies in this direction, and none of them in this direction
-- has a nearer centre; if it finds none, all of them in this direction are at least 10 ^ 9
-- pixels away.
pub towards-IsNearest :
    (geom : ℕ → Box) (dir k : ℕ) (ks : List ℕ)
    → is_direction dir ≡ true
    → IsNearest geom dir k ks (towards geom dir k ks)
unfolding towards
towards-IsNearest geom dir k ks h =
    let c = client_center (geom k) in
    let ok = λ (j : ℕ). lies dir c (client_center (geom j)) in
    let dist = λ (j : ℕ). distance c (client_center (geom j)) in
    subst (IsNearest geom dir k ks) (sym (rw h refl)) (
      nearest-Nearer ok dist farthest ks none farthest refl,
      nearest-Origin ok dist farthest ks none farthest,
    )
