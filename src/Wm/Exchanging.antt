-- ===== src/Wm/Exchanging.antt =====
-- The leaves under swapdir and swaptiled of src/main.c (Wm/Swapping).
use monowm.Base.{
  ℕ, ◌≤◌, ◌<◌, ◌≡◌, ◌≢◌, refl, sym, ◌∙◌, inl, inr, Bool, true, false, Option, none, some, List, [],
  ◌∷◌, ◌++◌, map, count, count-append, append-nil, arith, Bool-cases, ◌==◌, if◌then◌else◌, ==_iff,
}
use monowm.Dwindle.Tree.{
  DwindleNode, leaf, node, Frame, in_first, in_second, Leaf, leaves, dwindle_find_leaf,
}
use monowm.Wm.Swapping.{way_to, put_client, swap_leaves, exchange}

-- One name for the other.
abbrev pub turn : ℕ → ℕ → ℕ → ℕ
turn a b c = if c == a then b else if c == b then a else c

map-append : (f : ℕ → ℕ) (xs ys : List ℕ) → map f (xs ++ ys) ≡ map f xs ++ map f ys
map-append f [] ys = refl
map-append f (x ∷ xs) ys = rw (map-append f xs ys) refl

turn-absent : (a b : ℕ) (xs : List ℕ) → count a xs ≡ 0 → count b xs ≡ 0 → map (turn a b) xs ≡ xs
turn-absent a b [] h k = refl
turn-absent a b (x ∷ xs) h k = ground (arith, turn-absent a b xs)

turn_comm : (a b : ℕ) (xs : List ℕ) → map (turn a b) xs ≡ map (turn b a) xs
turn_comm a b [] = refl
turn_comm a b (x ∷ xs) = ground (arith, turn_comm a b xs)

-- A way that ends at a leaf of a client.
abbrev Leads : List Bool → DwindleNode → ℕ → Type 0
Leads way (leaf d b) c = d ≡ c
Leads [] (node s l r) c = ⊥
Leads (false ∷ way) (node s l r) c = Leads way l c
Leads (true ∷ way) (node s l r) c = Leads way r c

count-Leads : (way : List Bool) (n : DwindleNode) (c : ℕ) → Leads way n c → 0 < count c (leaves n)
unfolding leaves
count-Leads way (leaf d b) c h = ground arith
count-Leads [] (node s l r) c h = absurd h
count-Leads (false ∷ way) (node s l r) c h =
    let p = count-Leads way l c h in let q = count-append c (leaves l) (leaves r) in omega arith
count-Leads (true ∷ way) (node s l r) c h =
    let p = count-Leads way r c h in let q = count-append c (leaves l) (leaves r) in omega arith

-- Only one of the two is in this part.
put-turn :
    (way : List Bool) (n : DwindleNode) (a b : ℕ)
    → Leads way n a
    → count a (leaves n) ≤ 1
    → count b (leaves n) ≡ 0
    → leaves (put_client way b n) ≡ map (turn a b) (leaves n)
unfolding put_client leaves
put-turn way (leaf d x) a b h one lacks = ground arith
put-turn [] (node s l r) a b h one lacks = absurd h
put-turn (false ∷ way) (node s l r) a b h one lacks =
    let i = count-Leads way l a h in
    let p = count-append a (leaves l) (leaves r) in
    let q = count-append b (leaves l) (leaves r) in
    rw
      (
        map-append (turn a b) (leaves l) (leaves r),
        turn-absent a b (leaves r) (omega arith) (omega arith),
        put-turn way l a b h (omega arith) (omega arith),
      )
      refl
put-turn (true ∷ way) (node s l r) a b h one lacks =
    let i = count-Leads way r a h in
    let p = count-append a (leaves l) (leaves r) in
    let q = count-append b (leaves l) (leaves r) in
    rw
      (
        map-append (turn a b) (leaves l) (leaves r),
        turn-absent a b (leaves l) (omega arith) (omega arith),
        put-turn way r a b h (omega arith) (omega arith),
      )
      refl

put_both :
    (p q : List Bool) (n : DwindleNode) (a b : ℕ)
    → a ≢ b
    → Leads p n a
    → Leads q n b
    → count a (leaves n) ≤ 1
    → count b (leaves n) ≤ 1
    → leaves (put_client q a (put_client p b n)) ≡ map (turn a b) (leaves n)
unfolding put_client leaves
put_both p q (leaf d x) a b ne h k one two = absurd (ne (sym h ∙ k))
put_both [] q (node s l r) a b ne h k one two = absurd h
put_both (x ∷ p) [] (node s l r) a b ne h k one two = absurd k
put_both (false ∷ p) (false ∷ q) (node s l r) a b ne h k one two =
    let i = count-Leads p l a h in
    let j = count-Leads q l b k in
    let u = count-append a (leaves l) (leaves r) in
    let v = count-append b (leaves l) (leaves r) in
    rw
      (
        map-append (turn a b) (leaves l) (leaves r),
        turn-absent a b (leaves r) (omega arith) (omega arith),
        put_both p q l a b ne h k (omega arith) (omega arith),
      )
      refl
put_both (true ∷ p) (true ∷ q) (node s l r) a b ne h k one two =
    let i = count-Leads p r a h in
    let j = count-Leads q r b k in
    let u = count-append a (leaves l) (leaves r) in
    let v = count-append b (leaves l) (leaves r) in
    rw
      (
        map-append (turn a b) (leaves l) (leaves r),
        turn-absent a b (leaves l) (omega arith) (omega arith),
        put_both p q r a b ne h k (omega arith) (omega arith),
      )
      refl
put_both (false ∷ p) (true ∷ q) (node s l r) a b ne h k one two =
    let i = count-Leads p l a h in
    let j = count-Leads q r b k in
    let u = count-append a (leaves l) (leaves r) in
    let v = count-append b (leaves l) (leaves r) in
    rw
      (
        map-append (turn a b) (leaves l) (leaves r),
        put-turn p l a b h (omega arith) (omega arith),
        put-turn q r b a k (omega arith) (omega arith),
        turn_comm b a (leaves r),
      )
      refl
put_both (true ∷ p) (false ∷ q) (node s l r) a b ne h k one two =
    let i = count-Leads p r a h in
    let j = count-Leads q l b k in
    let u = count-append a (leaves l) (leaves r) in
    let v = count-append b (leaves l) (leaves r) in
    rw
      (
        map-append (turn a b) (leaves l) (leaves r),
        put-turn p r a b h (omega arith) (omega arith),
        put-turn q l b a k (omega arith) (omega arith),
        turn_comm b a (leaves l),
      )
      refl

-- The parents of the leaf that is found are a way to it.
abbrev FindsWay : List Frame → DwindleNode → ℕ → Option Leaf → Type 0
FindsWay fs n c none = count c (leaves n) ≡ 0
FindsWay fs n c (some p) =
    (way : List Bool) × ((rest : List Bool) → way_to p.parents rest ≡ way_to fs (way ++ rest))
    × Leads way n c

find-Leads :
    (fs : List Frame) (n : DwindleNode) (c : ℕ) → FindsWay fs n c (dwindle_find_leaf fs n c)
unfolding dwindle_find_leaf leaves way_to
find-Leads fs (leaf d b) c = elim (Bool-cases (d == c)) [
  | inl e ↦ rw e ([], (λ rest. refl), (==_iff d c).0 e)
  | inr e ↦ rw e (ground arith)
]
find-Leads fs (node s l r) c =
    pick (dwindle_find_leaf (in_first s r ∷ fs) l c) (find-Leads (in_first s r ∷ fs) l c)
      (dwindle_find_leaf (in_second s l ∷ fs) r c) (find-Leads (in_second s l ∷ fs) r c)
  where
    pick :
        (o : Option Leaf)
        → FindsWay (in_first s r ∷ fs) l c o
        → (w : Option Leaf) → FindsWay (in_second s l ∷ fs) r c w
        → FindsWay fs (node s l r) c (elim o [ none ↦ w | some found ↦ some found ])
    pick none h none k = let u = count-append c (leaves l) (leaves r) in omega arith
    pick none h (some q) k = (true ∷ k.0, k.1, k.2)
    pick (some p) h w k = (false ∷ h.0, h.1, h.2)

exchange-turn :
    (n : DwindleNode) (a b : ℕ) (la lb : Option Leaf)
    → a ≢ b
    → count a (leaves n) ≡ 1
    → count b (leaves n) ≡ 1
    → FindsWay [] n a la
    → FindsWay [] n b lb
    → leaves (exchange a b n la lb) ≡ map (turn a b) (leaves n)
unfolding way_to
exchange-turn n a b none lb ne one two h k = absurd (omega arith)
exchange-turn n a b (some la) none ne one two h k = absurd (omega arith)
exchange-turn n a b (some la) (some lb) ne one two h k =
    rw (h.1 [], k.1 [], append-nil h.0, append-nil k.0)
      (put_both h.0 k.0 n a b ne h.2 k.2 (omega arith) (omega arith))

-- If two windows each have one leaf in a tree, the tree that swapdir and swaptiled make of it
-- has the same leaves in the same order, with each of the two in the place of the other.
pub leaves-swap_leaves :
    (n : DwindleNode) (a b : ℕ)
    → a ≢ b
    → count a (leaves n) ≡ 1
    → count b (leaves n) ≡ 1
    → leaves (swap_leaves a b n) ≡ map (turn a b) (leaves n)
unfolding swap_leaves
leaves-swap_leaves n a b ne one two =
    exchange-turn n a b (dwindle_find_leaf [] n a) (dwindle_find_leaf [] n b) ne one two
      (find-Leads [] n a) (find-Leads [] n b)
