-- ===== src/Dwindle/Fill.antt =====
-- The two loops of dwindle() in src/main.c on one tree: the sweep of Dwindle/Sweep, then the loop
-- that inserts the windows without a leaf.
use monowm.Base.{
  ℕ, ◌+◌, ◌<◌, ◌≡◌, ap, Bool, true, false, not, ◌&&◌, Option, none, some, List, [], ◌∷◌, ◌++◌,
  arith, elem, keep, if◌then◌else◌, count, count-append, any_of, ◌≤◌, count-keep, elem-keep,
  count-elem, count-zero,
}
use monowm.Dwindle.Tree.{DwindleNode, leaves, leaves?, before, after}
use monowm.Dwindle.Remove.{leaves-root_of}
use monowm.Dwindle.Insert.{beside, dwindle_insert-Inserted}
use monowm.Dwindle.Edit.{Cursor, cursor_first, dwindle_insert}
use monowm.Dwindle.Sweep.{sweep_all, sweep_all-keep}

-- The second loop: each new leaf splits that of the window before it.
unfoldable pub place_missing :
    Cursor → (ℕ → Bool) → Option DwindleNode → Option ℕ → List ℕ → Option DwindleNode
unfolding dwindle_insert
place_missing cur wanted root focused [] = root
place_missing cur wanted root focused (c ∷ cs) = elim (wanted c) [
  | true ↦ place_missing cur wanted (some (dwindle_insert cur root c focused).0) (some c) cs
  | false ↦ place_missing cur wanted root focused cs
]

-- What the loops ask of the windows: `stays` keeps a leaf, `tiled` asks for one.
unfoldable pub refill :
    Cursor → (ℕ → Bool) → (ℕ → Bool) → Option ℕ → List ℕ → Option DwindleNode → Option DwindleNode
unfolding sweep_all place_missing
refill cur stays tiled focused clients root =
    let s = sweep_all stays root in
    if any_of tiled clients
    then place_missing cur (λ c. tiled c && not (elem c s.placed)) s.root focused clients
    else root

count-beside :
    (b : Bool) (d c old : ℕ) → count d (beside b c old) ≡ count d (c ∷ []) + count d (old ∷ [])
count-beside true d c old = ground arith
count-beside false d c old = ground arith

-- Inserting adds one leaf, for the new client.
pub count-insert :
    (cur : Cursor) (root : Option DwindleNode) (c : ℕ) (focused : Option ℕ) (d : ℕ)
    → count d (leaves (dwindle_insert cur root c focused).0)
      ≡ count d (c ∷ []) + count d (leaves? root)
unfolding leaves?
count-insert cur none c focused d = unfold dwindle_insert leaves in omega arith
count-insert cur (some n) c focused d =
    let i = dwindle_insert-Inserted cur n c focused in
    let p = i.opened in
    omega (
      arith,
      ap (count d) i.now,
      ap (count d) (leaves-root_of p),
      ap (λ (t : DwindleNode). count d (leaves t)) i.stands,
      count-append d (before p.parents) (p.client ∷ after p.parents),
      count-append d (p.client ∷ []) (after p.parents),
      count-append d (before p.parents)
          (beside (cursor_first cur p.box _) c p.client ++ after p.parents),
      count-append d (beside (cursor_first cur p.box _) c p.client) (after p.parents),
      count-beside (cursor_first cur p.box _) d c p.client,
    )

count-place_missing :
    (cur : Cursor) (wanted : ℕ → Bool) (root : Option DwindleNode) (focused : Option ℕ)
    (cs : List ℕ) (d : ℕ)
    → count d (leaves? (place_missing cur wanted root focused cs))
      ≡ count d (leaves? root) + count d (keep wanted cs)
unfolding place_missing leaves?
count-place_missing cur wanted root focused [] d = omega arith
count-place_missing cur wanted root focused (c ∷ cs) d = ground (
  arith,
  count-insert cur root c focused d,
  count-place_missing cur wanted (some (dwindle_insert cur root c focused).0) (some c) cs d,
  count-place_missing cur wanted root focused cs d,
)

any_of-count :
    (p : ℕ → Bool) (a : ℕ) (xs : List ℕ) → p a ≡ true → 0 < count a xs → any_of p xs ≡ true
any_of-count p a [] h k = absurd (omega arith)
any_of-count p a (x ∷ xs) h k = ground (arith, any_of-count p a xs, λ (e : x ≡ a). ap p e)

module _ (cur : Cursor) (stays tiled : ℕ → Bool) (focused : Option ℕ) (clients : List ℕ)
    (root : Option DwindleNode) where
  -- How many leaves a window has after the layout ran, from what it had before.
  pub count-refill :
      (d : ℕ)
      → count d (leaves? (refill cur stays tiled focused clients root)) ≡ (
          if any_of tiled clients
          then (if stays d then count d (leaves? root) else 0)
            + (if tiled d && not (stays d && elem d (leaves? root)) then count d clients else 0)
          else count d (leaves? root))
  unfolding refill
  count-refill d =
      let s = sweep_all stays root in
      let k = sweep_all-keep stays root in
      ground (
        arith,
        count-place_missing cur (λ c. tiled c && not (elem c s.placed)) s.root focused clients d,
        count-keep (λ c. tiled c && not (elem c s.placed)) d clients,
        ap (count d) k.0,
        k.1 d,
        count-keep stays d (leaves? root),
        elem-keep stays d (leaves? root),
      )

  -- In the two loops of dwindle(), a window that is tiled and stays, that is once in the window
  -- list and that had at most one leaf has exactly one leaf afterwards.
  pub refill-tiled :
      (d : ℕ)
      → tiled d ≡ true
      → stays d ≡ true
      → count d clients ≡ 1
      → count d (leaves? root) ≤ 1
      → count d (leaves? (refill cur stays tiled focused clients root)) ≡ 1
  refill-tiled d t s one most = ground (
    arith,
    count-refill d,
    any_of-count tiled d clients,
    count-zero d (leaves? root),
    count-elem d (leaves? root),
  )

  -- In the two loops of dwindle(), a window that is not tiled and does not stay has no leaf
  -- afterwards, provided that some window in the list is tiled.
  pub refill_gone :
      (d : ℕ)
      → tiled d ≡ false
      → stays d ≡ false
      → any_of tiled clients ≡ true
      → elem d (leaves? (refill cur stays tiled focused clients root)) ≡ false
  refill_gone d t s some_tiled =
      ground (
        arith,
        count-refill d,
        count-elem d (leaves? (refill cur stays tiled focused clients root)),
      )
