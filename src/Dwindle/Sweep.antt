-- ===== src/Dwindle/Sweep.antt =====
-- The first loop of dwindle() in src/main.c over one tree: the sweep that removes the leaves of
-- windows that are no longer tiled. It takes fuel: one round for each leaf and one to see the end.
use monowm.Base.{
  ℕ, zero, suc, ◌<◌, ◌≡◌, refl, sym, ap, ◌∙◌, inl, inr, Bool, true, false, ◌||◌, Option, none, some,
  List, [], ◌∷◌, ◌++◌, append_assoc, append-nil, arith, elem, keep, length, Bool-cases,
}
use monowm.Dwindle.Tree.{
  DwindleNode, Frame, in_first, in_second, Leaf, plug, leaves, leaves?, before, after,
  dwindle_first_leaf, climb, dwindle_next_leaf, as_node, root_of,
}
use monowm.Dwindle.Walk.{leaves-plug, Follows, climb-Follows, dwindle_first_leaf_lem}
use monowm.Dwindle.Remove.{leaves-root_of}
use monowm.Dwindle.Edit.{dwindle_remove_leaf, drop_below}

-- The successor found before a removal, as a place in the tree after it: promoting the sibling
-- moves no leaf, so the pointer now has the chain of parents without the freed one.
unfoldable pub next_after_removal : List Frame → Option Leaf
unfolding climb dwindle_first_leaf
next_after_removal [] = none
next_after_removal (in_first s sibling ∷ fs) = some (dwindle_first_leaf fs sibling)
next_after_removal (in_second s sibling ∷ fs) = climb fs sibling

-- The state of the loop: `leaf` in the tree at `root`, and the clients whose layout_leaf is set.
pub record Swept : Type 0 where
  pub root : Option DwindleNode
  pub placed : List ℕ

unfoldable pub sweep : ℕ → (ℕ → Bool) → Swept → Option Leaf → Swept
sweep zero stays s p = s
sweep (suc fuel) stays s none = s
sweep (suc fuel) stays s (some p) = elim (stays p.client) [
  | true ↦ sweep fuel stays (record s { placed = p.client ∷ s.placed }) (dwindle_next_leaf p)
  | false ↦
      sweep fuel stays (record s { root = (dwindle_remove_leaf p).0 })
        (next_after_removal p.parents)
]

unfoldable pub sweep_all : (ℕ → Bool) → Option DwindleNode → Swept
unfolding sweep dwindle_first_leaf leaves
sweep_all stays none = record { root = none; placed = [] }
sweep_all stays (some n) =
    sweep (suc (length (leaves n))) stays (record { root = some n; placed = [] })
      (some (dwindle_first_leaf [] n))

append_cancel {ℓ} : {A : Type ℓ} (xs ys zs : List A) → xs ++ ys ≡ xs ++ zs → ys ≡ zs
append_cancel [] ys zs h = h
append_cancel (x ∷ xs) ys zs h = append_cancel xs ys zs cc

-- The place that the loop is at: what it has passed, and what is still to come.
abbrev At : Option DwindleNode → List ℕ → List ℕ → Option Leaf → Type 0
At root done todo none = (leaves? root ≡ done) × (todo ≡ [])
At root done todo (some q) =
    (root ≡ some (root_of q)) × (before q.parents ≡ done) × (q.client ∷ after q.parents ≡ todo)

At-of_leaf :
    (root : DwindleNode) (done todo : List ℕ) (q : Leaf)
    → root_of q ≡ root
    → before q.parents ≡ done
    → leaves root ≡ done ++ todo
    → At (some root) done todo (some q)
At-of_leaf root done todo q e b l = (
  ap some (sym e),
  b,
  append_cancel done (q.client ∷ after q.parents) todo (
      ap (λ (t : List ℕ). t ++ (q.client ∷ after q.parents)) (sym b)
      ∙ sym (leaves-root_of q)
      ∙ ap leaves e
      ∙ l),
)

At-of_Follows :
    (fs : List Frame) (n : DwindleNode) (o : Option Leaf)
    → Follows fs n o
    → At (some (plug fs n)) (before fs ++ leaves n) (after fs) o
unfolding leaves?
At-of_Follows fs n none h = (
  leaves-plug fs n ∙ sym (append_assoc (before fs) (leaves n) (after fs)) ∙ rw (h, append-nil) refl,
  h,
)
At-of_Follows fs n (some q) h =
    At-of_leaf (plug fs n) _ _ q h.0 h.1
      (leaves-plug fs n ∙ sym (append_assoc (before fs) (leaves n) (after fs)))

At-removed : (fs : List Frame) → At (drop_below fs).0 (before fs) (after fs) (next_after_removal fs)
unfolding drop_below next_after_removal before after leaves?
At-removed [] = (refl, refl)
At-removed (in_first s n ∷ fs) =
    let (e, b) = dwindle_first_leaf_lem fs n in
    At-of_leaf (plug fs n) _ _ (dwindle_first_leaf fs n) e b (leaves-plug fs n)
At-removed (in_second s n ∷ fs) = At-of_Follows fs n (climb fs n) (climb-Follows fs n)

At-next :
    (p : Leaf)
    → At
        (some (root_of p))
        (before p.parents ++ p.client ∷ [])
        (after p.parents)
        (dwindle_next_leaf p)
unfolding dwindle_next_leaf leaves
At-next p = At-of_Follows p.parents (as_node p) _ (climb-Follows p.parents (as_node p))

-- What the loop has done when it ends.
record Done (stays : ℕ → Bool) (done todo placed : List ℕ) (s : Swept) : Type 0 where
  kept : leaves? s.root ≡ done ++ keep stays todo
  marked : (d : ℕ) → elem d s.placed ≡ (elem d (keep stays todo) || elem d placed)

Done-end :
    (stays : ℕ → Bool) (done todo placed : List ℕ) (s : Swept)
    → At s.root done todo none
    → s.placed ≡ placed
    → Done stays done todo placed s
Done-end stays done todo placed s a e = record {
  kept = rw (a.1, append-nil) a.0;
  marked = λ d. rw (a.1, e) refl;
}

module _ {stays : ℕ → Bool} {xs ys placed : List ℕ} {c : ℕ} {t : Swept} where
  Done-keep :
      stays c ≡ true → Done stays (xs ++ c ∷ []) ys (c ∷ placed) t → Done stays xs (c ∷ ys) placed t
  Done-keep e r = record {
    kept = r.kept ∙ append_assoc xs (c ∷ []) (keep stays ys) ∙ rw e refl;
    marked = λ d. ground (arith, r.marked d);
  }

  Done-drop : stays c ≡ false → Done stays xs ys placed t → Done stays xs (c ∷ ys) placed t
  Done-drop e r = record { kept = rw e r.kept; marked = λ d. ground (arith, r.marked d) }

sweep-Done :
    (fuel : ℕ) (stays : ℕ → Bool) (s : Swept) (o : Option Leaf) (done todo : List ℕ)
    → At s.root done todo o
    → length todo < fuel
    → Done stays done todo s.placed (sweep fuel stays s o)
unfolding sweep dwindle_remove_leaf
sweep-Done zero stays s o done todo a h = absurd (omega arith)
sweep-Done (suc fuel) stays s none done todo a h = Done-end stays done todo s.placed s a refl
sweep-Done (suc fuel) stays s (some p) done todo a h =
    rw (← a.1, ← a.2)
      (step (sweep-Done fuel stays _ (dwindle_next_leaf p) _ _ (rw a.0 (At-next p)) short)
        (sweep-Done fuel stays _ (next_after_removal p.parents) _ _ (At-removed p.parents) short))
  where
    short : length (after p.parents) < fuel
    short = omega (arith, ap length a.2)

    step :
        Done stays
          (before p.parents ++ p.client ∷ [])
          (after p.parents)
          (p.client ∷ s.placed)
          (sweep fuel stays (record s { placed = p.client ∷ s.placed }) (dwindle_next_leaf p))
        → Done stays (before p.parents) (after p.parents) s.placed (
            sweep fuel stays
              (record s { root = (drop_below p.parents).0 })
              (next_after_removal p.parents))
        → Done stays
            (before p.parents)
            (p.client ∷ after p.parents)
            s.placed
            (sweep (suc fuel) stays s (some p))
    step r q = elim (Bool-cases (stays p.client)) [
      | inl e ↦ rw (e, sweep) (Done-keep e r)
      | inr e ↦ rw (e, sweep) (Done-drop e q)
    ]

-- The sweep, on its fuel of one round for each leaf and one more, visits every leaf although it
-- frees nodes on its way: it leaves the leaves of the windows that stay, in their order, and
-- marks as placed exactly those windows.
pub sweep_all-keep :
    (stays : ℕ → Bool) (root : Option DwindleNode)
    → (leaves? (sweep_all stays root).root ≡ keep stays (leaves? root))
      × ((d : ℕ) → elem d (sweep_all stays root).placed ≡ elem d (keep stays (leaves? root)))
unfolding sweep_all leaves? leaves plug before
sweep_all-keep stays none = (refl, λ d. refl)
sweep_all-keep stays (some n) = (r.kept, λ d. ground (arith, r.marked d))
  where
    r : Done stays [] (leaves n) [] (sweep_all stays (some n))
    r =
        sweep-Done (suc (length (leaves n))) stays (record { root = some n; placed = [] })
          (some (dwindle_first_leaf [] n)) [] (leaves n)
          (let (e, b) = dwindle_first_leaf_lem [] n in
            At-of_leaf n [] (leaves n) (dwindle_first_leaf [] n) e b refl)
          (omega arith)
