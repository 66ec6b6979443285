-- ===== src/Config/Arrays.antt =====
-- The arrays of a configuration (src/parser.c), against the plain reading of a table.
use monowm.Base.{
  ℕ, zero, suc, ◌-◌, ◌<◌, ◌≡◌, refl, sym, ap, ◌∙◌, inl, inr, Option, none, some, List, [], ◌∷◌,
  ◌++◌, take, length, length-append, append_assoc, append-nil, leb, arith, Bool-cases,
}
use monowm.Config.Lua.{Lua}
use monowm.Config.Sections.{fill_array, add_one}

-- What `read` makes of the entries that it does not pass over, in order.
abbrev pub put_first : {A : Type 0} → Option A → List A → List A
put_first none xs = xs
put_first (some x) xs = x ∷ xs

abbrev pub chosen : {A B : Type 0} → (A → Option B) → List A → List B
chosen read [] = []
chosen read (v ∷ vs) = put_first (read v) (chosen read vs)

take_nil : {A : Type 0} (n : ℕ) → take {A = A} n [] ≡ []
take_nil zero = refl
take_nil (suc n) = refl

take-zero : {A : Type 0} (n : ℕ) (xs : List A) → n ≡ 0 → take n xs ≡ []
take-zero n xs e = rw e refl

take-suc :
    {A : Type 0} (n k : ℕ) (x : A) (xs : List A) → n ≡ suc k → take n (x ∷ xs) ≡ x ∷ take k xs
take-suc n k x xs e = rw e refl

-- One more entry, where there is room.
add_one-take :
    {A : Type 0} (size : ℕ) (o : Option A) (xs cs : List A)
    → length xs < size
    → add_one o xs ++ take (size - length (add_one o xs)) cs
      ≡ xs ++ take (size - length xs) (put_first o cs)
add_one-take size none xs cs h = refl
add_one-take size (some x) xs cs h =
    append_assoc xs (x ∷ []) _
    ∙ ap (λ (r : List _). xs ++ r)
        (sym (
          take-suc (size - length xs) (size - length (xs ++ x ∷ [])) x cs
            (omega (arith, length-append xs (x ∷ [])))))

module _ (L : Lua) {A : Type 0} (size : ℕ) (read : L.Value → Option A) where
  fill_array-append :
      (vs : List L.Value) (xs : List A)
      → fill_array L size read vs xs ≡ xs ++ take (size - length xs) (chosen read vs)
  unfolding fill_array
  fill_array-append [] xs = rw take_nil (sym (append-nil xs))
  fill_array-append (v ∷ vs) xs = elim (Bool-cases (leb size (length xs))) [
    | inl e ↦ rw e (rw (take-zero (size - length xs) _ (ground arith)) (sym (append-nil xs)))
    | inr e ↦ rw e (
        fill_array-append vs (add_one (read v) xs)
        ∙ add_one-take size (read v) xs (chosen read vs) (ground arith))
  ]

  -- The loop over the entries of a table that fills an array holds in the end what it reads from
  -- the entries that it does not pass over, in their order, up to the size of the array.
  pub fill_array-take :
      (vs : List L.Value) → fill_array L size read vs [] ≡ take size (chosen read vs)
  fill_array-take vs =
      fill_array-append vs [] ∙ ap (λ (n : ℕ). take n (chosen read vs)) (omega arith)
