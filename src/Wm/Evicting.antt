-- ===== src/Wm/Evicting.antt =====
-- The windows of one output of src/main.c go to another, as a list of windows with their outputs.
use monowm.Base.{
  ℕ, ◌≡◌, ◌≤◌, refl, ap, ◌∙◌, inl, inr, true, false, Option, none, some, List, [], ◌∷◌, map,
  map-same, count, elem, find_by, ◌==◌, if◌then◌else◌, arith, Bool-cases,
}
use monowm.Wm.State.{Client, opt_eq}
use monowm.Wm.Homes.{home, rehome}

abbrev pub Home : Type 0
Home = ℕ × Option ℕ

-- A window of the output `k` goes to `m`.
abbrev pub evict : ℕ → Option ℕ → Home → Home
evict k m (i, n) = if opt_eq n k then (i, m) else (i, n)

-- Only if its id is `i`, or among those of a list.
abbrev pub evict_at : ℕ → ℕ → Option ℕ → Home → Home
evict_at i k m (j, n) = if i == j then evict k m (j, n) else (j, n)

abbrev pub evict_in : List ℕ → ℕ → Option ℕ → Home → Home
evict_in is k m (j, n) = if elem j is then evict k m (j, n) else (j, n)

abbrev pub ids_of : List Client → List ℕ
ids_of cs = map (λ (c : Client). c.id) cs

-- What changes the windows with the id `i` alone.
abbrev ChangesOnly : ℕ → (Home → Home) → Type 0
ChangesOnly i f = (j : ℕ) (n : Option ℕ) → (j == i) ≡ false → f (j, n) ≡ (j, n)

pub unchanged :
    (i : ℕ) (f : Home → Home) (cs : List Client)
    → ChangesOnly i f
    → count i (ids_of cs) ≡ 0
    → map f (map home cs) ≡ map home cs
unchanged i f [] only h = refl
unchanged i f (c ∷ cs) only h = elim (Bool-cases (c.id == i)) [
  | inl e ↦ absurd (let q = rw e at h in omega (arith, q))
  | inr e ↦
      rw (only c.id c.mon e)
        (ap (λ hs. home c ∷ hs) (unchanged i f cs only (let q = rw e at h in q)))
]

pub found_none :
    (i : ℕ) (cs : List Client) → find_by (λ c. c.id == i) cs ≡ none → count i (ids_of cs) ≡ 0
found_none i [] h = refl
found_none i (c ∷ cs) h = elim (Bool-cases (c.id == i)) [
  | inl e ↦ absurd (let q = rw e at h in cc)
  | inr e ↦ rw e (found_none i cs (let q = rw e at h in q))
]

-- The window that is found by its id is the only one with it.
pub changed :
    (i : ℕ) (f g : Home → Home) (cs : List Client) (c : Client)
    → ChangesOnly i f
    → ChangesOnly i g
    → f (home c) ≡ g (home c)
    → find_by (λ d. d.id == i) cs ≡ some c
    → count i (ids_of cs) ≤ 1
    → map f (map home cs) ≡ map g (map home cs)
changed i f g [] c onlyf onlyg same found h = cc
changed i f g (d ∷ ds) c onlyf onlyg same found h = elim (Bool-cases (d.id == i)) [
  | inl e ↦
      let here : d ≡ c = (let q = rw e at found in cc) in
      let gone : count i (ids_of ds) ≡ 0 = (let q = rw e at h in omega (arith, q)) in
      let first : f (home d) ≡ g (home d) = rw here same in
      rw (unchanged i f ds onlyf gone, unchanged i g ds onlyg gone)
        (ap (λ x. x ∷ map home ds) first)
  | inr e ↦
      rw (onlyf d.id d.mon e, onlyg d.id d.mon e)
        (ap (λ hs. home d ∷ hs)
          (changed i f g ds c onlyf onlyg same (let q = rw e at found in q)
            (let q = rw e at h in q)))
]

pub evict_at-ChangesOnly : (i k : ℕ) (m : Option ℕ) → ChangesOnly i (evict_at i k m)
evict_at-ChangesOnly i k m j n h = ground (arith, h)

pub rehome-ChangesOnly : (i : ℕ) (m : Option ℕ) → ChangesOnly i (rehome i m)
rehome-ChangesOnly i m j n h = ground (arith, h)

pub same_list : (hs : List Home) → map (λ h. h) hs ≡ hs
same_list [] = refl
same_list (h ∷ hs) = ap (λ xs. h ∷ xs) (same_list hs)

evict_in-step :
    (i k : ℕ) (is : List ℕ) (m : Option ℕ) (h : Home)
    → opt_eq m k ≡ false
    → evict_in is k m (evict_at i k m h) ≡ evict_in (i ∷ is) k m h
evict_in-step i k is m (j, n) g = elim (Bool-cases (i == j)) [
  | inr e ↦ rw e refl
  | inl e ↦ elim (Bool-cases (opt_eq n k)) [
    | inl f ↦
        rw (e, f) (elim (Bool-cases (elem j is)) [ inl x ↦ rw (x, g) refl | inr x ↦ rw x refl ])
    | inr f ↦
        rw (e, f) (elim (Bool-cases (elem j is)) [ inl x ↦ rw (x, f) refl | inr x ↦ rw x refl ])
  ]
]

pub evict_in-steps :
    (i k : ℕ) (is : List ℕ) (m : Option ℕ) (hs : List Home)
    → opt_eq m k ≡ false
    → map (evict_in is k m) (map (evict_at i k m) hs) ≡ map (evict_in (i ∷ is) k m) hs
evict_in-steps i k is m [] g = refl
evict_in-steps i k is m (h ∷ hs) g =
    ap (λ x. x ∷ map (evict_in is k m) (map (evict_at i k m) hs)) (evict_in-step i k is m h g)
    ∙ ap (λ xs. evict_in (i ∷ is) k m h ∷ xs) (evict_in-steps i k is m hs g)

pub evict_nothing : (k : ℕ) (m : Option ℕ) (hs : List Home) → hs ≡ map (evict_in [] k m) hs
evict_nothing k m [] = refl
evict_nothing k m (h ∷ hs) = ap (λ xs. h ∷ xs) (evict_nothing k m hs)

pub evict_at-id :
    (i k : ℕ) (m : Option ℕ) (hs : List Home)
    → map (λ (h : Home). h.0) (map (evict_at i k m) hs) ≡ map (λ (h : Home). h.0) hs
evict_at-id i k m hs = map-same (λ (h : Home). h.0) (evict_at i k m) (λ (h : Home). ground arith) hs

pub ids-homes : (cs : List Client) → ids_of cs ≡ map (λ (h : Home). h.0) (map home cs)
ids-homes [] = refl
ids-homes (c ∷ cs) = ap (λ xs. c.id ∷ xs) (ids-homes cs)

pub evict_every :
    (k : ℕ) (m : Option ℕ) (is : List ℕ) (cs : List Client)
    → ((j : ℕ) → elem j (ids_of cs) ≡ true → elem j is ≡ true)
    → map (evict_in is k m) (map home cs) ≡ map (evict k m) (map home cs)
evict_every k m is [] h = refl
evict_every k m is (c ∷ cs) h =
    rw (h c.id (ground arith))
      (ap (λ xs. evict k m (home c) ∷ xs) (evict_every k m is cs (λ j p. h j (ground (arith, p)))))
