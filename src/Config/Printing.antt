-- ===== src/Config/Printing.antt =====
-- Combos of mono.bind (src/parser.c) that are written from their parts.
use monowm.Base.{
  ℕ, zero, suc, ◌≤◌, ◌<◌, ◌≡◌, ◌≢◌, refl, ap, ◌∙◌, false, not, ◌||◌, some, List, [], ◌∷◌, ◌++◌,
  take, length, ◌==◌, keep, elem, All, arith, leb, true,
}
use monowm.Config.Lua.{is_empty, copied, max_strlen}
use monowm.Config.Combo.{
  plus, ends_in_plus, starts_with_plus, has_double_plus, is_bad_combo, parts, tokens, but_last,
  last_of,
}
use monowm.Config.Bindings.{
  Keys, CfgKeybind, calls, max_keybinds, or_mods, returned, l_mono_bind, bind_combo,
}

-- Parts joined by plus signs.
unfoldable pub join : List (List ℕ) → List ℕ
join [] = []
join (p ∷ []) = p
join (p ∷ q ∷ ps) = p ++ plus ∷ join (q ∷ ps)

-- A part is not empty and has no plus sign.
abbrev pub IsPart : List ℕ → Type 0
IsPart p = (is_empty p ≡ false) × (elem plus p ≡ false)

parts-append : (p s : List ℕ) → elem plus p ≡ false → parts (p ++ plus ∷ s) ≡ p ∷ parts s
unfolding parts
parts-append [] s h = refl
parts-append (c ∷ p) s h =
    let e : (c == plus) ≡ false = ground (arith, h) in
    rw (e, parts-append p s (ground (arith, h))) refl

parts-part : (p : List ℕ) → elem plus p ≡ false → parts p ≡ p ∷ []
unfolding parts
parts-part [] h = refl
parts-part (c ∷ p) h =
    let e : (c == plus) ≡ false = ground (arith, h) in rw (e, parts-part p (ground (arith, h))) refl

parts-join :
    (p : List ℕ) (ps : List (List ℕ)) → All IsPart (p ∷ ps) → parts (join (p ∷ ps)) ≡ p ∷ ps
unfolding join
parts-join p [] h = parts-part p h.0.1
parts-join p (q ∷ ps) h =
    parts-append p _ h.0.1 ∙ ap (λ (r : List (List ℕ)). p ∷ r) (parts-join q ps h.1)

keep_parts : (ps : List (List ℕ)) → All IsPart ps → keep (λ p. not (is_empty p)) ps ≡ ps
keep_parts [] h = refl
keep_parts (p ∷ ps) h = rw (h.0.0, keep_parts ps h.1) refl

tokens-join :
    (p : List ℕ) (ps : List (List ℕ)) → All IsPart (p ∷ ps) → tokens (join (p ∷ ps)) ≡ p ∷ ps
unfolding tokens
tokens-join p ps h = rw (parts-join p ps h) (keep_parts (p ∷ ps) h)

starts-append : (p s : List ℕ) → IsPart p → starts_with_plus (p ++ s) ≡ false
starts-append [] s h = cc
starts-append (c ∷ p) s h = ground (arith, h.1)

ends-append : (p s : List ℕ) → is_empty s ≡ false → ends_in_plus (p ++ plus ∷ s) ≡ ends_in_plus s
ends-append [] [] h = cc
ends-append [] (c ∷ s) h = refl
ends-append (d ∷ []) s h = ends-append [] s h
ends-append (d ∷ e ∷ p) s h = ends-append (e ∷ p) s h

ends-part : (p : List ℕ) → elem plus p ≡ false → ends_in_plus p ≡ false
ends-part [] h = refl
ends-part (c ∷ []) h = ground (arith, h)
ends-part (c ∷ d ∷ p) h = ends-part (d ∷ p) (ground (arith, h))

double-append :
    (p s : List ℕ)
    → elem plus p ≡ false
    → has_double_plus (p ++ plus ∷ s) ≡ (starts_with_plus s || has_double_plus s)
double-append [] s h = refl
double-append (c ∷ p) s h = ground (arith, h, double-append p s)

double-part : (p : List ℕ) → elem plus p ≡ false → has_double_plus p ≡ false
double-part [] h = refl
double-part (c ∷ p) h = ground (arith, h, double-part p)

-- A combo written from parts is not malformed.
record WellFormed (s : List ℕ) : Type 0 where
  nonempty : is_empty s ≡ false
  no_start : starts_with_plus s ≡ false
  no_end : ends_in_plus s ≡ false
  no_double : has_double_plus s ≡ false

nonempty-append : (p s : List ℕ) → is_empty p ≡ false → is_empty (p ++ s) ≡ false
nonempty-append [] s h = cc
nonempty-append (c ∷ p) s h = refl

starts-part : (p : List ℕ) → IsPart p → starts_with_plus p ≡ false
starts-part [] h = refl
starts-part (c ∷ p) h = ground (arith, h.1)

join-WellFormed :
    (p : List ℕ) (ps : List (List ℕ)) → All IsPart (p ∷ ps) → WellFormed (join (p ∷ ps))
unfolding join
join-WellFormed p [] h = record {
  nonempty = h.0.0;
  no_start = starts-part p h.0;
  no_end = ends-part p h.0.1;
  no_double = double-part p h.0.1;
}
join-WellFormed p (q ∷ ps) h =
    let w = join-WellFormed q ps h.1 in
    let s = join (q ∷ ps) in
    record {
      nonempty = nonempty-append p _ h.0.0;
      no_start = starts-append p _ h.0;
      no_end = ends-append p s w.nonempty ∙ w.no_end;
      no_double = double-append p s h.0.1 ∙ rw (w.no_start, w.no_double) refl;
    }

pub take_all : (n : ℕ) (s : List ℕ) → length s ≤ n → take n s ≡ s
take_all zero [] h = refl
take_all zero (c ∷ s) h = absurd (omega arith)
take_all (suc n) [] h = refl
take_all (suc n) (c ∷ s) h = ap (λ (r : List ℕ). c ∷ r) (take_all n s (omega arith))

but_last-append : (ps : List (List ℕ)) (p : List ℕ) → but_last (ps ++ p ∷ []) ≡ ps
but_last-append [] p = refl
but_last-append (q ∷ []) p = refl
but_last-append (q ∷ r ∷ ps) p = ap (λ (t : List (List ℕ)). q ∷ t) (but_last-append (r ∷ ps) p)

last_of-append : (ps : List (List ℕ)) (p : List ℕ) → last_of (ps ++ p ∷ []) ≡ p
last_of-append [] p = refl
last_of-append (q ∷ []) p = refl
last_of-append (q ∷ r ∷ ps) p = last_of-append (r ∷ ps) p

tokens_written :
    (ps : List (List ℕ)) → All IsPart ps → is_empty (join ps) ≡ false → tokens (join ps) ≡ ps
unfolding join
tokens_written [] h e = cc
tokens_written (p ∷ ps) h e = tokens-join p ps h

join_good :
    (ps : List (List ℕ)) (key : List ℕ)
    → All IsPart (ps ++ key ∷ [])
    → WellFormed (join (ps ++ key ∷ []))
join_good [] key h = join-WellFormed key [] h
join_good (p ∷ ps) key h = join-WellFormed p (ps ++ key ∷ []) h

good-is_bad_combo : (s : List ℕ) → WellFormed s → is_bad_combo s ≡ false
good-is_bad_combo s w = rw (w.nonempty, w.no_start, w.no_end, w.no_double) refl

-- If modifiers and a key are not empty and have no plus sign, the modifiers are known, the key
-- has a keysym, the combo is shorter than 256 bytes and there is room for a binding, mono.bind
-- of them joined by plus signs adds one binding at the end, with exactly these modifiers and
-- this key.
pub l_mono_bind-join :
    (K : Keys) (names : List (List ℕ)) (key : List ℕ) (ref mods : ℕ) (binds : List CfgKeybind)
    → All IsPart (names ++ key ∷ [])
    → length (join (names ++ key ∷ [])) < max_strlen
    → length binds < max_keybinds
    → or_mods K names 0 ≡ some mods
    → K.keysym key ≢ 0
    → l_mono_bind K
        (record { combo = some (join (names ++ key ∷ [])); callback = some ref; allocates = true })
        binds
      ≡ (returned, binds ++ record { mods = mods; key = K.keysym key; bound = calls ref } ∷ [])
unfolding l_mono_bind bind_combo copied
l_mono_bind-join K names key ref mods binds good short room known there =
    let s = join (names ++ key ∷ []) in
    let w = join_good names key good in
    let full : leb max_keybinds (length binds) ≡ false = ground arith in
    let whole : take 255 s ≡ s = take_all 255 s (omega arith) in
    let present : (K.keysym key == 0) ≡ false = ground (arith, there) in
    rw
      (
        full,
        good-is_bad_combo s w,
        whole,
        tokens_written (names ++ key ∷ []) good w.nonempty,
        but_last-append names key,
        last_of-append names key,
        known,
        present,
      )
      refl
