-- ===== src/Config/Combo.antt =====
-- The combos of mono.bind in src/parser.c, such as logo+shift+a: which are malformed, and the parts
-- of one.
use monowm.Base.{ℕ, Bool, false, not, ◌&&◌, ◌||◌, List, [], ◌∷◌, ◌==◌, if◌then◌else◌, keep}
use monowm.Config.Lua.{is_empty}

abbrev pub plus : ℕ
plus = b'+'

abbrev pub ends_in_plus : List ℕ → Bool
ends_in_plus [] = false
ends_in_plus (c ∷ []) = c == plus
ends_in_plus (c ∷ d ∷ s) = ends_in_plus (d ∷ s)

abbrev pub starts_with_plus : List ℕ → Bool
starts_with_plus [] = false
starts_with_plus (c ∷ s) = c == plus

-- strstr(combo, "++").
abbrev pub has_double_plus : List ℕ → Bool
has_double_plus [] = false
has_double_plus (c ∷ s) = (c == plus && starts_with_plus s) || has_double_plus s

abbrev pub is_bad_combo : List ℕ → Bool
is_bad_combo combo =
    is_empty combo || starts_with_plus combo || ends_in_plus combo || has_double_plus combo

-- strtok_r(buf, "+"): the parts between the separators that are not empty.
abbrev pub onto_first : ℕ → List (List ℕ) → List (List ℕ)
onto_first c [] = (c ∷ []) ∷ []
onto_first c (p ∷ ps) = (c ∷ p) ∷ ps

unfoldable pub parts : List ℕ → List (List ℕ)
parts [] = [] ∷ []
parts (c ∷ s) = if c == plus then [] ∷ parts s else onto_first c (parts s)

unfoldable pub tokens : List ℕ → List (List ℕ)
unfolding parts
tokens s = keep (λ p. not (is_empty p)) (parts s)

-- The loop over the tokens: all but the last are modifiers.
abbrev pub but_last : List (List ℕ) → List (List ℕ)
but_last [] = []
but_last (p ∷ []) = []
but_last (p ∷ q ∷ ps) = p ∷ but_last (q ∷ ps)

abbrev pub last_of : List (List ℕ) → List ℕ
last_of [] = []
last_of (p ∷ []) = p
last_of (p ∷ q ∷ ps) = last_of (q ∷ ps)
