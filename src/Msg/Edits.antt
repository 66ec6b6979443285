-- ===== src/Msg/Edits.antt =====
-- The masks `and` and `xor` of monomsg -c, and what the compositor makes of them.
use Prim.Native.Nat.{bit_xor}
use monowm.Base.{
  ℕ, suc, ◌+◌, ◌^◌, ◌≤◌, ◌<◌, ◌≡◌, refl, sym, ap, ◌∙◌, inl, inr, Bool, true, false, ◌&&◌, Option,
  none, some, List, [], ◌∷◌, ◌==◌, leb, bit_and, arith, Bool-cases, test_bit, test_bit-and,
  test_bit-or, test_bit-xor, test_bit-pow, test_bit-sub_and, differs, eq_of_test_bit, and_low,
  test_bit-zero, test_bit-ones,
}
use monowm.Msg.Parse.{
  edit_mask, edit_tags, edit_masks, edit_client_tags, all_ones, read_index, number_or,
  parse_client_tags, parse_tagset, strip_bang, with_toggle,
}

-- What ipc_output_handle_set_client_tags makes of a window's tags.
abbrev pub applied : ℕ → ℕ × ℕ → ℕ
applied old (a, x) = bit_xor (bit_and old a) x

-- The masks stand for an edit of the tags that has come to `m`, the places from `i` on untouched.
record Stands (old i : ℕ) (masks : ℕ × ℕ) (m : ℕ) : Type 0 where
  bits :
      (j : ℕ) → test_bit m j ≡ differs (test_bit old j && test_bit masks.0 j) (test_bit masks.1 j)
  no_xor : (j : ℕ) → i ≤ j → test_bit masks.1 j ≡ false
  kept : (j : ℕ) → i ≤ j → j < 32 → test_bit masks.0 j ≡ true

edit-Stands :
    (old c i m : ℕ) (masks : ℕ × ℕ)
    → i < 32
    → Stands old i masks m
    → Stands old (suc i) (edit_masks c i masks) (edit_mask c i m)
unfolding edit_masks edit_mask
edit-Stands old c i m (a, x) l h = record {
  bits = λ j. ground (
    arith,
    test_bit-sub_and a (2 ^ i) j,
    test_bit-sub_and m (2 ^ i) j,
    test_bit-or m (2 ^ i) j,
    test_bit-or x (2 ^ i) j,
    test_bit-xor m (2 ^ i) j,
    test_bit-pow i j,
    h.bits j,
    h.no_xor j,
    h.kept j,
  );
  no_xor = λ j g. ground (arith, test_bit-or x (2 ^ i) j, test_bit-pow i j, h.no_xor j);
  kept = λ j g p. ground (arith, test_bit-sub_and a (2 ^ i) j, test_bit-pow i j, h.kept j);
}

Stands-applied : (old i m : ℕ) (masks : ℕ × ℕ) → Stands old i masks m → applied old masks ≡ m
Stands-applied old i m (a, x) h =
    eq_of_test_bit (bit_xor (bit_and old a) x + m) _ m (omega arith) (omega arith)
      (λ j. rw (test_bit-xor, test_bit-and) (sym (h.bits j)))

Stands-start : (old i : ℕ) → old < 2 ^ 32 → Stands old i (all_ones, 0) old
Stands-start old i l = record {
  bits = λ j. ground (
    arith,
    ap (λ (a : ℕ). test_bit a j) (and_low 32 old l),
    test_bit-and old all_ones j,
    test_bit-zero j,
  );
  no_xor = λ j g. test_bit-zero j;
  kept = λ j g p. test_bit-ones 32 j p;
}

-- The tags that a window gets from the answer of parse_client_tags.
abbrev pub decoded : ℕ → Option (ℕ × ℕ) → Option ℕ
decoded old none = none
decoded old (some masks) = some (applied old masks)

edit_client_tags-decoded :
    (tagcount old : ℕ) (t : List ℕ) (i m : ℕ) (masks : ℕ × ℕ)
    → tagcount ≤ 32
    → Stands old i masks m
    → decoded old (edit_client_tags tagcount t i masks) ≡ edit_tags tagcount t i m
unfolding edit_client_tags edit_tags
edit_client_tags-decoded tagcount old [] i m masks l h = ap some (Stands-applied old i m masks h)
edit_client_tags-decoded tagcount old (c ∷ t) i m masks l h = elim (Bool-cases (leb tagcount i)) [
  | inl e ↦ rw e refl
  | inr e ↦ rw e (
      edit_client_tags-decoded tagcount old t (suc i) (edit_mask c i m) (edit_masks c i masks) l
        (edit-Stands old c i m masks (ground arith) h))
]

applied-bare : (old b : ℕ) → applied old (0, b) ≡ b
applied-bare old b =
    eq_of_test_bit (bit_xor (bit_and old 0) b + b) _ b (omega arith) (omega arith)
      (λ j. ground (arith, test_bit-xor (bit_and old 0) b j, test_bit-and old 0 j, test_bit-zero j))

-- The mask alone of parse_tagset's answer.
abbrev pub mask_of : Option (ℕ × Bool) → Option ℕ
mask_of none = none
mask_of (some r) = some r.0

abbrev pub has_bang : List ℕ → Bool
has_bang [] = false
has_bang (c ∷ t) = c == b'!'

mask_of-with_toggle : (b : Bool) (o : Option ℕ) → mask_of (with_toggle b o) ≡ o
mask_of-with_toggle b none = refl
mask_of-with_toggle b (some m) = refl

strip_bang-none : (t : List ℕ) → has_bang t ≡ false → strip_bang t ≡ (true, t)
strip_bang-none [] h = refl
strip_bang-none (c ∷ t) h = rw h refl

number_or-decoded :
    (tagcount old : ℕ) (r : ℕ × List ℕ)
    → tagcount ≤ 32
    → old < 2 ^ 32
    → decoded old
        (number_or tagcount r (0, 2 ^ r.0) (edit_client_tags tagcount r.1 r.0 (all_ones, 0)))
      ≡ number_or tagcount r (2 ^ r.0) (edit_tags tagcount r.1 r.0 old)
number_or-decoded tagcount old (i, []) l p = elim (Bool-cases (leb tagcount i)) [
  | inl e ↦ rw e refl
  | inr e ↦ rw e (ap some (applied-bare old (2 ^ i)))
]
number_or-decoded tagcount old (i, c ∷ t) l p =
    edit_client_tags-decoded tagcount old (c ∷ t) i old (all_ones, 0) l (Stands-start old i p)

-- If there are at most 32 tags, the old tags are a word and the text has no exclamation mark in
-- front, the two masks that -c makes of it, applied to the old tags, give the mask that -t makes
-- of it and the old tags; and one of them stops with an error exactly if the other does.
pub parse_client_tags-parse_tagset :
    (tagcount old : ℕ) (text : List ℕ)
    → tagcount ≤ 32
    → old < 2 ^ 32
    → has_bang text ≡ false
    → decoded old (parse_client_tags tagcount text) ≡ mask_of (parse_tagset tagcount old text)
unfolding parse_client_tags parse_tagset
parse_client_tags-parse_tagset tagcount old text l p h =
    rw (strip_bang-none text h)
      (number_or-decoded tagcount old (read_index text 0) l p ∙ sym (mask_of-with_toggle true _))
