-- ===== src/Msg/Parse.antt =====
-- How tools/monomsg/src/main.c reads its -t and -c arguments. A text is its list of bytes, and
-- `none` is die(). Numbers are uint32_t, so reading digits wraps around. `tagcount` is what the
-- compositor announced, at most 32.
use Prim.Native.Nat.{bit_xor}
use monowm.Base.{
  ℕ, suc, ◌+◌, ◌-◌, ◌*◌, ◌%◌, ◌^◌, Bool, true, false, ◌&&◌, Option, none, some, List, [], ◌∷◌, ◌==◌,
  if◌then◌else◌, leb, bit_and, bit_or,
}

abbrev pub is_digit : ℕ → Bool
is_digit c = leb b'0' c && leb c b'9'

-- The loop over the digits: the number, and the text from the first other byte on.
unfoldable pub read_index : List ℕ → ℕ → ℕ × List ℕ
read_index [] i = (i, [])
read_index (c ∷ t) i =
    let rest = read_index t ((c - b'0' + i * 10) % 2 ^ 32) in
    if is_digit c then rest else (i, c ∷ t)

-- `mask & ~bit`.
abbrev pub clear : ℕ → ℕ → ℕ
clear mask bit = mask - bit_and mask bit

-- The switch over one sign.
unfoldable pub edit_mask : ℕ → ℕ → ℕ → ℕ
edit_mask c i mask =
    if c == b'-'
    then clear mask (2 ^ i)
    else if c == b'+'
    then bit_or mask (2 ^ i)
    else if c == b'^'
    then bit_xor mask (2 ^ i)
    else mask

unfoldable pub edit_tags : ℕ → List ℕ → ℕ → ℕ → Option ℕ
unfolding edit_mask
edit_tags tagcount [] i mask = some mask
edit_tags tagcount (c ∷ t) i mask =
    let rest = edit_tags tagcount t (suc i) (edit_mask c i mask) in
    if leb tagcount i then none else rest

-- A bare number, or signs from a tag on.
abbrev pub number_or {ℓ} : {A : Type ℓ} → ℕ → ℕ × List ℕ → A → Option A → Option A
number_or tagcount (i, []) bare signs = if leb tagcount i then none else some bare
number_or tagcount (i, c ∷ t) bare signs = signs

abbrev pub strip_bang : List ℕ → Bool × List ℕ
strip_bang [] = (true, [])
strip_bang (c ∷ t) = if c == b'!' then (false, t) else (true, c ∷ t)

abbrev pub with_toggle : Bool → Option ℕ → Option (ℕ × Bool)
with_toggle toggle none = none
with_toggle toggle (some mask) = some (mask, toggle)

-- The mask and the toggle flag that -t sends, from the tags that are shown.
unfoldable pub parse_tagset : ℕ → ℕ → List ℕ → Option (ℕ × Bool)
unfolding read_index edit_tags
parse_tagset tagcount seltags text =
    let (toggle, t) = strip_bang text in
    let r = read_index t 0 in
    with_toggle toggle (number_or tagcount r (2 ^ r.0) (edit_tags tagcount r.1 r.0 seltags))

-- The switch over one sign of -c, on the masks `and` and `xor`.
unfoldable pub edit_masks : ℕ → ℕ → ℕ × ℕ → ℕ × ℕ
edit_masks c i (a, x) =
    if c == b'-'
    then (clear a (2 ^ i), x)
    else if c == b'+'
    then (clear a (2 ^ i), bit_or x (2 ^ i))
    else if c == b'^'
    then (a, bit_or x (2 ^ i))
    else (a, x)

unfoldable pub edit_client_tags : ℕ → List ℕ → ℕ → ℕ × ℕ → Option (ℕ × ℕ)
unfolding edit_masks
edit_client_tags tagcount [] i masks = some masks
edit_client_tags tagcount (c ∷ t) i masks =
    let rest = edit_client_tags tagcount t (suc i) (edit_masks c i masks) in
    if leb tagcount i then none else rest

abbrev pub all_ones : ℕ
all_ones = 2 ^ 32 - 1

unfoldable pub parse_client_tags : ℕ → List ℕ → Option (ℕ × ℕ)
unfolding read_index edit_client_tags
parse_client_tags tagcount text =
    let r = read_index text 0 in
    number_or tagcount r (0, 2 ^ r.0) (edit_client_tags tagcount r.1 r.0 (all_ones, 0))
