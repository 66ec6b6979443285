-- ===== src/Msg/Bounds.antt =====
-- The masks that tools/monomsg/src/main.c sends, and what include/mono/ipc.h does with them.
use monowm.Base.{
  ℕ, suc, ◌^◌, ◌≤◌, ◌<◌, ◌≡◌, refl, sym, ap, ◌∙◌, inl, inr, Bool, false, Option, none, some, List,
  [], ◌∷◌, leb, arith, Bool-cases, xor-lt, or-lt, pow-lt,
}
use monowm.Msg.Parse.{
  edit_mask, edit_tags, read_index, number_or, strip_bang, with_toggle, parse_tagset,
  parse_client_tags,
}
use monowm.Msg.Edits.{applied, decoded, mask_of, has_bang, parse_client_tags-parse_tagset}
use monowm.Wm.State.{Client, Monitor, Server, find_mon, focustop}
use monowm.Wm.Tags.{client_at, settags}
use monowm.Wm.Ipc.{ipc_set_client_tags}

edit_mask-lt : (n c i m : ℕ) → i < n → m < 2 ^ n → edit_mask c i m < 2 ^ n
unfolding edit_mask
edit_mask-lt n c i m l h =
    ground (arith, or-lt n m (2 ^ i) h (pow-lt n i l), xor-lt n m (2 ^ i) h (pow-lt n i l))

-- A mask, if there is one, without bits from a place on.
abbrev pub Below : ℕ → Option ℕ → Type 0
Below n none = Unit
Below n (some m) = m < 2 ^ n

edit_tags-Below : (n : ℕ) (t : List ℕ) (i m : ℕ) → m < 2 ^ n → Below n (edit_tags n t i m)
unfolding edit_tags
edit_tags-Below n [] i m h = h
edit_tags-Below n (c ∷ t) i m h = elim (Bool-cases (leb n i)) [
  | inl e ↦ rw e tt
  | inr e ↦
      rw e (edit_tags-Below n t (suc i) (edit_mask c i m) (edit_mask-lt n c i m (ground arith) h))
]

number_or-Below :
    (n : ℕ) (r : ℕ × List ℕ) (m : ℕ)
    → m < 2 ^ n
    → Below n (number_or n r (2 ^ r.0) (edit_tags n r.1 r.0 m))
number_or-Below n (i, []) m h = elim (Bool-cases (leb n i)) [
  | inl e ↦ rw e tt
  | inr e ↦ rw e (pow-lt n i (ground arith))
]
number_or-Below n (i, c ∷ t) m h = edit_tags-Below n (c ∷ t) i m h

with_toggle-Below :
    (n : ℕ) (b : Bool) (o : Option ℕ) → Below n o → Below n (mask_of (with_toggle b o))
with_toggle-Below n b none h = tt
with_toggle-Below n b (some m) h = h

-- If the shown tags are among the announced ones, so is the mask that -t sends, for every text.
pub parse_tagset-Below :
    (tagcount seltags : ℕ) (text : List ℕ)
    → seltags < 2 ^ tagcount
    → Below tagcount (mask_of (parse_tagset tagcount seltags text))
unfolding parse_tagset
parse_tagset-Below n m text h =
    with_toggle-Below n (strip_bang text).0 _
      (number_or-Below n (read_index (strip_bang text).1 0) m h)

ipc-applied :
    (s : Server) (k : ℕ) (m : Monitor) (c : Client) (a x : ℕ)
    → find_mon s k ≡ some m
    → client_at s (focustop s (some m)) ≡ some c
    → ipc_set_client_tags s (some k) a x ≡ settags s (some c.id) (applied c.tags (a, x))
unfolding ipc_set_client_tags
ipc-applied s k m c a x f e = rw (f, e) refl

-- If the output of a dwl-ipc object exists and has a topmost focused window whose tags are a
-- word, and monomsg with at most 32 tags makes two masks of a text with no exclamation mark in
-- front, then the request with these masks calls settags on that window with the mask that -t
-- would make of the text and the window's tags.
pub parse_client_tags-settags :
    (s : Server) (k : ℕ) (m : Monitor) (c : Client) (tagcount a x : ℕ) (text : List ℕ)
    → find_mon s k ≡ some m
    → client_at s (focustop s (some m)) ≡ some c
    → tagcount ≤ 32
    → c.tags < 2 ^ 32
    → has_bang text ≡ false
    → parse_client_tags tagcount text ≡ some (a, x)
    → (t : ℕ) × (mask_of (parse_tagset tagcount c.tags text) ≡ some t)
      × (ipc_set_client_tags s (some k) a x ≡ settags s (some c.id) t)
parse_client_tags-settags s k m c n a x text f e l p h r =
    let same = parse_client_tags-parse_tagset n c.tags text l p h in
    (applied c.tags (a, x), sym same ∙ ap (decoded c.tags) r, ipc-applied s k m c a x f e)
