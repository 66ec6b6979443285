-- ===== src/Msg/Examples.antt =====
-- The theorems on tools/monomsg/src/main.c at nine tags and the arguments 1+ and 1+-.
use monowm.Base.{ℕ, ◌-◌, ◌≡◌, refl, some, List, [], ◌∷◌, arith}
use monowm.Msg.Parse.{parse_client_tags, parse_tagset, all_ones}
use monowm.Msg.Edits.{decoded, mask_of, parse_client_tags-parse_tagset}
use monowm.Msg.Bounds.{parse_client_tags-settags}
use monowm.Wm.State.{focustop, visible_on}
use monowm.Wm.Tags.{client_at, settags}
use monowm.Wm.Ipc.{ipc_set_client_tags}
use monowm.Wm.Examples.{server, monitor, window}

abbrev plus : List ℕ
plus = b'1' ∷ b'+' ∷ []

abbrev plus_minus : List ℕ
plus_minus = b'1' ∷ b'+' ∷ b'-' ∷ []

parse_client_tags-parse_tagset_example :
    decoded 5 (parse_client_tags 9 plus_minus) ≡ mask_of (parse_tagset 9 5 plus_minus)
parse_client_tags-parse_tagset_example =
    parse_client_tags-parse_tagset 9 5 plus_minus (omega arith) (omega arith) refl

-- The argument as the two masks.
plus_parsed : parse_client_tags 9 plus ≡ some (all_ones - 2, 2)
unfolding parse_client_tags
plus_parsed = refl

-- A number of 2 ^ 32 wraps around to the tag 0.
wrapped :
    mask_of
      (parse_tagset 9 1 (b'4' ∷ b'2' ∷ b'9' ∷ b'4' ∷ b'9' ∷ b'6' ∷ b'7' ∷ b'2' ∷ b'9' ∷ b'6' ∷ []))
    ≡ some 1
unfolding parse_tagset
wrapped = refl

top_window : client_at server (focustop server (some monitor)) ≡ some (window 7 1)
unfolding focustop visible_on
top_window = refl

parse_client_tags-settags_example :
    (t : ℕ) × (mask_of (parse_tagset 9 1 plus) ≡ some t)
    × (ipc_set_client_tags server (some 1) (all_ones - 2) 2 ≡ settags server (some 7) t)
parse_client_tags-settags_example =
    parse_client_tags-settags server 1 monitor (window 7 1) 9 (all_ones - 2) 2 plus refl top_window
      (omega arith) (omega arith) refl plus_parsed
