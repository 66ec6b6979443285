-- ===== src/Wm/Tags.antt =====
-- The actions on tags and views: view, toggleview, viewshift, settags, tag, toggletag, tagshift and
-- setlayout of src/main.c.
use Prim.Native.Nat.{bit_xor}
use monowm.Base.{
  ℕ, suc, ◌+◌, ◌-◌, ◌%◌, ◌^◌, Bool, true, false, not, ◌||◌, Option, none, some, map, ◌==◌,
  if◌then◌else◌, bit_and, ltb, ℤ, pos, negsuc,
}
use monowm.Dwindle.Edit.{dwindle_remove}
use monowm.Wm.State.{
  Client, Monitor, Server, Layout, floating, dwindle_layout, tagset, set_tagset, find_client,
  find_mon, update_client, update_mon, focustop, selected, on_mon, tag_mask, tagcount, lowest,
  layout,
}
use monowm.Wm.Focus.{focusclient}
use monowm.Wm.Arrange.{arrange, canvas_leave}

-- What follows a change of a monitor's view: focus its topmost window, and arrange.
unfoldable pub refocus : Server → ℕ → Server
unfolding focusclient focustop arrange
refocus s k = arrange (focusclient s (focustop s (find_mon s k))) k

-- The view that view() leaves the monitor with: the other tag set, changed unless no tag is asked.
unfoldable pub viewed : ℕ → Monitor → Monitor
viewed tags m =
    let other = record m { seltags = not m.seltags } in
    if tags == 0 then other else set_tagset tags other

unfoldable pub view : Server → ℕ → Server
unfolding viewed refocus
view s ui = on_mon s (selected s) λ m.
    if bit_and ui tag_mask == tagset m
    then s
    else refocus (update_mon m.id (viewed (bit_and ui tag_mask)) s) m.id

unfoldable pub toggleview : Server → ℕ → Server
unfolding refocus
toggleview s ui = on_mon s (selected s) λ m.
    let newtagset = bit_xor (tagset m) (bit_and ui tag_mask) in
    if newtagset == 0 then s else refocus (update_mon m.id (set_tagset newtagset) s) m.id

-- (idx + arg) % TAGCOUNT, brought into range when C's remainder is negative.
unfoldable pub shift_idx : ℕ → ℤ → ℕ
shift_idx idx (pos n) = (idx + n) % tagcount
shift_idx idx (negsuc n) =
    if ltb idx (suc n)
    then (let r = (suc n - idx) % tagcount in if r == 0 then 0 else tagcount - r)
    else (idx - suc n) % tagcount

-- The index of the first tag, 0 if there is none.
unfoldable pub first_idx : ℕ → ℕ
unfolding lowest
first_idx tags = if bit_and tags tag_mask == 0 then 0 else lowest tagcount (bit_and tags tag_mask)

unfoldable pub viewshift : Server → ℤ → Server
unfolding view shift_idx first_idx
viewshift s i = on_mon s (selected s) λ m. view s (2 ^ shift_idx (first_idx (tagset m)) i)

-- dwindle_remove_client: out of every tree of every monitor.
unfoldable pub forget_leaf : ℕ → Monitor → Monitor
unfolding dwindle_remove
forget_leaf k m = record m {
  dwindle_root =
      λ i. if ltb i tagcount then (dwindle_remove (m.dwindle_root i) k).0 else m.dwindle_root i;
}

unfoldable pub dwindle_remove_client : Server → ℕ → Server
unfolding forget_leaf
dwindle_remove_client s k = record s { mons = map (forget_leaf k) s.mons }

abbrev pub retag : ℕ → Client → Client
retag tags c = record (canvas_leave c) { tags = tags }

unfoldable pub settags_on : Server → Client → ℕ → ℕ → Server
unfolding canvas_leave dwindle_remove_client refocus
settags_on s c k tags = refocus (update_client c.id (retag tags) (dwindle_remove_client s c.id)) k

abbrev pub settags_of : Server → Option Client → ℕ → Server
settags_of s none tags = s
settags_of s (some c) tags = elim c.mon [
  | none ↦ s
  | some k ↦ if tags == 0 || c.tags == tags then s else settags_on s c k tags
]

abbrev pub client_at : Server → Option ℕ → Option Client
client_at s none = none
client_at s (some k) = find_client s k

unfoldable pub settags : Server → Option ℕ → ℕ → Server
unfolding settags_on
settags s k newtags = settags_of s (client_at s k) (bit_and newtags tag_mask)

-- focustop(selmon).
unfoldable pub sel : Server → Option Client
unfolding focustop
sel s = client_at s (focustop s (selected s))

unfoldable pub tag : Server → ℕ → Server
unfolding settags
tag s ui = settags s (focustop s (selected s)) ui

abbrev pub with_sel : Server → Option Client → (Client → Server) → Server
with_sel s none f = s
with_sel s (some c) f = f c

unfoldable pub toggletag : Server → ℕ → Server
unfolding sel settags
toggletag s ui =
    with_sel s (sel s) (λ c. settags s (some c.id) (bit_xor c.tags (bit_and ui tag_mask)))

unfoldable pub tagshift : Server → ℤ → Server
unfolding sel tag shift_idx first_idx
tagshift s i = with_sel s (sel s) (λ c. tag s (2 ^ shift_idx (first_idx c.tags) i))

abbrev pub is_layout : Layout → Layout → Bool
is_layout floating floating = true
is_layout dwindle_layout dwindle_layout = true
is_layout _ _ = false

abbrev pub put_layout : Layout → Monitor → Monitor
put_layout l m = if m.sellt then record m { lt1 = l } else record m { lt0 = l }

-- The layout fields after setlayout(): the asked layout in the other slot, unless it is in use.
unfoldable pub choose_layout : Option Layout → Monitor → Monitor
choose_layout none m = record m { sellt = not m.sellt }
choose_layout (some l) m =
    if is_layout l (layout m)
    then put_layout l m
    else put_layout l (record m { sellt = not m.sellt })

abbrev pub layout_at : Option ℕ → Option Layout
layout_at none = none
layout_at (some i) = if i == 0 then some floating else if i == 1 then some dwindle_layout else none

unfoldable pub setlayout : Server → Option ℕ → Server
unfolding choose_layout arrange
setlayout s i =
    on_mon s (selected s) λ m. arrange (update_mon m.id (choose_layout (layout_at i)) s) m.id
