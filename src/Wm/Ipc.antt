-- ===== src/Wm/Ipc.antt =====
-- The requests of dwl-ipc that change the state (include/mono/ipc.h): set_tags, set_client_tags and
-- set_layout. `out->mon` is the id of a monitor, `none` once that was freed.
use Prim.Native.Nat.{bit_xor}
use monowm.Base.{
  List, ==_ne, ==_iff, find_by_holds, ℕ, ◌<◌, ◌≡◌, refl, sym, ap, ◌∙◌, Bool, not, Option, none,
  some, ◌==◌, if◌then◌else◌, bit_and, Bool-cases, Option-cases, inl, inr, arith,
}
use monowm.Wm.State.{
  Monitor, Server, Layout, tagset, set_tagset, update_mon, focustop, on_mon, tag_mask, find_mon,
}
use monowm.Wm.Arrange.{arrange}
use monowm.Wm.Tags.{refocus, settags, client_at, with_sel, layout_at, put_layout}
use monowm.Wm.Windows.{mon_of}
use monowm.Wm.Showing.{same_tagset}
use monowm.Wm.Views.{
  view_of, View, view_of?, views, shown, find_mon-shown, find_mon-update, refocus-views,
}
use monowm.Wm.Safe.{IsView, IsTagset, IsTagged, refocus-IsTagged}
use monowm.Wm.Actions.{
  update_mon-IsTagged, settags-IsTagged, with_sel-IsTagged, arrange-IsTagged, masked,
}

unfoldable pub taken : ℕ → Bool → Monitor → Monitor
taken t toggle_tagset m =
    set_tagset t (if toggle_tagset then record m { seltags = not m.seltags } else m)

unfoldable pub ipc_set_tags : Server → Option ℕ → ℕ → Bool → Server
unfolding taken refocus
ipc_set_tags s k tagmask toggle_tagset = on_mon s (mon_of s k) λ m.
    let t = bit_and tagmask tag_mask in
    if t == 0 then s else refocus (update_mon m.id (taken t toggle_tagset) s) m.id

unfoldable pub ipc_set_client_tags : Server → Option ℕ → ℕ → ℕ → Server
unfolding focustop settags
ipc_set_client_tags s k and_tags xor_tags = on_mon s (mon_of s k) λ m.
    with_sel s (client_at s (focustop s (some m)))
      λ c. settags s (some c.id) (bit_xor (bit_and c.tags and_tags) xor_tags)

abbrev pub use_layout : Option Layout → Monitor → Server → Server
use_layout none m s = s
use_layout (some l) m s = arrange (update_mon m.id (put_layout l) s) m.id

unfoldable pub ipc_set_layout : Server → Option ℕ → ℕ → Server
unfolding arrange
ipc_set_layout s k idx = on_mon s (mon_of s k) (λ m. use_layout (layout_at (some idx)) m s)

taken-IsView :
    (t : ℕ) (b : Bool) (m : Monitor)
    → IsTagset t
    → IsView (view_of m)
    → IsView (view_of (taken t b m))
unfolding taken
taken-IsView t b m k h = ground arith

pub ipc_set_tags-IsTagged :
    (s : Server) (k : Option ℕ) (t : ℕ) (b : Bool) → IsTagged s → IsTagged (ipc_set_tags s k t b)
unfolding ipc_set_tags
ipc_set_tags-IsTagged s k t b h = elim (Option-cases (mon_of s k)) [
  | inl e ↦ rw e h
  | inr (m, e) ↦ rw e (elim (Bool-cases (bit_and t tag_mask == 0)) [
    | inl f ↦ rw f h
    | inr f ↦ rw f (
        refocus-IsTagged (update_mon m.id (taken (bit_and t tag_mask) b) s) m.id (
          update_mon-IsTagged m.id (taken (bit_and t tag_mask) b) s
            (λ n. taken-IsView (bit_and t tag_mask) b n (ground arith, masked t)) h))
  ])
]

pub ipc_set_client_tags-IsTagged :
    (s : Server) (k : Option ℕ) (a x : ℕ) → IsTagged s → IsTagged (ipc_set_client_tags s k a x)
unfolding ipc_set_client_tags
ipc_set_client_tags-IsTagged s k a x h = elim (Option-cases (mon_of s k)) [
  | inl e ↦ rw e h
  | inr (m, e) ↦ rw e (
      with_sel-IsTagged s (client_at s (focustop s (some m))) _
        (λ c. settags-IsTagged s (some c.id) (bit_xor (bit_and c.tags a) x) h) h)
]

use_layout-IsTagged :
    (o : Option Layout) (m : Monitor) (s : Server) → IsTagged s → IsTagged (use_layout o m s)
use_layout-IsTagged none m s h = h
use_layout-IsTagged (some l) m s h =
    arrange-IsTagged (update_mon m.id (put_layout l) s) m.id
      (update_mon-IsTagged m.id (put_layout l) s (λ n p. ground (arith, p)) h)

pub ipc_set_layout-IsTagged :
    (s : Server) (k : Option ℕ) (i : ℕ) → IsTagged s → IsTagged (ipc_set_layout s k i)
unfolding ipc_set_layout
ipc_set_layout-IsTagged s k i h = elim (Option-cases (mon_of s k)) [
  | inl e ↦ rw e h
  | inr (m, e) ↦ rw e (use_layout-IsTagged (layout_at (some i)) m s h)
]

-- A monitor is found with its view wherever the views are the same.
same_found :
    (s t : Server) (k : ℕ) (m : Monitor)
    → views t ≡ views s
    → find_mon s k ≡ some m
    → (n : Monitor) × (find_mon t k ≡ some n) × (view_of n ≡ view_of m)
same_found s t k m v f = go (find_mon t k) refl
  where
    same : view_of? (find_mon t k) ≡ view_of? (find_mon s k)
    same =
        find_mon-shown t.mons k
        ∙ ap (λ (vs : List View). shown vs k) v
        ∙ sym (find_mon-shown s.mons k)

    go :
        (o : Option Monitor)
        → find_mon t k ≡ o
        → (n : Monitor) × (find_mon t k ≡ some n) × (view_of n ≡ view_of m)
    go none e = absurd (let q = rw (e, f) at same in cc)
    go (some n) e = (n, e, let q = rw (e, f) at same in cc)

taken-tagset : (t : ℕ) (b : Bool) (m : Monitor) → tagset (taken t b m) ≡ t
unfolding taken
taken-tagset t b m = ground arith

taken-id : (t : ℕ) (b : Bool) (m : Monitor) → (taken t b m).id ≡ m.id
unfolding taken
taken-id t b m = ground arith

set_tags-refocus :
    (s : Server) (m : Monitor) (k t : ℕ) (b : Bool)
    → find_mon s k ≡ some m
    → 0 < bit_and t tag_mask
    → ipc_set_tags s (some k) t b ≡ refocus (update_mon m.id (taken (bit_and t tag_mask) b) s) m.id
unfolding ipc_set_tags
set_tags-refocus s m k t b f p =
    rw (f, ==_ne (bit_and t tag_mask) 0 (λ e. absurd (omega (arith, e)))) refl

-- If the monitor of a dwl-ipc output exists and the asked tags are not empty, the monitor shows
-- exactly these tags after set_tags, whether or not the request toggles the tag set.
pub ipc_set_tags-tagset :
    (s : Server) (m : Monitor) (k t : ℕ) (b : Bool)
    → find_mon s k ≡ some m
    → 0 < bit_and t tag_mask
    → (n : Monitor) × (find_mon (ipc_set_tags s (some k) t b) k ≡ some n)
      × (tagset n ≡ bit_and t tag_mask)
ipc_set_tags-tagset s m k t b f p =
    let a = bit_and t tag_mask in
    let is : m.id ≡ k = (==_iff m.id k).0 (find_by_holds (λ n. n.id == k) s.mons m f) in
    let u = update_mon m.id (taken a b) s in
    let there : find_mon u k ≡ some (taken a b m) =
      ap (find_mon u) (sym is)
      ∙ find_mon-update s.mons m.id (taken a b) m (taken-id a b) (ap (find_mon s) is ∙ f) in
    let (n, found, e) =
      same_found u (ipc_set_tags s (some k) t b) k (taken a b m)
        (ap views (set_tags-refocus s m k t b f p) ∙ refocus-views u m.id) there in
    (n, found, same_tagset n (taken a b m) e ∙ taken-tagset a b m)
