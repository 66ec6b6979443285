-- ===== src/Status/Collect.antt =====
-- status_collect of src/main.c: what is counted of the windows of an output.
use monowm.Base.{
  ℕ, suc, ◌+◌, ◌<◌, ◌≡◌, refl, Bool, ◌&&◌, ◌||◌, Option, none, some, List, [], ◌∷◌, if◌then◌else◌,
  ltb, any_of, keep, length, bit_or, shares, shares-pow, ◌^◌, test_bit, test_bit-or, test_bit-zero,
  arith, Bool-cases, inl, inr,
}
use monowm.Wm.State.{Client, Monitor, Server, opt_eq, focustop, tagcount}
use monowm.Wm.Tags.{client_at}

pub record MonitorStatus : Type 0 where
  pub focused : Option ℕ
  pub selected : ℕ
  pub occupied : ℕ
  pub urgent : ℕ
  pub counts : ℕ → ℕ

-- The body of the loop, for a window of the output.
unfoldable pub count_client : Client → MonitorStatus → MonitorStatus
count_client c st = record st {
  occupied = bit_or st.occupied c.tags;
  urgent = if c.isurgent then bit_or st.urgent c.tags else st.urgent;
  counts = λ t. if ltb t tagcount && shares c.tags (2 ^ t) then suc (st.counts t) else st.counts t;
}

unfoldable pub collect : Monitor → List Client → MonitorStatus → MonitorStatus
unfolding count_client
collect m [] st = st
collect m (c ∷ cs) st = collect m cs (if opt_eq c.mon m.id then count_client c st else st)

abbrev pub selected_tags : Option Client → ℕ
selected_tags none = 0
selected_tags (some c) = c.tags

unfoldable pub status_collect : Server → Monitor → MonitorStatus
unfolding collect focustop
status_collect s m = collect m s.clients (record {
  focused = focustop s (some m);
  selected = selected_tags (client_at s (focustop s (some m)));
  occupied = 0;
  urgent = 0;
  counts = λ t. 0;
})

-- Whether a window is on a tag of an output.
abbrev pub on_tag : Monitor → ℕ → Client → Bool
on_tag m i c = opt_eq c.mon m.id && test_bit c.tags i

abbrev pub urgent_on_tag : Monitor → ℕ → Client → Bool
urgent_on_tag m i c = opt_eq c.mon m.id && c.isurgent && test_bit c.tags i

module _ (m : Monitor) (i : ℕ) where
  collect-occupied :
      (cs : List Client) (st : MonitorStatus)
      → test_bit (collect m cs st).occupied i ≡ (test_bit st.occupied i || any_of (on_tag m i) cs)
  unfolding collect
  collect-occupied [] st = ground arith
  collect-occupied (c ∷ cs) st = elim (Bool-cases (opt_eq c.mon m.id)) [
    | inl e ↦
        rw e (
          ground (arith, collect-occupied cs (count_client c st), test_bit-or st.occupied c.tags i))
    | inr e ↦ rw (e, collect) (collect-occupied cs st)
  ]

  collect-urgent :
      (cs : List Client) (st : MonitorStatus)
      → test_bit (collect m cs st).urgent i
        ≡ (test_bit st.urgent i || any_of (urgent_on_tag m i) cs)
  unfolding collect
  collect-urgent [] st = ground arith
  collect-urgent (c ∷ cs) st = elim (Bool-cases (opt_eq c.mon m.id)) [
    | inl e ↦
        rw e (ground (arith, collect-urgent cs (count_client c st), test_bit-or st.urgent c.tags i))
    | inr e ↦ rw (e, collect) (collect-urgent cs st)
  ]

  collect-counts :
      (cs : List Client) (st : MonitorStatus)
      → i < tagcount
      → (collect m cs st).counts i ≡ st.counts i + length (keep (on_tag m i) cs)
  unfolding collect
  collect-counts [] st l = omega arith
  collect-counts (c ∷ cs) st l = elim (Bool-cases (opt_eq c.mon m.id)) [
    | inl e ↦ rw e (ground (arith, collect-counts cs (count_client c st), shares-pow c.tags i))
    | inr e ↦ rw (e, collect) (collect-counts cs st l)
  ]

-- For each of the nine tags, status_collect finds the tag occupied exactly if a window of the
-- output has it, urgent exactly if an urgent window of the output has it, and counts the windows
-- of the output that have it.
pub status_collect_lem :
    (s : Server) (m : Monitor) (i : ℕ)
    → i < tagcount
    → (test_bit (status_collect s m).occupied i ≡ any_of (on_tag m i) s.clients)
      × (test_bit (status_collect s m).urgent i ≡ any_of (urgent_on_tag m i) s.clients)
      × ((status_collect s m).counts i ≡ length (keep (on_tag m i) s.clients))
unfolding status_collect
status_collect_lem s m i l =
    let st : MonitorStatus = record {
      focused = focustop s (some m);
      selected = selected_tags (client_at s (focustop s (some m)));
      occupied = 0;
      urgent = 0;
      counts = λ t. 0;
    } in
    (
      ground (arith, collect-occupied m i s.clients st, test_bit-zero i),
      ground (arith, collect-urgent m i s.clients st, test_bit-zero i),
      ground (arith, collect-counts m i s.clients st l),
    )

any-keep : (p : Client → Bool) (cs : List Client) → any_of p cs ≡ ltb 0 (length (keep p cs))
any-keep p [] = refl
any-keep p (c ∷ cs) = ground (arith, any-keep p cs)

-- A tag is occupied exactly if some window is counted on it.
pub occupied-counts :
    (s : Server) (m : Monitor) (i : ℕ)
    → i < tagcount
    → test_bit (status_collect s m).occupied i ≡ ltb 0 ((status_collect s m).counts i)
occupied-counts s m i l =
    let (a, b, c) = status_collect_lem s m i l in rw (a, c) (any-keep (on_tag m i) s.clients)
