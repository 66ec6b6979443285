-- ===== src/Wm/Closed.antt =====
-- closemon of src/main.c: where the windows of an output go that is closed.
use monowm.Base.{
  ℕ, ◌≡◌, ◌≤◌, refl, sym, ap, ◌∙◌, inl, inr, true, false, not, ◌&&◌, Option, none, some, List, [],
  ◌∷◌, map, subst, count, find_by, ◌==◌, if◌then◌else◌, arith, Bool-cases, Option-cases,
  find_by_holds,
}
use monowm.Wm.State.{Client, Monitor, Server, find_client, focustop, selected, opt_eq}
use monowm.Wm.Focus.{focusclient}
use monowm.Wm.Arrange.{client_ids}
use monowm.Wm.Tags.{with_sel}
use monowm.Wm.Windows.{same_mon, setmon, setmon_of}
use monowm.Wm.Closing.{closemon, candidate, move_client, move_each}
use monowm.Wm.Homes.{home, homes, rehome, setmon_of-homes, focus_selected-Stays}
use monowm.Wm.Evicting.{
  Home, evict, evict_at, evict_in, ids_of, unchanged, found_none, changed, evict_at-ChangesOnly,
  rehome-ChangesOnly, same_list, evict_in-steps, evict_nothing, evict_at-id, ids-homes, evict_every,
}

-- An output that is closed is not the one that windows go to.
elsewhere : (a b : Option ℕ) (k : ℕ) → opt_eq a k ≡ true → opt_eq b k ≡ false → same_mon a b ≡ false
elsewhere none b k h g = cc
elsewhere (some a) none k h g = refl
elsewhere (some a) (some b) k h g = ground arith

-- One round of the loop.
abbrev round : ℕ → ℕ → Server → Server
round k i s = with_sel s (find_client s i) (move_client k s)

setmon-found :
    (s : Server) (c : Client) (m : Option ℕ) (t : ℕ)
    → find_client s c.id ≡ some c
    → setmon s c.id m t ≡ setmon_of s c m t
unfolding setmon
setmon-found s c m t h = ap (λ o. with_sel s o (λ d. setmon_of s d m t)) h

-- What a round makes of the windows and the selected output.
abbrev Evicts : ℕ → ℕ → Server → Server → Type 0
Evicts k i s t = (homes t ≡ map (evict_at i k s.selmon) (homes s)) × (t.selmon ≡ s.selmon)

move_client-Evicts :
    (k i : ℕ) (s : Server) (c : Client)
    → find_client s i ≡ some c
    → count i (client_ids s) ≤ 1
    → opt_eq s.selmon k ≡ false
    → Evicts k i s (move_client k s c)
unfolding move_client
move_client-Evicts k i s c f one sel =
    let m = s.selmon in
    let is_i = find_by_holds (λ (d : Client). d.id == i) s.clients c f in
    let named : c.id ≡ i = ground (arith, is_i) in
    let only = evict_at-ChangesOnly i k m in
    elim (Bool-cases (opt_eq c.mon k)) [
      | inr e ↦
          let same : home c ≡ evict_at i k m (home c) = ground (arith, e) in
          let kept =
            changed i (λ h. h) (evict_at i k m) s.clients c (λ j n p. refl) only same f one in
          rw (e, move_client) (sym (same_list (homes s)) ∙ kept, refl)
      | inl e ↦
          let found = setmon-found s c m c.tags (ap (find_client s) named ∙ f) in
          let gone = setmon_of-homes s c m c.tags (elsewhere c.mon m k e sel) in
          let same : rehome i m (home c) ≡ evict_at i k m (home c) = ground (arith, is_i, e) in
          let evicted =
            changed i (rehome i m) (evict_at i k m) s.clients c (rehome-ChangesOnly i m) only same f
              one in
          rw (e, move_client)
            (
              ap homes found ∙ gone.0 ∙ ap (λ j. map (rehome j m) (homes s)) named ∙ evicted,
              ap (λ (t : Server). t.selmon) found ∙ gone.1,
            )
    ]

round-Evicts :
    (k i : ℕ) (s : Server)
    → count i (client_ids s) ≤ 1
    → opt_eq s.selmon k ≡ false
    → Evicts k i s (round k i s)
round-Evicts k i s one sel = elim (Option-cases (find_client s i)) [
  | inl e ↦ rw e (
    sym (
        unchanged i (evict_at i k s.selmon) s.clients (evict_at-ChangesOnly i k s.selmon)
          (found_none i s.clients e)),
    refl,
  )
  | inr (c, e) ↦ rw e (move_client-Evicts k i s c e one sel)
]

Evicts-ids : (k i : ℕ) (s t : Server) → Evicts k i s t → client_ids t ≡ client_ids s
Evicts-ids k i s t h =
    ids-homes t.clients
    ∙ ap (map (λ (h : Home). h.0)) h.0
    ∙ evict_at-id i k s.selmon (homes s)
    ∙ sym (ids-homes s.clients)

move_each-homes :
    (k : ℕ) (is : List ℕ) (s : Server)
    → ((i : ℕ) → count i (client_ids s) ≤ 1)
    → opt_eq s.selmon k ≡ false
    → (homes (move_each k is s) ≡ map (evict_in is k s.selmon) (homes s))
      × ((move_each k is s).selmon ≡ s.selmon)
unfolding move_each
move_each-homes k [] s one sel = (evict_nothing k s.selmon (homes s), refl)
move_each-homes k (i ∷ is) s one sel =
    let t = round k i s in
    let h = round-Evicts k i s (one i) sel in
    let same = Evicts-ids k i s t h in
    let rest =
      move_each-homes k is t (λ j. subst (λ (xs : List ℕ). count j xs ≤ 1) (sym same) (one j))
        (ap (λ m. opt_eq m k) h.1 ∙ sel) in
    (
      rest.0
          ∙ ap (λ m. map (evict_in is k m) (homes t)) h.1
          ∙ ap (map (evict_in is k s.selmon)) h.0
          ∙ evict_in-steps i k is s.selmon (homes s) sel,
      rest.1 ∙ h.1,
    )

candidate-other : (s : Server) (k : ℕ) → opt_eq (candidate s k) k ≡ false
unfolding candidate
candidate-other s k =
    elim (Option-cases (find_by (λ (m : Monitor). not (m.id == k) && m.enabled) s.mons)) [
      | inl e ↦ rw e refl
      | inr (m, e) ↦
          let q = find_by_holds (λ (n : Monitor). not (n.id == k) && n.enabled) s.mons m e in
          rw e (ground (arith, q))
    ]

abbrev without_selected : Server → ℕ → Server
without_selected s k = if opt_eq s.selmon k then record s { selmon = candidate s k } else s

without_selected_lem :
    (s : Server) (k : ℕ)
    → (opt_eq (without_selected s k).selmon k ≡ false)
      × ((without_selected s k).clients ≡ s.clients)
without_selected_lem s k = elim (Bool-cases (opt_eq s.selmon k)) [
  | inl e ↦ rw e (candidate-other s k, refl)
  | inr e ↦ rw e (e, refl)
]

-- If no two windows of the list have the same id, closing an output moves exactly its windows,
-- to the output that is selected afterwards or to none if there is none, and leaves every other
-- window where it is; the selected output is then not the closed one.
pub closemon-evict :
    (s : Server) (k : ℕ)
    → ((i : ℕ) → count i (client_ids s) ≤ 1)
    → (homes (closemon s k) ≡ map (evict k (closemon s k).selmon) (homes s))
      × (opt_eq (closemon s k).selmon k ≡ false)
unfolding closemon
closemon-evict s k one =
    let left = without_selected s k in
    let l = without_selected_lem s k in
    let moved = move_each k (client_ids left) left in
    let focused = focusclient moved (focustop moved (selected moved)) in
    let stays = focus_selected-Stays moved in
    let each =
      move_each-homes k (client_ids left) left
        (λ i. subst (λ (cs : List Client). count i (ids_of cs) ≤ 1) (sym l.1) (one i)) l.0 in
    let sel : focused.selmon ≡ left.selmon = stays.1 ∙ each.1 in
    (
      stays.0
          ∙ each.0
          ∙ evict_every k left.selmon (client_ids left) left.clients (λ j p. p)
          ∙ ap (λ cs. map (evict k left.selmon) (map home cs)) l.1
          ∙ ap (λ m. map (evict k m) (homes s)) (sym sel),
      ap (λ m. opt_eq m k) sel ∙ l.0,
    )
