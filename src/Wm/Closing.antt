-- ===== src/Wm/Closing.antt =====
-- closemon of src/main.c: an output goes away, and its windows move to another one.
use monowm.Base.{
  ℕ, ◌≡◌, refl, Bool, not, ◌&&◌, Option, none, some, List, [], ◌∷◌, map, ◌==◌, if◌then◌else◌,
  find_by, inl, inr, Bool-cases, All,
}
use monowm.Wm.State.{Client, Monitor, Server, find_client, opt_eq, focustop, selected}
use monowm.Wm.Focus.{focusclient}
use monowm.Wm.Arrange.{client_ids}
use monowm.Wm.Tags.{with_sel}
use monowm.Wm.Windows.{setmon}
use monowm.Wm.Safe.{IsTagset, IsTagged}
use monowm.Wm.Moves.{setmon-IsTagged, focusclient-IsTagged}

-- The first other output that is enabled.
abbrev pub mon_id : Option Monitor → Option ℕ
mon_id none = none
mon_id (some m) = some m.id

unfoldable pub candidate : Server → ℕ → Option ℕ
candidate s k = mon_id (find_by (λ m. not (m.id == k) && m.enabled) s.mons)

-- One round of the loop over the windows.
unfoldable pub move_client : ℕ → Server → Client → Server
unfolding setmon
move_client k s c = if opt_eq c.mon k then setmon s c.id s.selmon c.tags else s

unfoldable pub move_each : ℕ → List ℕ → Server → Server
unfolding move_client
move_each k [] s = s
move_each k (c ∷ cs) s = move_each k cs (with_sel s (find_client s c) (move_client k s))

unfoldable pub closemon : Server → ℕ → Server
unfolding candidate move_each focusclient focustop selected
closemon s k =
    let left = if opt_eq s.selmon k then record s { selmon = candidate s k } else s in
    let moved = move_each k (client_ids left) left in
    focusclient moved (focustop moved (selected moved))

pub found-tags :
    (cs : List Client) (t : Client → Bool) (c : Client)
    → find_by t cs ≡ some c
    → All IsTagset (map (λ (d : Client). d.tags) cs)
    → IsTagset c.tags
found-tags [] t c e p = cc
found-tags (d ∷ cs) t c e p = elim (Bool-cases (t d)) [
  | inl f ↦ let same : d ≡ c = (let q = rw f at e in cc) in rw (← same) p.0
  | inr f ↦ found-tags cs t c (rw f at e) p.1
]

move_each-IsTagged : (k : ℕ) (cs : List ℕ) (s : Server) → IsTagged s → IsTagged (move_each k cs s)
unfolding move_each
move_each-IsTagged k [] s h = h
move_each-IsTagged k (c ∷ cs) s h =
    move_each-IsTagged k cs (with_sel s (find_client s c) (move_client k s))
      (go (find_client s c) refl)
  where
    moved : (d : Client) → find_client s c ≡ some d → IsTagged (move_client k s d)
    moved d e = elim (Bool-cases (opt_eq d.mon k)) [
      | inl f ↦
          rw (f, move_client)
            (setmon-IsTagged s d.id s.selmon d.tags
              (found-tags s.clients (λ b. b.id == c) d e h.clients_tagged).1 h)
      | inr f ↦ rw (f, move_client) h
    ]

    go : (o : Option Client) → find_client s c ≡ o → IsTagged (with_sel s o (move_client k s))
    go none e = h
    go (some d) e = moved d e

pub closemon-IsTagged : (s : Server) (k : ℕ) → IsTagged s → IsTagged (closemon s k)
unfolding closemon
closemon-IsTagged s k h =
    let left = if opt_eq s.selmon k then record s { selmon = candidate s k } else s in
    let same : IsTagged left = elim (Bool-cases (opt_eq s.selmon k)) [
      | inl e ↦ rw e h
      | inr e ↦ rw e h
    ] in
    let moved = move_each k (client_ids left) left in
    focusclient-IsTagged moved (focustop moved (selected moved))
      (move_each-IsTagged k (client_ids left) left same)
