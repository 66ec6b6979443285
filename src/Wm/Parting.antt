-- ===== src/Wm/Parting.antt =====
-- A window that is on its way out of src/main.c's lists and trees, under focusing.
use monowm.Base.{
  ℕ, ◌≤◌, ◌≡◌, refl, inl, inr, Bool, false, not, ◌&&◌, Option, none, some, List, [], ◌∷◌, map,
  erase, count, ◌==◌, if◌then◌else◌, find_by, arith, Bool-cases,
}
use monowm.Config.Bounds.{if-holds}
use monowm.Wm.State.{
  Client, Server, find_client, update_client, update_mon, Surface, client_surface, nothing,
}
use monowm.Wm.Focus.{
  is_surface_of, give_keyboard, keeps_keyboard, focusclient, raise_focus, focus_some, anchor,
}
use monowm.Wm.Arrange.{arrange}
use monowm.Wm.Unmapping.{leave_mon}
use monowm.Wm.Leaving.{Going, clients-Going, update_mon-Going, arrange-Going}

give_keyboard-Going : (k : ℕ) (t : Surface) (s : Server) → Going k s → Going k (give_keyboard t s)
give_keyboard-Going k t s g =
    if-holds (Going k) (keeps_keyboard s.focused_surface) s (record s { focused_surface = t }) g
      (record {
        leaf_free = g.leaf_free;
        unlisted = g.unlisted;
        stacked = g.stacked;
        undragged = g.undragged;
      })

count-erase : (k j : ℕ) (xs : List ℕ) → count k (erase j xs) ≤ count k xs
count-erase k j [] = omega arith
count-erase k j (x ∷ xs) = ground (arith, count-erase k j xs)

stack-Going :
    (k : ℕ) (c : Client) (s : Server)
    → (c.id == k) ≡ false
    → Going k s
    → Going k (record s { fstack = c.id ∷ erase c.id s.fstack; selmon = c.mon })
stack-Going k c s other g = record {
  leaf_free = g.leaf_free;
  unlisted = g.unlisted;
  stacked = ground (arith, other, g.stacked, count-erase k c.id s.fstack);
  undragged = g.undragged;
}

raise_focus-Going :
    (k : ℕ) (c : Client) (s : Server) → (c.id == k) ≡ false → Going k s → Going k (raise_focus s c)
unfolding raise_focus
raise_focus-Going k c s other g = go c.mon
  where
    s2 : Server
    s2 =
        update_client c.id (λ d. record d { isurgent = false })
          (record s { fstack = c.id ∷ erase c.id s.fstack; selmon = c.mon })

    h : Going k s2
    h =
        clients-Going k (λ d. if d.id == c.id then record d { isurgent = false } else d) _
          (λ d. ground arith) (stack-Going k c s other g)

    go :
        (o : Option ℕ)
        → Going k (elim o [
          | none ↦ s2
          | some j ↦
              if not c.isfloating && not c.isfullscreen then update_mon j (anchor c) s2 else s2
        ])
    go none = h
    go (some j) =
        if-holds (Going k) (not c.isfloating && not c.isfullscreen) (update_mon j (anchor c) s2) s2
          (update_mon-Going k j (anchor c) s2 (λ n l. l) h) h

found-other :
    (k : ℕ) (t : Client → Bool) (cs : List Client) (c : Client)
    → find_by t cs ≡ some c
    → count k (map (λ (d : Client). d.id) cs) ≡ 0
    → (c.id == k) ≡ false
found-other k t [] c e n = cc
found-other k t (d ∷ cs) c e n = elim (Bool-cases (t d)) [
  | inl f ↦ let same : d ≡ c = (let q = rw f at e in cc) in rw (← same) (ground arith)
  | inr f ↦ found-other k t cs c (rw f at e) (ground arith)
]

focus_some-Going : (k j : ℕ) (s : Server) → Going k s → Going k (focus_some s (find_client s j))
focus_some-Going k j s g = go (find_client s j) refl
  where
    go : (o : Option Client) → find_client s j ≡ o → Going k (focus_some s o)
    go none e = g
    go (some c) e =
        if-holds (Going k) (is_surface_of s.focused_surface c.id) s
          (give_keyboard (client_surface c.id) (raise_focus s c)) g
          (give_keyboard-Going k (client_surface c.id) (raise_focus s c)
            (raise_focus-Going k c s (found-other k (λ d. d.id == j) s.clients c e g.unlisted) g))

focusclient-Going : (k : ℕ) (o : Option ℕ) (s : Server) → Going k s → Going k (focusclient s o)
unfolding focusclient
focusclient-Going k none s g =
    if-holds (Going k) s.locked s (give_keyboard nothing s) g (give_keyboard-Going k nothing s g)
focusclient-Going k (some j) s g =
    if-holds (Going k) s.locked s (focus_some s (find_client s j)) g (focus_some-Going k j s g)

pub leave_mon-Going : (k : ℕ) (o : Option ℕ) (s : Server) → Going k s → Going k (leave_mon o s)
unfolding leave_mon
leave_mon-Going k none s g = g
leave_mon-Going k (some m) s g = focusclient-Going k _ (arrange s m) (arrange-Going k m s g)
