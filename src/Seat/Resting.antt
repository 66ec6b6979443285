-- ===== src/Seat/Resting.antt =====
-- Windows that move between outputs in src/main.c while the session is locked.
use monowm.Base.{
  ℕ, ◌≡◌, ap, ◌∙◌, Bool, true, false, Option, none, some, List, [], ◌∷◌, if◌then◌else◌,
}
use monowm.Wm.State.{
  on_mon, Client, Monitor, Server, Surface, find_client, focustop, selected, opt_eq, update_client,
}
use monowm.Wm.Focus.{focusclient}
use monowm.Wm.Arrange.{arrange, canvas_leave, client_ids}
use monowm.Wm.Tags.{with_sel}
use monowm.Wm.Windows.{
  arrange_of, arranges, mon_of, same_mon, setfloating, setfullscreen, enter_mon, setmon, setmon_of,
  redo_fullscreen, give_tags,
}
use monowm.Wm.Closing.{closemon, candidate, move_client, move_each}
use monowm.Seat.Guarded.{focusclient-locked, focusclient_locked, arrange-keyboard}

-- The lock is on or off as `b` says, and where it is on the surface with the keyboard is `f`.
abbrev pub Rests : Bool → Surface → Server → Type 0
Rests b f s = (s.locked ≡ b) × (b ≡ true → s.focused_surface ≡ f)

module _ (b : Bool) (f : Surface) where
  pub focusclient-Rests : (s : Server) (k : Option ℕ) → Rests b f s → Rests b f (focusclient s k)
  focusclient-Rests s k h = (
    focusclient-locked s k ∙ h.0,
    λ p. ap (λ (t : Server). t.focused_surface) (focusclient_locked s k (h.0 ∙ p)) ∙ h.1 p,
  )

  pub arrange-Rests : (s : Server) (k : ℕ) → Rests b f s → Rests b f (arrange s k)
  arrange-Rests s k h = ((arrange-keyboard s k).0 ∙ h.0, λ p. (arrange-keyboard s k).1 ∙ h.1 p)

  pub with_sel-Rests :
      (s : Server) (o : Option Client) (g : Client → Server)
      → Rests b f s
      → ((c : Client) → Rests b f (g c))
      → Rests b f (with_sel s o g)
  with_sel-Rests s none g h each = h
  with_sel-Rests s (some c) g h each = each c

  pub on_mon-Rests :
      (s : Server) (o : Option Monitor) (g : Monitor → Server)
      → Rests b f s
      → ((m : Monitor) → Rests b f (g m))
      → Rests b f (on_mon s o g)
  on_mon-Rests s none g h each = h
  on_mon-Rests s (some m) g h each = each m

  pub if-Rests :
      (c : Bool) (s t : Server) → Rests b f s → Rests b f t → Rests b f (if c then s else t)
  if-Rests true s t h i = h
  if-Rests false s t h i = i

  arrange_of-Rests : (o : Option ℕ) (s : Server) → Rests b f s → Rests b f (arrange_of o s)
  arrange_of-Rests none s h = h
  arrange_of-Rests (some k) s h = arrange-Rests s k h

  setfloating-Rests : (s : Server) (k : ℕ) (v : Bool) → Rests b f s → Rests b f (setfloating s k v)
  unfolding setfloating
  setfloating-Rests s k v h =
      with_sel-Rests s (find_client s k) _ h
        (λ c. arrange_of-Rests (arranges (mon_of s c.mon) c.mon) _ h)

  pub setfullscreen-Rests :
      (s : Server) (k : ℕ) (v : Bool) → Rests b f s → Rests b f (setfullscreen s k v)
  unfolding setfullscreen
  setfullscreen-Rests s k v h =
      with_sel-Rests s (find_client s k) _ h (λ c. arrange_of-Rests c.mon _ h)

  enter_mon-Rests :
      (s : Server) (k : ℕ) (o : Option Monitor) (t : ℕ)
      → Rests b f s
      → Rests b f (enter_mon s k o t)
  unfolding enter_mon
  enter_mon-Rests s k none t h = h
  enter_mon-Rests s k (some m) t h =
      let given = give_tags k t m s in
      let full =
        with_sel-Rests given (find_client given k) _ h
          (λ c. setfullscreen-Rests given k c.isfullscreen h) in
      let redone = redo_fullscreen k given in
      with_sel-Rests redone (find_client redone k) _ full
        (λ c. setfloating-Rests redone k c.isfloating full)

  setmon_of-Rests :
      (s : Server) (c : Client) (m : Option ℕ) (t : ℕ) → Rests b f s → Rests b f (setmon_of s c m t)
  unfolding setmon_of
  setmon_of-Rests s c m t h =
      let moved = update_client c.id (λ d. record (canvas_leave d) { mon = m }) s in
      let cleared = arrange_of c.mon moved in
      let placed = enter_mon cleared c.id (mon_of cleared m) t in
      if-Rests (same_mon c.mon m) s _ h (
        focusclient-Rests placed (focustop placed (selected placed))
          (enter_mon-Rests cleared c.id (mon_of cleared m) t (arrange_of-Rests c.mon moved h)))

  pub setmon-Rests :
      (s : Server) (k : ℕ) (m : Option ℕ) (t : ℕ) → Rests b f s → Rests b f (setmon s k m t)
  unfolding setmon
  setmon-Rests s k m t h = with_sel-Rests s (find_client s k) _ h (λ c. setmon_of-Rests s c m t h)

  move_each-Rests : (k : ℕ) (cs : List ℕ) (s : Server) → Rests b f s → Rests b f (move_each k cs s)
  unfolding move_each move_client
  move_each-Rests k [] s h = h
  move_each-Rests k (c ∷ cs) s h =
      move_each-Rests k cs (with_sel s (find_client s c) (move_client k s)) (
        with_sel-Rests s (find_client s c) (move_client k s) h
          (λ d. if-Rests (opt_eq d.mon k) _ s (setmon-Rests s d.id s.selmon d.tags h) h))

  pub closemon-Rests : (s : Server) (k : ℕ) → Rests b f s → Rests b f (closemon s k)
  unfolding closemon
  closemon-Rests s k h =
      let left = if opt_eq s.selmon k then record s { selmon = candidate s k } else s in
      let moved = move_each k (client_ids left) left in
      focusclient-Rests moved (focustop moved (selected moved))
        (move_each-Rests k (client_ids left) left (if-Rests (opt_eq s.selmon k) _ s h h))
