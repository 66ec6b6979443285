-- ===== src/Seat/Plugged.antt =====
-- updatemons of src/main.c against the session lock.
use monowm.Base.{
  ℕ, ◌≡◌, refl, ap, ◌∙◌, inl, inr, Bool, false, not, ◌||◌, Option, none, some, List, [], ◌∷◌,
  if◌then◌else◌, Bool-cases,
}
use monowm.Dwindle.Tree.{Box}
use monowm.Wm.State.{Client, Monitor, Server, Surface, find_mon, find_client, focustop, selected}
use monowm.Wm.Focus.{focusclient}
use monowm.Wm.Arrange.{arrange, client_ids}
use monowm.Wm.Tags.{with_sel}
use monowm.Wm.Windows.{setmon}
use monowm.Wm.Closing.{closemon}
use monowm.Seat.Session.{Session, Background, is_set, is_lock, destroylocksurface}
use monowm.Seat.Layers.{Scene, arrangelayers}
use monowm.Seat.Guarded.{destroylocksurface-IsGuarded, is_client, IsGuarded, IsGuarded-kept}
use monowm.Seat.Covered.{arrangelayers-IsGuarded}
use monowm.Seat.Background.{arrangelayers-covered}
use monowm.Seat.Resting.{
  Rests, focusclient-Rests, arrange-Rests, with_sel-Rests, if-Rests, setmon-Rests, closemon-Rests,
}
use monowm.Seat.Outputs.{
  resized, laid, unplug, unlock_surface, cleanupmon, Outputs, no_box, set_box, close_one,
  close_each, or_select, show_one, show_each, adopt_each, give_lock, lock_of, settle_on, settle,
  mon_ids, updatemons,
}

-- A call that leaves the lock and the keyboard at rest.
pub served-IsGuarded :
    (s : Session) (t : Server)
    → IsGuarded s
    → Rests s.server.locked s.server.focused_surface t
    → IsGuarded (record s { server = t })
served-IsGuarded s t h r =
    IsGuarded-kept s (record s { server = t }) h refl refl r.0
      (λ p. ap is_client (r.1 p) ∙ h.no_client p)

set_box-IsGuarded : (k : ℕ) (b : Box) (s : Session) → IsGuarded s → IsGuarded (set_box k b s)
set_box-IsGuarded k b s h = record { locks = h.locks; covers = h.covers; no_client = h.no_client }

close_one-IsGuarded :
    (O : Outputs) (k : ℕ) (s : Session) (o : Option Monitor)
    → IsGuarded s
    → IsGuarded (close_one O k s o)
close_one-IsGuarded O k s none h = h
close_one-IsGuarded O k s (some m) h = elim (Bool-cases (m.enabled || O.asleep k)) [
  | inl e ↦ rw (e, close_one) h
  | inr e ↦
      let rests =
        closemon-Rests s.server.locked s.server.focused_surface s.server k (refl, λ p. refl) in
      rw (e, close_one)
        (set_box-IsGuarded k no_box (record s { server = closemon s.server k })
          (served-IsGuarded s (closemon s.server k) h rests))
]

close_each-IsGuarded :
    (O : Outputs) (ks : List ℕ) (s : Session) → IsGuarded s → IsGuarded (close_each O ks s)
unfolding close_each
close_each-IsGuarded O [] s h = h
close_each-IsGuarded O (k ∷ ks) s h =
    close_each-IsGuarded O ks (close_one O k s (find_mon s.server k))
      (close_one-IsGuarded O k s (find_mon s.server k) h)

show_one-IsGuarded :
    (C : Scene) (O : Outputs) (k : ℕ) (s : Session) (o : Option Monitor)
    → IsGuarded s
    → IsGuarded (show_one C O k s o)
show_one-IsGuarded C O k s none h = h
show_one-IsGuarded C O k s (some m) h = elim (Bool-cases (not m.enabled)) [
  | inl e ↦ rw (e, show_one) h
  | inr e ↦
      let laid = arrangelayers C k (set_box k (O.box k) s) in
      let b = laid.server.locked in
      let f = laid.server.focused_surface in
      let t = arrange laid.server k in
      let rests = arrange-Rests b f laid.server k (refl, λ p. refl) in
      rw (e, show_one)
        (served-IsGuarded laid (or_select k t)
          (arrangelayers-IsGuarded C k (set_box k (O.box k) s) (set_box-IsGuarded k (O.box k) s h))
          (if-Rests b f (is_set t.selmon) t (record t { selmon = some k }) rests rests))
]

show_each-IsGuarded :
    (C : Scene) (O : Outputs) (ks : List ℕ) (s : Session)
    → IsGuarded s
    → IsGuarded (show_each C O ks s)
unfolding show_each
show_each-IsGuarded C O [] s h = h
show_each-IsGuarded C O (k ∷ ks) s h =
    show_each-IsGuarded C O ks (show_one C O k s (find_mon s.server k))
      (show_one-IsGuarded C O k s (find_mon s.server k) h)

adopt_each-Rests :
    (b : Bool) (f : Surface) (ks : List ℕ) (s : Server) → Rests b f s → Rests b f (adopt_each ks s)
unfolding adopt_each
adopt_each-Rests b f [] s h = h
adopt_each-Rests b f (k ∷ ks) s h =
    let each : Client → Server = (λ c. if is_set c.mon then s else setmon s c.id s.selmon c.tags) in
    adopt_each-Rests b f ks (with_sel s (find_client s k) each) (
      with_sel-Rests b f s (find_client s k) each h (λ c.
        if-Rests b f (is_set c.mon) s (setmon s c.id s.selmon c.tags) h
          (setmon-Rests b f s c.id s.selmon c.tags h)))

give_lock_lem :
    (o : Option ℕ) (s : Server)
    → ((give_lock o s).locked ≡ s.locked)
      × (is_client s.focused_surface ≡ false → is_client (give_lock o s).focused_surface ≡ false)
give_lock_lem none s = (refl, λ p. p)
give_lock_lem (some k) s = (refl, λ p. refl)

settle-IsGuarded :
    (s : Session) → IsGuarded s → IsGuarded (record s { server = settle s.mon_lock s.server })
unfolding settle
settle-IsGuarded s h = go (selected s.server)
  where
    go : (o : Option Monitor) → IsGuarded (record s { server = settle_on s.mon_lock s.server o })
    go none = h
    go (some m) = elim (Bool-cases (not m.enabled)) [
      | inl e ↦ rw (e, settle_on) h
      | inr e ↦
          let b = s.server.locked in
          let f = s.server.focused_surface in
          let adopted = adopt_each (client_ids s.server) s.server in
          let focused = focusclient adopted (focustop adopted (selected adopted)) in
          let rests =
            focusclient-Rests b f adopted (focustop adopted (selected adopted))
              (adopt_each-Rests b f (client_ids s.server) s.server (refl, λ p. refl)) in
          let given = give_lock_lem (lock_of s.mon_lock focused.selmon) focused in
          rw (e, settle_on)
            (IsGuarded-kept s
              (record s { server = give_lock (lock_of s.mon_lock focused.selmon) focused }) h refl
              refl (given.0 ∙ rests.0) (λ p. given.1 (ap is_client (rests.1 p) ∙ h.no_client p)))
    ]

resized-IsGuarded : (O : Outputs) (s : Session) → IsGuarded s → IsGuarded (resized O s)
resized-IsGuarded O s h = record { locks = h.locks; covers = h.covers; no_client = h.no_client }

pub updatemons-IsGuarded :
    (C : Scene) (O : Outputs) (s : Session) → IsGuarded s → IsGuarded (updatemons C O s)
unfolding updatemons
updatemons-IsGuarded C O s h =
    let ks = mon_ids s.server in
    let t = resized O (close_each O ks s) in
    settle-IsGuarded (show_each C O ks t) (
      show_each-IsGuarded C O ks t
        (resized-IsGuarded O (close_each O ks s) (close_each-IsGuarded O ks s h)))

pub laid-IsGuarded : (O : Outputs) (s : Session) → IsGuarded s → IsGuarded (laid O s)
laid-IsGuarded O s h = record { locks = h.locks; covers = h.covers; no_client = h.no_client }

pub mons-IsGuarded :
    (ms : List Monitor) (s : Session)
    → IsGuarded s
    → IsGuarded (record s { server = record s.server { mons = ms } })
mons-IsGuarded ms s h = served-IsGuarded s (record s.server { mons = ms }) h (refl, λ p. refl)

unlock_surface-IsGuarded :
    (k : ℕ) (first : Option ℕ) (s : Session) → IsGuarded s → IsGuarded (unlock_surface k first s)
unlock_surface-IsGuarded k first s h = elim (Bool-cases (is_set (s.mon_lock k))) [
  | inl e ↦ rw (e, unlock_surface) (destroylocksurface-IsGuarded k first s h)
  | inr e ↦ rw (e, unlock_surface) h
]

pub cleanupmon-IsGuarded :
    (C : Scene) (O : Outputs) (k : ℕ) (first : Option ℕ) (s : Session)
    → IsGuarded s
    → IsGuarded (cleanupmon C O k first s)
unfolding cleanupmon
cleanupmon-IsGuarded C O k first s h =
    let u = unlock_surface k first (unplug k s) in
    let t = updatemons C O (laid O u) in
    let g =
      updatemons-IsGuarded C O (laid O u) (
        laid-IsGuarded O u
          (unlock_surface-IsGuarded k first (unplug k s) (mons-IsGuarded _ s h))) in
    served-IsGuarded t (closemon t.server k) g
      (closemon-Rests t.server.locked t.server.focused_surface t.server k (refl, λ p. refl))

close_each-covered :
    (O : Outputs) (ks : List ℕ) (s : Session) → (close_each O ks s).background ≡ s.background
unfolding close_each
close_each-covered O [] s = refl
close_each-covered O (k ∷ ks) s =
    close_each-covered O ks (close_one O k s (find_mon s.server k)) ∙ go (find_mon s.server k)
  where
    go : (o : Option Monitor) → (close_one O k s o).background ≡ s.background
    go none = refl
    go (some m) = elim (Bool-cases (m.enabled || O.asleep k)) [
      | inl e ↦ rw (e, close_one) refl
      | inr e ↦ rw (e, close_one) refl
    ]

show_each-covered :
    (C : Scene) (O : Outputs) (ks : List ℕ) (s : Session)
    → (show_each C O ks s).background ≡ s.background
unfolding show_each
show_each-covered C O [] s = refl
show_each-covered C O (k ∷ ks) s =
    show_each-covered C O ks (show_one C O k s (find_mon s.server k)) ∙ go (find_mon s.server k)
  where
    go : (o : Option Monitor) → (show_one C O k s o).background ≡ s.background
    go none = refl
    go (some m) = elim (Bool-cases (not m.enabled)) [
      | inl e ↦ rw (e, show_one) refl
      | inr e ↦ rw (e, show_one) (arrangelayers-covered C k (set_box k (O.box k) s))
    ]

pub updatemons-background :
    (C : Scene) (O : Outputs) (s : Session)
    → (updatemons C O s).background ≡ record s.background { box = O.whole }
unfolding updatemons
updatemons-background C O s =
    let ks = mon_ids s.server in
    show_each-covered C O ks (resized O (close_each O ks s))
    ∙ ap (λ (b : Background). record b { box = O.whole }) (close_each-covered O ks s)

pub destroylocksurface-covered :
    (m : ℕ) (first : Option ℕ) (s : Session)
    → (destroylocksurface m first s).background ≡ s.background
unfolding destroylocksurface
destroylocksurface-covered m first s =
    elim (Bool-cases (is_lock s.server.focused_surface (s.mon_lock m))) [
      | inl e ↦ rw (e, destroylocksurface) refl
      | inr e ↦ rw (e, destroylocksurface) refl
    ]

pub unlock_surface-covered :
    (k : ℕ) (first : Option ℕ) (s : Session) → (unlock_surface k first s).background ≡ s.background
unlock_surface-covered k first s = elim (Bool-cases (is_set (s.mon_lock k))) [
  | inl e ↦ rw (e, unlock_surface) (destroylocksurface-covered k first s)
  | inr e ↦ rw (e, unlock_surface) refl
]
