-- ===== src/Seat/Guarded.antt =====
-- What the session lock of src/main.c keeps from whoever is before a locked screen.
use monowm.Base.{
  ℕ, ◌≡◌, refl, sym, ap, ◌∙◌, inl, inr, Bool, true, false, Option, none, some, if◌then◌else◌, arith,
  Bool-cases, Option-cases,
}
use monowm.Wm.State.{
  Client, Server, Monitor, Surface, nothing, client_surface, layer_surface, lock_surface, opt_eq,
  focustop, selected, find_mon, find_client,
}
use monowm.Wm.Focus.{focusclient, raise_focus, keeps_keyboard, give_keyboard}
use monowm.Wm.Arrange.{arrange, arrange_mon, canvas_layout}
use monowm.Seat.Session.{
  Background, Session, locksession, createlocksurface, destroylocksurface, destroylock, enter,
  is_set, is_lock, or_nothing,
}

abbrev pub is_client : Surface → Bool
is_client (client_surface k) = true
is_client _ = false

-- Arranging an output leaves the keyboard and the lock alone.
arrange_mon-keyboard :
    (m : Monitor) (s : Server)
    → ((arrange_mon m s).locked ≡ s.locked)
      × ((arrange_mon m s).focused_surface ≡ s.focused_surface)
unfolding arrange_mon canvas_layout
arrange_mon-keyboard m s = ground arith

pub arrange-keyboard :
    (s : Server) (k : ℕ)
    → ((arrange s k).locked ≡ s.locked) × ((arrange s k).focused_surface ≡ s.focused_surface)
unfolding arrange
arrange-keyboard s k = elim (Option-cases (find_mon s k)) [
  | inl e ↦ rw (e, arrange) (refl, refl)
  | inr (m, e) ↦ elim (Bool-cases m.enabled) [
    | inl f ↦ rw (e, f, arrange) (arrange_mon-keyboard m s)
    | inr f ↦ rw (e, f, arrange) (refl, refl)
  ]
]

raise_focus-locked : (s : Server) (c : Client) → (raise_focus s c).locked ≡ s.locked
unfolding raise_focus
raise_focus-locked s c = elim (Option-cases c.mon) [
  | inl e ↦ rw (e, raise_focus) refl
  | inr (k, e) ↦ rw (e, raise_focus) (ground arith)
]

give_keyboard-locked : (t : Surface) (s : Server) → (give_keyboard t s).locked ≡ s.locked
give_keyboard-locked t s = ground arith

-- Focusing does not lock, and does nothing where the session is locked.
pub focusclient-locked : (s : Server) (k : Option ℕ) → (focusclient s k).locked ≡ s.locked
unfolding focusclient
focusclient-locked s none = ground arith
focusclient-locked s (some k) = elim (Option-cases (find_client s k)) [
  | inl e ↦ rw (e, focusclient) (ground arith)
  | inr (c, e) ↦ rw (e, focusclient) (ground (arith, raise_focus-locked s c))
]

pub focusclient_locked : (s : Server) (k : Option ℕ) → s.locked ≡ true → focusclient s k ≡ s
unfolding focusclient
focusclient_locked s none h = rw (h, focusclient) refl
focusclient_locked s (some k) h = rw (h, focusclient) refl

-- Without a window to focus, no window has the keyboard, unless the session was locked.
keeps_keyboard_lem : (f : Surface) → keeps_keyboard f ≡ true → is_client f ≡ false
keeps_keyboard_lem nothing h = refl
keeps_keyboard_lem (client_surface k) h = cc
keeps_keyboard_lem (layer_surface l above) h = refl
keeps_keyboard_lem (lock_surface k) h = refl

give_nothing : (s : Server) → is_client (give_keyboard nothing s).focused_surface ≡ false
give_nothing s = elim (Bool-cases (keeps_keyboard s.focused_surface)) [
  | inl e ↦ rw (e, give_keyboard) (keeps_keyboard_lem s.focused_surface e)
  | inr e ↦ rw (e, give_keyboard) refl
]

focus_none :
    (s : Server) → s.locked ≡ false → is_client (focusclient s none).focused_surface ≡ false
unfolding focusclient
focus_none s h =
    ap (λ (b : Bool). is_client (if b then s else give_keyboard nothing s).focused_surface) h
    ∙ give_nothing s

-- The lock is on wherever there is one, the background covers the outputs exactly if it is on, and
-- then no window has the keyboard.
pub record IsGuarded (s : Session) : Type 0 where
  pub locks : is_set s.cur_lock ≡ true → s.server.locked ≡ true
  pub covers : s.background.enabled ≡ s.server.locked
  pub no_client : s.server.locked ≡ true → is_client s.server.focused_surface ≡ false

pub locksession-IsGuarded : (k : ℕ) (s : Session) → IsGuarded s → IsGuarded (locksession k s)
unfolding locksession
locksession-IsGuarded k s h = elim (Bool-cases (is_set s.cur_lock)) [
  | inl e ↦
      rw (e, locksession)
        (record { locks = h.locks; covers = sym (h.locks e); no_client = h.no_client })
  | inr e ↦
      rw (e, locksession)
        (record {
          locks = λ p. refl;
          covers = refl;
          no_client = λ p. elim (Bool-cases s.server.locked) [
            | inl f ↦ rw (focusclient_locked s.server none f) (h.no_client f)
            | inr f ↦ focus_none s.server f
          ];
        })
]

pub createlocksurface-IsGuarded :
    (k m : ℕ) (s : Session) → IsGuarded s → IsGuarded (createlocksurface k m s)
unfolding createlocksurface
createlocksurface-IsGuarded k m s h = elim (Bool-cases (opt_eq s.server.selmon m)) [
  | inl e ↦
      rw (e, createlocksurface)
        (record { locks = h.locks; covers = h.covers; no_client = λ p. refl })
  | inr e ↦
      rw (e, createlocksurface)
        (record { locks = h.locks; covers = h.covers; no_client = h.no_client })
]

or_nothing_lem : (o : Option ℕ) → is_client (or_nothing o) ≡ false
or_nothing_lem none = refl
or_nothing_lem (some k) = refl

next_lock : (b : Bool) (o : Option ℕ) → is_client (if b then or_nothing o else nothing) ≡ false
next_lock true o = or_nothing_lem o
next_lock false o = refl

-- A call that keeps the lock and its background, and gives no window the keyboard of a locked session.
pub IsGuarded-kept :
    (s t : Session)
    → IsGuarded s
    → t.cur_lock ≡ s.cur_lock
    → t.background ≡ s.background
    → t.server.locked ≡ s.server.locked
    → (s.server.locked ≡ true → is_client t.server.focused_surface ≡ false)
    → IsGuarded t
IsGuarded-kept s t h c v l f = record {
  locks = λ p. l ∙ h.locks (ap is_set (sym c) ∙ p);
  covers = ap (λ (b : Background). b.enabled) v ∙ h.covers ∙ sym l;
  no_client = λ p. f (sym l ∙ p);
}

-- The server after the lock surface with the keyboard went.
abbrev handed : Option ℕ → Session → Bool → Server
handed first s b =
    if b
    then enter (if is_set s.cur_lock then or_nothing first else nothing) s.server
    else focusclient s.server (focustop s.server (selected s.server))

handed-locked :
    (first : Option ℕ) (s : Session) (b : Bool) → (handed first s b).locked ≡ s.server.locked
handed-locked first s true = refl
handed-locked first s false = focusclient-locked s.server (focustop s.server (selected s.server))

pub destroylocksurface-IsGuarded :
    (m : ℕ) (first : Option ℕ) (s : Session)
    → IsGuarded s
    → IsGuarded (destroylocksurface m first s)
unfolding destroylocksurface
destroylocksurface-IsGuarded m first s h =
    elim (Bool-cases (is_lock s.server.focused_surface (s.mon_lock m))) [
      | inr e ↦
          rw (e, destroylocksurface)
            (record { locks = h.locks; covers = h.covers; no_client = h.no_client })
      | inl e ↦
          rw (e, destroylocksurface)
            (IsGuarded-kept s _ h refl refl (handed-locked first s s.server.locked) (λ p.
              ap (λ (b : Bool). is_client (handed first s b).focused_surface) p
              ∙ next_lock (is_set s.cur_lock) first))
    ]

pub destroylock-IsGuarded :
    (b : Bool) (s : Session) → is_set s.cur_lock ≡ true → IsGuarded s → IsGuarded (destroylock b s)
unfolding destroylock
destroylock-IsGuarded true s there h =
    let cleared = record (enter nothing s.server) { locked = false } in
    let same = focusclient-locked cleared (focustop cleared (selected cleared)) in
    record { locks = λ p. cc; covers = sym same; no_client = λ p. cc (same, p) }
destroylock-IsGuarded false s there h = record {
  locks = λ p. refl;
  covers = h.covers ∙ h.locks there;
  no_client = λ p. refl;
}
