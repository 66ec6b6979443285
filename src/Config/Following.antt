-- ===== src/Config/Following.antt =====
-- The watcher of src/parser.c behind a symbolic link that is replaced.
use monowm.Base.{
  ℕ, ◌<◌, ◌≡◌, refl, sym, ap, subst, ◌∙◌, inl, inr, Bool, true, false, not, ◌&&◌, ◌||◌, some, List,
  [], ◌∷◌, ◌++◌, length, if◌then◌else◌, All, arith, Bool-cases, ℤ, pos, negsuc, ==_refl,
}
use monowm.Config.Lua.{copied, same_bytes}
use monowm.Config.Printing.{take_all}
use monowm.Config.Watch.{
  Files, Event, WatchState, name_size, same_wd, after_slash, target_dir, same_name, watch_target,
  is_change, forget, drain, watch_dispatch,
}

-- An event that does not end the watch of a directory.
abbrev pub Spares : ℤ → Event → Type 0
Spares wd ev = (ev.ignored && same_wd ev.wd wd) ≡ false

pub same_bytes_refl : (s : List ℕ) → same_bytes s s ≡ true
same_bytes_refl [] = refl
same_bytes_refl (c ∷ s) = rw (==_refl c, same_bytes_refl s) refl

same_wd_refl : (a : ℤ) → same_wd a a ≡ true
same_wd_refl (pos a) = ==_refl a
same_wd_refl (negsuc a) = ==_refl a

false-ne-true : false ≡ true → ⊥
false-ne-true e = cc

module _ (F : Files) where
  -- Once changed, always changed.
  drain-changed : (evs : List Event) (ws : WatchState) → (drain F evs ws true).1 ≡ true
  unfolding drain
  drain-changed [] ws = refl
  drain-changed (ev ∷ evs) ws = drain-changed evs _

  drain-already :
      (evs : List Event) (ws : WatchState) (changed : Bool)
      → changed ≡ true
      → (drain F evs ws changed).1 ≡ true
  drain-already evs ws changed h = rw h (drain-changed evs ws)

  next-target_wd :
      (ev : Event) (ws : WatchState)
      → Spares ws.target_wd ev
      → (if ev.ignored then forget F ev ws else ws).target_wd ≡ ws.target_wd
  next-target_wd ev ws h = ground (arith, h)

  next-target_name :
      (ev : Event) (ws : WatchState)
      → (if ev.ignored then forget F ev ws else ws).target_name ≡ ws.target_name
  next-target_name ev ws = ground arith

  next-path :
      (ev : Event) (ws : WatchState) → (if ev.ignored then forget F ev ws else ws).path ≡ ws.path
  next-path ev ws = ground arith

  drain-path :
      (evs : List Event) (ws : WatchState) (changed : Bool)
      → (drain F evs ws changed).0.path ≡ ws.path
  unfolding drain
  drain-path [] ws changed = refl
  drain-path (ev ∷ evs) ws changed = drain-path evs _ _ ∙ next-path ev ws

  module _ (wd : ℤ) (name : List ℕ) (ev : Event) (current : ev.ignored ≡ false)
      (written : ev.create ≡ false) (watched : ev.wd ≡ wd) (named : ev.name ≡ some name) where
    saved-is_change :
        (ws : WatchState) → ws.target_wd ≡ wd → ws.target_name ≡ name → is_change F ws ev ≡ true
    saved-is_change ws h k =
        let f : same_wd ev.wd ws.target_wd ≡ true = rw (watched, h) (same_wd_refl wd) in
        let g : same_name ev.name ws.target_name ≡ true = rw (named, k) (same_bytes_refl name) in
        ground (arith, f, g, written)

    drain-saved :
        (before after : List Event) (ws : WatchState) (changed : Bool)
        → All (Spares wd) before
        → ws.target_wd ≡ wd
        → ws.target_name ≡ name
        → (drain F (before ++ ev ∷ after) ws changed).1 ≡ true
    unfolding drain
    drain-saved [] after ws changed spared h k =
        let e : (changed || (not ev.ignored && is_change F ws ev)) ≡ true =
          ground (arith, current, saved-is_change ws h k) in
        drain-already after _ _ e
    drain-saved (b ∷ before) after ws changed spared h k =
        drain-saved before after _ _ spared.1
          (next-target_wd b ws (subst (λ (a : ℤ). Spares a b) (sym h) spared.0) ∙ h)
          (next-target_name b ws ∙ k)

    -- A dispatch that reads the event.
    dispatch-saved :
        (before after : List Event) (ws : WatchState)
        → All (Spares wd) before
        → ws.target_wd ≡ wd
        → ws.target_name ≡ name
        → (watch_dispatch F (some (before ++ ev ∷ after)) ws).1 ≡ true
    unfolding watch_dispatch
    dispatch-saved before after ws spared h k =
        rw (drain-saved before after ws false spared h k) refl

  -- What a dispatch that reloads leaves.
  dispatch-watch_target :
      (evs : List Event) (ws : WatchState)
      → (watch_dispatch F (some evs) ws).1 ≡ true
      → (watch_dispatch F (some evs) ws).0 ≡ watch_target F (drain F evs ws false).0
  unfolding watch_dispatch
  dispatch-watch_target evs ws h = elim (Bool-cases (drain F evs ws false).1) [
    | inl e ↦ rw e refl
    | inr e ↦ absurd (false-ne-true (sym (rw e refl) ∙ h))
  ]

  watch_target-wd :
      (ws : WatchState) (target : List ℕ)
      → F.is_link ws.path ≡ true
      → F.realpath ws.path ≡ some target
      → (watch_target F ws).target_wd ≡ F.add_watch (target_dir target)
  unfolding watch_target
  watch_target-wd ws target link real = rw (link, real) refl

  watch_target-name :
      (ws : WatchState) (target : List ℕ)
      → F.is_link ws.path ≡ true
      → F.realpath ws.path ≡ some target
      → (watch_target F ws).target_name ≡ copied name_size (after_slash target)
  unfolding watch_target
  watch_target-name ws target link real = rw (link, real) refl

  -- Where the configuration's path is a symbolic link, and a dispatch of the watcher reloads, a
  -- later dispatch reloads too if among its events the file that the link then leads to is
  -- written in its directory, whatever other events come, as long as no event before it ends the
  -- watch of that directory. The name of that file is shorter than 256 bytes.
  pub watch_dispatch-follows :
      (target : List ℕ) (ws : WatchState) (evs before after : List Event) (ev : Event)
      → (watch_dispatch F (some evs) ws).1 ≡ true
      → F.is_link ws.path ≡ true
      → F.realpath ws.path ≡ some target
      → length (after_slash target) < name_size
      → ev.ignored ≡ false
      → ev.create ≡ false
      → ev.wd ≡ F.add_watch (target_dir target)
      → ev.name ≡ some (after_slash target)
      → All (Spares (F.add_watch (target_dir target))) before
      → (watch_dispatch F (some (before ++ ev ∷ after)) (watch_dispatch F (some evs) ws).0).1 ≡ true
  unfolding copied
  watch_dispatch-follows target ws evs before after ev reloads link real short current written
        watched named spared =
      let ws1 = (drain F evs ws false).0 in
      let path = drain-path evs ws false in
      let whole = take_all 255 (after_slash target) (omega arith) in
      rw (dispatch-watch_target evs ws reloads) (
        dispatch-saved (F.add_watch (target_dir target)) (after_slash target) ev current written
          watched named before after (watch_target F ws1) spared
          (watch_target-wd ws1 target (ap F.is_link path ∙ link) (ap F.realpath path ∙ real))
          (watch_target-name ws1 target (ap F.is_link path ∙ link) (ap F.realpath path ∙ real)
            ∙ whole))
