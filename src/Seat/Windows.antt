-- ===== src/Seat/Windows.antt =====
-- Windows that come and go in src/main.c while the session is locked.
use monowm.Base.{
  ℕ, inl, inr, Bool, false, Option, none, some, List, [], ◌∷◌, ◌&&◌, shares, Option-cases,
}
use monowm.Config.Types.{CfgRule}
use monowm.Wm.State.{
  Client, Monitor, Server, Surface, find_client, focustop, selected, opt_eq, tagset,
}
use monowm.Wm.Arrange.{arrange, canvas_layout, client_ids}
use monowm.Wm.Tags.{dwindle_remove_client}
use monowm.Wm.Windows.{mon_of}
use monowm.Wm.Rules.{applyrules}
use monowm.Wm.Mapping.{
  Mapped, mapnotify, place_mapped, listed, lay_canvas, unset_fullscreen, hides, or_under,
}
use monowm.Wm.Unmapping.{unmapnotify, leave_mon, drop_drag, unlist}
use monowm.Seat.Resting.{
  Rests, focusclient-Rests, arrange-Rests, with_sel-Rests, if-Rests, setfullscreen-Rests,
  setmon-Rests,
}

module _ (b : Bool) (f : Surface) where
  leave_mon-Rests : (o : Option ℕ) (s : Server) → Rests b f s → Rests b f (leave_mon o s)
  unfolding leave_mon
  leave_mon-Rests none s h = h
  leave_mon-Rests (some m) s h =
      let cleared = arrange s m in
      focusclient-Rests b f cleared (focustop cleared (selected cleared)) (arrange-Rests b f s m h)

  pub unmapnotify-Rests : (s : Server) (k : ℕ) → Rests b f s → Rests b f (unmapnotify s k)
  unfolding unmapnotify dwindle_remove_client
  unmapnotify-Rests s k h = with_sel-Rests b f s (find_client s k) _ h λ c.
      leave_mon-Rests c.mon (dwindle_remove_client (unlist k (drop_drag k s)) k)
        (if-Rests b f (opt_eq s.dragging k) _ s h h)

  applyrules-Rests :
      (s : Server) (rules : List CfgRule) (k : ℕ) (title appid : List ℕ) (float_type : Bool)
      → Rests b f s
      → Rests b f (applyrules s rules k title appid float_type)
  unfolding applyrules
  applyrules-Rests s rules k title appid float_type h =
      with_sel-Rests b f s (find_client s k) _ h (λ c. setmon-Rests b f _ k _ _ h)

  place_mapped-Rests :
      (rules : List CfgRule) (e : Mapped) (s : Server) (k : ℕ)
      → Rests b f s
      → Rests b f (place_mapped rules e s k)
  unfolding place_mapped
  place_mapped-Rests rules e s k h = elim (Option-cases e.parent) [
    | inl q ↦ rw q (applyrules-Rests s rules k e.title e.appid e.float_type h)
    | inr (p, q) ↦
        rw q (with_sel-Rests b f s (find_client s p) _ h (λ c. setmon-Rests b f _ k c.mon c.tags h))
  ]

  lay_canvas-Rests :
      (k : Option ℕ) (s : Server) (o : Option Monitor) → Rests b f s → Rests b f (lay_canvas k s o)
  unfolding canvas_layout
  lay_canvas-Rests k s none h = h
  lay_canvas-Rests k s (some m) h =
      if-Rests b f (opt_eq k m.id && shares m.canvas_tags (tagset m)) _ s h h

  unset_fullscreen-Rests :
      (c : Client) (p m : Option ℕ) (ks : List ℕ) (s : Server)
      → Rests b f s
      → Rests b f (unset_fullscreen c p m ks s)
  unfolding unset_fullscreen
  unset_fullscreen-Rests c p m [] s h = h
  unset_fullscreen-Rests c p m (k ∷ ks) s h = unset_fullscreen-Rests c p m ks _ (
      with_sel-Rests b f s (find_client s k) _ h
        (λ w. if-Rests b f (hides c p m w) _ s (setfullscreen-Rests b f s k false h) h))

  pub mapnotify-Rests :
      (rules : List CfgRule) (e : Mapped) (s : Server) (c : Client)
      → Rests b f s
      → Rests b f (mapnotify rules e s c)
  unfolding mapnotify
  mapnotify-Rests rules e s c h =
      let placed = place_mapped rules e (listed c s) c.id in
      let rests : Rests b f placed = place_mapped-Rests rules e (listed c s) c.id h in
      let laid : Client → Server = (λ d. lay_canvas placed.selmon placed (mon_of placed d.mon)) in
      with_sel-Rests b f placed (find_client placed c.id)
        (λ d. unset_fullscreen d e.parent (or_under d.mon e.under) (client_ids (laid d)) (laid d))
        rests
        (λ d.
          unset_fullscreen-Rests d e.parent (or_under d.mon e.under) (client_ids (laid d)) (laid d)
            (lay_canvas-Rests placed.selmon placed (mon_of placed d.mon) rests))
