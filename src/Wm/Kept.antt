-- ===== src/Wm/Kept.antt =====
-- What windows keep where src/main.c focuses and arranges.
use monowm.Base.{
  ℕ, ◌≡◌, refl, ◌∙◌, inl, inr, false, Option, none, some, List, map, ◌==◌, if◌then◌else◌, arith,
  map-same, Bool-cases, Option-cases, shares,
}
use monowm.Wm.State.{Client, Monitor, Server, tagset, find_client, find_mon, update_client}
use monowm.Wm.Focus.{focusclient, raise_focus, focus_some}
use monowm.Wm.Arrange.{
  arrange, arrange_mon, canvas_layout, canvas_leave, leave_hidden_canvas, enter_canvas,
}

-- A part of every window, in the order of the list.
abbrev pub each_client : {A : Type 0} → (Client → A) → Server → List A
each_client g s = map g s.clients

module _ {A : Type 0} (g : Client → A) where
  pub update_client-each :
      (k : ℕ) (f : Client → Client) (same : (c : Client) → g (f c) ≡ g c) (s : Server)
      → each_client g (update_client k f s) ≡ each_client g s
  update_client-each k f same s =
      map-same g (λ c. if c.id == k then f c else c) (λ c. ground (arith, same c)) s.clients

  module _ (calm : (c : Client) → g (record c { isurgent = false }) ≡ g c) where
    raise_focus-each : (s : Server) (c : Client) → each_client g (raise_focus s c) ≡ each_client g s
    unfolding raise_focus
    raise_focus-each s c = elim (Option-cases c.mon) [
      | inl e ↦
          rw (e, raise_focus) (update_client-each c.id (λ d. record d { isurgent = false }) calm s)
      | inr (k, e) ↦
          ground (arith, e, update_client-each c.id (λ d. record d { isurgent = false }) calm s)
    ]

    pub focusclient-each :
        (s : Server) (k : Option ℕ) → each_client g (focusclient s k) ≡ each_client g s
    unfolding focusclient
    focusclient-each s none = ground arith
    focusclient-each s (some k) = elim (Option-cases (find_client s k)) [
      | inl e ↦ rw (e, focus_some) (ground arith)
      | inr (c, e) ↦ ground (arith, e, raise_focus-each s c)
    ]

  module _ (leaves : (c : Client) → g (canvas_leave c) ≡ g c)
      (enters : (m : Monitor) (c : Client) → g (enter_canvas m c) ≡ g c) where
    leave_hidden_canvas-each : (m : Monitor) (c : Client) → g (leave_hidden_canvas m c) ≡ g c
    unfolding leave_hidden_canvas
    leave_hidden_canvas-each m c = ground (arith, leaves c)

    arrange_mon-each :
        (m : Monitor) (s : Server) → each_client g (arrange_mon m s) ≡ each_client g s
    unfolding arrange_mon canvas_layout
    arrange_mon-each m s =
        let left = map-same g (leave_hidden_canvas m) (leave_hidden_canvas-each m) s.clients in
        elim (Bool-cases (shares m.canvas_tags (tagset m))) [
          | inl e ↦ rw e (
              map-same g (enter_canvas m) (enters m) (map (leave_hidden_canvas m) s.clients) ∙ left)
          | inr e ↦ rw e left
        ]

    pub arrange-each : (s : Server) (k : ℕ) → each_client g (arrange s k) ≡ each_client g s
    unfolding arrange
    arrange-each s k = elim (Option-cases (find_mon s k)) [
      | inl e ↦ rw (e, arrange) refl
      | inr (m, e) ↦ ground (arith, e, arrange_mon-each m s)
    ]
