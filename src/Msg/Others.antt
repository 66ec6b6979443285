-- ===== src/Msg/Others.antt =====
-- What stays as it is in monomsg between an `active` event and the frame.
use monowm.Base.{
  ℕ, zero, suc, ◌≡◌, refl, ◌∙◌, inl, inr, Bool, true, false, Option, none, some, List, [], ◌∷◌, All,
  arith, Bool-cases,
}
use monowm.Wm.State.{Client, Server, Monitor, tagcount}
use monowm.Wm.Tags.{client_at}
use monowm.Status.Collect.{MonitorStatus}
use monowm.Status.Send.{
  Texts, IpcEvent, active, fullscreen, floats, tag_state, layout_index, layout_symbol, title, appid,
  frame, send_tag, send_tags, send_focused,
}
use monowm.Msg.Print.{
  Flags, Watcher, Said, selmon, tag_is, receive, receive_all, dwl_ipc_output_active,
  dwl_ipc_output_tag, print_if, gets,
}
use monowm.Msg.Heard.{before_frame}

-- The variables that only an `active` event or a frame changes.
abbrev pub Others : Watcher → Watcher → Type 0
Others s t =
    (s.focused_output ≡ t.focused_output)
    × (s.tagcount ≡ t.tagcount)
    × (s.requests_sent ≡ t.requests_sent)
    × (s.requests ≡ t.requests)

pub Others-trans : (r s t : Watcher) → Others r s → Others s t → Others r t
Others-trans r s t h k = (h.0 ∙ k.0, h.1 ∙ k.1, h.2 ∙ k.2, h.3 ∙ k.3)

print_if-Others :
    (b : Bool) (name : Option (List ℕ)) (w : Said) (s : Watcher) → Others (print_if b name w s) s
print_if-Others true name w s = (refl, refl, refl, refl)
print_if-Others false name w s = (refl, refl, refl, refl)

module _ (F : Flags) (name : Option (List ℕ)) where
  pub active-Others : (s : Watcher) → Others (dwl_ipc_output_active F name false s) s
  unfolding dwl_ipc_output_active
  active-Others s = print_if-Others F.oflag name (selmon false) s

  pub focus-Others :
      (s : Watcher)
      → Others (dwl_ipc_output_active F name true s) (record s { focused_output = name })
  unfolding dwl_ipc_output_active
  focus-Others s = print_if-Others F.oflag name (selmon true) (record s { focused_output = name })

  tag-Others :
      (t state k : ℕ) (f : Bool) (s : Watcher) → Others (dwl_ipc_output_tag F name t state k f s) s
  unfolding dwl_ipc_output_tag
  tag-Others t state k f s = elim (Bool-cases F.tflag) [
    | inl e ↦ rw e (print_if-Others (gets F.mode) name (tag_is t state k f) _)
    | inr e ↦ rw e (refl, refl, refl, refl)
  ]

  abbrev Calm : IpcEvent → Type 0
  Calm frame = ⊥
  Calm (active b) = ⊥
  Calm (fullscreen b) = Unit
  Calm (floats b) = Unit
  Calm (tag_state i state clients focused) = Unit
  Calm (layout_index i) = Unit
  Calm (layout_symbol t) = Unit
  Calm (title t) = Unit
  Calm (appid t) = Unit

  receive-Others : (e : IpcEvent) (s : Watcher) → Calm e → Others (receive F name e s) s
  unfolding receive
  receive-Others (active b) s q = absurd q
  receive-Others (fullscreen b) s q = print_if-Others _ name _ s
  receive-Others (floats b) s q = print_if-Others _ name _ s
  receive-Others (tag_state i state clients focused) s q = tag-Others i state clients focused s
  receive-Others (layout_index i) s q = (refl, refl, refl, refl)
  receive-Others (layout_symbol t) s q = print_if-Others _ name _ s
  receive-Others (title t) s q = print_if-Others _ name _ s
  receive-Others (appid t) s q = print_if-Others _ name _ s
  receive-Others frame s q = absurd q

  receive_all-Others :
      (es : List IpcEvent) (s : Watcher) → All Calm es → Others (receive_all F name es s) s
  unfolding receive_all
  receive_all-Others [] s q = (refl, refl, refl, refl)
  receive_all-Others (e ∷ es) s q =
      Others-trans (receive_all F name es (receive F name e s)) (receive F name e s) s
        (receive_all-Others es (receive F name e s) q.1) (receive-Others e s q.0)

  send_tags-Calm : (n i : ℕ) (m : Monitor) (st : MonitorStatus) → All Calm (send_tags n i m st)
  unfolding send_tags send_tag
  send_tags-Calm zero i m st = tt
  send_tags-Calm (suc n) i m st = (tt, send_tags-Calm n (suc i) m st)

  send_focused-Calm : (T : Texts) (v : ℕ) (o : Option Client) → All Calm (send_focused T v o)
  send_focused-Calm T v none = ground arith
  send_focused-Calm T v (some c) = ground arith

  pub heard-Others :
      (T : Texts) (v : ℕ) (s : Server) (m : Monitor) (st : MonitorStatus) (c : Watcher)
      → Others
          (receive_all F name
            (before_frame T v s st m)
            (receive_all F name (send_tags tagcount 0 m st) c))
          c
  heard-Others T v s m st c =
      let told = receive_all F name (send_tags tagcount 0 m st) c in
      Others-trans (receive_all F name (before_frame T v s st m) told) told c
        (receive_all-Others (before_frame T v s st m) told
          (tt, (tt, send_focused-Calm T v (client_at s st.focused))))
        (receive_all-Others (send_tags tagcount 0 m st) c (send_tags-Calm tagcount 0 m st))
