-- ===== src/Msg/Heard.antt =====
-- The mask that -s -t starts from, where several outputs are heard of before the target.
use monowm.Base.{
  ℕ, ◌+◌, ◌^◌, ◌<◌, ◌≡◌, refl, ap, ◌∙◌, inl, inr, Bool, true, ◌&&◌, ◌||◌, ltb, Option, some, List,
  [], ◌∷◌, ◌++◌, test_bit, test_bit-or, test_bit-lt, eq_of_test_bit, shares, shares-pow, arith,
  bit_or, ◌^◌, Bool-cases,
}
use monowm.Wm.State.{Server, Monitor, tagset, tagcount, find_mon, layout, opt_eq}
use monowm.Wm.Tags.{client_at}
use monowm.Wm.Safe.{IsTagged}
use monowm.Wm.Actions.{find_mon-IsTagset}
use monowm.Status.Collect.{MonitorStatus, status_collect}
use monowm.Status.Send.{
  Texts, IpcEvent, layout_index, layout_symbol, frame, send_tags, send_focused,
  ipc_send_output_state, layout_idx,
}
use monowm.Msg.Print.{Flags, Watcher, receive, receive_all, dwl_ipc_output_active}
use monowm.Msg.Relay.{receive_all-append, mask_bit, seltags_step}
use monowm.Msg.Relayed.{
  receive_all-SameMasks, active-SameMasks, send_focused-Quiet, receive_all-last,
}

more_bits :
    (a start v : ℕ) (p : ℕ → Bool)
    → v < 2 ^ tagcount
    → ((j : ℕ) → test_bit a j ≡ (test_bit start j || (ltb j tagcount && p j)))
    → ((j : ℕ) → p j ≡ test_bit v j)
    → a ≡ bit_or start v
more_bits a start v p small bits same =
    eq_of_test_bit (a + bit_or start v) a (bit_or start v) (omega arith) (omega arith) λ j.
      bits j
      ∙ (rw (test_bit-or start v j) (elim (Bool-cases (ltb j tagcount)) [
        | inl e ↦ rw (e, same j) refl
        | inr e ↦ rw (e, test_bit-lt tagcount v j small (ground arith)) refl
      ]))

-- The events of an output up to its frame.
abbrev pub before_frame : Texts → ℕ → Server → MonitorStatus → Monitor → List IpcEvent
before_frame T version s st m =
    layout_index (layout_idx (layout m))
    ∷ layout_symbol (T.ltsymbol m.id)
    ∷ send_focused T version (client_at s st.focused)

module _ (T : Texts) (F : Flags) (version : ℕ) (s : Server) (h : IsTagged s)
    (on : F.tflag ≡ true) where
  -- What has been heard when the frame of an output comes.
  abbrev pub heard : Option (List ℕ) → Monitor → Watcher → Watcher
  heard name m c = receive_all F name (before_frame T version s (status_collect s m) m) (
      receive_all F name (send_tags tagcount 0 m (status_collect s m))
        (dwl_ipc_output_active F name (opt_eq s.selmon m.id) c))

  pub runs_heard :
      (name : Option (List ℕ)) (m : Monitor) (c : Watcher)
      → receive_all F name (ipc_send_output_state T version s (status_collect s m) m) c
        ≡ receive F name frame (heard name m c)
  unfolding receive_all receive ipc_send_output_state
  runs_heard name m c =
      receive_all-append F name (send_tags tagcount 0 m (status_collect s m))
        (before_frame T version s (status_collect s m) m ++ frame ∷ [])
        (dwl_ipc_output_active F name (opt_eq s.selmon m.id) c)
      ∙ receive_all-last F name (before_frame T version s (status_collect s m) m) _

  pub heard-seltags :
      (name : Option (List ℕ)) (k : ℕ) (m : Monitor) (c : Watcher)
      → find_mon s k ≡ some m
      → (heard name m c).seltags ≡ bit_or c.seltags (tagset m)
  heard-seltags name k m c here =
      let st = status_collect s m in
      let c0 = dwl_ipc_output_active F name (opt_eq s.selmon m.id) c in
      let c1 = receive_all F name (send_tags tagcount 0 m st) c0 in
      let built : c1.seltags ≡ bit_or c0.seltags (tagset m) =
        more_bits c1.seltags c0.seltags (tagset m) (λ i. shares (tagset m) (2 ^ i))
          (find_mon-IsTagset s k m here h).1
          (λ j.
            mask_bit F name m st (λ d. d.seltags) (λ i. shares (tagset m) (2 ^ i))
              (seltags_step F name m st on) tagcount 0 c0 j
            ∙ ground arith)
          (shares-pow (tagset m)) in
      (receive_all-SameMasks F name (before_frame T version s st m) c1
        (tt, (tt, send_focused-Quiet T version (client_at s st.focused)))).1
      ∙ built
      ∙ ap (λ a. bit_or a (tagset m)) (active-SameMasks F name (opt_eq s.selmon m.id) c).1
