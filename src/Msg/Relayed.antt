-- ===== src/Msg/Relayed.antt =====
-- The line `tags` of monomsg against the windows of the compositor.
use monowm.Base.{
  ℕ, ◌^◌, ◌≡◌, refl, sym, ap, ◌∙◌, Bool, true, false, ltb, Option, none, some, List, [], ◌∷◌, ◌++◌,
  shares, shares-pow, test_bit-zero, All, arith,
}
use monowm.Wm.State.{Server, Monitor, Client, tagset, tagcount, find_mon, layout, opt_eq}
use monowm.Wm.Tags.{client_at}
use monowm.Wm.Safe.{IsTagged}
use monowm.Wm.Actions.{find_mon-IsTagset}
use monowm.Status.Collect.{status_collect, occupied-counts}
use monowm.Status.Small.{status_collect-small}
use monowm.Status.Send.{
  Texts, IpcEvent, active, fullscreen, floats, tag_state, layout_index, layout_symbol, title, appid,
  frame, send_tags, send_focused, ipc_send_output_state, layout_idx,
}
use monowm.Msg.Print.{
  Flags, Watcher, Said, tags_are, receive, receive_all, dwl_ipc_output_active, dwl_ipc_output_frame,
  tell_focused, sets,
}
use monowm.Msg.Relay.{
  SameMasks, print_if-SameMasks, receive_all-append, mask_bit, seltags_step, urg_step, occ_step,
  sel_step, nine_bits,
}

-- An event that no mask is built of.
abbrev pub Quiet : IpcEvent → Type 0
Quiet (tag_state i state clients focused) = ⊥
Quiet frame = ⊥
Quiet (active b) = Unit
Quiet (fullscreen b) = Unit
Quiet (floats b) = Unit
Quiet (layout_index i) = Unit
Quiet (layout_symbol t) = Unit
Quiet (title t) = Unit
Quiet (appid t) = Unit

SameMasks-trans : (r s t : Watcher) → SameMasks r s → SameMasks s t → SameMasks r t
SameMasks-trans r s t h k = (h.0 ∙ k.0, h.1 ∙ k.1, h.2 ∙ k.2, h.3 ∙ k.3)

module _ (F : Flags) (name : Option (List ℕ)) where
  pub active-SameMasks : (b : Bool) (s : Watcher) → SameMasks (dwl_ipc_output_active F name b s) s
  unfolding dwl_ipc_output_active
  active-SameMasks b s = ground (arith)

  receive-SameMasks : (e : IpcEvent) (s : Watcher) → Quiet e → SameMasks (receive F name e s) s
  unfolding receive
  receive-SameMasks (active b) s q = active-SameMasks b s
  receive-SameMasks (fullscreen b) s q = print_if-SameMasks _ name _ s
  receive-SameMasks (floats b) s q = print_if-SameMasks _ name _ s
  receive-SameMasks (tag_state i state clients focused) s q = absurd q
  receive-SameMasks (layout_index i) s q = (refl, refl, refl, refl)
  receive-SameMasks (layout_symbol t) s q = print_if-SameMasks _ name _ s
  receive-SameMasks (title t) s q = print_if-SameMasks _ name _ s
  receive-SameMasks (appid t) s q = print_if-SameMasks _ name _ s
  receive-SameMasks frame s q = absurd q

  pub receive_all-SameMasks :
      (es : List IpcEvent) (s : Watcher) → All Quiet es → SameMasks (receive_all F name es s) s
  unfolding receive_all
  receive_all-SameMasks [] s q = (refl, refl, refl, refl)
  receive_all-SameMasks (e ∷ es) s q =
      SameMasks-trans (receive_all F name es (receive F name e s)) (receive F name e s) s
        (receive_all-SameMasks es (receive F name e s) q.1) (receive-SameMasks e s q.0)

  tell_focused-SameMasks :
      (o : Option (List ℕ)) (s : Watcher) → SameMasks (tell_focused F name o s) s
  tell_focused-SameMasks none s = (refl, refl, refl, refl)
  tell_focused-SameMasks (some o) s = print_if-SameMasks _ none _ s

  -- The line that a frame prints.
  frame-tags :
      (s : Watcher)
      → sets F.mode ≡ false
      → F.tflag ≡ true
      → (before : List (Option (List ℕ) × Said)) × ((receive F name frame s).printed
          ≡ before ++ (name, tags_are s.occ s.seltags s.sel s.urg) ∷ [])
        × SameMasks (receive F name frame s) (record s { occ = 0; seltags = 0; sel = 0; urg = 0 })
  unfolding receive dwl_ipc_output_frame
  frame-tags s gets on =
      let told = tell_focused F name s.focused_output s in
      let same = tell_focused-SameMasks s.focused_output s in
      (
        told.printed,
        rw (gets, on) (rw (same.0, same.1, same.2, same.3) refl),
        rw (gets, on) (refl, refl, refl, refl),
      )

pub send_focused-Quiet : (T : Texts) (v : ℕ) (o : Option Client) → All Quiet (send_focused T v o)
send_focused-Quiet T v none = ground arith
send_focused-Quiet T v (some c) = ground arith

-- After the events of the tags, the masks are those of the output.
module _ (F : Flags) (name : Option (List ℕ)) (s : Server) (k : ℕ) (m : Monitor)
    (here : find_mon s k ≡ some m) (h : IsTagged s) (on : F.tflag ≡ true) (c : Watcher)
    (fresh : (c.occ ≡ 0) × (c.seltags ≡ 0) × (c.sel ≡ 0) × (c.urg ≡ 0)) where
  abbrev told : Watcher
  told = receive_all F name (send_tags tagcount 0 m (status_collect s m)) c

  masks_told :
      (told.occ ≡ (status_collect s m).occupied)
      × (told.seltags ≡ tagset m)
      × (told.sel ≡ (status_collect s m).selected)
      × (told.urg ≡ (status_collect s m).urgent)
  masks_told =
      let st = status_collect s m in
      let (small_occ, small_urg, small_sel) = status_collect-small s m h in
      (
        nine_bits told.occ st.occupied (λ i. ltb 0 (st.counts i)) small_occ
            (λ j.
              mask_bit F name m st (λ d. d.occ) (λ i. ltb 0 (st.counts i)) (occ_step F name m st on)
                tagcount 0 c j
              ∙ rw (fresh.0, test_bit-zero j) (ground arith))
            (λ j l. sym (occupied-counts s m j l)),
        nine_bits told.seltags (tagset m) (λ i. shares (tagset m) (2 ^ i))
            (find_mon-IsTagset s k m here h).1
            (λ j.
              mask_bit F name m st (λ d. d.seltags) (λ i. shares (tagset m) (2 ^ i))
                (seltags_step F name m st on) tagcount 0 c j
              ∙ rw (fresh.1, test_bit-zero j) (ground arith))
            (λ j l. shares-pow (tagset m) j),
        nine_bits told.sel st.selected (λ i. shares st.selected (2 ^ i)) small_sel
            (λ j.
              mask_bit F name m st (λ d. d.sel) (λ i. shares st.selected (2 ^ i))
                (sel_step F name m st on) tagcount 0 c j
              ∙ rw (fresh.2, test_bit-zero j) (ground arith))
            (λ j l. shares-pow st.selected j),
        nine_bits told.urg st.urgent (λ i. shares st.urgent (2 ^ i)) small_urg
            (λ j.
              mask_bit F name m st (λ d. d.urg) (λ i. shares st.urgent (2 ^ i))
                (urg_step F name m st on) tagcount 0 c j
              ∙ rw (fresh.3, test_bit-zero j) (ground arith))
            (λ j l. shares-pow st.urgent j),
      )

pub receive_all-last :
    (F : Flags) (name : Option (List ℕ)) (es : List IpcEvent) (c : Watcher)
    → receive_all F name (es ++ frame ∷ []) c ≡ receive F name frame (receive_all F name es c)
unfolding receive_all
receive_all-last F name es c = receive_all-append F name es (frame ∷ []) c

same_line :
    {a b c d e f g h : ℕ} (before : List (Option (List ℕ) × Said)) (name : Option (List ℕ))
    → a ≡ e
    → b ≡ f
    → c ≡ g
    → d ≡ h
    → before ++ (name, tags_are a b c d) ∷ [] ≡ before ++ (name, tags_are e f g h) ∷ []
same_line before name p q r s = rw (p, q, r, s) refl

-- If the tag sets of the compositor are sound, the events that dwl-ipc sends of an output make
-- monomsg with -g or -w and -t print as its last line of them the masks of the tags that are
-- occupied, shown, those of the focused window and urgent, the numbers that status_emit prints
-- too, and leave its masks empty for the next output; provided that they were empty before.
pub receive_all-ipc_send_output_state :
    (T : Texts) (F : Flags) (name : Option (List ℕ)) (version : ℕ) (s : Server) (k : ℕ)
    (m : Monitor) (c : Watcher)
    → IsTagged s
    → find_mon s k ≡ some m
    → sets F.mode ≡ false
    → F.tflag ≡ true
    → (c.occ ≡ 0) × (c.seltags ≡ 0) × (c.sel ≡ 0) × (c.urg ≡ 0)
    → (before : List (Option (List ℕ) × Said)) × ((receive_all F name
          (ipc_send_output_state T version s (status_collect s m) m)
          c).printed
        ≡ before
          ++ (
            name,
            tags_are
                (status_collect s m).occupied
                (tagset m)
                (status_collect s m).selected
                (status_collect s m).urgent,
          )
            ∷ [])
      × SameMasks
          (receive_all F name (ipc_send_output_state T version s (status_collect s m) m) c)
          c
unfolding receive_all ipc_send_output_state receive
receive_all-ipc_send_output_state T F name version s k m c h here gets on fresh =
    let st = status_collect s m in
    let c0 = dwl_ipc_output_active F name (opt_eq s.selmon m.id) c in
    let same = active-SameMasks F name (opt_eq s.selmon m.id) c in
    let zero : (c0.occ ≡ 0) × (c0.seltags ≡ 0) × (c0.sel ≡ 0) × (c0.urg ≡ 0) =
      (same.0 ∙ fresh.0, same.1 ∙ fresh.1, same.2 ∙ fresh.2, same.3 ∙ fresh.3) in
    let c1 = receive_all F name (send_tags tagcount 0 m st) c0 in
    let masks = masks_told F name s k m here h on c0 zero in
    let rest : List IpcEvent =
      layout_index (layout_idx (layout m))
      ∷ layout_symbol (T.ltsymbol m.id)
      ∷ send_focused T version (client_at s st.focused) in
    let c2 = receive_all F name rest c1 in
    let kept =
      receive_all-SameMasks F name rest c1
        (tt, (tt, send_focused-Quiet T version (client_at s st.focused))) in
    let (before, line, reset) = frame-tags F name c2 gets on in
    let runs : receive_all F name (ipc_send_output_state T version s st m) c
        ≡ receive F name frame c2 =
      receive_all-append F name (send_tags tagcount 0 m st) (rest ++ frame ∷ []) c0
      ∙ receive_all-last F name rest c1 in
    (
      before,
      ap (λ (d : Watcher). d.printed) runs
          ∙ line
          ∙ same_line before name (kept.0 ∙ masks.0) (kept.1 ∙ masks.1) (kept.2 ∙ masks.2)
              (kept.3 ∙ masks.3),
      rw runs (
        reset.0 ∙ sym fresh.0,
        reset.1 ∙ sym fresh.1,
        reset.2 ∙ sym fresh.2,
        reset.3 ∙ sym fresh.3,
      ),
    )
