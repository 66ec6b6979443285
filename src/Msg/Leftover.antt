-- ===== src/Msg/Leftover.antt =====
-- Where monomsg -s -t hears of another output before its target.
use monowm.Base.{ℕ, ◌≡◌, ap, ◌∙◌, Bool, true, false, none, some, List, [], ◌∷◌, ◌++◌, bit_or, arith}
use monowm.Config.Following.{same_bytes_refl}
use monowm.Wm.State.{Server, Monitor, tagset, find_mon, opt_eq}
use monowm.Wm.Safe.{IsTagged}
use monowm.Status.Collect.{status_collect}
use monowm.Status.Send.{Texts, frame, ipc_send_output_state}
use monowm.Msg.Parse.{parse_tagset}
use monowm.Msg.Print.{
  Flags, Watcher, IpcRequest, set_tags, sets, receive, receive_all, dwl_ipc_output_active,
  dwl_ipc_output_frame_set, asked,
}
use monowm.Msg.Heard.{heard, runs_heard, heard-seltags}
use monowm.Msg.Others.{Others, Others-trans, heard-Others, active-Others, focus-Others}

-- The frame of an output that is not named as the target does nothing.
frame-passes :
    (F : Flags) (a : List ℕ) (s : Watcher)
    → sets F.mode ≡ true
    → F.output_name ≡ none
    → s.focused_output ≡ none
    → receive F (some a) frame s ≡ s
unfolding receive dwl_ipc_output_frame_set
frame-passes F a s set none_named none_focused = rw (set, none_named, none_focused) (ground arith)

-- The frame of the target sends what -t makes of the mask that is there.
frame-sends :
    (F : Flags) (b : List ℕ) (s : Watcher) (mask : ℕ) (toggles : Bool)
    → sets F.mode ≡ true
    → F.output_name ≡ none
    → F.tflag ≡ true
    → F.lflag ≡ false
    → F.cflag ≡ false
    → s.focused_output ≡ some b
    → s.requests_sent ≡ false
    → parse_tagset s.tagcount s.seltags F.tagset ≡ some (mask, toggles)
    → (receive F (some b) frame s).requests ≡ s.requests ++ set_tags mask toggles ∷ []
unfolding receive dwl_ipc_output_frame_set asked
frame-sends F b s mask toggles set none_named t l c focused unsent parsed =
    ground (arith, set, none_named, t, l, c, focused, unsent, parsed, same_bytes_refl b)

-- If monomsg with -s and -t alone, without -o, hears of an output that is not selected and then
-- of the selected one, the mask that it starts from has the tags that either of the two shows:
-- it sends what -t makes of both together. The tag sets of the compositor are sound, and no
-- request was sent before.
pub requests_leftover :
    (T : Texts) (F : Flags) (version : ℕ) (s : Server) (j k : ℕ) (m n : Monitor) (a b : List ℕ)
    (c : Watcher) (mask : ℕ) (toggles : Bool)
    → IsTagged s
    → find_mon s j ≡ some m
    → find_mon s k ≡ some n
    → opt_eq s.selmon m.id ≡ false
    → opt_eq s.selmon n.id ≡ true
    → sets F.mode ≡ true
    → F.output_name ≡ none
    → F.tflag ≡ true
    → F.lflag ≡ false
    → F.cflag ≡ false
    → c.focused_output ≡ none
    → c.requests_sent ≡ false
    → parse_tagset c.tagcount (bit_or (bit_or c.seltags (tagset m)) (tagset n)) F.tagset
      ≡ some (mask, toggles)
    → (receive_all F (some b) (ipc_send_output_state T version s (status_collect s n) n) (
        receive_all F
          (some a)
          (ipc_send_output_state T version s (status_collect s m) m)
          c)).requests
      ≡ c.requests ++ set_tags mask toggles ∷ []
requests_leftover T F version s j k m n a b c mask toggles h here there away chosen set none_named t
      l cf unfocused unsent parsed =
    let first = heard T F version s h t (some a) m c in
    let after_first : receive_all F (some a)
          (ipc_send_output_state T version s (status_collect s m) m) c
        ≡ first =
      runs_heard T F version s h t (some a) m c
      ∙ frame-passes F a first set none_named (calm_first.0 ∙ unfocused) in
    let second = heard T F version s h t (some b) n first in
    let runs =
      ap
        (λ (w : Watcher).
          receive_all F (some b) (ipc_send_output_state T version s (status_collect s n) n) w)
        after_first
      ∙ runs_heard T F version s h t (some b) n first in
    let seltags : second.seltags ≡ bit_or (bit_or c.seltags (tagset m)) (tagset n) =
      heard-seltags T F version s h t (some b) k n first there
      ∙ ap (λ (w : ℕ). bit_or w (tagset n)) (heard-seltags T F version s h t (some a) j m c here) in
    ap (λ (w : Watcher). w.requests) runs
    ∙ frame-sends F b second mask toggles set none_named t l cf calm_second.0
        (calm_second.2 ∙ calm_first.2 ∙ unsent)
        (ap (λ (v : ℕ). parse_tagset v second.seltags F.tagset) (calm_second.1 ∙ calm_first.1)
          ∙ ap (λ (v : ℕ). parse_tagset c.tagcount v F.tagset) seltags
          ∙ parsed)
    ∙ ap (λ (rs : List IpcRequest). rs ++ set_tags mask toggles ∷ []) (calm_second.3 ∙ calm_first.3)
  where
    calm_first : Others (heard T F version s h t (some a) m c) c
    calm_first =
        Others-trans (heard T F version s h t (some a) m c)
          (dwl_ipc_output_active F (some a) (opt_eq s.selmon m.id) c) c
          (heard-Others F (some a) T version s m (status_collect s m)
            (dwl_ipc_output_active F (some a) (opt_eq s.selmon m.id) c))
          (rw away (active-Others F (some a) c))

    calm_second :
        Others
          (heard T F version s h t (some b) n (heard T F version s h t (some a) m c))
          (record (heard T F version s h t (some a) m c) { focused_output = some b })
    calm_second =
        let first = heard T F version s h t (some a) m c in
        Others-trans (heard T F version s h t (some b) n first)
          (dwl_ipc_output_active F (some b) (opt_eq s.selmon n.id) first)
          (record first { focused_output = some b })
          (heard-Others F (some b) T version s n (status_collect s n)
            (dwl_ipc_output_active F (some b) (opt_eq s.selmon n.id) first))
          (rw chosen (focus-Others F (some b) first))
