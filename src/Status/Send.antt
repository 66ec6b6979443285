-- ===== src/Status/Send.antt =====
-- The events of ipc_send_output_state (include/mono/ipc.h) and the lines of status_emit (src/main.c).
-- An event is sent on the resource of one dwl-ipc output.
use monowm.Base.{
  ℕ, zero, suc, ◌^◌, Bool, false, Option, none, some, List, [], ◌∷◌, ◌++◌, if◌then◌else◌, leb,
  bit_or, shares,
}
use monowm.Wm.State.{
  Client, Monitor, Server, Layout, floating, dwindle_layout, layout, tagset, opt_eq, tagcount,
}
use monowm.Wm.Tags.{client_at}
use monowm.Status.Collect.{MonitorStatus}

-- Texts that the code asks of a window or keeps with an output: title, appid, the name of the
-- output and its layout symbol.
pub record Texts : Type 0 where
  pub client_get_title : ℕ → List ℕ
  pub client_get_appid : ℕ → List ℕ
  pub output_name : ℕ → List ℕ
  pub ltsymbol : ℕ → List ℕ

pub data IpcEvent : Type 0 where
  active fullscreen floats : Bool → IpcEvent
  tag_state : ℕ → ℕ → ℕ → Bool → IpcEvent
  layout_index : ℕ → IpcEvent
  layout_symbol title appid : List ℕ → IpcEvent
  frame : IpcEvent

-- ZDWL_IPC_OUTPUT_V2_TAG_STATE_ACTIVE and ZDWL_IPC_OUTPUT_V2_TAG_STATE_URGENT.
abbrev pub state_active : ℕ
state_active = 1

abbrev pub state_urgent : ℕ
state_urgent = 2

abbrev pub state_of : Bool → Bool → ℕ
state_of shown urg = bit_or (if shown then state_active else 0) (if urg then state_urgent else 0)

unfoldable pub send_tag : Monitor → MonitorStatus → ℕ → IpcEvent
send_tag m st i =
    tag_state i (state_of (shares (tagset m) (2 ^ i)) (shares st.urgent (2 ^ i))) (st.counts i)
      (shares st.selected (2 ^ i))

-- The loop over the tags, by the rounds that are left.
unfoldable pub send_tags : ℕ → ℕ → Monitor → MonitorStatus → List IpcEvent
unfolding send_tag
send_tags zero i m st = []
send_tags (suc n) i m st = send_tag m st i ∷ send_tags n (suc i) m st

abbrev pub layout_idx : Layout → ℕ
layout_idx floating = 0
layout_idx dwindle_layout = 1

-- The last events, which tell of the focused window; two of them only from version 2 on.
abbrev pub send_focused : Texts → ℕ → Option Client → List IpcEvent
send_focused T version none =
    title [] ∷ appid [] ∷ (if leb 2 version then fullscreen false ∷ floats false ∷ [] else [])
send_focused T version (some c) =
    title (T.client_get_title c.id)
    ∷ appid (T.client_get_appid c.id)
    ∷ (if leb 2 version then fullscreen c.isfullscreen ∷ floats c.isfloating ∷ [] else [])

unfoldable pub ipc_send_output_state : Texts → ℕ → Server → MonitorStatus → Monitor → List IpcEvent
unfolding send_tags
ipc_send_output_state T version s st m =
    active (opt_eq s.selmon m.id)
    ∷ (send_tags tagcount 0 m st
        ++ (layout_index (layout_idx (layout m))
            ∷ layout_symbol (T.ltsymbol m.id)
            ∷ (send_focused T version (client_at s st.focused) ++ (frame ∷ []))))

-- A line of text on standard output: the name of the output, a word, and what follows it. `none`
-- is a line that ends after the word.
pub data Line : Type 0 where
  title_line appid_line : List ℕ → Option (List ℕ) → Line
  fullscreen_line floating_line : List ℕ → Option Bool → Line
  selmon_line : List ℕ → Bool → Line
  tags_line : List ℕ → ℕ → ℕ → ℕ → ℕ → Line
  layout_line : List ℕ → List ℕ → Line

abbrev pub focused_lines : Texts → List ℕ → Option Client → List Line
focused_lines T name none =
    title_line name none
    ∷ appid_line name none
    ∷ fullscreen_line name none
    ∷ floating_line name none
    ∷ []
focused_lines T name (some c) =
    title_line name (some (T.client_get_title c.id))
    ∷ appid_line name (some (T.client_get_appid c.id))
    ∷ fullscreen_line name (some c.isfullscreen)
    ∷ floating_line name (some c.isfloating)
    ∷ []

-- The lines of one output.
unfoldable pub status_lines : Texts → Server → MonitorStatus → Monitor → List Line
status_lines T s st m =
    let name = T.output_name m.id in
    focused_lines T name (client_at s st.focused)
    ++ (selmon_line name (opt_eq s.selmon m.id)
        ∷ tags_line name st.occupied (tagset m) st.selected st.urgent
        ∷ layout_line name (T.ltsymbol m.id)
        ∷ [])
