-- ===== src/Msg/Runs.antt =====
-- Runs of monomsg against a compositor with one or two outputs.
use monowm.Base.{ℕ, ◌≡◌, refl, true, false, Option, none, some, List, [], ◌∷◌, ◌++◌, arith}
use monowm.Config.Lua.{bytes}
use monowm.Wm.State.{Server, Monitor, tagset}
use monowm.Wm.Safe.{IsTagged}
use monowm.Wm.Examples.{server, monitor, server-IsTagged}
use monowm.Status.Collect.{status_collect}
use monowm.Status.Send.{Texts, ipc_send_output_state}
use monowm.Msg.Parse.{parse_tagset}
use monowm.Msg.Print.{Flags, Watcher, Said, set_tags, tags_are, set_mode, watch_mode, receive_all}
use monowm.Msg.Relay.{SameMasks}
use monowm.Msg.Relayed.{receive_all-ipc_send_output_state}
use monowm.Msg.Leftover.{requests_leftover}

abbrev texts : Texts
texts = record {
  client_get_title = λ k. bytes "title";
  client_get_appid = λ k. bytes "foot";
  output_name = λ k. bytes "DP-1";
  ltsymbol = λ k. bytes "[\\]";
}

abbrev watching : Flags
watching = record {
  mode = watch_mode;
  fflag_focus = true;
  oflag = true;
  tflag = true;
  lflag = true;
  cflag = true;
  vflag = false;
  mflag = true;
  fflag = true;
  output_name = none;
  layout_name = [];
  tagset = [];
  client_tags = [];
}

abbrev started : Watcher
started = record {
  focused_output = none;
  occ = 0;
  seltags = 0;
  sel = 0;
  urg = 0;
  printed = [];
  tagcount = 9;
  layoutcount = 2;
  layout_idx = none;
  requests_sent = false;
  requests = [];
  died = false;
}

receive_all-ipc_send_output_state_example :
    (before : List (Option (List ℕ) × Said)) × ((receive_all watching
        (some (bytes "DP-1"))
        (ipc_send_output_state texts 2 server (status_collect server monitor) monitor)
        started).printed
      ≡ before
        ++ (
          some (bytes "DP-1"),
          tags_are
              (status_collect server monitor).occupied
              (tagset monitor)
              (status_collect server monitor).selected
              (status_collect server monitor).urgent,
        )
          ∷ [])
    × SameMasks
        (receive_all watching
          (some (bytes "DP-1"))
          (ipc_send_output_state texts 2 server (status_collect server monitor) monitor)
          started)
        started
receive_all-ipc_send_output_state_example =
    receive_all-ipc_send_output_state texts watching (some (bytes "DP-1")) 2 server 1 monitor
      started server-IsTagged refl refl refl (refl, refl, refl, refl)

counted : (status_collect server monitor).occupied ≡ 3
unfolding status_collect
counted = refl

-- A second output, not selected, that shows the second tag, is heard of first.
abbrev other_monitor : Monitor
other_monitor = record monitor { id = 2; tagset0 = 2 }

abbrev two_outputs : Server
two_outputs = record server { mons = other_monitor ∷ monitor ∷ [] }

two_outputs-IsTagged : IsTagged two_outputs
two_outputs-IsTagged = record {
  mons_tagged = omega arith;
  clients_tagged = server-IsTagged.clients_tagged;
}

abbrev asking : Flags
asking = record watching {
  mode = set_mode;
  tflag = true;
  lflag = false;
  cflag = false;
  tagset = bytes "2+";
}

-- The first output shows tag 0 and is asked to add tag 2; it is asked to show tag 1 as well.
requests_leftover_example :
    (receive_all asking
      (some (bytes "DP-1"))
      (ipc_send_output_state texts 2 two_outputs (status_collect two_outputs monitor) monitor)
      (receive_all asking
        (some (bytes "DP-2"))
        (ipc_send_output_state texts 2 two_outputs
          (status_collect two_outputs other_monitor)
          other_monitor)
        started)).requests
    ≡ set_tags 7 true ∷ []
unfolding parse_tagset
requests_leftover_example =
    requests_leftover texts asking 2 two_outputs 2 1 other_monitor monitor (bytes "DP-2")
      (bytes "DP-1") started 7 true two_outputs-IsTagged refl refl refl refl refl refl refl refl
      refl refl refl refl
