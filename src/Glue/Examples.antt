-- ===== src/Glue/Examples.antt =====
-- An output with its workspaces, from its coming to what its clients see.
use Prim.Native.Nat.{bit_xor}
use monowm.Base.{
  ◌≡◌, refl, ◌⊎◌, true, false, none, some, [], ◌∷◌, any_of, keep, length, test_bit, arith, ◌<◌,
}
use monowm.Config.Lua.{bytes}
use monowm.Ext.State.{Workspace, Env, activate, deactivate}
use monowm.Ext.Workspaces.{find_workspace}
use monowm.Ext.Clients.{new_manager}
use monowm.Wm.State.{tagset, tagcount}
use monowm.Wm.Showing.{Shows}
use monowm.Wm.Examples.{server, monitor}
use monowm.Status.Collect.{status_collect, status_collect_lem, urgent_on_tag, on_tag}
use monowm.Status.Send.{Texts}
use monowm.Glue.Desk.{
  Desk, ExtWorkspace, emit_mon, ext_workspace_createmon, ext_workspace_cleanupmon,
}
use monowm.Glue.Commit.{handle_ext_commit, select}
use monowm.Glue.Asked.{commit-activate, commit-deactivate}
use monowm.Glue.Told.{emit_mon-Told}
use monowm.Glue.Coming.{cleanupmon-createmon, tags_shown, tags_from}

abbrev texts : Texts
texts = record {
  client_get_title = λ k. bytes "title";
  client_get_appid = λ k. bytes "foot";
  output_name = λ k. bytes "DP-1";
  ltsymbol = λ k. bytes "[\\]";
}

abbrev no_resources : Env
no_resources = record { output_resources = λ o. [] }

abbrev empty_desk : Desk
empty_desk = record {
  server = server;
  status = λ k. record { focused = none; selected = 0; occupied = 0; urgent = 0; counts = λ t. 0 };
  ext_group = λ k. none;
  manager = new_manager;
  ext_workspaces = [];
  ipc_outputs = [];
  ipc_sent = [];
  lines = [];
}

-- The second tag of the output.
abbrev second_tag : ExtWorkspace
second_tag = record { tag = 2; m = 1; handle = 5 }

abbrev second_workspace : Workspace
second_workspace = record {
  id = 5;
  group = none;
  name = some (bytes "2");
  text_id = none;
  coordinates = [];
  caps = 3;
  state = 5;
}

abbrev one_workspace : Desk
one_workspace = record empty_desk {
  manager = record new_manager { workspaces = second_workspace ∷ []; next = 6 };
  ext_workspaces = second_tag ∷ [];
}

commit-activate_example :
    Shows (handle_ext_commit (second_tag ∷ []) (activate (some 5) ∷ []) server) 2
commit-activate_example =
    commit-activate (second_tag ∷ []) 5 second_tag server monitor
      (unfold monowm.Glue.Commit.find_handle in refl) refl (omega arith, omega arith)

abbrev first_tag : ExtWorkspace
first_tag = record { tag = 1; m = 1; handle = 4 }

commit-deactivate_example :
    ((test_bit (tagset monitor) 0 ≡ false)
      × (handle_ext_commit (first_tag ∷ []) (deactivate (some 4) ∷ []) server ≡ server))
    ⊎ ((tagset monitor ≡ 1)
        × (handle_ext_commit (first_tag ∷ []) (deactivate (some 4) ∷ []) server ≡ select 1 server))
    ⊎ ((test_bit (tagset monitor) 0 ≡ true)
        × (0 < bit_xor (tagset monitor) 1)
        × Shows
            (handle_ext_commit (first_tag ∷ []) (deactivate (some 4) ∷ []) server)
            (bit_xor (tagset monitor) 1))
commit-deactivate_example =
    commit-deactivate (first_tag ∷ []) 4 first_tag server monitor
      (unfold monowm.Glue.Commit.find_handle in refl) refl (omega arith, omega arith)

emit_mon-Told_example :
    (u : Workspace) × (find_workspace (emit_mon texts monitor one_workspace).manager 5 ≡ some u)
    × (test_bit u.state 0 ≡ test_bit (tagset monitor) 1)
    × (test_bit u.state 1 ≡ any_of (urgent_on_tag monitor 1) server.clients)
    × (test_bit u.state 2 ≡ false)
emit_mon-Told_example =
    emit_mon-Told texts monitor one_workspace second_tag second_workspace (refl, tt)
      (unfold monowm.Glue.Commit.find_handle in refl) refl (omega arith, omega arith) refl

cleanupmon-createmon_example :
    (tags_shown 1 (ext_workspace_createmon texts no_resources 1 empty_desk) ≡ tags_from tagcount 1)
    × ((ext_workspace_cleanupmon no_resources 1
          (ext_workspace_createmon texts no_resources 1 empty_desk)).ext_workspaces
        ≡ [])
cleanupmon-createmon_example = cleanupmon-createmon texts 1 no_resources empty_desk refl

status_collect_lem_example :
    (test_bit (status_collect server monitor).occupied 1 ≡ any_of (on_tag monitor 1) server.clients)
    × (test_bit (status_collect server monitor).urgent 1
        ≡ any_of (urgent_on_tag monitor 1) server.clients)
    × ((status_collect server monitor).counts 1 ≡ length (keep (on_tag monitor 1) server.clients))
status_collect_lem_example = status_collect_lem server monitor 1 (omega arith)
