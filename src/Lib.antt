-- ===== src/Lib.antt =====
-- monowm: a dynamic tiling Wayland compositor, and the model of its core logic.
--
-- The program (paths from the repository's root): src/main.c is the compositor. It keeps a list of
-- outputs (struct Monitor) and of windows (struct Client). Each output shows a set of the nine tags,
-- and each tag has a binary tree of windows, the dwindle tree, whose leaves are laid out as tiles.
-- An action of the user changes tags or views; then the topmost window of the output is focused
-- (focusclient) and the output is arranged (arrange), which runs the layout over the tree (dwindle).
-- src/workspace.c with include/mono/workspace.h and ext.h tells clients of the ext-workspace protocol
-- about the tags, include/mono/ipc.h tells those of dwl-ipc, src/parser.c reads the configuration with
-- Lua, and tools/monomsg is a command line client.
--
-- The library:
--   Base            library names passed on, and helpers that the parts share: Boolean tests of
--                   numbers (Base/Tests), lists (Base/Lists, Base/Entries), integers (Base/Int), masks (Base/Bits).
--   Dwindle         the dwindle tree, src/main.c lines 258 to 282, 3763 to 3999, 4446 to 4499
--                   and 4628 to 4641.
--     Tree, Edit    struct DwindleNode, and dwindle_find_leaf, dwindle_first_leaf, dwindle_next_leaf,
--                   dwindle_insert_at_edge, dwindle_insert, dwindle_remove_leaf, dwindle_remove.
--     Walk, Insert, Remove   theorems on these.
--     Sweep, Fill   the two loops of dwindle() over a tree.
--     Moving        dwindle_move_to_edge.
--     Recalc, Tiling   dwindle_recalc, and the geometry of the boxes it gives out.
--   Wm              tags, views and windows.
--     State         the fields of Client and Monitor that decide what is shown, focused and tiled.
--     Focus         focusclient. Arrange: arrange, canvas_leave, canvas_layout, dwindle.
--     Tags          view, toggleview, viewshift, settags, tag, toggletag, tagshift, setlayout,
--                   dwindle_remove_client.
--     Views         the views of monitors under focusing and arranging.
--     Showing, Shifting   what view, toggleview and viewshift show.
--     Places        what dwindle() leaves in the trees.
--     Windows       setfloating, setfullscreen, setmon. Closing: closemon.
--     Kept, Homes, Evicting, Closed   the windows' outputs under these.
--     Ipc           the requests of include/mono/ipc.h: set_tags, set_client_tags, set_layout.
--     Toggles       togglefloating, togglefullscreen, togglegaps, togglecanvas, focusmon, tagmon.
--     Directions    focusdir. Swapping: swapdir, swaptiled. Nearest: what their search finds.
--     Exchanging    what they leave in a tree.
--     Rules, Ruling applyrules and applybounds.
--     Dispatch      dispatch_action, keybinding, moveresize: from a binding of the configuration to
--                   the action that it names.
--     Mapping, Entering, Entered   mapnotify.
--     Unmapping, Leaving, Parting, Unmapped   unmapnotify.
--     Safe, Actions, Moves, Pressing, Keys, Steps   tag sets under all these actions, as a step relation.
--   Ext             the ext-workspace protocol, src/workspace.c and include/mono/workspace.h.
--     State         groups, workspaces, clients' resources and queued requests, and what is sent;
--                   workspace_send_group, clear_requests_by.
--     Groups        creation, outputs and destruction of groups. Workspaces: the same of workspaces,
--                   and set_group, set_name, set_coordinates, workspace_set_state.
--     Clients       bind, requests, commit, stop, and destroyed resources.
--     Live          when no reference dangles; Adding, Changing, Binding, Removing and Asking treat
--                   the operations, Steps puts them together as a step relation.
--     Teardown      what is left when the display goes away.
--     Delivery      the order of requests, outputs that enter twice, the bits of the state.
--   Config          the configuration, src/parser.c and include/mono/parser.h.
--     Lua           what the code asks of Lua, and its accessors: lua_get_string, lua_get_int and so on.
--     Types, Colors, Sections   the parts of a Config, and parse_color_hex, lua_get_color,
--                   parse_appearance, parse_animations, parse_input, parse_rules, parse_monitors,
--                   parse_autostart.
--     Bindings      parse_modifier, lua_get_mods, parse_command, parse_keybinds, parse_buttons and
--                   mono.bind (l_mono_bind). Combo: what mono.bind makes of a combo.
--     Load          config_load. Watch: watch_target and watch_dispatch.
--     Arrays, Printing, Errors, Input, Transaction, Bounds, Sizes, Following   theorems on these.
--   Status          what is told of an output: Collect has status_collect of src/main.c, Send the events of
--                   ipc_send_output_state (include/mono/ipc.h) and the lines of status_emit.
--   Glue            include/mono/ext.h and the bound outputs of include/mono/ipc.h: Desk has the state,
--                   creation and removal of an output's workspaces, and status_emit; Commit the requests
--                   of clients. Names and Sound treat the handles, Coming an output that comes and
--                   goes, Asked and Told what requests change and what clients see.
--   Msg             tools/monomsg/src/main.c: Parse has the arguments -t and -c, Edits and Bounds the
--                   masks made of them, and what set_client_tags of Wm/Ipc then does. Print has the events of an
--                   output and the requests at a frame, Relay, Relayed, Heard, Others and Leftover what
--                   comes of the events that Status/Send sends.
--   Seat            who has the keyboard, src/main.c.
--     Session       locksession, createlocksurface, destroylocksurface, destroylock.
--     Layers        arrangelayers, createlayersurface, commitlayersurfacenotify, whose first commit is
--                   commit_initial, unmaplayersurfacenotify, destroylayersurfacenotify.
--     Keyboard      keypress and keyrepeat. Outputs: updatemons, cleanupmon.
--     Guarded, Covered, Background, Plugged   what these keep of a locked session; Resting, Windows and
--                   Serving treat windows and the requests of clients, Silent keys, and Locked puts them together as a step relation.
--   Examples of Dwindle, Wm, Ext, Glue, Config, Msg and Seat, and Msg/Runs, apply the theorems to concrete data.
--
-- How the model corresponds to the code. A pointer to a window or an output is its id. A node of a
-- tree is a constructor, `leaf` or `node`, and a pointer to a node inside a tree is a place: the node
-- with the chain of its parents, as `parent` is followed upwards, each with its other child. Freeing
-- a node takes it out of this value. Each operation returns the new state; the `hint` of insertion
-- and removal is returned beside the root. split_ratio is 1.0 in every node and is not stored, so
-- (int)(size / 2.0f * split_ratio) is size / 2. The cursor, which has floating coordinates, is given
-- by its two comparisons with a pixel coordinate.
--
-- In Ext the manager is one value that holds all groups, workspaces, clients and resources. A list of
-- resources hangs off two heads in the code, that of the handle and that of the client: here there is
-- one list, and each of those is the part of it with that handle or that client. A resource whose user
-- data is NULL is one that is not in the list. Allocation does not fail.
--
-- A text that the compositor asks of a window, and the name and layout symbol of an output, are
-- functions of ids. A batch of dwl-ipc events is the list of them, and printing is a list of lines.
-- status_emit runs where the code asks for it; that printstatus() puts it off to an idle moment is not
-- kept.
--
-- In Seat, the area that a layer surface leaves, which wlroots computes, is a parameter, and so are
-- the boxes of the outputs in their layout and the keysyms of a key. The box of the whole layout,
-- which contains those of the outputs, is kept beside the box of locked_bg. The round of
-- arrangelayers over the surfaces that are not exclusive only moves scene nodes. A surface with the
-- keyboard that goes away is a step of its own, since wlroots then takes the keyboard from it.
--
-- In Config, Lua's values, the keysyms of libxkbcommon and the file system are interfaces: records of
-- the functions that the code calls. Texts are lists of bytes. A configuration file that runs is the
-- list of the calls of mono.bind that it makes, with whether it ends without an error, and the globals
-- that it leaves. A Lua state is a number. A field that the code leaves zero is written as zero. The
-- two variables `changed` and `replaced` of watch_dispatch, which are always equal, are one, and
-- watch_dispatch ends with whether it goes on to config_load.
--
-- The index that viewshift and tagshift compute does not overflow an int. The tag sets are masks of
-- the nine tags. The invariant on them asks of setmon that the tags given to it are below 2 ^ 9;
-- applyrules takes them from the rules of the configuration, where nothing masks them. Of windows'
-- geometry only the functions that decide by it are in the model, and take it as an argument.
--
-- Fuel: the sweep of the leaves takes one round for each leaf and one to see the end, since each
-- round passes or frees one leaf. Everything else is structural recursion.
--
-- Not modelled: the pointer's focus and its constraints, input devices, the set-up; scene nodes,
-- borders, damage and animations, which do not decide what is shown or tiled; the zoom, the panning
-- and the world coordinates of a canvas, which are floats (a canvas's membership is modelled); the
-- XWAYLAND build; popups, activation and other messages to wlroots; a window that is being moved or
-- resized with the pointer in settags(); windows that manage themselves, which only X11 has, in
-- mapnotify(); the signals of the workspace protocol to the compositor; the animations. Of
-- src/parser.c: memory that runs out other than in mono.bind, mono.action and the functions made by
-- it, mono.config and the builders that append to a section, the processes of autostart, and the
-- set-up of the watcher. Of monomsg: the switch over its options, the registry, and its Wayland
-- objects.
pub mod Base
pub mod Config
pub mod Dwindle
pub mod Ext
pub mod Glue
pub mod Msg
pub mod Seat
pub mod Status
pub mod Wm
