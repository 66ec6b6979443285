-- ===== src/Glue/Commit.antt =====
-- handle_ext_commit of include/mono/ext.h: what clients of ext-workspace ask of the tags.
use monowm.Base.{
  ℕ, Bool, false, Option, none, some, List, [], ◌∷◌, ◌==◌, if◌then◌else◌, find_by, shares,
}
use monowm.Ext.State.{Request, create_workspace, activate, deactivate, assign, remove}
use monowm.Wm.State.{Server, Monitor, tagset, find_mon}
use monowm.Wm.Tags.{view, toggleview}
use monowm.Glue.Desk.{ExtWorkspace, tag_bit}

unfoldable pub find_handle : List ExtWorkspace → Option ℕ → Option ExtWorkspace
find_handle ws none = none
find_handle ws (some h) = find_by (λ w. w.handle == h) ws

abbrev pub select : ℕ → Server → Server
select m s = record s { selmon = some m }

unfoldable pub activate_at : Option ExtWorkspace → Server → Server
unfolding view
activate_at none s = s
activate_at (some w) s = view (select w.m s) (tag_bit w.tag)

-- Whether the output of a workspace shows its tag.
abbrev pub is_shown : Option Monitor → ℕ → Bool
is_shown none tag = false
is_shown (some m) tag = shares (tagset m) (tag_bit tag)

unfoldable pub deactivate_at : Option ExtWorkspace → Server → Server
unfolding toggleview
deactivate_at none s = s
deactivate_at (some w) s =
    if is_shown (find_mon s w.m) w.tag then toggleview (select w.m s) (tag_bit w.tag) else s

unfoldable pub handle_request : List ExtWorkspace → Request → Server → Server
unfolding find_handle activate_at deactivate_at
handle_request ws (activate h) s = activate_at (find_handle ws h) s
handle_request ws (deactivate h) s = deactivate_at (find_handle ws h) s
handle_request ws (create_workspace g t) s = s
handle_request ws (assign g h) s = s
handle_request ws (remove h) s = s

unfoldable pub handle_ext_commit : List ExtWorkspace → List Request → Server → Server
unfolding handle_request
handle_ext_commit ws [] s = s
handle_ext_commit ws (r ∷ rs) s = handle_ext_commit ws rs (handle_request ws r s)
