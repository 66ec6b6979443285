-- ===== src/Wm/Unmapping.antt =====
-- unmapnotify of src/main.c: a window leaves the lists, the trees and the drag. The window itself is
-- then no longer in the state, so its own fields, which setmon still writes, are not kept.
use monowm.Base.{ℕ, not, Option, none, some, keep, erase, ◌==◌, if◌then◌else◌}
use monowm.Wm.State.{Server, find_client, opt_eq, focustop, selected}
use monowm.Wm.Focus.{focusclient}
use monowm.Wm.Arrange.{arrange}
use monowm.Wm.Tags.{with_sel, dwindle_remove_client}

-- `c == grabc` with CurTileDrag.
abbrev pub drop_drag : ℕ → Server → Server
drop_drag k s = if opt_eq s.dragging k then record s { dragging = none } else s

abbrev pub unlist : ℕ → Server → Server
unlist k s = record s { clients = keep (λ c. not (c.id == k)) s.clients }

-- setmon(c, NULL, 0).
unfoldable pub leave_mon : Option ℕ → Server → Server
unfolding arrange focusclient focustop selected
leave_mon none s = s
leave_mon (some m) s =
    let cleared = arrange s m in focusclient cleared (focustop cleared (selected cleared))

unfoldable pub unmapnotify : Server → ℕ → Server
unfolding dwindle_remove_client leave_mon
unmapnotify s k = with_sel s (find_client s k) λ c.
    let left = leave_mon c.mon (dwindle_remove_client (unlist k (drop_drag k s)) k) in
    record left { fstack = erase k left.fstack }
