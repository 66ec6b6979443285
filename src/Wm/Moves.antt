-- ===== src/Wm/Moves.antt =====
-- Tag sets under setfloating, setfullscreen and setmon of src/main.c.
use monowm.Base.{
  ℕ, ◌^◌, ◌<◌, ◌≡◌, refl, inl, inr, Bool, Option, none, some, ◌==◌, if◌then◌else◌, arith,
  Bool-cases,
}
use monowm.Wm.State.{
  Client, Monitor, Server, tagset, find_client, selected, update_client, focustop, tagcount,
}
use monowm.Wm.Focus.{focusclient}
use monowm.Wm.Arrange.{canvas_leave}
use monowm.Wm.Windows.{
  arrange_of, arranges, mon_of, same_mon, setfloating, setfullscreen, enter_mon, setmon, setmon_of,
  redo_floating, redo_fullscreen, give_tags,
}
use monowm.Wm.Views.{focusclient-views}
use monowm.Wm.Safe.{IsTagset, IsTagged, focusclient-tags, canvas_leave-tags}
use monowm.Wm.Actions.{
  update_client-IsTagged, with_sel-IsTagged, arrange-IsTagged, find_mon-IsTagset,
}

arrange_of-IsTagged : (o : Option ℕ) (s : Server) → IsTagged s → IsTagged (arrange_of o s)
arrange_of-IsTagged none s h = h
arrange_of-IsTagged (some k) s h = arrange-IsTagged s k h

pub setfloating-IsTagged :
    (s : Server) (k : ℕ) (b : Bool) → IsTagged s → IsTagged (setfloating s k b)
unfolding setfloating
setfloating-IsTagged s k b h =
    with_sel-IsTagged s (find_client s k) _
      (λ c.
        arrange_of-IsTagged (arranges (mon_of s c.mon) c.mon) _
          (update_client-IsTagged k (λ d. record d { isfloating = b }) s (λ d p. p) h))
      h

pub setfullscreen-IsTagged :
    (s : Server) (k : ℕ) (b : Bool) → IsTagged s → IsTagged (setfullscreen s k b)
unfolding setfullscreen
setfullscreen-IsTagged s k b h =
    with_sel-IsTagged s (find_client s k) _
      (λ c.
        arrange_of-IsTagged c.mon _
          (update_client-IsTagged k (λ d. record d { isfullscreen = b }) s (λ d p. p) h))
      h

pub redo_floating-IsTagged : (s : Server) (k : ℕ) → IsTagged s → IsTagged (redo_floating k s)
redo_floating-IsTagged s k h =
    with_sel-IsTagged s (find_client s k) _ (λ c. setfloating-IsTagged s k c.isfloating h) h

pub redo_fullscreen-IsTagged : (s : Server) (k : ℕ) → IsTagged s → IsTagged (redo_fullscreen k s)
redo_fullscreen-IsTagged s k h =
    with_sel-IsTagged s (find_client s k) _ (λ c. setfullscreen-IsTagged s k c.isfullscreen h) h

pub give_tags-IsTagged :
    (s : Server) (k t : ℕ) (m : Monitor)
    → t < 2 ^ tagcount
    → IsTagset (tagset m)
    → IsTagged s
    → IsTagged (give_tags k t m s)
give_tags-IsTagged s k t m l shown h =
    update_client-IsTagged k (λ d. record d { tags = if t == 0 then tagset m else t }) s
      (λ d p. ground (arith, shown)) h

enter_mon-IsTagged :
    (s : Server) (k : ℕ) (o : Option Monitor) (t : ℕ)
    → t < 2 ^ tagcount
    → ((m : Monitor) → o ≡ some m → IsTagset (tagset m))
    → IsTagged s
    → IsTagged (enter_mon s k o t)
unfolding enter_mon
enter_mon-IsTagged s k none t l shown h = h
enter_mon-IsTagged s k (some m) t l shown h =
    redo_floating-IsTagged _ k (
      redo_fullscreen-IsTagged (give_tags k t m s) k
        (give_tags-IsTagged s k t m l (shown m refl) h))

pub focusclient-IsTagged : (s : Server) (k : Option ℕ) → IsTagged s → IsTagged (focusclient s k)
focusclient-IsTagged s k h = rw (focusclient-views s k, focusclient-tags s k) h

mon_of-IsTagset :
    (s : Server) (o : Option ℕ) (m : Monitor)
    → mon_of s o ≡ some m
    → IsTagged s
    → IsTagset (tagset m)
mon_of-IsTagset s none m e h = absurd cc
mon_of-IsTagset s (some k) m e h = find_mon-IsTagset s k m e h

setmon_of-IsTagged :
    (s : Server) (c : Client) (m : Option ℕ) (t : ℕ)
    → t < 2 ^ tagcount
    → IsTagged s
    → IsTagged (setmon_of s c m t)
unfolding setmon_of
setmon_of-IsTagged s c m t l h =
    let moved = update_client c.id (λ d. record (canvas_leave d) { mon = m }) s in
    let cleared = arrange_of c.mon moved in
    let placed = enter_mon cleared c.id (mon_of cleared m) t in
    let here : IsTagged cleared = arrange_of-IsTagged c.mon moved (
      update_client-IsTagged c.id (λ d. record (canvas_leave d) { mon = m }) s
        (λ d p. rw (canvas_leave-tags d) p) h) in
    let there : IsTagged placed =
      enter_mon-IsTagged cleared c.id (mon_of cleared m) t l
        (λ n e. mon_of-IsTagset cleared m n e here) here in
    elim (Bool-cases (same_mon c.mon m)) [
      | inl e ↦ rw e h
      | inr e ↦ rw e (focusclient-IsTagged placed (focustop placed (selected placed)) there)
    ]

pub setmon-IsTagged :
    (s : Server) (k : ℕ) (m : Option ℕ) (t : ℕ)
    → t < 2 ^ tagcount
    → IsTagged s
    → IsTagged (setmon s k m t)
unfolding setmon
setmon-IsTagged s k m t l h =
    with_sel-IsTagged s (find_client s k) _ (λ c. setmon_of-IsTagged s c m t l h) h
