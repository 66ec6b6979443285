-- ===== src/Status/Small.antt =====
-- The masks of status_collect (src/main.c) stay within the nine tags.
use monowm.Base.{
  ℕ, ◌^◌, ◌<◌, ◌≡◌, ◌==◌, refl, inl, inr, Option, none, some, List, [], ◌∷◌, map, All, arith, or-lt,
  Bool-cases,
}
use monowm.Wm.State.{Client, Monitor, Server, opt_eq, focustop, tagcount, find_client}
use monowm.Wm.Tags.{client_at}
use monowm.Wm.Safe.{IsTagset, IsTagged}
use monowm.Wm.Closing.{found-tags}
use monowm.Status.Collect.{MonitorStatus, status_collect, collect, count_client, selected_tags}

collect-small :
    (m : Monitor) (cs : List Client) (st : MonitorStatus)
    → All IsTagset (map (λ (c : Client). c.tags) cs)
    → st.occupied < 2 ^ tagcount
    → st.urgent < 2 ^ tagcount
    → ((collect m cs st).occupied < 2 ^ tagcount)
      × ((collect m cs st).urgent < 2 ^ tagcount)
      × ((collect m cs st).selected ≡ st.selected)
unfolding collect count_client
collect-small m [] st h a b = (a, b, refl)
collect-small m (c ∷ cs) st h a b = elim (Bool-cases (opt_eq c.mon m.id)) [
  | inl e ↦
      rw (e, collect)
        (collect-small m cs (count_client c st) h.1 (or-lt tagcount st.occupied c.tags a h.0.1)
          (ground (arith, or-lt tagcount st.urgent c.tags b h.0.1)))
  | inr e ↦ rw (e, collect) (collect-small m cs st h.1 a b)
]

focused-small :
    (s : Server) (o : Option ℕ) → IsTagged s → selected_tags (client_at s o) < 2 ^ tagcount
focused-small s none h = omega arith
focused-small s (some k) h = go (find_client s k) refl
  where
    go : (o : Option Client) → find_client s k ≡ o → selected_tags o < 2 ^ tagcount
    go none e = omega arith
    go (some c) e = (found-tags s.clients (λ d. d.id == k) c e h.clients_tagged).1

pub status_collect-small :
    (s : Server) (m : Monitor)
    → IsTagged s
    → ((status_collect s m).occupied < 2 ^ tagcount)
      × ((status_collect s m).urgent < 2 ^ tagcount)
      × ((status_collect s m).selected < 2 ^ tagcount)
unfolding status_collect
status_collect-small s m h =
    let st : MonitorStatus = record {
      focused = focustop s (some m);
      selected = selected_tags (client_at s (focustop s (some m)));
      occupied = 0;
      urgent = 0;
      counts = λ t. 0;
    } in
    let (a, b, c) = collect-small m s.clients st h.clients_tagged (omega arith) (omega arith) in
    (a, b, rw c (focused-small s (focustop s (some m)) h))
