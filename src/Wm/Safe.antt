-- ===== src/Wm/Safe.antt =====
-- When the tag sets of src/main.c are sound, and tag sets under focusing and arranging.
use monowm.Base.{ℕ, ◌^◌, ◌<◌, ◌≡◌, refl, ◌∙◌, Option, List, map, arith, All}
use monowm.Wm.State.{Client, Monitor, Server, find_mon, focustop, tagcount}
use monowm.Wm.Focus.{focusclient}
use monowm.Wm.Arrange.{arrange, canvas_leave, enter_canvas}
use monowm.Wm.Tags.{refocus}
use monowm.Wm.Kept.{focusclient-each, arrange-each}
use monowm.Wm.Views.{View, views, refocus-views}

-- Some tag, and no bit that is no tag.
abbrev pub IsTagset : ℕ → Type 0
IsTagset t = (0 < t) × (t < 2 ^ tagcount)

abbrev pub IsView : View → Type 0
IsView v = IsTagset v.tagset0 × IsTagset v.tagset1

abbrev pub client_tags : Server → List ℕ
client_tags s = map (λ (c : Client). c.tags) s.clients

-- Every tag set of a monitor and of a window is one.
pub record Tagged (vs : List View) (ts : List ℕ) : Type 0 where
  pub mons_tagged : All IsView vs
  pub clients_tagged : All IsTagset ts

abbrev pub IsTagged : Server → Type 0
IsTagged s = Tagged (views s) (client_tags s)

pub focusclient-tags : (s : Server) (k : Option ℕ) → client_tags (focusclient s k) ≡ client_tags s
focusclient-tags = focusclient-each (λ c. c.tags) (λ c. refl)

pub canvas_leave-tags : (c : Client) → (canvas_leave c).tags ≡ c.tags
unfolding canvas_leave
canvas_leave-tags c = ground arith

enter_canvas-tags : (m : Monitor) (c : Client) → (enter_canvas m c).tags ≡ c.tags
unfolding enter_canvas
enter_canvas-tags m c = ground arith

pub arrange-tags : (s : Server) (k : ℕ) → client_tags (arrange s k) ≡ client_tags s
arrange-tags = arrange-each (λ c. c.tags) canvas_leave-tags enter_canvas-tags

refocus-tags : (s : Server) (k : ℕ) → client_tags (refocus s k) ≡ client_tags s
unfolding refocus
refocus-tags s k =
    arrange-tags (focusclient s (focustop s (find_mon s k))) k
    ∙ focusclient-tags s (focustop s (find_mon s k))

-- Focusing and arranging change no tag set.
pub refocus-IsTagged : (s : Server) (k : ℕ) → IsTagged s → IsTagged (refocus s k)
refocus-IsTagged s k h = rw (refocus-views s k, refocus-tags s k) h
