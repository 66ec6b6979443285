-- ===== src/Seat/Examples.antt =====
-- The session lock of src/main.c at work: a session with one window, locked and then left to itself.
use monowm.Base.{◌≡◌, refl, true, false, none, some, List, [], ◌∷◌, if◌then◌else◌, ◌==◌}
use monowm.Base.Int.{pos}
use monowm.Dwindle.Tree.{Box}
use monowm.Config.Bindings.{CfgKeybind, runs}
use monowm.Config.Lua.{bytes}
use monowm.Wm.Cases.{world}
use monowm.Wm.Examples.{server, monitor}
use monowm.Seat.Session.{LayerSurface, Session, locksession, createlocksurface, destroylock, is_set}
use monowm.Seat.Layers.{Scene, arrangelayers, createlayersurface, overlay}
use monowm.Seat.Keyboard.{VtKeys, KeyboardGroup, Key, handled, keypress, run_key}
use monowm.Seat.Guarded.{is_client, IsGuarded, locksession-IsGuarded}
use monowm.Seat.Outputs.{Outputs, updatemons, laid, plug}
use monowm.Wm.State.{Monitor}
use monowm.Seat.Locked.{
  presses, output_comes, Steps, stop, then_next, surface_comes, lock_vanishes, arranges,
  layer_comes, Steps-locked,
}

-- A bar takes 20 pixels from the top.
abbrev scene : Scene
scene = record {
  configure = λ k b. record b { y = pos 20; height = 1060 };
  wlr_box_equal = λ a b. false;
}

abbrev launcher : LayerSurface
launcher = record {
  id = 7;
  mapped = true;
  initialized = true;
  exclusive = true;
  interactive = true;
}

abbrev whole : Box
whole = record { x = pos 0; y = pos 0; width = 1920; height = 1080 }

abbrev open_session : Session
open_session = record {
  server = server;
  cur_lock = none;
  background = record { enabled = false; box = whole; layout = whole };
  mon_lock = λ m. none;
  layers = λ m i. [];
  area = λ m. whole;
  exclusive_focus = none;
}

abbrev at_lock : Session
at_lock = locksession 1 open_session

open_session-IsGuarded : IsGuarded open_session
open_session-IsGuarded = record { locks = λ p. p; covers = refl; no_client = λ p. refl }

at_lock-IsGuarded : IsGuarded at_lock
at_lock-IsGuarded = locksession-IsGuarded 1 open_session open_session-IsGuarded

abbrev terminals : VtKeys
terminals = record { first = 1000; last = 1011 }

abbrev keyboard : KeyboardGroup
keyboard = record { mods = 0; keysyms = []; timer = false }

-- The key 2, with a binding that would show another tag.
abbrev two : Key
two = record { mods = 64; syms = 50 ∷ []; base_syms = 50 ∷ []; pressed = true }

abbrev bindings : List CfgKeybind
bindings =
    record {
      mods = 64;
      key = 50;
      bound = runs (record { action = bytes "view"; args = bytes "2" ∷ [] });
    }
    ∷ []

-- Before the lock the binding runs.
bound : (keypress world bindings terminals true true two keyboard server).0 ≡ handled
unfolding keypress run_key
bound = refl

at_lock_locked : at_lock.server.locked ≡ true
unfolding locksession
at_lock_locked = refl

at_lock_box : at_lock.background.box ≡ at_lock.background.layout
unfolding locksession
at_lock_box = refl

-- The key is pressed, the lock covers the output, a launcher comes up over it, and the client of the
-- lock vanishes.
abbrev pressed : Session
pressed = record at_lock {
  server = (keypress world bindings terminals true true two keyboard at_lock.server).2;
}

abbrev launched : Session
launched =
    arrangelayers scene 1
      (createlayersurface (some 1) overlay launcher (createlocksurface 5 1 pressed))

lock_stays : is_set launched.cur_lock ≡ true
unfolding arrangelayers createlayersurface createlocksurface locksession keypress
lock_stays = refl

-- Then a second output comes, beside the first.
abbrev beside : Outputs
beside = record {
  box = λ k. if k == 1 then whole else record whole { x = pos 1920 };
  whole = record whole { width = 3840 };
  asleep = λ k. false;
}

abbrev second : Monitor
second = record monitor { id = 2 }

abbrev abandoned : Session
abandoned = updatemons scene beside (laid beside (plug second (destroylock false launched)))

abandoned-reached : Steps scene at_lock abandoned
abandoned-reached =
    then_next
      (then_next
        (then_next
          (then_next
            (then_next
              (then_next stop
                (presses world bindings terminals true true two keyboard at_lock_locked))
              (surface_comes 5 1))
            (layer_comes (some 1) overlay launcher))
          (arranges 1))
        (lock_vanishes lock_stays))
      (output_comes beside second)

Steps-locked_example :
    (abandoned.server.locked ≡ true)
    × (abandoned.background.enabled ≡ true)
    × (abandoned.background.box ≡ abandoned.background.layout)
    × (is_client abandoned.server.focused_surface ≡ false)
Steps-locked_example =
    Steps-locked scene at_lock abandoned abandoned-reached at_lock-IsGuarded at_lock_locked
      at_lock_box
