-- ===== src/Config/Examples.antt =====
-- The theorems on src/parser.c at the sample.
use monowm.Base.{
  ℕ, ◌≡◌, ◌<◌, refl, true, false, some, List, [], ◌∷◌, ◌++◌, arith, length, pos, none,
}
use monowm.Config.Lua.{bytes, copied, max_strlen}
use monowm.Config.Sections.{parse_rules, parse_input_table}
use monowm.Config.Bindings.{BindCall, l_mono_bind, returned, raised, calls, or_mods}
use monowm.Config.Printing.{join, l_mono_bind-join}
use monowm.Config.Errors.{Outcome, l_mono_bind-Outcome}
use monowm.Config.Input.{is_choice, scroll_words, clean_input, parse_input_table-clean}
use monowm.Config.Load.{config_load, read_config}
use monowm.Config.Transaction.{atomic, bound_by, config_load-atomic}
use monowm.Config.Sizes.{IsBounded, config_load-IsBounded, read_config-IsBounded}
use monowm.Config.Watch.{name_size, Files, Event, WatchState, watch_dispatch, after_slash}
use monowm.Config.Following.{watch_dispatch-follows}
use monowm.Config.Colors.{color_word}
use monowm.Config.Sample.{input, sample, keys, store}

one_rule : length (parse_rules sample) ≡ 1
unfolding parse_rules
one_rule = refl

abbrev names : List (List ℕ)
names = bytes "logo" ∷ bytes "shift" ∷ []

abbrev key : List ℕ
key = bytes "q"

-- The text that join prints.
printed : join (names ++ key ∷ []) ≡ bytes "logo+shift+q"
unfolding join
printed = refl

printed_short : length (join (names ++ key ∷ [])) < max_strlen
unfolding join
printed_short = omega arith

names_known : or_mods keys names 0 ≡ some 65
unfolding or_mods
names_known = refl

l_mono_bind-join_example :
    l_mono_bind keys
      (record { combo = some (join (names ++ key ∷ [])); callback = some 5; allocates = true })
      []
    ≡ (returned, record { mods = 65; key = 0x71; bound = calls 5 } ∷ [])
l_mono_bind-join_example =
    l_mono_bind-join keys names key 5 65 [] ((refl, refl), ((refl, refl), ((refl, refl), tt)))
      printed_short (omega arith) names_known (omega arith)

-- A combo whose modifier is unknown.
abbrev hyper : BindCall
hyper = record { combo = some (bytes "hyper+q"); callback = some 5; allocates = true }

unknown : l_mono_bind keys hyper [] ≡ (raised, [])
unfolding l_mono_bind
unknown = refl

l_mono_bind-Outcome_example : Outcome keys hyper [] (l_mono_bind keys hyper [])
l_mono_bind-Outcome_example = l_mono_bind-Outcome keys hyper []

edge_known : is_choice sample input "scroll_method" scroll_words ≡ true
unfolding copied
edge_known = refl

parse_input_table-clean_example : parse_input_table sample input ≡ clean_input sample input
parse_input_table-clean_example =
    parse_input_table-clean sample input
      (record { scroll = edge_known; accel = refl; click = refl; send = refl; tap = refl })

abbrev binds : List BindCall
binds =
    record { combo = some (bytes "logo+q"); callback = some 3; allocates = true }
    ∷ hyper
    ∷ record { combo = none; callback = none; allocates = true }
    ∷ []

config_load-atomic_example :
    config_load keys sample (some 2) binds true store
    ≡ atomic (read_config keys sample (bound_by keys sample binds [])) (some 2) true store
config_load-atomic_example = config_load-atomic keys sample (some 2) binds true store refl

config_load-IsBounded_example : IsBounded (config_load keys sample (some 2) binds true store).1.out
config_load-IsBounded_example =
    config_load-IsBounded keys sample (some 2) binds true store refl
      (read_config-IsBounded keys sample [] (omega arith, tt))

-- The link is replaced, and the new target is written.
abbrev files : Files
files = record {
  is_link = λ path. true;
  realpath = λ path. some (bytes "/etc/mono.lua");
  add_watch = λ path. pos 7;
}

abbrev watch : WatchState
watch = record {
  dir_wd = pos 1;
  target_wd = pos 2;
  target_name = bytes "old.lua";
  path = bytes "/home/config.lua";
  name = bytes "config.lua";
  removed = [];
}

abbrev replaced : Event
replaced = record { wd = pos 1; ignored = false; create = true; name = some (bytes "config.lua") }

abbrev saved : Event
saved = record { wd = pos 7; ignored = false; create = false; name = some (bytes "mono.lua") }

replaced_reloads : (watch_dispatch files (some (replaced ∷ [])) watch).1 ≡ true
unfolding watch_dispatch
replaced_reloads = refl

target_short : length (after_slash (bytes "/etc/mono.lua")) < name_size
unfolding after_slash
target_short = omega arith

saved_named : saved.name ≡ some (after_slash (bytes "/etc/mono.lua"))
unfolding after_slash
saved_named = refl

watch_dispatch-follows_example :
    (watch_dispatch files
      (some (saved ∷ []))
      (watch_dispatch files (some (replaced ∷ [])) watch).0).1
    ≡ true
watch_dispatch-follows_example =
    watch_dispatch-follows files (bytes "/etc/mono.lua") watch (replaced ∷ []) [] [] saved
      replaced_reloads refl refl target_short refl refl refl saved_named tt

-- Six digits are opaque.
opaque : color_word (bytes "#22aa22") ≡ 0x22aa22ff
unfolding color_word
opaque = refl
