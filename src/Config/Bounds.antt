-- ===== src/Config/Bounds.antt =====
-- The sizes of what src/parser.c reads.
use Prim.Native.String.{String}
use monowm.Base.{
  ℕ, ◌-◌, ◌^◌, ◌≤◌, ◌<◌, inl, inr, Bool, true, false, Option, none, some, List, [], ◌∷◌,
  if◌then◌else◌, length, length-append, length-take_le, All, All-append, arith, Bool-cases, leb, ℤ,
  pos, negsuc,
}
use monowm.Config.Lua.{Lua, copied, max_strlen, lua_get_string}
use monowm.Config.Sections.{
  fill_array, add_one, if_table, rule_of, monitor_of, or_dwindle, command_text, parse_rules,
  parse_monitors, parse_autostart,
}
use monowm.Config.Types.{
  CfgRule, CfgMonitorRule, max_rules, max_monitors, max_autostart, max_autostart_cmd, as_word,
}

-- A text fits a buffer of a size, its zero byte included.
abbrev pub Fits : ℕ → List ℕ → Type 0
Fits size s = length s < size

-- An array of a size, with a property of what it holds.
abbrev pub Holds : {A : Type 0} → ℕ → (A → Type 0) → List A → Type 0
Holds size P xs = (length xs ≤ size) × All P xs

abbrev pub RuleFits : CfgRule → Type 0
RuleFits r = Fits max_strlen r.app_id × Fits max_strlen r.title × (r.tags < 2 ^ 32)

abbrev pub MonitorFits : {D : Type 0} → CfgMonitorRule D → Type 0
MonitorFits r = Fits max_strlen r.name × Fits max_strlen r.layout

-- A property of the value, where there is one.
abbrev pub Each : {A : Type 0} → (A → Type 0) → Option A → Type 0
Each P none = Unit {0}
Each P (some a) = P a

pub if-holds :
    {A : Type 0} (P : A → Type 0) (b : Bool) (x y : A) → P x → P y → P (if b then x else y)
if-holds P true x y h k = h
if-holds P false x y h k = k

pub copied-Fits : (size : ℕ) (s : List ℕ) → 0 < size → Fits size (copied size s)
unfolding copied
copied-Fits size s h = omega (arith, length-take_le (size - 1) s)

length-add_one_le :
    {A : Type 0} (size : ℕ) (o : Option A) (xs : List A)
    → length xs < size
    → length (add_one o xs) ≤ size
length-add_one_le size none xs h = omega arith
length-add_one_le size (some x) xs h = omega (arith, length-append xs (x ∷ []))

add_one-All :
    {A : Type 0} (P : A → Type 0) (o : Option A) (xs : List A)
    → Each P o
    → All P xs
    → All P (add_one o xs)
add_one-All P none xs good h = h
add_one-All P (some x) xs good h = All-append P xs (x ∷ []) h (good, tt)

pub as_word-lt : (n : ℤ) → as_word n < 2 ^ 32
as_word-lt (pos n) = omega arith
as_word-lt (negsuc n) = omega arith

or_dwindle-Fits : (s : List ℕ) → Fits max_strlen s → Fits max_strlen (or_dwindle s)
or_dwindle-Fits [] h = omega arith
or_dwindle-Fits (c ∷ s) h = h

module _ (L : Lua) where
  lua_get_string-Fits :
      (t : L.Value) (key : _) (size : ℕ) (old : List ℕ)
      → 0 < size
      → Fits size old
      → Fits size (lua_get_string L t key size old)
  unfolding lua_get_string
  lua_get_string-Fits t key size old h fits =
      ground (arith, copied-Fits size (L.text (L.field t key)))

  module _ {A : Type 0} (size : ℕ) (read : L.Value → Option A) where
    pub length-fill_array_le :
        (vs : List L.Value) (xs : List A)
        → length xs ≤ size
        → length (fill_array L size read vs xs) ≤ size
    unfolding fill_array
    length-fill_array_le [] xs h = h
    length-fill_array_le (v ∷ vs) xs h = elim (Bool-cases (leb size (length xs))) [
      | inl e ↦ rw e h
      | inr e ↦ rw e (
          length-fill_array_le vs (add_one (read v) xs)
            (length-add_one_le size (read v) xs (ground arith)))
    ]

    -- A property of all that `read` gives.
    pub fill_array-All :
        (P : A → Type 0)
        → ((v : L.Value) → Each P (read v))
        → (vs : List L.Value) (xs : List A) → All P xs
        → All P (fill_array L size read vs xs)
    unfolding fill_array
    fill_array-All P good [] xs h = h
    fill_array-All P good (v ∷ vs) xs h = elim (Bool-cases (leb size (length xs))) [
      | inl e ↦ rw e h
      | inr e ↦
          rw e
            (fill_array-All P good vs (add_one (read v) xs) (add_one-All P (read v) xs (good v) h))
    ]

  -- What is read from the tables of a list.
  if_table-All :
      {A : Type 0} (P : A → Type 0) (size : ℕ) (read : L.Value → A)
      → ((v : L.Value) → P (read v))
      → (vs : List L.Value) → All P (fill_array L size (if_table L read) vs [])
  if_table-All P size read good vs =
      fill_array-All size (if_table L read) P
        (λ v. if-holds (Each P) (L.is_table v) (some (read v)) none (good v) tt) vs [] tt

  pub text_of :
      (t : L.Value) (key : String) → Fits max_strlen (lua_get_string L t key max_strlen [])
  text_of t key = lua_get_string-Fits t key max_strlen [] (omega arith) (omega arith)

  rule_of-RuleFits : (t : L.Value) → RuleFits (rule_of L t)
  rule_of-RuleFits t = (text_of t "app_id", text_of t "title", as_word-lt _)

  monitor_of-MonitorFits : (t : L.Value) → MonitorFits (monitor_of L t)
  monitor_of-MonitorFits t = (text_of t "name", or_dwindle-Fits _ (text_of t "layout"))

  command_text-Fits : (v : L.Value) → Each (Fits max_autostart_cmd) (command_text L v)
  command_text-Fits v =
      if-holds (Each (Fits max_autostart_cmd)) (L.is_string v) (some _) none
        (copied-Fits max_autostart_cmd (L.text v) (omega arith)) tt

  pub parse_rules-Holds : Holds max_rules RuleFits (parse_rules L)
  unfolding parse_rules
  parse_rules-Holds = elim (Bool-cases (L.is_table (L.global "rules"))) [
    | inl e ↦ rw e (
      length-fill_array_le max_rules (if_table L (rule_of L)) _ [] (omega arith),
      if_table-All RuleFits max_rules (rule_of L) rule_of-RuleFits _,
    )
    | inr e ↦ rw e (omega arith, tt)
  ]

  pub parse_monitors-Holds : Holds max_monitors MonitorFits (parse_monitors L)
  unfolding parse_monitors
  parse_monitors-Holds = elim (Bool-cases (L.is_table (L.global "monitors"))) [
    | inl e ↦ rw e (
      length-fill_array_le max_monitors (if_table L (monitor_of L)) _ [] (omega arith),
      if_table-All MonitorFits max_monitors (monitor_of L) monitor_of-MonitorFits _,
    )
    | inr e ↦ rw e (omega arith, ((omega arith, omega arith), tt))
  ]

  pub parse_autostart-Holds : Holds max_autostart (Fits max_autostart_cmd) (parse_autostart L)
  unfolding parse_autostart
  parse_autostart-Holds = elim (Bool-cases (L.is_table (L.global "autostart"))) [
    | inl e ↦ rw e (
      length-fill_array_le max_autostart (command_text L) _ [] (omega arith),
      fill_array-All max_autostart (command_text L) (Fits max_autostart_cmd) command_text-Fits _ []
          tt,
    )
    | inr e ↦ rw e (omega arith, tt)
  ]
