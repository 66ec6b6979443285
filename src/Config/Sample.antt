-- ===== src/Config/Sample.antt =====
-- A small Lua state, a keymap and a store, for the runs of src/parser.c.
use Prim.Native.String.{String}
use monowm.Base.{
  ℕ, pos, ◌*◌, ◌/◌, ◌==◌, Bool, true, false, none, some, List, [], if◌then◌else◌, ltb,
}
use monowm.Config.Lua.{Lua, bytes, same_bytes}
use monowm.Config.Bindings.{Keys}
use monowm.Config.Load.{Store, read_config}

-- Two rules of which one is no table, and an input table with a text option.
pub data Sample : Type 0 where
  nothing : Sample
  word : List ℕ → Sample
  rules rule input : Sample

abbrev is_name : String → String → Bool
is_name a b = same_bytes (bytes a) (bytes b)

abbrev sample_global : String → Sample
sample_global name =
    if is_name name "rules" then rules else if is_name name "input" then input else nothing

abbrev sample_field : Sample → String → Sample
sample_field rule name = if is_name name "app_id" then word (bytes "foot") else nothing
sample_field input name = if is_name name "scroll_method" then word (bytes "edge") else nothing
sample_field _ name = nothing

abbrev sample_entry : Sample → ℕ → Sample
sample_entry rules i = if i == 1 then rule else word (bytes "x")
sample_entry _ i = nothing

abbrev sample_len : Sample → ℕ
sample_len rules = 2
sample_len _ = 0

abbrev sample_is_table : Sample → Bool
sample_is_table nothing = false
sample_is_table (word s) = false
sample_is_table _ = true

abbrev sample_is_string : Sample → Bool
sample_is_string (word s) = true
sample_is_string _ = false

abbrev sample_text : Sample → List ℕ
sample_text (word s) = s
sample_text _ = []

abbrev pub sample : Lua
sample = record {
  Value = Sample;
  Double = ℕ;
  Float = ℕ;
  global = sample_global;
  field = sample_field;
  entry = sample_entry;
  rawlen = sample_len;
  is_table = sample_is_table;
  is_string = sample_is_string;
  is_number = λ v. false;
  is_boolean = λ v. false;
  to_boolean = λ v. false;
  text = sample_text;
  rounded = λ v. none;
  double = λ v. 0;
  literal = λ a b. a;
  is_integer = λ v. false;
  to_integer = λ v. pos 0;
  is_text = sample_is_string;
  is_positive = λ a. ltb 0 a;
  float = λ a b. a;
  per_255 = λ a. a;
  narrow = λ a. a;
  times = λ a b. a * b / 255;
}

abbrev pub keys : Keys
keys = record {
  shift = 1;
  ctrl = 4;
  alt = 8;
  logo = 64;
  mod2 = 16;
  mod3 = 32;
  mod5 = 128;
  btn_left = 0x110;
  btn_right = 0x111;
  btn_middle = 0x112;
  keysym = λ name. if same_bytes name (bytes "q") then 0x71 else 0;
  atoi = λ name. 0;
}

abbrev pub store : Store ℕ ℕ
store = record { out = read_config keys sample []; current = some 1; loading = none; closed = [] }
