-- ===== src/Config/Lua.antt =====
-- What src/parser.c asks of Lua, and its accessors of a table's fields. Values are Lua's own and
-- stand behind an interface: the functions of lua.h that the code calls, at a value instead of a
-- stack index. `text` is lua_tostring up to the first zero byte; `rounded` is round(lua_tonumber),
-- `none` for what is no finite number; `is_text` is lua_type(...) == LUA_TSTRING. Doubles and floats
-- are of unknown types: `literal a k` and `float a k` are the constants a / 10 ^ k, and `per_255 a` is
-- a / 255.0f.
use Prim.Native.Char.{code}
use Prim.Native.String.{String}
use monowm.Base.{
  ℕ, zero, suc, take, ◌-◌, ◌^◌, Bool, true, false, Option, none, some, List, [], ◌∷◌, map, ◌==◌,
  ◌&&◌, if◌then◌else◌, ℤ, pos, negsuc, leb_ℤ,
}

pub record Lua : Type 1 where
  pub Value : Type 0
  pub Double : Type 0
  pub Float : Type 0
  pub global : String → Value
  pub field : Value → String → Value
  pub entry : Value → ℕ → Value
  pub rawlen : Value → ℕ
  pub is_table : Value → Bool
  pub is_string : Value → Bool
  pub is_number : Value → Bool
  pub is_boolean : Value → Bool
  pub to_boolean : Value → Bool
  pub text : Value → List ℕ
  pub is_integer : Value → Bool
  pub to_integer : Value → ℤ
  pub is_text : Value → Bool
  pub rounded : Value → Option ℤ
  pub double : Value → Double
  pub literal : ℕ → ℕ → Double
  pub is_positive : Double → Bool
  pub float : ℕ → ℕ → Float
  pub per_255 : ℕ → Float
  pub narrow : Double → Float
  pub times : Float → Float → Float

-- The bytes of an ASCII text.
abbrev pub bytes : String → List ℕ
bytes String.[] = []
bytes (String.◌∷◌ c s) = code c ∷ bytes s

-- strcmp(a, b) == 0.
abbrev pub same_bytes : List ℕ → List ℕ → Bool
same_bytes [] [] = true
same_bytes (x ∷ xs) (y ∷ ys) = let rest = same_bytes xs ys in x == y && rest
same_bytes _ _ = false

abbrev pub is_empty : List ℕ → Bool
is_empty [] = true
is_empty (x ∷ xs) = false

abbrev pub max_strlen : ℕ
max_strlen = 256

-- strncpy(buf, s, bufsz - 1) into a buffer whose last byte is zero.
unfoldable pub copied : ℕ → List ℕ → List ℕ
copied bufsz s = take (bufsz - 1) s

-- From a value on, the numbers 1 to n.
abbrev pub from_one : ℕ → ℕ → List ℕ
from_one zero i = []
from_one (suc n) i = i ∷ from_one n (suc i)

abbrev pub int_max : ℕ
int_max = 2 ^ 31 - 1

-- n >= INT_MIN && n <= INT_MAX.
abbrev pub is_int : ℤ → Bool
is_int n = leb_ℤ (negsuc int_max) n && leb_ℤ n (pos int_max)

abbrev pub int_or : Option ℤ → ℤ → ℤ
int_or none def = def
int_or (some n) def = if is_int n then n else def

module _ (L : Lua) where
  -- The string in a field, or the buffer's old text.
  unfoldable pub lua_get_string : L.Value → String → ℕ → List ℕ → List ℕ
  unfolding copied
  lua_get_string t key bufsz old =
      if L.is_string (L.field t key) then copied bufsz (L.text (L.field t key)) else old

  unfoldable pub lua_get_int : L.Value → String → ℤ → ℤ
  lua_get_int t key def =
      let v = L.field t key in if L.is_number v then int_or (L.rounded v) def else def

  abbrev pub nonneg_or : ℤ → ℕ → ℕ
  nonneg_or (pos n) def = n
  nonneg_or (negsuc n) def = def

  unfoldable pub lua_get_size : L.Value → String → ℕ → ℕ
  unfolding lua_get_int
  lua_get_size t key def = nonneg_or (lua_get_int t key (pos def)) def

  unfoldable pub lua_get_double : L.Value → String → L.Double → L.Double
  lua_get_double t key def = let v = L.field t key in if L.is_number v then L.double v else def

  unfoldable pub lua_get_bool : L.Value → String → Bool → Bool
  lua_get_bool t key def = let v = L.field t key in if L.is_boolean v then L.to_boolean v else def

  -- The values of a sequence, in the order of the loops over it.
  unfoldable pub entries : L.Value → List L.Value
  entries t = map (L.entry t) (from_one (L.rawlen t) 1)
