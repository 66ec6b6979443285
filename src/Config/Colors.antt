-- ===== src/Config/Colors.antt =====
-- Colours in src/parser.c: parse_color_hex and lua_get_color. The operations on floats are those of
-- the interface.
use Prim.Native.String.{String}
use monowm.Base.{
  ℕ, ◌+◌, ◌-◌, ◌*◌, ◌/◌, ◌%◌, ◌^◌, Bool, true, false, ◌&&◌, ◌||◌, List, [], ◌∷◌, length, ◌==◌, leb,
  if◌then◌else◌, bit_or, ℤ, pos, negsuc,
}
use monowm.Config.Lua.{Lua}
use monowm.Config.Types.{Color}

abbrev pub is_hex : ℕ → Bool
is_hex c = (leb b'0' c && leb c b'9') || (leb b'a' c && leb c b'f') || (leb b'A' c && leb c b'F')

-- strspn(s, "0123456789abcdefABCDEF") == strlen(s).
abbrev pub all_hex : List ℕ → Bool
all_hex [] = true
all_hex (c ∷ s) = is_hex c && all_hex s

abbrev pub hex_digit : ℕ → ℕ
hex_digit c = if leb c b'9' then c - b'0' else if leb b'a' c then c - b'a' + 10 else c - b'A' + 10

-- strtoul(s, NULL, 16) of at most eight hexadecimal digits.
unfoldable pub hex_from : ℕ → List ℕ → ℕ
hex_from v [] = v
hex_from v (c ∷ s) = hex_from (v * 16 + hex_digit c) s

-- The text after a number sign, if it is a colour.
abbrev pub is_color_text : List ℕ → Bool
is_color_text [] = false
is_color_text (c ∷ s) = c == b'#' && (length s == 6 || length s == 8) && all_hex s

unfoldable pub color_word : List ℕ → ℕ
unfolding hex_from
color_word [] = 0
color_word (c ∷ s) =
    let v = hex_from 0 s in if length s == 6 then bit_or (v * 2 ^ 8 % 2 ^ 32) 0xff else v

-- 0 <= n && n <= 0xFFFFFFFF.
abbrev pub is_color_number : ℤ → Bool
is_color_number (pos n) = leb n 0xffffffff
is_color_number (negsuc n) = false

abbrev pub number_word : ℤ → ℕ
number_word (pos n) = n % 2 ^ 32
number_word (negsuc n) = 0

module _ (L : Lua) where
  -- The channels, times alpha.
  unfoldable pub parse_color_hex : ℕ → Color L.Float
  parse_color_hex hex =
      let alpha = L.per_255 (hex % 256) in
      record {
        red = L.times (L.per_255 (hex / 2 ^ 24 % 256)) alpha;
        green = L.times (L.per_255 (hex / 2 ^ 16 % 256)) alpha;
        blue = L.times (L.per_255 (hex / 2 ^ 8 % 256)) alpha;
        alpha = alpha;
      }

  unfoldable pub lua_get_color : L.Value → String → Color L.Float → Color L.Float
  unfolding parse_color_hex color_word
  lua_get_color t key def =
      let v = L.field t key in
      if L.is_integer v && is_color_number (L.to_integer v)
      then parse_color_hex (number_word (L.to_integer v))
      else if L.is_text v && is_color_text (L.text v)
      then parse_color_hex (color_word (L.text v))
      else def

  -- A colour of three equal channels, and one of red alone.
  abbrev pub gray : L.Float → L.Float → Color L.Float
  gray c a = record { red = c; green = c; blue = c; alpha = a }

  abbrev pub red_only : L.Float → L.Float → L.Float → Color L.Float
  red_only r zero a = record { red = r; green = zero; blue = zero; alpha = a }
