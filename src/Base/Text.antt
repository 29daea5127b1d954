-- ===== src/Base/Text.antt =====
-- Texts as lists of code points, and the functions of `str` that the source uses.
use Prim.Native.Nat.{ℕ, suc, ◌+◌, ◌-◌}
use Prim.Native.Char.{code}
use Prim.Native.String.{String}
use mathlib.Core.Bool.{Bool, true, false, ◌&&◌, ◌||◌}
use mathlib.Core.Option
use mathlib.Core.Option.{Option, none, some}
use mathlib.Core.List.{List, [], ◌∷◌, ◌++◌, reverse, map}
use codex_proxy_rs.Base.Tests.{nat_eq, text_eq, ◌==◌, leb, ltb, if◌then◌else◌}
use codex_proxy_rs.Base.Lists.{length, is_empty}

-- A `String` or `&str`: its Unicode scalar values.
abbrev pub Str : Type 0
Str = List ℕ

-- A byte string: each element is below 256.
abbrev pub Bytes : Type 0
Bytes = List ℕ

unfoldable pub codes : String → Str
codes String.[] = []
codes (String.◌∷◌ c s) = code c ∷ codes s

-- `char::is_whitespace`: the code points with the property White_Space.
unfoldable pub is_white : ℕ → Bool
is_white c =
    (leb 9 c && leb c 13)
    || c == 32
    || c == 0x85
    || c == 0xa0
    || c == 0x1680
    || (leb 0x2000 c && leb c 0x200a)
    || c == 0x2028
    || c == 0x2029
    || c == 0x202f
    || c == 0x205f
    || c == 0x3000

-- Drop the leading elements that pass a test.
unfoldable pub drop_while : (ℕ → Bool) → Str → Str
drop_while p [] = []
drop_while p (c ∷ s) = if p c then drop_while p s else c ∷ s

unfoldable pub trim_start : Str → Str
unfolding drop_while is_white
trim_start s = drop_while is_white s

unfoldable pub trim_end : Str → Str
unfolding drop_while is_white
trim_end s = reverse (drop_while is_white (reverse s))

-- `str::trim`.
unfoldable pub trim : Str → Str
unfolding trim_start trim_end
trim s = trim_end (trim_start s)

-- `str::trim_end_matches` with a character.
unfoldable pub trim_end_matches : ℕ → Str → Str
unfolding drop_while
trim_end_matches c s = reverse (drop_while (λ d. d == c) (reverse s))

unfoldable pub lower_char : ℕ → ℕ
lower_char c = if leb b'A' c && leb c b'Z' then c + 32 else c

unfoldable pub to_ascii_lowercase : Str → Str
unfolding lower_char
to_ascii_lowercase s = map lower_char s

-- `str::strip_prefix`; `starts_with` is whether there is a result.
unfoldable pub strip_prefix : Str → Str → Option Str
strip_prefix [] s = some s
strip_prefix (p ∷ ps) [] = none
strip_prefix (p ∷ ps) (c ∷ s) = if c == p then strip_prefix ps s else none

abbrev pub starts_with : Str → Str → Bool
starts_with p s = elim (strip_prefix p s) [ none ↦ false | some _ ↦ true ]

-- `str::strip_suffix`.
unfoldable pub strip_suffix : Str → Str → Option Str
unfolding strip_prefix
strip_suffix p s = Option.map reverse (strip_prefix (reverse p) (reverse s))

-- `str::contains` with a text.
unfoldable pub contains_text : Str → Str → Bool
unfolding strip_prefix
contains_text p [] = is_empty p
contains_text p (c ∷ s) = starts_with p (c ∷ s) || contains_text p s

-- Put a character in front of the first part.
abbrev pub cons_head : ℕ → List Str → List Str
cons_head c [] = (c ∷ []) ∷ []
cons_head c (part ∷ parts) = (c ∷ part) ∷ parts

-- `str::split` at a character: there is always at least one part.
unfoldable pub split : ℕ → Str → List Str
split sep [] = [] ∷ []
split sep (c ∷ s) = let parts = split sep s in if c == sep then [] ∷ parts else cons_head c parts

-- `str::split_once` at a character.
unfoldable pub split_once : ℕ → Str → Option (Str × Str)
split_once sep [] = none
split_once sep (c ∷ s) =
    if c == sep
    then some ([], s)
    else Option.map (λ (p : Str × Str). (c ∷ p.0, p.1)) (split_once sep s)

-- The bytes of one code point in UTF-8.
unfoldable pub char_len : ℕ → ℕ
char_len c = if ltb c 0x80 then 1 else if ltb c 0x800 then 2 else if ltb c 0x10000 then 3 else 4

-- `str::len`: the length in bytes.
unfoldable pub byte_len : Str → ℕ
unfolding char_len
byte_len [] = 0
byte_len (c ∷ s) = char_len c + byte_len s

-- `[String]::join`.
unfoldable pub join : Str → List Str → Str
join sep [] = []
join sep (x ∷ []) = x
join sep (x ∷ y ∷ xs) = x ++ (sep ++ join sep (y ∷ xs))

-- `char::is_control`: the general category Cc.
unfoldable pub is_control : ℕ → Bool
is_control c = ltb c 32 || (leb 127 c && ltb c 160)

-- `str::replace`: `skip` counts the characters of a match that is already replaced.
unfoldable pub replace_from : Str → Str → ℕ → Str → Str
replace_from p to skip [] = []
replace_from p to (suc k) (c ∷ s) = replace_from p to k s
replace_from p to ℕ.zero (c ∷ s) =
    let matched = to ++ replace_from p to (length p - 1) s in
    let kept = c ∷ replace_from p to 0 s in if starts_with p (c ∷ s) then matched else kept

-- For a text `p` that is not empty.
unfoldable pub replace : Str → Str → Str → Str
unfolding replace_from strip_prefix
replace p to s = replace_from p to 0 s

-- `Option::filter` with a text that is not empty.
abbrev pub non_empty : Option Str → Option Str
non_empty none = none
non_empty (some s) = if is_empty s then none else some s
