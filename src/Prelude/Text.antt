-- ===== src/Prelude/Text.antt =====
-- The string methods that the source calls, over native texts. Letters other than ASCII have no case
-- here; the white space of `trim` is that of the language's standard.
use Prim.Native.Char.{Char, code}
use Prim.Native.Nat.{ℕ, zero, suc, ◌/◌, ◌%◌}
use Prim.Native.String.{String, ◌++◌}
use mathlib.Core.Bool.{Bool, true, false, ◌&&◌, ◌||◌}
use mathlib.Core.List.{List, [], ◌∷◌}
use prestohq_assessment.Prelude.Tests.{ltb, leb, ◌==◌, if◌then◌else◌}

abbrev letters_lower : String
letters_lower = "abcdefghijklmnopqrstuvwxyz"

abbrev letters_upper : String
letters_upper = "ABCDEFGHIJKLMNOPQRSTUVWXYZ"

translate : String → String → Char → Char
translate String.[] _ c = c
translate (String.◌∷◌ _ _) String.[] c = c
translate (String.◌∷◌ f fs) (String.◌∷◌ t ts) c =
    let rest = translate fs ts c in if code f == code c then t else rest

-- s.toLowerCase()
unfoldable pub to_lower_case : String → String
unfolding translate
to_lower_case String.[] = ""
to_lower_case (String.◌∷◌ c s) =
    String.◌∷◌ (translate letters_upper letters_lower c) (to_lower_case s)

-- s.toUpperCase()
unfoldable pub to_upper_case : String → String
unfolding translate
to_upper_case String.[] = ""
to_upper_case (String.◌∷◌ c s) =
    String.◌∷◌ (translate letters_lower letters_upper c) (to_upper_case s)

is_space : ℕ → Bool
is_space c =
    (leb 9 c && leb c 13)
    || c == 32
    || c == 0xa0
    || c == 0x1680
    || (leb 0x2000 c && leb c 0x200a)
    || c == 0x2028
    || c == 0x2029
    || c == 0x202f
    || c == 0x205f
    || c == 0x3000
    || c == 0xfeff

trim_start : String → String
unfolding is_space
trim_start String.[] = ""
trim_start (String.◌∷◌ c s) =
    let rest = trim_start s in if is_space (code c) then rest else String.◌∷◌ c s

is_empty : String → Bool
is_empty String.[] = true
is_empty (String.◌∷◌ _ _) = false

trim_end : String → String
unfolding is_space is_empty
trim_end String.[] = ""
trim_end (String.◌∷◌ c s) =
    let rest = trim_end s in if is_empty rest && is_space (code c) then "" else String.◌∷◌ c rest

-- s.trim()
unfoldable pub trim : String → String
unfolding trim_start trim_end
trim s = trim_end (trim_start s)

-- A text as a condition: only the empty one is falsy.
abbrev pub truthy : String → Bool
truthy String.[] = false
truthy (String.◌∷◌ _ _) = true

-- s.slice(0, n), where every character takes one code unit
unfoldable pub slice_to : ℕ → String → String
slice_to zero _ = ""
slice_to (suc n) String.[] = ""
slice_to (suc n) (String.◌∷◌ c s) = String.◌∷◌ c (slice_to n s)

-- s.replace(/-/g, '')
unfoldable pub remove_dashes : String → String
remove_dashes String.[] = ""
remove_dashes (String.◌∷◌ c s) =
    let rest = remove_dashes s in if code c == b'-' then rest else String.◌∷◌ c rest

-- s.startsWith(t)
unfoldable pub starts_with : String → String → Bool
starts_with _ String.[] = true
starts_with String.[] (String.◌∷◌ _ _) = false
starts_with (String.◌∷◌ c s) (String.◌∷◌ d t) = code c == code d && starts_with s t

-- s.includes(t)
unfoldable pub includes : String → String → Bool
unfolding starts_with
includes String.[] t = starts_with "" t
includes (String.◌∷◌ c s) t = starts_with (String.◌∷◌ c s) t || includes s t

same_text : String → String → Bool
same_text String.[] String.[] = true
same_text String.[] (String.◌∷◌ _ _) = false
same_text (String.◌∷◌ _ _) String.[] = false
same_text (String.◌∷◌ c s) (String.◌∷◌ d t) = code c == code d && same_text s t

-- s.endsWith(t)
unfoldable pub ends_with : String → String → Bool
unfolding same_text
ends_with String.[] t = same_text "" t
ends_with (String.◌∷◌ c s) t = same_text (String.◌∷◌ c s) t || ends_with s t

nth_text : ℕ → List String → String
nth_text _ [] = ""
nth_text zero (t ∷ ts) = t
nth_text (suc n) (t ∷ ts) = nth_text n ts

digit : ℕ → String
unfolding nth_text
digit n = nth_text n ("0" ∷ "1" ∷ "2" ∷ "3" ∷ "4" ∷ "5" ∷ "6" ∷ "7" ∷ "8" ∷ "9" ∷ [])

-- Each round leaves a tenth of the number, so that the number itself is fuel enough.
decimal_from : ℕ → ℕ → String
unfolding digit
decimal_from zero n = digit n
decimal_from (suc fuel) n =
    let front = decimal_from fuel (n / 10) in if ltb n 10 then digit n else front ++ digit (n % 10)

-- A number in a template.
unfoldable pub decimal : ℕ → String
unfolding decimal_from
decimal n = decimal_from n n
