-- ===== src/Common/Texts.antt =====
-- The methods of `str` that the code calls, over the characters of a text.
use Prim.Native.Nat.{ℕ, zero, suc, ◌/◌, ◌%◌, ◌+◌, ◌-◌, ◌*◌, ◌^◌}
use mathlib.Core.Path.{◌≡◌, refl}
use Prim.Native.Char.{Char, code}
use Prim.Native.String.{String, ◌++◌ as ◌<>◌}
use mathlib.Core.Bool.{Bool, true, false, ◌&&◌}
use mathlib.Core.List.{List, [], ◌∷◌}
use mathlib.Core.Option.{Option, none, some}
use owncloud_sync_client.Common.Equality.{ltb, leb, ◌==◌, number_eq, if◌then◌else◌}

-- `str::is_empty`
abbrev pub is_empty : String → Bool
is_empty String.[] = true
is_empty (String.◌∷◌ c s) = false

abbrev is_char : Char → ℕ → Bool
is_char c n = code c == n

-- `trim_start_matches(c)`, for the character with code `c`
unfoldable pub trim_start_matches : ℕ → String → String
trim_start_matches n String.[] = ""
trim_start_matches n (String.◌∷◌ c s) =
    let rest = trim_start_matches n s in if is_char c n then rest else String.◌∷◌ c s

abbrev push_front : Char → String → ℕ → String
push_front c s n = if is_char c n && is_empty s then "" else String.◌∷◌ c s

-- `trim_end_matches(c)`
unfoldable pub trim_end_matches : ℕ → String → String
trim_end_matches n String.[] = ""
trim_end_matches n (String.◌∷◌ c s) = push_front c (trim_end_matches n s) n

-- `trim_matches(c)`
unfoldable pub trim_matches : ℕ → String → String
unfolding trim_start_matches trim_end_matches
trim_matches n s = trim_end_matches n (trim_start_matches n s)

-- `ends_with(c)`
unfoldable pub ends_with : ℕ → String → Bool
ends_with n String.[] = false
ends_with n (String.◌∷◌ c s) = if is_empty s then is_char c n else ends_with n s

-- `split_once(c)`: the texts before and after the first `c`
unfoldable pub split_once : ℕ → String → Option (String × String)
split_once n String.[] = none
split_once n (String.◌∷◌ c s) =
    let rest : Option (String × String) = elim (split_once n s) [
      | none ↦ none
      | some (a, b) ↦ some (String.◌∷◌ c a, b)
    ] in
    if is_char c n then some ("", s) else rest

-- `starts_with(prefix)`: the text first, then the prefix
unfoldable pub starts_with : String → String → Bool
starts_with s String.[] = true
starts_with String.[] (String.◌∷◌ d p) = false
starts_with (String.◌∷◌ c s) (String.◌∷◌ d p) = is_char c (code d) && starts_with s p

-- `s.strip_prefix(prefix)`, with the prefix first
unfoldable pub strip_prefix : String → String → Option String
strip_prefix String.[] s = some s
strip_prefix (String.◌∷◌ d p) String.[] = none
strip_prefix (String.◌∷◌ d p) (String.◌∷◌ c s) =
    let rest = strip_prefix p s in if is_char c (code d) then rest else none

abbrev add_front : Char → List String → List String
add_front c [] = String.◌∷◌ c "" ∷ []
add_front c (w ∷ ws) = String.◌∷◌ c w ∷ ws

-- `split(c)`: always at least one part
unfoldable pub split : ℕ → String → List String
split n String.[] = "" ∷ []
split n (String.◌∷◌ c s) =
    let rest = split n s in if is_char c n then "" ∷ rest else add_front c rest

-- `join(sep)`
unfoldable pub join : String → List String → String
join sep [] = ""
join sep (w ∷ []) = w
join sep (w ∷ v ∷ ws) = w <> (sep <> join sep (v ∷ ws))

digit : ℕ → String
digit n =
    if n == 0
    then "0"
    else if n == 1
    then "1"
    else if n == 2
    then "2"
    else if n == 3
    then "3"
    else if n == 4
    then "4"
    else if n == 5
    then "5"
    else if n == 6
    then "6"
    else if n == 7
    then "7"
    else if n == 8
    then "8"
    else "9"

show_digits : ℕ → ℕ → String
show_digits zero n = ""
show_digits (suc fuel) n =
    let front = show_digits fuel (n / 10) in if ltb n 10 then digit n else front <> digit (n % 10)

-- The decimal text of a number: it has at most as many digits as the number's value plus one.
unfoldable pub show_number : ℕ → String
unfolding digit show_digits
show_number n = show_digits (suc n) n

show_number_test : show_number 404 ≡ "404"
unfolding show_number number_eq
show_number_test = refl

-- The digits of a text, read from the left onto the value so far.
read_digits : String → ℕ → Option ℕ
read_digits String.[] n = some n
read_digits (String.◌∷◌ c s) n =
    let more = read_digits s (n * 10 + (code c - 48)) in
    if leb 48 (code c) && leb (code c) 57 then more else none

below_u64 : Option ℕ → Option ℕ
below_u64 none = none
below_u64 (some n) = if ltb n (2 ^ 64) then some n else none

-- `str::parse::<u64>`: an optional `+`, at least one digit, and a value below 2 ^ 64.
unfoldable pub parse_u64 : String → Option ℕ
unfolding read_digits below_u64
parse_u64 String.[] = none
parse_u64 (String.◌∷◌ c s) =
    if is_char c b'+'
    then (if is_empty s then none else below_u64 (read_digits s 0))
    else below_u64 (read_digits (String.◌∷◌ c s) 0)

parse_u64_test : parse_u64 "+104" ≡ some 104
unfolding parse_u64 number_eq
parse_u64_test = refl
