-- ===== src/Graphgen/Codegen/Text.antt =====
-- The operations of Rust's `String` and `str` that route-rs-graphgen uses: `to_string` of a `usize`,
-- `lines`, `join` and `split`.
use Prim.Native.Char.{Char, code}
use Prim.Native.String.{String, ◌++◌ as append, slice}
use mathlib.Core.List.{map}
use route_rs.Common.{
  ℕ, zero, suc, ◌/◌, ◌%◌, Bool, true, false, List, [], ◌∷◌, ◌==◌, ltb, if◌then◌else◌, Option, none,
  some,
}

abbrev digit : ℕ → String
digit n = slice "0123456789" n (suc n)

-- on fuel; a number has no more digits than itself and one
abbrev decimal : ℕ → ℕ → String
decimal zero n = digit n
decimal (suc fuel) n =
    let front = decimal fuel (n / 10) in if ltb n 10 then digit n else append front (digit (n % 10))

pub to_string : ℕ → String
to_string n = decimal n n

abbrev pub is_empty : String → Bool
is_empty String.[] = true
is_empty (String.◌∷◌ c s) = false

abbrev on_first : Char → List String → List String
on_first c [] = (String.◌∷◌ c String.[]) ∷ []
on_first c (s ∷ ss) = (String.◌∷◌ c s) ∷ ss

-- `s.split(c)` for the character of number `sep`
abbrev pub split : ℕ → String → List String
split sep String.[] = String.[] ∷ []
split sep (String.◌∷◌ c s) =
    let pieces = split sep s in if code c == sep then String.[] ∷ pieces else on_first c pieces

-- without a `\r` at the end
abbrev strip_return : String → String
strip_return String.[] = String.[]
strip_return (String.◌∷◌ c s) =
    let rest = strip_return s in
    if is_empty s
    then (if code c == 13 then String.[] else String.◌∷◌ c String.[])
    else String.◌∷◌ c rest

-- a last line that is empty is none
abbrev drop_empty_last : List String → List String
drop_empty_last [] = []
drop_empty_last (s ∷ []) = if is_empty s then [] else s ∷ []
drop_empty_last (s ∷ t ∷ ss) = s ∷ drop_empty_last (t ∷ ss)

-- `text.lines()`
pub lines : String → List String
lines text = map strip_return (drop_empty_last (split 10 text))

-- `strings.join(between)`
pub join : String → List String → String
join between [] = ""
join between (s ∷ []) = s
join between (s ∷ t ∷ ss) = append s (append between (join between (t ∷ ss)))

-- The two pieces of `s.splitn(2, c)` where `s.contains(c)`, for the character of number `sep`.
abbrev pub split_once : ℕ → String → Option (String × String)
split_once sep String.[] = none
split_once sep (String.◌∷◌ c s) =
    let later = split_once sep s in if code c == sep then some (String.[], s) else before c later
  where
    before : Char → Option (String × String) → Option (String × String)
    before c none = none
    before c (some (k, v)) = some (String.◌∷◌ c k, v)
