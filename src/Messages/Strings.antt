-- ===== src/Messages/Strings.antt =====
-- Methods of `str` that messages.rs and the modules on its level use.
use agent_dash.Prelude.{
  ℕ, Bool, true, false, List, ◌∷◌, ◌||◌, ◌&&◌, ◌==◌, if◌then◌else◌, nat_eq, leb, ltb, zero, suc,
  ◌/◌, ◌%◌,
}
use agent_dash.Prelude as P
use Prim.Native.Char.{Char, code}
use Prim.Native.String.{String, [], ◌++◌}
use Prim.Native.String as S
use package.text.Mathlib.Text.{starts_with}

-- `char::is_whitespace`, the code points of Unicode's White_Space
abbrev pub is_whitespace : Char → Bool
is_whitespace c =
    let n = code c in
    (leb 9 n && leb n 13)
    || nat_eq n 32
    || nat_eq n 133
    || nat_eq n 160
    || nat_eq n 5760
    || (leb 8192 n && leb n 8202)
    || nat_eq n 8232
    || nat_eq n 8233
    || nat_eq n 8239
    || nat_eq n 8287
    || nat_eq n 12288

unfoldable pub trim_start : String → String
trim_start [] = []
trim_start (S.◌∷◌ c s) = let rest = trim_start s in if is_whitespace c then rest else S.◌∷◌ c s

unfoldable pub trim_end : String → String
trim_end [] = []
trim_end (S.◌∷◌ c s) =
    let rest = trim_end s in if is_whitespace c && rest == "" then [] else S.◌∷◌ c rest

abbrev pub trim : String → String
trim s = trim_end (trim_start s)

-- a line that a line feed ends, without a carriage return before it
unfoldable pub strip_cr : String → String
strip_cr [] = []
strip_cr (S.◌∷◌ c s) =
    let rest = strip_cr s in if nat_eq (code c) 13 && s == "" then [] else S.◌∷◌ c rest

unfoldable pub lines_from : String → String → List String
lines_from line [] = if line == "" then P.[] else line ∷ P.[]
lines_from line (S.◌∷◌ c s) =
    let ended = lines_from "" s in
    let more = lines_from (line ++ S.◌∷◌ c []) s in
    if nat_eq (code c) 10 then strip_cr line ∷ ended else more

abbrev pub lines : String → List String
lines s = lines_from "" s

unfoldable pub join : String → List String → String
join separator P.[] = ""
join separator (s ∷ P.[]) = s
join separator (s ∷ t ∷ rest) = (s ++ separator) ++ join separator (t ∷ rest)

-- `contains`
unfoldable pub contains : String → String → Bool
contains [] needle = needle == ""
contains (S.◌∷◌ c s) needle =
    let later = contains s needle in starts_with (S.◌∷◌ c s) needle || later

-- a digit, and a number in decimal notation, on fuel: each round writes one digit
abbrev pub digit : ℕ → String
digit n =
    if nat_eq n 0
    then "0"
    else if nat_eq n 1
    then "1"
    else if nat_eq n 2
    then "2"
    else if nat_eq n 3
    then "3"
    else if nat_eq n 4
    then "4"
    else if nat_eq n 5
    then "5"
    else if nat_eq n 6
    then "6"
    else if nat_eq n 7
    then "7"
    else if nat_eq n 8
    then "8"
    else "9"

unfoldable pub decimal : ℕ → ℕ → String
decimal zero n = ""
decimal (suc fuel) n =
    let high = decimal fuel (n / 10) in if ltb n 10 then digit n else high ++ digit (n % 10)

-- `{}` of a `usize`; a number has no more digits than its successor has units
abbrev pub show : ℕ → String
show n = decimal (suc n) n
