-- ===== src/Messages/Escape.antt =====
-- What a browser reads of an escaped text.
use agent_dash.Prelude.{
  String, Bool, false, ◌≡◌, refl, ◌∙◌, Option, none, some, arith, ◌==◌, ◌||◌, if◌then◌else◌, nat_eq,
}
use Prim.Native.Char.{Char, code}
use Prim.Native.String.{[], ◌∷◌, ◌++◌}
use agent_dash.Messages.{escape_char, escape_html}

-- a character that can open or close markup or an attribute
abbrev pub is_markup : Char → Bool
is_markup c =
    nat_eq (code c) b'<' || nat_eq (code c) b'>' || nat_eq (code c) b'"' || nat_eq (code c) 39

abbrev pub has_markup : String → Bool
has_markup [] = false
has_markup (c ∷ s) = is_markup c || has_markup s

-- the character that an entity stands for, of those that HTML names or numbers
abbrev pub entity : String → Option Char
entity name =
    if name == "amp"
    then some "&"
    else if name == "lt"
    then some "<"
    else if name == "gt"
    then some ">"
    else if name == "quot"
    then some "\""
    else if name == "#x27" || name == "#39"
    then some "'"
    else none

-- An entity that is not known is left as it is written.
abbrev pub expand : String → String → String
expand name after = elim (entity name) [ none ↦ "&" ++ name ++ ";" ++ after | some c ↦ c ∷ after ]

-- a reader of HTML text: `&` begins an entity, whose name ends at `;`
unfoldable pub read_html : Option String → String → String
read_html entered [] = []
read_html none (c ∷ s) =
    let inside = read_html (some []) s in
    let plain = read_html none s in if nat_eq (code c) b'&' then inside else c ∷ plain
read_html (some name) (c ∷ s) =
    let after = read_html none s in
    let more = read_html (some (name ++ (c ∷ []))) s in
    if nat_eq (code c) b';' then expand name after else more

escape_char-safe : (c : Char) (rest : String) → has_markup (escape_char c rest) ≡ has_markup rest
unfolding escape_char
escape_char-safe c rest = ground arith

-- An escaped text holds no character that could open or close markup or an attribute.
pub escape_html_safe : (s : String) → has_markup (escape_html s) ≡ false
unfolding escape_html
escape_html_safe [] = refl
escape_html_safe (c ∷ s) = escape_char-safe c (escape_html s) ∙ escape_html_safe s
