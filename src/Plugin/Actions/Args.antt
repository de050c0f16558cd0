-- ===== src/Plugin/Actions/Args.antt =====
-- `combine_action_args` and `json_from_file_or_string`: the text of an action's arguments becomes
-- JSON. The regular expressions are scanners here.
use gxmis_plugin.Common.{
  ℕ, zero, suc, ◌-◌, Bool, false, ◌&&◌, ◌||◌, not, Bytes, codes, [], ◌∷◌, ◌++◌, length, drop, leb,
  ◌==◌, if◌then◌else◌, Option, none, some,
}
use gxmis_plugin.Common.Find.{span, starts_with, contains, is_digit}
use gxmis_plugin.Plugin.Actions.{Library}

abbrev pub quote : ℕ
quote = 34

abbrev pub is_separator : ℕ → Bool
is_separator a = a == b':' || a == b','

-- `([:,])` becomes `"$1"`.
unfoldable pub quote_separators : Bytes → Bytes
quote_separators [] = []
quote_separators (a ∷ s) =
    let rest = quote_separators s in
    if is_separator a then quote ∷ (a ∷ (quote ∷ rest)) else a ∷ rest

-- ` *`
unfoldable pub skip_blanks : Bytes → Bytes
skip_blanks [] = []
skip_blanks (a ∷ s) = let rest = skip_blanks s in if a == b' ' then rest else a ∷ s

-- ` *"`: the text behind it.
unfoldable pub closing : Bytes → Option Bytes
closing s = elim (skip_blanks s) [ [] ↦ none | a ∷ rest ↦ if a == quote then some rest else none ]

-- `-?`
unfoldable pub sign : Bytes → Bytes × Bytes
sign [] = ([], [])
sign (a ∷ s) = if a == b'-' then (a ∷ [], s) else ([], a ∷ s)

-- `true|false|-?\d{1,18}` and the text behind it. More than 18 digits are no match: no blank and no
-- quote follows the first 18.
unfoldable pub literal_word : Bytes → Option (Bytes × Bytes)
literal_word s =
    let (minus, after) = sign s in
    let (digits, back) = span is_digit after in
    if starts_with (codes "true") s
    then some (codes "true", drop 4 s)
    else if starts_with (codes "false") s
    then some (codes "false", drop 5 s)
    else if leb 1 (length digits) && leb (length digits) 18
    then some (minus ++ digits, back)
    else none

-- ` *(true|false|-?\d{1,18}) *"`: the group, and the text behind the match.
unfoldable pub literal : Bytes → Option (Bytes × Bytes)
literal s = elim (literal_word (skip_blanks s)) [
  | none ↦ none
  | some (word, back) ↦ elim (closing back) [ none ↦ none | some rest ↦ some (word, rest) ]
]

-- The replacement of the quoted literals, with the number of characters of a match that are still
-- to be left out.
unfoldable pub strip_literals : ℕ → Bytes → Bytes
strip_literals n [] = []
strip_literals (suc n) (a ∷ s) = strip_literals n s
strip_literals zero (a ∷ s) = elim (if a == quote then literal s else none) [
  | none ↦ a ∷ strip_literals 0 s
  | some (word, rest) ↦ word ++ strip_literals (length s - length rest) s
]

-- An escape of two characters becomes one character.
unfoldable pub unescape : ℕ → ℕ → Bytes → Bytes
unescape letter c [] = []
unescape letter c (a ∷ []) = a ∷ []
unescape letter c (a ∷ (b ∷ s)) =
    let found = unescape letter c s in
    let rest = unescape letter c (b ∷ s) in if a == b'%' && b == letter then c ∷ found else a ∷ rest

abbrev pub unescape_all : Bytes → Bytes
unescape_all s = unescape b'l' b':' (unescape b'j' b',' s)

-- Braces where there is a colon, otherwise brackets.
unfoldable pub enclosed : Bytes → Bytes
enclosed args =
    if contains args (codes ":")
    then codes "{" ++ (args ++ codes "}")
    else codes "[" ++ (args ++ codes "]")

unfoldable pub combine_action_args : Bytes → Bytes
combine_action_args args =
    let quoted = quote_separators (quote ∷ (args ++ (quote ∷ []))) in
    unescape_all (enclosed (strip_literals 0 quoted))

-- `^[ \t]*[\{\[]`
unfoldable pub looks_like_json : Bytes → Bool
looks_like_json [] = false
looks_like_json (a ∷ s) =
    let rest = looks_like_json s in if a == b' ' || a == 9 then rest else a == b'{' || a == b'['

unfoldable pub json_from_file_or_string : (lib : Library) → Bytes → Option (lib.Json)
json_from_file_or_string lib file_or_str =
    if not (looks_like_json file_or_str) && lib.is_regular_file file_or_str
    then lib.from_file file_or_str
    else lib.from_string file_or_str
