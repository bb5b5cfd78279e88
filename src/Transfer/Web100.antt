-- ===== src/Transfer/Web100.antt =====
-- trim and jsonify_web100 (include/libndt/libndt.hpp): the variables that a server sends at the
-- end of a download.
pub mod Blanks
use libndt.Msg.{getlines}
use libndt.Prelude.{
  Bool, List, Option, [], if◌then◌else◌, length, none, some, ℕ, ◌&&◌, ◌==◌, ◌||◌, ◌∷◌,
}
use libndt.Prelude.Bytes.{Bytes}
use libndt.Prelude.Text.{text_eq}

unfoldable pub is_blank : ℕ → Bool
is_blank c = (c == b' ') || (c == 9)

pub drop_blanks : Bytes → Bytes
unfolding is_blank
drop_blanks [] = []
drop_blanks (c ∷ cs) = let rest = drop_blanks cs in if is_blank c then rest else c ∷ cs

-- find_first_not_of and substr: a text of blanks only stays.
pub trim_left : Bytes → Bytes
unfolding drop_blanks
trim_left s = if length (drop_blanks s) == 0 then s else drop_blanks s

-- find_last_not_of and substr.
pub drop_blanks_right : Bytes → Bytes
unfolding is_blank
drop_blanks_right [] = []
drop_blanks_right (c ∷ cs) =
    let rest = drop_blanks_right cs in if (length rest == 0) && is_blank c then [] else c ∷ rest

pub trim_right : Bytes → Bytes
unfolding drop_blanks_right
trim_right s = if length (drop_blanks_right s) == 0 then s else drop_blanks_right s

pub trim : Bytes → Bytes
unfolding trim_left trim_right
trim s = trim_right (trim_left s)

abbrev before_colon : ℕ → Option (Bytes × Bytes) → Option (Bytes × Bytes)
before_colon c none = none
before_colon c (some (key, value)) = some (c ∷ key, value)

-- line.find(":") and the two calls of substr.
pub split_colon : Bytes → Option (Bytes × Bytes)
split_colon [] = none
split_colon (c ∷ cs) =
    let more = before_colon c (split_colon cs) in if c == b':' then some ([], cs) else more

-- json[key] = value.
pub assign : Bytes → Bytes → List (Bytes × Bytes) → List (Bytes × Bytes)
assign key value [] = (key, value) ∷ []
assign key value ((k, v) ∷ more) =
    let rest = assign key value more in if text_eq k key then (k, value) ∷ more else (k, v) ∷ rest

-- json[key].get<std::string>()
pub find_text : Bytes → List (Bytes × Bytes) → Option Bytes
find_text key [] = none
find_text key ((k, v) ∷ more) =
    let rest = find_text key more in if text_eq k key then some v else rest

-- What the parts of a line do; `none` is a line without a colon.
pub store_pair : Option (Bytes × Bytes) → List (Bytes × Bytes) → List (Bytes × Bytes)
unfolding assign trim
store_pair none json = json
store_pair (some (key, value)) json =
    if length value == 0 then json else assign (trim key) (trim value) json

-- A line without a colon, or with nothing behind it, is skipped.
pub jsonify_line : Bytes → List (Bytes × Bytes) → List (Bytes × Bytes)
unfolding store_pair split_colon
jsonify_line line json = store_pair (split_colon line) json

jsonify_lines : List Bytes → List (Bytes × Bytes) → List (Bytes × Bytes)
unfolding jsonify_line
jsonify_lines [] json = json
jsonify_lines (line ∷ lines) json = jsonify_lines lines (jsonify_line line json)

pub jsonify_web100 : Bytes → List (Bytes × Bytes) → List (Bytes × Bytes)
unfolding jsonify_lines
jsonify_web100 message json = jsonify_lines (getlines 10 message) json
