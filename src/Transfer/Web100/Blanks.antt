-- ===== src/Transfer/Web100/Blanks.antt =====
-- What trim and jsonify_web100 (include/libndt/libndt.hpp) make of a line of variables.
use libndt.Prelude.{
  All, Bool-cases, List, [], arith, false, get_or, inl, inr, length, length-append, refl, some,
  true, ℕ, ◌++◌, ◌==◌, ◌∙◌, ◌∷◌, ◌≡◌,
}
use libndt.Prelude.Bytes.{Bytes}
use libndt.Prelude.Text.{text_eq, text_eq_refl}
use libndt.Transfer.Web100.{
  assign, drop_blanks, drop_blanks_right, find_text, is_blank, jsonify_line, split_colon,
  store_pair, trim, trim_left, trim_right,
}

abbrev pub AllBlank : Bytes → Type 0
AllBlank = All (λ c. is_blank c ≡ true)

unfoldable pub last_or : Bytes → ℕ → ℕ
last_or [] d = d
last_or (c ∷ []) d = c
last_or (c ∷ more) d = last_or more d

-- A text that has neither blanks at its ends nor is it empty.
abbrev pub IsTrimmed : Bytes → Type 0
IsTrimmed s = (is_blank (get_or s 0 b' ') ≡ false) × (is_blank (last_or s b' ') ≡ false)

drop_blanks-blank : (a s : Bytes) → AllBlank a → drop_blanks (a ++ s) ≡ drop_blanks s
unfolding drop_blanks
drop_blanks-blank [] s h = refl
drop_blanks-blank (c ∷ cs) s h = rw h.0 (drop_blanks-blank cs s h.1)

drop_blanks-solid :
    (s more : Bytes) → is_blank (get_or s 0 b' ') ≡ false → drop_blanks (s ++ more) ≡ s ++ more
unfolding drop_blanks is_blank
drop_blanks-solid [] more h = cc
drop_blanks-solid (c ∷ cs) more h = rw h refl

drop_blanks_right-blank : (b : Bytes) → AllBlank b → drop_blanks_right b ≡ []
unfolding drop_blanks_right
drop_blanks_right-blank [] h = refl
drop_blanks_right-blank (c ∷ cs) h = rw (drop_blanks_right-blank cs h.1, h.0) refl

drop_blanks_right-solid :
    (s b : Bytes) → is_blank (last_or s b' ') ≡ false → AllBlank b → drop_blanks_right (s ++ b) ≡ s
unfolding drop_blanks_right last_or is_blank
drop_blanks_right-solid [] b h hb = cc
drop_blanks_right-solid (c ∷ []) b h hb = rw (drop_blanks_right-blank b hb, h) refl
drop_blanks_right-solid (c ∷ d ∷ ds) b h hb =
    let nonempty : (length (d ∷ ds) == 0) ≡ false = ground arith in
    rw (drop_blanks_right-solid (d ∷ ds) b h hb, nonempty) refl

nonempty_trimmed : (s : Bytes) → IsTrimmed s → (length s == 0) ≡ false
unfolding is_blank
nonempty_trimmed [] h = cc
nonempty_trimmed (c ∷ cs) h = ground arith

-- Blanks and tabs around a text are taken off, if there is something between them that is not
-- blank at its ends.
pub trim-padded : (a s b : Bytes) → AllBlank a → AllBlank b → IsTrimmed s → trim (a ++ (s ++ b)) ≡ s
unfolding trim trim_left trim_right
trim-padded a s b ha hb h =
    let left : drop_blanks (a ++ (s ++ b)) ≡ s ++ b =
      drop_blanks-blank a (s ++ b) ha ∙ drop_blanks-solid s b h.0 in
    let right = drop_blanks_right-solid s b h.1 hb in
    let filled : (length (s ++ b) == 0) ≡ false =
      ground (arith, length-append s b, nonempty_trimmed s h) in
    rw (left, filled) (rw (right, nonempty_trimmed s h) refl)

split_colon-first :
    (key value : Bytes)
    → All (λ c. (c == b':') ≡ false) key
    → split_colon (key ++ b':' ∷ value) ≡ some (key, value)
unfolding split_colon
split_colon-first [] value h = refl
split_colon-first (c ∷ cs) value h = rw (h.0, split_colon-first cs value h.1) refl

find_text-assign :
    (key value : Bytes) (json : List (Bytes × Bytes))
    → find_text key (assign key value json) ≡ some value
unfolding find_text assign
find_text-assign key value [] = rw (text_eq_refl key) refl
find_text-assign key value ((k, v) ∷ more) = elim (Bool-cases (text_eq k key)) [
  | inl same ↦ rw same (rw same refl)
  | inr other ↦ rw other (rw other (find_text-assign key value more))
]

-- A line of a key, a colon and a value, with blanks around each of them: what is found at the key
-- is then the value, whatever was there before. Neither is empty or has blanks at its ends, and
-- there is no colon in the key.
pub jsonify_line-found :
    (a key b c value d : Bytes) (json : List (Bytes × Bytes))
    → AllBlank a
    → AllBlank b
    → AllBlank c
    → AllBlank d
    → IsTrimmed key
    → IsTrimmed value
    → All (λ x. (x == b':') ≡ false) (a ++ (key ++ b))
    → find_text key (jsonify_line ((a ++ (key ++ b)) ++ b':' ∷ (c ++ (value ++ d))) json)
      ≡ some value
unfolding jsonify_line store_pair
jsonify_line-found a key b c value d json ha hb hc hd hk hv no_colon =
    let behind = c ++ (value ++ d) in
    let filled : (length behind == 0) ≡ false =
      ground
        (arith, length-append c (value ++ d), length-append value d, nonempty_trimmed value hv) in
    rw (split_colon-first (a ++ (key ++ b)) behind no_colon) (
      rw (filled, trim-padded a key b ha hb hk, trim-padded c value d hc hd hv)
        (find_text-assign key value json))
