-- ===== src/Numbering.antt =====
-- formatDocumentNumber of src/common/helpers/number-format.ts. A text is the list of the codes of
-- its characters, and a date its year, month and day. A pattern without a repetition is its text.
pub mod Digits
pub mod RoundTrip
pub mod Format
use biz360_sme_erp_e_tims.Base.{
  ℕ, zero, suc, ◌+◌, ◌-◌, ◌*◌, ◌/◌, ◌%◌, Bool, true, false, ◌&&◌, Option, none, some, List, [], ◌∷◌,
  ◌++◌, ◌==◌, ltb, leb, if◌then◌else◌, length,
}

abbrev pub Text : Type 0
Text = List ℕ

-- `{`, `}` and `0`.
abbrev pub brace : ℕ
brace = 123

abbrev pub close_brace : ℕ
close_brace = 125

abbrev pub zero_digit : ℕ
zero_digit = 48

abbrev pub is_digit : ℕ → Bool
is_digit c = leb 48 c && leb c 57

-- `String(n)` in front of a text, with at most `fuel` digits.
unfoldable pub print_digits : ℕ → ℕ → Text → Text
print_digits zero n rest = rest
print_digits (suc fuel) n rest =
    let more = print_digits fuel (n / 10) ((48 + n % 10) ∷ rest) in
    if ltb n 10 then (48 + n) ∷ rest else more

-- `String(n)`: a number has at most as many digits as it counts, and one.
unfoldable pub print : ℕ → Text
print n = print_digits (suc n) n []

unfoldable pub zeros : ℕ → Text → Text
zeros zero t = t
zeros (suc k) t = zero_digit ∷ zeros k t

-- `t.padStart(width, '0')`
unfoldable pub pad_start : ℕ → Text → Text
pad_start width t = zeros (width - length t) t

-- `parseInt(t, 10)` of digits.
unfoldable pub parse_from : ℕ → Text → ℕ
parse_from n [] = n
parse_from n (c ∷ cs) = parse_from (n * 10 + (c - 48)) cs

-- A text stands at the front of another.
unfoldable pub starts_with : Text → Text → Bool
starts_with [] t = true
starts_with (p ∷ ps) [] = false
starts_with (p ∷ ps) (c ∷ cs) = p == c && starts_with ps cs

-- `text.replace(/pattern/g, by)`; `skip` counts what is left of an occurrence.
unfoldable pub replace_from : ℕ → Text → Text → Text → Text
replace_from skip pattern by [] = []
replace_from (suc skip) pattern by (c ∷ cs) = replace_from skip pattern by cs
replace_from zero pattern by (c ∷ cs) =
    let replaced = by ++ replace_from (length pattern - 1) pattern by cs in
    let kept = c ∷ replace_from 0 pattern by cs in
    if starts_with pattern (c ∷ cs) then replaced else kept

abbrev pub replace_all : Text → Text → Text → Text
replace_all pattern by t = replace_from 0 pattern by t

-- The patterns `{YYYY}`, `{MM}` and `{DD}`, and the front `{SEQ:` of the fourth.
abbrev pub year_token : Text
year_token = 123 ∷ 89 ∷ 89 ∷ 89 ∷ 89 ∷ 125 ∷ []

abbrev pub month_token : Text
month_token = 123 ∷ 77 ∷ 77 ∷ 125 ∷ []

abbrev pub day_token : Text
day_token = 123 ∷ 68 ∷ 68 ∷ 125 ∷ []

abbrev pub seq_front : Text
seq_front = 123 ∷ 83 ∷ 69 ∷ 81 ∷ 58 ∷ []

-- The digits at the front that `\d+` takes, where a closing brace follows them.
unfoldable pub digits_to_brace : Text → Option Text
digits_to_brace [] = none
digits_to_brace (c ∷ cs) =
    let rest = digits_to_brace cs in
    if is_digit c
    then elim rest [ none ↦ none | some ds ↦ some (c ∷ ds) ]
    else if c == close_brace
    then some []
    else none

-- The digits of a `{SEQ:n}` at the front, of which there is one at least.
unfoldable pub seq_digits : Text → Option Text
seq_digits (a ∷ b ∷ c ∷ d ∷ e ∷ t) =
    if starts_with seq_front (a ∷ b ∷ c ∷ d ∷ e ∷ [])
    then elim (digits_to_brace t) [ none ↦ none | some [] ↦ none | some (x ∷ xs) ↦ some (x ∷ xs) ]
    else none
seq_digits _ = none

-- The replacement of `{SEQ:n}`.
unfoldable pub replace_seq : ℕ → ℕ → Text → Text
replace_seq skip sequence [] = []
replace_seq (suc skip) sequence (c ∷ cs) = replace_seq skip sequence cs
replace_seq zero sequence (c ∷ cs) = elim (seq_digits (c ∷ cs)) [
  | none ↦ c ∷ replace_seq 0 sequence cs
  | some ds ↦
      pad_start (parse_from 0 ds) (print sequence) ++ replace_seq (length ds + 5) sequence cs
]

unfoldable pub format_document_number : Text → ℕ → ℕ → ℕ → ℕ → Text
format_document_number format sequence year month day = replace_seq 0 sequence (
    replace_all day_token (pad_start 2 (print day)) (
      replace_all month_token (pad_start 2 (print month))
        (replace_all year_token (print year) format)))
