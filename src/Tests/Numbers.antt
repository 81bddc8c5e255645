-- ===== src/Tests/Numbers.antt =====
-- The default format `INV-{YYYY}-{SEQ:6}`.
use biz360_sme_erp_e_tims.Base.{◌≡◌, refl, [], ◌∷◌, ◌++◌}
use biz360_sme_erp_e_tims.Numbering.{
  Text, print, print_digits, pad_start, zeros, parse_from, starts_with, replace_from, replace_seq,
  seq_digits, digits_to_brace, format_document_number,
}
use biz360_sme_erp_e_tims.Numbering.Format.{yearly_format, format_then_parse}

-- `INV-`
abbrev inv : Text
inv = 73 ∷ 78 ∷ 86 ∷ 45 ∷ []

-- `INV-2026-000042`
default_format :
    format_document_number (yearly_format inv (45 ∷ []) [] 6) 42 2026 11 26
    ≡ inv ++ (50 ∷ 48 ∷ 50 ∷ 54 ∷ 45 ∷ 48 ∷ 48 ∷ 48 ∷ 48 ∷ 52 ∷ 50 ∷ [])
unfolding format_document_number print print_digits pad_start zeros parse_from starts_with
    replace_from replace_seq seq_digits digits_to_brace
default_format = refl

format_then_parse_example :
    (format_document_number (yearly_format inv (45 ∷ []) [] 6) 42 2026 11 26
      ≡ inv ++ (print 2026 ++ ((45 ∷ []) ++ (pad_start 6 (print 42) ++ []))))
    × (parse_from 0 (print 2026) ≡ 2026)
    × (parse_from 0 (pad_start 6 (print 42)) ≡ 42)
format_then_parse_example =
    format_then_parse inv (45 ∷ []) [] 6 42 2026 11 26 (refl, (refl, (refl, (refl, tt)))) (refl, tt)
      tt
