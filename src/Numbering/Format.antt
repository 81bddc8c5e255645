-- ===== src/Numbering/Format.antt =====
-- About the numbers of documents as a format with a year and a sequence prints them.
use biz360_sme_erp_e_tims.Base.{
  ℕ, zero, suc, ◌+◌, ◌/◌, ◌%◌, false, ◌≡◌, refl, sym, ◌∙◌, ap, [], ◌∷◌, ◌++◌, ◌==◌, ltb, All-append,
  Bool-cases, inl, inr,
}
use mathlib.Core.Path.{subst}
use biz360_sme_erp_e_tims.Numbering.{
  Text, print_digits, print, pad_start, parse_from, brace, close_brace, starts_with, replace_from,
  year_token, seq_front, replace_seq, format_document_number,
}
use biz360_sme_erp_e_tims.Numbering.Digits.{
  AreDigits, print-AreDigits, parse-print, parse-pad_start,
}
use biz360_sme_erp_e_tims.Numbering.RoundTrip.{
  HasNoBrace, digits-HasNoBrace, replace-clean, replace-seq_token, replace_seq-clean,
  replace_seq-none, replace_seq-token,
}

-- `pre{YYYY}mid{SEQ:width}post`
abbrev pub yearly_format : Text → Text → Text → ℕ → Text
yearly_format pre mid post width =
    pre ++ (year_token ++ (mid ++ (seq_front ++ (print width ++ (close_brace ∷ post)))))

width-HasNoBrace :
    (width : ℕ) (post : Text) → HasNoBrace post → HasNoBrace (print width ++ (close_brace ∷ post))
width-HasNoBrace width post h =
    All-append (λ (c : ℕ). (brace == c) ≡ false) (print width) (close_brace ∷ post)
      (digits-HasNoBrace (print width) (print-AreDigits width)) (refl, h)

module _ (pre mid t : Text) (pre_clean : HasNoBrace pre) (mid_clean : HasNoBrace mid)
    (t_clean : HasNoBrace t) where
  year_replaced :
      (by : Text)
      → replace_from 0 year_token by (pre ++ (year_token ++ (mid ++ (seq_front ++ t))))
        ≡ pre ++ (by ++ (mid ++ (seq_front ++ t)))
  unfolding replace_from starts_with
  year_replaced by =
      replace-clean _ by pre (year_token ++ (mid ++ (seq_front ++ t))) pre_clean
      ∙ ap (λ (x : Text). pre ++ (by ++ x))
          (replace-clean _ by mid (seq_front ++ t) mid_clean
            ∙ ap (λ (x : Text). mid ++ x) (replace-seq_token 89 _ by t refl t_clean))

  other_kept :
      (p : ℕ) (ps by year : Text)
      → (p == 83) ≡ false
      → HasNoBrace year
      → replace_from 0 (brace ∷ p ∷ ps) by (pre ++ (year ++ (mid ++ (seq_front ++ t))))
        ≡ pre ++ (year ++ (mid ++ (seq_front ++ t)))
  other_kept p ps by year h clean =
      replace-clean (p ∷ ps) by pre (year ++ (mid ++ (seq_front ++ t))) pre_clean
      ∙ ap (λ (x : Text). pre ++ x)
          (replace-clean (p ∷ ps) by year (mid ++ (seq_front ++ t)) clean
            ∙ ap (λ (x : Text). year ++ x)
                (replace-clean (p ∷ ps) by mid (seq_front ++ t) mid_clean
                  ∙ ap (λ (x : Text). mid ++ x) (replace-seq_token p ps by t h t_clean)))

sequence_replaced :
    (n d : ℕ) (ds pre year mid post : Text)
    → HasNoBrace pre
    → HasNoBrace year
    → HasNoBrace mid
    → HasNoBrace post
    → AreDigits (d ∷ ds)
    → replace_seq 0 n (pre ++ (year ++ (mid ++ (seq_front ++ ((d ∷ ds) ++ (close_brace ∷ post))))))
      ≡ pre ++ (year ++ (mid ++ (pad_start (parse_from 0 (d ∷ ds)) (print n) ++ post)))
sequence_replaced n d ds pre year mid post a b c e h =
    replace_seq-clean n pre _ a
    ∙ ap (λ (x : Text). pre ++ x)
        (replace_seq-clean n year _ b
          ∙ ap (λ (x : Text). year ++ x)
              (replace_seq-clean n mid _ c
                ∙ ap (λ (x : Text). mid ++ x)
                    (replace_seq-token n d ds post h
                      ∙ ap (λ (x : Text). pad_start (parse_from 0 (d ∷ ds)) (print n) ++ x)
                          (replace_seq-none n post e))))

IsCons : Text → Type 0
IsCons t = (d : ℕ) × (ds : Text) × (t ≡ d ∷ ds)

print_digits-IsCons : (fuel n r : ℕ) (rs : Text) → IsCons (print_digits fuel n (r ∷ rs))
unfolding print_digits IsCons
print_digits-IsCons zero n r rs = (r, rs, refl)
print_digits-IsCons (suc fuel) n r rs = elim (Bool-cases (ltb n 10)) [
  | inl small ↦ (48 + n, r ∷ rs, rw small refl)
  | inr big ↦
      let (d, ds, e) = print_digits-IsCons fuel (n / 10) (48 + n % 10) (r ∷ rs) in (d, ds, rw big e)
]

print-IsCons : (n : ℕ) → IsCons (print n)
unfolding print print_digits IsCons
print-IsCons n = elim (Bool-cases (ltb n 10)) [
  | inl small ↦ (48 + n, [], rw small refl)
  | inr big ↦ let (d, ds, e) = print_digits-IsCons n (n / 10) (48 + n % 10) [] in (d, ds, rw big e)
]

-- The sequence as the token of a width prints it.
sequence_printed :
    (n width : ℕ) (pre year mid post : Text)
    → HasNoBrace pre
    → HasNoBrace year
    → HasNoBrace mid
    → HasNoBrace post
    → replace_seq 0 n
        (pre ++ (year ++ (mid ++ (seq_front ++ (print width ++ (close_brace ∷ post))))))
      ≡ pre ++ (year ++ (mid ++ (pad_start width (print n) ++ post)))
unfolding IsCons
sequence_printed n width pre year mid post a b c e =
    let (d, ds, shown) = print-IsCons width in
    let digits : AreDigits (d ∷ ds) = subst AreDigits shown (print-AreDigits width) in
    let read : parse_from 0 (d ∷ ds) ≡ width = ap (parse_from 0) (sym shown) ∙ parse-print width in
    rw shown (
      sequence_replaced n d ds pre year mid post a b c e digits
      ∙ ap (λ (k : ℕ). pre ++ (year ++ (mid ++ (pad_start k (print n) ++ post)))) read)

-- A format of three texts without opening braces around a year and a sequence of some width prints
-- the texts as they are, the year, and the sequence padded with zeros to the width; the digits of
-- the year and of the sequence are read back as the year and the sequence.
pub format_then_parse :
    (pre mid post : Text) (width n year month day : ℕ)
    → HasNoBrace pre
    → HasNoBrace mid
    → HasNoBrace post
    → (format_document_number (yearly_format pre mid post width) n year month day
        ≡ pre ++ (print year ++ (mid ++ (pad_start width (print n) ++ post))))
      × (parse_from 0 (print year) ≡ year)
      × (parse_from 0 (pad_start width (print n)) ≡ n)
unfolding format_document_number
format_then_parse pre mid post width n year month day a b c =
    let t : Text = print width ++ (close_brace ∷ post) in
    let clean : HasNoBrace t = width-HasNoBrace width post c in
    let shown : HasNoBrace (print year) = digits-HasNoBrace (print year) (print-AreDigits year) in
    (
      rw
          (
            year_replaced pre mid t a b clean (print year),
            other_kept pre mid t a b clean 77 _ (pad_start 2 (print month)) (print year) refl shown,
            other_kept pre mid t a b clean 68 _ (pad_start 2 (print day)) (print year) refl shown,
          )
          (sequence_printed n width pre (print year) mid post a shown b c),
      parse-print year,
      parse-pad_start width n,
    )
