-- ===== src/Numbering/RoundTrip.antt =====
-- About the number that a format with a year and a sequence gives.
use biz360_sme_erp_e_tims.Base.{
  ℕ, suc, ◌+◌, true, false, ◌≡◌, refl, ◌∙◌, ap, none, some, [], ◌∷◌, ◌++◌, ◌==◌, length, All,
  All-map, arith,
}
use biz360_sme_erp_e_tims.Numbering.{
  Text, print, pad_start, parse_from, is_digit, brace, starts_with, replace_from, seq_front,
  digits_to_brace, seq_digits, replace_seq,
}
use biz360_sme_erp_e_tims.Numbering.Digits.{AreDigits}

-- No opening brace stands in the text.
abbrev pub HasNoBrace : Text → Type 0
HasNoBrace = All (λ (c : ℕ). (brace == c) ≡ false)

pub digits-HasNoBrace : (t : Text) → AreDigits t → HasNoBrace t
digits-HasNoBrace =
    All-map (λ (c : ℕ). is_digit c ≡ true) (λ (c : ℕ). (brace == c) ≡ false)
      (λ c h. ground (arith, h))

pub replace-clean :
    (ps by xs ys : Text)
    → HasNoBrace xs
    → replace_from 0 (brace ∷ ps) by (xs ++ ys) ≡ xs ++ replace_from 0 (brace ∷ ps) by ys
unfolding replace_from starts_with
replace-clean ps by [] ys h = refl
replace-clean ps by (x ∷ xs) ys h =
    rw h.0 (ap (λ (t : Text). x ∷ t) (replace-clean ps by xs ys h.1))

replace-none : (ps by xs : Text) → HasNoBrace xs → replace_from 0 (brace ∷ ps) by xs ≡ xs
unfolding replace_from starts_with
replace-none ps by [] h = refl
replace-none ps by (x ∷ xs) h = rw h.0 (ap (λ (t : Text). x ∷ t) (replace-none ps by xs h.1))

-- The token of the sequence is left alone by a pattern of another letter.
pub replace-seq_token :
    (p : ℕ) (ps by t : Text)
    → (p == 83) ≡ false
    → HasNoBrace t
    → replace_from 0 (brace ∷ p ∷ ps) by (seq_front ++ t) ≡ seq_front ++ t
unfolding replace_from starts_with
replace-seq_token p ps by t h clean = rw (h, replace-none (p ∷ ps) by t clean) refl

seq_digits-none : (c : ℕ) (t : Text) → (brace == c) ≡ false → seq_digits (c ∷ t) ≡ none
unfolding seq_digits starts_with
seq_digits-none c [] h = refl
seq_digits-none c (a ∷ []) h = refl
seq_digits-none c (a ∷ b ∷ []) h = refl
seq_digits-none c (a ∷ b ∷ d ∷ []) h = refl
seq_digits-none c (a ∷ b ∷ d ∷ e ∷ t) h = rw h refl

step-none :
    (n c : ℕ) (t : Text)
    → seq_digits (c ∷ t) ≡ none
    → replace_seq 0 n (c ∷ t) ≡ c ∷ replace_seq 0 n t
unfolding replace_seq
step-none n c t e = rw (e, replace_seq) refl

step-some :
    (n c : ℕ) (t ds : Text)
    → seq_digits (c ∷ t) ≡ some ds
    → replace_seq 0 n (c ∷ t)
      ≡ pad_start (parse_from 0 ds) (print n) ++ replace_seq (length ds + 5) n t
unfolding replace_seq
step-some n c t ds e = rw (e, replace_seq) refl

pub replace_seq-clean :
    (n : ℕ) (xs ys : Text) → HasNoBrace xs → replace_seq 0 n (xs ++ ys) ≡ xs ++ replace_seq 0 n ys
unfolding replace_seq
replace_seq-clean n [] ys h = refl
replace_seq-clean n (x ∷ xs) ys h =
    step-none n x (xs ++ ys) (seq_digits-none x (xs ++ ys) h.0)
    ∙ (ap (λ (t : Text). x ∷ t) (replace_seq-clean n xs ys h.1))

pub replace_seq-none : (n : ℕ) (xs : Text) → HasNoBrace xs → replace_seq 0 n xs ≡ xs
unfolding replace_seq
replace_seq-none n [] h = refl
replace_seq-none n (x ∷ xs) h =
    step-none n x xs (seq_digits-none x xs h.0)
    ∙ (ap (λ (t : Text). x ∷ t) (replace_seq-none n xs h.1))

digits_to_brace-found :
    (ds post : Text) → AreDigits ds → digits_to_brace (ds ++ (125 ∷ post)) ≡ some ds
unfolding digits_to_brace
digits_to_brace-found [] post h = refl
digits_to_brace-found (d ∷ ds) post h = rw (h.0, digits_to_brace-found ds post h.1) refl

skip_digits :
    (n : ℕ) (ds post : Text)
    → replace_seq (suc (length ds)) n (ds ++ (125 ∷ post)) ≡ replace_seq 0 n post
unfolding replace_seq
skip_digits n [] post = refl
skip_digits n (d ∷ ds) post = skip_digits n ds post

skip_four :
    (k n a b c d : ℕ) (t : Text)
    → replace_seq (suc (suc (suc (suc k)))) n (a ∷ b ∷ c ∷ d ∷ t) ≡ replace_seq k n t
unfolding replace_seq
skip_four k n a b c d t = refl

skip_token :
    (n : ℕ) (ds post : Text)
    → replace_seq (length ds + 5) n (83 ∷ 69 ∷ 81 ∷ 58 ∷ (ds ++ (125 ∷ post)))
      ≡ replace_seq 0 n post
skip_token n ds post =
    ap (λ (k : ℕ). replace_seq k n (83 ∷ 69 ∷ 81 ∷ 58 ∷ (ds ++ (125 ∷ post)))) (five (length ds))
    ∙ (skip_four (suc (length ds)) n 83 69 81 58 (ds ++ (125 ∷ post)) ∙ skip_digits n ds post)
  where
    five : (k : ℕ) → k + 5 ≡ suc (suc (suc (suc (suc k))))
    five k = omega arith

token_digits :
    (d : ℕ) (ds post : Text)
    → AreDigits (d ∷ ds)
    → seq_digits (seq_front ++ ((d ∷ ds) ++ (125 ∷ post))) ≡ some (d ∷ ds)
unfolding seq_digits starts_with
token_digits d ds post h = rw (digits_to_brace-found (d ∷ ds) post h) refl

pub replace_seq-token :
    (n d : ℕ) (ds post : Text)
    → AreDigits (d ∷ ds)
    → replace_seq 0 n (seq_front ++ ((d ∷ ds) ++ (125 ∷ post)))
      ≡ pad_start (parse_from 0 (d ∷ ds)) (print n) ++ replace_seq 0 n post
replace_seq-token n d ds post h =
    step-some n 123 (83 ∷ 69 ∷ 81 ∷ 58 ∷ ((d ∷ ds) ++ (125 ∷ post))) (d ∷ ds)
      (token_digits d ds post h)
    ∙ ap (λ (t : Text). pad_start (parse_from 0 (d ∷ ds)) (print n) ++ t)
        (skip_token n (d ∷ ds) post)
