-- ===== src/Node/Texts/Decimal.antt =====
-- Numbers printed in decimal and parsed back.
use multi_node_blockchain_kc.Prelude.{
  ℕ, zero, suc, ◌+◌, ◌*◌, ◌-◌, ◌/◌, ◌%◌, ◌^◌, ◌≤◌, ◌<◌, ◌≡◌, refl, [], ◌∷◌, ◌++◌, true, none, some,
  arith, ltb, All, All-append, if_cases, u64_max, length, length-append, ◌∙◌,
}
use multi_node_blockchain_kc.Node.Texts.{
  Text, digits, to_string, is_numeral, push_numeral, parse_from, parse_u64, first_part,
}

abbrev AreNumerals : Text → Type 0
AreNumerals = All (λ c. is_numeral c ≡ true)

digits-AreNumerals : (size n : ℕ) → AreNumerals (digits size n)
unfolding digits
digits-AreNumerals zero n = tt
digits-AreNumerals (suc size) n =
    if_cases AreNumerals (ltb n 10) (λ small. (ground (arith, small), tt))
      λ large.
        All-append _ (digits size (n / 10)) _ (digits-AreNumerals size (n / 10)) (ground arith, tt)

parse_from-append :
    (acc : ℕ) (text : Text) (c : ℕ)
    → parse_from acc (text ++ c ∷ [])
      ≡ elim (parse_from acc text) [ none ↦ none | some n ↦ push_numeral n c ]
parse_from-append acc [] c = ground arith
parse_from-append acc (d ∷ text) c =
    ground (arith, parse_from-append (acc * 10 + (d - b'0')) text c)

parse_from-digits :
    (size n : ℕ) → n < 10 ^ suc size → n ≤ u64_max → parse_from 0 (digits (suc size) n) ≡ some n
unfolding digits
parse_from-digits zero n small fits = ground arith
parse_from-digits (suc size) n small fits =
    if_cases (λ t. parse_from 0 t ≡ some n) (ltb n 10) (λ one. ground (arith, one))
      λ more.
        let prefix = parse_from-digits size (n / 10) (omega arith) (omega arith) in
        let last = parse_from-append 0 (digits (suc size) (n / 10)) (b'0' + n % 10) in
        ground (arith, prefix, last)

digits_nonempty : (size n : ℕ) → 0 < length (digits (suc size) n)
unfolding digits
digits_nonempty size n =
    let more = length-append (digits size (n / 10)) ((b'0' + n % 10) ∷ []) in ground (arith, more)

parse_u64-numerals :
    (text : Text) → AreNumerals text → 0 < length text → parse_u64 text ≡ parse_from 0 text
unfolding parse_u64
parse_u64-numerals [] h nonempty = ground arith
parse_u64-numerals (c ∷ []) h nonempty = refl
parse_u64-numerals (c ∷ d ∷ text) h nonempty = ground (arith, h.0)

-- A number of 64 bits is parsed back from its digits.
pub parse_u64-to_string : (n : ℕ) → n ≤ u64_max → parse_u64 (to_string n) ≡ some n
unfolding to_string
parse_u64-to_string n fits =
    parse_u64-numerals (digits 20 n) (digits-AreNumerals 20 n) (digits_nonempty 19 n)
    ∙ parse_from-digits 19 n (omega arith) fits

first_part-numerals :
    (text rest : Text) → AreNumerals text → first_part b'/' (text ++ b'/' ∷ rest) ≡ text
unfolding first_part
first_part-numerals [] rest h = ground arith
first_part-numerals (c ∷ text) rest h = ground (arith, h.0, first_part-numerals text rest h.1)

-- The first part of a path is the number that was put there.
pub first_part-to_string :
    (n : ℕ) (rest : Text) → first_part b'/' (to_string n ++ b'/' ∷ rest) ≡ to_string n
unfolding to_string
first_part-to_string n rest = first_part-numerals (digits 20 n) rest (digits-AreNumerals 20 n)
