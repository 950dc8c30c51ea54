-- ===== src/Node/Texts.antt =====
-- What the files of crates/kcoin-node/src use of the standard library's text: a text is the list of
-- its UTF-8 bytes.
pub mod Decimal
use multi_node_blockchain_kc.Prelude.{
  ℕ, zero, suc, ◌+◌, ◌-◌, ◌*◌, ◌/◌, ◌%◌, List, [], ◌∷◌, ◌++◌, Bool, true, false, ◌&&◌, Option, none,
  some, ltb, leb, ◌==◌, if◌then◌else◌, bytes_discrete, u64_max,
}
use multi_node_blockchain_kc.Prelude.Maps.{Key}

abbrev pub Text : Type 0
Text = List ℕ

-- The order of `memcmp`, which SQLite's binary collation takes.
abbrev pub text_before : Text → Text → Bool
text_before [] [] = false
text_before [] (d ∷ ds) = true
text_before (c ∷ cs) [] = false
text_before (c ∷ cs) (d ∷ ds) = let rest = text_before cs ds in if c == d then rest else ltb c d

instance abbrev pub text_key : Key Text
text_key = record { dec = bytes_discrete; before = text_before }

-- The decimal digits of a number that has at most `size` of them.
unfoldable pub digits : ℕ → ℕ → Text
digits zero n = []
digits (suc size) n =
    let rest = digits size (n / 10) in
    if ltb n 10 then (b'0' + n) ∷ [] else rest ++ (b'0' + n % 10) ∷ []

-- `u64::to_string`: a number of 64 bits has at most 20 digits.
unfoldable pub to_string : ℕ → Text
unfolding digits
to_string n = digits 20 n

abbrev pub is_numeral : ℕ → Bool
is_numeral c = leb b'0' c && leb c b'9'

abbrev pub push_numeral : ℕ → ℕ → Option ℕ
push_numeral acc c =
    if is_numeral c && leb (acc * 10 + (c - b'0')) u64_max
    then some (acc * 10 + (c - b'0'))
    else none

abbrev pub parse_from : ℕ → Text → Option ℕ
parse_from acc [] = some acc
parse_from acc (c ∷ cs) = elim (push_numeral acc c) [ none ↦ none | some next ↦ parse_from next cs ]

-- `str::parse::<u64>`: the numerals may come after one `+`.
unfoldable pub parse_u64 : Text → Option ℕ
parse_u64 [] = none
parse_u64 (c ∷ []) = parse_from 0 (c ∷ [])
parse_u64 (c ∷ d ∷ cs) = if c == b'+' then parse_from 0 (d ∷ cs) else parse_from 0 (c ∷ d ∷ cs)

-- `split(separator).next()`: what stands before the first separator.
unfoldable pub first_part : ℕ → Text → Text
first_part separator [] = []
first_part separator (c ∷ cs) =
    let rest = first_part separator cs in if c == separator then [] else c ∷ rest

unfoldable pub starts_with : Text → Text → Bool
starts_with [] text = true
starts_with (p ∷ ps) [] = false
starts_with (p ∷ ps) (c ∷ cs) = (p == c) && starts_with ps cs
