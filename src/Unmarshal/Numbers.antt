-- ===== src/Unmarshal/Numbers.antt =====
-- What unmarshal.go uses of the package strconv, for base 10 and 64 bits.
use incite.Base.{
  ℕ, zero, suc, ◌+◌, ◌-◌, ◌*◌, ◌^◌, Bool, true, false, ◌||◌, ◌&&◌, List, [], ◌∷◌, Text, codes, ltb,
  leb, ◌==◌, if◌then◌else◌, text_eq,
}
use incite.Base.Int.{ℤ, pos, negsuc}

-- strconv.ErrSyntax and strconv.ErrRange.
pub data NumError : Type 0 where
  syntax range : NumError

pub data Parsed (A : Type 0) : Type 0 where
  value : A → Parsed A
  wrong : NumError → Parsed A

abbrev pub max_uint : ℕ
max_uint = 18446744073709551615

unfoldable pub is_digit : ℕ → Bool
is_digit c = leb 48 c && leb c 57

-- The loop of ParseUint, which stops at the first character that is wrong or leads out of range.
unfoldable pub parse_digits : ℕ → Text → Parsed ℕ
unfolding is_digit
parse_digits n [] = value n
parse_digits n (c ∷ cs) =
    let rest = parse_digits (n * 10 + (c - 48)) cs in
    if is_digit c
    then (if ltb max_uint (n * 10 + (c - 48)) then wrong range else rest)
    else wrong syntax

unfoldable pub parse_uint : Text → Parsed ℕ
unfolding parse_digits
parse_uint [] = wrong syntax
parse_uint (c ∷ cs) = parse_digits 0 (c ∷ cs)

-- The bounds of an int64.
abbrev pub signed : Bool → Parsed ℕ → Parsed ℤ
signed negative (wrong e) = wrong e
signed false (value n) = if ltb n (2 ^ 63) then value (pos n) else wrong range
signed true (value zero) = value (pos 0)
signed true (value (suc n)) = if leb (suc n) (2 ^ 63) then value (negsuc n) else wrong range

unfoldable pub parse_int : Text → Parsed ℤ
unfolding parse_uint
parse_int [] = wrong syntax
parse_int (c ∷ cs) =
    if c == 45
    then signed true (parse_uint cs)
    else if c == 43
    then signed false (parse_uint cs)
    else signed false (parse_uint (c ∷ cs))

abbrev pub one_of : Text → List Text → Bool
one_of t [] = false
one_of t (u ∷ us) = text_eq t u || one_of t us

abbrev true_texts : List Text
true_texts = codes "1" ∷ codes "t" ∷ codes "T" ∷ codes "TRUE" ∷ codes "true" ∷ codes "True" ∷ []

abbrev false_texts : List Text
false_texts = codes "0" ∷ codes "f" ∷ codes "F" ∷ codes "FALSE" ∷ codes "false" ∷ codes "False" ∷ []

unfoldable pub parse_bool : Text → Parsed Bool
parse_bool t =
    if one_of t true_texts
    then value true
    else if one_of t false_texts
    then value false
    else wrong syntax
