-- ===== src/Unmarshal/Digits.antt =====
-- Decimal texts of numbers are decoded to these numbers (unmarshal.go: decodeColToUint).
use incite.Base.{
  ℕ, zero, suc, ◌+◌, ◌-◌, ◌*◌, ◌/◌, ◌%◌, ◌<◌, ◌≤◌, ◌≡◌, refl, ap, ◌∙◌, none, some, [], ◌∷◌, arith,
  true, false, ltb, ◌==◌, Text, Bool-cases, ==_iff, inl, inr, if◌then◌else◌,
}
use incite.Chunk.{itoa, itoa_from}
use incite.Unmarshal.Types.{GoType, kind, uint_kind}
use incite.Unmarshal.GoValues.{Value, uint, fits_uint}
use incite.Unmarshal.Numbers.{max_uint, is_digit, parse_digits, parse_uint, value}
use incite.Unmarshal.Columns.{Packages, to_uint, set_uint, decode, overflows}

digit-is_digit : (d : ℕ) → d < 10 → is_digit (48 + d) ≡ true
unfolding is_digit
digit-is_digit d h = ground (arith, h)

in_range : (n : ℕ) → n ≤ max_uint → ltb max_uint n ≡ false
in_range n h = ground (arith, h)

is_positive : (n : ℕ) → (n == 0) ≡ false → 0 < n
is_positive n h = ground (arith, h)

-- One more digit.
parse_digits-digit :
    (acc d : ℕ) (cs : Text)
    → d < 10
    → acc * 10 + d ≤ max_uint
    → parse_digits acc ((48 + d) ∷ cs) ≡ parse_digits (acc * 10 + d) cs
unfolding parse_digits
parse_digits-digit acc d cs h b =
    let less : (48 + d) - 48 ≡ d = omega arith in
    rw (digit-is_digit d h, less, in_range (acc * 10 + d) b) refl

parse_digits-itoa_from :
    (fuel n : ℕ) (cs : Text)
    → n < fuel
    → n ≤ max_uint
    → parse_digits 0 (itoa_from fuel n cs) ≡ parse_digits n cs
unfolding itoa_from
parse_digits-itoa_from zero n cs h b = absurd (omega (arith, h))
parse_digits-itoa_from (suc fuel) n cs h b = elim (Bool-cases (n / 10 == 0)) [
  | inl e ↦ rw e (
      parse_digits-digit 0 (n % 10) cs (omega arith) (omega arith)
      ∙ ap (λ k. parse_digits k cs) (omega (arith, (==_iff (n / 10) 0).0 e)))
  | inr e ↦ rw e (
      parse_digits-itoa_from fuel (n / 10) ((48 + n % 10) ∷ cs)
        (omega (arith, is_positive (n / 10) e)) (omega arith)
      ∙ parse_digits-digit (n / 10) (n % 10) cs (omega arith) (omega arith)
      ∙ ap (λ k. parse_digits k cs) (omega arith))
]

parse_uint-itoa_from :
    (fuel n c : ℕ) (cs : Text)
    → parse_uint (itoa_from fuel n (c ∷ cs)) ≡ parse_digits 0 (itoa_from fuel n (c ∷ cs))
unfolding itoa_from parse_uint
parse_uint-itoa_from zero n c cs = refl
parse_uint-itoa_from (suc fuel) n c cs = elim (Bool-cases (n / 10 == 0)) [
  | inl e ↦ rw e refl
  | inr e ↦ rw e (parse_uint-itoa_from fuel (n / 10) (48 + n % 10) (c ∷ cs))
]

parse_uint-cons : (n : ℕ) → parse_uint (itoa n) ≡ parse_digits 0 (itoa n)
unfolding itoa itoa_from parse_uint
parse_uint-cons n = elim (Bool-cases (n / 10 == 0)) [
  | inl e ↦ rw e refl
  | inr e ↦ rw e (parse_uint-itoa_from n (n / 10) (48 + n % 10) [])
]

parse_uint-itoa : (n : ℕ) → n ≤ max_uint → parse_uint (itoa n) ≡ value n
unfolding itoa parse_digits
parse_uint-itoa n b = parse_uint-cons n ∙ parse_digits-itoa_from (suc n) n [] (omega arith) b

-- A column with the decimal text of a number of 64 bits sets a field of an unsigned type to the
-- number, if it is in the range of the type, and is an overflow error that leaves the field as it
-- was, if not.
pub decode-uint :
    (p : Packages) (t : GoType) (b n : ℕ) (name : Text) (v : Value)
    → kind t ≡ uint_kind b
    → n ≤ max_uint
    → decode p to_uint t true (record { field = name; value = itoa n }) v
      ≡ (if fits_uint b n then some (uint n, none) else some (v, some (overflows (itoa n) t)))
unfolding decode set_uint
decode-uint p t b n name v k h = rw (k, parse_uint-itoa n h) refl
