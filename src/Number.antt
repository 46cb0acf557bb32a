-- ===== src/Number.antt =====
-- Signed results of Go's number parsers, `strconv.Atoi` and `fmt.Sscanf(s, "%d", …)`.
use scopepilot.Prelude.{
  ℕ, zero, suc, ◌+◌, ◌-◌, ◌*◌, ◌^◌, ◌≡◌, refl, Bool, true, false, ◌&&◌, ◌||◌, [], ◌∷◌, Option, none,
  some, leb, ltb, ◌==◌, if◌then◌else◌,
}
use scopepilot.Text.{Text, text_eq}

-- `negsuc n` is -(n + 1).
pub data ℤ : Type 0 where
  pos : ℕ → ℤ
  negsuc : ℕ → ℤ

abbrev pub negate : ℕ → ℤ
negate zero = pos 0
negate (suc n) = negsuc n

pub is_digit : ℕ → Bool
is_digit c = leb b'0' c && leb c b'9'

-- The digits that begin a text.
unfoldable pub digits_of : Text → Text
unfolding is_digit
digits_of [] = []
digits_of (c ∷ s) = if is_digit c then c ∷ digits_of s else []

unfoldable pub decimal_from : ℕ → Text → ℕ
decimal_from acc [] = acc
decimal_from acc (c ∷ s) = decimal_from (acc * 10 + (c - b'0')) s

-- An `int` has 64 bits: a magnitude past its range is an error.
abbrev pub signed : Bool → ℕ → Option ℤ
signed true n = if leb n (2 ^ 63) then some (negate n) else none
signed false n = if ltb n (2 ^ 63) then some (pos n) else none

scan_digits : Bool → Text → Text → Option ℤ
unfolding decimal_from
scan_digits neg rest [] = none
scan_digits neg rest (c ∷ s) = signed neg (decimal_from 0 (c ∷ s))

-- An optional sign, then at least one digit; what follows the digits is left unread.
unfoldable pub scan_int : Text → Option ℤ
unfolding digits_of scan_digits
scan_int [] = none
scan_int (c ∷ s) =
    if c == b'-'
    then scan_digits true s (digits_of s)
    else if c == b'+'
    then scan_digits false s (digits_of s)
    else scan_digits false (c ∷ s) (digits_of (c ∷ s))

abbrev after_sign : Text → Text
after_sign [] = []
after_sign (c ∷ s) = if (c == b'-') || (c == b'+') then s else c ∷ s

-- `strconv.Atoi`: the same, and nothing may follow the digits.
unfoldable pub atoi : Text → Option ℤ
unfolding scan_int
atoi s = if text_eq (digits_of (after_sign s)) (after_sign s) then scan_int s else none

atoi_port : atoi (b'8' ∷ b'0' ∷ []) ≡ some (pos 80)
unfolding atoi
atoi_port = refl

atoi_sign : atoi (b'+' ∷ b'8' ∷ []) ≡ some (pos 8)
unfolding atoi
atoi_sign = refl
