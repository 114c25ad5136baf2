-- ===== src/Std/Decimal.antt =====
-- `{}` on numbers: decimal digits, behind a minus sign for a negative number.
use nu_plugin_dns.Prelude.{
  ℕ, ℤ, pos, negsuc, zero, suc, ◌/◌, ◌%◌, String, ◌<>◌, ◌==◌, if◌then◌else◌,
}

digit : ℕ → String
digit n =
    if n == 0
    then "0"
    else if n == 1
    then "1"
    else if n == 2
    then "2"
    else if n == 3
    then "3"
    else if n == 4
    then "4"
    else if n == 5
    then "5"
    else if n == 6
    then "6"
    else if n == 7
    then "7"
    else if n == 8
    then "8"
    else "9"

-- A number has no more digits than `suc n`.
digits_of : ℕ → ℕ → String → String
digits_of zero n tail = tail
digits_of (suc fuel) n tail =
    let longer = digits_of fuel (n / 10) (digit (n % 10) <> tail) in
    if n / 10 == 0 then digit (n % 10) <> tail else longer

unfoldable pub show_ℕ : ℕ → String
unfolding digits_of digit
show_ℕ n = digits_of (suc n) n ""

unfoldable pub show_ℤ : ℤ → String
unfolding show_ℕ
show_ℤ (pos n) = show_ℕ n
show_ℤ (negsuc n) = "-" <> show_ℕ (suc n)
