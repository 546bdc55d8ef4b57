-- ===== src/Money/Tests.antt =====
-- Runs of the money code on concrete inputs.
use wagering_wallet_service.Base.{
  ◌-ℤ◌, ◌+ℤ◌, MoneyError, ◌>>=◌, of_money, ok, err, pos, negsuc, ◌<ℤ◌, max_int64, min_int64,
  InInt64, wrap64, codes, ◌≡◌, refl, ◌↔◌, true, false, arith,
}
use wagering_wallet_service.Money.{Money, add, sub, add_exact, sub_exact, cmp, neg, equal}
use wagering_wallet_service.Money.Exact.{Compatible, add_exact_lem, sub_exact_lem}
use wagering_wallet_service.Money.Inverse.{sub-add, cmp_lem, neg-neg}
use wagering_wallet_service.Money.Decimal.RoundTrip.{parse-to_string}
use wagering_wallet_service.Money.Decimal.Canonical.{to_string-parse}
use wagering_wallet_service.Money.{brl}
use wagering_wallet_service.Money.Decimal.{parse, to_string}

parse_example : parse (codes "25.50") "BRL" ≡ ok (record { minor = pos 2550; currency = brl })
unfolding parse wrap64
parse_example = refl

parse_max :
    parse (codes "92233720368547758.07") "BRL"
    ≡ ok (record { minor = pos max_int64; currency = brl })
unfolding parse wrap64
parse_max = refl

parse_over : parse (codes "92233720368547758.08") "BRL" ≡ err (of_money MoneyError.overflow)
unfolding parse wrap64
parse_over = refl

parse_padded : parse (codes "025.50") "BRL" ≡ err (of_money MoneyError.invalid_amount)
unfolding parse wrap64
parse_padded = refl

print_negative : to_string (record { minor = negsuc 4; currency = brl }) ≡ codes "-0.05"
unfolding to_string
print_negative = refl

print_example : to_string (record { minor = pos 123456; currency = brl }) ≡ codes "1234.56"
unfolding to_string
print_example = refl

abbrev ten : Money
ten = record { minor = pos 1000; currency = brl }

abbrev loss_of_three : Money
loss_of_three = record { minor = negsuc 299; currency = brl }

small : InInt64 (pos 1000)
small = ground arith

small_negative : InInt64 (negsuc 299)
small_negative = ground arith

ten-Compatible : Compatible ten loss_of_three
ten-Compatible = record { same = refl; known = refl; left = small; right = small_negative }

add_exact_example : add_exact (pos max_int64) (pos 1) ≡ err (of_money MoneyError.overflow)
unfolding ◌+ℤ◌
add_exact_example = add_exact_lem (pos max_int64) (pos 1) (ground arith) (ground arith)

sub_exact_example : sub_exact min_int64 (pos 1) ≡ err (of_money MoneyError.overflow)
unfolding ◌-ℤ◌
sub_exact_example = sub_exact_lem min_int64 (pos 1) (ground arith) (ground arith)

sub-add_example : sub (record { minor = pos 700; currency = brl }) loss_of_three ≡ ok ten
unfolding add wrap64 ◌+ℤ◌
sub-add_example = sub-add ten loss_of_three small small_negative refl

cmp_example :
    ((cmp ten loss_of_three ≡ ok (negsuc 0)) ↔ (pos 1000 <ℤ negsuc 299))
    × ((cmp ten loss_of_three ≡ ok (pos 1)) ↔ (negsuc 299 <ℤ pos 1000))
    × ((cmp ten loss_of_three ≡ ok (pos 0)) ↔ (equal ten loss_of_three ≡ true))
cmp_example = cmp_lem ten-Compatible

neg-neg_example : (neg loss_of_three >>= neg) ≡ ok loss_of_three
neg-neg_example = neg-neg loss_of_three small_negative refl (ground arith)

parse-to_string_example :
    parse (to_string (record { minor = pos 2550; currency = brl })) "BRL"
    ≡ ok (record { minor = pos 2550; currency = brl })
parse-to_string_example = parse-to_string 2550 brl (ground arith) refl

to_string-parse_example :
    (to_string (record { minor = pos 2550; currency = brl }) ≡ codes "25.50")
    × (false ≡ false)
    × (true ≡ true)
    × InInt64 (pos 2550)
to_string-parse_example = to_string-parse (codes "25.50") "BRL" parse_example
