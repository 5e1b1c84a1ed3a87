-- ===== src/Decimal/Tests.antt =====
-- Runs of the arithmetic.
use live_auto_trading.Prelude.{◌≡◌, refl, some}
use live_auto_trading.Integer.{pos, negsuc}
use live_auto_trading.Decimal.{Decimal, div, quantize, half_even}

abbrev ten_thirds : Decimal
ten_thirds = record { coeff = pos 3333333333333333333333333333; places = 27 }

third :
    div (record { coeff = pos 10; places = 0 }) (record { coeff = pos 3; places = 0 })
    ≡ some ten_thirds
unfolding div
third = refl

fifth :
    div (record { coeff = pos 1; places = 0 }) (record { coeff = negsuc 4; places = 0 })
    ≡ some (record { coeff = negsuc 1999999999999999999999999999; places = 28 })
unfolding div
fifth = refl

quant :
    quantize 8 half_even (record { coeff = pos 25; places = 9 })
    ≡ some (record { coeff = pos 2; places = 8 })
unfolding quantize
quant = refl
