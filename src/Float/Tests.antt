-- ===== src/Float/Tests.antt =====
-- Runs of the `float` library on known values.
use tabmo_codding_challenge.Common.Result.{ok, err, invalid_argument, out_of_range}
use tabmo_codding_challenge.Common.Text.{codes}
use tabmo_codding_challenge.Common.{◌*◌, ◌^◌, ◌≡◌, refl, true, false}
use tabmo_codding_challenge.Common.Int.{pos, negsuc}
use tabmo_codding_challenge.Float.{nan, inf, fin, one, from_int, add, div}
use tabmo_codding_challenge.Float.Round.{round_ratio}
use tabmo_codding_challenge.Float.Stof.{stof}
use tabmo_codding_challenge.Float.Print.{print_fixed}

reads :
    (stof (codes "100") ≡ ok (fin false (100 * one)))
    × (stof (codes "  -1.5e1x") ≡ ok (fin true (15 * one)))
    × (stof (codes "0x1.8p1") ≡ ok (fin false (3 * one)))
    × (stof (codes "0.01") ≡ ok (fin false (10737418 * 2 ^ 119)))
    × (stof (codes "NaN") ≡ ok nan)
    × (stof (codes "-INF") ≡ ok (inf true))
    × (stof (codes "1e39") ≡ err out_of_range)
    × (stof (codes "1e-50") ≡ err out_of_range)
    × (stof (codes "0e0") ≡ ok (fin false 0))
    × (stof (codes "") ≡ err invalid_argument)
    × (stof (codes "abc") ≡ err invalid_argument)
unfolding stof round_ratio
reads = (refl, refl, refl, refl, refl, refl, refl, refl, refl, refl, refl)

prints :
    (print_fixed 2 (fin false (13421773 * 2 ^ 122)) ≡ codes "0.10")
    × (print_fixed 2 (fin true (2 * one)) ≡ codes "-2.00")
    × (print_fixed 2 nan ≡ codes "nan")
    × (print_fixed 6 (from_int (pos 320)) ≡ codes "320.000000")
unfolding print_fixed from_int round_ratio
prints = (refl, refl, refl, refl)

computes :
    (from_int (pos 16777217) ≡ fin false (16777216 * one))
    × (div (from_int (pos 1)) (from_int (pos 0)) ≡ inf false)
    × (add (from_int (negsuc 4)) (from_int (pos 3)) ≡ from_int (negsuc 1))
    × (print_fixed 6 (div (from_int (pos 1)) (from_int (pos 3))) ≡ codes "0.333333")
unfolding from_int div add print_fixed round_ratio
computes = (refl, refl, refl, refl)
