-- ===== src/Tests/Periods.antt =====
-- Periods of a configuration file at concrete inputs.
use ensuro.Prelude.{ℕ, ◌≡◌, refl, arith, [], ◌∷◌, ◌++◌, map, ◌<◌}
use ensuro.Prelude.Int.{pos}
use ensuro.Prelude.Calls.{ok}
use ensuro.Config.Periods.{parse_period}
use ensuro.Config.Digits.{AllBelowTen, digit, value, counted, parse_period_lem}

small : AllBelowTen (1 ∷ 5 ∷ [])
unfolding AllBelowTen
small = (omega arith, (omega arith, tt))

-- `15d`
parse_period_lem_example :
    (parse_period (map digit (1 ∷ 5 ∷ []) ++ 100 ∷ []) ≡ counted (1 ∷ 5 ∷ []) 100)
    × ((d : ℕ)
        → d < 10
        → parse_period (map digit (d ∷ 1 ∷ 5 ∷ [])) ≡ ok (pos (value (d ∷ 1 ∷ 5 ∷ []))))
parse_period_lem_example = parse_period_lem (1 ∷ 5 ∷ []) 100 small (omega arith) refl
