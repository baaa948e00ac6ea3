-- ===== src/Json/Numbers.antt =====
-- The order of the numbers that JSON has.
use reinforcement_learning_c.Prelude.{◌+◌, ◌*◌, Bool, true, false, ◌≡◌, refl, leb, arith}
use reinforcement_learning_c.Json.{Number, decimal, infinite, power}

-- `x <= y`
unfoldable pub number_le : Number → Number → Bool
unfolding power
number_le (infinite true) y = true
number_le (infinite false) (infinite false) = true
number_le (infinite false) (infinite true) = false
number_le (infinite false) (decimal _ _ _) = false
number_le (decimal _ _ _) (infinite false) = true
number_le (decimal _ _ _) (infinite true) = false
number_le (decimal false m s) (decimal false n t) = leb (m * power 10 t) (n * power 10 s)
number_le (decimal true m s) (decimal true n t) = leb (n * power 10 s) (m * power 10 t)
number_le (decimal true m s) (decimal false n t) = true
number_le (decimal false m s) (decimal true n t) = leb (m * power 10 t + n * power 10 s) 0

pub number_le_total : (x y : Number) → number_le x y ≡ false → number_le y x ≡ true
unfolding number_le
number_le_total (infinite true) (infinite true) h = refl
number_le_total (infinite true) y h = cc
number_le_total (infinite false) (infinite true) h = refl
number_le_total (infinite false) (infinite false) h = cc
number_le_total (infinite false) (decimal true m s) h = refl
number_le_total (infinite false) (decimal false m s) h = refl
number_le_total (decimal b m s) (infinite true) h = refl
number_le_total (decimal b m s) (infinite false) h = cc
number_le_total (decimal false m s) (decimal false n t) h = ground arith
number_le_total (decimal true m s) (decimal true n t) h = ground arith
number_le_total (decimal true m s) (decimal false n t) h = cc
number_le_total (decimal false m s) (decimal true n t) h = ground arith
