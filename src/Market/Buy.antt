-- ===== src/Market/Buy.antt =====
-- What one purchase moves (les14_threads/src/lifeSimulator.c, `buy`).
use summer_school.Base.{ℕ, ◌+◌, ◌≡◌, min, arith}
use summer_school.Market.{buy, buy_restrict}

-- A purchase moves as much as the storage has, the buyer wants and the limit allows, and the
-- storage loses what the buyer gets.
pub buy-eq-min :
    (remains demand : ℕ)
    → let k = min (min remains demand) buy_restrict in
      ((buy remains demand).0 + k ≡ remains) × ((buy remains demand).1 + k ≡ demand)
unfolding buy
buy-eq-min remains demand = ground arith
