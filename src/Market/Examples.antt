-- ===== src/Market/Examples.antt =====
-- The market on one schedule: a provider delivers to the first storage, the first buyer finds it
-- locked and buys from the second one.
use summer_school.Base.{
  ℕ, ◌+◌, ◌*◌, ◌≤◌, ◌≡◌, refl, true, none, some, Option, List, [], ◌∷◌, sum_of,
}
use summer_school.Market.{
  World, initial, run, n_storages, n_buyers, start_demand, start_amount, prov_amount, buy, provide,
  provider_turn, buyer_turn, turn,
}
use summer_school.Market.Locks.{inside, mutual_exclusion}
use summer_school.Market.Goods.{conservation, deliveries}

abbrev schedule : List ℕ
schedule = 0 ∷ 2 ∷ 0 ∷ 2 ∷ 2 ∷ 0 ∷ 2 ∷ 2 ∷ 2 ∷ []

abbrev outcome : Option World → World
outcome none = initial
outcome (some w) = w

abbrev reached : World
reached = outcome (run schedule initial)

run-reached : run schedule initial ≡ some reached
unfolding run turn provider_turn buyer_turn provide buy initial
run-reached = refl

buyer_inside : inside (reached.pc 2) 1 ≡ true
unfolding run turn provider_turn buyer_turn provide buy initial
buyer_inside = refl

mutual_exclusion_example : (◌≡◌ {A = ℕ} 2 2) × (reached.locked 1 ≡ true)
mutual_exclusion_example =
    mutual_exclusion schedule reached 2 2 1 run-reached buyer_inside buyer_inside

conservation_example :
    (sum_of n_storages reached.remains + n_buyers * start_demand
      ≡ n_storages * start_amount
        + sum_of n_buyers reached.demands
        + prov_amount * deliveries schedule initial)
    × (reached.demands 0 ≤ start_demand)
conservation_example = conservation schedule reached 0 run-reached
