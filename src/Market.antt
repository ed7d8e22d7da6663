-- ===== src/Market.antt =====
-- The market of les14_threads/src/lifeSimulator.c: two providers and three buyers on five storages,
-- each behind a mutex that is only tried. A turn is one test or call of one thread, and what is done
-- to the goods of a locked storage is one turn; any order of turns is a schedule. Amounts are `int`s that stay at 0 or above; `none` is the
-- overflow of one. The drawing of windows is left out.
pub mod Buy
pub mod Locks
pub mod Goods
mod Examples
use summer_school.Base.{
  ℕ, zero, suc, ◌+◌, ◌-◌, ◌^◌, Bool, true, false, not, ◌&&◌, Option, none, some, List, [], ◌∷◌, ltb,
  leb, ◌==◌, if◌then◌else◌, ◌>>=◌, put,
}

abbrev pub start_demand : ℕ
start_demand = 10000

abbrev pub buy_restrict : ℕ
buy_restrict = 150

abbrev pub start_amount : ℕ
start_amount = 1000

abbrev pub prov_amount : ℕ
prov_amount = 500

abbrev pub n_storages : ℕ
n_storages = 5

abbrev pub n_buyers : ℕ
n_buyers = 3

abbrev pub n_providers : ℕ
n_providers = 2

-- `provide`, on the amount of one storage.
pub provide : ℕ → Option ℕ
provide remains =
    if ltb (remains + prov_amount) (2 ^ 31) then some (remains + prov_amount) else none

-- `buy`, on the amount of one storage and the demand of one buyer.
pub buy : (remains demand : ℕ) → ℕ × ℕ
buy remains demand =
    if ltb 0 remains
    then (if leb remains buy_restrict && leb remains demand
        then (0, demand - remains)
        else if leb remains buy_restrict && ltb demand remains
        then (remains - demand, 0)
        else if ltb buy_restrict remains && leb buy_restrict demand
        then (remains - buy_restrict, demand - buy_restrict)
        else if ltb buy_restrict remains && ltb demand buy_restrict
        then (remains - demand, 0)
        else (remains, demand))
    else (remains, demand)

-- Where a thread stands: at the head of its `while`, at the storage `i` of its `for`, there as a buyer
-- that has seen goods and is about to try the lock, with that storage locked before or after the goods
-- are moved, or after its `while`.
pub data Pc : Type 0 where
  head : Pc
  look : ℕ → Pc
  trying : ℕ → Pc
  holding : ℕ → Pc
  leaving : ℕ → Pc
  finished : Pc

-- Threads below `n_providers` are providers, the others buyers. `demands` is indexed by the buyer.
pub record World : Type 0 where
  pub remains : ℕ → ℕ
  pub demands : ℕ → ℕ
  pub locked : ℕ → Bool
  pub pc : ℕ → Pc

-- `main`, when all threads are created.
pub initial : World
initial = record {
  remains = λ i. start_amount;
  demands = λ b. start_demand;
  locked = λ i. false;
  pc = λ t. head;
}

-- `pthread_mutex_trylock` by the thread `t` on the storage `i`: it enters, or goes on to `next`.
abbrev pub try_lock : World → (t i : ℕ) → Pc → World
try_lock w t i next =
    if w.locked i
    then record w { pc = put w.pc t next }
    else record w { locked = put w.locked i true; pc = put w.pc t (holding i) }

abbrev pub unlock : World → (t i : ℕ) → Pc → World
unlock w t i next = record w { locked = put w.locked i false; pc = put w.pc t next }

-- A turn of a provider, by where it stands (`provider_logic`). After a delivery it leaves the `for`.
pub provider_turn : Pc → ℕ → World → Option World
provider_turn head t w = some (record w { pc = put w.pc t (look 0) })
provider_turn (look i) t w =
    if ltb i n_storages
    then some (try_lock w t i (look (i + 1)))
    else some (record w { pc = put w.pc t head })
provider_turn (holding i) t w = provide (w.remains i) >>= λ amount.
    some (record w { remains = put w.remains i amount; pc = put w.pc t (leaving i) })
provider_turn (leaving i) t w = some (unlock w t i head)
provider_turn (trying i) t w = some w
provider_turn finished t w = some w

-- A turn of a buyer (`buyer_logic`). The amount is read before the lock is tried, and again in `buy`;
-- other threads may come between. The storage that is tried is one of the `for`, below `n_storages`.
pub buyer_turn : Pc → ℕ → World → World
buyer_turn head t w =
    if ltb 0 (w.demands (t - n_providers))
    then record w { pc = put w.pc t (look 0) }
    else record w { pc = put w.pc t finished }
buyer_turn (look i) t w =
    if ltb i n_storages
    then (if ltb 0 (w.remains i)
        then record w { pc = put w.pc t (trying i) }
        else record w { pc = put w.pc t (look (i + 1)) })
    else record w { pc = put w.pc t head }
buyer_turn (trying i) t w =
    if ltb i n_storages
    then try_lock w t i (look (i + 1))
    else record w { pc = put w.pc t (look (i + 1)) }
buyer_turn (holding i) t w =
    let (amount, demand) = buy (w.remains i) (w.demands (t - n_providers)) in
    record w {
      remains = put w.remains i amount;
      demands = put w.demands (t - n_providers) demand;
      pc = put w.pc t (leaving i);
    }
buyer_turn (leaving i) t w = unlock w t i (look (i + 1))
buyer_turn finished t w = w

pub turn : ℕ → World → Option World
turn t w =
    if ltb t n_providers
    then provider_turn (w.pc t) t w
    else if ltb t (n_providers + n_buyers)
    then some (buyer_turn (w.pc t) t w)
    else some w

-- The threads take turns in the order of a schedule.
pub run : List ℕ → World → Option World
run [] w = some w
run (t ∷ schedule) w = turn t w >>= run schedule
