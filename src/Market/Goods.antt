-- ===== src/Market/Goods.antt =====
-- The balance of the goods over a whole schedule (les14_threads/src/lifeSimulator.c).
use summer_school.Base.{
  ℕ, ◌+◌, ◌-◌, ◌*◌, ◌≤◌, ◌<◌, ◌≡◌, refl, Bool, true, none, some, List, [], ◌∷◌, arith, put, inl,
  inr, Bool-cases, Option-cases, if◌then◌else◌, ltb, sum_of, sum_of-put, subst, some-injective,
}
use summer_school.Market.{
  Pc, head, look, trying, holding, leaving, finished, World, initial, provide, buy, n_storages,
  n_providers, n_buyers, prov_amount, start_demand, start_amount, provider_turn, buyer_turn, turn,
  run, try_lock,
}
use summer_school.Market.Buy.{buy-eq-min}
use summer_school.Market.Locks.{IsSafe, turn-IsSafe, initial-IsSafe}

-- How many deliveries a turn of the thread makes: one, at a provider that holds a storage.
abbrev pub delivers : ℕ → World → ℕ
delivers t w = if ltb t n_providers then count (w.pc t) else 0
  where
    count : Pc → ℕ
    count (holding i) = 1
    count _ = 0

unfoldable pub deliveries : List ℕ → World → ℕ
deliveries [] w = 0
deliveries (t ∷ schedule) w =
    delivers t w + elim (turn t w) [ none ↦ 0 | some next ↦ deliveries schedule next ]

-- Between the worlds, what the storages gained and what the buyers got is what was delivered.
record IsBalanced (w w' : World) (k : ℕ) : Type 0 where
  goods :
      sum_of n_storages w'.remains + sum_of n_buyers w.demands
      ≡ sum_of n_storages w.remains + sum_of n_buyers w'.demands + prov_amount * k
  less : (b : ℕ) → w'.demands b ≤ w.demands b

arrive :
    {w w' : World} {v : World} {k : ℕ} → some w ≡ some w' → IsBalanced v w k → IsBalanced v w' k
arrive {v = v} {k = k} e b = subst (λ (x : World). IsBalanced v x k) (some-injective _ _ e) b

-- A turn that moves no goods.
idle :
    (w : World) (locked : ℕ → Bool) (pc : ℕ → Pc)
    → IsBalanced w (record w { locked = locked; pc = pc }) 0
idle w locked pc = record { goods = omega arith; less = λ b. omega arith }

idle_try : (w : World) (t i : ℕ) (p : Pc) → IsBalanced w (try_lock w t i p) 0
idle_try w t i p = elim (Bool-cases (w.locked i)) [
  | inl busy ↦ rw busy (idle w w.locked (put w.pc t p))
  | inr free ↦ rw free (idle w (put w.locked i true) (put w.pc t (holding i)))
]

delivered :
    (w : World) (i amount : ℕ) (pc : ℕ → Pc)
    → i < n_storages
    → provide (w.remains i) ≡ some amount
    → IsBalanced w (record w { remains = put w.remains i amount; pc = pc }) 1
unfolding provide
delivered w i amount pc small fine = record {
  goods = ground (arith, sum_of-put n_storages w.remains i amount);
  less = λ b. omega arith;
}

bought :
    (w : World) (i b : ℕ) (pc : ℕ → Pc)
    → i < n_storages
    → b < n_buyers
    → IsBalanced w
        (record w {
          remains = put w.remains i ((buy (w.remains i) (w.demands b)).0);
          demands = put w.demands b ((buy (w.remains i) (w.demands b)).1);
          pc = pc;
        })
        0
bought w i b pc small buyer =
    let (e, e') = buy-eq-min (w.remains i) (w.demands b) in
    let s = sum_of-put n_storages w.remains i ((buy (w.remains i) (w.demands b)).0) small in
    let s' = sum_of-put n_buyers w.demands b ((buy (w.remains i) (w.demands b)).1) buyer in
    record { goods = omega (arith, e, e', s, s'); less = λ c. ground (arith, e') }

provider_turn-IsBalanced :
    (p : Pc) (t : ℕ) (w w' : World)
    → w.pc t ≡ p
    → IsSafe w
    → ltb t n_providers ≡ true
    → provider_turn p t w ≡ some w'
    → IsBalanced w w' (delivers t w)
unfolding provider_turn
provider_turn-IsBalanced head t w w' e v h r = rw (h, e) (arrive r (idle w _ _))
provider_turn-IsBalanced (look i) t w w' e v h r = elim (Bool-cases (ltb i n_storages)) [
  | inl more ↦ rw (h, e) (arrive (rw more at r) (idle_try w t i (look (i + 1))))
  | inr last ↦ rw (h, e) (arrive (rw last at r) (idle w _ _))
]
provider_turn-IsBalanced (holding i) t w w' e v h r = elim (Option-cases (provide (w.remains i))) [
  | inl over ↦ absurd (cc)
  | inr (amount, fine) ↦
      rw (h, e)
        (arrive (rw fine at r) (delivered w i amount _ (v.bounded t i (ground (arith, e))) fine))
]
provider_turn-IsBalanced (leaving i) t w w' e v h r = rw (h, e) (arrive r (idle w _ _))
provider_turn-IsBalanced (trying i) t w w' e v h r = rw (h, e) (arrive r (idle w _ _))
provider_turn-IsBalanced finished t w w' e v h r = rw (h, e) (arrive r (idle w _ _))

buyer_turn-IsBalanced :
    (p : Pc) (t : ℕ) (w : World)
    → w.pc t ≡ p
    → IsSafe w
    → t < n_providers + n_buyers
    → IsBalanced w (buyer_turn p t w) 0
unfolding buyer_turn
buyer_turn-IsBalanced head t w e v h = elim (Bool-cases (ltb 0 (w.demands (t - n_providers)))) [
  | inl more ↦ rw more (idle w _ _)
  | inr enough ↦ rw enough (idle w _ _)
]
buyer_turn-IsBalanced (look i) t w e v h = elim (Bool-cases (ltb i n_storages)) [
  | inl more ↦ elim (Bool-cases (ltb 0 (w.remains i))) [
    | inl goods ↦ rw (more, goods) (idle w _ _)
    | inr bare ↦ rw (more, bare) (idle w _ _)
  ]
  | inr last ↦ rw last (idle w _ _)
]
buyer_turn-IsBalanced (trying i) t w e v h = elim (Bool-cases (ltb i n_storages)) [
  | inl more ↦ rw more (idle_try w t i (look (i + 1)))
  | inr last ↦ rw last (idle w _ _)
]
buyer_turn-IsBalanced (holding i) t w e v h =
    bought w i (t - n_providers) _ (v.bounded t i (ground (arith, e))) (omega arith)
buyer_turn-IsBalanced (leaving i) t w e v h = idle w _ _
buyer_turn-IsBalanced finished t w e v h = idle w _ _

turn-IsBalanced :
    (t : ℕ) (w w' : World) → IsSafe w → turn t w ≡ some w' → IsBalanced w w' (delivers t w)
unfolding turn
turn-IsBalanced t w w' v r = elim (Bool-cases (ltb t n_providers)) [
  | inl provider ↦ provider_turn-IsBalanced (w.pc t) t w w' refl v provider (rw provider at r)
  | inr other ↦ elim (Bool-cases (ltb t (n_providers + n_buyers))) [
    | inl buyer ↦
        rw other (
          arrive (rw (other, buyer) at r)
            (buyer_turn-IsBalanced (w.pc t) t w refl v (ground arith)))
    | inr nobody ↦ rw other (arrive (rw (other, nobody) at r) (idle w w.locked w.pc))
  ]
]

run-IsBalanced :
    (schedule : List ℕ) (w w' : World)
    → IsSafe w
    → run schedule w ≡ some w'
    → IsBalanced w w' (deliveries schedule w)
unfolding run deliveries
run-IsBalanced [] w w' v r = arrive r (idle w w.locked w.pc)
run-IsBalanced (t ∷ schedule) w w' v r = elim (Option-cases (turn t w)) [
  | inl over ↦ absurd (cc)
  | inr (next, fine) ↦
      let first = turn-IsBalanced t w next v fine in
      let rest = run-IsBalanced schedule next w' (turn-IsSafe t w next v fine) (rw fine at r) in
      rw fine (record {
        goods = omega (arith, first.goods, rest.goods);
        less = λ b. omega (arith, first.less b, rest.less b);
      })
]

-- Whatever order the threads of the initial market take turns in, no goods are lost and none appear:
-- what the storages hold and what the buyers got are together what the storages held at first and
-- 500 for each delivery, and no buyer's demand ever rises above what it was.
pub conservation :
    (schedule : List ℕ) (w : World) (b : ℕ)
    → run schedule initial ≡ some w
    → (sum_of n_storages w.remains + n_buyers * start_demand
        ≡ n_storages * start_amount
          + sum_of n_buyers w.demands
          + prov_amount * deliveries schedule initial)
      × (w.demands b ≤ start_demand)
unfolding initial sum_of
conservation schedule w b r =
    let all = run-IsBalanced schedule initial w initial-IsSafe r in
    (omega (arith, all.goods), omega (arith, all.less b))
