-- ===== src/Market/Locks.antt =====
-- Mutual exclusion on the storages (les14_threads/src/lifeSimulator.c).
use summer_school.Base.{
  ℕ, ◌+◌, ◌-◌, ◌<◌, ◌≡◌, refl, ◌∙◌, sym, Bool, true, false, some, List, [], ◌∷◌, ◌==◌, arith, put,
  ℕ_discrete, Bool-cases, inl, inr, Option-cases, ltb, subst, some-injective,
}
use summer_school.Market.{
  Pc, try_lock, head, look, trying, holding, leaving, finished, World, initial, provide, n_storages,
  n_providers, n_buyers, provider_turn, buyer_turn, turn, run,
}

-- The thread is between the lock and the unlock of the storage.
abbrev pub inside : Pc → ℕ → Bool
inside (holding i) j = i == j
inside (leaving i) j = i == j
inside _ j = false

-- A storage is locked exactly when some thread is inside it, and that is one thread.
pub record IsLocked (locked : ℕ → Bool) (pc : ℕ → Pc) : Type 0 where
  pub entered : (t i : ℕ) → inside (pc t) i ≡ true → locked i ≡ true
  pub held : (i : ℕ) → locked i ≡ true → (t : ℕ) × (inside (pc t) i ≡ true)
  pub unique : (t u i : ℕ) → inside (pc t) i ≡ true → inside (pc u) i ≡ true → t ≡ u
  pub bounded : (t i : ℕ) → inside (pc t) i ≡ true → i < n_storages

module _ {locked : ℕ → Bool} {pc : ℕ → Pc} (v : IsLocked locked pc) (t : ℕ) where
  -- The thread moves on with no lock taken or given back.
  stay : (p : Pc) → ((i : ℕ) → inside p i ≡ inside (pc t) i) → IsLocked locked (put pc t p)
  stay p same = record {
    entered = λ u i h. v.entered u i (back u i h);
    held = λ i h. let (u, k) = v.held i h in (u, ground (arith, same i));
    unique = λ u w i h k. v.unique u w i (back u i h) (back w i k);
    bounded = λ u i h. v.bounded u i (back u i h);
  }
    where
      back : (u i : ℕ) → inside (put pc t p u) i ≡ true → inside (pc u) i ≡ true
      back u i h = ground (arith, same i)

  acquire :
      (i : ℕ)
      → locked i ≡ false
      → i < n_storages
      → ((j : ℕ) → inside (pc t) j ≡ false)
      → IsLocked (put locked i true) (put pc t (holding i))
  acquire i free small out = record {
    entered = λ u j h. ground (arith, v.entered u j);
    held = λ j h. elim (ℕ_discrete i j) [
      | yes same ↦ (t, ground arith)
      | no other ↦ let (u, k) = v.held j (ground arith) in (u, ground (arith, out j))
    ];
    unique = λ u w j h k. ground (arith, v.unique u w j, v.entered u j, v.entered w j);
    bounded = λ u j h. ground (arith, v.bounded u j);
  }

  release :
      (i : ℕ) (p : Pc)
      → ((j : ℕ) → inside (pc t) j ≡ (i == j))
      → ((j : ℕ) → inside p j ≡ false)
      → IsLocked (put locked i false) (put pc t p)
  release i p here out = record {
    entered = λ u j h. ground (arith, v.entered u j, v.unique u t j, here j, out j);
    held = λ j h. let (u, k) = v.held j (ground arith) in (u, ground (arith, here j));
    unique = λ u w j h k. ground (arith, v.unique u w j, out j);
    bounded = λ u j h. ground (arith, v.bounded u j, out j);
  }

abbrev pub IsSafe : World → Type 0
IsSafe w = IsLocked w.locked w.pc

-- A thread that tries a lock from outside every storage.
try_lock-IsSafe :
    (w : World) (t i : ℕ) (p : Pc)
    → IsSafe w
    → i < n_storages
    → ((j : ℕ) → inside (w.pc t) j ≡ false)
    → ((j : ℕ) → inside p j ≡ false)
    → IsSafe (try_lock w t i p)
try_lock-IsSafe w t i p v small out after = elim (Bool-cases (w.locked i)) [
  | inl busy ↦ rw busy (stay v t p (λ j. after j ∙ sym (out j)))
  | inr free ↦ rw free (acquire v t i free small out)
]

-- The thread stands outside.
pass :
    (w : World) (t : ℕ) (p q : Pc)
    → IsSafe w
    → w.pc t ≡ q
    → ((j : ℕ) → inside p j ≡ inside q j)
    → IsLocked w.locked (put w.pc t p)
pass w t p q v e same = stay v t p (λ j. same j ∙ sym (rw e refl))

-- What a turn leads to is one world.
pub arrive : {w w' : World} → some w ≡ some w' → IsSafe w → IsSafe w'
arrive e v = subst IsSafe (some-injective _ _ e) v

-- A thread at the storage `i` of its `for`, when there is one.
look-IsSafe :
    (w : World) (t i : ℕ)
    → w.pc t ≡ look i
    → IsSafe w
    → ltb i n_storages ≡ true
    → IsSafe (try_lock w t i (look (i + 1)))
look-IsSafe w t i e v small =
    try_lock-IsSafe w t i (look (i + 1)) v (ground arith) (λ j. rw e refl) (λ j. refl)

provider_turn-IsSafe :
    (p : Pc) (t : ℕ) (w w' : World)
    → w.pc t ≡ p
    → IsSafe w
    → provider_turn p t w ≡ some w'
    → IsSafe w'
unfolding provider_turn
provider_turn-IsSafe head t w w' e v r = arrive r (pass w t (look 0) head v e (λ j. refl))
provider_turn-IsSafe (look i) t w w' e v r = elim (Bool-cases (ltb i n_storages)) [
  | inl more ↦ arrive (rw more at r) (look-IsSafe w t i e v more)
  | inr last ↦ arrive (rw last at r) (pass w t head (look i) v e (λ j. refl))
]
provider_turn-IsSafe (holding i) t w w' e v r = elim (Option-cases (provide (w.remains i))) [
  | inl over ↦ absurd (cc)
  | inr (amount, fine) ↦ arrive (rw fine at r) (pass w t (leaving i) (holding i) v e (λ j. refl))
]
provider_turn-IsSafe (leaving i) t w w' e v r =
    arrive r (release v t i head (λ j. rw e refl) (λ j. refl))
provider_turn-IsSafe (trying i) t w w' e v r = arrive r v
provider_turn-IsSafe finished t w w' e v r = arrive r v

buyer_turn-IsSafe : (p : Pc) (t : ℕ) (w : World) → w.pc t ≡ p → IsSafe w → IsSafe (buyer_turn p t w)
unfolding buyer_turn
buyer_turn-IsSafe head t w e v = elim (Bool-cases (ltb 0 (w.demands (t - n_providers)))) [
  | inl more ↦ rw more (pass w t (look 0) head v e (λ j. refl))
  | inr enough ↦ rw enough (pass w t finished head v e (λ j. refl))
]
buyer_turn-IsSafe (look i) t w e v = elim (Bool-cases (ltb i n_storages)) [
  | inl more ↦ elim (Bool-cases (ltb 0 (w.remains i))) [
    | inl goods ↦ rw (more, goods) (pass w t (trying i) (look i) v e (λ j. refl))
    | inr bare ↦ rw (more, bare) (pass w t (look (i + 1)) (look i) v e (λ j. refl))
  ]
  | inr last ↦ rw last (pass w t head (look i) v e (λ j. refl))
]
buyer_turn-IsSafe (trying i) t w e v = elim (Bool-cases (ltb i n_storages)) [
  | inl more ↦
      rw more (try_lock-IsSafe w t i (look (i + 1)) v (ground arith) (λ j. rw e refl) (λ j. refl))
  | inr last ↦ rw last (pass w t (look (i + 1)) (trying i) v e (λ j. refl))
]
buyer_turn-IsSafe (holding i) t w e v = pass w t (leaving i) (holding i) v e (λ j. refl)
buyer_turn-IsSafe (leaving i) t w e v = release v t i (look (i + 1)) (λ j. rw e refl) (λ j. refl)
buyer_turn-IsSafe finished t w e v = v

pub turn-IsSafe : (t : ℕ) (w w' : World) → IsSafe w → turn t w ≡ some w' → IsSafe w'
unfolding turn
turn-IsSafe t w w' v r = elim (Bool-cases (ltb t n_providers)) [
  | inl provider ↦ provider_turn-IsSafe (w.pc t) t w w' refl v (rw provider at r)
  | inr other ↦ elim (Bool-cases (ltb t (n_providers + n_buyers))) [
    | inl buyer ↦ arrive (rw (other, buyer) at r) (buyer_turn-IsSafe (w.pc t) t w refl v)
    | inr nobody ↦ arrive (rw (other, nobody) at r) v
  ]
]

-- Whatever order the threads take turns in, the locks stay right.
pub run-IsSafe :
    (schedule : List ℕ) (w w' : World) → IsSafe w → run schedule w ≡ some w' → IsSafe w'
unfolding run
run-IsSafe [] w w' v r = arrive r v
run-IsSafe (t ∷ schedule) w w' v r = elim (Option-cases (turn t w)) [
  | inl over ↦ absurd (cc)
  | inr (next, fine) ↦ run-IsSafe schedule next w' (turn-IsSafe t w next v fine) (rw fine at r)
]

pub initial-IsSafe : IsSafe initial
unfolding initial
initial-IsSafe = record {
  entered = λ t i h. absurd (ground arith);
  held = λ i h. absurd (ground arith);
  unique = λ t u i h k. absurd (ground arith);
  bounded = λ t i h. absurd (ground arith);
}

-- Whatever order the threads of the initial market take turns in, two threads that are between the
-- lock and the unlock of one storage are the same thread, and that storage is locked.
pub mutual_exclusion :
    (schedule : List ℕ) (w : World) (t u i : ℕ)
    → run schedule initial ≡ some w
    → inside (w.pc t) i ≡ true
    → inside (w.pc u) i ≡ true
    → (t ≡ u) × (w.locked i ≡ true)
mutual_exclusion schedule w t u i r h k =
    let v = run-IsSafe schedule initial w initial-IsSafe r in (v.unique t u i h k, v.entered t i h)
