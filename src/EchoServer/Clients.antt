-- ===== src/EchoServer/Clients.antt =====
-- Each client has its server to itself (les20_multiclient_chat/src/server.c, `tcpServer`).
use summer_school.Base.{
  ℕ, ◌+◌, ◌<◌, ◌≡◌, refl, ap, ◌∙◌, true, false, Bool-cases, inl, inr, List, [], ◌∷◌, ◌++◌, ltb,
  ◌==◌, if◌then◌else◌, put, overwrite, arith, ℕ_discrete,
}
use summer_school.EchoServer.{Event, connect, receive, Server, Sent, stamp, handle, run}

-- What the child `k` sends, out of everything that is sent.
unfoldable pub sent_by : ℕ → List Sent → List (List ℕ)
sent_by k [] = []
sent_by k (x ∷ xs) = let rest = sent_by k xs in if x.child == k then x.bytes ∷ rest else rest

-- What the child `k` receives.
unfoldable pub received_by : ℕ → List Event → List (List ℕ)
received_by k [] = []
received_by k (connect ∷ events) = received_by k events
received_by k (receive i content ∷ events) =
    let rest = received_by k events in if i == k then content ∷ rest else rest

-- A child alone with its client, from its buffer.
unfoldable pub answers : List ℕ → List (List ℕ) → List (List ℕ)
answers b [] = []
answers b (content ∷ texts) = let b' = stamp (overwrite b content) in b' ∷ answers b' texts

sent_by-append : (k : ℕ) (xs ys : List Sent) → sent_by k (xs ++ ys) ≡ sent_by k xs ++ sent_by k ys
unfolding sent_by
sent_by-append k [] ys = refl
sent_by-append k (x ∷ xs) ys = elim (Bool-cases (x.child == k)) [
  | inl mine ↦ rw mine (ap (λ r. x.bytes ∷ r) (sent_by-append k xs ys))
  | inr other ↦ rw other (sent_by-append k xs ys)
]

-- Whatever the other clients do in between, and however many connect, a child answers each text of
-- its own client, in order, as if it were alone.
pub run-answers :
    (events : List Event) (s : Server) (k : ℕ)
    → k < s.count
    → sent_by k (run events s).1 ≡ answers (s.children k) (received_by k events)
unfolding run handle sent_by received_by answers
run-answers [] s k h = refl
run-answers (connect ∷ events) s k h =
    let s₁ : Server = record s {
      children = put s.children s.count s.buffer;
      count = s.count + 1;
    } in
    ground (arith, run-answers events s₁ k (omega arith))
run-answers (receive i content ∷ events) s k h = elim (Bool-cases (ltb i s.count)) [
  | inl running ↦
      let b = stamp (overwrite (s.children i) content) in
      let s₁ : Server = record s { children = put s.children i b } in
      let rest = run-answers events s₁ k h in
      rw running (elim (ℕ_discrete i k) [
        | yes same ↦
            let here : (i == k) ≡ true = ground arith in
            let texts = received_by k events in
            let kept : s₁.children k ≡ b = rw here refl in
            let mine : b ≡ stamp (overwrite (s.children k) content) =
              ap (λ j. stamp (overwrite (s.children j) content)) same in
            rw here (
              ap (λ r. b ∷ r) rest
              ∙ ap (λ c. b ∷ answers c texts) kept
              ∙ ap (λ c. c ∷ answers c texts) mine)
        | no other ↦
            let there : (i == k) ≡ false = ground arith in
            let kept : s₁.children k ≡ s.children k = rw there refl in
            rw there (rest ∙ ap (λ c. answers c (received_by k events)) kept)
      ])
  | inr unknown ↦
      let there : (i == k) ≡ false = ground arith in rw (unknown, there) (run-answers events s k h)
]
