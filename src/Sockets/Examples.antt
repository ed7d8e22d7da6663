-- ===== src/Sockets/Examples.antt =====
-- Exchanges of the two programs.
use summer_school.Base.{
  length, ℕ, zero, suc, ◌≡◌, refl, List, [], ◌∷◌, replicate, map, arith, overwrite,
}
use summer_school.Sockets.{
  hello, udp_server, udp_client, Move, sends, receives, answers, run, connected,
}
use summer_school.Sockets.Datagrams.{replies, prints, datagrams_lem}
use summer_school.Sockets.Stream.{texts, IsOn, round, stream_lem}

datagrams_lem_example :
    (udp_server (replicate 256 7) (replicate 3 hello) ≡ replies 3 0 (replicate 231 7))
    × (map udp_client (udp_server (replicate 256 7) (replicate 3 hello)) ≡ prints 3 0)
datagrams_lem_example = datagrams_lem 3 (replicate 256 7) (omega arith) refl

abbrev rounds : (count given : ℕ) → List Move
rounds zero given = []
rounds (suc count) given = sends ∷ answers given ∷ receives given ∷ rounds count given

stream_lem_example :
    let k = run (rounds 2 5) (connected (replicate 256 7)) in
    (k.printed ≡ texts (length k.printed)) × IsOn k (run (round 5 6) k)
stream_lem_example =
    stream_lem (replicate 256 7) (rounds 2 5) 5 6 (omega arith) (omega arith) (omega arith)
      (omega arith)

-- All letters, and the last again in the round behind them.
alphabet : (run (rounds 27 9) (connected (replicate 256 7))).printed ≡ texts 27
unfolding run connected overwrite
alphabet = refl

-- When the network gives three bytes and then two, the answers to one message are two.
torn :
    (run
      (sends ∷ answers 3 ∷ answers 2 ∷ receives 5 ∷ receives 5 ∷ [])
      (connected (replicate 256 7))).to_client
    ≡ b'l' ∷ b'B' ∷ b'l' ∷ 7 ∷ 7 ∷ []
unfolding run connected overwrite
torn = refl
