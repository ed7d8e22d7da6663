-- ===== src/Trace/Examples.antt =====
-- A traceroute of three probes to 192.168.0.30.
use summer_school.Base.{ℕ, ◌+◌, ◌≡◌, refl, List, [], ◌∷◌, ◌++◌, length, arith}
use summer_school.Trace.{Reply, Answer, timeout, received, State, start, finished, trace, result}
use summer_school.Trace.Route.{hops, ending, probes, trace_lem}

abbrev target : ℕ
target = 0x1E00A8C0

abbrev router : Answer
router = received (record { kind = 11; code = 0; saddr = 10 ∷ 0 ∷ 0 ∷ 1 ∷ [] }) 0x0100000A

abbrev there : Reply
there = record { kind = 0; code = 0; saddr = 192 ∷ 168 ∷ 0 ∷ 30 ∷ [] }

abbrev way : List Answer
way = router ∷ timeout ∷ []

trace_lem_example :
    (s : State) × (trace (way ++ received there target ∷ []) (start target 0 []) ≡ finished s)
    × (length s.sent ≡ length way + 1)
    × (s.sent ≡ probes 1 target (way ++ received there target ∷ []))
    × (s.screen ≡ hops 1 way ++ (ending 3 there ++ result 0 0 ∷ []))
trace_lem_example =
    trace_lem target 0 [] way [] there target (refl, (tt, tt)) (refl, (tt, tt)) (omega arith) refl
