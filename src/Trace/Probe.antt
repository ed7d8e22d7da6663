-- ===== src/Trace/Probe.antt =====
-- The packet of the first probe, les28_ping_tracert/src/tracert.c.
use summer_school.Base.{
  ℕ, ◌-◌, ◌<◌, ◌≡◌, ◌^◌, refl, ◌∙◌, some, List, [], ◌∷◌, get_or, length, arith,
}
use summer_school.Checksum.{checksum}
use summer_school.Checksum.Agree.{checksum-agree}
use summer_school.Checksum.Sum.{word, total, ones_sum}
use summer_school.Packet.{htons, char, short}
use summer_school.Packet.Writes.{IsBytes-replicate, written, written_one, get_elem?-written}
use summer_school.Packet.Header.{IsHeader, IsSealed, sealed-eq}
use summer_school.Trace.{blank, ip_header, echo_request, packet}

header-IsSealed : (source target : ℕ) → IsSealed (ip_header source target) 0 10 5 [] blank
unfolding word
header-IsSealed source target = record {
  bytes = IsBytes-replicate 28;
  inside = omega arith;
  inside_after = tt;
  behind = tt;
  fits = omega arith;
  field = omega arith;
  blank = refl;
}

-- `pck` with its IP header.
abbrev headed : (source target : ℕ) → List ℕ
headed source target =
    let filled = written (ip_header source target) blank in
    written_one (short 10 (0xFFFF - ones_sum (total filled 0 10))) filled

-- The packet as its receivers read it.
pub record IsProbe (source target : ℕ) (f : List ℕ) : Type 0 where
  pub sent : packet source target ≡ some f
  pub whole : length f ≡ 28
  pub header : IsHeader f 0 284 1 1 source target
  pub kind : get_or f 20 0 ≡ 8
  pub code : get_or f 21 0 ≡ 0
  pub accepted : checksum 100 f 20 28 ≡ some 0

-- For any two addresses the packet is written inside its 28 bytes: an IPv4 header that a receiver
-- accepts, with a time to live of 1 and a total length of 284, and an echo request of 8 bytes whose
-- checksum a receiver accepts.
pub packet_lem :
    (source target : ℕ) → source < 2 ^ 32 → target < 2 ^ 32 → (f : List ℕ) × IsProbe source target f
unfolding packet htons word
packet_lem source target h k =
    let (run, size, b, accepted) =
      sealed-eq (ip_header source target) 0 10 5 [] blank (header-IsSealed source target) in
    let pck = headed source target in
    let echo : IsSealed echo_request 20 4 1 [] pck = record {
      bytes = b;
      inside = omega (arith, size);
      inside_after = tt;
      behind = tt;
      fits = omega (arith, size);
      field = omega arith;
      blank = refl;
    } in
    let (run', size', b', accepted') = sealed-eq echo_request 20 4 1 [] pck echo in
    let c = 0xFFFF - ones_sum (total (written echo_request pck) 20 4) in
    (
      _,
      record {
        sent = rw run run';
        whole = size' ∙ size;
        header = record {
          version = refl;
          total_length = refl;
          time_to_live = refl;
          proto = refl;
          from = omega arith;
          to = omega arith;
          accepted =
              checksum-agree 100 _ pck 0 10 20 refl (λ i l.
                get_elem?-written (char 20 8 ∷ char 21 0 ∷ short 22 c ∷ []) pck i 20 l
                  (omega arith))
              ∙ accepted 100 (omega arith);
        };
        kind = refl;
        code = refl;
        accepted = accepted' 100 (omega arith);
      },
    )
