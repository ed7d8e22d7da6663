-- ===== src/Packet/Syn.antt =====
-- The TCP packet that opens a connection, les26_syn_storm/src/main.c. What `inet_addr` gives for the
-- two addresses is an argument, and so is what the stack holds in the pseudo header, which is filled
-- in part only.
use summer_school.Base.{
  ℕ, zero, suc, ◌+◌, ◌-◌, ◌*◌, ◌/◌, ◌%◌, ◌<◌, ◌≡◌, ◌^◌, refl, Option, none, some, List, [], ◌∷◌,
  get_or, replicate, length, arith, take, drop, ◌++◌, ◌>>=◌, ◌==◌, if◌then◌else◌, ◌∙◌,
}
use summer_school.Checksum.{checksum}
use summer_school.Checksum.Sum.{IsBytes, word, total, ones_sum}
use summer_school.Packet.{
  Put, char, short, int, htons, htonl, put16, puts, sealed, string_at, copied,
}
use summer_school.Checksum.Agree.{checksum-agree}
use summer_school.Checksum.Verify.{checksum-eq}
use summer_school.Packet.Writes.{
  IsBytes-replicate, written, written_one, length-written, length-written_one, IsBytes-written,
  puts-eq, put16-eq, get_elem?-written,
}
use summer_school.Packet.Header.{IsHeader, IsSealed, net16, net32, host16, host32, sealed-eq}

-- `bzero(&pck, sizeof(pck))`
abbrev pub blank : List ℕ
blank = replicate 60 0

abbrev pub ip_header : (source target : ℕ) → List Put
ip_header source target =
    char 0 0x45
    ∷ char 1 0
    ∷ short 2 (htons 60)
    ∷ short 4 (htons 1)
    ∷ char 6 0x40
    ∷ char 7 0
    ∷ char 8 64
    ∷ char 9 6
    ∷ int 12 source
    ∷ int 16 target
    ∷ []

abbrev pub src_port : ℕ
src_port = 1333

abbrev pub dst_port : ℕ
dst_port = 1555

-- The TCP header.
abbrev pub tcp_header : List Put
tcp_header =
    short 20 (htons src_port)
    ∷ short 22 (htons dst_port)
    ∷ int 24 (htonl 10)
    ∷ int 28 (htonl 0)
    ∷ char 32 (5 * 2 ^ 5)
    ∷ char 33 (1 * 2 ^ 1)
    ∷ short 34 (htons 2048)
    ∷ short 36 0
    ∷ short 38 0
    ∷ []

-- Its options: the largest segment, selective acknowledgements, the time stamp, no operation, and the
-- scale of the window.
abbrev pub options : List Put
options =
    char 40 0x2
    ∷ char 41 0x4
    ∷ short 42 (htons 1460)
    ∷ char 44 0x4
    ∷ char 45 0x2
    ∷ char 46 0x8
    ∷ char 47 0xA
    ∷ int 48 (htonl 12345)
    ∷ int 52 0
    ∷ char 56 0x1
    ∷ char 57 0x3
    ∷ char 58 0x3
    ∷ char 59 0x7
    ∷ []

-- The packet with both headers, before the checksum of TCP.
pub headers : (source target : ℕ) → Option (List ℕ)
headers source target = sealed (ip_header source target) 0 10 20 (tcp_header ++ options) blank

-- `tph`: the bytes 8 (`zeros`) and 25 (`flags`) are not assigned, and of the options only what
-- `strcpy` copies. `dataOfft` is the low half of byte 32, and `flags` the low three bits of byte 6.
pub pseudo_header : (source target : ℕ) → List ℕ → List Put
pseudo_header source target pck =
    int 0 source
    ∷ int 4 target
    ∷ char 9 6
    ∷ short 10 (htons 40)
    ∷ short 12 (htons src_port)
    ∷ short 14 (htons dst_port)
    ∷ int 16 (host32 pck 24)
    ∷ int 20 (host32 pck 28)
    ∷ char 24 (get_or pck 32 0 % 16 + 16 * (get_or pck 6 0 % 8))
    ∷ short 26 (host16 pck 34)
    ∷ short 28 0
    ∷ short 30 (host16 pck 38)
    ∷ []

-- `main`, up to what `sendto` gets. `junk` is `tph` before it is filled.
pub syn : (source target : ℕ) → (junk : List ℕ) → Option (List ℕ)
syn source target junk = do
  pck ← headers source target
  tph ← puts (pseudo_header source target pck) junk
  opts ← string_at 20 pck 40
  tph' ← puts (copied opts 32) tph
  c ← checksum 53 tph' 0 52
  put16 pck 36 c

-- What a receiver reads among the options: the kinds and the bytes of each; kind 1 is one byte alone,
-- and the second byte of any other is the length of the whole.
pub options_of : ℕ → List ℕ → Option (List (ℕ × List ℕ))
options_of zero bs = none
options_of (suc left) [] = some []
options_of (suc left) (kind ∷ bs) =
    let size = get_or bs 0 0 in
    let alone = options_of left bs >>= λ os. some ((kind, []) ∷ os) in
    let longer = options_of left (drop (size - 1) bs) >>= λ os.
    some ((kind, take (size - 2) (drop 1 bs)) ∷ os) in
    if kind == 1 then alone else longer

-- A segment that opens a connection, as its receiver reads it: the ports, the two numbers, a header
-- of ten words, the flag SYN alone, the window, and the options.
pub record IsSyn (m : List ℕ) (at from to number window : ℕ) (os : List (ℕ × List ℕ)) : Type 0 where
  pub source_port : net16 m at ≡ from
  pub target_port : net16 m (at + 2) ≡ to
  pub sequence : net32 m (at + 4) ≡ number
  pub acknowledged : net32 m (at + 8) ≡ 0
  pub words : get_or m (at + 12) 0 / 16 ≡ 10
  pub flags : get_or m (at + 13) 0 ≡ 2
  pub free : net16 m (at + 14) ≡ window
  pub choices : options_of 40 (drop (at + 20) m) ≡ some os

headers-IsSealed :
    (source target : ℕ) → IsSealed (ip_header source target) 0 10 5 (tcp_header ++ options) blank
unfolding word
headers-IsSealed source target = record {
  bytes = IsBytes-replicate 60;
  inside = omega arith;
  inside_after = omega arith;
  behind = omega arith;
  fits = omega arith;
  field = omega arith;
  blank = refl;
}

-- `pck` before the checksum of TCP.
abbrev sealed_packet : (source target : ℕ) → List ℕ
sealed_packet source target =
    let filled = written (ip_header source target) blank in
    written (tcp_header ++ options)
      (written_one (short 10 (0xFFFF - ones_sum (total filled 0 10))) filled)

-- The bytes that `strcpy` copies from the options: the first zero byte of the time stamp ends them.
abbrev copied_options : List ℕ
copied_options = 2 ∷ 4 ∷ 5 ∷ 0xB4 ∷ 4 ∷ 2 ∷ 8 ∷ 10 ∷ 0 ∷ []

-- The steps of `main`, one result after the other.
syn_steps :
    (source target : ℕ) (junk pck tph cs full : List ℕ) (c : ℕ)
    → headers source target ≡ some pck
    → puts (pseudo_header source target pck) junk ≡ some tph
    → string_at 20 pck 40 ≡ some cs
    → puts (copied cs 32) tph ≡ some full
    → checksum 53 full 0 52 ≡ some c
    → syn source target junk ≡ put16 pck 36 c
unfolding syn
syn_steps source target junk pck tph cs full c e f g h i = rw (e, f, g, h, i) refl

-- The options as they are read: 1460, then the time stamp, and the scale 7.
abbrev pub sent_options : List (ℕ × List ℕ)
sent_options =
    (2, 0x05 ∷ 0xB4 ∷ [])
    ∷ (4, [])
    ∷ (8, 0 ∷ 0 ∷ 0x30 ∷ 0x39 ∷ 0 ∷ 0 ∷ 0 ∷ 0 ∷ [])
    ∷ (1, [])
    ∷ (3, 7 ∷ [])
    ∷ []

-- For any two addresses, and whatever the stack holds in the pseudo header, the packet is written
-- inside its 60 bytes: an IPv4 header that a receiver accepts, of a total length of 60, and a TCP
-- header of ten words with the flag SYN alone and no acknowledgement, whose options a receiver reads as
-- a largest segment of 1460 bytes, selective acknowledgements, the time stamp 12345, no operation and
-- a window scale of 7.
pub syn_lem :
    (source target : ℕ) (junk : List ℕ)
    → source < 2 ^ 32
    → target < 2 ^ 32
    → length junk ≡ 52
    → IsBytes junk
    → (f : List ℕ) × (syn source target junk ≡ some f)
      × (length f ≡ 60)
      × IsHeader f 0 60 64 6 source target
      × IsSyn f 20 1333 1555 10 2048 sent_options
unfolding headers htons htonl string_at pseudo_header copied options_of
syn_lem source target junk h k size b =
    let (run, long, bytes, accepted) =
      sealed-eq (ip_header source target) 0 10 5 (tcp_header ++ options) blank
        (headers-IsSealed source target) in
    let pck = sealed_packet source target in
    let tph = written (pseudo_header source target pck) junk in
    let tph_size = length-written (pseudo_header source target pck) junk ∙ size in
    let full = written (copied copied_options 32) tph in
    let summed =
      checksum-eq 53 full 0 26 52
        (IsBytes-written (copied copied_options 32) tph
          (IsBytes-written (pseudo_header source target pck) junk b))
        refl (omega (arith, length-written (copied copied_options 32) tph, tph_size))
        (omega arith) in
    let c = 0xFFFF - ones_sum (total full 0 26) in
    (
      written_one (short 36 c) pck,
      syn_steps source target junk pck tph copied_options full c run
            (puts-eq (pseudo_header source target pck) junk 52 size (omega arith)) refl
            (puts-eq (copied copied_options 32) tph 52 tph_size (omega arith)) summed
          ∙ put16-eq pck 36 c (omega (arith, long)),
      length-written_one (short 36 c) pck ∙ long,
      record {
        version = refl;
        total_length = refl;
        time_to_live = refl;
        proto = refl;
        from = omega arith;
        to = omega arith;
        accepted =
            checksum-agree 100 (written_one (short 36 c) pck) pck 0 10 20 refl
              (λ i l. get_elem?-written (short 36 c ∷ []) pck i 20 l (omega arith))
            ∙ accepted 100 (omega arith);
      },
      record {
        source_port = refl;
        target_port = refl;
        sequence = refl;
        acknowledged = refl;
        words = refl;
        flags = refl;
        free = refl;
        choices = refl;
      },
    )
