-- ===== src/Packet/Ethernet.antt =====
-- The UDP packet in an Ethernet frame, les27_channel_level/src/main.c. What `inet_addr` gives for the
-- two addresses is an argument.
use summer_school.Base.{
  ℕ, ◌+◌, ◌<◌, ◌≡◌, ◌^◌, refl, Option, some, List, [], ◌∷◌, replicate, length, arith, ◌++◌,
}
use summer_school.Checksum.Sum.{word}
use summer_school.Packet.{Put, char, short, int, htons, sealed, string_at}
use summer_school.Packet.Writes.{IsBytes-replicate}
use summer_school.Packet.Header.{IsHeader, IsSealed, net16, sealed-eq}

-- `bzero(&pck, sizeof(pck))`
abbrev pub blank : List ℕ
blank = replicate 298 0

-- The two hardware addresses and the type.
abbrev pub ethernet_header : List Put
ethernet_header =
    char 0 0xb8
    ∷ char 1 0x27
    ∷ char 2 0xeb
    ∷ char 3 0x20
    ∷ char 4 0xe4
    ∷ char 5 0x2c
    ∷ char 6 0x48
    ∷ char 7 0x5d
    ∷ char 8 0x60
    ∷ char 9 0x08
    ∷ char 10 0x5d
    ∷ char 11 0x1f
    ∷ short 12 (htons 0x800)
    ∷ []

abbrev pub ip_header : (source target : ℕ) → List Put
ip_header source target =
    char 14 0x45
    ∷ char 15 0
    ∷ short 16 (htons (20 + 256 + 8))
    ∷ short 18 (htons 4267)
    ∷ char 20 0x40
    ∷ char 21 0
    ∷ char 22 64
    ∷ char 23 17
    ∷ short 24 0
    ∷ int 26 source
    ∷ int 30 target
    ∷ []

-- The UDP header, and `strcpy(pck.buffer, "Hello")`.
abbrev pub udp_header : List Put
udp_header =
    short 34 (htons 1333)
    ∷ short 36 (htons 1555)
    ∷ short 38 (htons (256 + 8))
    ∷ short 40 0
    ∷ char 42 b'H'
    ∷ char 43 b'e'
    ∷ char 44 b'l'
    ∷ char 45 b'l'
    ∷ char 46 b'o'
    ∷ char 47 0
    ∷ []

-- `main`, up to what `sendto` gets.
pub frame : (source target : ℕ) → Option (List ℕ)
frame source target = sealed (ethernet_header ++ ip_header source target) 14 24 34 udp_header blank

frame-IsSealed :
    (source target : ℕ)
    → IsSealed (ethernet_header ++ ip_header source target) 14 10 5 udp_header blank
unfolding word
frame-IsSealed source target = record {
  bytes = IsBytes-replicate 298;
  inside = omega arith;
  inside_after = omega arith;
  behind = omega arith;
  fits = omega arith;
  field = omega arith;
  blank = refl;
}

-- The frame as its receivers read it: the type of IPv4, an IPv4 header whose total length is all that
-- follows the Ethernet header, a UDP length of all that follows the IPv4 header, and the text.
pub record IsFrame (source target : ℕ) (f : List ℕ) : Type 0 where
  pub sent : frame source target ≡ some f
  pub whole : length f ≡ 14 + 284
  pub ether_type : net16 f 12 ≡ 0x800
  pub header : IsHeader f 14 284 64 17 source target
  pub from : net16 f 34 ≡ 1333
  pub to : net16 f 36 ≡ 1555
  pub size : net16 f 38 + 20 ≡ 284
  pub text : string_at 256 f 42 ≡ some (b'H' ∷ b'e' ∷ b'l' ∷ b'l' ∷ b'o' ∷ 0 ∷ [])

-- For any two addresses the frame is written inside its 298 bytes. A receiver reads the type of IPv4,
-- an IPv4 header that it accepts, whose total length is all that follows the Ethernet header, a UDP
-- length of all that follows the IPv4 header, the ports 1333 and 1555, and the text "Hello".
pub frame_lem :
    (source target : ℕ) → source < 2 ^ 32 → target < 2 ^ 32 → (f : List ℕ) × IsFrame source target f
unfolding frame htons string_at
frame_lem source target h k =
    let (run, size, b, accepted) =
      sealed-eq (ethernet_header ++ ip_header source target) 14 10 5 udp_header blank
        (frame-IsSealed source target) in
    (
      _,
      record {
        sent = run;
        whole = size;
        ether_type = refl;
        header = record {
          version = refl;
          total_length = refl;
          time_to_live = refl;
          proto = refl;
          from = omega arith;
          to = omega arith;
          accepted = accepted 100 (omega arith);
        };
        from = refl;
        to = refl;
        size = refl;
        text = refl;
      },
    )
