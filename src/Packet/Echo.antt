-- ===== src/Packet/Echo.antt =====
-- The echo request, les28_ping_tracert/src/ping.c. What the stack holds in the packet, which is not
-- zeroed, is an argument.
use summer_school.Base.{
  ℕ, ◌≡◌, refl, sym, ap, ◌∙◌, Option, some, List, [], ◌∷◌, get_or, length, arith, ◌==◌,
  if◌then◌else◌, drop, subst,
}
use summer_school.Checksum.{checksum}
use summer_school.Checksum.Sum.{IsBytes, word}
use summer_school.Packet.{Put, char, sealed}
use summer_school.Packet.Header.{IsSealed, sealed-eq}
use summer_school.Packet.Writes.{heads-drop}

-- `pck.icmp.type` and `pck.icmp.code`
abbrev pub request_header : List Put
request_header = char 0 8 ∷ char 1 0 ∷ []

-- `main`, up to what `sendto` gets: the sum covers the checksum's own bytes as the stack has them.
pub request : (junk : List ℕ) → Option (List ℕ)
request junk = sealed request_header 0 2 8 [] junk

-- What the reply prints: its code and type, and for an echo reply the success.
pub data Line : Type 0 where
  result : (code kind : ℕ) → Line
  successful : Line

pub printed : (code kind : ℕ) → List Line
printed code kind = result code kind ∷ (if kind == 0 then successful ∷ [] else [])

-- An echo request of 8 bytes whose checksum a receiver accepts, the other bytes those of the stack.
pub record IsRequest (junk f : List ℕ) : Type 0 where
  pub sent : request junk ≡ some f
  pub whole : length f ≡ 8
  pub kind : get_or f 0 0 ≡ 8
  pub code : get_or f 1 0 ≡ 0
  pub accepted : checksum 100 f 0 8 ≡ some 0
  pub others : drop 4 f ≡ drop 4 junk

blank_field :
    (a b c d : ℕ) (rest : List ℕ)
    → length (a ∷ b ∷ c ∷ d ∷ rest) ≡ 8
    → IsBytes (a ∷ b ∷ c ∷ d ∷ rest)
    → c ≡ 0
    → d ≡ 0
    → (f : List ℕ) × IsRequest (a ∷ b ∷ c ∷ d ∷ rest) f
unfolding request word
blank_field a b c d rest size bytes low high =
    let junk = a ∷ b ∷ c ∷ d ∷ rest in
    let ready : IsSealed request_header 0 4 1 [] junk = record {
      bytes = bytes;
      inside = omega (arith, size);
      inside_after = tt;
      behind = tt;
      fits = omega (arith, size);
      field = omega arith;
      blank = omega arith;
    } in
    let (run, long, bytes', accepted) = sealed-eq request_header 0 4 1 [] junk ready in
    (
      _,
      record {
        sent = run;
        whole = long ∙ size;
        kind = refl;
        code = refl;
        accepted = accepted 100 (omega arith);
        others = refl;
      },
    )

-- If the stack happens to hold zero where the checksum goes, the packet is an echo request of 8 bytes
-- whose checksum a receiver accepts, and its other bytes are those of the stack.
pub request_lem :
    (junk : List ℕ)
    → length junk ≡ 8
    → IsBytes junk
    → get_or junk 2 0 ≡ 0
    → get_or junk 3 0 ≡ 0
    → (f : List ℕ) × IsRequest junk f
request_lem junk size b low high =
    let same = heads-drop 4 0 junk (omega (arith, size)) in
    subst (λ m. (f : List ℕ) × IsRequest m f) same
      (blank_field (get_or junk 0 0) (get_or junk 1 0) (get_or junk 2 0) (get_or junk 3 0)
        (drop 4 junk) (ap length same ∙ size) (subst IsBytes (sym same) b) low high)
