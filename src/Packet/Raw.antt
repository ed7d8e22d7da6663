-- ===== src/Packet/Raw.antt =====
-- The client of a raw UDP socket, les25_raw_sockets/src/raw_client.c. What the stack holds in its two
-- packets, and the datagrams that arrive, are arguments.
use summer_school.Base.{
  ℕ, ◌+◌, ◌*◌, ◌/◌, ◌%◌, ◌^◌, ◌≤◌, ◌<◌, ◌≡◌, ◌≢◌, refl, sym, ap, ◌∙◌, subst, Option, none, some,
  List, [], ◌∷◌, ◌++◌, All, get_or, length, drop, arith, ◌==◌, if◌then◌else◌, true, false, u16,
  overwrite, length-overwrite, length-append, IsText, ◌>>=◌,
}
use mathlib.Core.List.{append_assoc}
use summer_school.Packet.{short, htons, puts, copied, string_at}
use summer_school.Checksum.Sum.{IsBytes}
use summer_school.Packet.Strings.{overwrite-append, get_or-overwrite, string_at-text}
use summer_school.Packet.Header.{net16, host16}
use summer_school.Packet.Writes.{heads, heads-drop, written, puts-eq, length-written}

-- `reflect`. The two halves that `|=` joins have no bit in common.
pub reflect : ℕ → ℕ
reflect num = let low = num % 256 in let high = u16 (low * 2 ^ 8) in high + num / 256 % 256

-- The text of `strcpy`, with the zero byte.
abbrev pub greeting : List ℕ
greeting =
    b'H' ∷ b'e' ∷ b'l' ∷ b'l' ∷ b'o' ∷ b',' ∷ b' ' ∷ b'f' ∷ b'r' ∷ b'i' ∷ b'e' ∷ b'n' ∷ b'd' ∷ 0
    ∷ []

-- What `sendto` gets: the header and the text over what the stack holds.
pub datagram : (junk : List ℕ) → Option (List ℕ)
datagram junk =
    puts
      (short 6 0
        ∷ short 0 (htons 1222)
        ∷ short 2 (htons 1555)
        ∷ short 4 (htons (256 + 8))
        ∷ copied greeting 8)
      junk

-- The loop of `recvfrom`, with the datagrams that arrive; `none` waits for another.
pub awaited : (arrived : List (List ℕ)) (rcvpck : List ℕ) → Option (List ℕ)
awaited [] rcvpck = if host16 rcvpck 20 == htons 1555 then some rcvpck else none
awaited (d ∷ arrived) rcvpck =
    let later = awaited arrived (overwrite rcvpck d) in
    if host16 rcvpck 20 == htons 1555 then some rcvpck else later

-- `main` after it has sent: the text that is printed, with its zero byte.
pub answer : (arrived : List (List ℕ)) (rcvpck : List ℕ) → Option (List ℕ)
answer arrived rcvpck = awaited arrived rcvpck >>= λ m. string_at 256 m 28

-- The bytes of a word are swapped as by `htons`, and twice gives the word again.
pub reflect_lem :
    (num : ℕ) → num < 2 ^ 16 → (reflect num ≡ htons num) × (reflect (reflect num) ≡ num)
unfolding reflect htons
reflect_lem num h = (omega arith, omega arith)

-- A datagram of 264 bytes from port 1222 to port 1555 that says its length, without a checksum, with
-- the text; what follows is what the stack held.
pub record IsDatagram (junk f : List ℕ) : Type 0 where
  pub sent : datagram junk ≡ some f
  pub whole : length f ≡ 264
  pub from : net16 f 0 ≡ 1222
  pub to : net16 f 2 ≡ 1555
  pub size : net16 f 4 ≡ length f
  pub unchecked : net16 f 6 ≡ 0
  pub text : string_at 256 f 8 ≡ some greeting
  pub others : drop 22 f ≡ drop 22 junk

-- Whatever the stack holds, `main` sends such a datagram: 242 bytes of the stack go out with it.
pub datagram_lem : (junk : List ℕ) → length junk ≡ 264 → (f : List ℕ) × IsDatagram junk f
unfolding datagram htons copied string_at
datagram_lem junk h =
    let same = heads-drop 22 0 junk (omega (arith, h)) in
    let m = heads 22 0 junk ++ drop 22 junk in
    let whole = ap length same ∙ h in
    let ps =
      short 6 0
      ∷ short 0 (htons 1222)
      ∷ short 2 (htons 1555)
      ∷ short 4 (htons (256 + 8))
      ∷ copied greeting 8 in
    let f = written ps m in
    let size = length-written ps m ∙ whole in
    let done : IsDatagram m f = record {
      sent = puts-eq ps m 264 whole (omega arith);
      whole = size;
      from = refl;
      to = refl;
      size = sym size;
      unchecked = refl;
      text = refl;
      others = refl;
    } in
    subst (λ l. (f : List ℕ) × IsDatagram l f) same (f, done)

-- A datagram from another port: at least its two headers, of bytes.
abbrev pub IsOther : List ℕ → Type 0
IsOther d = (28 ≤ length d) × (length d ≤ 284) × IsBytes d × (net16 d 20 ≢ 1555)

awaited-others :
    (before arrived : List (List ℕ)) (m : List ℕ)
    → All IsOther before
    → length m ≡ 284
    → host16 m 20 ≢ htons 1555
    → (m' : List ℕ) × (length m' ≡ 284)
      × (host16 m' 20 ≢ htons 1555)
      × (awaited (before ++ arrived) m ≡ awaited arrived m')
unfolding awaited htons
awaited-others [] arrived m o size h = (m, size, h, refl)
awaited-others (d ∷ before) arrived m o size h =
    let (long, short_enough, b, other) = o.0 in
    let off : (host16 m 20 == 4870) ≡ false = ground arith in
    let low = get_or-overwrite m d 20 (omega arith) (omega (arith, size)) in
    let high = get_or-overwrite m d 21 (omega arith) (omega (arith, size)) in
    let (m', size', h', same) =
      awaited-others before arrived (overwrite m d) o.1 (length-overwrite m d ∙ size)
        (λ e. other (omega (arith, b 20, b 21, low, high, e))) in
    (m', size', h', rw off same)

awaited_port :
    (arrived : List (List ℕ)) (m : List ℕ) → host16 m 20 ≡ htons 1555 → awaited arrived m ≡ some m
unfolding awaited htons
awaited_port [] m h = let on : (host16 m 20 == 4870) ≡ true = ground arith in rw on refl
awaited_port (d ∷ arrived) m h = let on : (host16 m 20 == 4870) ≡ true = ground arith in rw on refl

-- The port of the stack's own bytes not being 1555, and after datagrams from other ports only, a
-- datagram from port 1555 whose data begin with a text and a zero byte ends the loop, and `main`
-- prints this text, whatever would arrive later.
pub answer_lem :
    (before later : List (List ℕ)) (head text rest m : List ℕ)
    → All IsOther before
    → length m ≡ 284
    → host16 m 20 ≢ htons 1555
    → length head ≡ 28
    → IsText text
    → length text < 256
    → length (head ++ (text ++ 0 ∷ rest)) ≤ 284
    → get_or (head ++ (text ++ 0 ∷ rest)) 20 0 ≡ 6
    → get_or (head ++ (text ++ 0 ∷ rest)) 21 0 ≡ 19
    → answer (before ++ (head ++ (text ++ 0 ∷ rest)) ∷ later) m ≡ some (text ++ 0 ∷ [])
unfolding answer awaited htons
answer_lem before later head text rest m o size h front t small fits low high =
    let d = head ++ (text ++ 0 ∷ rest) in
    let d_long = length-append head (text ++ 0 ∷ rest) in
    let (m', size', h', same) = awaited-others before (d ∷ later) m o size h in
    let off : (host16 m' 20 == 4870) ≡ false = ground arith in
    let low' = get_or-overwrite m' d 20 (omega (arith, d_long)) (omega (arith, size')) ∙ low in
    let high' = get_or-overwrite m' d 21 (omega (arith, d_long)) (omega (arith, size')) ∙ high in
    let found = awaited_port later (overwrite m' d) (omega (arith, low', high')) in
    let first : awaited (d ∷ later) m' ≡ some (overwrite m' d) = rw off found in
    let tail = drop (length d) m' in
    let stored =
      overwrite-append m' d (omega (arith, size'))
      ∙ append_assoc head (text ++ 0 ∷ rest) tail
      ∙ ap (λ l. head ++ l) (append_assoc text (0 ∷ rest) tail) in
    ap (λ o. o >>= λ l. string_at 256 l 28) (same ∙ first)
    ∙ ap (λ l. string_at 256 l 28) stored
    ∙ subst (λ n. string_at 256 (head ++ (text ++ 0 ∷ (rest ++ tail))) n ≡ some (text ++ 0 ∷ []))
        front (string_at-text 256 head text (rest ++ tail) t small)
