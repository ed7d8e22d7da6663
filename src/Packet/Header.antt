-- ===== src/Packet/Header.antt =====
-- A structure with its checksum, and what a receiver reads in an IPv4 header (les26 to les28).
use summer_school.Base.{
  ℕ, ◌+◌, ◌-◌, ◌*◌, ◌≤◌, ◌<◌, ◌≡◌, refl, ap, ◌∙◌, some, List, [], ◌∷◌, get_or, length, arith, All,
}
use summer_school.Checksum.{checksum}
use summer_school.Checksum.Agree.{checksum-agree}
use summer_school.Checksum.Sum.{IsBytes, word, total, ones_sum}
use summer_school.Checksum.Verify.{checksum-eq, checksum-store16}
use summer_school.Packet.{Put, short, put16, sealed}
use summer_school.Packet.Writes.{
  end_of, start_of, written_one, written, length-written_one, length-written, put16-eq, puts-eq,
  IsBytes-written, get_elem?-written, written-store16,
}

-- The numbers that a receiver reads, the first byte high, and a field as the number of this host.
abbrev pub net16 : List ℕ → ℕ → ℕ
net16 m a = get_or m a 0 * 256 + get_or m (a + 1) 0

abbrev pub net32 : List ℕ → ℕ → ℕ
net32 m a = net16 m a * 0x10000 + net16 m (a + 2)

abbrev pub host16 : List ℕ → ℕ → ℕ
host16 m a = get_or m a 0 + get_or m (a + 1) 0 * 256

abbrev pub host32 : List ℕ → ℕ → ℕ
host32 m a =
    get_or m a 0
    + get_or m (a + 1) 0 * 0x100
    + get_or m (a + 2) 0 * 0x10000
    + get_or m (a + 3) 0 * 0x1000000

-- The IPv4 header at an offset: version 4 with five words, these fields, and a checksum that a
-- receiver accepts. The addresses are as `inet_addr` gives them, in the order of the network.
pub record IsHeader (m : List ℕ) (at total ttl protocol source target : ℕ) : Type 0 where
  pub version : get_or m at 0 ≡ 0x45
  pub total_length : net16 m (at + 2) ≡ total
  pub time_to_live : get_or m (at + 8) 0 ≡ ttl
  pub proto : get_or m (at + 9) 0 ≡ protocol
  pub from : host32 m (at + 12) ≡ source
  pub to : host32 m (at + 16) ≡ target
  pub accepted : checksum 100 m at (at + 20) ≡ some 0

-- The writes stay inside the structure; those after the checksum stay behind the `n` words that it
-- covers, at whose `k`-th word, not yet written, it goes.
pub record IsSealed (before : List Put) (start n k : ℕ) (after : List Put) (mem : List ℕ)
    : Type 0 where
  pub bytes : IsBytes mem
  pub inside : All (λ p. end_of p ≤ length mem) before
  pub inside_after : All (λ p. end_of p ≤ length mem) after
  pub behind : All (λ p. start + 2 * n ≤ start_of p) after
  pub fits : start + 2 * n ≤ length mem
  pub field : k < n
  pub blank : word (written before mem) (start + 2 * k) ≡ 0

module _ (before : List Put) (start n k : ℕ) (after : List Put) (mem : List ℕ)
    (v : IsSealed before start n k after mem) where
  abbrev filled : List ℕ
  filled = written before mem

  abbrev sum : ℕ
  sum = 0xFFFF - ones_sum (total filled start n)

  abbrev summed : List ℕ
  summed = written_one (short (start + 2 * k) sum) filled

  length-filled : length filled ≡ length mem
  length-filled = length-written before mem

  length-summed : length summed ≡ length mem
  length-summed = length-written_one (short (start + 2 * k) sum) filled ∙ length-filled

  summing : (fuel : ℕ) → n < fuel → checksum fuel filled start (start + 2 * n) ≡ some sum
  summing fuel h =
      checksum-eq fuel filled start n (start + 2 * n) (IsBytes-written before mem v.bytes) refl
        (omega (arith, length-filled, v.fits)) h

  put_sum : put16 filled (start + 2 * k) sum ≡ some summed
  put_sum = put16-eq filled (start + 2 * k) sum (omega (arith, length-filled, v.fits, v.field))

  -- The structure that is sent, in which the receiver's test succeeds.
  pub sealed-eq :
      (sealed before start (start + 2 * k) (start + 2 * n) after mem ≡ some (written after summed))
      × (length (written after summed) ≡ length mem)
      × IsBytes (written after summed)
      × ((fuel : ℕ)
          → n < fuel
          → checksum fuel (written after summed) start (start + 2 * n) ≡ some 0)
  unfolding sealed
  sealed-eq = (
    rw
        (
          puts-eq before mem (length mem) refl v.inside,
          summing (start + 2 * n + 1) (omega arith),
          put_sum,
        )
        (puts-eq after summed (length mem) length-summed v.inside_after),
    length-written after summed ∙ length-summed,
    IsBytes-written after summed (
        IsBytes-written (short (start + 2 * k) sum ∷ []) filled
          (IsBytes-written before mem v.bytes)),
    λ fuel h.
        checksum-agree fuel (written after summed) summed start n (start + 2 * n) refl
          (λ i l. get_elem?-written after summed i (start + 2 * n) l v.behind)
        ∙ ap (λ m. checksum fuel m start (start + 2 * n))
            (written-store16 filled (start + 2 * k) sum (omega arith))
        ∙ checksum-store16 fuel filled start n k (start + 2 * n) sum
            (IsBytes-written before mem v.bytes) refl (omega (arith, length-filled, v.fits)) h
            v.field (summing fuel h) v.blank,
  )
