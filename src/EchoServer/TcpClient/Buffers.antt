-- ===== src/EchoServer/TcpClient/Buffers.antt =====
-- The buffers of a client and its child: les20_multiclient_chat/src.
use summer_school.Base.{
  ℕ, zero, suc, ◌+◌, ◌≤◌, ◌<◌, ◌≡◌, ◌≢◌, refl, ap, ◌∙◌, some, List, [], ◌∷◌, ◌++◌, true, ltb,
  length, arith, drop, overwrite, IsText, put, length-append,
}
use mathlib.Core.List.{append_assoc}
use summer_school.Shell.{text_of}
use summer_school.Shell.Text.{text_of-text, length-drop}
use summer_school.Packet.Strings.{overwrite-append}
use summer_school.SharedChat.{quit_bare}
use summer_school.EchoServer.{receive, Server, stamp, handle}
use summer_school.EchoServer.TcpClient.{scan_word}

-- A word that the server has marked.
abbrev pub echoed : List ℕ → List ℕ
echoed word = b'A' ∷ b'Z' ∷ b'_' ∷ drop 3 word

-- A word of at least three characters that the buffer has room for, and that does not end the client.
pub record IsWord (word : List ℕ) : Type 0 where
  pub is_text : IsText word
  pub long : 3 ≤ length word
  pub short : length word < 256
  pub stays : word ≢ quit_bare

pub stamp-echoed :
    (word rest : List ℕ) → 3 ≤ length word → stamp (word ++ rest) ≡ echoed word ++ rest
unfolding stamp
stamp-echoed [] rest h = absurd (omega arith)
stamp-echoed (a ∷ []) rest h = absurd (omega arith)
stamp-echoed (a ∷ b ∷ []) rest h = absurd (omega arith)
stamp-echoed (a ∷ b ∷ c ∷ word) rest h = refl

IsText-echoed : (word : List ℕ) → IsText word → IsText (echoed word)
IsText-echoed [] t = omega arith
IsText-echoed (a ∷ []) t = omega arith
IsText-echoed (a ∷ b ∷ []) t = omega arith
IsText-echoed (a ∷ b ∷ c ∷ word) t = (omega arith, (omega arith, (omega arith, t.1.1.1)))

pub overwrite-all : (b c : List ℕ) → length b ≡ length c → overwrite b c ≡ c
unfolding overwrite
overwrite-all [] [] h = refl
overwrite-all [] (x ∷ c) h = absurd (omega arith)
overwrite-all (y ∷ b) [] h = absurd (omega arith)
overwrite-all (y ∷ b) (x ∷ c) h = ap (λ l. x ∷ l) (overwrite-all b c (omega arith))

pub drop-overwrite : (n : ℕ) (b c : List ℕ) → length c ≤ n → drop n (overwrite b c) ≡ drop n b
unfolding overwrite
drop-overwrite n [] c h = refl
drop-overwrite n (y ∷ b) [] h = refl
drop-overwrite zero (y ∷ b) (x ∷ c) h = absurd (omega arith)
drop-overwrite (suc n) (y ∷ b) (x ∷ c) h = drop-overwrite n b c (omega arith)

pub length-stamp : (b : List ℕ) → length (stamp b) ≡ length b
unfolding stamp
length-stamp [] = refl
length-stamp (x ∷ []) = refl
length-stamp (x ∷ y ∷ []) = refl
length-stamp (x ∷ y ∷ z ∷ b) = refl

-- The buffer when a word is typed.
abbrev pub typed : (word buffer : List ℕ) → List ℕ
typed word buffer = word ++ 0 ∷ drop (length word + 1) buffer

pub overwrite-typed :
    (word buffer : List ℕ)
    → length word < 256
    → length buffer ≡ 256
    → overwrite buffer (word ++ 0 ∷ []) ≡ typed word buffer
overwrite-typed word buffer h l =
    let size : length (word ++ 0 ∷ []) ≡ length word + 1 = length-append {0} word (0 ∷ []) in
    overwrite-append buffer (word ++ 0 ∷ []) (omega arith)
    ∙ ap (λ n. (word ++ 0 ∷ []) ++ drop n buffer) size
    ∙ append_assoc word (0 ∷ []) (drop (length word + 1) buffer)

pub scan_word-typed :
    (word buffer : List ℕ)
    → length word < 256
    → length buffer ≡ 256
    → scan_word word buffer ≡ some (typed word buffer)
unfolding scan_word
scan_word-typed word buffer h l =
    let fits : ltb (length word) 256 ≡ true = ground arith in
    rw fits (ap some (overwrite-typed word buffer h l))

-- A byte buffer of the child, replaced whole.
pub handle-receive :
    (k : ℕ) (content : List ℕ) (s : Server)
    → k < s.count
    → length (s.children k) ≡ length content
    → handle (receive k content) s ≡ (
      record s { children = put s.children k (stamp content) },
      record { child = k; bytes = stamp content } ∷ [],
    )
unfolding handle
handle-receive k content s h l =
    let inside : ltb k s.count ≡ true = ground arith in
    rw (overwrite-all (s.children k) content l, inside) refl

pub length-typed :
    (word buffer : List ℕ)
    → length word < 256
    → length buffer ≡ 256
    → length (typed word buffer) ≡ 256
length-typed word buffer h l = omega (
  arith,
  length-append {0} word (0 ∷ drop (length word + 1) buffer),
  length-drop (length word + 1) buffer (omega arith),
)

pub text_of_echo :
    (word buffer : List ℕ) → IsWord word → text_of (stamp (typed word buffer)) ≡ some (echoed word)
text_of_echo word buffer v =
    let rest = drop (length word + 1) buffer in
    ap text_of (stamp-echoed word (0 ∷ rest) v.long)
    ∙ text_of-text (echoed word) rest (IsText-echoed word v.is_text)
