-- ===== src/EchoServer/TcpClient/Answers.antt =====
-- What a client prints: les20_multiclient_chat/src, client.c with server.c.
use summer_school.Base.{
  ℕ, ◌+◌, ◌<◌, ◌≡◌, refl, sym, ap, ◌∙◌, some, List, [], ◌∷◌, ◌++◌, length, All, arith, drop,
  overwrite, length-overwrite, put, length-append,
}
use summer_school.Shell.{text_of}
use summer_school.Shell.Text.{text_of-text, text_of-append}
use summer_school.Packet.Strings.{overwrite-append}
use summer_school.SharedChat.{same_text, quit_bare}
use summer_school.SharedChat.Same.{same_text_ne}
use summer_school.EchoServer.{welcome, connect, Server, stamp, handle}
use summer_school.EchoServer.TcpClient.{talk_on, tcp_client}
use summer_school.EchoServer.TcpClient.Buffers.{
  echoed, IsWord, typed, overwrite-all, drop-overwrite, length-stamp, overwrite-typed,
  scan_word-typed, handle-receive, length-typed, text_of_echo,
}

-- The answers to all words but the last.
abbrev pub answers_to : (first : List ℕ) (words : List (List ℕ)) → List (List ℕ)
answers_to first [] = []
answers_to first (word ∷ words) = echoed first ∷ answers_to word words

-- The end of the words.
talk_on_quit :
    (k : ℕ) (buffer : List ℕ) (waiting : List (List ℕ)) (s : Server)
    → length buffer ≡ 256
    → talk_on k (quit_bare ∷ []) buffer waiting s ≡ some []
unfolding talk_on same_text
talk_on_quit k buffer waiting s l =
    rw
      (
        scan_word-typed quit_bare buffer (omega arith) l,
        text_of-text quit_bare (drop (length quit_bare + 1) buffer) (omega arith),
      )
      refl

-- The answer to the word before is what the client gets.
talk_on-answers :
    (k : ℕ) (before old : List ℕ) (words : List (List ℕ)) (buffer : List ℕ) (s : Server)
    → IsWord before
    → All IsWord words
    → length old ≡ 256
    → length buffer ≡ 256
    → k < s.count
    → length (s.children k) ≡ 256
    → talk_on k (words ++ quit_bare ∷ []) buffer (stamp (typed before old) ∷ []) s
      ≡ some (answers_to before words)
unfolding talk_on
talk_on-answers k before old [] buffer s v vs o l h c =
    talk_on_quit k buffer (stamp (typed before old) ∷ []) s l
talk_on-answers k before old (word ∷ words) buffer s v vs o l h c =
    let now = typed word buffer in
    let size = length-typed word buffer vs.0.short l in
    let size_before = length-typed before old v.short o in
    let next : Server = record s { children = put s.children k (stamp now) } in
    let filled =
      overwrite-all now (stamp (typed before old))
        (size ∙ sym (length-stamp (typed before old) ∙ size_before)) in
    let here : next.children k ≡ stamp now = ground arith in
    let rest =
      talk_on-answers k word buffer words (stamp (typed before old)) next vs.0 vs.1 l
        (length-stamp (typed before old) ∙ size_before) h
        (ap length here ∙ length-stamp now ∙ size) in
    rw
      (
        scan_word-typed word buffer vs.0.short l,
        text_of-text word (drop (length word + 1) buffer) vs.0.is_text,
        same_text_ne word quit_bare vs.0.stays,
        handle-receive k now s h (c ∙ sym size),
        filled,
        text_of_echo before old v,
        rest,
      )
      refl

-- A client that connects, types words of 3 to 255 characters, the first of fewer than 18, none of them
-- "quit", and ends by "quit"; its buffer holds a zero byte behind its first 18 bytes. The first text
-- it prints, if each `recv` takes one message, is the welcome of the server, which it has not taken from the connection before, with what
-- its buffer held behind it; then it prints for each word the answer to the word before. The answer to
-- the last word is never taken.
pub tcp_client_lem :
    (first junk t : List ℕ) (words : List (List ℕ)) (s : Server)
    → IsWord first
    → length first < 18
    → All IsWord words
    → length junk ≡ 256
    → text_of (drop 18 junk) ≡ some t
    → length s.buffer ≡ 256
    → tcp_client (first ∷ (words ++ quit_bare ∷ [])) junk s
      ≡ some ((welcome ++ t) ∷ answers_to first words)
unfolding tcp_client talk_on
tcp_client_lem first junk t words s v f vs j e l =
    let now = typed first junk in
    let k = s.count in
    let fresh : Server = record s { children = put s.children k s.buffer; count = k + 1 } in
    let size = length-typed first junk v.short j in
    let next : Server = record fresh { children = put fresh.children k (stamp now) } in
    let own : fresh.children k ≡ s.buffer = ground arith in
    let here : next.children k ≡ stamp now = ground arith in
    let connects : handle connect s ≡ (fresh, record { child = k; bytes = welcome } ∷ []) =
      unfold handle in refl in
    let behind : drop 18 now ≡ drop 18 junk =
      ap (drop 18) (sym (overwrite-typed first junk v.short j))
      ∙ drop-overwrite 18 junk (first ++ 0 ∷ [])
          (omega (arith, length-append {0} first (0 ∷ []))) in
    let filled : overwrite now welcome ≡ welcome ++ drop 18 now =
      overwrite-append now welcome (omega arith) in
    let greeted : text_of (welcome ++ drop 18 now) ≡ some (welcome ++ t) =
      text_of-append welcome (drop 18 now) t (omega arith) (ap text_of behind ∙ e) in
    let rest =
      talk_on-answers k first junk words (welcome ++ drop 18 now) next v vs j
        (ap length (sym filled) ∙ length-overwrite now welcome ∙ size) (omega arith)
        (ap length here ∙ length-stamp now ∙ size) in
    rw
      (
        connects,
        scan_word-typed first junk v.short j,
        text_of-text first (drop (length first + 1) junk) v.is_text,
        same_text_ne first quit_bare v.stays,
        handle-receive k now fresh (omega arith) (ap length own ∙ l ∙ sym size),
        filled,
        greeted,
        rest,
      )
      refl
