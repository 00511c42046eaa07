-- ===== src/Net/Dns/Answers.antt =====
-- The answers of a response in net/dns.c: an address is read in a record of the message, inside it.
use pumpkin_os.Prelude.{
  ℕ, zero, suc, ◌+◌, ◌*◌, ◌≤◌, ◌<◌, ◌≡◌, ◌≢◌, refl, sym, subst, ◌∙◌, ◌⊎◌, arith, Bool, true, false,
  if_cases, ltb, leb, leb→le, ltb→le, ltb→lt, ◌==◌, ◌&&◌, ==→≡, ==→≢, length, get_or, bit_and,
  Option, none, some, List, ◌^◌, not, inl, inr,
}
use pumpkin_os.Net.Wire.{bytes_to_ip, slice, ntohs, word_at}
use pumpkin_os.Net.Udp.{Datagram}
use pumpkin_os.Net.Dns.{skip_from, skip_name, find_answer, parse_response}

-- The name at an index ends before `q`: labels, then a zero byte or a pointer of two bytes.
pub data NameEnds (end : ℕ) (f : List ℕ) (q : ℕ) : ℕ → Type 0 where
  root : (p : ℕ) → p < end → get_or f p 0 ≡ 0 → q ≡ p + 1 → NameEnds end f q p
  pointer : (p : ℕ) → p < end → bit_and (get_or f p 0) 0xC0 ≡ 0xC0 → q ≡ p + 2 → NameEnds end f q p
  label :
      (p : ℕ)
      → p < end
      → get_or f p 0 ≢ 0
      → bit_and (get_or f p 0) 0xC0 ≢ 0xC0
      → NameEnds end f q (p + (1 + get_or f p 0))
      → NameEnds end f q p

-- The two bytes from an index on, the high one first.
abbrev pub number : List ℕ → ℕ → ℕ
number f p = get_or f p 0 * 256 + get_or f (p + 1) 0

-- Behind its name, one of the next answers from index `p` on starts at `at`.
abbrev pub InAnswers : ℕ → List ℕ → ℕ → ℕ → ℕ → Type 0
InAnswers end f at zero p = ⊥
InAnswers end f at (suc n) p =
    NameEnds end f at p
    ⊎ ((q : ℕ) × NameEnds end f q p × InAnswers end f at n (q + 10 + number f (q + 8)))

-- A record of type 1 with 4 bytes at `at`, all of which lie before `end`.
pub record IsAddress (end : ℕ) (f : List ℕ) (ip at : ℕ) : Type 0 where
  pub inside : at + 14 ≤ end
  pub type : number f at ≡ 1
  pub size : number f (at + 8) ≡ 4
  pub address : ip ≡ bytes_to_ip (slice (at + 10) 4 f)

-- An address from an answer of the message.
pub record Answer (id end : ℕ) (f : List ℕ) (ip : ℕ) : Type 0 where
  pub ours : ntohs (word_at 0 f) ≡ id
  pub question_end : ℕ
  pub question : NameEnds end f question_end 12
  pub at : ℕ
  pub reached : InAnswers end f at (ntohs (word_at 6 f)) (question_end + 4)
  pub is_address : IsAddress end f ip at

abbrev pub Answers : ℕ → ℕ → List ℕ → Option ℕ → Type 0
Answers id end f none = Unit
Answers id end f (some ip) = Answer id end f ip

unnegated : (b : Bool) → not b ≡ false → b ≡ true
unnegated true e = refl
unnegated false e = absurd (cc e)

-- Where `skip_name` stops before the end it stands behind a name.
skip_from-NameEnds :
    (n p end : ℕ) (f : List ℕ)
    → end ≤ p + n
    → skip_from n p end f < end
    → NameEnds end f (skip_from n p end f) p
unfolding skip_from
skip_from-NameEnds zero p end f h = λ l. absurd (omega arith)
skip_from-NameEnds (suc n) p end f h =
    let c = get_or f p 0 in
    if_cases (λ (q : ℕ). q < end → NameEnds end f q p) (not (ltb p end)) _ _
      (λ _ l. absurd (omega arith))
      (λ a.
        let before = ltb→lt p end (unnegated (ltb p end) a) in
        if_cases (λ (q : ℕ). q < end → NameEnds end f q p) (c == 0) _ _
          (λ e _. root p before (==→≡ _ _ e) refl)
          (λ e.
            if_cases (λ (q : ℕ). q < end → NameEnds end f q p) (bit_and c 0xC0 == 0xC0) _ _
              (λ b _. pointer p before (==→≡ _ _ b) refl)
              (λ b l.
                label p before (==→≢ _ _ e) (==→≢ _ _ b)
                  (skip_from-NameEnds n (p + (1 + c)) end f (omega arith) l))))

skip_name-NameEnds :
    (p end : ℕ) (f : List ℕ) → skip_name p end f < end → NameEnds end f (skip_name p end f) p
unfolding skip_name
skip_name-NameEnds p end f = skip_from-NameEnds end p end f (omega arith)

both : (a b c : Bool) → (a && (b && c)) ≡ true → (a ≡ true) × (b ≡ true) × (c ≡ true)
both true true c e = (refl, refl, e)
both true false c e = absurd (cc e)
both false b c e = absurd (cc e)

-- What the loop over the answers gives from index `p` on.
abbrev Found : ℕ → ℕ → ℕ → List ℕ → Option ℕ → Type 0
Found answers p end f none = Unit
Found answers p end f (some ip) =
    (p + 10 ≤ end) × (at : ℕ) × InAnswers end f at answers p × IsAddress end f ip at

Found-later :
    (answers p q end : ℕ) (f : List ℕ) (r : Option ℕ)
    → p + 10 ≤ end
    → NameEnds end f q p
    → Found answers (q + 10 + number f (q + 8)) end f r
    → Found (suc answers) p end f r
Found-later answers p q end f none h name k = tt
Found-later answers p q end f (some ip) h name (_, at, reached, here) =
    (h, at, inr (q, name, reached), here)

find_answer-Found :
    (answers p end : ℕ) (f : List ℕ) → Found answers p end f (find_answer answers p end f)
unfolding find_answer
find_answer-Found zero p end f = tt
find_answer-Found (suc answers) p end f =
    let q = skip_name p end f in
    let type = get_or f q 0 * 2 ^ 8 + get_or f (q + 1) 0 in
    let rdlen = get_or f (q + 8) 0 * 2 ^ 8 + get_or f (q + 9) 0 in
    let next : number f (q + 8) ≡ rdlen = number_at f q in
    if_cases (Found (suc answers) p end f) (ltb end (p + 10)) _ _ (λ _. tt)
      (λ room.
        if_cases (Found (suc answers) p end f) (ltb end (q + 10)) _ _ (λ _. tt)
          (λ more.
            let inside : p + 10 ≤ end = ltb→le _ _ room in
            let name = skip_name-NameEnds p end f (omega (arith, ltb→le _ _ more)) in
            if_cases (Found (suc answers) p end f)
              ((type == 1) && ((rdlen == 4) && leb (q + 10 + 4) end)) _ _
              (λ e.
                let (is_a, four, fits) = both (type == 1) (rdlen == 4) (leb (q + 10 + 4) end) e in
                (
                  inside,
                  q,
                  inl name,
                  record {
                    inside = omega (arith, leb→le _ _ fits);
                    type = ==→≡ _ _ is_a;
                    size = next ∙ ==→≡ _ _ four;
                    address = refl;
                  },
                ))
              (λ _. Found-later answers p q end f _ inside name (
                subst
                  (λ (n : ℕ).
                    Found answers (q + 10 + n) end f (find_answer answers (q + 10 + rdlen) end f))
                  (sym next) (find_answer-Found answers (q + 10 + rdlen) end f)))))
  where
    number_at :
        (f : List ℕ) (q : ℕ) → number f (q + 8) ≡ get_or f (q + 8) 0 * 2 ^ 8 + get_or f (q + 9) 0
    number_at f q = let e : q + 8 + 1 ≡ q + 9 = omega arith in rw e refl

-- The message of an optional datagram.
abbrev pub message : Option Datagram → List ℕ
message none = List.[]
message (some d) = d.payload

Found-Answers :
    (id end : ℕ) (f : List ℕ) (r : Option ℕ)
    → ntohs (word_at 0 f) ≡ id
    → Found (ntohs (word_at 6 f)) (skip_name 12 end f + 4) end f r
    → Answers id end f r
Found-Answers id end f none e k = tt
Found-Answers id end f (some ip) e (room, at, reached, here) = record {
  ours = e;
  question_end = skip_name 12 end f;
  question = skip_name-NameEnds 12 end f (omega arith);
  at = at;
  reached = reached;
  is_address = here;
}

-- Every address that is taken from a response stands in an answer of it: the response carries the id
-- of the query, the answer is reached from the end of the question (a name and 4 bytes behind the
-- header of 12) over names that end in a zero byte or a compression pointer and over the data of the
-- answers before it, within the number of answers that the header gives; it is of type 1 with 4
-- bytes of data, the address, and no byte of it lies behind the bytes received.
pub parse_response-Answers :
    (id : ℕ) (d : Option Datagram)
    → Answers id (length (message d)) (message d) (parse_response id d)
unfolding parse_response
parse_response-Answers id none = tt
parse_response-Answers id (some d) =
    let r = d.payload in
    let n = length r in
    if_cases (Answers id n r) (ltb n 12) _ _ (λ _. tt)
      (λ _.
        if_cases (Answers id n r) (not (ntohs (word_at 0 r) == id)) _ _ (λ _. tt)
          (λ e.
            if_cases (Answers id n r) (ntohs (word_at 6 r) == 0) _ _ (λ _. tt)
              (λ _.
                Found-Answers id n r _ (==→≡ _ _ (unnegated _ e))
                  (find_answer-Found (ntohs (word_at 6 r)) (skip_name 12 n r + 4) n r))))
