-- ===== src/Net/Dns.antt =====
-- net/dns.c: the query for one address, and the parser of the response.
pub mod Names
pub mod Answers
mod Tests
use package.pumpkin_os.Prelude.{
  ℕ, zero, suc, ◌+◌, ◌-◌, ◌*◌, ◌/◌, ◌%◌, ◌^◌, bit_and, bit_or, ltb, leb, ◌==◌, ◌&&◌, ◌||◌, not,
  if◌then◌else◌,
}
use package.pumpkin_os.Prelude.{
  Bool, List, [], ◌∷◌, ◌++◌, length, get_or, replicate, Option, none, some,
}
use package.pumpkin_os.Prelude.Int.{ℤ, pos, negsuc}
use package.pumpkin_os.Net.Wire.{htons, ntohs, word, word_at, slice, bytes_to_ip}
use package.pumpkin_os.Net.State.{Nic, Net, ticks}
use package.pumpkin_os.Net.Udp.{Datagram, net_send_udp, net_recv_udp}

abbrev pub dot : ℕ
dot = b'.'

-- The characters before the next dot or the end, and those from there on.
pub label : List ℕ → List ℕ
label [] = []
label (c ∷ p) = let more = c ∷ label p in if c == dot then [] else more

-- `p = (*dot == '.') ? dot + 1 : dot`
pub after_label : List ℕ → List ℕ
after_label [] = []
after_label (c ∷ p) = let more = after_label p in if c == dot then p else more

-- The length, the label, and what follows.
abbrev pub put_label : List ℕ → Option (List ℕ) → Option (List ℕ)
put_label l none = none
put_label l (some more) = some (length l ∷ (l ++ more))

-- The outer loop of `encode_name`, on the characters before the terminating zero, with fuel.
pub encode_labels : ℕ → List ℕ → Option (List ℕ)
encode_labels zero p = none
encode_labels (suc n) [] = some (0 ∷ [])
encode_labels (suc n) (c ∷ p) =
    let l = label (c ∷ p) in
    let more = encode_labels n (after_label (c ∷ p)) in
    if (length l == 0) || ltb 63 (length l) then none else put_label l more

-- Each label takes a character at least, so the length and one more is enough fuel.
pub encode_name : List ℕ → Option (List ℕ)
encode_name name = encode_labels (suc (length name)) name

-- The loop of `skip_name` from index `p` in the message `f`, with fuel for each index before `end`.
pub skip_from : ℕ → ℕ → ℕ → List ℕ → ℕ
skip_from zero p end f = end
skip_from (suc n) p end f =
    let c = get_or f p 0 in
    let more = skip_from n (p + (1 + c)) end f in
    if not (ltb p end)
    then end
    else if c == 0
    then p + 1
    else if bit_and c 0xC0 == 0xC0
    then p + 2
    else more

pub skip_name : ℕ → ℕ → List ℕ → ℕ
skip_name p end f = skip_from end p end f

-- The `for` over the answers that are left, at index `p`.
pub find_answer : ℕ → ℕ → ℕ → List ℕ → Option ℕ
find_answer zero p end f = none
find_answer (suc answers) p end f =
    let q = skip_name p end f in
    let type = get_or f q 0 * 2 ^ 8 + get_or f (q + 1) 0 in
    let rdlen = get_or f (q + 8) 0 * 2 ^ 8 + get_or f (q + 9) 0 in
    let rdata = q + 10 in
    let more = find_answer answers (rdata + rdlen) end f in
    if ltb end (p + 10)
    then none
    else if ltb end (q + 10)
    then none
    else if (type == 1) && ((rdlen == 4) && leb (rdata + 4) end)
    then some (bytes_to_ip (slice rdata 4 f))
    else more

-- The query in `q`.
pub dns_query : ℕ → List ℕ → List ℕ
dns_query id name =
    word (htons id)
    ++ (word (htons 0x0100)
        ++ (word (htons 1) ++ (replicate 6 0 ++ (name ++ (0 ∷ 1 ∷ 0 ∷ 1 ∷ [])))))

-- What follows the reception; 0 bytes are no datagram.
pub parse_response : ℕ → Option Datagram → Option ℕ
parse_response id none = none
parse_response id (some d) =
    let r = d.payload in
    let n = length r in
    if ltb n 12
    then none
    else if not (ntohs (word_at 0 r) == id)
    then none
    else if ntohs (word_at 6 r) == 0
    then none
    else find_answer (ntohs (word_at 6 r)) (skip_name 12 n r + 4) n r

-- `dns_resolve` from the encoded name on.
pub query_server : {S : Type 0} → Nic S → ℕ → ℕ → ℕ → ℕ → Option (List ℕ) → Net S → Option ℕ × Net S
query_server nic fuel depth id sport none s = (none, s)
query_server nic fuel depth id sport (some name) s =
    let (sent, s1) = net_send_udp nic fuel depth s.net_dns sport 53 (dns_query id name) s in
    let (d, s2) = net_recv_udp nic fuel depth sport 512 4000 s1 in
    elim sent [ pos zero ↦ (parse_response id d, s2) | _ ↦ (none, s1) ]

pub dns_resolve : {S : Type 0} → Nic S → ℕ → ℕ → List ℕ → Net S → Option ℕ × Net S
dns_resolve nic fuel depth hostname s =
    let (t, s1) = ticks nic s in
    let (t', s2) = ticks nic s1 in
    let id = (t * 40503 + 0x1234) % 2 ^ 16 in
    let sport = bit_or 0xC000 (bit_and t' 0x0FFF) in
    let answer = query_server nic fuel depth id sport (encode_name hostname) s2 in
    if not s.net_up || (s.net_dns == 0) then (none, s) else answer
