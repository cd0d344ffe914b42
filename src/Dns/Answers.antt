-- ===== src/Dns/Answers.antt =====
-- Responses of DNS: what `_parse_dns_response` of Server/DNSCache.py reads of a message that answers
-- one question, and what `resolve_domain` knows then.
use vpn_core.Base.{
  ℕ, suc, ◌+◌, ◌*◌, ◌/◌, ◌%◌, ◌-◌, ◌≤◌, ◌<◌, ◌≡◌, ◌∙◌, sym, ap, refl, Bool, true, false, Option,
  none, some, List, [], ◌∷◌, ◌++◌, map, append_assoc, arith,
}
use vpn_core.Base.Tests.{leb, ltb, if◌then◌else◌, lt→leb, le→ltb}
use vpn_core.Base.Lists.{length, length-append, take, drop, take-append, drop-append, All, is_empty}
use vpn_core.Base.Eq.{nat_eq, list_eq, is_in}
use vpn_core.Base.Slices.{drop-drop}
use vpn_core.Base.Words.{Bytes, byte_at, u16_at, pack_u16}
use vpn_core.Base.Text.{Text}
use vpn_core.Dns.{
  DnsCache, parse_name, decode_label, join, record_address, read_answers, skip_questions,
  parse_dns_response, resolve_domain, ingest, remember,
}
use vpn_core.Dns.Cache.{lookup-insert_all}
use vpn_core.Dns.Names.{
  IsLabel, name_bytes, owner_bytes, parse_name-name_bytes, parse_name-owner_bytes,
  length-owner_bytes, byte_at_of, length_of,
}
use vpn_core.Dns.Records.{
  Answer, IsAnswer, addresses, answers_bytes, class_of, data_bytes, domain_of, fields,
  join-domain_of, record_address-address_of, type_of,
}

u16_of :
    (bytes rest : Bytes) (offset i : ℕ)
    → drop offset bytes ≡ rest
    → u16_at bytes (offset + i) ≡ u16_at rest i
u16_of bytes rest offset i e =
    let next : byte_at bytes (offset + i + 1) ≡ byte_at rest (i + 1) =
      ap (byte_at bytes) {x = offset + i + 1} {y = offset + (i + 1)} (omega arith)
      ∙ byte_at_of bytes rest offset (i + 1) e in
    rw (byte_at_of bytes rest offset i e, next) refl

-- One round of the loop, in its parts.
read_answers_round :
    (count : ℕ) (bytes rdata : Bytes) (offset start rtype rclass : ℕ)
    → (parse_name bytes offset).1 ≡ start
    → u16_at bytes start ≡ rtype
    → u16_at bytes (start + 2) ≡ rclass
    → u16_at bytes (start + 8) ≡ length rdata
    → take (length rdata) (drop (start + 10) bytes) ≡ rdata
    → leb (length bytes) offset ≡ false
    → ltb (length bytes) (start + 10) ≡ false
    → ltb (length bytes) (start + 10 + length rdata) ≡ false
    → read_answers (suc count) bytes offset
      ≡ record_address rtype rclass rdata ++ read_answers count bytes (start + 10 + length rdata)
unfolding read_answers
read_answers_round count bytes rdata offset start rtype rclass e t c n d inside head whole =
    rw (e, t, c, n, d, inside, head, whole) refl

-- A round at a record with the owner `owner`, whose ten bytes before the data are `h0`, ..., `h9`.
read_answers_step :
    (count : ℕ) (bytes owner rdata tail : Bytes) (offset h0 h1 h2 h3 h4 h5 h6 h7 h8 h9 : ℕ)
    → drop offset bytes
      ≡ owner ++ (h0 ∷ h1 ∷ h2 ∷ h3 ∷ h4 ∷ h5 ∷ h6 ∷ h7 ∷ h8 ∷ h9 ∷ (rdata ++ tail))
    → 1 ≤ length owner
    → (parse_name bytes offset).1 ≡ offset + length owner
    → h8 * 256 + h9 ≡ length rdata
    → read_answers (suc count) bytes offset
      ≡ record_address (h0 * 256 + h1) (h2 * 256 + h3) rdata
        ++ read_answers count bytes (offset + length owner + 10 + length rdata)
read_answers_step count bytes owner rdata tail offset h0 h1 h2 h3 h4 h5 h6 h7 h8 h9 e named past
      counted =
    let n : ℕ = length rdata in
    let start : ℕ = offset + length owner in
    let body : Bytes = h0 ∷ h1 ∷ h2 ∷ h3 ∷ h4 ∷ h5 ∷ h6 ∷ h7 ∷ h8 ∷ h9 ∷ (rdata ++ tail) in
    let whole : length (owner ++ body) ≡ length owner + (10 + (n + length tail)) =
      omega (arith, length-append {0} owner body, length-append {0} rdata tail) in
    let size : length bytes ≡ start + (10 + n + length tail) =
      omega
        (arith, whole, length_of bytes (owner ++ body) offset e (omega (arith, whole, named))) in
    let behind : drop start bytes ≡ body =
      sym (drop-drop (length owner) offset start bytes refl)
      ∙ ap (drop (length owner)) e
      ∙ drop-append (length owner) owner body refl in
    let data_at : take n (drop (start + 10) bytes) ≡ rdata =
      ap (take n) (sym (drop-drop 10 start (start + 10) bytes refl) ∙ ap (drop 10) behind)
      ∙ take-append n rdata tail refl in
    let type_at : u16_at bytes start ≡ h0 * 256 + h1 =
      ap (u16_at bytes) {x = start} {y = start + 0} (omega arith)
      ∙ u16_of bytes body start 0 behind in
    read_answers_round count bytes rdata offset start (h0 * 256 + h1) (h2 * 256 + h3) past type_at
      (u16_of bytes body start 2 behind) (u16_of bytes body start 8 behind ∙ counted) data_at
      (lt→leb (length bytes) offset (omega (arith, size)))
      (le→ltb (length bytes) (start + 10) (omega (arith, size)))
      (le→ltb (length bytes) (start + 10 + n) (omega (arith, size)))

u16-parts : (v : ℕ) → v / 256 * 256 + v % 256 ≡ v
u16-parts v = omega arith

read_answers_nil : (bytes : Bytes) (offset : ℕ) → read_answers 0 bytes offset ≡ []
unfolding read_answers
read_answers_nil bytes offset = refl

read_answers-answers_bytes :
    (answers : List Answer) (bytes rest : Bytes) (offset : ℕ)
    → All IsAnswer answers
    → drop offset bytes ≡ answers_bytes answers ++ rest
    → read_answers (length answers) bytes offset ≡ addresses answers
unfolding answers_bytes addresses
read_answers-answers_bytes [] bytes rest offset h e = read_answers_nil bytes offset
read_answers-answers_bytes (a ∷ answers) bytes rest offset h e =
    let rdata : Bytes = data_bytes a.value in
    let n : ℕ = length rdata in
    let owner : Bytes = owner_bytes a.labels a.pointer in
    let size : ℕ = length owner in
    let tail : Bytes = answers_bytes answers ++ rest in
    let parts : drop offset bytes ≡ owner ++ (fields a ++ tail) =
      e
      ∙ append_assoc (owner ++ fields a) (answers_bytes answers) rest
      ∙ append_assoc owner (fields a) tail in
    let after : drop (offset + size + 10 + n) bytes ≡ tail =
      sym (drop-drop (size + (10 + n)) offset (offset + size + 10 + n) bytes (omega arith))
      ∙ ap (drop (size + (10 + n))) parts
      ∙ sym (drop-drop (10 + n) size (size + (10 + n)) (owner ++ (fields a ++ tail)) (omega arith))
      ∙ ap (drop (10 + n)) (drop-append size owner (fields a ++ tail) refl)
      ∙ sym (drop-drop n 10 (10 + n) (fields a ++ tail) (omega arith))
      ∙ drop-append n rdata tail refl in
    read_answers_step (length answers) bytes owner rdata tail offset _ _ _ _ _ _ _ _ _ _ parts
      (length-owner_bytes a.labels a.pointer)
      (parse_name-owner_bytes a.labels a.pointer bytes (fields a ++ tail) offset h.0.labelled
        h.0.target h.0.few parts)
      (u16-parts n)
    ∙ rw
        (
          u16-parts (type_of a.value),
          u16-parts (class_of a.value),
          record_address-address_of a.value h.0.known,
          read_answers-answers_bytes answers bytes rest (offset + size + 10 + n) h.1 after,
        )
        refl

-- A response to one question, about the name of some labels, with its identifier, its flags, the
-- counts of the records behind the answers, and the type and class of the question.
pub record Response : Type 0 where
  pub id : ℕ
  pub flags : ℕ
  pub authorities : ℕ
  pub additionals : ℕ
  pub qtype : ℕ
  pub qclass : ℕ
  pub labels : List Bytes
  pub answers : List Answer

abbrev pub response_bytes : Response → Bytes
response_bytes r =
    pack_u16 r.id
    ++ pack_u16 r.flags
    ++ pack_u16 1
    ++ pack_u16 (length r.answers)
    ++ pack_u16 r.authorities
    ++ pack_u16 r.additionals
    ++ (name_bytes r.labels ++ (pack_u16 r.qtype ++ pack_u16 r.qclass ++ answers_bytes r.answers))

passed : {A : Type 0} (b : Bool) (o : Option A) → b ≡ false → (if b then none else o) ≡ o
passed b o e = rw e refl

-- The parse behind the name of the question, and behind the questions.
abbrev from_start : Bytes → Text → Option ℕ → Option (Text × List Text)
from_start dns domain none = none
from_start dns domain (some start) = some (domain, read_answers (u16_at dns 6) dns start)

abbrev from_name : Bytes → Text × ℕ → Option (Text × List Text)
from_name dns name =
    if ltb (length dns) (name.1 + 4)
    then none
    else from_start dns name.0 (skip_questions (u16_at dns 4 - 1) dns (name.1 + 4))

one_question :
    (dns : Bytes) (offset n : ℕ) → n ≡ 1 → skip_questions (n - 1) dns offset ≡ some offset
unfolding skip_questions
one_question dns offset n e = rw e refl

parse_dns_response_step :
    (dns : Bytes) (domain : Text) (offset count : ℕ)
    → 12 ≤ length dns
    → u16_at dns 4 ≡ 1
    → u16_at dns 6 ≡ count
    → parse_name dns 12 ≡ (domain, offset)
    → offset + 4 ≤ length dns
    → parse_dns_response dns ≡ some (domain, read_answers count dns (offset + 4))
unfolding parse_dns_response
parse_dns_response_step dns domain offset count head one answers name fits =
    passed (ltb (length dns) 12) _ (le→ltb (length dns) 12 head)
    ∙ passed (ltb (u16_at dns 4) 1) (from_name dns (parse_name dns 12))
        (ap (λ (n : ℕ). ltb n 1) one)
    ∙ ap (from_name dns) name
    ∙ passed (ltb (length dns) (offset + 4)) _ (le→ltb (length dns) (offset + 4) fits)
    ∙ ap (from_start dns domain) (one_question dns (offset + 4) (u16_at dns 4) one)
    ∙ ap (λ (n : ℕ). some (domain, read_answers n dns (offset + 4))) answers

-- A response to one question with a name of less than 128 labels, of 1 to 63 bytes each, and records
-- of any type, class and owner, the owner given by labels, by a pointer, or by both, is read as the
-- labels joined by dots, U+FFFD for each byte that is no ASCII, with the addresses of the A and AAAA
-- records of the Internet class, dotted or in groups, in their order, whatever follows them.
pub parse_dns_response-response_bytes :
    (r : Response) (rest : Bytes)
    → All IsLabel r.labels
    → length r.labels < 128
    → All IsAnswer r.answers
    → parse_dns_response (response_bytes r ++ rest) ≡ some (domain_of r.labels, addresses r.answers)
parse_dns_response-response_bytes r rest h few known =
    let tail : Bytes = answers_bytes r.answers ++ rest in
    let question : Bytes = pack_u16 r.qtype ++ pack_u16 r.qclass ++ tail in
    let dns : Bytes = response_bytes r ++ rest in
    let size : ℕ = length (name_bytes r.labels) in
    let at_name : drop 12 dns ≡ name_bytes r.labels ++ question =
      append_assoc (name_bytes r.labels)
        (pack_u16 r.qtype ++ pack_u16 r.qclass ++ answers_bytes r.answers) rest in
    let name : parse_name dns 12 ≡ (join (map decode_label r.labels), 12 + size) =
      parse_name-name_bytes r.labels dns question 12 h few at_name in
    let at_answers : drop (12 + size + 4) dns ≡ tail =
      sym (drop-drop (size + 4) 12 (12 + size + 4) dns (omega arith))
      ∙ ap (drop (size + 4)) at_name
      ∙ sym (drop-drop 4 size (size + 4) (name_bytes r.labels ++ question) refl)
      ∙ ap (drop 4) (drop-append size (name_bytes r.labels) question refl) in
    let long : length dns ≡ 12 + size + (4 + length tail) = omega (
      arith,
      ap (λ (t : Bytes). length t) at_name,
      length-append {0} (name_bytes r.labels) question,
    ) in
    parse_dns_response_step dns _ (12 + size) (length r.answers) (omega (arith, long)) refl
      (u16-parts (length r.answers)) name (omega (arith, long))
    ∙ ap (λ (ips : List Text). some (join (map decode_label r.labels), ips))
        (read_answers-answers_bytes r.answers dns rest (12 + size + 4) known at_answers)
    ∙ ap (λ (t : Text). some (t, addresses r.answers)) (join-domain_of r.labels)

name_some :
    (labels : List Bytes)
    → All IsLabel labels
    → is_empty labels ≡ false
    → is_empty (domain_of labels) ≡ false
name_some [] h some_label = absurd cc
name_some ([] ∷ labels) h some_label = absurd (omega (arith, h))
name_some ((b ∷ bs) ∷ labels) h some_label = refl

remember-is_in :
    (cache : DnsCache) (domain ip : Text) (ips : List Text)
    → is_empty domain ≡ false
    → is_in ip ips ≡ true
    → resolve_domain (remember cache domain ips) ip ≡ some domain
unfolding is_in
remember-is_in cache domain ip [] named there = absurd cc
remember-is_in cache domain ip (first ∷ ips) named there =
    rw named (lookup-insert_all (first ∷ ips) domain ip _ ∙ rw there)

-- What a response to one question, for a name of less than 128 labels of 1 to 63 bytes and with
-- records of any type, class and owner, teaches, whatever follows its answers: unless the name is the
-- root, every address in its A and AAAA records is known to be the question's name, whatever the
-- cache held and however full it was.
pub ingest-response_bytes :
    (cache : DnsCache) (r : Response) (rest : Bytes) (ip : Text)
    → All IsLabel r.labels
    → length r.labels < 128
    → All IsAnswer r.answers
    → is_empty r.labels ≡ false
    → is_in ip (addresses r.answers) ≡ true
    → resolve_domain (ingest cache (response_bytes r ++ rest)) ip ≡ some (domain_of r.labels)
unfolding ingest
ingest-response_bytes cache r rest ip h few known some_label there =
    ap (λ (c : DnsCache). resolve_domain c ip)
      (ap (after_parse cache) (parse_dns_response-response_bytes r rest h few known))
    ∙ remember-is_in cache (domain_of r.labels) ip (addresses r.answers)
        (name_some r.labels h some_label) there
  where
    after_parse : DnsCache → Option (Text × List Text) → DnsCache
    after_parse cache none = cache
    after_parse cache (some (domain, ips)) = remember cache domain ips
