-- ===== src/Dns/Cache.antt =====
-- The cache of Server/DNSCache.py: what a response teaches it, and how large it grows.
use vpn_core.Base.{
  ℕ, zero, suc, ◌+◌, ◌-◌, ◌*◌, not, ◌≤◌, ◌≡◌, inl, inr, refl, Bool, true, false, ◌||◌, Option, none,
  some, List, [], ◌∷◌, ◌++◌, arith,
}
use vpn_core.Base.Tests.{leb, ltb, ◌==◌, if◌then◌else◌, Bool-cases, Option-cases}
use vpn_core.Base.Lists.{length, length-append, is_empty, take, drop, All, All-drop}
use vpn_core.Base.Eq.{nat_eq, list_eq, is_in}
use vpn_core.Base.Dict.{Dict, lookup, insert, lookup-insert, length-insert_le}
use vpn_core.Base.Words.{Bytes, IsBytes, byte_at, u16_at, u16_at-lt}
use vpn_core.Base.Bits.{shr, low_bits}
use vpn_core.Base.Slices.{drop-drop}
use vpn_core.Base.Text.{Text}
use vpn_core.Dns.{
  DnsCache, new_cache, remember, insert_all, ingest, observe_ip_packet, parse_dns_response,
  read_answers, record_address, parse_name, extract_dns_payload, skip_questions, udp_payload,
  tcp_payload, is_dns,
}

pub lookup-insert_all :
    (ips : List Text) (domain j : Text) (d : Dict Text Text)
    → lookup j (insert_all ips domain d) ≡ (if is_in j ips then some domain else lookup j d)
unfolding insert_all is_in
lookup-insert_all [] domain j d = refl
lookup-insert_all (ip ∷ ips) domain j d =
    ground (arith, lookup-insert_all ips domain j (insert ip domain d), lookup-insert ip j domain d)

length-insert_all :
    (ips : List Text) (domain : Text) (d : Dict Text Text)
    → length (insert_all ips domain d) ≤ length d + length ips
unfolding insert_all
length-insert_all [] domain d = omega arith
length-insert_all (ip ∷ ips) domain d =
    omega (arith, length-insert_all ips domain (insert ip domain d), length-insert_le ip domain d)

length-record_address : (t c : ℕ) (rdata : Bytes) → length (record_address t c rdata) ≤ 1
unfolding record_address
length-record_address t c rdata = ground arith

length-unless :
    (stop : Bool) (ips : List Text) (n : ℕ) → length ips ≤ n → length (if stop then [] else ips) ≤ n
length-unless true ips n h = omega arith
length-unless false ips n h = h

length-read_answers :
    (n : ℕ) (bytes : Bytes) (offset : ℕ) → length (read_answers n bytes offset) ≤ n
unfolding read_answers
length-read_answers zero bytes offset = omega arith
length-read_answers (suc n) bytes offset =
    let start : ℕ = (parse_name bytes offset).1 in
    let rdlength : ℕ = u16_at bytes (start + 8) in
    let first : List Text =
      record_address (u16_at bytes start) (u16_at bytes (start + 2))
        (take rdlength (drop (start + 10) bytes)) in
    let rest : List Text = read_answers n bytes (start + 10 + rdlength) in
    let few : length (first ++ rest) ≤ suc n = omega (
      arith,
      length-read_answers n bytes (start + 10 + rdlength),
      length-record_address (u16_at bytes start) (u16_at bytes (start + 2))
          (take rdlength (drop (start + 10) bytes)),
      length-append {0} first rest,
    ) in
    length-unless (leb (length bytes) offset) _ (suc n) (
      length-unless (ltb (length bytes) (start + 10)) _ (suc n)
        (length-unless (ltb (length bytes) (start + 10 + rdlength)) (first ++ rest) (suc n) few))

-- At most as many entries as the cache is to hold, and one response more.
abbrev IsBounded : ℕ → DnsCache → Type 0
IsBounded max cache = (cache.max_entries ≡ max) × (length cache.entries ≤ max + 65535)

remember-IsBounded :
    (max : ℕ) (cache : DnsCache) (domain : Text) (ips : List Text)
    → length ips ≤ 65535
    → IsBounded max cache
    → IsBounded max (remember cache domain ips)
remember-IsBounded max cache domain ips few h =
    elim (Bool-cases (is_empty domain || is_empty ips)) [
      | inl nothing ↦ rw nothing h
      | inr names ↦ elim (Bool-cases (leb cache.max_entries (length cache.entries))) [
        | inl full ↦ rw (names, full) (h.0, omega (arith, length-insert_all ips domain []))
        | inr room ↦
            rw (names, room)
              (let small : length cache.entries ≤ max = ground (arith, h.0) in
                (h.0, omega (arith, length-insert_all ips domain cache.entries)))
      ]
    ]

-- The guards of a successful parse.
guarded :
    {A : Type 0} (b : Bool) (o : Option A) (a : A) → (if b then none else o) ≡ some a → o ≡ some a
guarded true o a h = absurd cc
guarded false o a h = h

answers_of : Text → ℕ → Bytes → Option ℕ → Option (Text × List Text)
answers_of domain n dns none = none
answers_of domain n dns (some start) = some (domain, read_answers n dns start)

answers_of-few :
    (domain : Text) (n : ℕ) (dns : Bytes) (o : Option ℕ) (found : Text) (ips : List Text)
    → answers_of domain n dns o ≡ some (found, ips)
    → length ips ≤ n
unfolding answers_of
answers_of-few domain n dns none found ips h = absurd cc
answers_of-few domain n dns (some start) found ips h =
    let e : read_answers n dns start ≡ ips = cc h in rw (← e) (length-read_answers n dns start)

parse_dns_response-few :
    (dns : Bytes) (domain : Text) (ips : List Text)
    → IsBytes dns
    → parse_dns_response dns ≡ some (domain, ips)
    → length ips ≤ 65535
unfolding parse_dns_response answers_of
parse_dns_response-few dns domain ips bytes h =
    let start : ℕ = (parse_name dns 12).1 + 4 in
    let small : length ips ≤ u16_at dns 6 =
      answers_of-few (parse_name dns 12).0 (u16_at dns 6) dns
        (skip_questions (u16_at dns 4 - 1) dns start) domain ips
        (guarded (ltb (length dns) start) _ _
          (guarded (ltb (u16_at dns 4) 1) _ _ (guarded (ltb (length dns) 12) _ _ h))) in
    omega (arith, small, u16_at-lt dns 6 bytes)

ingest-IsBounded :
    (max : ℕ) (cache : DnsCache) (dns : Bytes)
    → IsBytes dns
    → IsBounded max cache
    → IsBounded max (ingest cache dns)
unfolding ingest
ingest-IsBounded max cache dns bytes h = elim (Option-cases (parse_dns_response dns)) [
  | inl none_read ↦ rw (none_read, ingest) h
  | inr ((domain, ips), is) ↦
      rw (is, ingest)
        (remember-IsBounded max cache domain ips (parse_dns_response-few dns domain ips bytes is) h)
]

-- What is read of a packet is a part of it.
IsPart : Bytes → Option Bytes → Type 0
IsPart packet none = Unit
IsPart packet (some dns) = (n : ℕ) × (dns ≡ drop n packet)

unless-IsPart :
    (b : Bool) (packet : Bytes) (o : Option Bytes)
    → IsPart packet o
    → IsPart packet (if b then none else o)
unfolding IsPart
unless-IsPart true packet o h = tt
unless-IsPart false packet o h = h

when-IsPart :
    (b : Bool) (packet : Bytes) (o : Option Bytes)
    → IsPart packet o
    → IsPart packet (if b then o else none)
unfolding IsPart
when-IsPart true packet o h = h
when-IsPart false packet o h = tt

tcp-IsPart : (packet : Bytes) (ihl : ℕ) → IsPart packet (tcp_payload packet ihl)
unfolding IsPart
tcp-IsPart packet ihl =
    let at_payload : ℕ = ihl + shr (byte_at packet (ihl + 12)) 4 * 4 in
    unless-IsPart (ltb (length packet) (ihl + 20)) packet _ (
      when-IsPart (is_dns packet ihl) packet _ (
        unless-IsPart (ltb (length (drop at_payload packet)) 2) packet
          (some (drop 2 (drop at_payload packet)))
          (at_payload + 2, drop-drop 2 at_payload (at_payload + 2) packet refl)))

udp-IsPart : (packet : Bytes) (ihl : ℕ) → IsPart packet (udp_payload packet ihl)
unfolding IsPart
udp-IsPart packet ihl =
    unless-IsPart (ltb (length packet) (ihl + 8)) packet _
      (when-IsPart (is_dns packet ihl) packet (some (drop (ihl + 8) packet)) (ihl + 8, refl))

either-IsPart :
    (b : Bool) (packet : Bytes) (o p : Option Bytes)
    → IsPart packet o
    → IsPart packet p
    → IsPart packet (if b then o else p)
either-IsPart true packet o p h k = h
either-IsPart false packet o p h k = k

extract_dns_payload-IsPart : (packet : Bytes) → IsPart packet (extract_dns_payload packet)
unfolding extract_dns_payload
extract_dns_payload-IsPart packet =
    let ihl : ℕ = low_bits (byte_at packet 0) 4 * 4 in
    unless-IsPart (ltb (length packet) 20) packet _ (
      unless-IsPart (not (shr (byte_at packet 0) 4 == 4)) packet _ (
        unless-IsPart (ltb ihl 20 || ltb (length packet) ihl) packet _ (
          either-IsPart (byte_at packet 9 == 17) packet _ _ (udp-IsPart packet ihl)
            (when-IsPart (byte_at packet 9 == 6) packet _ (tcp-IsPart packet ihl)))))

observe_part-IsBounded :
    (max : ℕ) (cache : DnsCache) (packet : Bytes) (o : Option Bytes)
    → IsPart packet o
    → extract_dns_payload packet ≡ o
    → IsBytes packet
    → IsBounded max cache
    → IsBounded max (observe_ip_packet cache packet)
unfolding IsPart observe_ip_packet
observe_part-IsBounded max cache packet none part is bytes h = rw (is, observe_ip_packet) h
observe_part-IsBounded max cache packet (some dns) (n, e) is bytes h =
    rw (is, observe_ip_packet) (ingest-IsBounded max cache dns (rw e (All-drop _ n packet bytes)) h)

-- The packets that pass, one after the other.
unfoldable pub observe_all : DnsCache → List Bytes → DnsCache
unfolding observe_ip_packet
observe_all cache [] = cache
observe_all cache (packet ∷ packets) = observe_all (observe_ip_packet cache packet) packets

observe_all-IsBounded :
    (max : ℕ) (cache : DnsCache) (packets : List Bytes)
    → All IsBytes packets
    → IsBounded max cache
    → IsBounded max (observe_all cache packets)
unfolding observe_all
observe_all-IsBounded max cache [] bytes h = h
observe_all-IsBounded max cache (packet ∷ packets) bytes h =
    observe_all-IsBounded max (observe_ip_packet cache packet) packets bytes.1 (
      observe_part-IsBounded max cache packet (extract_dns_payload packet)
        (extract_dns_payload-IsPart packet) refl bytes.0 h)

-- After any packets, whatever they hold, the cache has at most as many entries as it was made for
-- and those of one response, of at most 65535 addresses, more.
pub observe_all-bounded :
    (max_entries : ℕ) (packets : List Bytes)
    → All IsBytes packets
    → length (observe_all (new_cache max_entries) packets).entries ≤ max_entries + 65535
observe_all-bounded max_entries packets bytes =
    (observe_all-IsBounded max_entries (new_cache max_entries) packets bytes (refl, omega arith)).1
