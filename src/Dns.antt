-- ===== src/Dns.antt =====
-- Server/DNSCache.py: the cache of the domains that addresses were seen under, filled from the
-- answers of DNS. The lock makes each method one step. `bytes.decode("ascii", "replace")` puts
-- U+FFFD for each byte that is no ASCII.
pub mod Names
pub mod Records
pub mod Answers
pub mod Cache
use vpn_core.Base.{
  ℕ, zero, suc, ◌+◌, ◌-◌, ◌*◌, ◌/◌, ◌%◌, Bool, true, false, not, ◌&&◌, ◌||◌, Option, none, some,
  List, [], ◌∷◌, ◌++◌, map, bit_or,
}
use vpn_core.Base.Tests.{ltb, leb, ◌==◌, if◌then◌else◌}
use vpn_core.Base.Lists.{length, take, drop, is_empty}
use vpn_core.Base.Eq.{nat_eq, list_eq}
use vpn_core.Base.Dict.{Dict, lookup, insert}
use vpn_core.Base.Bits.{shr, shl, low_bits}
use vpn_core.Base.Words.{Bytes, byte_at, u16_at}
use vpn_core.Base.Text.{Text}

abbrev pub dns_port : ℕ
dns_port = 53

abbrev pub type_a : ℕ
type_a = 1

abbrev pub type_aaaa : ℕ
type_aaaa = 28

abbrev pub class_in : ℕ
class_in = 1

abbrev pub some_if : Bool → Bytes → Option Bytes
some_if b bytes = if b then some bytes else none

-- `DNS_PORT in (src_port, dst_port)`.
abbrev pub is_dns : Bytes → ℕ → Bool
is_dns packet ihl = u16_at packet ihl == dns_port || u16_at packet (ihl + 2) == dns_port

abbrev pub udp_payload : Bytes → ℕ → Option Bytes
udp_payload packet ihl =
    if ltb (length packet) (ihl + 8)
    then none
    else some_if (is_dns packet ihl) (drop (ihl + 8) packet)

abbrev pub tcp_payload : Bytes → ℕ → Option Bytes
tcp_payload packet ihl =
    if ltb (length packet) (ihl + 20)
    then none
    else if is_dns packet ihl
    then (let payload = drop (ihl + shr (byte_at packet (ihl + 12)) 4 * 4) packet in
        if ltb (length payload) 2 then none else some (drop 2 payload))
    else none

-- `_extract_dns_payload`.
unfoldable pub extract_dns_payload : Bytes → Option Bytes
extract_dns_payload packet =
    if ltb (length packet) 20
    then none
    else if not (shr (byte_at packet 0) 4 == 4)
    then none
    else (let ihl = low_bits (byte_at packet 0) 4 * 4 in
        if ltb ihl 20 || ltb (length packet) ihl
        then none
        else if byte_at packet 9 == 17
        then udp_payload packet ihl
        else if byte_at packet 9 == 6
        then tcp_payload packet ihl
        else none)

-- A label: each byte that is no ASCII is replaced.
abbrev pub replace_byte : ℕ → ℕ
replace_byte b = if ltb b 128 then b else 65533

unfoldable pub decode_label : Bytes → Text
decode_label [] = []
decode_label (b ∷ bs) = replace_byte b ∷ decode_label bs

-- `".".join(labels)`.
unfoldable pub join : List Text → Text
join [] = []
join (l ∷ []) = l
join (l ∷ m ∷ ls) = l ++ 46 ∷ join (m ∷ ls)

-- The loop of `_parse_name`, with the steps that it may still take: the labels from here on, and
-- `next_offset`, which no longer changes after a jump.
unfoldable pub name_loop : ℕ → Bytes → ℕ → Bool → ℕ → List Text × ℕ
unfolding decode_label
name_loop zero bytes offset jumped next_offset = ([], next_offset)
name_loop (suc steps) bytes offset jumped next_offset =
    let len = byte_at bytes offset in
    let target = bit_or (shl (low_bits len 6) 8) (byte_at bytes (offset + 1)) in
    let at_pointer =
      name_loop steps bytes target true (if jumped then next_offset else offset + 2) in
    let at_label = name_loop steps bytes (offset + 1 + len) jumped next_offset in
    if leb (length bytes) offset
    then ([], next_offset)
    else if len == 0
    then ([], if jumped then next_offset else offset + 1)
    else if shr len 6 == 3
    then (if leb (length bytes) (offset + 1) then ([], next_offset) else at_pointer)
    else if ltb (length bytes) (offset + 1 + len)
    then ([], next_offset)
    else (decode_label (take len (drop (offset + 1) bytes)) ∷ at_label.0, at_label.1)

-- `_parse_name`.
unfoldable pub parse_name : Bytes → ℕ → Text × ℕ
unfolding name_loop join
parse_name bytes offset =
    let (labels, next_offset) = name_loop 128 bytes offset false offset in
    (join labels, next_offset)

-- `for _ in range(qd - 1)`: the questions behind the first.
unfoldable pub skip_questions : ℕ → Bytes → ℕ → Option ℕ
unfolding parse_name
skip_questions zero bytes offset = some offset
skip_questions (suc n) bytes offset =
    let next_offset = (parse_name bytes offset).1 + 4 in
    let rest = skip_questions n bytes next_offset in
    if ltb (length bytes) next_offset then none else rest

-- `str(b)` of a byte, and `f"{b:02x}"`.
unfoldable pub decimal : ℕ → Text
decimal b =
    if ltb b 10
    then (48 + b) ∷ []
    else if ltb b 100
    then (48 + b / 10) ∷ (48 + b % 10) ∷ []
    else (48 + b / 100) ∷ (48 + b / 10 % 10) ∷ (48 + b % 10) ∷ []

abbrev pub hex_digit : ℕ → ℕ
hex_digit d = if ltb d 10 then 48 + d else 87 + d

unfoldable pub dotted : Bytes → Text
unfolding decimal join
dotted bytes = join (map decimal bytes)

unfoldable pub hex_groups : Bytes → Text
hex_groups (a ∷ b ∷ c ∷ rest) =
    hex_digit (a / 16)
    ∷ hex_digit (a % 16)
    ∷ hex_digit (b / 16)
    ∷ hex_digit (b % 16)
    ∷ 58
    ∷ hex_groups (c ∷ rest)
hex_groups (a ∷ b ∷ []) =
    hex_digit (a / 16) ∷ hex_digit (a % 16) ∷ hex_digit (b / 16) ∷ hex_digit (b % 16) ∷ []
hex_groups (a ∷ []) = []
hex_groups [] = []

-- The address in a record, if it is one.
unfoldable pub record_address : ℕ → ℕ → Bytes → List Text
unfolding dotted hex_groups
record_address rtype rclass rdata =
    if rclass == class_in && rtype == type_a && length rdata == 4
    then dotted rdata ∷ []
    else if rclass == class_in && rtype == type_aaaa && length rdata == 16
    then hex_groups rdata ∷ []
    else []

-- `for _ in range(an)`: the addresses of the answers.
unfoldable pub read_answers : ℕ → Bytes → ℕ → List Text
unfolding parse_name record_address
read_answers zero bytes offset = []
read_answers (suc n) bytes offset =
    let start = (parse_name bytes offset).1 in
    let rdlength = u16_at bytes (start + 8) in
    let stop = start + 10 + rdlength in
    let rest = read_answers n bytes stop in
    if leb (length bytes) offset
    then []
    else if ltb (length bytes) (start + 10)
    then []
    else if ltb (length bytes) stop
    then []
    else record_address (u16_at bytes start) (u16_at bytes (start + 2))
        (take rdlength (drop (start + 10) bytes))
      ++ rest

-- `_parse_dns_response`.
unfoldable pub parse_dns_response : Bytes → Option (Text × List Text)
unfolding parse_name skip_questions read_answers
parse_dns_response bytes =
    if ltb (length bytes) 12
    then none
    else if ltb (u16_at bytes 4) 1
    then none
    else (let (domain, offset) = parse_name bytes 12 in
        if ltb (length bytes) (offset + 4)
        then none
        else elim (skip_questions (u16_at bytes 4 - 1) bytes (offset + 4)) [
          | none ↦ none
          | some start ↦ some (domain, read_answers (u16_at bytes 6) bytes start)
        ])

pub record DnsCache : Type 0 where
  pub entries : Dict Text Text
  pub max_entries : ℕ

abbrev pub new_cache : ℕ → DnsCache
new_cache max_entries = record { entries = []; max_entries = max_entries }

abbrev pub resolve_domain : DnsCache → Text → Option Text
resolve_domain cache ip = lookup ip cache.entries

-- `for ip in ips: self._map[ip] = domain`.
unfoldable pub insert_all : List Text → Text → Dict Text Text → Dict Text Text
insert_all [] domain entries = entries
insert_all (ip ∷ ips) domain entries = insert_all ips domain (insert ip domain entries)

abbrev pub remember : DnsCache → Text → List Text → DnsCache
remember cache domain ips = if is_empty domain || is_empty ips then cache else record cache {
  entries =
      insert_all ips domain
        (if leb cache.max_entries (length cache.entries) then [] else cache.entries);
}

-- `_ingest`.
unfoldable pub ingest : DnsCache → Bytes → DnsCache
unfolding parse_dns_response insert_all
ingest cache dns = elim (parse_dns_response dns) [
  | none ↦ cache
  | some (domain, ips) ↦ remember cache domain ips
]

unfoldable pub observe_ip_packet : DnsCache → Bytes → DnsCache
unfolding extract_dns_payload ingest
observe_ip_packet cache packet = elim (extract_dns_payload packet) [
  | none ↦ cache
  | some dns ↦ ingest cache dns
]
