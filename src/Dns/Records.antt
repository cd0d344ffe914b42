-- ===== src/Dns/Records.antt =====
-- The resource records that `_parse_dns_response` of Server/DNSCache.py reads, as RFC 1035 and RFC
-- 3596 write them, and the texts of their names and addresses.
use vpn_core.Base.{
  ℕ, ◌*◌, ◌/◌, ◌%◌, ◌<◌, ◌≡◌, ◌∙◌, sym, ap, refl, inl, inr, false, Option, List, [], ◌∷◌, ◌++◌,
  ◌&&◌, map, append-nil, arith,
}
use vpn_core.Base.Tests.{leb, if◌then◌else◌, Bool-cases, ◌==◌}
use vpn_core.Base.Lists.{length, All}
use vpn_core.Base.Words.{Bytes, pack_u16, pack_u32}
use vpn_core.Base.Text.{Text}
use vpn_core.Dns.{decimal, decode_label, dotted, hex_digit, hex_groups, join, record_address}
use vpn_core.Dns.Names.{IsLabel, IsTarget, owner_bytes}

-- A byte of a name as a character: what is no ASCII becomes U+FFFD.
abbrev shown : ℕ → ℕ
shown b = if leb 128 b then 65533 else b

-- Labels behind a dot each, and a name.
abbrev behind_dots : List Bytes → Text
behind_dots [] = []
behind_dots (label ∷ labels) = 46 ∷ (map shown label ++ behind_dots labels)

abbrev pub domain_of : List Bytes → Text
domain_of [] = []
domain_of (label ∷ labels) = map shown label ++ behind_dots labels

decode_label-shown : (label : Bytes) → decode_label label ≡ map shown label
unfolding decode_label
decode_label-shown [] = refl
decode_label-shown (b ∷ bs) = elim (Bool-cases (leb 128 b)) [
  | inl high ↦ ground (arith, decode_label-shown bs)
  | inr low ↦ ground (arith, decode_label-shown bs)
]

join-dots :
    (label : Bytes) (labels : List Bytes)
    → join (map decode_label (label ∷ labels)) ≡ domain_of (label ∷ labels)
unfolding join
join-dots label [] = decode_label-shown label ∙ sym (append-nil (map shown label))
join-dots label (next ∷ labels) =
    ap (λ (t : Text). t ++ (46 ∷ join (map decode_label (next ∷ labels))))
      (decode_label-shown label)
    ∙ ap (λ (t : Text). map shown label ++ (46 ∷ t)) (join-dots next labels)

pub join-domain_of : (labels : List Bytes) → join (map decode_label labels) ≡ domain_of labels
unfolding join
join-domain_of [] = refl
join-domain_of (label ∷ labels) = join-dots label labels

-- The data of a record: an IPv4 address, an IPv6 address in groups of two bytes, or anything else,
-- with its type and class.
pub data Data : Type 0 where
  v4 : ℕ → ℕ → ℕ → ℕ → Data
  v6 : List (ℕ × ℕ) → Data
  other : ℕ → ℕ → Bytes → Data

abbrev flat : List (ℕ × ℕ) → Bytes
flat [] = []
flat ((x, y) ∷ groups) = x ∷ y ∷ flat groups

abbrev pub type_of : Data → ℕ
type_of (v4 a b c d) = 1
type_of (v6 groups) = 28
type_of (other rtype rclass bytes) = rtype

abbrev pub class_of : Data → ℕ
class_of (v4 a b c d) = 1
class_of (v6 groups) = 1
class_of (other rtype rclass bytes) = rclass

abbrev pub data_bytes : Data → Bytes
data_bytes (v4 a b c d) = a ∷ b ∷ c ∷ d ∷ []
data_bytes (v6 groups) = flat groups
data_bytes (other rtype rclass bytes) = bytes

-- An IPv6 address has eight groups, and what is called another record is no address.
abbrev pub IsData : Data → Type 0
IsData (v4 a b c d) = Unit
IsData (v6 groups) = length groups ≡ 8
IsData (other rtype rclass bytes) =
    (¬ ((rclass ≡ 1) × (rtype ≡ 1) × (length bytes ≡ 4)))
    × (¬ ((rclass ≡ 1) × (rtype ≡ 28) × (length bytes ≡ 16)))

-- Two bytes in four hexadecimal digits, and groups behind a colon each.
abbrev hex_group : ℕ × ℕ → Text
hex_group (x, y) =
    hex_digit (x / 16) ∷ hex_digit (x % 16) ∷ hex_digit (y / 16) ∷ hex_digit (y % 16) ∷ []

abbrev behind_colons : List (ℕ × ℕ) → Text
behind_colons [] = []
behind_colons (group ∷ groups) = 58 ∷ (hex_group group ++ behind_colons groups)

abbrev hex_text : List (ℕ × ℕ) → Text
hex_text [] = []
hex_text (group ∷ groups) = hex_group group ++ behind_colons groups

-- The address that a record gives, if it is one.
abbrev pub address_of : Data → List Text
address_of (v4 a b c d) =
    (decimal a ++ (46 ∷ (decimal b ++ (46 ∷ (decimal c ++ (46 ∷ decimal d)))))) ∷ []
address_of (v6 groups) = hex_text groups ∷ []
address_of (other rtype rclass bytes) = []

hex_groups-flat : (groups : List (ℕ × ℕ)) → hex_groups (flat groups) ≡ hex_text groups
unfolding hex_groups
hex_groups-flat [] = refl
hex_groups-flat ((x, y) ∷ []) = refl
hex_groups-flat ((x, y) ∷ (z, w) ∷ groups) =
    ap
      (λ (t : Text).
        hex_digit (x / 16) ∷ hex_digit (x % 16) ∷ hex_digit (y / 16) ∷ hex_digit (y % 16) ∷ 58 ∷ t)
      (hex_groups-flat ((z, w) ∷ groups))

length-flat : (groups : List (ℕ × ℕ)) → length (flat groups) ≡ length groups * 2
length-flat [] = refl
length-flat ((x, y) ∷ groups) = omega (arith, length-flat groups)

no_match :
    (rclass rtype size t n : ℕ)
    → ¬ ((rclass ≡ 1) × (rtype ≡ t) × (size ≡ n))
    → (rclass == 1 && rtype == t && size == n) ≡ false
no_match rclass rtype size t n h = elim (Bool-cases (rclass == 1 && rtype == t && size == n)) [
  | inl all ↦ absurd (h (ground (arith, all)))
  | inr missing ↦ missing
]

pub record_address-address_of :
    (d : Data) → IsData d → record_address (type_of d) (class_of d) (data_bytes d) ≡ address_of d
unfolding record_address dotted join
record_address-address_of (v4 a b c d) is = refl
record_address-address_of (v6 groups) is =
    let size : length (flat groups) ≡ 16 = omega (arith, length-flat groups, is) in
    rw (size, hex_groups-flat groups) refl
record_address-address_of (other rtype rclass bytes) is =
    rw
      (
        no_match rclass rtype (length bytes) 1 4 is.0,
        no_match rclass rtype (length bytes) 28 16 is.1,
      )
      refl

-- A record, with its owner's labels and pointer.
pub record Answer : Type 0 where
  pub labels : List Bytes
  pub pointer : Option ℕ
  pub ttl : ℕ
  pub value : Data

pub record IsAnswer (a : Answer) : Type 0 where
  pub labelled : All IsLabel a.labels
  pub few : length a.labels < 128
  pub target : IsTarget a.pointer
  pub known : IsData a.value

abbrev pub fields : Answer → Bytes
fields a =
    pack_u16 (type_of a.value)
    ++ pack_u16 (class_of a.value)
    ++ pack_u32 a.ttl
    ++ pack_u16 (length (data_bytes a.value))
    ++ data_bytes a.value

unfoldable pub answers_bytes : List Answer → Bytes
answers_bytes [] = []
answers_bytes (a ∷ answers) = (owner_bytes a.labels a.pointer ++ fields a) ++ answers_bytes answers

-- The addresses in records, in their order.
unfoldable pub addresses : List Answer → List Text
addresses [] = []
addresses (a ∷ answers) = address_of a.value ++ addresses answers
