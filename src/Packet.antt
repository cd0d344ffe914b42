-- ===== src/Packet.antt =====
-- Server/Packet.py (Client/Packet.py differs in white space): `IPPacket`, a view of the bytes of an
-- IPv4 datagram with its addresses, ports, ICMP identifiers and checksums.
-- A method takes the packet and returns it changed, or raises. `socket.inet_ntoa` and `inet_aton`
-- are the parameter `inet`.
pub mod Checksum
pub mod Layout
pub mod Recalc
pub mod Segment
pub mod Setters
pub mod Readdress
pub mod Ends
pub mod Truncated
use vpn_core.Base.{
  ℕ, zero, suc, ◌+◌, ◌-◌, ◌*◌, ◌%◌, ◌≡◌, ◌<◌, Bool, true, false, not, ◌&&◌, ◌||◌, Option, none,
  some, List, [], ◌∷◌, ◌++◌, bit_or,
}
use vpn_core.Base.Tests.{ltb, leb, ◌==◌, if◌then◌else◌}
use vpn_core.Base.Lists.{length, take, drop}
use vpn_core.Base.Bits.{shr, shl, low_bits}
use vpn_core.Base.Words.{
  Bytes, IsBytes, byte_at, write_at, pack_u16, unpack_from_u16, pack_into_u16,
}
use vpn_core.Base.Text.{Text}
use vpn_core.Base.Result.{
  Result, ok, raise, value_error, struct_error, ◌>>=◌, ◌>>◌, require, or_raise,
}

-- `socket.inet_ntoa` on four bytes, and `socket.inet_aton`, which fails on what is no address.
pub record Inet : Type 0 where
  pub ntoa : Bytes → Text
  pub aton : Text → Option Bytes
  pub aton-ntoa : (b : Bytes) → length b ≡ 4 → IsBytes b → aton (ntoa b) ≡ some b
  pub length-aton : (t : Text) (b : Bytes) → aton t ≡ some b → length b ≡ 4
  pub aton-IsBytes : (t : Text) (b : Bytes) → aton t ≡ some b → IsBytes b

abbrev pub icmp : ℕ
icmp = 1

abbrev pub tcp : ℕ
tcp = 6

abbrev pub udp : ℕ
udp = 17

-- `protocol in _PORTED`.
abbrev pub ported : ℕ → Bool
ported protocol = protocol == tcp || protocol == udp

-- `_l4`, the offset of the transport header, is always `_ihl`.
pub record IpPacket : Type 0 where
  pub buf : Bytes
  pub ihl : ℕ
  pub protocol : ℕ
  pub l4 : ℕ

-- `__init__`.
unfoldable pub init : Bytes → Result IpPacket
init raw = do
  require (leb 20 (length raw)) value_error
  require (shr (byte_at raw 0) 4 == 4) value_error
  let ihl = low_bits (byte_at raw 0) 4 * 4
  require (leb 20 ihl && leb ihl (length raw)) value_error
  let protocol = byte_at raw 9
  require (not (ported protocol && ltb (length raw) (ihl + 4))) value_error
  ok (record { buf = raw; ihl = ihl; protocol = protocol; l4 = ihl })

-- The sum of `_checksum`: `total += (data[i] << 8) | data[i + 1]`, two bytes a round.
unfoldable pub sum_words : ℕ → Bytes → ℕ
sum_words total [] = total
sum_words total (a ∷ []) = total
sum_words total (a ∷ b ∷ rest) = sum_words (total + bit_or (shl a 8) b) rest

-- `while total >> 16: total = (total & 0xFFFF) + (total >> 16)`, on fuel.
unfoldable pub fold_carry : ℕ → ℕ → ℕ
fold_carry zero total = total
fold_carry (suc fuel) total =
    let rest = fold_carry fuel (low_bits total 16 + shr total 16) in
    if shr total 16 == 0 then total else rest

-- A zero byte behind data of odd length.
unfoldable pub pad : Bytes → Bytes
pad bytes = if length bytes % 2 == 0 then bytes else bytes ++ 0 ∷ []

-- `_checksum`: the complement in 16 bits.
unfoldable pub checksum : Bytes → ℕ
unfolding sum_words fold_carry pad
checksum bytes = let total = sum_words 0 (pad bytes) in 65535 - fold_carry total total % 65536

-- `to_bytes`.
abbrev pub to_bytes : IpPacket → Bytes
to_bytes p = p.buf

-- `_is_icmp_echo`.
unfoldable pub is_icmp_echo : IpPacket → Bool
is_icmp_echo p =
    if not (p.protocol == icmp) || ltb (length p.buf) (p.l4 + 8)
    then false
    else byte_at p.buf p.l4 == 0 || byte_at p.buf p.l4 == 8

-- `_recalc_ip_checksum`.
unfoldable pub recalc_ip_checksum : IpPacket → Result IpPacket
recalc_ip_checksum p = do
  let cleared = write_at 10 (0 ∷ 0 ∷ []) p.buf
  let csum = checksum (take p.ihl cleared)
  buf ← pack_into_u16 cleared 10 csum
  ok (record p { buf = buf })

-- `_pseudo_header`, for a length that fits: else `struct.pack` raises, see `recalc_l4_checksum`.
unfoldable pub pseudo_header : IpPacket → ℕ → Bytes
pseudo_header p l4_len =
    take 4 (drop 12 p.buf) ++ (take 4 (drop 16 p.buf) ++ (0 ∷ p.protocol ∷ pack_u16 l4_len))

-- A UDP checksum of 0 would mean that there is none.
abbrev pub shown_checksum : ℕ → ℕ → ℕ
shown_checksum protocol csum = if protocol == udp && csum == 0 then 65535 else csum

-- `_recalc_l4_checksum`.
unfoldable pub recalc_l4_checksum : IpPacket → Result IpPacket
recalc_l4_checksum p = do
  let csum_off = p.l4 + (if p.protocol == tcp then 16 else 6)
  cleared ← pack_into_u16 p.buf csum_off 0
  let segment = drop p.l4 cleared
  require (leb (length segment) 65535) struct_error
  let csum = checksum (pseudo_header (record p { buf = cleared }) (length segment) ++ segment)
  buf ← pack_into_u16 cleared csum_off (shown_checksum p.protocol csum)
  ok (record p { buf = buf })

-- `_recalc_icmp_checksum`.
unfoldable pub recalc_icmp_checksum : IpPacket → Result IpPacket
recalc_icmp_checksum p = do
  let csum_off = p.l4 + 2
  cleared ← pack_into_u16 p.buf csum_off 0
  buf ← pack_into_u16 cleared csum_off (checksum (drop p.l4 cleared))
  ok (record p { buf = buf })

-- `_refresh_checksums`.
unfoldable pub refresh_checksums : IpPacket → Result IpPacket
refresh_checksums p = do
  q ← recalc_ip_checksum p
  if ported q.protocol then recalc_l4_checksum q else ok q

-- `_read_port`.
unfoldable pub read_port : IpPacket → ℕ → Result (Option ℕ)
read_port p off =
    if ported p.protocol then (do port ← unpack_from_u16 p.buf off; ok (some port)) else ok none

-- `_write_port`.
unfoldable pub write_port : IpPacket → ℕ → ℕ → Result IpPacket
write_port p off port =
    if ported p.protocol
    then (do
      require (leb port 65535) value_error
      buf ← pack_into_u16 p.buf off port
      ok (record p { buf = buf }))
    else ok p

abbrev pub write_port? : IpPacket → ℕ → Option ℕ → Result IpPacket
write_port? p off none = ok p
write_port? p off (some port) = write_port p off port

-- `get_icmp_id`.
unfoldable pub get_icmp_id : IpPacket → Result (Option ℕ)
unfolding is_icmp_echo
get_icmp_id p =
    if is_icmp_echo p
    then (do identifier ← unpack_from_u16 p.buf (p.l4 + 4); ok (some identifier))
    else ok none

-- `set_icmp_id`.
unfoldable pub set_icmp_id : IpPacket → ℕ → Result IpPacket
unfolding is_icmp_echo
set_icmp_id p identifier =
    if is_icmp_echo p
    then (do
      require (leb identifier 65535) value_error
      buf ← pack_into_u16 p.buf (p.l4 + 4) identifier
      q ← recalc_icmp_checksum (record p { buf = buf })
      recalc_ip_checksum q)
    else ok p

module _ (inet : Inet) where
  open inet use {ntoa, aton}

  -- `_read_ip`.
  abbrev pub read_ip : IpPacket → ℕ → Text
  read_ip p off = ntoa (take 4 (drop off p.buf))

  -- `_write_ip`.
  unfoldable pub write_ip : IpPacket → ℕ → Text → Result IpPacket
  write_ip p off ip = do
    packed ← or_raise (aton ip) value_error
    ok (record p { buf = write_at off packed p.buf })

  -- `get_source` and `get_destination`.
  unfoldable pub get_source : IpPacket → Result (Text × Option ℕ)
  unfolding read_port
  get_source p = do port ← read_port p (p.l4 + 0); ok (read_ip p 12, port)

  unfoldable pub get_destination : IpPacket → Result (Text × Option ℕ)
  unfolding read_port
  get_destination p = do port ← read_port p (p.l4 + 2); ok (read_ip p 16, port)

  -- `set_source` and `set_destination`.
  unfoldable pub set_source : IpPacket → Text × Option ℕ → Result IpPacket
  unfolding write_ip write_port
  set_source p (ip, port) = do
    q ← write_ip p 12 ip
    r ← write_port? q (q.l4 + 0) port
    refresh_checksums r

  unfoldable pub set_destination : IpPacket → Text × Option ℕ → Result IpPacket
  unfolding write_ip write_port
  set_destination p (ip, port) = do
    q ← write_ip p 16 ip
    r ← write_port? q (q.l4 + 2) port
    refresh_checksums r
