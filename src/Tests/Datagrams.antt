-- ===== src/Tests/Datagrams.antt =====
-- IPPacket at concrete datagrams, with addresses shown as their four bytes.
use vpn_core.Base.{◌≡◌, refl, inl, Bool, false, ◌&&◌, Option, none, some, [], ◌∷◌, ◌⊎◌, ◌+◌, arith}
use vpn_core.Base.Tests.{ltb, if◌then◌else◌}
use vpn_core.Base.Lists.{length}
use vpn_core.Base.Words.{Bytes, IsBytes, write_at, pack_into_u16}
use vpn_core.Base.Text.{Text}
use vpn_core.Base.Result.{ok, raise, struct_error}
use vpn_core.Packet.{
  IpPacket, Inet, init, checksum, get_source, get_destination, set_source, set_destination,
  refresh_checksums, recalc_ip_checksum, recalc_l4_checksum, pseudo_header,
}
use vpn_core.Packet.Layout.{IsIp, In}
use vpn_core.Packet.Setters.{HasRoom, Checksums}
use vpn_core.Packet.Truncated.{set_source-truncated}
use vpn_core.Packet.Ends.{HasEnds, set_source-HasEnds, set_destination-HasEnds}

abbrev pub is_quad : Bytes → Bool
is_quad (w ∷ x ∷ y ∷ z ∷ []) = ltb w 256 && ltb x 256 && ltb y 256 && ltb z 256
is_quad _ = false

abbrev pub aton : Text → Option Bytes
aton t = if is_quad t then some t else none

pub aton_self : (b : Bytes) → length b ≡ 4 → IsBytes b → aton b ≡ some b
aton_self (w ∷ x ∷ y ∷ z ∷ []) e h = ground arith
aton_self _ e h = absurd (omega arith)

pub length-aton : (t b : Bytes) → aton t ≡ some b → length b ≡ 4
length-aton (w ∷ x ∷ y ∷ z ∷ []) b e = ground arith
length-aton _ b e = ground arith

pub aton-IsBytes : (t b : Bytes) → aton t ≡ some b → IsBytes b
aton-IsBytes (w ∷ x ∷ y ∷ z ∷ []) b e = ground arith
aton-IsBytes _ b e = ground arith

abbrev pub quads : Inet
quads = record {
  ntoa = λ b. b;
  aton = aton;
  aton-ntoa = aton_self;
  length-aton = length-aton;
  aton-IsBytes = aton-IsBytes;
}

-- UDP from 10.0.0.2:12345 to 8.8.8.8:53, two bytes of payload.
abbrev pub query : Bytes
query =
    69 ∷ 0 ∷ 0 ∷ 30 ∷ 0 ∷ 1 ∷ 64 ∷ 0 ∷ 64 ∷ 17 ∷ 0 ∷ 0 ∷ 10 ∷ 0 ∷ 0 ∷ 2 ∷ 8 ∷ 8 ∷ 8 ∷ 8 ∷ 48 ∷ 57
    ∷ 0 ∷ 53 ∷ 0 ∷ 10 ∷ 0 ∷ 0 ∷ 104 ∷ 105 ∷ []

abbrev pub query_packet : IpPacket
query_packet = record { buf = query; ihl = 20; protocol = 17; l4 = 20 }

query_parses : init query ≡ ok query_packet
unfolding init
query_parses = refl

pub query-IsIp : IsIp query_packet
query-IsIp = omega arith

pub query-HasRoom : HasRoom query_packet
query-HasRoom = omega arith

set_source-HasEnds_example :
    HasEnds quads query_packet
      (ok (203 ∷ 0 ∷ 113 ∷ 5 ∷ [], some 50001))
      (get_destination quads query_packet)
      (λ i. (In 12 4 i ⊎ In (20 + 0) 2 i) ⊎ Checksums query_packet i)
      (set_source quads query_packet (203 ∷ 0 ∷ 113 ∷ 5 ∷ [], some 50001))
set_source-HasEnds_example =
    set_source-HasEnds quads query_packet query-IsIp query-HasRoom (203 ∷ 0 ∷ 113 ∷ 5 ∷ [])
      (203 ∷ 0 ∷ 113 ∷ 5 ∷ []) refl (some 50001) (omega arith)

set_destination-HasEnds_example :
    HasEnds quads query_packet
      (get_source quads query_packet)
      (ok (10 ∷ 0 ∷ 0 ∷ 9 ∷ [], some 4000))
      (λ i. (In 16 4 i ⊎ In (20 + 2) 2 i) ⊎ Checksums query_packet i)
      (set_destination quads query_packet (10 ∷ 0 ∷ 0 ∷ 9 ∷ [], some 4000))
set_destination-HasEnds_example =
    set_destination-HasEnds quads query_packet query-IsIp query-HasRoom (10 ∷ 0 ∷ 0 ∷ 9 ∷ [])
      (10 ∷ 0 ∷ 0 ∷ 9 ∷ []) refl (some 4000) (omega arith)

-- The checksums that the query should have been sent with.
refresh_run :
    refresh_checksums query_packet
    ≡ ok (record query_packet {
      buf =
          69 ∷ 0 ∷ 0 ∷ 30 ∷ 0 ∷ 1 ∷ 64 ∷ 0 ∷ 64 ∷ 17 ∷ 32 ∷ 189 ∷ 10 ∷ 0 ∷ 0 ∷ 2 ∷ 8 ∷ 8 ∷ 8 ∷ 8
          ∷ 48 ∷ 57 ∷ 0 ∷ 53 ∷ 0 ∷ 10 ∷ 76 ∷ 241 ∷ 104 ∷ 105 ∷ [];
    })
unfolding refresh_checksums recalc_ip_checksum recalc_l4_checksum pseudo_header checksum write_at
    pack_into_u16
refresh_run = refl

-- A TCP segment of four bytes.
abbrev stub : IpPacket
stub = record {
  buf =
      69 ∷ 0 ∷ 0 ∷ 24 ∷ 0 ∷ 1 ∷ 64 ∷ 0 ∷ 64 ∷ 6 ∷ 0 ∷ 0 ∷ 10 ∷ 0 ∷ 0 ∷ 2 ∷ 8 ∷ 8 ∷ 8 ∷ 8 ∷ 48 ∷ 57
      ∷ 0 ∷ 53 ∷ [];
  ihl = 20;
  protocol = 6;
  l4 = 20;
}

set_source-truncated_example :
    (p : IpPacket) × (init stub.buf ≡ ok p)
    × (set_source quads p (1 ∷ 2 ∷ 3 ∷ 4 ∷ [], some 53) ≡ raise struct_error)
    × (set_destination quads p (1 ∷ 2 ∷ 3 ∷ 4 ∷ [], some 53) ≡ raise struct_error)
set_source-truncated_example =
    set_source-truncated quads stub.buf 20 (1 ∷ 2 ∷ 3 ∷ 4 ∷ []) (1 ∷ 2 ∷ 3 ∷ 4 ∷ []) (some 53)
      (omega arith) refl refl (omega arith) (omega arith) (inl (refl, omega arith)) refl
      (omega arith)
