-- ===== src/Tests/Parts.antt =====
-- Crypto.py and VPNPacket.py at concrete inputs, with a codec for ASCII.
use vpn_core.Base.{
  ℕ, ◌≤◌, ◌≡◌, refl, ◌↔◌, Bool, true, false, ◌&&◌, Option, none, some, [], ◌∷◌, ◌++◌, arith,
}
use vpn_core.Base.Tests.{ltb, if◌then◌else◌}
use vpn_core.Base.Lists.{length, take, drop, take-append, drop-append}
use vpn_core.Base.Int.{pos, ◌≤ℤ◌}
use vpn_core.Base.Words.{Bytes, IsBytes}
use vpn_core.Base.Text.{Text, Json, object, Codec, codes, encode_text}
use vpn_core.Base.Result.{ok, raise, value_error}
use vpn_core.Crypto.{cesar_shift, encode, decode}
use vpn_core.Crypto.Laws.{cesar_inverse}
use vpn_core.VpnPacket.{Parts, header_byte, build_packet, parse_header_and_payload}
use vpn_core.VpnPacket.Header.{parse-build_iff, build_packet-raise_iff}
use vpn_core.VpnPacket.Client
use vpn_core.VpnPacket.Server
use vpn_core.VpnPacket.Exchange.{Request, IsReceived, client_build, client_build-IsReceived}

abbrev pub is_ascii : Text → Bool
is_ascii [] = true
is_ascii (c ∷ t) = ltb c 128 && is_ascii t

pub is_ascii-IsBytes : (t : Text) → is_ascii t ≡ true → IsBytes t
is_ascii-IsBytes [] h = tt
is_ascii-IsBytes (c ∷ t) h = ground (arith, is_ascii-IsBytes t)

abbrev pub ascii : Text → Option Bytes
ascii t = if is_ascii t then some t else none

pub ascii_back : (t : Text) (b : Bytes) → ascii t ≡ some b → ascii b ≡ some t
ascii_back t b h = ground arith

pub ascii_bytes : (t : Text) (b : Bytes) → ascii t ≡ some b → IsBytes b
ascii_bytes t b h = ground (arith, is_ascii-IsBytes t)

-- A stand-in for JSON: the length of the name, the name, and the password.
abbrev pub loads : Text → Option Json
loads [] = none
loads (n ∷ rest) =
    some (
      object ((codes "username", some (take n rest)) ∷ (codes "password", some (drop n rest)) ∷ []))

abbrev pub dumps : Text → Text → Text
dumps u p = length u ∷ u ++ p

pub loads-dumps :
    (u p : Text)
    → loads (dumps u p)
      ≡ some (object ((codes "username", some u) ∷ (codes "password", some p) ∷ []))
loads-dumps u p = cc (take-append (length u) u p refl, drop-append (length u) u p refl)

abbrev pub ascii_codec : Codec
ascii_codec = record {
  utf8_encode = ascii;
  utf8_decode = ascii;
  json_loads = loads;
  json_credentials = dumps;
  sha256_hex = λ b. 35 ∷ b;
  utf8_decode-encode = ascii_back;
  utf8_encode-IsBytes = ascii_bytes;
  json_loads-credentials = loads-dumps;
}

cesar_inverse_example :
    (decode (encode (250 ∷ 255 ∷ 0 ∷ []) 5) 5 ≡ 250 ∷ 255 ∷ 0 ∷ [])
    × (encode (decode (250 ∷ 255 ∷ 0 ∷ []) 5) 5 ≡ 250 ∷ 255 ∷ 0 ∷ [])
    × IsBytes (encode (250 ∷ 255 ∷ 0 ∷ []) 5)
    × IsBytes (decode (250 ∷ 255 ∷ 0 ∷ []) 5)
cesar_inverse_example = cesar_inverse (250 ∷ 255 ∷ 0 ∷ []) 5 (omega arith)

encode_run : encode (250 ∷ 255 ∷ 0 ∷ []) cesar_shift ≡ 255 ∷ 4 ∷ 5 ∷ []
unfolding encode
encode_run = refl

-- DATA for session 3 with a piece to follow.
abbrev piece_parts : Parts
piece_parts = record { code = 0; session_id = 3; mtu_flag = true; payload = 9 ∷ 8 ∷ [] }

abbrev piece_packet : Bytes
piece_packet = 0 ∷ 2 ∷ 7 ∷ 0 ∷ 9 ∷ 8 ∷ []

parse_run : parse_header_and_payload piece_packet ≡ ok piece_parts
unfolding parse_header_and_payload
parse_run = refl

build_run : build_packet (pos 0) (pos 3) (9 ∷ 8 ∷ []) true ≡ ok piece_packet
unfolding build_packet header_byte
build_run = refl

parse-build_iff_example :
    (parse_header_and_payload piece_packet ≡ ok piece_parts)
    ↔ (build_packet (pos 0) (pos 3) (9 ∷ 8 ∷ []) true ≡ ok piece_packet)
parse-build_iff_example = parse-build_iff piece_packet piece_parts (omega arith)

build_packet-raise_iff_example : (build_packet (pos 0) (pos 8) [] false ≡ raise value_error) ↔ (
    ¬ (
      (pos 0 ≤ℤ pos 0)
      × (pos 0 ≤ℤ pos 15)
      × (pos 0 ≤ℤ pos 8)
      × (pos 8 ≤ℤ pos 7)
      × (length {A = ℕ} [] ≤ 65535)))
build_packet-raise_iff_example = build_packet-raise_iff (pos 0) (pos 8) [] false

abbrev login : Request
login = Request.auth (codes "u") (codes "pw")

login_packet :
    client_build ascii_codec login (pos 2)
    ≡ ok (0 ∷ 6 ∷ 36 ∷ 0 ∷ 1 ∷ 117 ∷ 35 ∷ 117 ∷ 112 ∷ 119 ∷ [])
unfolding client_build Client.build_auth_request Client.credentials_payload Server.hash_password
    encode_text build_packet header_byte
login_packet = refl

client_build-IsReceived_example :
    IsReceived ascii_codec login (pos 2) (0 ∷ 6 ∷ 36 ∷ 0 ∷ 1 ∷ 117 ∷ 35 ∷ 117 ∷ 112 ∷ 119 ∷ [])
client_build-IsReceived_example = client_build-IsReceived ascii_codec login (pos 2) _ login_packet
