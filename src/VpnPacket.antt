-- ===== src/VpnPacket.antt =====
-- Server/VPNPacket.py and Client/VPNPacket.py: the codes, the 4-byte header, and the helpers that
-- both files define alike.
pub mod Header
pub mod Server
pub mod Client
pub mod Exchange
pub mod Replies
use vpn_core.Base.{
  ℕ, ◌+◌, ◌*◌, ◌/◌, ◌%◌, ◌^◌, Bool, true, false, ◌&&◌, not, List, [], ◌∷◌, ◌++◌, bit_or,
}
use vpn_core.Base.Tests.{ltb, leb, ◌==◌, if◌then◌else◌}
use vpn_core.Base.Lists.{length, take, drop}
use vpn_core.Base.Bits.{shr, shl, low_bits}
use vpn_core.Base.Int.{ℤ, pos, leb_ℤ, pos_part}
use vpn_core.Base.Words.{Bytes, byte_at, u16_at, pack_u16}
use vpn_core.Base.Result.{Result, ok, raise, value_error, invalid_packet, ◌>>=◌, ◌>>◌, require}

abbrev pub header_len : ℕ
header_len = 4

abbrev pub max_payload : ℕ
max_payload = 65535

abbrev pub max_code : ℕ
max_code = 15

abbrev pub reserved : ℕ
reserved = 0

abbrev pub data_code : ℕ
data_code = 0

abbrev pub keep_alive : ℕ
keep_alive = 1

abbrev pub auth_request : ℕ
auth_request = 2

abbrev pub auth_success : ℕ
auth_success = 3

abbrev pub auth_failed : ℕ
auth_failed = 4

abbrev pub quota_request : ℕ
quota_request = 5

abbrev pub quota_response : ℕ
quota_response = 6

abbrev pub disconnect : ℕ
disconnect = 7

abbrev pub status : ℕ
status = 8

abbrev pub error : ℕ
error = 9

abbrev pub get_ip : ℕ
get_ip = 10

abbrev pub assign_ip : ℕ
assign_ip = 11

abbrev pub get_new_ip : ℕ
get_new_ip = 12

abbrev pub register_request : ℕ
register_request = 13

abbrev pub register_success : ℕ
register_success = 14

abbrev pub announce_ip : ℕ
announce_ip = 15

-- The tuple that `_parse_header_and_payload` returns.
pub record Parts : Type 0 where
  pub code : ℕ
  pub session_id : ℕ
  pub mtu_flag : Bool
  pub payload : Bytes

-- Byte 2 of the header: `(code << 4) | (session_id << 1) | (1 if mtu_flag else 0)`.
unfoldable pub header_byte : ℕ → ℕ → Bool → ℕ
header_byte code session_id mtu_flag =
    bit_or (bit_or (shl code 4) (shl session_id 1)) (if mtu_flag then 1 else 0)

-- `_build_packet`.
unfoldable pub build_packet : ℤ → ℤ → Bytes → Bool → Result Bytes
build_packet code session_id payload mtu_flag = do
  require (leb_ℤ (pos 0) code && leb_ℤ code (pos max_code)) value_error
  require (leb_ℤ (pos 0) session_id && leb_ℤ session_id (pos 7)) value_error
  require (leb (length payload) max_payload) value_error
  let byte2 = header_byte (pos_part code) (pos_part session_id) mtu_flag
  let header = pack_u16 (length payload) ++ byte2 ∷ reserved ∷ []
  ok (header ++ payload)

-- `_parse_header_and_payload`.
unfoldable pub parse_header_and_payload : Bytes → Result Parts
parse_header_and_payload packet = do
  require (leb header_len (length packet)) invalid_packet
  let payload_len = u16_at packet 0
  let byte2 = byte_at packet 2
  require (byte_at packet 3 == reserved) invalid_packet
  let code = low_bits (shr byte2 4) 4
  let session_id = low_bits (shr byte2 1) 3
  let mtu_flag = not (low_bits byte2 1 == 0)
  require (leb code max_code) invalid_packet
  let expected_total = header_len + payload_len
  require (length packet == expected_total) invalid_packet
  ok (record {
    code = code;
    session_id = session_id;
    mtu_flag = mtu_flag;
    payload = drop header_len (take expected_total packet);
  })
