-- ===== src/VpnPacket/Client.antt =====
-- Client/VPNPacket.py: `ClientVPNPacket`, its builders and its parser. `hash_password` is the one of
-- Server/VPNPacket.py.
use vpn_core.Base.{ℕ, Bool, false, not, ◌&&◌, ◌||◌, Option, none, some, []}
use vpn_core.Base.Tests.{◌==◌, if◌then◌else◌}
use vpn_core.Base.Lists.{length, is_empty}
use vpn_core.Base.Int.{ℤ, pos, leb_ℤ, pos_part}
use vpn_core.Base.Words.{Bytes, pack_u32, u32_at}
use vpn_core.Base.Text.{Text, Codec, encode_text}
use vpn_core.Base.Result.{Result, ok, value_error, invalid_packet, ◌>>=◌, ◌>>◌, require, or_raise}
use vpn_core.VpnPacket.{
  Parts, build_packet, parse_header_and_payload, data_code, keep_alive, auth_request, auth_success,
  auth_failed, quota_request, quota_response, disconnect, status, error, get_ip, assign_ip,
  get_new_ip, register_request, register_success, announce_ip,
}
use vpn_core.VpnPacket.Server.{hash_password}

pub record ParsedPacket : Type 0 where
  pub code : ℕ
  pub session_id : ℕ
  pub mtu_flag : Bool
  pub payload : Bytes
  pub added_bytes : Option ℕ
  pub status_bytes : Option Bytes
  pub ip : Option Text
  pub error_message : Option Text

-- `_CLIENT_RECEIVABLE`.
unfoldable pub client_receivable : ℕ → Bool
client_receivable code =
    code == data_code
    || code == auth_success
    || code == auth_failed
    || code == quota_response
    || code == disconnect
    || code == status
    || code == error
    || code == assign_ip
    || code == get_new_ip
    || code == register_success

-- The packet before its payload is read.
abbrev pub bare : Parts → ParsedPacket
bare p = record {
  code = p.code;
  session_id = p.session_id;
  mtu_flag = p.mtu_flag;
  payload = p.payload;
  added_bytes = none;
  status_bytes = none;
  ip = none;
  error_message = none;
}

-- The builders, from the client to the server.
abbrev pub build_data : ℤ → Bytes → Bool → Result Bytes
build_data session_id payload more_fragments =
    build_packet (pos data_code) session_id payload more_fragments

abbrev pub build_keep_alive : ℤ → Result Bytes
build_keep_alive session_id = build_packet (pos keep_alive) session_id [] false

unfoldable pub build_quota_request : ℤ → ℤ → Result Bytes
build_quota_request session_id requested_bytes = do
  require (leb_ℤ (pos 0) requested_bytes && leb_ℤ requested_bytes (pos 4294967295)) value_error
  build_packet (pos quota_request) session_id (pack_u32 (pos_part requested_bytes)) false

abbrev pub build_disconnect : ℤ → Result Bytes
build_disconnect session_id = build_packet (pos disconnect) session_id [] false

abbrev pub build_status_request : ℤ → Result Bytes
build_status_request session_id = build_packet (pos status) session_id [] false

abbrev pub build_get_ip : ℤ → Result Bytes
build_get_ip session_id = build_packet (pos get_ip) session_id [] false

module _ (codec : Codec) where
  open codec use {utf8_decode, json_credentials}

  -- `_credentials_payload`.
  unfoldable pub credentials_payload : Text → Text → Result Bytes
  credentials_payload username password = do
    password_hash ← hash_password codec username password
    encode_text codec (json_credentials username password_hash)

  unfoldable pub build_auth_request : ℤ → Text → Text → Result Bytes
  build_auth_request session_id username password = do
    payload ← credentials_payload username password
    build_packet (pos auth_request) session_id payload false

  unfoldable pub build_register_request : ℤ → Text → Text → Result Bytes
  build_register_request session_id username password = do
    payload ← credentials_payload username password
    build_packet (pos register_request) session_id payload false

  unfoldable pub build_error : ℤ → Text → Result Bytes
  build_error session_id message = do
    payload ← encode_text codec message
    build_packet (pos error) session_id payload false

  unfoldable pub build_announce_ip : ℤ → Text → Result Bytes
  build_announce_ip session_id ip = do
    require (not (is_empty ip)) value_error
    payload ← encode_text codec ip
    build_packet (pos announce_ip) session_id payload false

  -- The `if` ladder of `parse`, on the payload of a receivable code.
  unfoldable pub read_payload : Parts → Result ParsedPacket
  read_payload p =
      let pkt = bare p in
      if p.code == quota_response
      then (do
        require (length p.payload == 4) invalid_packet
        ok (record pkt { added_bytes = some (u32_at p.payload 0) }))
      else if p.code == status
      then ok (record pkt { status_bytes = some p.payload })
      else if p.code == assign_ip
      then (do
        address ← or_raise (utf8_decode p.payload) invalid_packet
        require (not (is_empty address)) invalid_packet
        ok (record pkt { ip = some address }))
      else if p.code == error
      then (do
        message ← or_raise (utf8_decode p.payload) invalid_packet
        ok (record pkt { error_message = some message }))
      else if p.code == auth_success
          || p.code == auth_failed
          || p.code == disconnect
          || p.code == get_new_ip
          || p.code == register_success
      then (do require (is_empty p.payload) invalid_packet; ok pkt)
      else ok pkt

  -- `ClientVPNPacket.parse`.
  unfoldable pub parse : Bytes → Result ParsedPacket
  unfolding client_receivable read_payload
  parse packet = do
    parts ← parse_header_and_payload packet
    require (client_receivable parts.code) invalid_packet
    read_payload parts
