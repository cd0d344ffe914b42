-- ===== src/VpnPacket/Server.antt =====
-- Server/VPNPacket.py: `ServerVPNPacket`, its builders and its parser, and `hash_password`.
use vpn_core.Base.{ℕ, Bool, false, not, ◌&&◌, ◌||◌, Option, none, some, [], ◌++◌}
use vpn_core.Base.Tests.{◌==◌, if◌then◌else◌}
use vpn_core.Base.Lists.{length, is_empty}
use vpn_core.Base.Eq.{nat_eq, list_eq}
use vpn_core.Base.Dict.{lookup}
use vpn_core.Base.Int.{ℤ, pos, leb_ℤ, pos_part}
use vpn_core.Base.Words.{Bytes, pack_u32, u32_at}
use vpn_core.Base.Text.{Text, codes, Json, object, Codec, encode_text}
use vpn_core.Base.Result.{
  Result, ok, raise, value_error, invalid_packet, ◌>>=◌, ◌>>◌, require, or_raise,
}
use vpn_core.VpnPacket.{
  Parts, build_packet, parse_header_and_payload, data_code, keep_alive, auth_request, auth_success,
  auth_failed, quota_request, quota_response, disconnect, status, error, get_ip, assign_ip,
  get_new_ip, register_request, register_success, announce_ip,
}

pub record ParsedPacket : Type 0 where
  pub code : ℕ
  pub session_id : ℕ
  pub mtu_flag : Bool
  pub payload : Bytes
  pub username : Option Text
  pub password_hash : Option Text
  pub requested_bytes : Option ℕ
  pub error_message : Option Text
  pub ip : Option Text

-- `_SERVER_RECEIVABLE`.
unfoldable pub server_receivable : ℕ → Bool
server_receivable code =
    code == data_code
    || code == keep_alive
    || code == auth_request
    || code == quota_request
    || code == disconnect
    || code == status
    || code == error
    || code == get_ip
    || code == register_request
    || code == announce_ip

-- The packet before its payload is read.
abbrev pub bare : Parts → ParsedPacket
bare p = record {
  code = p.code;
  session_id = p.session_id;
  mtu_flag = p.mtu_flag;
  payload = p.payload;
  username = none;
  password_hash = none;
  requested_bytes = none;
  error_message = none;
  ip = none;
}

-- `isinstance(v, str)` on what `obj.get` returned.
abbrev as_str : Option (Option Text) → Result Text
as_str (some (some t)) = ok t
as_str _ = raise invalid_packet

abbrev credentials_of : Json → Result (Text × Text)
credentials_of (object members) = do
  username ← as_str (lookup (codes "username") members)
  password_hash ← as_str (lookup (codes "password") members)
  ok (username, password_hash)
credentials_of _ = raise invalid_packet

-- The builders, from the server to the client.
abbrev pub build_data : ℤ → Bytes → Bool → Result Bytes
build_data session_id payload more_fragments =
    build_packet (pos data_code) session_id payload more_fragments

abbrev pub build_auth_success : ℤ → Result Bytes
build_auth_success session_id = build_packet (pos auth_success) session_id [] false

abbrev pub build_auth_failed : ℤ → Result Bytes
build_auth_failed session_id = build_packet (pos auth_failed) session_id [] false

unfoldable pub build_quota_response : ℤ → ℤ → Result Bytes
build_quota_response session_id added_bytes = do
  require (leb_ℤ (pos 0) added_bytes && leb_ℤ added_bytes (pos 4294967295)) value_error
  build_packet (pos quota_response) session_id (pack_u32 (pos_part added_bytes)) false

abbrev pub build_disconnect : ℤ → Result Bytes
build_disconnect session_id = build_packet (pos disconnect) session_id [] false

abbrev pub build_status : ℤ → Bytes → Result Bytes
build_status session_id status_bytes = build_packet (pos status) session_id status_bytes false

abbrev pub build_get_new_ip : ℤ → Result Bytes
build_get_new_ip session_id = build_packet (pos get_new_ip) session_id [] false

abbrev pub build_register_success : ℤ → Result Bytes
build_register_success session_id = build_packet (pos register_success) session_id [] false

module _ (codec : Codec) where
  open codec use {utf8_encode, utf8_decode, json_loads, sha256_hex}

  -- `hash_password`.
  unfoldable pub hash_password : Text → Text → Result Text
  hash_password username password = do
    salt ← encode_text codec username
    secret ← encode_text codec password
    ok (sha256_hex (salt ++ secret))

  unfoldable pub build_error : ℤ → Text → Result Bytes
  build_error session_id message = do
    payload ← encode_text codec message
    build_packet (pos error) session_id payload false

  unfoldable pub build_assign_ip : ℤ → Text → Result Bytes
  build_assign_ip session_id ip = do
    require (not (is_empty ip)) value_error
    payload ← encode_text codec ip
    build_packet (pos assign_ip) session_id payload false

  -- `_decode_text`.
  unfoldable pub decode_text : Bytes → Result Text
  decode_text payload = or_raise (utf8_decode payload) invalid_packet

  -- `_decode_credentials`.
  unfoldable pub decode_credentials : Bytes → Result (Text × Text)
  unfolding lookup
  decode_credentials payload = do
    text ← or_raise (utf8_decode payload) invalid_packet
    obj ← or_raise (json_loads text) invalid_packet
    credentials_of obj

  -- The `if` ladder of `parse`, on the payload of a receivable code.
  unfoldable pub read_payload : Parts → Result ParsedPacket
  read_payload p =
      let pkt = bare p in
      if p.code == auth_request || p.code == register_request
      then (do
        (username, password_hash) ← decode_credentials p.payload
        ok (record pkt { username = some username; password_hash = some password_hash }))
      else if p.code == quota_request
      then (do
        require (length p.payload == 4) invalid_packet
        ok (record pkt { requested_bytes = some (u32_at p.payload 0) }))
      else if p.code == error
      then (do message ← decode_text p.payload; ok (record pkt { error_message = some message }))
      else if p.code == announce_ip
      then (do
        address ← decode_text p.payload
        require (not (is_empty address)) invalid_packet
        ok (record pkt { ip = some address }))
      else if p.code == keep_alive || p.code == disconnect || p.code == get_ip
      then (do require (is_empty p.payload) invalid_packet; ok pkt)
      else ok pkt

  -- `ServerVPNPacket.parse`.
  unfoldable pub parse : Bytes → Result ParsedPacket
  unfolding server_receivable read_payload
  parse packet = do
    parts ← parse_header_and_payload packet
    require (server_receivable parts.code) invalid_packet
    read_payload parts
