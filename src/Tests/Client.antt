-- ===== src/Tests/Client.antt =====
-- Client/NAT.py and Client/VPNClient.py at concrete inputs.
use vpn_core.Base.{ℕ, zero, suc, ap, ◌≡◌, refl, none, List, [], ◌∷◌}
use vpn_core.Base.Lists.{length}
use vpn_core.Base.Eq.{nat_eq, pair_eq, list_eq, is_in}
use vpn_core.Base.Dict.{Dict, lookup}
use vpn_core.Base.Text.{Text, codes, encode_text}
use vpn_core.Base.Words.{Bytes}
use vpn_core.Base.{true, false, ◌≤◌, arith}
use vpn_core.Base.Result.{ok}
use vpn_core.Nat.{scan}
use vpn_core.ClientNat.{ClientNat, Flow, new_nat, allocate_port, port_of}
use vpn_core.ClientNat.Tables.{IsMapped, port_of_full}
use vpn_core.ClientNat.History.{outbound_all, history-IsMapped}
use vpn_core.VpnPacket.{build_packet, header_byte, parse_header_and_payload}
use vpn_core.VpnPacket.Client.{
  build_auth_request, build_get_ip, build_register_request, credentials_payload,
}
use vpn_core.VpnPacket.Server.{
  build_assign_ip, build_auth_success, build_error, build_quota_response, hash_password,
}
use vpn_core.VpnPacket.Replies.{IsRead, bytes_added, trouble, server_build, server_build-IsRead}
use vpn_core.Crypto.{encode}
use vpn_core.Frame
use vpn_core.Frame.Reading.{stream}
use vpn_core.VpnClient.Uplink.{frames_of-reassemble_all, parsed, run_together}
use vpn_core.VpnClient.Register.{register, register-answered}
use vpn_core.VpnClient.Login.{handshake_get_ip-answered, talk}
use vpn_core.Base.Int.{pos}
use vpn_core.VpnClient
use vpn_core.VpnClient.{Conn, World, connect}
use vpn_core.VpnClient.Sessions.{IsEnd, connect-IsEnd, sessions, sessions-le}
use vpn_core.Tests.Parts.{ascii_codec}
use vpn_core.Tests.Datagrams.{quads, query}

abbrev tunnel : Text
tunnel = 10 ∷ 0 ∷ 0 ∷ 9 ∷ []

abbrev leaving : List (ℕ × ℕ × Bytes)
leaving = (65535, 7, query) ∷ (1, 7, query) ∷ []

history-IsMapped_example : IsMapped (outbound_all quads (new_nat tunnel []) leaving)
history-IsMapped_example = history-IsMapped quads tunnel [] leaving

-- So many flows of UDP.
abbrev filled : ℕ → Dict Flow ℕ
filled zero = []
filled (suc n) = ((17, (tunnel, n)), n) ∷ filled n

length-filled : (n : ℕ) → length (filled n) ≡ n
length-filled zero = refl
length-filled (suc n) = ap suc (length-filled n)

lookup-filled : (n : ℕ) → lookup (6, (tunnel, 80)) (filled n) ≡ none
unfolding lookup
lookup-filled zero = refl
lookup-filled (suc n) = lookup-filled n

abbrev crowded : ClientNat
crowded = record (new_nat tunnel []) { out_to_nat = filled 10000 }

picked_run : allocate_port 4000 crowded 6 ≡ ok 4000
unfolding allocate_port scan is_in lookup
picked_run = refl

port_of_full_example :
    ((port_of crowded 4000 (6, (tunnel, 80))).1 ≡ ok 4000)
    × (lookup (6, 4000) (port_of crowded 4000 (6, (tunnel, 80))).0.nat_to_out ≡ none)
port_of_full_example =
    port_of_full crowded 4000 (6, (tunnel, 80)) 4000 (6, 4000) (length-filled 10000)
      (lookup-filled 10000) picked_run

-- An attempt in which everything works, with session 2 and the address "ip".
abbrev welcome : Conn
welcome = record {
  opens = true;
  first_sent = true;
  second_sent = true;
  first_read = VpnClient.heard (0 ∷ 0 ∷ 52 ∷ 0 ∷ []);
  second_read = VpnClient.heard (0 ∷ 2 ∷ 180 ∷ 0 ∷ 105 ∷ 112 ∷ []);
}

abbrev good : World
good = record {
  session_id = 2;
  handshake = welcome;
  tunnel_up = true;
  session = welcome;
  local_port = 40000;
}

-- The first attempt meets no server.
abbrev met : ℕ → World
met zero = good
met (suc zero) = good
met (suc (suc n)) = record good { handshake = record welcome { opens = false } }

abbrev user : VpnClient.Client
user = record {
  username = codes "u";
  password = codes "pw";
  assigned_ip = [];
  session_id = 0;
  retries_left = 0;
  connected = false;
  nat = none;
  reasm = [];
}

connect-IsEnd_example :
    IsEnd ascii_codec (record user { retries_left = 3 }) met 3 (connect ascii_codec user met)
connect-IsEnd_example = connect-IsEnd ascii_codec user met

connect_run : connect ascii_codec user met ≡ (
  VpnClient.started (record user { retries_left = 3 }) good (codes "ip") 1,
  VpnClient.established,
)
unfolding connect VpnClient.rounds VpnClient.round VpnClient.handshake_get_ip VpnClient.authenticate
    VpnClient.auth_code VpnClient.ip_code VpnClient.open_data_connection credentials_payload
    hash_password encode_text build_packet parse_header_and_payload
connect_run = refl

sessions-le_example : sessions ascii_codec user met (met ∷ met ∷ met ∷ []) ≤ 3
sessions-le_example = sessions-le ascii_codec user met (met ∷ met ∷ met ∷ [])

abbrev two_added : Bytes
two_added = 0 ∷ 4 ∷ 100 ∷ 0 ∷ 0 ∷ 0 ∷ 1 ∷ 44 ∷ []

added_run : server_build ascii_codec (bytes_added (pos 300)) (pos 2) ≡ ok two_added
unfolding server_build build_quota_response build_packet header_byte
added_run = refl

server_build-IsRead_example : IsRead ascii_codec (bytes_added (pos 300)) (pos 2) two_added
server_build-IsRead_example =
    server_build-IsRead ascii_codec (bytes_added (pos 300)) (pos 2) two_added added_run

abbrev request_packet : Bytes
request_packet = 0 ∷ 6 ∷ 36 ∷ 0 ∷ 1 ∷ 117 ∷ 35 ∷ 117 ∷ 112 ∷ 119 ∷ []

request_run : build_auth_request ascii_codec (pos 2) (codes "u") (codes "pw") ≡ ok request_packet
unfolding build_auth_request credentials_payload hash_password encode_text build_packet header_byte
request_run = refl

query_run : build_get_ip (pos 2) ≡ ok (0 ∷ 0 ∷ 164 ∷ 0 ∷ [])
unfolding build_packet header_byte
query_run = refl

success_run : build_auth_success (pos 2) ≡ ok (0 ∷ 0 ∷ 52 ∷ 0 ∷ [])
unfolding build_packet header_byte
success_run = refl

assigned_run :
    build_assign_ip ascii_codec (pos 2) (codes "ip") ≡ ok (0 ∷ 2 ∷ 180 ∷ 0 ∷ 105 ∷ 112 ∷ [])
unfolding build_assign_ip encode_text build_packet header_byte
assigned_run = refl

refusal_run : build_error ascii_codec (pos 2) (codes "no") ≡ ok (0 ∷ 2 ∷ 148 ∷ 0 ∷ 110 ∷ 111 ∷ [])
unfolding build_error encode_text build_packet header_byte
refusal_run = refl

handshake_get_ip-answered_example :
    (VpnClient.handshake_get_ip ascii_codec user 2
        (talk (0 ∷ 0 ∷ 52 ∷ 0 ∷ []) (0 ∷ 2 ∷ 180 ∷ 0 ∷ 105 ∷ 112 ∷ []))
      ≡ VpnClient.done (codes "ip"))
    × (VpnClient.handshake_get_ip ascii_codec user 2
          (talk (0 ∷ 0 ∷ 52 ∷ 0 ∷ []) (0 ∷ 2 ∷ 148 ∷ 0 ∷ 110 ∷ 111 ∷ []))
        ≡ VpnClient.failed VpnClient.server_error)
    × (VpnClient.handshake_get_ip ascii_codec user 2
          (talk (0 ∷ 2 ∷ 148 ∷ 0 ∷ 110 ∷ 111 ∷ []) (0 ∷ 2 ∷ 180 ∷ 0 ∷ 105 ∷ 112 ∷ []))
        ≡ VpnClient.failed VpnClient.auth_error)
handshake_get_ip-answered_example =
    handshake_get_ip-answered ascii_codec user 2 request_packet (0 ∷ 0 ∷ 164 ∷ 0 ∷ [])
      (0 ∷ 0 ∷ 52 ∷ 0 ∷ []) (0 ∷ 2 ∷ 180 ∷ 0 ∷ 105 ∷ 112 ∷ []) (0 ∷ 2 ∷ 148 ∷ 0 ∷ 110 ∷ 111 ∷ [])
      (pos 2) (codes "ip") (codes "no") request_run query_run success_run assigned_run refusal_run

-- The connection above with the server's refusal as its first answer.
abbrev refusing : Conn
refusing = record welcome { first_read = VpnClient.heard (0 ∷ 2 ∷ 148 ∷ 0 ∷ 110 ∷ 111 ∷ []) }

abbrev register_packet : Bytes
register_packet = 0 ∷ 6 ∷ 212 ∷ 0 ∷ 1 ∷ 117 ∷ 35 ∷ 117 ∷ 112 ∷ 119 ∷ []

register_packet_run :
    build_register_request ascii_codec (pos 2) (codes "u") (codes "pw") ≡ ok register_packet
unfolding build_register_request credentials_payload hash_password encode_text build_packet
    header_byte
register_packet_run = refl

trouble_run :
    server_build ascii_codec (trouble (codes "no")) (pos 2) ≡ ok (0 ∷ 2 ∷ 148 ∷ 0 ∷ 110 ∷ 111 ∷ [])
unfolding server_build build_error encode_text build_packet header_byte
trouble_run = refl

register-answered_example :
    (register ascii_codec user 2 refusing).1 ≡ VpnClient.failed VpnClient.auth_error
register-answered_example =
    register-answered ascii_codec user 2 refusing register_packet (0 ∷ 2 ∷ 148 ∷ 0 ∷ 110 ∷ 111 ∷ [])
      (trouble (codes "no")) (pos 2) refl refl refl register_packet_run trouble_run

-- The frame of two bytes in session 3, cut after its second byte.
abbrev frame_ticks : List Frame.Tick
frame_ticks =
    Frame.received (5 ∷ 7 ∷ []) ∷ Frame.timed_out ∷ Frame.received (11 ∷ 5 ∷ 6 ∷ 7 ∷ []) ∷ []

frames_run :
    stream frame_ticks ≡ run_together (VpnClient.frames_of 3 (Frame.fragment (1 ∷ 2 ∷ []))).0
unfolding VpnClient.frames_of Frame.fragment build_packet header_byte encode
frames_run = refl

frames_of-reassemble_all_example :
    ((VpnClient.frames_of 3 (Frame.fragment (1 ∷ 2 ∷ []))).1 ≡ none)
    × ((Frame.reassemble_all [] (
          parsed (
            Frame.read_packets
              (length (VpnClient.frames_of 3 (Frame.fragment (1 ∷ 2 ∷ []))).0)
              []
              frame_ticks))).1
        ≡ (1 ∷ 2 ∷ []) ∷ [])
unfolding lookup
frames_of-reassemble_all_example =
    frames_of-reassemble_all 3 (1 ∷ 2 ∷ []) [] frame_ticks (omega arith) (omega arith) refl tt
      frames_run
