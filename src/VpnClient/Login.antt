-- ===== src/VpnClient/Login.antt =====
-- The handshake of Client/VPNClient.py against what the builders of Server/VPNPacket.py make.
use vpn_core.Base.{ℕ, ◌≡◌, ◌∙◌, ap, refl, true, some}
use vpn_core.Base.Int.{ℤ, pos}
use vpn_core.Base.Words.{Bytes}
use vpn_core.Base.Text.{Text, Codec}
use vpn_core.Base.Result.{ok}
use vpn_core.VpnPacket.{auth_success, assign_ip, error}
use vpn_core.VpnPacket.Server.{build_auth_success, build_assign_ip, build_error}
use vpn_core.VpnPacket.Client.{ParsedPacket, build_auth_request, build_get_ip}
use vpn_core.VpnPacket.Replies.{
  Message, welcome, trouble, address, IsRead, server_build, server_build-IsRead, code_of,
}
use vpn_core.VpnClient.{
  heard, Client, Conn, auth_code, auth_error, auth_reply, authenticate, done, failed,
  handshake_get_ip, ip_code, ip_reply, server_error,
}

auth_codes : (auth_code auth_success ≡ done tt) × (auth_code error ≡ failed auth_error)
unfolding auth_code
auth_codes = (refl, refl)

-- A connection on which everything that is sent goes through, and what is read on it.
abbrev pub talk : Bytes → Bytes → Conn
talk first second = record {
  opens = true;
  first_sent = true;
  second_sent = true;
  first_read = heard first;
  second_read = heard second;
}

module _ (codec : Codec) where
  auth_reply-code :
      (m : Message) (sid : ℤ) (packet : Bytes)
      → IsRead codec m sid packet
      → auth_reply codec (heard packet) ≡ auth_code (code_of m)
  auth_reply-code m sid packet read = rw (read.parses, auth_reply) (ap auth_code read.code_is)

  ip_reply-code :
      (m : Message) (sid : ℤ) (packet : Bytes) (read : IsRead codec m sid packet)
      → ip_reply codec (heard packet) ≡ ip_code read.view
  ip_reply-code m sid packet read = rw (read.parses, ip_reply) refl

  ip_code-address :
      (v : ParsedPacket) (ip : Text) → v.code ≡ assign_ip → v.ip ≡ some ip → ip_code v ≡ done ip
  unfolding ip_code
  ip_code-address v ip code there = rw (code, there) refl

  ip_code-trouble : (v : ParsedPacket) → v.code ≡ error → ip_code v ≡ failed server_error
  unfolding ip_code
  ip_code-trouble v code = rw code refl

  module _ (c : Client) (session_id : ℕ) (request query first second : Bytes)
      (requested : build_auth_request codec (pos session_id) c.username c.password ≡ ok request)
      (queried : build_get_ip (pos session_id) ≡ ok query) where
    authenticated_lem :
        authenticate codec c session_id (talk first second) ≡ auth_reply codec (heard first)
    unfolding authenticate
    authenticated_lem = rw requested refl

    let_in_lem :
        auth_reply codec (heard first) ≡ done tt
        → handshake_get_ip codec c session_id (talk first second) ≡ ip_reply codec (heard second)
    unfolding handshake_get_ip
    let_in_lem answered = rw (authenticated_lem ∙ answered, queried, handshake_get_ip) refl

    shut_out_lem :
        auth_reply codec (heard first) ≡ failed auth_error
        → handshake_get_ip codec c session_id (talk first second) ≡ failed auth_error
    unfolding handshake_get_ip
    shut_out_lem answered = rw (authenticated_lem ∙ answered, handshake_get_ip) refl

  -- On a connection that opens and carries what is sent: when the server answers the first request
  -- with its AUTH_SUCCESS and the second with its ASSIGN_IP, the handshake gives that address; with
  -- its ERROR in the place of the second, it fails with a `ServerError`; and with its ERROR in the
  -- place of the first, it fails with an `AuthError`.
  pub handshake_get_ip-answered :
      (c : Client) (session_id : ℕ) (request query success assigned refusal : Bytes)
      → (sid : ℤ) (ip message : Text)
      → build_auth_request codec (pos session_id) c.username c.password ≡ ok request
      → build_get_ip (pos session_id) ≡ ok query
      → build_auth_success sid ≡ ok success
      → build_assign_ip codec sid ip ≡ ok assigned
      → build_error codec sid message ≡ ok refusal
      → (handshake_get_ip codec c session_id (talk success assigned) ≡ done ip)
        × (handshake_get_ip codec c session_id (talk success refusal) ≡ failed server_error)
        × (handshake_get_ip codec c session_id (talk refusal assigned) ≡ failed auth_error)
  unfolding server_build
  handshake_get_ip-answered c session_id request query success assigned refusal sid ip message
        requested queried a b e =
      let welcomed : IsRead codec welcome sid success =
        server_build-IsRead codec welcome sid success a in
      let given : IsRead codec (address ip) sid assigned =
        server_build-IsRead codec (address ip) sid assigned b in
      let refused : IsRead codec (trouble message) sid refusal =
        server_build-IsRead codec (trouble message) sid refusal e in
      let yes : auth_reply codec (heard success) ≡ done tt =
        auth_reply-code welcome sid success welcomed ∙ auth_codes.0 in
      (
        let_in_lem c session_id request query success assigned requested queried yes
            ∙ ip_reply-code (address ip) sid assigned given
            ∙ ip_code-address given.view ip given.code_is given.carries,
        let_in_lem c session_id request query success refusal requested queried yes
            ∙ ip_reply-code (trouble message) sid refusal refused
            ∙ ip_code-trouble refused.view refused.code_is,
        shut_out_lem c session_id request query refusal assigned requested queried
            (auth_reply-code (trouble message) sid refusal refused ∙ auth_codes.1),
      )
