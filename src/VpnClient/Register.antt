-- ===== src/VpnClient/Register.antt =====
-- `register` of Client/VPNClient.py against what the builders of Server/VPNPacket.py make. The
-- address that the load balancer gives is part of the connection.
use vpn_core.Base.{ℕ, ◌≡◌, ◌∙◌, ap, refl, true}
use vpn_core.Base.Tests.{◌==◌, if◌then◌else◌}
use vpn_core.Base.Int.{ℤ, pos}
use vpn_core.Base.Words.{Bytes}
use vpn_core.Base.Text.{Codec}
use vpn_core.Base.Result.{raise, ok}
use vpn_core.VpnPacket.{error, register_success}
use vpn_core.VpnPacket.Client.{build_register_request, parse}
use vpn_core.VpnPacket.Replies
use vpn_core.VpnPacket.Replies.{Message, IsRead, code_of, server_build, server_build-IsRead}
use vpn_core.VpnClient.{
  Heard, heard, hung_up, unheard, pending, Attempt, Client, Conn, after_send, auth_error, done,
  failed, malformed, os_error, setup_error,
}

-- What an answer to REGISTER_REQUEST means, by its code.
abbrev pub register_code : ℕ → Attempt (Unit {0})
register_code code =
    if code == register_success
    then done tt
    else if code == error
    then failed auth_error
    else failed setup_error

-- What the answer of each builder means to a client that registers.
abbrev pub verdict : Message → Attempt (Unit {0})
verdict Replies.known = done tt
verdict (Replies.trouble message) = failed auth_error
verdict (Replies.datagram payload more) = failed setup_error
verdict Replies.welcome = failed setup_error
verdict Replies.unwelcome = failed setup_error
verdict Replies.farewell = failed setup_error
verdict Replies.another_address = failed setup_error
verdict (Replies.bytes_added amount) = failed setup_error
verdict (Replies.state bytes) = failed setup_error
verdict (Replies.address ip) = failed setup_error

register_code-verdict : (m : Message) → register_code (code_of m) ≡ verdict m
register_code-verdict (Replies.datagram payload more) = refl
register_code-verdict Replies.welcome = refl
register_code-verdict Replies.unwelcome = refl
register_code-verdict Replies.farewell = refl
register_code-verdict Replies.another_address = refl
register_code-verdict Replies.known = refl
register_code-verdict (Replies.bytes_added amount) = refl
register_code-verdict (Replies.state bytes) = refl
register_code-verdict (Replies.trouble message) = refl
register_code-verdict (Replies.address ip) = refl

module _ (codec : Codec) where
  abbrev pub register_reply : Heard → Attempt (Unit {0})
  register_reply unheard = pending
  register_reply hung_up = failed setup_error
  register_reply (heard packet) = elim (parse codec packet) [
    | raise e ↦ failed malformed
    | ok parsed ↦ register_code parsed.code
  ]

  register_reply-verdict :
      (m : Message) (sid : ℤ) (packet : Bytes)
      → IsRead codec m sid packet
      → register_reply (heard packet) ≡ verdict m
  register_reply-verdict m sid packet read =
      rw (read.parses, register_reply) (ap register_code read.code_is ∙ register_code-verdict m)

  -- `register`, with the number that `random.randint(0, 7)` gives.
  unfoldable pub register : Client → ℕ → Conn → Client × Attempt (Unit {0})
  register c session_id conn = (
    record c { session_id = session_id },
    if conn.opens
        then after_send (build_register_request codec (pos session_id) c.username c.password)
            conn.first_sent (register_reply conn.first_read)
        else failed os_error,
  )

  -- On a connection that opens and carries the request, the client is registered when the server
  -- answers with its REGISTER_SUCCESS, fails with an `AuthError` at its ERROR, and with a
  -- `ConnectionSetupError` at any other packet that a builder of the server makes.
  pub register-answered :
      (c : Client) (session_id : ℕ) (conn : Conn) (request answer : Bytes) (m : Message) (sid : ℤ)
      → conn.opens ≡ true
      → conn.first_sent ≡ true
      → conn.first_read ≡ heard answer
      → build_register_request codec (pos session_id) c.username c.password ≡ ok request
      → server_build codec m sid ≡ ok answer
      → (register c session_id conn).1 ≡ verdict m
  unfolding register
  register-answered c session_id conn request answer m sid opened sent got requested built =
      rw (opened, sent, got, requested)
        (register_reply-verdict m sid answer (server_build-IsRead codec m sid answer built))
