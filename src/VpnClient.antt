-- ===== src/VpnClient.antt =====
-- Client/VPNClient.py: `VPNClient`, its handshake, its attempts to establish a session, and its
-- datagrams. What the network does in an attempt is a value that is given: whether a connection
-- opens, which sends go through, and what is read. `random.randint` is a part of it.
pub mod Rounds
pub mod Sessions
pub mod Login
pub mod Register
pub mod Uplink
use vpn_core.Base.{
  ℕ, zero, suc, Bool, true, false, not, ◌&&◌, Option, none, some, List, [], ◌∷◌, ◌++◌,
}
use vpn_core.Base.Tests.{◌==◌, if◌then◌else◌}
use vpn_core.Base.Eq.{nat_eq, list_eq}
use vpn_core.Base.Int.{pos}
use vpn_core.Base.Words.{Bytes}
use vpn_core.Base.Text.{Text, Codec, codes}
use vpn_core.Base.Result.{Error, Result, ok, raise}
use vpn_core.Frame.{Reasm, fragment, reassemble, send_frame}
use vpn_core.Packet.{Inet}
use vpn_core.Server.Session.{is_value_error}
use vpn_core.ClientNat.{ClientNat, new_nat, translate_out, translate_in}
use vpn_core.VpnPacket.{
  Parts, auth_failed, auth_success, assign_ip, data_code, disconnect, error, get_new_ip,
}
use vpn_core.VpnPacket.Client.{
  ParsedPacket, parse, build_announce_ip, build_auth_request, build_data, build_error, build_get_ip,
}

-- The exceptions that end an attempt. `malformed` is `InvalidVPNPacketError`, and `unsendable` what
-- a builder raises.
pub data Failure : Type 0 where
  auth_error setup_error server_error need_new_ip os_error malformed unsendable : Failure

-- What a part of an attempt comes to; `pending` never does.
pub data Attempt (A : Type 0) : Type 0 where
  done : A → Attempt A
  failed : Failure → Attempt A
  pending : Attempt A

-- What a call of `read_packet` brings, which is never asked to stop: a packet, the end of the
-- connection, or nothing at all, when the socket goes on with time-outs for ever.
pub data Heard : Type 0 where
  heard : Bytes → Heard
  hung_up unheard : Heard

-- A connection: whether it opens, whether each send goes through, and what each read gives.
pub record Conn : Type 0 where
  pub opens : Bool
  pub first_sent : Bool
  pub second_sent : Bool
  pub first_read : Heard
  pub second_read : Heard

-- What one attempt meets.
pub record World : Type 0 where
  pub session_id : ℕ
  pub handshake : Conn
  pub tunnel_up : Bool
  pub session : Conn
  pub local_port : ℕ

pub record Client : Type 0 where
  pub username : Text
  pub password : Text
  pub assigned_ip : Text
  pub session_id : ℕ
  pub retries_left : ℕ
  pub connected : Bool
  pub nat : Option ClientNat
  pub reasm : Reasm

abbrev pub max_retries : ℕ
max_retries = 3

-- A packet that is built and sent, and what follows.
abbrev pub after_send : {A : Type 0} → Result Bytes → Bool → Attempt A → Attempt A
after_send (raise e) sent next = failed unsendable
after_send (ok packet) true next = next
after_send (ok packet) false next = failed os_error

-- What an answer to AUTH_REQUEST means, by its code.
unfoldable pub auth_code : ℕ → Attempt (Unit {0})
auth_code code =
    if code == auth_success
    then done tt
    else if code == auth_failed
    then failed auth_error
    else if code == error
    then failed auth_error
    else failed setup_error

-- What an answer to GET_IP means.
unfoldable pub ip_code : ParsedPacket → Attempt Text
ip_code parsed =
    if parsed.code == assign_ip
    then elim parsed.ip [ none ↦ failed setup_error | some ip ↦ done ip ]
    else if parsed.code == get_new_ip
    then failed need_new_ip
    else if parsed.code == error
    then failed server_error
    else failed setup_error

-- How a round of `_establish` ends: with a session, with another round, with an exception, or not
-- at all.
pub data Round : Type 0 where
  up : Text → Round
  again : Round
  give_up : Failure → Round
  hang : Round

-- The `except` clauses around the handshake.
abbrev pub after_handshake : Failure → Round
after_handshake auth_error = give_up auth_error
after_handshake setup_error = give_up setup_error
after_handshake server_error = again
after_handshake need_new_ip = again
after_handshake os_error = again
after_handshake malformed = again
after_handshake unsendable = give_up unsendable

-- And those around the tunnel and the data connection.
abbrev pub after_setup : Text → Attempt (Unit {0}) → Round
after_setup ip (done _) = up ip
after_setup ip pending = hang
after_setup ip (failed auth_error) = give_up auth_error
after_setup ip (failed setup_error) = again
after_setup ip (failed server_error) = again
after_setup ip (failed need_new_ip) = again
after_setup ip (failed os_error) = again
after_setup ip (failed malformed) = again
after_setup ip (failed unsendable) = again

-- What `_establish` leaves: a session, the exception of a round, `ReconnectExhaustedError`, or
-- nothing, as a round never ends.
pub data Outcome : Type 0 where
  established : Outcome
  raised : Failure → Outcome
  exhausted unended : Outcome

abbrev pub started : Client → World → Text → ℕ → Client
started c w ip retries = record c {
  assigned_ip = ip;
  session_id = w.session_id;
  retries_left = retries;
  connected = true;
  nat = some (new_nat ip (w.local_port ∷ []));
  reasm = [];
}

module _ (codec : Codec) where
  abbrev pub auth_reply : Heard → Attempt (Unit {0})
  auth_reply unheard = pending
  auth_reply hung_up = failed setup_error
  auth_reply (heard packet) = elim (parse codec packet) [
    | raise e ↦ failed malformed
    | ok parsed ↦ auth_code parsed.code
  ]

  abbrev pub ip_reply : Heard → Attempt Text
  ip_reply unheard = pending
  ip_reply hung_up = failed setup_error
  ip_reply (heard packet) = elim (parse codec packet) [
    | raise e ↦ failed malformed
    | ok parsed ↦ ip_code parsed
  ]

  -- `_authenticate`.
  unfoldable pub authenticate : Client → ℕ → Conn → Attempt (Unit {0})
  unfolding parse auth_code build_auth_request
  authenticate c session_id conn =
      after_send (build_auth_request codec (pos session_id) c.username c.password) conn.first_sent
        (auth_reply conn.first_read)

  -- `_handshake_get_ip`.
  unfoldable pub handshake_get_ip : Client → ℕ → Conn → Attempt Text
  unfolding authenticate ip_code
  handshake_get_ip c session_id conn =
      if not conn.opens then failed os_error else elim (authenticate c session_id conn) [
        | failed why ↦ failed why
        | pending ↦ pending
        | done _ ↦
            after_send (build_get_ip (pos session_id)) conn.second_sent (ip_reply conn.second_read)
      ]

  -- `_open_data_connection`, up to the object for the translation.
  unfoldable pub open_data_connection : Client → ℕ → Text → Conn → Attempt (Unit {0})
  unfolding authenticate build_announce_ip
  open_data_connection c session_id ip conn =
      if not conn.opens then failed os_error else elim (authenticate c session_id conn) [
        | failed why ↦ failed why
        | pending ↦ pending
        | done _ ↦
            after_send (build_announce_ip codec (pos session_id) ip) conn.second_sent (done tt)
      ]

  unfoldable pub round : Client → World → Round
  unfolding handshake_get_ip open_data_connection
  round c w = elim (handshake_get_ip c w.session_id w.handshake) [
    | failed why ↦ after_handshake why
    | pending ↦ hang
    | done ip ↦
        if not w.tunnel_up
        then again
        else after_setup ip (open_data_connection c w.session_id ip w.session)
  ]

  -- `self.assigned_ip` after a round: `_bring_up_tunnel` sets it first.
  unfoldable pub ip_after : Client → World → Text
  unfolding handshake_get_ip
  ip_after c w = elim (handshake_get_ip c w.session_id w.handshake) [
    | failed why ↦ c.assigned_ip
    | pending ↦ c.assigned_ip
    | done ip ↦ ip
  ]

  -- `self._nat` after a round without a session: an object, if only the ANNOUNCE_IP failed.
  unfoldable pub nat_after : Client → World → Option ClientNat
  unfolding handshake_get_ip authenticate
  nat_after c w = elim (handshake_get_ip c w.session_id w.handshake) [
    | failed why ↦ c.nat
    | pending ↦ c.nat
    | done ip ↦
        if not (w.tunnel_up && w.session.opens)
        then c.nat
        else elim (authenticate c w.session_id w.session) [
          | failed why ↦ c.nat
          | pending ↦ c.nat
          | done _ ↦ some (new_nat ip (w.local_port ∷ []))
        ]
  ]

  -- The client after a round without a session, with the retries that are left.
  abbrev pub tried : Client → World → ℕ → Client
  tried c w retries = record c {
    retries_left = retries;
    session_id = w.session_id;
    assigned_ip = ip_after c w;
    nat = nat_after c w;
  }

  -- The loop of `_establish`. `worlds` tells what the round meets that leaves so many retries.
  unfoldable pub rounds : ℕ → Client → (ℕ → World) → Client × Outcome
  unfolding round ip_after nat_after
  rounds zero c worlds = (record c { retries_left = zero }, exhausted)
  rounds (suc n) c worlds =
      let left = tried c (worlds n) n in
      let later = rounds n left worlds in
      elim (round c (worlds n)) [
        | up ip ↦ (started c (worlds n) ip n, established)
        | again ↦ later
        | give_up why ↦ (left, raised why)
        | hang ↦ (left, unended)
      ]

  abbrev pub establish : Client → (ℕ → World) → Client × Outcome
  establish c worlds = rounds c.retries_left c worlds

  unfoldable pub connect : Client → (ℕ → World) → Client × Outcome
  unfolding rounds
  connect c worlds = establish (record c { retries_left = max_retries }) worlds

  -- `_do_reconnect`.
  unfoldable pub do_reconnect : Client → (ℕ → World) → Client × Outcome
  unfolding rounds
  do_reconnect c worlds = establish (record c { connected = false; nat = none }) worlds

-- A turn of `_send_loop`: the frames of a datagram that the tunnel gives, and what a builder raised,
-- which ends the loop.
unfoldable pub frames_of : ℕ → List (Bytes × Bool) → List Bytes × Option Error
frames_of session_id [] = ([], none)
frames_of session_id ((chunk, more) ∷ pieces) =
    let rest = frames_of session_id pieces in
    elim (build_data (pos session_id) chunk more) [
      | raise e ↦ ([], some e)
      | ok packet ↦ (send_frame packet ∷ rest.0, rest.1)
    ]

-- What `_handle_incoming` asks for.
pub data Next : Type 0 where
  read_on leave reconnect : Next

-- `_handle_incoming`, by the code.
unfoldable pub handle_incoming : ℕ → Next
handle_incoming code =
    if code == data_code
    then read_on
    else if code == disconnect
    then leave
    else if code == error
    then leave
    else if code == get_new_ip
    then reconnect
    else read_on

module _ (inet : Inet) where
  -- A turn of `_send_loop` on a datagram of the tunnel, with the draws of the translation: the frames
  -- that go to the server, and the exception that ends the loop. A `ValueError` of the translation
  -- drops the datagram.
  unfoldable pub send_datagram :
      ClientNat → ℕ → ℕ → ℕ → Bytes → ClientNat × (List Bytes × Option Error)
  unfolding translate_out fragment frames_of
  send_datagram nat session_id port_start id_start raw =
      let (after, outcome) = translate_out inet nat port_start id_start raw in
      elim outcome [
        | raise e ↦ (after, ([], if is_value_error e then none else some e))
        | ok none ↦ (after, ([], none))
        | ok (some translated) ↦ (after, frames_of session_id (fragment translated))
      ]

  -- What a datagram from the server gives to the tunnel.
  unfoldable pub restored : ClientNat → Option Bytes → Result (Option Bytes)
  unfolding translate_in
  restored nat none = ok none
  restored nat (some buf) = elim (translate_in inet nat buf) [
    | raise e ↦ if is_value_error e then ok none else raise e
    | ok packet ↦ ok packet
  ]

  -- `_handle_data`.
  unfoldable pub handle_data : ClientNat → Reasm → Parts → Reasm × Result (Option Bytes)
  unfolding reassemble restored
  handle_data nat reasm parsed =
      let (later, whole) = reassemble reasm parsed in (later, restored nat whole)
