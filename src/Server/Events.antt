-- ===== src/Server/Events.antt =====
-- Server/VPNServer.py: `ClientHandler.run` as a state machine, `_cleanup`, and the events that move
-- the server: a new connection, a packet or the end of a connection, a packet from the internet, and
-- the calls of the administration.
use vpn_core.Base.{ℕ, Bool, true, false, not, ◌&&◌, Option, none, some}
use vpn_core.Base.Tests.{◌==◌, if◌then◌else◌}
use vpn_core.Base.Eq.{nat_eq, list_eq}
use vpn_core.Base.Dict.{lookup}
use vpn_core.Base.Words.{Bytes}
use vpn_core.Base.Text.{codes}
use vpn_core.Base.Int.{pos, max_ℤ}
use vpn_core.Base.Result.{Result, ok, raise, ◌>>=◌}
use vpn_core.Packet.{init, get_destination}
use vpn_core.Nat.Server.{translate_in}
use vpn_core.VpnPacket.{announce_ip, auth_request, get_ip, register_request}
use vpn_core.VpnPacket.Server.{ParsedPacket, parse, build_error}
use vpn_core.Database.{Status, status_active, status_banned, status_quota_exhausted}
use vpn_core.Dns.{observe_ip_packet}
use vpn_core.Server.{
  Handler, VpnServer, Phase, awaiting_first, in_grace, authenticated, awaiting_announce, receiving,
  closed, try_send, unregister_session,
}
use vpn_core.Server.Session.{Env, unless_value_error}
use vpn_core.Server.Run.{
  authenticate, do_assignment, handle_incoming, handle_register, in_grace_window, refuse,
  register_announced, text_of,
}

-- `_cleanup`, also behind an exception.
unfoldable pub cleanup : VpnServer → ℕ → Handler → VpnServer × Handler
unfolding unregister_session
cleanup s i h =
    let final_quota = if h.quota_enforced then some h.current_quota else none in
    let (after, outcome) = unregister_session s i h final_quota in
    if h.registered
    then (after, record h { registered = elim outcome [ raise _ ↦ true | ok _ ↦ false ] })
    else (s, h)

abbrev pub at : Phase → Handler → Handler
at phase h = record h { phase = phase }

-- Where the loops stand after a round: an exception ends `run`.
abbrev pub going_on : Phase → Result Bool → Phase
going_on phase (ok true) = phase
going_on phase (ok false) = closed
going_on phase (raise e) = closed

-- After `_authenticate`.
abbrev pub after_status : ParsedPacket → Option Status → Handler → Handler
after_status parsed none h = at closed h
after_status parsed (some status_quota_exhausted) h = record h {
  phase = in_grace;
  username = text_of parsed.username;
  session_id = pos parsed.session_id;
}
after_status parsed (some status_active) h = record h {
  phase = authenticated;
  username = text_of parsed.username;
}
after_status parsed (some status_banned) h = record h {
  phase = authenticated;
  username = text_of parsed.username;
}

module _ (env : Env) where
  open env use {codec, inet}

  abbrev pub malformed : Handler → Handler
  malformed h =
      try_send (build_error codec (max_ℤ h.session_id (pos 0)) (codes "Malformed packet")) h

  unfoldable pub on_first : VpnServer → Handler → ParsedPacket → VpnServer × Handler
  unfolding handle_register authenticate
  on_first s h parsed =
      let (registering, told) = handle_register env s h parsed in
      let (after, answered, status) = authenticate env s h parsed in
      if parsed.code == register_request
      then (registering, at closed told)
      else if not (parsed.code == auth_request)
      then (s, at closed (refuse env parsed.session_id (codes "Authentication required") h))
      else (after, after_status parsed status answered)

  -- A round of `_await_announce`.
  unfoldable pub on_announce : VpnServer → ℕ → Handler → ParsedPacket → VpnServer × Handler
  unfolding register_announced
  on_announce s i h parsed =
      let (after, told, opened) = register_announced env s i h parsed in
      if parsed.code == announce_ip
      then (after, at (if opened then receiving else closed) told)
      else (s, at awaiting_announce h)

  unfoldable pub on_authenticated : VpnServer → ℕ → Handler → ParsedPacket → VpnServer × Handler
  unfolding do_assignment on_announce
  on_authenticated s i h parsed =
      let (after, told) = do_assignment env s h parsed.session_id in
      if parsed.code == get_ip then (after, at closed told) else on_announce s i h parsed

  unfoldable pub on_grace : VpnServer → Handler → ParsedPacket → VpnServer × Handler
  unfolding in_grace_window
  on_grace s h parsed =
      let (after, told, outcome) = in_grace_window env s h parsed in
      (after, at (going_on in_grace outcome) told)

  unfoldable pub on_incoming : VpnServer → Handler → ℕ → ℕ → ParsedPacket → VpnServer × Handler
  unfolding handle_incoming
  on_incoming s h port_start id_start parsed =
      let (after, told, outcome) = handle_incoming env s h port_start id_start parsed in
      (after, at (going_on receiving outcome) told)

  -- A packet in each phase; the loops look at `_stop` before they read.
  unfoldable pub on_packet :
      VpnServer → ℕ → Handler → ℕ → ℕ → Phase → Result ParsedPacket → VpnServer × Handler
  unfolding on_first on_announce on_authenticated on_grace on_incoming
  on_packet s i h port_start id_start closed parsed = (s, h)
  on_packet s i h port_start id_start awaiting_first (raise e) = (s, at closed (malformed h))
  on_packet s i h port_start id_start awaiting_first (ok parsed) = on_first s h parsed
  on_packet s i h port_start id_start authenticated (raise e) = (s, at closed (malformed h))
  on_packet s i h port_start id_start authenticated (ok parsed) = on_authenticated s i h parsed
  on_packet s i h port_start id_start awaiting_announce (raise e) = (s, h)
  on_packet s i h port_start id_start awaiting_announce (ok parsed) = on_announce s i h parsed
  on_packet s i h port_start id_start in_grace (raise e) = (s, h)
  on_packet s i h port_start id_start in_grace (ok parsed) = on_grace s h parsed
  on_packet s i h port_start id_start receiving (raise e) =
      (s, try_send (build_error codec h.session_id (codes "Malformed packet")) h)
  on_packet s i h port_start id_start receiving (ok parsed) =
      on_incoming s h port_start id_start parsed

  abbrev is_loop : Phase → Bool
  is_loop awaiting_first = false
  is_loop in_grace = true
  is_loop authenticated = false
  is_loop awaiting_announce = true
  is_loop receiving = true
  is_loop closed = false

  abbrev is_closed : Phase → Bool
  is_closed awaiting_first = false
  is_closed in_grace = false
  is_closed authenticated = false
  is_closed awaiting_announce = false
  is_closed receiving = false
  is_closed closed = true

  -- `finally: self._cleanup()`.
  abbrev pub settled : ℕ → VpnServer × Handler → VpnServer × Handler
  settled i (s, h) = if is_closed h.phase then cleanup s i h else (s, h)

  unfoldable pub receive : VpnServer → ℕ → Handler → ℕ → ℕ → Bytes → VpnServer × Handler
  unfolding on_packet cleanup parse
  receive s i h port_start id_start packet =
      let turn = on_packet s i h port_start id_start h.phase (parse codec packet) in
      if is_loop h.phase && h.stopped then settled i (s, at closed h) else settled i turn

  -- `_on_internet_packet`, up to the handler that the packet is for.
  unfoldable pub on_internet_packet : VpnServer → Bytes → VpnServer × Result (Option (ℕ × Bytes))
  unfolding translate_in observe_ip_packet
  on_internet_packet s packet =
      let (nat, outcome) = translate_in inet s.nat packet in
      let after = record s { nat = nat } in
      elim outcome [
        | raise e ↦ (after, unless_value_error e >>= λ _. ok none)
        | ok none ↦ (after, ok none)
        | ok (some restored) ↦ (
          record after { dns = observe_ip_packet s.dns restored },
          elim (init restored >>= get_destination inet) [
            | raise e ↦ unless_value_error e >>= λ _. ok none
            | ok (dst_ip, dst_port) ↦
                ok (elim (lookup dst_ip s.active_by_ip) [
                  | none ↦ none
                  | some i ↦ some (i, restored)
                ])
          ],
        )
      ]
