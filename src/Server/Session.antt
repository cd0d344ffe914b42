-- ===== src/Server/Session.antt =====
-- Server/VPNServer.py: the quota, the firewall and the datagrams of a `ClientHandler`. The token bucket only
-- waits, which changes nothing here.
use vpn_core.Base.{ℕ, Bool, true, false, not, Option, none, some, List, [], ◌∷◌, ◌++◌}
use vpn_core.Base.Tests.{if◌then◌else◌}
use vpn_core.Base.Lists.{length, is_empty}
use vpn_core.Base.Eq.{nat_eq, list_eq}
use vpn_core.Base.Words.{Bytes}
use vpn_core.Base.Text.{Text, Codec, codes}
use vpn_core.Base.Int.{ℤ, pos, ◌-ℤ◌, leb_ℤ}
use vpn_core.Base.Result.{
  Error, Result, ok, raise, value_error, struct_error, index_error, key_error, runtime_error,
  invalid_packet, no_address, ◌>>=◌,
}
use vpn_core.Frame.{fragment, reassemble}
use vpn_core.Packet.{Inet, init, get_destination}
use vpn_core.Nat.Server.{translate_out}
use vpn_core.VpnPacket.{Parts}
use vpn_core.VpnPacket.Server.{ParsedPacket, build_data, build_disconnect}
use vpn_core.Database.{Account, mark_quota_exhausted}
use vpn_core.Database.Rules.{Strings, is_blocked, log_traffic}
use vpn_core.Dns.{observe_ip_packet, resolve_domain}
use vpn_core.Server.{Handler, VpnServer, stop, try_send}

-- What the server takes from elsewhere. `status_json` is the JSON text of `_status_payload`.
pub record Env : Type 0 where
  pub codec : Codec
  pub inet : Inet
  pub strings : Strings
  pub policy : Text → ℕ → ℤ
  pub status_json : Text → Option Account → ℤ → Text → Bytes

abbrev pub is_value_error : Error → Bool
is_value_error value_error = true
is_value_error struct_error = false
is_value_error index_error = false
is_value_error key_error = false
is_value_error runtime_error = false
is_value_error invalid_packet = false
is_value_error no_address = false

-- `except ValueError: return`.
abbrev pub unless_value_error : Error → Result (Unit {0})
unless_value_error e = if is_value_error e then ok tt else raise e

abbrev pub parts_of : ParsedPacket → Parts
parts_of p = record {
  code = p.code;
  session_id = p.session_id;
  mtu_flag = p.mtu_flag;
  payload = p.payload;
}

-- `_quota_exhausted`.
unfoldable pub quota_exhausted : VpnServer → Handler → VpnServer × Handler
quota_exhausted s h = (
  if is_empty h.username then s else record s { db = mark_quota_exhausted s.db h.username },
  stop (try_send (build_disconnect h.session_id) h),
)

-- `_charge`.
unfoldable pub charge : VpnServer → Handler → ℕ → VpnServer × Handler × Bool
unfolding quota_exhausted
charge s h nbytes =
    let left = h.current_quota -ℤ pos nbytes in
    let (after, stopping) =
      quota_exhausted s (record h { current_quota = pos 0; quota_enforced = false }) in
    if not h.quota_enforced
    then (s, h, true)
    else if leb_ℤ left (pos 0)
    then (after, stopping, false)
    else (s, record h { current_quota = left }, true)

unfoldable pub send_pieces : List (Bytes × Bool) → Handler → Handler
send_pieces [] h = h
send_pieces ((chunk, more) ∷ pieces) h =
    send_pieces pieces (try_send (build_data h.session_id chunk more) h)

unfoldable pub deliver : VpnServer → Handler → Bytes → VpnServer × Handler
unfolding charge send_pieces fragment
deliver s h packet =
    let (after, paid, allowed) = charge s h (length packet) in
    if allowed then (after, send_pieces (fragment packet) paid) else (after, paid)

module _ (env : Env) where
  open env use {codec, inet, strings}

  -- `_firewall_allows`.
  unfoldable pub firewall_allows : VpnServer → Text → Bytes → VpnServer × Result Bool
  unfolding is_blocked log_traffic
  firewall_allows s username packet = elim (init packet >>= get_destination inet) [
    | raise e ↦ (s, if is_value_error e then ok false else raise e)
    | ok (dest_ip, dest_port) ↦
        let domain = resolve_domain s.dns dest_ip in
        let blocked = is_blocked strings s.db username dest_ip domain in
        (
          record s {
            db =
                log_traffic s.db username dest_ip dest_port domain
                  (if blocked then codes "blocked" else codes "sent");
          },
          ok (not blocked),
        )
  ]

  -- `_handle_data` from `translate_out` on, with the draws of the search for a number.
  unfoldable pub send_translated : VpnServer → ℕ → ℕ → Bytes → VpnServer × Result (Unit {0})
  unfolding translate_out observe_ip_packet
  send_translated s port_start id_start buf =
      let (nat, outcome) = translate_out inet s.nat port_start id_start buf in
      let after = record s { nat = nat } in
      elim outcome [
        | raise e ↦ (after, unless_value_error e)
        | ok none ↦ (after, ok tt)
        | ok (some translated) ↦ (
          record after {
            dns = observe_ip_packet s.dns buf;
            sent_out = s.sent_out ++ translated ∷ [];
          },
          ok tt,
        )
      ]

  -- `_handle_data` on a whole datagram.
  unfoldable pub handle_datagram :
      VpnServer → Handler → ℕ → ℕ → Bytes → VpnServer × Handler × Result (Unit {0})
  unfolding charge firewall_allows send_translated
  handle_datagram s h port_start id_start buf =
      let (after, paid, allowed) = charge s h (length buf) in
      let (logged, decision) = firewall_allows after paid.username buf in
      let (out, outcome) = send_translated logged port_start id_start buf in
      if not allowed then (after, paid, ok tt) else elim decision [
        | raise e ↦ (logged, paid, raise e)
        | ok false ↦ (logged, paid, ok tt)
        | ok true ↦ (out, paid, outcome)
      ]

  unfoldable pub handle_data :
      VpnServer → Handler → ℕ → ℕ → ParsedPacket → VpnServer × Handler × Result (Unit {0})
  unfolding handle_datagram reassemble
  handle_data s h port_start id_start parsed =
      let (reasm, whole) = reassemble h.reasm (parts_of parsed) in
      elim whole [
        | none ↦ (s, record h { reasm = reasm }, ok tt)
        | some buf ↦ handle_datagram s (record h { reasm = reasm }) port_start id_start buf
      ]
