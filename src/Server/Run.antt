-- ===== src/Server/Run.antt =====
-- Server/VPNServer.py: `ClientHandler.run`, followed from one packet to the next. Between two packets
-- other handlers, the portal and the gateway may act. The messages of the errors are ASCII, so that
-- the builders of errors do not raise.
use vpn_core.Base.{ℕ, Bool, true, false, not, ◌||◌, Option, none, some, []}
use vpn_core.Base.Tests.{◌==◌, if◌then◌else◌}
use vpn_core.Base.Lists.{is_empty}
use vpn_core.Base.Eq.{nat_eq, list_eq, ◌=?◌}
use vpn_core.Base.Words.{Bytes}
use vpn_core.Base.Text.{Text, codes}
use vpn_core.Base.Int.{pos, ◌+ℤ◌, leb_ℤ}
use vpn_core.Base.Result.{Result, ok, raise}
use vpn_core.VpnPacket.{announce_ip, data_code, disconnect, get_ip, quota_request, status}
use vpn_core.VpnPacket.Server.{
  ParsedPacket, hash_password, build_assign_ip, build_auth_success, build_error, build_get_new_ip,
  build_quota_response, build_register_success, build_status,
}
use vpn_core.Database.{
  Account, Status, status_active, status_banned, status_quota_exhausted, create_user, get_quota,
  get_user, mark_quota_exhausted, user_exists,
}
use vpn_core.Server.{
  Handler, VpnServer, assign_ip, grant_quota, is_active, is_pending, register_session, try_send,
}
use vpn_core.Server.Session.{Env, handle_data, quota_exhausted}

abbrev pub admin_username : Text
admin_username = codes "admin"

abbrev pub admin_password : Text
admin_password = codes "admin"

abbrev pub text_of : Option Text → Text
text_of none = []
text_of (some t) = t

abbrev pub bytes_of : Option ℕ → ℕ
bytes_of none = 0
bytes_of (some n) = n

-- `a == b` for texts that may be missing.
abbrev pub is_text : Text → Option Text → Bool
is_text a none = false
is_text a (some b) = a =? b

module _ (env : Env) where
  open env use {codec, policy, status_json}

  -- `self._try_send(self._packet.build_error(...))`.
  abbrev pub refuse : ℕ → Text → Handler → Handler
  refuse session_id message h = try_send (build_error codec (pos session_id) message) h

  unfoldable pub handle_register : VpnServer → Handler → ParsedPacket → VpnServer × Handler
  unfolding create_user
  handle_register s h parsed =
      let username = text_of parsed.username in
      let password_hash = text_of parsed.password_hash in
      let (db, created) = create_user s.db username password_hash (pos 0) in
      if is_empty username || is_empty password_hash
      then (s, refuse parsed.session_id (codes "Missing credentials") h)
      else if user_exists s.db username
      then (s, refuse parsed.session_id (codes "Username already exists") h)
      else if not created
      then (s, refuse parsed.session_id (codes "Username already exists") h)
      else (record s { db = db }, try_send (build_register_success (pos parsed.session_id)) h)

  -- The ladder of `_authenticate` behind the password, on the account.
  abbrev pub admit :
      VpnServer → Handler → ParsedPacket → Account → Status → VpnServer × Handler × Option Status
  admit s h parsed user status_banned =
      (s, refuse parsed.session_id (codes "Account banned") h, none)
  admit s h parsed user status_quota_exhausted =
      (s, try_send (build_auth_success (pos parsed.session_id)) h, some status_quota_exhausted)
  admit s h parsed user status_active =
      if leb_ℤ user.remaining_quota (pos 0)
      then (
        record s { db = mark_quota_exhausted s.db (text_of parsed.username) },
        try_send (build_auth_success (pos parsed.session_id)) h,
        some status_quota_exhausted,
      )
      else (s, try_send (build_auth_success (pos parsed.session_id)) h, some status_active)

  abbrev pub is_admin_hash : Option Text → Result Text → Bool
  is_admin_hash password_hash (raise e) = false
  is_admin_hash password_hash (ok t) = is_text t password_hash

  -- `_authenticate`.
  unfoldable pub authenticate :
      VpnServer → Handler → ParsedPacket → VpnServer × Handler × Option Status
  unfolding hash_password mark_quota_exhausted
  authenticate s h parsed =
      if is_text admin_username parsed.username
      then (
        s,
        refuse parsed.session_id
            (if is_admin_hash parsed.password_hash
                (hash_password codec admin_username admin_password)
              then codes "Admin cannot open a tunnel"
              else codes "Wrong password")
            h,
        none,
      )
      else elim (get_user s.db (text_of parsed.username)) [
        | none ↦ (s, refuse parsed.session_id (codes "User not found") h, none)
        | some user ↦
            if not (is_text user.password parsed.password_hash)
            then (s, refuse parsed.session_id (codes "Wrong password") h, none)
            else admit s h parsed user user.account_status
      ]

  -- A round of `_grace_window` on a packet that parses: whether the loop goes on, or what
  -- `build_quota_response` raises.
  unfoldable pub in_grace_window :
      VpnServer → Handler → ParsedPacket → VpnServer × Handler × Result Bool
  unfolding grant_quota build_quota_response
  in_grace_window s h parsed =
      let (granting, added) =
        grant_quota s h.username (policy h.username (bytes_of parsed.requested_bytes)) in
      if parsed.code == disconnect
      then (s, h, ok false)
      else if parsed.code == quota_request
      then elim (build_quota_response h.session_id added) [
        | raise e ↦ (granting, h, raise e)
        | ok packet ↦ (granting, try_send (ok packet) h, ok (leb_ℤ added (pos 0)))
      ]
      else if parsed.code == get_ip
      then (
        s,
        try_send (build_error codec h.session_id (codes "Quota exhausted. Cannot assign IP.")) h,
        ok false,
      )
      else (s, h, ok true)

  -- `_do_assignment`.
  unfoldable pub do_assignment : VpnServer → Handler → ℕ → VpnServer × Handler
  unfolding assign_ip
  do_assignment s h session_id =
      let (after, chosen) = assign_ip s in
      elim chosen [
        | raise e ↦ (after, refuse session_id (codes "No IP available") h)
        | ok ip ↦ (after, try_send (build_assign_ip codec (pos session_id) ip) h)
      ]

  -- `_register_announced` behind its guards.
  unfoldable pub open_session : VpnServer → ℕ → Handler → VpnServer × Handler × Bool
  unfolding register_session get_quota quota_exhausted
  open_session s i h =
      let after = register_session s i h in
      let quota = get_quota after.db h.username in
      let opened = record h { registered = true; current_quota = quota; quota_enforced = true } in
      let (ended, stopping) = quota_exhausted after opened in
      if leb_ℤ quota (pos 0) then (ended, stopping, false) else (after, opened, true)

  unfoldable pub register_announced :
      VpnServer → ℕ → Handler → ParsedPacket → VpnServer × Handler × Bool
  unfolding open_session
  register_announced s i h parsed =
      let ip = text_of parsed.ip in
      if is_empty ip || not (is_pending s ip)
      then (s, refuse parsed.session_id (codes "IP not assigned") h, false)
      else if is_active s ip
      then (s, try_send (build_get_new_ip (pos parsed.session_id)) h, false)
      else open_session s i (record h { assigned_ip = ip; session_id = pos parsed.session_id })

  -- The `QUOTA_REQUEST` of `_handle_incoming`.
  unfoldable pub handle_quota_request :
      VpnServer → Handler → ParsedPacket → VpnServer × Handler × Result Bool
  unfolding grant_quota build_quota_response
  handle_quota_request s h parsed =
      let (after, added) =
        grant_quota s h.username (policy h.username (bytes_of parsed.requested_bytes)) in
      let paid =
        if leb_ℤ added (pos 0) then h else record h { current_quota = h.current_quota +ℤ added } in
      elim (build_quota_response h.session_id added) [
        | raise e ↦ (after, paid, raise e)
        | ok packet ↦ (after, try_send (ok packet) paid, ok true)
      ]

  abbrev pub status_payload : VpnServer → Handler → Bytes
  status_payload s h =
      status_json h.username (get_user s.db h.username) h.current_quota h.assigned_ip

  -- `_handle_incoming`: whether the loop goes on.
  unfoldable pub handle_incoming :
      VpnServer → Handler → ℕ → ℕ → ParsedPacket → VpnServer × Handler × Result Bool
  unfolding handle_data handle_quota_request
  handle_incoming s h port_start id_start parsed =
      let (after, paid, outcome) = handle_data env s h port_start id_start parsed in
      if parsed.code == data_code
      then (after, paid, elim outcome [ raise e ↦ raise e | ok _ ↦ ok (not paid.stopped) ])
      else if parsed.code == announce_ip
      then (s, try_send (build_error codec h.session_id (codes "Already announced")) h, ok true)
      else if parsed.code == disconnect
      then (s, h, ok false)
      else if parsed.code == quota_request
      then handle_quota_request s h parsed
      else if parsed.code == status
      then elim (build_status h.session_id (status_payload s h)) [
        | raise e ↦ (s, h, raise e)
        | ok packet ↦ (s, try_send (ok packet) h, ok true)
      ]
      else (s, h, ok true)
