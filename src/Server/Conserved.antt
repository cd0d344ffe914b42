-- ===== src/Server/Conserved.antt =====
-- The pool of Server/VPNServer.py through the turns of its handlers.
use vpn_core.Base.{
  ℕ, ◌≤◌, ◌<◌, ◌≡◌, refl, true, false, not, ◌||◌, Option, none, some, List, inl, inr, arith,
}
use vpn_core.Base.Tests.{◌==◌, if◌then◌else◌, Bool-cases, Option-cases}
use vpn_core.Base.Lists.{is_empty}
use vpn_core.Base.Eq.{nat_eq, list_eq, ◌=?◌}
use vpn_core.Base.Text.{Text}
use vpn_core.Base.Int.{ℤ, pos, leb_ℤ}
use vpn_core.Base.Result.{Result, ok, raise, Result-cases}
use vpn_core.VpnPacket.{
  disconnect, quota_request, get_ip, announce_ip, data_code, status, auth_request, register_request,
}
use vpn_core.VpnPacket.Server.{ParsedPacket, build_status}
use vpn_core.Database.{
  Account, Status, status_active, status_banned, status_quota_exhausted, mark_quota_exhausted,
  get_quota, get_user, create_user, user_exists, all_users,
}
use vpn_core.Server.{
  Handler, VpnServer, assign_ip, is_pending, is_active, register_session, closed, awaiting_first,
  authenticated, awaiting_announce, in_grace, receiving, Phase,
}
use vpn_core.Server.Session.{Env}
use vpn_core.Server.Run.{
  authenticate, admit, do_assignment, handle_incoming, handle_register, open_session,
  register_announced, text_of, status_payload, is_text, admin_username,
}
use vpn_core.Server.Events.{
  on_packet, on_first, on_announce, on_authenticated, on_grace, on_incoming, cleanup,
}
use vpn_core.Server.Steps.{
  assign, announce, end_session, Reach, here, next, IsPooled, IsUnique, Reach-IsPooled,
}
use vpn_core.Server.Turns.{
  Reach-trans, Reach-db, quota_exhausted-Reach, handle_data-Reach, handle_quota_request-Reach,
  in_grace_window-Reach,
}

handle_register-Reach :
    (env : Env) (s : VpnServer) (h : Handler) (parsed : ParsedPacket)
    → Reach s (handle_register env s h parsed).0
unfolding handle_register create_user
handle_register-Reach env s h parsed =
    let username : Text = text_of parsed.username in
    elim (Bool-cases (is_empty username || is_empty (text_of parsed.password_hash))) [
      | inl a ↦ rw (a, handle_register) here
      | inr a ↦ elim (Bool-cases (user_exists s.db username)) [
        | inl b ↦ rw (a, b, handle_register) here
        | inr b ↦ elim (Bool-cases (username =? all_users)) [
          | inl c ↦ rw (a, b, c, handle_register) here
          | inr c ↦ rw (a, b, c, handle_register) (Reach-db s _)
        ]
      ]
    ]

open_session-Reach :
    (env : Env) (s : VpnServer) (i : ℕ) (h : Handler)
    → is_pending s h.assigned_ip ≡ true
    → is_active s h.assigned_ip ≡ false
    → Reach s (open_session env s i h).0
unfolding open_session
open_session-Reach env s i h waiting apart =
    let after : VpnServer = register_session s i h in
    let quota : ℤ = get_quota after.db h.username in
    let r : Reach s after = next here (announce i h waiting apart refl) in
    elim (Bool-cases (leb_ℤ quota (pos 0))) [
      | inl spent ↦
          rw (spent, open_session)
            (Reach-trans r (
              quota_exhausted-Reach after
                (record h { registered = true; current_quota = quota; quota_enforced = true })))
      | inr some_left ↦ rw (some_left, open_session) r
    ]

register_announced-Reach :
    (env : Env) (s : VpnServer) (i : ℕ) (h : Handler) (parsed : ParsedPacket)
    → Reach s (register_announced env s i h parsed).0
unfolding register_announced
register_announced-Reach env s i h parsed =
    let ip : Text = text_of parsed.ip in
    elim (Bool-cases (is_empty ip || not (is_pending s ip))) [
      | inl a ↦ rw (a, register_announced) here
      | inr a ↦ elim (Bool-cases (is_active s ip)) [
        | inl b ↦ rw (a, b, register_announced) here
        | inr b ↦
            rw (a, b, register_announced)
              (open_session-Reach env s i
                (record h { assigned_ip = ip; session_id = pos parsed.session_id })
                (ground (arith, a)) b)
      ]
    ]

do_assignment-Reach :
    (env : Env) (s : VpnServer) (h : Handler) (session_id : ℕ)
    → Reach s (do_assignment env s h session_id).0
unfolding do_assignment
do_assignment-Reach env s h session_id = elim (Result-cases (assign_ip s).1) [
  | inl (e, failed) ↦ rw (failed, do_assignment) (next here (assign refl))
  | inr (ip, chosen) ↦ rw (chosen, do_assignment) (next here (assign refl))
]

admit-Reach :
    (env : Env) (s : VpnServer) (h : Handler) (parsed : ParsedPacket) (user : Account)
    (status : Status)
    → Reach s (admit env s h parsed user status).0
admit-Reach env s h parsed user status_banned = here
admit-Reach env s h parsed user status_quota_exhausted = here
admit-Reach env s h parsed user status_active =
    elim (Bool-cases (leb_ℤ user.remaining_quota (pos 0))) [
      | inl spent ↦ rw spent (Reach-db s (mark_quota_exhausted s.db (text_of parsed.username)))
      | inr some_left ↦ rw some_left here
    ]

authenticate-Reach :
    (env : Env) (s : VpnServer) (h : Handler) (parsed : ParsedPacket)
    → Reach s (authenticate env s h parsed).0
unfolding authenticate
authenticate-Reach env s h parsed = elim (Bool-cases (is_text admin_username parsed.username)) [
  | inl a ↦ rw (a, authenticate) here
  | inr a ↦ elim (Option-cases (get_user s.db (text_of parsed.username))) [
    | inl unknown ↦ rw (a, unknown, authenticate) here
    | inr (user, known) ↦ elim (Bool-cases (not (is_text user.password parsed.password_hash))) [
      | inl wrong ↦ rw (a, known, wrong, authenticate) here
      | inr right ↦
          rw (a, known, right, authenticate) (admit-Reach env s h parsed user user.account_status)
    ]
  ]
]

module _ (env : Env) (s : VpnServer) (i : ℕ) (h : Handler) (port_start id_start : ℕ)
    (low : 50000 ≤ port_start) (high : port_start < 60000) (id_high : id_start < 65536) where
  handle_incoming-Reach :
      (parsed : ParsedPacket) → Reach s (handle_incoming env s h port_start id_start parsed).0
  unfolding handle_incoming
  handle_incoming-Reach parsed = elim (Bool-cases (parsed.code == data_code)) [
    | inl a ↦
        rw (a, handle_incoming)
          (handle_data-Reach env port_start id_start low high id_high s h parsed)
    | inr a ↦ elim (Bool-cases (parsed.code == announce_ip)) [
      | inl b ↦ rw (a, b, handle_incoming) here
      | inr b ↦ elim (Bool-cases (parsed.code == disconnect)) [
        | inl c ↦ rw (a, b, c, handle_incoming) here
        | inr c ↦ elim (Bool-cases (parsed.code == quota_request)) [
          | inl d ↦ rw (a, b, c, d, handle_incoming) (handle_quota_request-Reach env s h parsed)
          | inr d ↦ elim (Bool-cases (parsed.code == status)) [
            | inr e ↦ rw (a, b, c, d, e, handle_incoming) here
            | inl e ↦ elim (Result-cases (build_status h.session_id (status_payload env s h))) [
              | inl (why, failed) ↦ rw (a, b, c, d, e, failed, handle_incoming) here
              | inr (packet, built) ↦ rw (a, b, c, d, e, built, handle_incoming) here
            ]
          ]
        ]
      ]
    ]
  ]

  on_first-Reach : (parsed : ParsedPacket) → Reach s (on_first env s h parsed).0
  unfolding on_first
  on_first-Reach parsed = elim (Bool-cases (parsed.code == register_request)) [
    | inl a ↦ rw (a, on_first) (handle_register-Reach env s h parsed)
    | inr a ↦ elim (Bool-cases (not (parsed.code == auth_request))) [
      | inl b ↦ rw (a, b, on_first) here
      | inr b ↦ rw (a, b, on_first) (authenticate-Reach env s h parsed)
    ]
  ]

  on_announce-Reach : (parsed : ParsedPacket) → Reach s (on_announce env s i h parsed).0
  unfolding on_announce
  on_announce-Reach parsed = elim (Bool-cases (parsed.code == announce_ip)) [
    | inl a ↦ rw (a, on_announce) (register_announced-Reach env s i h parsed)
    | inr a ↦ rw (a, on_announce) here
  ]

  on_authenticated-Reach : (parsed : ParsedPacket) → Reach s (on_authenticated env s i h parsed).0
  unfolding on_authenticated
  on_authenticated-Reach parsed = elim (Bool-cases (parsed.code == get_ip)) [
    | inl a ↦ rw (a, on_authenticated) (do_assignment-Reach env s h parsed.session_id)
    | inr a ↦ rw (a, on_authenticated) (on_announce-Reach parsed)
  ]

  on_packet-Reach :
      (phase : Phase) (parsed : Result ParsedPacket)
      → Reach s (on_packet env s i h port_start id_start phase parsed).0
  unfolding on_packet on_grace on_incoming
  on_packet-Reach closed parsed = here
  on_packet-Reach awaiting_first (raise e) = here
  on_packet-Reach awaiting_first (ok parsed) = on_first-Reach parsed
  on_packet-Reach authenticated (raise e) = here
  on_packet-Reach authenticated (ok parsed) = on_authenticated-Reach parsed
  on_packet-Reach awaiting_announce (raise e) = here
  on_packet-Reach awaiting_announce (ok parsed) = on_announce-Reach parsed
  on_packet-Reach in_grace (raise e) = here
  on_packet-Reach in_grace (ok parsed) = in_grace_window-Reach env s h parsed
  on_packet-Reach receiving (raise e) = here
  on_packet-Reach receiving (ok parsed) = handle_incoming-Reach parsed

-- A registered handler has an address that is active.
abbrev pub IsOwner : VpnServer → Handler → Type 0
IsOwner s h =
    h.registered ≡ true → (is_empty h.assigned_ip ≡ false) × (is_active s h.assigned_ip ≡ true)

cleanup-Reach : (s : VpnServer) (i : ℕ) (h : Handler) → IsOwner s h → Reach s (cleanup s i h).0
unfolding cleanup
cleanup-Reach s i h owner =
    let final_quota : Option ℤ = if h.quota_enforced then some h.current_quota else none in
    elim (Bool-cases h.registered) [
      | inl there ↦
          rw (there, cleanup)
            (next here (end_session i h final_quota (owner there).0 (owner there).1 refl))
      | inr not_there ↦ rw (not_there, cleanup) here
    ]

-- Where each address of a pool without repetitions is free, pending or in a session, and in only one
-- of these places, no other address is in any, and the translation's tables are in order: this is so
-- after any packet in any phase of `run`, whatever it holds and with the draws of the translation in
-- their ranges, and after `_cleanup` of a handler that, if it is registered, has an active address.
pub turns-IsPooled :
    (env : Env) (pool : List Text) (s : VpnServer) (i : ℕ) (h : Handler) (port_start id_start : ℕ)
    → (phase : Phase) (parsed : Result ParsedPacket) → IsUnique pool
    → IsPooled pool s
    → IsOwner s h
    → 50000 ≤ port_start
    → port_start < 60000
    → id_start < 65536
    → IsPooled pool (on_packet env s i h port_start id_start phase parsed).0
      × IsPooled pool (cleanup s i h).0
turns-IsPooled env pool s i h port_start id_start phase parsed once pooled owner low high id_high =
    (
      Reach-IsPooled pool once pooled
          (on_packet-Reach env s i h port_start id_start low high id_high phase parsed),
      Reach-IsPooled pool once pooled (cleanup-Reach s i h owner),
    )
