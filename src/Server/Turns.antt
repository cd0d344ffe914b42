-- ===== src/Server/Turns.antt =====
-- A turn of `ClientHandler.run`, in Server/VPNServer.py, is made of the steps that the pool allows.
use vpn_core.Base.{ℕ, ◌≤◌, ◌<◌, ◌≡◌, refl, Bool, true, false, not, none, some, inl, inr}
use vpn_core.Base.Tests.{◌==◌, Bool-cases, Option-cases}
use vpn_core.Base.Lists.{length, is_empty}
use vpn_core.Base.Eq.{nat_eq, list_eq}
use vpn_core.Base.Words.{Bytes}
use vpn_core.Base.Text.{Text}
use vpn_core.Base.Int.{ℤ, pos, leb_ℤ, max_ℤ, ◌-ℤ◌}
use vpn_core.Base.Result.{Result, Result-cases, ◌>>=◌}
use vpn_core.Packet.{init, get_destination}
use vpn_core.Nat.Server.{translate_out}
use vpn_core.Nat.State.{translate_out-IsValid}
use vpn_core.Frame.{reassemble}
use vpn_core.VpnPacket.{disconnect, quota_request, get_ip}
use vpn_core.VpnPacket.Server.{ParsedPacket, build_quota_response}
use vpn_core.Database.{UserDb, mark_quota_exhausted, add_quota}
use vpn_core.Server.{Handler, VpnServer, grant_quota}
use vpn_core.Server.Session.{
  Env, charge, quota_exhausted, firewall_allows, send_translated, handle_datagram, handle_data,
  parts_of,
}
use vpn_core.Server.Run.{handle_quota_request, in_grace_window, bytes_of}
use vpn_core.Server.Steps.{besides, Reach, here, next}

pub Reach-trans : {s t u : VpnServer} → Reach s t → Reach t u → Reach s u
Reach-trans r here = r
Reach-trans r (next q step) = next (Reach-trans r q) step

pub Reach-db : (s : VpnServer) (db : UserDb) → Reach s (record s { db = db })
Reach-db s db = next here (besides refl refl refl (λ v. v))

pub quota_exhausted-Reach : (s : VpnServer) (h : Handler) → Reach s (quota_exhausted s h).0
unfolding quota_exhausted
quota_exhausted-Reach s h = elim (Bool-cases (is_empty h.username)) [
  | inl e ↦ rw e here
  | inr e ↦ rw e (Reach-db s (mark_quota_exhausted s.db h.username))
]

pub charge-Reach : (s : VpnServer) (h : Handler) (n : ℕ) → Reach s (charge s h n).0
unfolding charge
charge-Reach s h n = elim (Bool-cases (not h.quota_enforced)) [
  | inl free ↦ rw (free, charge) here
  | inr counted ↦ elim (Bool-cases (leb_ℤ (h.current_quota -ℤ pos n) (pos 0))) [
    | inl spent ↦
        rw (counted, spent, charge)
          (quota_exhausted-Reach s (record h { current_quota = pos 0; quota_enforced = false }))
    | inr enough ↦ rw (counted, enough, charge) here
  ]
]

module _ (env : Env) where
  open env use {codec, inet, strings}

  firewall_allows-Reach :
      (s : VpnServer) (username : Text) (packet : Bytes)
      → Reach s (firewall_allows env s username packet).0
  unfolding firewall_allows
  firewall_allows-Reach s username packet =
      elim (Result-cases (init packet >>= get_destination inet)) [
        | inl (e, failed) ↦ rw (failed, firewall_allows) here
        | inr (dest, found) ↦ rw (found, firewall_allows) (Reach-db s _)
      ]

  module _ (s : VpnServer) (port_start id_start : ℕ) (low : 50000 ≤ port_start)
      (high : port_start < 60000) (id_high : id_start < 65536) where
    translated_step :
        (buf : Bytes) (t : VpnServer)
        → t.free_ips ≡ s.free_ips
        → t.pending ≡ s.pending
        → t.active_by_ip ≡ s.active_by_ip
        → t.nat ≡ (translate_out inet s.nat port_start id_start buf).0
        → Reach s t
    translated_step buf t free pending active nat = next here (
        besides free pending active (λ valid.
          rw nat (translate_out-IsValid inet s.nat valid port_start id_start buf low high id_high)))

    send_translated-Reach :
        (buf : Bytes) → Reach s (send_translated env s port_start id_start buf).0
    unfolding send_translated
    send_translated-Reach buf =
        elim (Result-cases (translate_out inet s.nat port_start id_start buf).1) [
          | inl (e, failed) ↦
              rw (failed, send_translated) (translated_step buf _ refl refl refl refl)
          | inr (none, dropped) ↦
              rw (dropped, send_translated) (translated_step buf _ refl refl refl refl)
          | inr (some packet, out) ↦
              rw (out, send_translated) (translated_step buf _ refl refl refl refl)
        ]

  module _ (port_start id_start : ℕ) (low : 50000 ≤ port_start) (high : port_start < 60000)
      (id_high : id_start < 65536) where
    handle_datagram-Reach :
        (s : VpnServer) (h : Handler) (buf : Bytes)
        → Reach s (handle_datagram env s h port_start id_start buf).0
    unfolding handle_datagram
    handle_datagram-Reach s h buf =
        let paid : VpnServer × Handler × Bool = charge s h (length buf) in
        let logged : VpnServer × Result Bool = firewall_allows env paid.0 (paid.1).username buf in
        let r : Reach s paid.0 = charge-Reach s h (length buf) in
        let q : Reach s logged.0 =
          Reach-trans r (firewall_allows-Reach paid.0 (paid.1).username buf) in
        elim (Bool-cases (not paid.2)) [
          | inl refused ↦ rw (refused, handle_datagram) r
          | inr allowed ↦ elim (Result-cases logged.1) [
            | inl (e, failed) ↦ rw (allowed, failed, handle_datagram) q
            | inr (false, blocked) ↦ rw (allowed, blocked, handle_datagram) q
            | inr (true, opened) ↦
                rw (allowed, opened, handle_datagram)
                  (Reach-trans q
                    (send_translated-Reach logged.0 port_start id_start low high id_high buf))
          ]
        ]

    pub handle_data-Reach :
        (s : VpnServer) (h : Handler) (parsed : ParsedPacket)
        → Reach s (handle_data env s h port_start id_start parsed).0
    unfolding handle_data
    handle_data-Reach s h parsed = elim (Option-cases (reassemble h.reasm (parts_of parsed)).1) [
      | inl more ↦ rw (more, handle_data) here
      | inr (buf, whole) ↦
          rw (whole, handle_data)
            (handle_datagram-Reach s (record h { reasm = (reassemble h.reasm (parts_of parsed)).0 })
              buf)
    ]

  pub grant_quota-Reach :
      (s : VpnServer) (username : Text) (policy : ℤ) → Reach s (grant_quota s username policy).0
  unfolding grant_quota
  grant_quota-Reach s username policy = elim (Bool-cases (is_empty username)) [
    | inl nobody ↦ rw (nobody, grant_quota) here
    | inr someone ↦ elim (Bool-cases (leb_ℤ (max_ℤ (pos 0) policy) (pos 0))) [
      | inl nothing ↦ rw (someone, nothing, grant_quota) here
      | inr granted ↦
          rw (someone, granted, grant_quota)
            (Reach-db s (add_quota s.db username (max_ℤ (pos 0) policy)).0)
    ]
  ]

  pub handle_quota_request-Reach :
      (s : VpnServer) (h : Handler) (parsed : ParsedPacket)
      → Reach s (handle_quota_request env s h parsed).0
  unfolding handle_quota_request
  handle_quota_request-Reach s h parsed =
      let asked : ℤ = env.policy h.username (bytes_of parsed.requested_bytes) in
      elim (Result-cases (build_quota_response h.session_id (grant_quota s h.username asked).1)) [
        | inl (e, failed) ↦ rw (failed, handle_quota_request) (grant_quota-Reach s h.username asked)
        | inr (packet, built) ↦
            rw (built, handle_quota_request) (grant_quota-Reach s h.username asked)
      ]

  pub in_grace_window-Reach :
      (s : VpnServer) (h : Handler) (parsed : ParsedPacket)
      → Reach s (in_grace_window env s h parsed).0
  unfolding in_grace_window
  in_grace_window-Reach s h parsed =
      let asked : ℤ = env.policy h.username (bytes_of parsed.requested_bytes) in
      elim (Bool-cases (parsed.code == disconnect)) [
        | inl a ↦ rw (a, in_grace_window) here
        | inr a ↦ elim (Bool-cases (parsed.code == quota_request)) [
          | inr b ↦ elim (Bool-cases (parsed.code == get_ip)) [
            | inl c ↦ rw (a, b, c, in_grace_window) here
            | inr c ↦ rw (a, b, c, in_grace_window) here
          ]
          | inl b ↦
              elim (Result-cases
                (build_quota_response h.session_id (grant_quota s h.username asked).1)) [
                  | inl (e, failed) ↦
                      rw (a, b, failed, in_grace_window) (grant_quota-Reach s h.username asked)
                  | inr (packet, built) ↦
                      rw (a, b, built, in_grace_window) (grant_quota-Reach s h.username asked)
                ]
        ]
      ]
