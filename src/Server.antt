-- ===== src/Server.antt =====
-- Server/VPNServer.py: the state of `VPNServer` with the objects that it refers to, the pool of
-- addresses, the registry of the sessions and the quotas. A handler is known by a number that stands
-- for the object; the bytes that it has sent are kept in `outbox`. A method that holds the lock is
-- one step. The grant policy, which the constructor takes, is a parameter.
pub mod Session
pub mod Run
pub mod Events
pub mod Pool
pub mod Steps
pub mod Turns
pub mod Conserved
pub mod Quota
pub mod Access
pub mod Portal
pub mod Start
use vpn_core.Base.{
  ℕ, zero, suc, Bool, true, false, not, ◌||◌, Option, none, some, List, [], ◌∷◌, ◌++◌,
}
use vpn_core.Base.Tests.{◌==◌, if◌then◌else◌}
use vpn_core.Base.Lists.{length, is_empty}
use vpn_core.Base.Eq.{nat_eq, pair_eq, list_eq, ◌=?◌, is_in, add, discard}
use vpn_core.Base.Dict.{Dict, lookup, has, insert, delete, modify}
use vpn_core.Base.Words.{Bytes}
use vpn_core.Base.Text.{Text}
use vpn_core.Base.Int.{ℤ, pos, int_eq, ◌+ℤ◌, max_ℤ, leb_ℤ}
use vpn_core.Base.Result.{Result, ok, raise, index_error, no_address}
use vpn_core.Frame.{Reasm, send_frame}
use vpn_core.Nat.Server.{
  ServerNat, register_client, unregister_client, add_ignored_port, remove_ignored_port,
}
use vpn_core.VpnPacket.Server.{build_disconnect}
use vpn_core.Database.{UserDb, mark_connected, mark_disconnected, add_quota, ban_user}
use vpn_core.Dns.{DnsCache}

-- Where `run` stands: before its first packet, in `_grace_window`, before the packet behind the
-- authentication, in `_await_announce`, in `_recv_loop`, and behind `_cleanup`.
pub data Phase : Type 0 where
  awaiting_first in_grace authenticated awaiting_announce receiving closed : Phase

-- A `ClientHandler`.
pub record Handler : Type 0 where
  pub phase : Phase
  pub username : Text
  pub assigned_ip : Text
  pub session_id : ℤ
  pub local_port : Option ℕ
  pub registered : Bool
  pub stopped : Bool
  pub reasm : Reasm
  pub current_quota : ℤ
  pub quota_enforced : Bool
  pub outbox : List Bytes

pub record VpnServer : Type 0 where
  pub db : UserDb
  pub dns : DnsCache
  pub nat : ServerNat
  pub free_ips : List Text
  pub pending : List Text
  pub active_by_ip : Dict Text ℕ
  pub client_map : Dict (Text × ℤ) ℕ
  pub by_username : Dict Text (List ℕ)
  pub handlers : Dict ℕ Handler
  pub sent_out : List Bytes

-- The loop of `assign_ip`: the addresses that are left, and the one that is taken.
unfoldable pub assign_loop : ℕ → List Text → List Text → Dict Text ℕ → List Text × Result Text
assign_loop zero free_ips pending active = (free_ips, raise no_address)
assign_loop (suc rounds) [] pending active = ([], raise index_error)
assign_loop (suc rounds) (ip ∷ free_ips) pending active =
    let rest = assign_loop rounds (free_ips ++ ip ∷ []) pending active in
    if is_in ip pending || has ip active then rest else (free_ips, ok ip)

abbrev with_pending : List Text → Result Text → List Text
with_pending pending (raise e) = pending
with_pending pending (ok ip) = add ip pending

unfoldable pub assign_ip : VpnServer → VpnServer × Result Text
unfolding assign_loop add
assign_ip s =
    let (free_ips, chosen) = assign_loop (length s.free_ips) s.free_ips s.pending s.active_by_ip in
    (record s { free_ips = free_ips; pending = with_pending s.pending chosen }, chosen)

abbrev pub is_pending : VpnServer → Text → Bool
is_pending s ip = is_in ip s.pending

abbrev pub is_active : VpnServer → Text → Bool
is_active s ip = has ip s.active_by_ip

abbrev pub group_of : Option (List ℕ) → List ℕ
group_of none = []
group_of (some group) = group

abbrev pub with_port : ServerNat → Option ℕ → ServerNat
with_port nat none = nat
with_port nat (some port) = add_ignored_port nat port

-- `register_session` for the handler `i`, whose fields are `h`.
unfoldable pub register_session : VpnServer → ℕ → Handler → VpnServer
register_session s i h = record s {
  pending = discard h.assigned_ip s.pending;
  active_by_ip = insert h.assigned_ip i s.active_by_ip;
  client_map = insert (h.assigned_ip, h.session_id) i s.client_map;
  by_username =
      insert h.username (add i (group_of (lookup h.username s.by_username))) s.by_username;
  nat = with_port (register_client s.nat h.assigned_ip) h.local_port;
  db = mark_connected s.db h.username h.assigned_ip;
}

abbrev pub without_port : ServerNat → Option ℕ → ServerNat
without_port nat none = nat
without_port nat (some port) = remove_ignored_port nat port

-- The handlers of a user, without one.
abbrev pub left_group : Text → ℕ → Option (List ℕ) → Dict Text (List ℕ) → Dict Text (List ℕ)
left_group username i none groups = groups
left_group username i (some group) groups =
    if is_empty (discard i group)
    then delete username groups
    else insert username (discard i group) groups

-- `unregister_session` behind the guard on the address, up to its end.
abbrev pub released : VpnServer → Handler → VpnServer
released s h = record s {
  nat = without_port s.nat h.local_port;
  free_ips =
      if is_in h.assigned_ip s.free_ips then s.free_ips else s.free_ips ++ h.assigned_ip ∷ [];
  pending = discard h.assigned_ip s.pending;
}

abbrev pub left : VpnServer → ℕ → Handler → Option ℤ → VpnServer
left s i h final_quota = record s {
  by_username = left_group h.username i (lookup h.username s.by_username) s.by_username;
  db = if is_empty h.username then s.db else mark_disconnected s.db h.username final_quota;
}

-- What stays when `unregister_client` raises is what was done before it.
unfoldable pub unregister_session :
    VpnServer → ℕ → Handler → Option ℤ → VpnServer × Result (Unit {0})
unregister_session s i h final_quota =
    let (nat, outcome) = unregister_client s.nat h.assigned_ip in
    let popped = record s {
      active_by_ip = delete h.assigned_ip s.active_by_ip;
      client_map = delete (h.assigned_ip, h.session_id) s.client_map;
      nat = nat;
    } in
    if is_empty h.assigned_ip then (left s i h final_quota, ok tt) else elim outcome [
      | raise e ↦ (popped, raise e)
      | ok _ ↦ (left (released popped h) i h final_quota, ok tt)
    ]

-- `h._try_send(h._packet.build_...)`: an error of the socket is passed over. A builder that may raise,
-- of QUOTA_RESPONSE or STATUS, is called before, and its exception is kept. The others are given three
-- bits of a header as the session identifier and short ASCII texts, so that they do not raise.
abbrev pub try_send : Result Bytes → Handler → Handler
try_send (raise e) h = h
try_send (ok packet) h = record h { outbox = h.outbox ++ send_frame packet ∷ [] }

abbrev pub stop : Handler → Handler
stop h = record h { stopped = true }

-- The objects of a group, changed one after the other.
unfoldable pub each_handler : List ℕ → (Handler → Handler) → Dict ℕ Handler → Dict ℕ Handler
each_handler [] f handlers = handlers
each_handler (i ∷ group) f handlers = each_handler group f (modify i f handlers)

abbrev pub handlers_of : VpnServer → Text → List ℕ
handlers_of s username = group_of (lookup username s.by_username)

abbrev pub kicked : Handler → Handler
kicked h = stop (try_send (build_disconnect h.session_id) h)

unfoldable pub kick : VpnServer → Text → VpnServer × ℕ
unfolding each_handler
kick s username = (
  record s { handlers = each_handler (handlers_of s username) kicked s.handlers },
  length (handlers_of s username),
)

unfoldable pub ban : VpnServer → Text → VpnServer × Result Bool
unfolding kick
ban s username = elim (ban_user s.db username) [
  | raise e ↦ (s, raise e)
  | ok (db, met) ↦ ((kick (record s { db = db }) username).0, ok met)
]

-- `add_quota`: what is added to a session that still counts.
abbrev pub extended : ℤ → Handler → Handler
extended extra_bytes h =
    if h.quota_enforced then record h { current_quota = h.current_quota +ℤ extra_bytes } else h

unfoldable pub top_up : VpnServer → Text → ℤ → VpnServer × ℤ
unfolding each_handler
top_up s username extra_bytes =
    let (db, new_total) = add_quota s.db username extra_bytes in
    (
      record s {
        db = db;
        handlers = each_handler (handlers_of s username) (extended extra_bytes) s.handlers;
      },
      new_total,
    )

-- `grant_quota`, with the policy's answer to what was asked for.
unfoldable pub grant_quota : VpnServer → Text → ℤ → VpnServer × ℤ
grant_quota s username policy =
    let granted = max_ℤ (pos 0) policy in
    if is_empty username
    then (s, pos 0)
    else if leb_ℤ granted (pos 0)
    then (s, granted)
    else (record s { db = (add_quota s.db username granted).0 }, granted)
