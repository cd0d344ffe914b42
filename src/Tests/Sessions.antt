-- ===== src/Tests/Sessions.antt =====
-- VPNServer.py at concrete inputs: the pool, the quota, the way of a new user, and the portal.
use vpn_core.Base.{◌<◌, ◌≡◌, ◌↔◌, refl, true, false, none, some, List, [], ◌∷◌, arith}
use vpn_core.Base.Eq.{nat_eq, pair_eq, list_eq, =?_iff, is_in, add}
use vpn_core.Base.Dict.{lookup, has, modify_all}
use vpn_core.Base.Text.{Text, codes, encode_text}
use vpn_core.Base.Int.{pos, negsuc, int_eq, ◌-ℤ◌}
use vpn_core.Base.Result.{ok}
use vpn_core.VpnPacket.{register_request, announce_ip}
use vpn_core.VpnPacket.Server.{ParsedPacket, hash_password}
use vpn_core.Database.{
  status_active, status_quota_exhausted, empty, create_user, reset_all_connections,
}
use vpn_core.Server.{
  Handler, VpnServer, awaiting_announce, receiving, grant_quota, assign_ip, assign_loop,
}
use vpn_core.Server.Session.{Env, charge, quota_exhausted}
use vpn_core.Server.Run.{authenticate, handle_register}
use vpn_core.Server.Events.{on_packet, cleanup}
use vpn_core.Server.Pool.{count}
use vpn_core.Server.Steps.{IsPooled, IsUnique, Reach-IsPooled, assign, here, next}
use vpn_core.Server.Conserved.{turns-IsPooled}
use vpn_core.Server.Start.{new_server, new_server-IsPooled}
use vpn_core.Server.Quota.{IsRefused, spend, spend_lt, charge-IsRefused}
use vpn_core.Server.Access.{IsLetIn, authenticate_iff, register-authenticate}
use vpn_core.Server.Portal.{
  accepted, logged_in, portal_authenticate, portal_register, portal_register-authenticate,
}
use vpn_core.Tests.Parts.{ascii_codec}
use vpn_core.Tests.Datagrams.{quads}
use vpn_core.Tests.Accounts.{plain}

abbrev env : Env
env = record {
  codec = ascii_codec;
  inet = quads;
  strings = plain;
  policy = λ username requested. pos requested;
  status_json = λ username account quota ip. [];
}

abbrev two : Text
two = codes "10.0.0.2"

abbrev three : Text
three = codes "10.0.0.3"

abbrev pool : List Text
pool = three ∷ two ∷ []

pool-IsUnique : IsUnique pool
unfolding count
pool-IsUnique x = ground (arith, =?_iff three x, =?_iff two x)

abbrev server : VpnServer
server = new_server (codes "203.0.113.5") empty pool

abbrev waiting : Handler
waiting = record {
  phase = awaiting_announce;
  username = codes "bob";
  assigned_ip = [];
  session_id = negsuc 0;
  local_port = some 443;
  registered = false;
  stopped = false;
  reasm = [];
  current_quota = pos 0;
  quota_enforced = false;
  outbox = [];
}

abbrev asking : ParsedPacket
asking = record {
  code = register_request;
  session_id = 3;
  mtu_flag = false;
  payload = [];
  username = some (codes "bob");
  password_hash = some (codes "x");
  requested_bytes = none;
  error_message = none;
  ip = some three;
}

abbrev assigned : VpnServer
assigned = (assign_ip server).0

assigned_run : assigned.pending ≡ three ∷ []
unfolding assign_ip assign_loop new_server is_in add lookup
assigned_run = refl

assigned-IsPooled : IsPooled pool assigned
assigned-IsPooled =
    Reach-IsPooled pool pool-IsUnique (new_server-IsPooled (codes "203.0.113.5") empty pool)
      (next here (assign refl))

-- The announcement of the address that was assigned.
turns-IsPooled_example :
    IsPooled pool
      (on_packet env assigned 0 waiting 50000 0 awaiting_announce
        (ok (record asking { code = announce_ip }))).0
    × IsPooled pool (cleanup assigned 0 waiting).0
turns-IsPooled_example =
    turns-IsPooled env pool assigned 0 waiting 50000 0 awaiting_announce
      (ok (record asking { code = announce_ip })) pool-IsUnique assigned-IsPooled (λ e. absurd cc)
      (omega arith) (omega arith) (omega arith)

abbrev counting : Handler
counting = record waiting { phase = receiving; current_quota = pos 100; quota_enforced = true }

spend_run : spend server counting (60 ∷ 39 ∷ 1 ∷ 7 ∷ []) ≡ 99
unfolding spend charge ◌-ℤ◌ quota_exhausted
spend_run = refl

spend_lt_example : spend server counting (60 ∷ 39 ∷ 1 ∷ 7 ∷ []) < 100
spend_lt_example = spend_lt server counting 100 (60 ∷ 39 ∷ 1 ∷ 7 ∷ []) refl refl (omega arith)

refused_run : (charge server counting 100).2 ≡ false
unfolding charge ◌-ℤ◌
refused_run = refl

charge-IsRefused_example :
    IsRefused server counting (charge server counting 100).0 (charge server counting 100).1
charge-IsRefused_example = charge-IsRefused server counting 100 refl refused_run

authenticate_iff_example :
    ((authenticate env server waiting asking).2 ≡ some status_active)
    ↔ IsLetIn server.db asking status_active
authenticate_iff_example = authenticate_iff env server waiting asking status_active

unknown_run : has (codes "bob") server.db.users ≡ false
unfolding new_server reset_all_connections lookup modify_all
unknown_run = refl

register-authenticate_example :
    ((authenticate env (handle_register env server waiting asking).0 waiting asking).2
      ≡ some status_quota_exhausted)
    × ((authenticate env
          (grant_quota
            (authenticate env (handle_register env server waiting asking).0 waiting asking).0
            (codes "bob")
            (pos 8)).0
          waiting
          asking).2
        ≡ some status_active)
register-authenticate_example =
    register-authenticate env server waiting waiting waiting (codes "bob") (codes "x") asking 7 refl
      refl refl refl refl refl unknown_run

portal_run :
    (portal_register ascii_codec plain server (some (codes "bob")) (some (codes "pw"))).1
    ≡ ok accepted
unfolding portal_register new_server reset_all_connections lookup create_user hash_password
    encode_text modify_all
portal_run = refl

portal_register-authenticate_example :
    portal_authenticate ascii_codec plain
      (portal_register ascii_codec plain server (some (codes "bob")) (some (codes "pw"))).0
      (some (codes "bob"))
      (codes "pw")
    ≡ ok (logged_in status_active)
portal_register-authenticate_example =
    portal_register-authenticate ascii_codec plain server (codes "bob") (codes "pw") portal_run
