-- ===== src/Server/Start.antt =====
-- Server/VPNServer.py: `VPNServer.__init__`. The order in which `random.shuffle` leaves the addresses
-- is a parameter.
use vpn_core.Base.{List, [], ◌∷◌, arith}
use vpn_core.Base.Eq.{nat_eq, list_eq, is_in}
use vpn_core.Base.Dict.{lookup}
use vpn_core.Base.Text.{Text}
use vpn_core.Nat.Server.{new}
use vpn_core.Nat.History.{new-IsValid}
use vpn_core.Database.{UserDb, reset_all_connections}
use vpn_core.Dns.{dns_port, new_cache}
use vpn_core.Server.{VpnServer}
use vpn_core.Server.Pool.{places}
use vpn_core.Server.Steps.{IsPooled}

unfoldable pub new_server : Text → UserDb → List Text → VpnServer
unfolding reset_all_connections
new_server exit_ip db shuffled = record {
  db = reset_all_connections db;
  dns = new_cache 100000;
  nat = new exit_ip (dns_port ∷ []);
  free_ips = shuffled;
  pending = [];
  active_by_ip = [];
  client_map = [];
  by_username = [];
  handlers = [];
  sent_out = [];
}

pub new_server-IsPooled :
    (exit_ip : Text) (db : UserDb) (shuffled : List Text)
    → IsPooled shuffled (new_server exit_ip db shuffled)
unfolding new_server places is_in lookup
new_server-IsPooled exit_ip db shuffled = record {
  nat_valid = new-IsValid exit_ip (dns_port ∷ []);
  placed = λ x. omega arith;
}
