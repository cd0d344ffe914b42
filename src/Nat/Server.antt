-- ===== src/Nat/Server.antt =====
-- Server/NAT.py: `ServerNAT`. A method takes the object and gives it back changed, with what it
-- returns or raises: what was changed before an exception stays changed. The number that
-- `random.randrange` draws is a parameter.
use vpn_core.Base.{ℕ, ◌+◌, ◌%◌, Bool, not, ◌&&◌, Option, none, some, List, [], bit_and}
use vpn_core.Base.Tests.{leb, ◌==◌, if◌then◌else◌}
use vpn_core.Base.Lists.{set}
use vpn_core.Base.Eq.{nat_eq, pair_eq, list_eq, is_in, add, discard}
use vpn_core.Base.Dict.{Dict, lookup, has, insert, delete}
use vpn_core.Base.Words.{Bytes, byte_at}
use vpn_core.Base.Text.{Text}
use vpn_core.Base.Result.{Result, ok, raise, key_error, ◌>>=◌}
use vpn_core.Packet.{
  Inet, IpPacket, init, icmp, get_source, get_destination, set_source, set_destination, get_icmp_id,
  set_icmp_id, refresh_checksums,
}
use vpn_core.Nat.{Tables, l4_keying, icmp_keying, number_of, touch, forget, scan}

abbrev pub max_l4_per_client : ℕ
max_l4_per_client = 200

abbrev pub max_icmp_per_client : ℕ
max_icmp_per_client = 10

abbrev pub min_port : ℕ
min_port = 50000

abbrev pub max_port : ℕ
max_port = 60000

abbrev pub id_space : ℕ
id_space = 65536

pub record ServerNat : Type 0 where
  pub exit_ip : Text
  pub ignored_ports : List ℕ
  pub clients : List Text
  pub l4 : Tables (ℕ × ℕ) (ℕ × ℕ)
  pub echo : Tables ℕ ℕ

-- `__init__`.
abbrev pub new : Text → List ℕ → ServerNat
new exit_ip ignored_ports = record {
  exit_ip = exit_ip;
  ignored_ports = ignored_ports;
  clients = [];
  l4 = record { fwd = []; rev = [] };
  echo = record { fwd = []; rev = [] };
}

unfoldable pub register_client : ServerNat → Text → ServerNat
register_client nat client_ip = if is_in client_ip nat.clients then nat else record nat {
  clients = add client_ip nat.clients;
  l4 = record (nat.l4) { fwd = insert client_ip [] nat.l4.fwd };
  echo = record (nat.echo) { fwd = insert client_ip [] nat.echo.fwd };
}

-- The body of `unregister_client` behind its guard, with what the two forward tables hold.
abbrev pub unregister_with :
    ServerNat → Text → Option (Dict (ℕ × ℕ) ℕ) → Option (Dict ℕ ℕ) → ServerNat × Result (Unit {0})
unregister_with nat client_ip none echoes = (nat, raise key_error)
unregister_with nat client_ip (some flows) none = (
  record nat { l4 = record (nat.l4) { rev = forget l4_keying flows nat.l4.rev } },
  raise key_error,
)
unregister_with nat client_ip (some flows) (some echoes) = (
  record nat {
    clients = discard client_ip nat.clients;
    l4 = record { fwd = delete client_ip nat.l4.fwd; rev = forget l4_keying flows nat.l4.rev };
    echo = record {
      fwd = delete client_ip nat.echo.fwd;
      rev = forget icmp_keying echoes nat.echo.rev;
    };
  },
  ok tt,
)

unfoldable pub unregister_client : ServerNat → Text → ServerNat × Result (Unit {0})
unregister_client nat client_ip =
    if is_in client_ip nat.clients
    then unregister_with nat client_ip (lookup client_ip nat.l4.fwd) (lookup client_ip nat.echo.fwd)
    else (nat, ok tt)

abbrev pub is_client : ServerNat → Text → Bool
is_client nat client_ip = is_in client_ip nat.clients

abbrev pub add_ignored_port : ServerNat → ℕ → ServerNat
add_ignored_port nat port = record nat { ignored_ports = add port nat.ignored_ports }

abbrev pub remove_ignored_port : ServerNat → ℕ → ServerNat
remove_ignored_port nat port = record nat { ignored_ports = discard port nat.ignored_ports }

-- `port += 1`, and back to the first port after the last.
abbrev pub next_port : ℕ → ℕ
next_port port = if leb max_port (port + 1) then min_port else port + 1

abbrev pub is_free_port : List ℕ → ℕ → Dict (ℕ × ℕ) (Text × ℕ) → ℕ → Bool
is_free_port ignored protocol rev port = not (is_in port ignored) && not (has (protocol, port) rev)

-- `_allocate_port`, with `_MAX_PORT - _MIN_PORT` rounds.
unfoldable pub allocate_port : ℕ → List ℕ → ℕ → Dict (ℕ × ℕ) (Text × ℕ) → Result ℕ
unfolding scan
allocate_port start ignored protocol rev =
    scan (is_free_port ignored protocol rev) next_port 10000 start

abbrev pub next_id : ℕ → ℕ
next_id candidate = (candidate + 1) % id_space

-- `_allocate_icmp_id`.
unfoldable pub allocate_icmp_id : ℕ → Dict ℕ (Text × ℕ) → Result ℕ
unfolding scan
allocate_icmp_id start rev = scan (λ candidate. not (has candidate rev)) next_id id_space start

-- `pkt._buf[6] & 0xBF`: the flag that forbids fragments is cleared.
abbrev pub allow_fragments : IpPacket → IpPacket
allow_fragments pkt = record pkt { buf = set pkt.buf 6 (bit_and (byte_at pkt.buf 6) 0xBF) }

module _ (inet : Inet) where
  -- The packet that `translate_out` and `_icmp_out` return.
  unfoldable pub leave : Text → IpPacket → Result ℕ → Result (Option Bytes)
  leave exit_ip pkt chosen = do
    nat_port ← chosen
    q ← set_source inet pkt (exit_ip, some nat_port)
    r ← refresh_checksums (allow_fragments q)
    ok (some r.buf)

  unfoldable pub leave_echo : Text → IpPacket → Result ℕ → Result (Option Bytes)
  leave_echo exit_ip pkt chosen = do
    nat_id ← chosen
    q ← set_source inet pkt (exit_ip, none)
    r ← set_icmp_id q nat_id
    ok (some r.buf)

  -- The packet that `translate_in` and `_icmp_in` return.
  unfoldable pub enter : IpPacket → Text → ℕ → Result (Option Bytes)
  enter pkt client_ip src_port = do
    q ← set_destination inet pkt (client_ip, some src_port)
    ok (some q.buf)

  unfoldable pub enter_echo : IpPacket → Text → ℕ → Result (Option Bytes)
  enter_echo pkt client_ip original_id = do
    q ← set_destination inet pkt (client_ip, none)
    r ← set_icmp_id q original_id
    ok (some r.buf)

  -- `translate_out` for a packet that is no ICMP, from its source port on.
  unfoldable pub l4_out :
      ServerNat → ℕ → IpPacket → Text → Option ℕ → ServerNat × Result (Option Bytes)
  unfolding number_of allocate_port leave
  l4_out nat start pkt src_ip none = (nat, ok none)
  l4_out nat start pkt src_ip (some src_port) =
      let (l4, chosen) =
        number_of l4_keying max_l4_per_client (allocate_port start nat.ignored_ports pkt.protocol)
          src_ip (pkt.protocol, src_port) nat.l4 in
      (record nat { l4 = l4 }, leave nat.exit_ip pkt chosen)

  -- `_icmp_out`, with what `get_icmp_id` gives.
  unfoldable pub icmp_out :
      ServerNat → ℕ → IpPacket → Text → Result (Option ℕ) → ServerNat × Result (Option Bytes)
  unfolding number_of allocate_icmp_id leave_echo
  icmp_out nat start pkt src_ip (raise e) = (nat, raise e)
  icmp_out nat start pkt src_ip (ok none) = (nat, ok none)
  icmp_out nat start pkt src_ip (ok (some original_id)) =
      let (echo, chosen) =
        number_of icmp_keying max_icmp_per_client (allocate_icmp_id start) src_ip original_id
          nat.echo in
      (record nat { echo = echo }, leave_echo nat.exit_ip pkt chosen)

  -- `translate_out`, with the draws for a port and for an ICMP identifier.
  unfoldable pub translate_out : ServerNat → ℕ → ℕ → Bytes → ServerNat × Result (Option Bytes)
  unfolding l4_out icmp_out
  translate_out nat port_start id_start packet = elim (init packet) [
    | raise e ↦ (nat, raise e)
    | ok pkt ↦ elim (get_source inet pkt) [
      | raise e ↦ (nat, raise e)
      | ok (src_ip, src_port) ↦
          if not (is_in src_ip nat.clients)
          then (nat, ok none)
          else if pkt.protocol == icmp
          then icmp_out nat id_start pkt src_ip (get_icmp_id pkt)
          else l4_out nat port_start pkt src_ip src_port
    ]
  ]

  -- `translate_in` for a packet that is no ICMP, from its destination port on.
  unfoldable pub l4_in : ServerNat → Bytes → IpPacket → Option ℕ → ServerNat × Result (Option Bytes)
  unfolding touch enter
  l4_in nat packet pkt none = (nat, ok none)
  l4_in nat packet pkt (some dst_port) =
      if is_in dst_port nat.ignored_ports
      then (nat, ok (some packet))
      else elim (lookup (pkt.protocol, dst_port) nat.l4.rev) [
        | none ↦ (nat, ok none)
        | some (client_ip, src_port) ↦ (
          record nat { l4 = touch l4_keying client_ip (pkt.protocol, src_port) nat.l4 },
          enter pkt client_ip src_port,
        )
      ]

  -- `_icmp_in`, with what `get_icmp_id` gives.
  unfoldable pub icmp_in :
      ServerNat → IpPacket → Result (Option ℕ) → ServerNat × Result (Option Bytes)
  unfolding touch enter_echo
  icmp_in nat pkt (raise e) = (nat, raise e)
  icmp_in nat pkt (ok none) = (nat, ok none)
  icmp_in nat pkt (ok (some nat_id)) = elim (lookup nat_id nat.echo.rev) [
    | none ↦ (nat, ok none)
    | some (client_ip, original_id) ↦ (
      record nat { echo = touch icmp_keying client_ip original_id nat.echo },
      enter_echo pkt client_ip original_id,
    )
  ]

  unfoldable pub translate_in : ServerNat → Bytes → ServerNat × Result (Option Bytes)
  unfolding l4_in icmp_in
  translate_in nat packet = elim (init packet) [
    | raise e ↦ (nat, raise e)
    | ok pkt ↦
        if pkt.protocol == icmp
        then icmp_in nat pkt (get_icmp_id pkt)
        else elim (get_destination inet pkt) [
          | raise e ↦ (nat, raise e)
          | ok (dst_ip, dst_port) ↦ l4_in nat packet pkt dst_port
        ]
  ]
