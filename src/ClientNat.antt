-- ===== src/ClientNat.antt =====
-- Client/NAT.py: `ClientNAT`. A method takes the object and gives it back changed, with what it
-- returns or raises. The numbers that `random.randrange` draws are parameters.
pub mod Tables
pub mod History
use vpn_core.Base.{ℕ, ◌+◌, ◌%◌, Bool, not, ◌&&◌, Option, none, some, List, []}
use vpn_core.Base.Tests.{leb, ltb, ◌==◌, if◌then◌else◌}
use vpn_core.Base.Lists.{length}
use vpn_core.Base.Eq.{nat_eq, pair_eq, list_eq, is_in, add, discard}
use vpn_core.Base.Dict.{Dict, lookup, has, insert}
use vpn_core.Base.Words.{Bytes}
use vpn_core.Base.Text.{Text}
use vpn_core.Base.Result.{Result, ok, raise, ◌>>=◌}
use vpn_core.Packet.{
  Inet, IpPacket, init, icmp, get_source, get_destination, set_source, set_destination, get_icmp_id,
  set_icmp_id,
}
use vpn_core.Nat.{scan}

abbrev pub max_entries : ℕ
max_entries = 10000

abbrev pub max_icmp_entries : ℕ
max_icmp_entries = 50

abbrev pub lowest_port : ℕ
lowest_port = 1

-- `_PORT_SPACE` and `_ID_SPACE`.
abbrev pub port_space : ℕ
port_space = 65536

abbrev pub Flow : Type 0
Flow = ℕ × (Text × ℕ)

pub record ClientNat : Type 0 where
  pub exit_ip : Text
  pub ignored_ports : List ℕ
  pub out_to_nat : Dict Flow ℕ
  pub nat_to_out : Dict (ℕ × ℕ) (Text × ℕ)
  pub icmp_out_to_nat : Dict (Text × ℕ) ℕ
  pub icmp_nat_to_out : Dict ℕ (Text × ℕ)

abbrev pub new_nat : Text → List ℕ → ClientNat
new_nat exit_ip ignored_ports = record {
  exit_ip = exit_ip;
  ignored_ports = ignored_ports;
  out_to_nat = [];
  nat_to_out = [];
  icmp_out_to_nat = [];
  icmp_nat_to_out = [];
}

abbrev pub add_ignored_port : ClientNat → ℕ → ClientNat
add_ignored_port nat port = record nat { ignored_ports = add port nat.ignored_ports }

abbrev pub remove_ignored_port : ClientNat → ℕ → ClientNat
remove_ignored_port nat port = record nat { ignored_ports = discard port nat.ignored_ports }

abbrev pub next_candidate : ℕ → ℕ
next_candidate port = (port + 1) % port_space

abbrev pub is_usable : ClientNat → ℕ → ℕ → Bool
is_usable nat protocol port =
    leb lowest_port port
    && not (is_in port nat.ignored_ports)
    && not (has (protocol, port) nat.nat_to_out)

-- `_allocate_port`.
unfoldable pub allocate_port : ℕ → ClientNat → ℕ → Result ℕ
unfolding scan
allocate_port start nat protocol = scan (is_usable nat protocol) next_candidate port_space start

-- `_allocate_icmp_id`.
unfoldable pub allocate_icmp_id : ℕ → ClientNat → Result ℕ
unfolding scan
allocate_icmp_id start nat =
    scan (λ candidate. not (has candidate nat.icmp_nat_to_out)) next_candidate port_space start

-- `_maybe_flush`.
abbrev pub maybe_flush : ClientNat → ClientNat
maybe_flush nat =
    if ltb max_entries (length nat.out_to_nat)
    then record nat { out_to_nat = []; nat_to_out = [] }
    else nat

-- The two tables after a flow has got a port.
abbrev pub with_flow : ClientNat → Flow → ℕ → ClientNat
with_flow nat (protocol, (src_ip, src_port)) nat_port = record nat {
  out_to_nat = insert (protocol, (src_ip, src_port)) nat_port nat.out_to_nat;
  nat_to_out = insert (protocol, nat_port) (src_ip, src_port) nat.nat_to_out;
}

-- The port of a flow, that it has or gets.
unfoldable pub port_of : ClientNat → ℕ → Flow → ClientNat × Result ℕ
unfolding allocate_port
port_of nat start flow = elim (lookup flow nat.out_to_nat) [
  | some nat_port ↦ (nat, ok nat_port)
  | none ↦ elim (allocate_port start nat flow.0) [
    | raise e ↦ (nat, raise e)
    | ok nat_port ↦ (maybe_flush (with_flow nat flow nat_port), ok nat_port)
  ]
]

-- `if len(...) >= self.MAX_ICMP_ENTRIES`, before an identifier is allocated.
abbrev pub make_icmp_room : ClientNat → ClientNat
make_icmp_room nat =
    if leb max_icmp_entries (length nat.icmp_out_to_nat)
    then record nat { icmp_out_to_nat = []; icmp_nat_to_out = [] }
    else nat

abbrev pub with_echo : ClientNat → Text × ℕ → ℕ → ClientNat
with_echo nat flow nat_id = record nat {
  icmp_out_to_nat = insert flow nat_id nat.icmp_out_to_nat;
  icmp_nat_to_out = insert nat_id flow nat.icmp_nat_to_out;
}

-- The identifier of a flow of echoes, that it has or gets.
unfoldable pub icmp_id_of : ClientNat → ℕ → Text × ℕ → ClientNat × Result ℕ
unfolding allocate_icmp_id
icmp_id_of nat start flow = elim (lookup flow nat.icmp_out_to_nat) [
  | some nat_id ↦ (nat, ok nat_id)
  | none ↦
      let roomy = make_icmp_room nat in
      elim (allocate_icmp_id start roomy) [
        | raise e ↦ (roomy, raise e)
        | ok nat_id ↦ (with_echo roomy flow nat_id, ok nat_id)
      ]
]

module _ (inet : Inet) where
  -- The packets that the four methods return.
  unfoldable pub leave_with : Text → IpPacket → Result ℕ → Result (Option Bytes)
  leave_with exit_ip pkt chosen = do
    nat_port ← chosen
    q ← set_source inet pkt (exit_ip, some nat_port)
    ok (some q.buf)

  unfoldable pub leave_echo_with : Text → IpPacket → Result ℕ → Result (Option Bytes)
  leave_echo_with exit_ip pkt chosen = do
    nat_id ← chosen
    q ← set_source inet pkt (exit_ip, none)
    r ← set_icmp_id q nat_id
    ok (some r.buf)

  unfoldable pub enter_at : IpPacket → Text → ℕ → Result (Option Bytes)
  enter_at pkt src_ip src_port = do
    q ← set_destination inet pkt (src_ip, some src_port)
    ok (some q.buf)

  unfoldable pub enter_echo_at : IpPacket → Text → ℕ → Result (Option Bytes)
  enter_echo_at pkt src_ip original_id = do
    q ← set_destination inet pkt (src_ip, none)
    r ← set_icmp_id q original_id
    ok (some r.buf)

  -- `translate_out` behind `get_source`, for a packet that is no ICMP.
  unfoldable pub out_from :
      ClientNat → ℕ → IpPacket → Result (Text × Option ℕ) → ClientNat × Result (Option Bytes)
  unfolding port_of leave_with
  out_from nat start pkt (raise e) = (nat, raise e)
  out_from nat start pkt (ok (src_ip, none)) = (nat, ok none)
  out_from nat start pkt (ok (src_ip, some src_port)) =
      let (after, chosen) = port_of nat start (pkt.protocol, (src_ip, src_port)) in
      (after, leave_with nat.exit_ip pkt chosen)

  -- `_icmp_out`, with the identifier and the source.
  unfoldable pub icmp_out :
      ClientNat
      → ℕ
      → IpPacket
      → Result (Option ℕ)
      → Result (Text × Option ℕ)
      → ClientNat × Result (Option Bytes)
  unfolding icmp_id_of leave_echo_with
  icmp_out nat start pkt (raise e) source = (nat, raise e)
  icmp_out nat start pkt (ok none) source = (nat, ok none)
  icmp_out nat start pkt (ok (some original_id)) (raise e) = (nat, raise e)
  icmp_out nat start pkt (ok (some original_id)) (ok (src_ip, src_port)) =
      let (after, chosen) = icmp_id_of nat start (src_ip, original_id) in
      (after, leave_echo_with nat.exit_ip pkt chosen)

  unfoldable pub translate_out : ClientNat → ℕ → ℕ → Bytes → ClientNat × Result (Option Bytes)
  unfolding out_from icmp_out
  translate_out nat port_start id_start packet = elim (init packet) [
    | raise e ↦ (nat, raise e)
    | ok pkt ↦
        if pkt.protocol == icmp
        then icmp_out nat id_start pkt (get_icmp_id pkt) (get_source inet pkt)
        else out_from nat port_start pkt (get_source inet pkt)
  ]

  -- `translate_in` behind `get_destination`, for a packet that is no ICMP.
  unfoldable pub in_to : ClientNat → Bytes → IpPacket → Option ℕ → Result (Option Bytes)
  unfolding enter_at
  in_to nat packet pkt none = ok none
  in_to nat packet pkt (some dst_port) =
      if is_in dst_port nat.ignored_ports
      then ok (some packet)
      else elim (lookup (pkt.protocol, dst_port) nat.nat_to_out) [
        | none ↦ ok none
        | some (src_ip, src_port) ↦ enter_at pkt src_ip src_port
      ]

  -- `_icmp_in`.
  unfoldable pub icmp_in : ClientNat → IpPacket → Option ℕ → Result (Option Bytes)
  unfolding enter_echo_at
  icmp_in nat pkt none = ok none
  icmp_in nat pkt (some nat_id) = elim (lookup nat_id nat.icmp_nat_to_out) [
    | none ↦ ok none
    | some (src_ip, original_id) ↦ enter_echo_at pkt src_ip original_id
  ]

  -- `translate_in`, which changes nothing.
  unfoldable pub translate_in : ClientNat → Bytes → Result (Option Bytes)
  unfolding in_to icmp_in
  translate_in nat packet = elim (init packet) [
    | raise e ↦ raise e
    | ok pkt ↦
        if pkt.protocol == icmp
        then get_icmp_id pkt >>= icmp_in nat pkt
        else get_destination inet pkt >>= λ to. in_to nat packet pkt to.1
  ]
