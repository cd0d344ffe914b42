-- ===== src/Nat/State.antt =====
-- Every method of Server/NAT.py's `ServerNAT` keeps its tables in order.
use vpn_core.Base.{
  ℕ, ◌≤◌, ◌<◌, ◌≡◌, ◌∙◌, ◌⊎◌, Bool, true, false, not, List, Option, none, some, inl, inr, arith,
}
use vpn_core.Base.Tests.{◌==◌, Bool-cases, Option-cases}
use vpn_core.Base.Eq.{nat_eq, pair_eq, list_eq, is_in}
use vpn_core.Base.Dict.{Dict, lookup, has}
use vpn_core.Base.Words.{Bytes}
use vpn_core.Base.Text.{Text}
use vpn_core.Base.Result.{Result, ok, raise, Result-cases, ok-injective, runtime_error}
use vpn_core.Packet.{Inet, IpPacket, init, icmp, get_source, get_destination, get_icmp_id}
use vpn_core.Nat.{Tables, l4_keying, icmp_keying}
use vpn_core.Nat.Allocate.{IsChoice, chosen, exhausted, scan-IsChoice}
use vpn_core.Nat.Steps.{IsTable}
use vpn_core.Nat.Flows.{IsSound, IsKept, number_of-IsNumbered, touch-IsKept}
use vpn_core.Nat.Server.{
  ServerNat, translate_out, translate_in, l4_out, l4_in, icmp_out, icmp_in, allocate_port,
  allocate_icmp_id, is_free_port, next_port, next_id,
}

-- The tables are in order, with at most 200 ports and 10 ICMP identifiers for a client, and the
-- clients are those that have tables.
pub record IsValid (nat : ServerNat) : Type 0 where
  pub l4 : IsTable l4_keying 200 50000 60000 nat.l4
  pub echo : IsTable icmp_keying 10 0 65536 nat.echo
  pub l4_clients : (ip : Text) → has ip nat.l4.fwd ≡ is_in ip nat.clients
  pub echo_clients : (ip : Text) → has ip nat.echo.fwd ≡ is_in ip nat.clients

-- What the search for a port promises: a port of 50000-59999 that is not among the ignored ones and
-- that the protocol has no entry for, or, when it fails, that there is none.
pub data IsPort (ignored : List ℕ) (protocol : ℕ) (rev : Dict (ℕ × ℕ) (Text × ℕ))
    : Result ℕ → Type 0 where
  free_port :
      (p : ℕ)
      → 50000 ≤ p
      → p < 60000
      → is_in p ignored ≡ false
      → lookup (protocol, p) rev ≡ none
      → IsPort ignored protocol rev (ok p)
  no_port :
      ((p : ℕ) → 50000 ≤ p → p < 60000 → (is_in p ignored ≡ true) ⊎ (has (protocol, p) rev ≡ true))
      → IsPort ignored protocol rev (raise runtime_error)

choice-IsPort :
    (ignored : List ℕ) (protocol : ℕ) (rev : Dict (ℕ × ℕ) (Text × ℕ)) (r : Result ℕ)
    → IsChoice (is_free_port ignored protocol rev) 50000 60000 r
    → IsPort ignored protocol rev r
choice-IsPort ignored protocol rev _ (chosen p from below free) =
    free_port p from below (ground arith) (ground arith)
choice-IsPort ignored protocol rev _ (exhausted all) =
    no_port (λ p from below. ground (arith, all p from below))

port-IsChoice :
    (start : ℕ) (ignored : List ℕ) (protocol : ℕ) (rev : Dict (ℕ × ℕ) (Text × ℕ))
    → 50000 ≤ start
    → start < 60000
    → IsChoice
        (is_free_port ignored protocol rev)
        50000
        60000
        (allocate_port start ignored protocol rev)
unfolding allocate_port
port-IsChoice start ignored protocol rev from below =
    scan-IsChoice 50000 60000 next_port (λ c at_least less. ground arith) (λ c last. ground arith)
      (is_free_port ignored protocol rev) start from below

-- From any start in 50000-59999 the search returns a port of that range that is not ignored and that
-- no flow of the protocol has, or raises `RuntimeError`, and then every port of the range is ignored
-- or taken for the protocol.
pub allocate_port-IsChoice :
    (start : ℕ) (ignored : List ℕ) (protocol : ℕ) (rev : Dict (ℕ × ℕ) (Text × ℕ))
    → 50000 ≤ start
    → start < 60000
    → IsPort ignored protocol rev (allocate_port start ignored protocol rev)
allocate_port-IsChoice start ignored protocol rev from below =
    choice-IsPort ignored protocol rev _ (port-IsChoice start ignored protocol rev from below)

pub allocate_icmp_id-IsChoice :
    (start : ℕ) (rev : Dict ℕ (Text × ℕ))
    → start < 65536
    → IsChoice (λ candidate. not (has candidate rev)) 0 65536 (allocate_icmp_id start rev)
unfolding allocate_icmp_id
allocate_icmp_id-IsChoice start rev below =
    scan-IsChoice 0 65536 next_id (λ c at_least less. omega arith) (λ c last. omega arith)
      (λ candidate. not (has candidate rev)) start (omega arith) below

choice_lem :
    (is_free : ℕ → Bool) (low high : ℕ) (r : Result ℕ) (n : ℕ)
    → IsChoice is_free low high r
    → r ≡ ok n
    → (is_free n ≡ true) × (low ≤ n) × (n < high)
choice_lem is_free low high _ n (chosen p from below free) h =
    rw (← ok-injective h) (free, from, below)
choice_lem is_free low high _ n (exhausted all) h = cc

pub port-IsSound :
    (start : ℕ) (ignored : _) (protocol src_port : ℕ)
    → 50000 ≤ start
    → start < 60000
    → IsSound l4_keying 200 50000 60000 (protocol, src_port) (allocate_port start ignored protocol)
port-IsSound start ignored protocol src_port from below rev n h =
    let (free, at_least, less) =
      choice_lem (is_free_port ignored protocol rev) 50000 60000 _ n
        (port-IsChoice start ignored protocol rev from below) h in
    (ground arith, at_least, less)

id-IsSound :
    (start original_id : ℕ)
    → start < 65536
    → IsSound icmp_keying 10 0 65536 original_id (allocate_icmp_id start)
id-IsSound start original_id below rev n h =
    let (free, at_least, less) =
      choice_lem (λ candidate. not (has candidate rev)) 0 65536 _ n
        (allocate_icmp_id-IsChoice start rev below) h in
    (ground arith, at_least, less)

module _ (inet : Inet) (nat : ServerNat) (valid : IsValid nat) where
  with_l4 :
      {l4 : Tables (ℕ × ℕ) (ℕ × ℕ)}
      → IsKept l4_keying 200 50000 60000 nat.l4 l4
      → IsValid (record nat { l4 = l4 })
  with_l4 kept = record {
    l4 = kept.valid;
    echo = valid.echo;
    l4_clients = λ ip. kept.domain ip ∙ valid.l4_clients ip;
    echo_clients = valid.echo_clients;
  }

  with_echo :
      {echo : Tables ℕ ℕ}
      → IsKept icmp_keying 10 0 65536 nat.echo echo
      → IsValid (record nat { echo = echo })
  with_echo kept = record {
    l4 = valid.l4;
    echo = kept.valid;
    l4_clients = valid.l4_clients;
    echo_clients = λ ip. kept.domain ip ∙ valid.echo_clients ip;
  }

  l4_out-IsValid :
      (start : ℕ) (pkt : IpPacket) (src_ip : Text) (src_port : Option ℕ)
      → 50000 ≤ start
      → start < 60000
      → IsValid (l4_out inet nat start pkt src_ip src_port).0
  unfolding l4_out
  l4_out-IsValid start pkt src_ip none from below = valid
  l4_out-IsValid start pkt src_ip (some src_port) from below =
      let made =
        number_of-IsNumbered l4_keying 200 50000 60000
          (allocate_port start nat.ignored_ports pkt.protocol) (pkt.protocol, src_port)
          (port-IsSound start nat.ignored_ports pkt.protocol src_port from below) src_ip nat.l4
          (omega arith) valid.l4 in
      with_l4 made.kept

  icmp_out-IsValid :
      (start : ℕ) (pkt : IpPacket) (src_ip : Text) (id : Result (Option ℕ))
      → start < 65536
      → IsValid (icmp_out inet nat start pkt src_ip id).0
  unfolding icmp_out
  icmp_out-IsValid start pkt src_ip (raise e) below = valid
  icmp_out-IsValid start pkt src_ip (ok none) below = valid
  icmp_out-IsValid start pkt src_ip (ok (some original_id)) below =
      let made =
        number_of-IsNumbered icmp_keying 10 0 65536 (allocate_icmp_id start) original_id
          (id-IsSound start original_id below) src_ip nat.echo (omega arith) valid.echo in
      with_echo made.kept

  pub translate_out-IsValid :
      (start id_start : ℕ) (packet : Bytes)
      → 50000 ≤ start
      → start < 60000
      → id_start < 65536
      → IsValid (translate_out inet nat start id_start packet).0
  unfolding translate_out
  translate_out-IsValid start id_start packet from below id_below =
      elim (Result-cases (init packet)) [
        | inl (e, bad) ↦ rw (bad, translate_out) valid
        | inr (pkt, parsed) ↦
            rw (parsed, translate_out)
              (elim (Result-cases (get_source inet pkt)) [
                | inl (e, bad) ↦ rw bad valid
                | inr ((src_ip, src_port), source) ↦
                    rw source (elim (Bool-cases (is_in src_ip nat.clients)) [
                      | inr unknown ↦ rw unknown valid
                      | inl known ↦ rw known (elim (Bool-cases (pkt.protocol == icmp)) [
                        | inl echo ↦
                            rw echo
                              (icmp_out-IsValid id_start pkt src_ip (get_icmp_id pkt) id_below)
                        | inr other ↦ rw other (l4_out-IsValid start pkt src_ip src_port from below)
                      ])
                    ])
              ])
      ]

  l4_in-IsValid :
      (packet : Bytes) (pkt : IpPacket) (dst_port : Option ℕ)
      → IsValid (l4_in inet nat packet pkt dst_port).0
  unfolding l4_in
  l4_in-IsValid packet pkt none = valid
  l4_in-IsValid packet pkt (some dst_port) = elim (Bool-cases (is_in dst_port nat.ignored_ports)) [
    | inl ignored ↦ rw ignored valid
    | inr other ↦ rw other (elim (Option-cases (lookup (pkt.protocol, dst_port) nat.l4.rev)) [
      | inl absent ↦ rw (absent, l4_in) valid
      | inr ((ip, src_port), found) ↦
          rw (found, l4_in)
            (with_l4
              (touch-IsKept l4_keying 200 50000 60000 nat.l4 valid.l4 ip (pkt.protocol, src_port)))
    ])
  ]

  icmp_in-IsValid : (pkt : IpPacket) (id : Result (Option ℕ)) → IsValid (icmp_in inet nat pkt id).0
  unfolding icmp_in
  icmp_in-IsValid pkt (raise e) = valid
  icmp_in-IsValid pkt (ok none) = valid
  icmp_in-IsValid pkt (ok (some nat_id)) = elim (Option-cases (lookup nat_id nat.echo.rev)) [
    | inl absent ↦ rw (absent, icmp_in) valid
    | inr ((ip, original_id), found) ↦
        rw (found, icmp_in)
          (with_echo (touch-IsKept icmp_keying 10 0 65536 nat.echo valid.echo ip original_id))
  ]

  pub translate_in-IsValid : (packet : Bytes) → IsValid (translate_in inet nat packet).0
  unfolding translate_in
  translate_in-IsValid packet = elim (Result-cases (init packet)) [
    | inl (e, bad) ↦ rw (bad, translate_in) valid
    | inr (pkt, parsed) ↦
        rw (parsed, translate_in)
          (elim (Bool-cases (pkt.protocol == icmp)) [
            | inl echo ↦ rw echo (icmp_in-IsValid pkt (get_icmp_id pkt))
            | inr other ↦ rw other (elim (Result-cases (get_destination inet pkt)) [
              | inl (e, bad) ↦ rw bad valid
              | inr ((dst_ip, dst_port), destination) ↦
                  rw destination (l4_in-IsValid packet pkt dst_port)
            ])
          ])
  ]
