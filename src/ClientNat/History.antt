-- ===== src/ClientNat/History.antt =====
-- `ClientNAT` of Client/NAT.py over any datagrams that leave.
use vpn_core.Base.{ℕ, Option, none, some, List, [], ◌∷◌, inl, inr}
use vpn_core.Base.Tests.{◌==◌, Bool-cases}
use vpn_core.Base.Eq.{nat_eq, pair_eq, list_eq}
use vpn_core.Base.Words.{Bytes}
use vpn_core.Base.Text.{Text}
use vpn_core.Base.Result.{Result, ok, raise, Result-cases}
use vpn_core.Packet.{Inet, IpPacket, init, icmp, get_icmp_id, get_source}
use vpn_core.ClientNat.{ClientNat, new_nat, out_from, icmp_out, translate_out}
use vpn_core.ClientNat.Tables.{IsMapped, new-IsMapped, port_of-IsMapped, icmp_id_of-IsMapped}

module _ (inet : Inet) where
  out_from-IsMapped :
      (nat : ClientNat) (start : ℕ) (pkt : IpPacket) (source : Result (Text × Option ℕ))
      → IsMapped nat
      → IsMapped (out_from inet nat start pkt source).0
  unfolding out_from
  out_from-IsMapped nat start pkt (raise e) h = h
  out_from-IsMapped nat start pkt (ok (ip, none)) h = h
  out_from-IsMapped nat start pkt (ok (ip, some port)) h =
      port_of-IsMapped nat h start pkt.protocol ip port

  icmp_out-IsMapped :
      (nat : ClientNat) (start : ℕ) (pkt : IpPacket) (id : Result (Option ℕ))
      → (source : Result (Text × Option ℕ)) → IsMapped nat
      → IsMapped (icmp_out inet nat start pkt id source).0
  unfolding icmp_out
  icmp_out-IsMapped nat start pkt (raise e) source h = h
  icmp_out-IsMapped nat start pkt (ok none) source h = h
  icmp_out-IsMapped nat start pkt (ok (some id)) (raise e) h = h
  icmp_out-IsMapped nat start pkt (ok (some id)) (ok (ip, port)) h =
      icmp_id_of-IsMapped nat start ip id h

  translate_out-IsMapped :
      (nat : ClientNat) (port_start id_start : ℕ) (packet : Bytes)
      → IsMapped nat
      → IsMapped (translate_out inet nat port_start id_start packet).0
  unfolding translate_out
  translate_out-IsMapped nat port_start id_start packet h = elim (Result-cases (init packet)) [
    | inl (e, bad) ↦ rw (bad, translate_out) h
    | inr (pkt, parsed) ↦ elim (Bool-cases (pkt.protocol == icmp)) [
      | inl echo ↦
          rw (parsed, echo, translate_out)
            (icmp_out-IsMapped nat id_start pkt (get_icmp_id pkt) (get_source inet pkt) h)
      | inr ported ↦
          rw (parsed, ported, translate_out)
            (out_from-IsMapped nat port_start pkt (get_source inet pkt) h)
    ]
  ]

  -- Datagrams that leave, each with the draws for it.
  unfoldable pub outbound_all : ClientNat → List (ℕ × ℕ × Bytes) → ClientNat
  unfolding translate_out
  outbound_all nat [] = nat
  outbound_all nat ((port_start, id_start, packet) ∷ packets) =
      outbound_all (translate_out inet nat port_start id_start packet).0 packets

  outbound_all-IsMapped :
      (nat : ClientNat) (packets : List (ℕ × ℕ × Bytes))
      → IsMapped nat
      → IsMapped (outbound_all nat packets)
  unfolding outbound_all
  outbound_all-IsMapped nat [] h = h
  outbound_all-IsMapped nat ((port_start, id_start, packet) ∷ packets) h =
      outbound_all-IsMapped (translate_out inet nat port_start id_start packet).0 packets
        (translate_out-IsMapped nat port_start id_start packet h)

  -- After any datagrams, whatever the draws, the two tables of ports are inverse to each other, and
  -- so are those of the ICMP identifiers; no more than 10000 flows have a port, and no more than 50 an
  -- identifier.
  pub history-IsMapped :
      (exit_ip : Text) (ignored : List ℕ) (packets : List (ℕ × ℕ × Bytes))
      → IsMapped (outbound_all (new_nat exit_ip ignored) packets)
  history-IsMapped exit_ip ignored packets =
      outbound_all-IsMapped (new_nat exit_ip ignored) packets (new-IsMapped exit_ip ignored)
