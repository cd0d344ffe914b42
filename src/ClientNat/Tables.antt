-- ===== src/ClientNat/Tables.antt =====
-- The tables of `ClientNAT` in Client/NAT.py: inverse to each other, of bounded size; and what a full
-- table does to the flow that comes next.
use vpn_core.Base.{
  ℕ, zero, suc, ◌≤◌, ◌<◌, ◌≡◌, ◌∙◌, ap, refl, Bool, true, false, not, ◌&&◌, Option, none, some,
  List, inl, inr, arith,
}
use vpn_core.Base.Tests.{leb, ltb, lt→ltb, if◌then◌else◌, Bool-cases, Option-cases}
use vpn_core.Base.Lists.{length}
use vpn_core.Base.Eq.{Eq, nat_eq, pair_eq, list_eq, ◌=?◌, is_in}
use vpn_core.Base.Dict.{
  Dict, lookup, has, insert, lookup-insert, length-insert_le, length-insert_fresh,
}
use vpn_core.Base.Text.{Text}
use vpn_core.Base.Result.{ok, Result-cases}
use vpn_core.Nat.{Keying, l4_keying, icmp_keying, scan}
use vpn_core.Nat.TwoWay.{IsTwoWay, IsTwoWay-added}
use vpn_core.ClientNat.{
  ClientNat, Flow, new_nat, is_usable, allocate_port, allocate_icmp_id, maybe_flush, with_flow,
  port_of, make_icmp_room, with_echo, icmp_id_of, next_candidate, max_entries, lowest_port,
}

-- The tables as functions.
abbrev pub number_at : ClientNat → Text → ℕ × ℕ → Option ℕ
number_at nat ip f = lookup (f.0, (ip, f.1)) nat.out_to_nat

abbrev pub echo_at : ClientNat → Text → ℕ → Option ℕ
echo_at nat ip id = lookup (ip, id) nat.icmp_out_to_nat

pub record IsMapped (nat : ClientNat) : Type 0 where
  pub flows : IsTwoWay l4_keying (number_at nat) (λ r. lookup r nat.nat_to_out)
  pub echoes : IsTwoWay icmp_keying (echo_at nat) (λ r. lookup r nat.icmp_nat_to_out)
  pub few_flows : length nat.out_to_nat ≤ 10000
  pub few_echoes : length nat.icmp_out_to_nat ≤ 50

-- A search gives a candidate that passes the test.
scan-free :
    (is_free : ℕ → Bool) (next : ℕ → ℕ) (rounds start n : ℕ)
    → scan is_free next rounds start ≡ ok n
    → is_free n ≡ true
unfolding scan
scan-free is_free next zero start n h = absurd cc
scan-free is_free next (suc rounds) start n h = elim (Bool-cases (is_free start)) [
  | inl free ↦ let same : start ≡ n = cc (rw free at h) in rw (← same) free
  | inr taken ↦ scan-free is_free next rounds (next start) n (rw taken at h)
]

absent_of : {K V : Type 0} ⦃e : Eq K⦄ (k : K) (d : Dict K V) → has k d ≡ false → lookup k d ≡ none
absent_of k d h = ground arith

pub new-IsMapped : (exit_ip : Text) (ignored : List ℕ) → IsMapped (new_nat exit_ip ignored)
unfolding lookup
new-IsMapped exit_ip ignored = record {
  flows = record { forth = λ ip f n h. cc; back = λ r ip v h. absurd cc };
  echoes = record { forth = λ ip f n h. cc; back = λ r ip v h. absurd cc };
  few_flows = omega arith;
  few_echoes = omega arith;
}

third_of : (a b c : Bool) → (a && b && not c) ≡ true → c ≡ false
third_of a b c h = ground arith

unnegated : (b : Bool) → not b ≡ true → b ≡ false
unnegated b h = ground arith

and_swap : (a b c : Bool) → (a && (b && c)) ≡ (b && (a && c))
and_swap a b c = ground arith

no_entries :
    {F R : Type 0} ⦃f : Eq F⦄ ⦃r : Eq R⦄ (k : Keying F R) → IsTwoWay k (λ ip f. none) (λ r. none)
no_entries k = record { forth = λ ip f n h. cc; back = λ r ip v h. absurd cc }

module _ (nat : ClientNat) (h : IsMapped nat) where
  with_flow-TwoWay :
      (protocol : ℕ) (ip : Text) (port p : ℕ)
      → lookup (protocol, (ip, port)) nat.out_to_nat ≡ none
      → lookup (protocol, p) nat.nat_to_out ≡ none
      → IsTwoWay l4_keying
          (number_at (with_flow nat (protocol, (ip, port)) p))
          (λ r. lookup r (with_flow nat (protocol, (ip, port)) p).nat_to_out)
  with_flow-TwoWay protocol ip port p fresh unused =
      IsTwoWay-added l4_keying h.flows ip (protocol, port) p fresh unused
        (λ j g.
          lookup-insert (protocol, (ip, port)) (g.0, (j, g.1)) p nat.out_to_nat
          ∙ ap (λ (b : Bool). if b then some p else number_at nat j g)
              (and_swap (protocol =? g.0) (ip =? j) (port =? g.1)))
        (λ r. lookup-insert (protocol, p) r (ip, port) nat.nat_to_out)

  -- A new mapping, and the flush when it is one too many.
  flushed-IsMapped :
      (protocol : ℕ) (ip : Text) (port p : ℕ)
      → lookup (protocol, (ip, port)) nat.out_to_nat ≡ none
      → lookup (protocol, p) nat.nat_to_out ≡ none
      → IsMapped (maybe_flush (with_flow nat (protocol, (ip, port)) p))
  unfolding lookup
  flushed-IsMapped protocol ip port p fresh unused =
      let mapped : ClientNat = with_flow nat (protocol, (ip, port)) p in
      elim (Bool-cases (ltb 10000 (length mapped.out_to_nat))) [
        | inl full ↦ rw full (record {
          flows = record { forth = λ ip f n h. cc; back = λ r ip v h. absurd cc };
          echoes = h.echoes;
          few_flows = omega arith;
          few_echoes = h.few_echoes;
        })
        | inr room ↦ rw room (record {
          flows = with_flow-TwoWay protocol ip port p fresh unused;
          echoes = h.echoes;
          few_flows = ground (arith, room);
          few_echoes = h.few_echoes;
        })
      ]

  pub port_of-IsMapped :
      (start : ℕ) (protocol : ℕ) (ip : Text) (port : ℕ)
      → IsMapped (port_of nat start (protocol, (ip, port))).0
  unfolding port_of allocate_port
  port_of-IsMapped start protocol ip port =
      elim (Option-cases (lookup (protocol, (ip, port)) nat.out_to_nat)) [
        | inr (p, known) ↦ rw (known, port_of) h
        | inl fresh ↦ elim (Result-cases (allocate_port start nat protocol)) [
          | inl (e, failed) ↦ rw (fresh, failed, port_of) h
          | inr (p, found) ↦
              rw (fresh, found, port_of)
                (flushed-IsMapped protocol ip port p fresh (
                  absent_of (protocol, p) nat.nat_to_out
                    (third_of (leb lowest_port p) (not (is_in p nat.ignored_ports)) _
                      (scan-free (is_usable nat protocol) next_candidate 65536 start p found))))
        ]
      ]

  room-IsMapped : IsMapped (make_icmp_room nat)
  unfolding lookup
  room-IsMapped = elim (Bool-cases (leb 50 (length nat.icmp_out_to_nat))) [
    | inl full ↦ rw full (record {
      flows = h.flows;
      echoes = record { forth = λ ip f n h. cc; back = λ r ip v h. absurd cc };
      few_flows = h.few_flows;
      few_echoes = omega arith;
    })
    | inr room ↦ rw room h
  ]

roomy : (nat : ClientNat) → length (make_icmp_room nat).icmp_out_to_nat < 50
roomy nat = ground arith

module _ (nat : ClientNat) (h : IsMapped nat) (few : length nat.icmp_out_to_nat < 50) where
  with_echo-IsMapped :
      (ip : Text) (id n : ℕ)
      → lookup (ip, id) nat.icmp_out_to_nat ≡ none
      → lookup n nat.icmp_nat_to_out ≡ none
      → IsMapped (with_echo nat (ip, id) n)
  with_echo-IsMapped ip id n fresh unused = record {
    flows = h.flows;
    echoes =
        IsTwoWay-added icmp_keying h.echoes ip id n fresh unused
          (λ j g. lookup-insert (ip, id) (j, g) n nat.icmp_out_to_nat)
          (λ r. lookup-insert n r (ip, id) nat.icmp_nat_to_out);
    few_flows = h.few_flows;
    few_echoes = omega (arith, length-insert_le (ip, id) n nat.icmp_out_to_nat);
  }

room_fresh :
    (nat : ClientNat) (f : Text × ℕ)
    → lookup f nat.icmp_out_to_nat ≡ none
    → lookup f (make_icmp_room nat).icmp_out_to_nat ≡ none
unfolding lookup
room_fresh nat f fresh = elim (Bool-cases (leb 50 (length nat.icmp_out_to_nat))) [
  | inl full ↦ rw full refl
  | inr room ↦ rw room fresh
]

pub icmp_id_of-IsMapped :
    (nat : ClientNat) (start : ℕ) (ip : Text) (id : ℕ)
    → IsMapped nat
    → IsMapped (icmp_id_of nat start (ip, id)).0
unfolding icmp_id_of allocate_icmp_id
icmp_id_of-IsMapped nat start ip id h = elim (Option-cases (lookup (ip, id) nat.icmp_out_to_nat)) [
  | inr (n, known) ↦ rw (known, icmp_id_of) h
  | inl fresh ↦ elim (Result-cases (allocate_icmp_id start (make_icmp_room nat))) [
    | inl (e, failed) ↦ rw (fresh, failed, icmp_id_of) (room-IsMapped nat h)
    | inr (n, found) ↦
        rw (fresh, found, icmp_id_of)
          (with_echo-IsMapped (make_icmp_room nat) (room-IsMapped nat h) (roomy nat) ip id n
            (room_fresh nat (ip, id) fresh)
            (absent_of n (make_icmp_room nat).icmp_nat_to_out (
              unnegated _ (
                scan-free (λ candidate. not (has candidate (make_icmp_room nat).icmp_nat_to_out))
                  next_candidate 65536 start n found))))
  ]
]

-- With the tables full, a flow that gets a port loses it at once, with all others: no answer, on
-- whatever protocol and port, finds its flow.
pub port_of_full :
    (nat : ClientNat) (start : ℕ) (flow : Flow) (p : ℕ) (r : ℕ × ℕ)
    → length nat.out_to_nat ≡ max_entries
    → lookup flow nat.out_to_nat ≡ none
    → allocate_port start nat flow.0 ≡ ok p
    → ((port_of nat start flow).1 ≡ ok p) × (lookup r (port_of nat start flow).0.nat_to_out ≡ none)
unfolding port_of lookup
port_of_full nat start (protocol, (ip, port)) p r full fresh found =
    let over : ltb 10000 (length (insert (protocol, (ip, port)) p nat.out_to_nat)) ≡ true =
      lt→ltb 10000 _
        (omega (arith, full, length-insert_fresh (protocol, (ip, port)) p nat.out_to_nat fresh)) in
    (rw (fresh, found, port_of) refl, rw (fresh, found, over, port_of) refl)
