-- ===== src/Nat/Answers.antt =====
-- `ServerNAT`: the answer to a packet that was sent for a client goes back to that client.
use vpn_core.Base.{
  ℕ, ◌≤◌, ◌+◌, ◌<◌, ◌≡◌, ◌⊎◌, ◌∙◌, sym, refl, ap, true, false, Option, some, inl, inr, arith,
}
use vpn_core.Base.Tests.{◌==◌, Option-cases}
use vpn_core.Base.Eq.{nat_eq, pair_eq, list_eq, is_in}
use vpn_core.Base.Dict.{lookup}
use vpn_core.Base.Words.{Bytes, IsBytes, byte_at-lt}
use vpn_core.Base.Text.{Text}
use vpn_core.Base.Result.{Result, ok, ok-injective, >>=-eq-ok}
use vpn_core.Packet.{
  Inet, IpPacket, init, icmp, ported, get_source, get_destination, set_destination,
}
use vpn_core.Packet.Layout.{
  IsIp, init-IsIp, IsIp-init, In, HeaderVerifies, SegmentVerifies, port_at, quad, get_source_lem,
  get_destination_lem,
}
use vpn_core.Packet.Setters.{HasRoom, Checksums}
use vpn_core.Packet.Readdress.{written}
use vpn_core.Packet.Ends.{HasEnds, set_destination-HasEnds}
use vpn_core.Nat.{Tables, l4_keying, number_of}
use vpn_core.Nat.Steps.{IsTable, in_table, number_at}
use vpn_core.Nat.Flows.{number_of-IsNumbered}
use vpn_core.Nat.Server.{
  ServerNat, translate_out, translate_in, l4_out, l4_in, leave, enter, allocate_port,
}
use vpn_core.Nat.State.{IsValid, port-IsSound}

-- A packet of a client, TCP or UDP.
pub record IsFrom (inet : Inet) (nat : ServerNat) (packet : Bytes) (pkt : IpPacket) (src_ip : Text)
    (src_port : ℕ) : Type 0 where
  pub bytes : IsBytes packet
  pub parses : init packet ≡ ok pkt
  pub source : get_source inet pkt ≡ ok (src_ip, some src_port)
  pub client : is_in src_ip nat.clients ≡ true

-- A packet of the same protocol to a port that is not ignored.
pub record IsTo (inet : Inet) (nat : ServerNat) (packet : Bytes) (pkt : IpPacket)
    (protocol port : ℕ) : Type 0 where
  pub bytes : IsBytes packet
  pub parses : init packet ≡ ok pkt
  pub protocol_is : pkt.protocol ≡ protocol
  pub to : Text
  pub destination : get_destination inet pkt ≡ ok (to, some port)
  pub heeded : is_in port nat.ignored_ports ≡ false

in_table-range :
    (t : Tables (ℕ × ℕ) (ℕ × ℕ)) (ip : Text) (f : ℕ × ℕ) (n : ℕ)
    → IsTable l4_keying 200 50000 60000 t
    → number_at t ip f ≡ some n
    → n < 60000
in_table-range t ip f n valid h = elim (Option-cases (lookup ip t.fwd)) [
  | inl absent ↦ absurd (ground (arith, h, absent))
  | inr (table, here) ↦ ((valid.each ip table here).2 f n (sym (ap (in_table f) here) ∙ h)).1
]

module _ (inet : Inet) where
  -- A packet with a port is TCP or UDP.
  pub source-ported :
      (pkt : IpPacket) (ip : Text) (port : ℕ)
      → IsIp pkt
      → get_source inet pkt ≡ ok (ip, some port)
      → ported pkt.protocol ≡ true
  source-ported pkt ip port h source =
      let e : ok (inet.ntoa (quad pkt.buf 12), port_at pkt pkt.ihl) ≡ ok (ip, some port) =
        sym (get_source_lem inet pkt h) ∙ source in
      ground (arith, e)

  pub destination-ported :
      (pkt : IpPacket) (ip : Text) (port : ℕ)
      → IsIp pkt
      → get_destination inet pkt ≡ ok (ip, some port)
      → ported pkt.protocol ≡ true
  destination-ported pkt ip port h destination =
      let e : ok (inet.ntoa (quad pkt.buf 16), port_at pkt (pkt.ihl + 2)) ≡ ok (ip, some port) =
        sym (get_destination_lem inet pkt h) ∙ destination in
      ground (arith, e)

  no_icmp : (protocol : ℕ) → ported protocol ≡ true → (protocol == icmp) ≡ false
  no_icmp protocol h = ground arith

  translate_out_lem :
      (nat : ServerNat) (start id_start : ℕ) (packet : Bytes) (pkt : IpPacket) (src_ip : Text)
      (src_port : ℕ)
      → IsFrom inet nat packet pkt src_ip src_port
      → translate_out inet nat start id_start packet
        ≡ l4_out inet nat start pkt src_ip (some src_port)
  unfolding translate_out
  translate_out_lem nat start id_start packet pkt src_ip src_port h = rw (
    h.parses,
    translate_out,
    h.source,
    h.client,
    no_icmp pkt.protocol
        (source-ported pkt src_ip src_port (init-IsIp packet pkt h.bytes h.parses).0 h.source),
  )

  pub translate_in_lem :
      (nat : ServerNat) (packet : Bytes) (pkt : IpPacket) (protocol port : ℕ) (ip : Text)
      (src_port : ℕ)
      → IsTo inet nat packet pkt protocol port
      → lookup (pkt.protocol, port) nat.l4.rev ≡ some (ip, src_port)
      → (translate_in inet nat packet).1 ≡ enter inet pkt ip src_port
  unfolding translate_in l4_in
  translate_in_lem nat packet pkt protocol port ip src_port h owned = rw (
    h.parses,
    translate_in,
    no_icmp pkt.protocol
        (destination-ported pkt h.to port (init-IsIp packet pkt h.bytes h.parses).0 h.destination),
    h.destination,
    h.heeded,
    owned,
    l4_in,
  )

  -- The flow that a packet of a client is sent under: its port, and who owns it then.
  pub record IsOwned (nat after : ServerNat) (pkt : IpPacket) (src_ip : Text) (src_port : ℕ)
      (sent : Bytes) : Type 0 where
    pub port : ℕ
    pub in_range : port < 60000
    pub sent_is : leave inet nat.exit_ip pkt (ok port) ≡ ok (some sent)
    pub owned : lookup (pkt.protocol, port) after.l4.rev ≡ some (src_ip, src_port)

  pub translate_out-IsOwned :
      (nat : ServerNat) (start id_start : ℕ) (packet : Bytes) (pkt : IpPacket) (src_ip : Text)
      (src_port : ℕ) (sent : Bytes)
      → IsValid nat
      → 50000 ≤ start
      → start < 60000
      → IsFrom inet nat packet pkt src_ip src_port
      → (translate_out inet nat start id_start packet).1 ≡ ok (some sent)
      → IsOwned nat (translate_out inet nat start id_start packet).0 pkt src_ip src_port sent
  unfolding l4_out leave
  translate_out-IsOwned nat start id_start packet pkt src_ip src_port sent valid from below h out =
      let made =
        number_of-IsNumbered l4_keying 200 50000 60000
          (allocate_port start nat.ignored_ports pkt.protocol) (pkt.protocol, src_port)
          (port-IsSound start nat.ignored_ports pkt.protocol src_port from below) src_ip nat.l4
          (omega arith) valid.l4 in
      let (port, chosen, rest) =
        >>=-eq-ok
          (number_of l4_keying 200 (allocate_port start nat.ignored_ports pkt.protocol) src_ip
            (pkt.protocol, src_port) nat.l4).1
          _
          (sym (
              ap (λ (r : ServerNat × Result (Option Bytes)). r.1)
                (translate_out_lem nat start id_start packet pkt src_ip src_port h))
            ∙ out) in
      rw (translate_out_lem nat start id_start packet pkt src_ip src_port h) (record {
        port = port;
        in_range =
            in_table-range _ src_ip (pkt.protocol, src_port) port made.kept.valid
              (made.owns port chosen);
        sent_is = rest;
        owned =
            made.kept.valid.two_way.forth src_ip (pkt.protocol, src_port) port
              (made.owns port chosen);
      })

  -- An answer that has been led back to a flow of a client.
  pub record IsDelivered (q : IpPacket) (client : Result (Text × Option ℕ))
      (r : Result (Option Bytes)) : Type 0 where
    pub out : IpPacket
    pub returns : r ≡ ok (some out.buf)
    pub parses : init out.buf ≡ ok out
    pub source_is : get_source inet out ≡ get_source inet q
    pub destination_is : get_destination inet out ≡ client
    pub header_verifies : HeaderVerifies out
    pub segment_verifies : ported out.protocol ≡ true → SegmentVerifies out

  -- `set_destination` to the source of another packet.
  pub enter-IsDelivered :
      (q pkt : IpPacket) (src_ip : Text) (src_port : ℕ)
      → IsIp q
      → HasRoom q
      → ported q.protocol ≡ true
      → IsIp pkt
      → get_source inet pkt ≡ ok (src_ip, some src_port)
      → IsDelivered q (get_source inet pkt) (enter inet q src_ip src_port)
  unfolding enter
  enter-IsDelivered q pkt src_ip src_port h room has_ports k source = record {
    out = ends.out;
    returns = rw ends.returns;
    parses = IsIp-init ends.out ends.valid;
    source_is = ends.source_is;
    destination_is =
        ends.destination_is
        ∙ ap (λ (o : Option ℕ). ok (inet.ntoa (quad pkt.buf 12), o)) (rw has_ports)
        ∙ ap (λ (x : Text). ok (x, some src_port)) (ap (λ (x : Text × Option ℕ). x.0) same)
        ∙ sym source;
    header_verifies = ends.header_verifies;
    segment_verifies = ends.segment_verifies;
  }
    where
      same :
          ◌≡◌ {A = Text × Option ℕ}
            (inet.ntoa (quad pkt.buf 12), port_at pkt pkt.ihl)
            (src_ip, some src_port)
      same = ok-injective (sym (get_source_lem inet pkt k) ∙ source)

      packed : inet.aton src_ip ≡ some (quad pkt.buf 12)
      packed =
          ap (λ (x : Text × Option ℕ). inet.aton x.0) (sym same)
          ∙ inet.aton-ntoa (quad pkt.buf 12) refl (
              omega (
                arith,
                byte_at-lt pkt.buf 12 k.bytes,
                byte_at-lt pkt.buf 13 k.bytes,
                byte_at-lt pkt.buf 14 k.bytes,
                byte_at-lt pkt.buf 15 k.bytes,
              ))

      fits : src_port ≤ 65535
      fits = ground (
        arith,
        same,
        byte_at-lt pkt.buf pkt.ihl k.bytes,
        byte_at-lt pkt.buf (pkt.ihl + 1) k.bytes,
      )

      ends :
          HasEnds inet q
            (get_source inet q)
            (ok (inet.ntoa (quad pkt.buf 12), written q (q.ihl + 2) (some src_port)))
            (λ i. (In 16 4 i ⊎ In (q.ihl + 2) 2 i) ⊎ Checksums q i)
            (set_destination inet q (src_ip, some src_port))
      ends =
          set_destination-HasEnds inet q h room src_ip (quad pkt.buf 12) packed (some src_port) fits
