-- ===== src/Nat/Delivery.antt =====
-- `ServerNAT`, from a client's packet through `translate_out` to its answer through `translate_in`.
use vpn_core.Base.{ℕ, ◌≤◌, ◌<◌, ◌≡◌, ◌∙◌, sym, subst, ap, ap₂, true, Option, some, arith}
use vpn_core.Base.Eq.{nat_eq, pair_eq, list_eq}
use vpn_core.Base.Dict.{lookup}
use vpn_core.Base.Words.{Bytes}
use vpn_core.Base.Text.{Text}
use vpn_core.Base.Result.{Result, ok, ok-injective}
use vpn_core.Packet.{Inet, IpPacket, init, ported, get_source}
use vpn_core.Packet.Layout.{IsIp, init-IsIp}
use vpn_core.Packet.Setters.{HasRoom}
use vpn_core.Nat.Sent.{IsSent, leave-IsSent}
use vpn_core.Nat.Server.{ServerNat, translate_out, translate_in, leave}
use vpn_core.Nat.State.{IsValid}
use vpn_core.Nat.Answers.{
  IsFrom, IsTo, IsOwned, IsDelivered, source-ported, destination-ported, translate_in_lem,
  translate_out-IsOwned, enter-IsDelivered,
}

module _ (inet : Inet) where
  -- The port that is read from the packet sent is the one it was given.
  seen_port :
      (pkt : IpPacket) (address : Text) (n : ℕ) (r : Result (Option Bytes)) (sent : Bytes)
      (seen : IpPacket) (address' : Text) (m : ℕ)
      → IsSent inet pkt address n r
      → r ≡ ok (some sent)
      → init sent ≡ ok seen
      → get_source inet seen ≡ ok (address', some m)
      → n ≡ m
  seen_port pkt address n r sent seen address' m s made parsed source =
      let same : s.out.buf ≡ sent = cc (s.returns, made) in
      let out : s.out ≡ seen = ok-injective (sym s.parses ∙ ap init same ∙ parsed) in
      let e : ok (address, some n) ≡ ok (address', some m) =
        sym s.source_is ∙ ap (get_source inet) out ∙ source in
      cc e

  -- With the tables in order, a TCP or UDP packet of a client with room for its checksum, that
  -- `translate_out` sends, goes out from the exit address and a port to where the client sent it,
  -- with the flag against fragments cleared and checksums that verify. An answer with room for its
  -- checksum, of the same protocol and to that port while it is not ignored, is given out by
  -- `translate_in`: with the source it had, the client's own address and port as its destination,
  -- and checksums that verify.
  pub translate_in-IsDelivered :
      (nat : ServerNat) (start id_start : ℕ) (packet : Bytes) (pkt : IpPacket) (src_ip : Text)
      (src_port : ℕ) (sent : Bytes) (b : Bytes)
      → IsValid nat
      → 50000 ≤ start
      → start < 60000
      → IsFrom inet nat packet pkt src_ip src_port
      → HasRoom pkt
      → inet.aton nat.exit_ip ≡ some b
      → (translate_out inet nat start id_start packet).1 ≡ ok (some sent)
      → (reply : Bytes) (q : IpPacket) (port : ℕ) (seen : IpPacket) (address : Text)
      → init sent ≡ ok seen
      → get_source inet seen ≡ ok (address, some port)
      → IsTo inet (translate_out inet nat start id_start packet).0 reply q pkt.protocol port
      → HasRoom q
      → IsSent inet pkt (inet.ntoa b) port (translate_out inet nat start id_start packet).1
        × IsDelivered inet q
            (get_source inet pkt)
            (translate_in inet (translate_out inet nat start id_start packet).0 reply).1
  translate_in-IsDelivered nat start id_start packet pkt src_ip src_port sent b valid from below h
        room packed out reply q port seen address parsed source to q_room =
      let own : IsOwned inet nat (translate_out inet nat start id_start packet).0 pkt src_ip
          src_port sent =
        translate_out-IsOwned inet nat start id_start packet pkt src_ip src_port sent valid from
          below h out in
      let pkt_ip : IsIp pkt = (init-IsIp packet pkt h.bytes h.parses).0 in
      let has_ports : ported pkt.protocol ≡ true =
        source-ported inet pkt src_ip src_port pkt_ip h.source in
      let s : IsSent inet pkt (inet.ntoa b) own.port (leave inet nat.exit_ip pkt (ok own.port)) =
        leave-IsSent inet pkt pkt_ip room has_ports nat.exit_ip b packed own.port
          (omega (arith, own.in_range)) in
      let same_port : own.port ≡ port =
        seen_port pkt (inet.ntoa b) own.port _ sent seen address port s own.sent_is parsed source in
      let q_ip : IsIp q = (init-IsIp reply q to.bytes to.parses).0 in
      (
        rw (out ∙ sym own.sent_is) (
            subst (λ n. IsSent inet pkt (inet.ntoa b) n (leave inet nat.exit_ip pkt (ok own.port)))
              same_port s),
        rw
            (translate_in_lem inet _ reply q pkt.protocol port src_ip src_port to (
              ap (λ (x : ℕ × ℕ). lookup x (translate_out inet nat start id_start packet).0.l4.rev)
                (ap₂ (λ (x y : ℕ). (x, y)) to.protocol_is (sym same_port))
              ∙ own.owned))
            (enter-IsDelivered inet q pkt src_ip src_port q_ip q_room
              (destination-ported inet q to.to port q_ip to.destination) pkt_ip h.source),
      )
