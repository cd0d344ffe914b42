-- ===== src/Nat/Sent.antt =====
-- The packet that `translate_out` of Server/NAT.py makes: its new source, its flag, its checksums.
use vpn_core.Base.{
  ℕ, ◌+◌, ◌≤◌, ◌<◌, ◌≡◌, ◌⊎◌, ◌∙◌, sym, refl, ap, ap₂, true, Option, some, [], ◌∷◌, bit_and, arith,
}
use vpn_core.Base.Tests.{ltb, ltb→lt}
use vpn_core.Base.Bits.{holds_below, holds_below_lem}
use vpn_core.Base.Lists.{length-drop}
use vpn_core.Base.Words.{Bytes, byte_at, byte_at-lt, get_or-set_self, write_at}
use vpn_core.Base.Text.{Text}
use vpn_core.Base.Result.{Result, ok}
use vpn_core.Packet.{
  Inet, IpPacket, init, ported, get_source, get_destination, set_source, refresh_checksums,
}
use vpn_core.Packet.Layout.{
  IsIp, IsIp-init, In, Rewrites, Rewrites-write, Rewrites-trans, port_at, Rewrites-IsIp,
  HeaderVerifies, SegmentVerifies, quad-outside, port_at-outside, get_source_lem,
  get_destination_lem,
}
use vpn_core.Packet.Segment.{checksum_offset}
use vpn_core.Packet.Setters.{HasRoom, IsRefreshed, refresh-IsRefreshed}
use vpn_core.Packet.Readdress.{written}
use vpn_core.Packet.Ends.{HasEnds, set_source-HasEnds}
use vpn_core.Nat.Server.{allow_fragments, leave}

small_table : holds_below (λ x. ltb (bit_and x 0xBF) 256) 256 ≡ true
unfolding holds_below
small_table = refl

small : (x : ℕ) → x < 256 → bit_and x 0xBF < 256
small x h = ltb→lt _ 256 (holds_below_lem (λ x. ltb (bit_and x 0xBF) 256) 256 x h small_table)

module _ (q : IpPacket) (h : IsIp q) where
  allow_fragments-Rewrites : Rewrites (In 6 1) q (allow_fragments q)
  unfolding write_at
  allow_fragments-Rewrites =
      Rewrites-write q 6 1 (bit_and (byte_at q.buf 6) 0xBF ∷ []) h.bytes
        (small _ (byte_at-lt q.buf 6 h.bytes), tt) (omega arith)

  allow_fragments-IsIp : IsIp (allow_fragments q)
  allow_fragments-IsIp = Rewrites-IsIp (omega arith) (omega arith) allow_fragments-Rewrites h

pub Rewrites-HasRoom : {t : ℕ → Type 0} {p q : IpPacket} → Rewrites t p q → HasRoom p → HasRoom q
Rewrites-HasRoom {p} {q} r room = record {
  field = λ k. omega (
    arith,
    room.field (ap ported (sym r.same_protocol) ∙ k),
    r.same_ihl,
    r.same_length,
    ap checksum_offset r.same_protocol,
  );
  short = λ k. omega (
    arith,
    room.short (ap ported (sym r.same_protocol) ∙ k),
    r.same_length,
    r.same_l4,
    length-drop q.l4 q.buf,
    length-drop p.l4 p.buf,
  );
}

-- The packet for the Internet: from the new address and port, to where it went, with the flag
-- against fragments cleared, and with checksums that verify.
pub record IsSent (inet : Inet) (pkt : IpPacket) (address : Text) (port : ℕ)
    (r : Result (Option Bytes)) : Type 0 where
  pub out : IpPacket
  pub returns : r ≡ ok (some out.buf)
  pub parses : init out.buf ≡ ok out
  pub same_protocol : out.protocol ≡ pkt.protocol
  pub source_is : get_source inet out ≡ ok (address, some port)
  pub destination_is : get_destination inet out ≡ get_destination inet pkt
  pub may_be_cut : byte_at out.buf 6 ≡ bit_and (byte_at pkt.buf 6) 0xBF
  pub header_verifies : HeaderVerifies out
  pub segment_verifies : SegmentVerifies out

module _ (inet : Inet) (pkt : IpPacket) (h : IsIp pkt) (room : HasRoom pkt)
    (has_ports : ported pkt.protocol ≡ true) (exit_ip : Text) (b : Bytes)
    (packed : inet.aton exit_ip ≡ some b) (port : ℕ) (fits : port ≤ 65535) where
  six : 6 ≤ checksum_offset pkt.protocol
  six = ground arith

  written_port : written pkt pkt.ihl (some port) ≡ some port
  written_port = rw has_ports

  abbrev Readdressed : Type 0
  Readdressed =
      HasEnds inet pkt (ok (inet.ntoa b, written pkt pkt.ihl (some port)))
        (get_destination inet pkt)
        (λ i.
          (In 12 4 i ⊎ In (pkt.ihl + 0) 2 i)
          ⊎ (In 10 2 i ⊎ In (pkt.ihl + checksum_offset pkt.protocol) 2 i))
        (set_source inet pkt (exit_ip, some port))

  -- The two steps behind the choice of the port.
  module _ (e : Readdressed)
      (s : IsRefreshed (allow_fragments e.out) (refresh_checksums (allow_fragments e.out))) where
    cleared : Rewrites (In 6 1) e.out (allow_fragments e.out)
    cleared = allow_fragments-Rewrites e.out e.valid

    out-IsIp : IsIp s.out
    out-IsIp =
        Rewrites-IsIp (omega (arith, e.stays.same_ihl, cleared.same_ihl, h.header_min))
          (omega (arith, e.stays.same_ihl, cleared.same_ihl, h.header_min)) s.rewrites
          (allow_fragments-IsIp e.out e.valid)

    settled :
        Rewrites
          (λ i. In 6 1 i ⊎ (In 10 2 i ⊎ In (e.out.ihl + checksum_offset e.out.protocol) 2 i))
          e.out
          s.out
    settled = Rewrites-trans cleared s.rewrites

    -- The addresses and the ports are none of the bytes that change last.
    far :
        (i : ℕ)
        → ((12 ≤ i) × (i < 20)) ⊎ ((e.out.ihl ≤ i) × (i < e.out.ihl + 4))
        → ¬ (In 6 1 i ⊎ (In 10 2 i ⊎ In (e.out.ihl + checksum_offset e.out.protocol) 2 i))
    far i apart touched = omega (arith, six_out, e.valid.header_min)
      where
        six_out : 6 ≤ checksum_offset e.out.protocol
        six_out = ground arith

    same_source : get_source inet s.out ≡ get_source inet e.out
    same_source =
        get_source_lem inet s.out out-IsIp
        ∙ ap₂ (λ (q : Bytes) (o : Option ℕ). ok (inet.ntoa q, o))
            (quad-outside 12 settled (far 12 (omega arith)) (far 13 (omega arith))
              (far 14 (omega arith)) (far 15 (omega arith)))
            (ap (port_at s.out) settled.same_ihl
              ∙ port_at-outside e.out.ihl settled (far e.out.ihl (omega arith))
                  (far (e.out.ihl + 1) (omega arith)))
        ∙ sym (get_source_lem inet e.out e.valid)

    same_destination : get_destination inet s.out ≡ get_destination inet e.out
    same_destination =
        get_destination_lem inet s.out out-IsIp
        ∙ ap₂ (λ (q : Bytes) (o : Option ℕ). ok (inet.ntoa q, o))
            (quad-outside 16 settled (far 16 (omega arith)) (far 17 (omega arith))
              (far 18 (omega arith)) (far 19 (omega arith)))
            (ap (λ k. port_at s.out (k + 2)) settled.same_ihl
              ∙ port_at-outside (e.out.ihl + 2) settled (far (e.out.ihl + 2) (omega arith))
                  (far (e.out.ihl + 2 + 1) (omega arith)))
        ∙ sym (get_destination_lem inet e.out e.valid)

    cut_flag : byte_at s.out.buf 6 ≡ bit_and (byte_at pkt.buf 6) 0xBF
    cut_flag =
        s.rewrites.outside 6 (omega (arith, e.valid.header_min))
        ∙ get_or-set_self e.out.buf 6 6 (bit_and (byte_at e.out.buf 6) 0xBF) refl
            (omega (arith, e.valid.header_min, e.valid.header_max))
        ∙ ap (λ (x : ℕ). bit_and x 0xBF) (e.stays.outside 6 (omega (arith, six, h.header_min)))

    final_ports : ported s.out.protocol ≡ true
    final_ports =
        ap ported (s.rewrites.same_protocol ∙ cleared.same_protocol ∙ e.stays.same_protocol)
        ∙ has_ports

    leave_steps : IsSent inet pkt (inet.ntoa b) port (leave inet exit_ip pkt (ok port))
    unfolding leave
    leave_steps = record {
      out = s.out;
      returns = rw (e.returns, s.returns);
      parses = IsIp-init s.out out-IsIp;
      same_protocol = s.rewrites.same_protocol ∙ cleared.same_protocol ∙ e.stays.same_protocol;
      source_is =
          same_source ∙ e.source_is ∙ ap (λ (o : Option ℕ). ok (inet.ntoa b, o)) written_port;
      destination_is = same_destination ∙ e.destination_is;
      may_be_cut = cut_flag;
      header_verifies = s.header_verifies;
      segment_verifies = s.segment_verifies final_ports;
    }

  -- `translate_out`'s packet, once it has its port.
  pub leave-IsSent : IsSent inet pkt (inet.ntoa b) port (leave inet exit_ip pkt (ok port))
  leave-IsSent = leave_steps ends (
      refresh-IsRefreshed (allow_fragments ends.out) (allow_fragments-IsIp ends.out ends.valid)
        still_room)
    where
      ends : Readdressed
      ends = set_source-HasEnds inet pkt h room exit_ip b packed (some port) fits

      still_room : HasRoom (allow_fragments ends.out)
      still_room =
          Rewrites-HasRoom (allow_fragments-Rewrites ends.out ends.valid)
            (Rewrites-HasRoom ends.stays room)
