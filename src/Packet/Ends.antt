-- ===== src/Packet/Ends.antt =====
-- The setters against the getters, and the refresh of a segment too short for its checksum.
use vpn_core.Base.{ℕ, ◌+◌, ◌≤◌, ◌<◌, ◌≡◌, sym, ap, ap₂, ◌∙◌, ◌⊎◌, true, Option, some, arith}
use vpn_core.Base.Lists.{length}
use vpn_core.Base.Words.{Bytes}
use vpn_core.Base.Text.{Text}
use vpn_core.Base.Result.{Result, ok, raise, struct_error}
use vpn_core.Packet.{
  IpPacket, Inet, ported, set_source, set_destination, get_source, get_destination,
  recalc_l4_checksum, refresh_checksums,
}
use vpn_core.Packet.Layout.{
  IsIp, In, Rewrites, HeaderVerifies, SegmentVerifies, port_at, quad-outside, port_at-outside,
  get_source_lem, get_destination_lem,
}
use vpn_core.Packet.Recalc.{pack_into_u16_short, header_done, header_done_lem, header_done-Rewrites}
use vpn_core.Packet.Segment.{checksum_offset}
use vpn_core.Packet.Setters.{HasRoom, Checksums}
use vpn_core.Packet.Readdress.{
  PortFits, written, IsReaddressed, set_source_steps, set_destination_steps,
}

-- A result with one end of the packet replaced: what the getters then say, and what stays.
pub record HasEnds (inet : Inet) (p : IpPacket) (source destination : Result (Text × Option ℕ))
    (touched : ℕ → Type 0) (r : Result IpPacket) : Type 0 where
  pub out : IpPacket
  pub returns : r ≡ ok out
  pub valid : IsIp out
  pub source_is : get_source inet out ≡ source
  pub destination_is : get_destination inet out ≡ destination
  pub stays : Rewrites touched p out
  pub header_verifies : HeaderVerifies out
  pub segment_verifies : ported out.protocol ≡ true → SegmentVerifies out

module _ (inet : Inet) (p : IpPacket) (h : IsIp p) (room : HasRoom p) (ip : Text) (b : Bytes)
    (packed : inet.aton ip ≡ some b) (port : Option ℕ) (fits : PortFits port) where
  -- `set_source` on a packet with room for its checksums succeeds. The packet then has the new
  -- source and its old destination, only the source's and the checksums' bytes may differ, and the
  -- checksums of the header and of a TCP or UDP segment verify.
  pub set_source-HasEnds :
      HasEnds inet p
        (ok (inet.ntoa b, written p p.ihl port))
        (get_destination inet p)
        (λ i. (In 12 4 i ⊎ In (p.ihl + 0) 2 i) ⊎ Checksums p i)
        (set_source inet p (ip, port))
  set_source-HasEnds = record {
    out = s.out;
    returns = s.returns;
    valid = s.valid;
    source_is =
        get_source_lem inet s.out s.valid
        ∙ ap₂ (λ (q : Bytes) (o : Option ℕ). ok (inet.ntoa q, o)) s.address
            (ap (port_at s.out) (s.rewrites.same_ihl ∙ sym at_start)
              ∙ s.new_port
              ∙ ap (λ k. written p k port) at_start);
    destination_is =
        get_destination_lem inet s.out s.valid
        ∙ ap₂ (λ (q : Bytes) (o : Option ℕ). ok (inet.ntoa q, o))
            (quad-outside 16 s.rewrites (far 16 (omega (arith, h.header_min)))
              (far 17 (omega (arith, h.header_min))) (far 18 (omega (arith, h.header_min)))
              (far 19 (omega (arith, h.header_min))))
            (ap (λ k. port_at s.out (k + 2)) s.rewrites.same_ihl
              ∙ port_at-outside (p.ihl + 2) s.rewrites
                  (far (p.ihl + 2) (omega (arith, h.header_min)))
                  (far (p.ihl + 2 + 1) (omega (arith, h.header_min))))
        ∙ sym (get_destination_lem inet p h);
    stays = s.rewrites;
    header_verifies = s.header_verifies;
    segment_verifies = s.segment_verifies;
  }
    where
      s : IsReaddressed 12 0 p b port (set_source inet p (ip, port))
      s = set_source_steps inet p h room ip b packed port fits

      at_start : p.ihl + 0 ≡ p.ihl
      at_start = omega arith

      six : 6 ≤ checksum_offset p.protocol
      six = ground arith

      far :
          (i : ℕ)
          → ((16 ≤ i) × (i < 20)) ⊎ ((p.ihl + 2 ≤ i) × (i < p.ihl + 4))
          → ¬ ((In 12 4 i ⊎ In (p.ihl + 0) 2 i) ⊎ Checksums p i)
      far i apart c = omega (arith, six, h.header_min)

  -- `set_destination` on a packet with room for its checksums succeeds. The packet then has the new
  -- destination and its old source, only the destination's and the checksums' bytes may differ, and
  -- the checksums of the header and of a TCP or UDP segment verify.
  pub set_destination-HasEnds :
      HasEnds inet p
        (get_source inet p)
        (ok (inet.ntoa b, written p (p.ihl + 2) port))
        (λ i. (In 16 4 i ⊎ In (p.ihl + 2) 2 i) ⊎ Checksums p i)
        (set_destination inet p (ip, port))
  set_destination-HasEnds = record {
    out = s.out;
    returns = s.returns;
    valid = s.valid;
    source_is =
        get_source_lem inet s.out s.valid
        ∙ ap₂ (λ (q : Bytes) (o : Option ℕ). ok (inet.ntoa q, o))
            (quad-outside 12 s.rewrites (far 12 (omega (arith, h.header_min)))
              (far 13 (omega (arith, h.header_min))) (far 14 (omega (arith, h.header_min)))
              (far 15 (omega (arith, h.header_min))))
            (ap (port_at s.out) s.rewrites.same_ihl
              ∙ port_at-outside p.ihl s.rewrites (far p.ihl (omega (arith, h.header_min)))
                  (far (p.ihl + 1) (omega (arith, h.header_min))))
        ∙ sym (get_source_lem inet p h);
    destination_is =
        get_destination_lem inet s.out s.valid
        ∙ ap₂ (λ (q : Bytes) (o : Option ℕ). ok (inet.ntoa q, o)) s.address
            (ap (λ k. port_at s.out (k + 2)) s.rewrites.same_ihl ∙ s.new_port);
    stays = s.rewrites;
    header_verifies = s.header_verifies;
    segment_verifies = s.segment_verifies;
  }
    where
      s : IsReaddressed 16 2 p b port (set_destination inet p (ip, port))
      s = set_destination_steps inet p h room ip b packed port fits

      six : 6 ≤ checksum_offset p.protocol
      six = ground arith

      far :
          (i : ℕ)
          → ((12 ≤ i) × (i < 16)) ⊎ ((p.ihl ≤ i) × (i < p.ihl + 2))
          → ¬ ((In 16 4 i ⊎ In (p.ihl + 2) 2 i) ⊎ Checksums p i)
      far i apart c = omega (arith, six, h.header_min)

-- The checksum field of the segment is beyond the end.
pub refresh_checksums_short :
    (p : IpPacket)
    → IsIp p
    → ported p.protocol ≡ true
    → length p.buf < p.ihl + checksum_offset p.protocol + 2
    → refresh_checksums p ≡ raise struct_error
unfolding refresh_checksums recalc_l4_checksum
refresh_checksums_short p h has_ports short = rw (
  header_done_lem p h,
  has_ports,
  pack_into_u16_short (header_done p).buf (p.l4 + checksum_offset p.protocol) 0
      (omega (arith, h.transport, (header_done-Rewrites p h).same_length)),
)
