-- ===== src/Packet/Setters.antt =====
-- What `set_source` and `set_destination` do to a well-formed packet.
use vpn_core.Base.{ℕ, ◌+◌, ◌≤◌, ◌<◌, ◌≡◌, refl, ◌⊎◌, inl, inr, true, false, arith}
use vpn_core.Base.Tests.{◌==◌, Bool-cases}
use vpn_core.Base.Lists.{length, drop, length-drop}
use vpn_core.Base.Result.{Result, ok}
use vpn_core.Packet.{IpPacket, ported, tcp, refresh_checksums}
use vpn_core.Packet.Checksum.{double}
use vpn_core.Packet.Layout.{
  IsIp, Rewrites, Rewrites-trans, Rewrites-IsIp, In, HeaderVerifies, SegmentVerifies,
}
use vpn_core.Packet.Recalc.{
  header_done, header_done_lem, header_done-Verifies, header_done-Rewrites,
}
use vpn_core.Packet.Segment.{
  checksum_offset, segment_done, segment_done-Verifies, segment_done-Rewrites, segment_done-header,
  recalc_l4_done,
}

-- The segment has its checksum field, and a length that the pseudo-header can hold.
pub record HasRoom (p : IpPacket) : Type 0 where
  pub field : ported p.protocol ≡ true → p.ihl + checksum_offset p.protocol + 2 ≤ length p.buf
  pub short : ported p.protocol ≡ true → length (drop p.l4 p.buf) < 65536

-- The two checksum fields.
abbrev pub Checksums : IpPacket → ℕ → Type 0
Checksums p i = In 10 2 i ⊎ In (p.ihl + checksum_offset p.protocol) 2 i

pub record IsRefreshed (p : IpPacket) (r : Result IpPacket) : Type 0 where
  pub out : IpPacket
  pub returns : r ≡ ok out
  pub rewrites : Rewrites (Checksums p) p out
  pub header_verifies : HeaderVerifies out
  pub segment_verifies : ported out.protocol ≡ true → SegmentVerifies out

pub weaken :
    {t u : ℕ → Type 0} {p q : IpPacket} → ((i : ℕ) → t i → u i) → Rewrites t p q → Rewrites u p q
weaken f r = record {
  same_ihl = r.same_ihl;
  same_protocol = r.same_protocol;
  same_l4 = r.same_l4;
  same_length = r.same_length;
  still_bytes = r.still_bytes;
  outside = λ i h. r.outside i (λ k. h (f i k));
}

module _ (p : IpPacket) (h : IsIp p) (room : HasRoom p) where
  done-IsIp : IsIp (header_done p)
  done-IsIp = Rewrites-IsIp (omega arith) (omega arith) (header_done-Rewrites p h) h

  refresh_plain : ported p.protocol ≡ false → IsRefreshed p (refresh_checksums p)
  refresh_plain e = record {
    out = header_done p;
    returns = unfold refresh_checksums in rw (header_done_lem p h, e);
    rewrites = weaken (λ i k. omega arith) (header_done-Rewrites p h);
    header_verifies = header_done-Verifies p h;
    segment_verifies = λ k. absurd (ground arith);
  }

  refresh_ported :
      (o k : ℕ)
      → ported p.protocol ≡ true
      → o ≡ checksum_offset p.protocol
      → double k ≡ 12 + o
      → IsRefreshed p (refresh_checksums p)
  refresh_ported o k e at even = record {
    out = segment_done o q;
    returns =
        unfold refresh_checksums in
        rw (header_done_lem p h, e) (recalc_l4_done q done-IsIp o k even fits small at);
    rewrites =
        weaken (λ i t. omega (arith, at, h.transport))
          (Rewrites-trans (header_done-Rewrites p h)
            (segment_done-Rewrites q done-IsIp o k even fits small));
    header_verifies =
        segment_done-header q done-IsIp o k even fits small (header_done-Verifies p h);
    segment_verifies = λ _. segment_done-Verifies q done-IsIp o k even fits small;
  }
    where
      q : IpPacket
      q = header_done p

      fits : q.ihl + o + 2 ≤ length q.buf
      fits = omega (arith, at, room.field e, (header_done-Rewrites p h).same_length)

      small : length (drop q.l4 q.buf) < 65536
      small = omega (
        arith,
        room.short e,
        (header_done-Rewrites p h).same_length,
        length-drop q.l4 q.buf,
        length-drop p.l4 p.buf,
      )

  pub refresh-IsRefreshed : IsRefreshed p (refresh_checksums p)
  refresh-IsRefreshed = elim (Bool-cases (ported p.protocol)) [
    | inr no_ports ↦ refresh_plain no_ports
    | inl has_ports ↦ elim (Bool-cases (p.protocol == tcp)) [
      | inl is_tcp ↦ refresh_ported 16 14 has_ports (ground arith) refl
      | inr not_tcp ↦ refresh_ported 6 9 has_ports (ground arith) refl
    ]
  ]
