-- ===== src/Packet/Readdress.antt =====
-- `set_source` and `set_destination`: the address and the port that they write are read back, the
-- other end of the packet stays, and the checksums verify.
use vpn_core.Base.{
  ℕ, ◌+◌, ◌≤◌, ◌<◌, ◌≡◌, refl, sym, ap, ◌∙◌, ◌⊎◌, inl, inr, true, Option, none, some, [], ◌∷◌,
  arith,
}
use vpn_core.Base.Tests.{if◌then◌else◌, Bool-cases, le→leb}
use vpn_core.Base.Lists.{length, length-drop}
use vpn_core.Base.Words.{
  Bytes, IsBytes, pack_u16, write_at, u16_at-write_at, byte_at-write_at_inside,
}
use vpn_core.Base.Text.{Text}
use vpn_core.Base.Result.{Result, ok, ◌>>=◌}
use vpn_core.Packet.{
  IpPacket, Inet, ported, refresh_checksums, write_ip, write_port, write_port?, set_source,
  set_destination,
}
use vpn_core.Packet.Layout.{
  IsIp, Rewrites, Rewrites-write, Rewrites-refl, Rewrites-trans, Rewrites-IsIp, In, HeaderVerifies,
  SegmentVerifies, quad, port_at, quad-outside, port_at-outside,
}
use vpn_core.Packet.Recalc.{pack_into_u16_fits, pack_u16-IsBytes}
use vpn_core.Packet.Segment.{with_buf, checksum_offset}
use vpn_core.Packet.Setters.{HasRoom, Checksums, IsRefreshed, refresh-IsRefreshed, weaken}

abbrev pub PortFits : Option ℕ → Type 0
PortFits none = Unit
PortFits (some port) = port ≤ 65535

-- The port that stands in a packet after a write at an offset.
abbrev pub written : IpPacket → ℕ → Option ℕ → Option ℕ
written p off none = port_at p off
written p off (some port) = if ported p.protocol then some port else none

quad-write_at :
    (off : ℕ) (b buf : Bytes)
    → length b ≡ 4
    → off + 4 ≤ length buf
    → quad (write_at off b buf) off ≡ b
quad-write_at off (w ∷ x ∷ y ∷ z ∷ []) buf e h = rw (
  byte_at-write_at_inside off (w ∷ x ∷ y ∷ z ∷ []) buf 0 off h (omega arith) (omega arith),
  byte_at-write_at_inside off (w ∷ x ∷ y ∷ z ∷ []) buf 1 (off + 1) h (omega arith) refl,
  byte_at-write_at_inside off (w ∷ x ∷ y ∷ z ∷ []) buf 2 (off + 2) h (omega arith) refl,
  byte_at-write_at_inside off (w ∷ x ∷ y ∷ z ∷ []) buf 3 (off + 3) h (omega arith) refl,
)
quad-write_at off _ buf e h = absurd (omega arith)

pub record PortWritten (p : IpPacket) (off : ℕ) (port : Option ℕ) (r : Result IpPacket)
    : Type 0 where
  pub out : IpPacket
  pub returns : r ≡ ok out
  pub rewrites : Rewrites (In off 2) p out
  reads : port_at out off ≡ written p off port

pub write_port-PortWritten :
    (p : IpPacket) (off : ℕ) (port : Option ℕ)
    → IsBytes p.buf
    → (ported p.protocol ≡ true → off + 2 ≤ length p.buf)
    → PortFits port
    → PortWritten p off port (write_port? p off port)
write_port-PortWritten p off none bytes h fits = record {
  out = p;
  returns = refl;
  rewrites = Rewrites-refl bytes;
  reads = refl;
}
write_port-PortWritten p off (some port) bytes h fits = elim (Bool-cases (ported p.protocol)) [
  | inr no_ports ↦ record {
    out = p;
    returns = unfold write_port in rw no_ports;
    rewrites = Rewrites-refl bytes;
    reads = rw no_ports;
  }
  | inl has_ports ↦ record {
    out = with_buf p (write_at off (pack_u16 port) p.buf);
    returns =
        unfold write_port in
        rw (
          has_ports,
          le→leb port 65535 fits,
          pack_into_u16_fits p.buf off port (h has_ports) (omega arith),
        );
    rewrites =
        Rewrites-write p off 2 (pack_u16 port) bytes (pack_u16-IsBytes port (omega arith)) refl;
    reads = rw has_ports (ap some (u16_at-write_at off port p.buf (h has_ports)));
  }
]

-- The result of a setter for the address at `ip_off` and the port at `port_off` of the segment.
pub record IsReaddressed (ip_off port_off : ℕ) (p : IpPacket) (b : Bytes) (port : Option ℕ)
    (r : Result IpPacket) : Type 0 where
  pub out : IpPacket
  pub returns : r ≡ ok out
  pub valid : IsIp out
  pub address : quad out.buf ip_off ≡ b
  pub new_port : port_at out (p.ihl + port_off) ≡ written p (p.ihl + port_off) port
  pub rewrites : Rewrites (λ i. (In ip_off 4 i ⊎ In (p.ihl + port_off) 2 i) ⊎ Checksums p i) p out
  pub header_verifies : HeaderVerifies out
  pub segment_verifies : ported out.protocol ≡ true → SegmentVerifies out

-- The steps of a setter, from what each gives.
setter_steps :
    (inet : Inet) (p q r : IpPacket) (ip : Text) (b : Bytes) (port : Option ℕ)
    (ip_off port_off off : ℕ)
    → inet.aton ip ≡ some b
    → p.l4 + port_off ≡ off
    → write_port? (with_buf p (write_at ip_off b p.buf)) off port ≡ ok q
    → refresh_checksums q ≡ ok r
    → (do
      a ← write_ip inet p ip_off ip
      c ← write_port? a (a.l4 + port_off) port
      refresh_checksums c)
      ≡ ok r
unfolding write_ip
setter_steps inet p q r ip b port ip_off port_off off packed at first second =
    rw (packed, at, first, second)

module _ (inet : Inet) (p : IpPacket) (h : IsIp p) (room : HasRoom p) (ip : Text) (b : Bytes)
    (packed : inet.aton ip ≡ some b) (port : Option ℕ) (fits : PortFits port) (ip_off port_off : ℕ)
    (low : 12 ≤ ip_off) (high : ip_off + 4 ≤ 20) (near : port_off + 2 ≤ 4) where
  abbrev addressed : IpPacket
  addressed = with_buf p (write_at ip_off b p.buf)

  abbrev four : length b ≡ 4
  four = inet.length-aton ip b packed

  addressed-Rewrites : Rewrites (In ip_off 4) p addressed
  addressed-Rewrites = Rewrites-write p ip_off 4 b h.bytes (inet.aton-IsBytes ip b packed) four

  addressed-IsIp : IsIp addressed
  addressed-IsIp = Rewrites-IsIp (omega arith) (omega arith) addressed-Rewrites h

  ported_write :
      PortWritten addressed (p.ihl + port_off) port (write_port? addressed (p.ihl + port_off) port)
  ported_write =
      write_port-PortWritten addressed (p.ihl + port_off) port addressed-IsIp.bytes
        (λ k. omega (arith, addressed-IsIp.ports k, addressed-Rewrites.same_ihl)) fits

  abbrev rewritten : IpPacket
  rewritten = ported_write.out

  rewritten-Rewrites : Rewrites (λ i. In ip_off 4 i ⊎ In (p.ihl + port_off) 2 i) p rewritten
  rewritten-Rewrites = Rewrites-trans addressed-Rewrites ported_write.rewrites

  rewritten-IsIp : IsIp rewritten
  rewritten-IsIp =
      Rewrites-IsIp (omega (arith, h.header_min)) (omega (arith, h.header_min)) rewritten-Rewrites h

  same_offset : checksum_offset rewritten.protocol ≡ checksum_offset p.protocol
  same_offset = ap checksum_offset rewritten-Rewrites.same_protocol

  rewritten-HasRoom : HasRoom rewritten
  rewritten-HasRoom = record {
    field = λ k. omega (
      arith,
      room.field (kept k),
      same_offset,
      rewritten-Rewrites.same_ihl,
      rewritten-Rewrites.same_length,
    );
    short = λ k. omega (
      arith,
      room.short (kept k),
      length-drop rewritten.l4 rewritten.buf,
      length-drop p.l4 p.buf,
      rewritten-Rewrites.same_l4,
      rewritten-Rewrites.same_length,
    );
  }
    where
      kept : ported rewritten.protocol ≡ true → ported p.protocol ≡ true
      kept k = ap ported (sym rewritten-Rewrites.same_protocol) ∙ k

  refreshed : IsRefreshed rewritten (refresh_checksums rewritten)
  refreshed = refresh-IsRefreshed rewritten rewritten-IsIp rewritten-HasRoom

  written-addressed :
      (new : Option ℕ) → written addressed (p.ihl + port_off) new ≡ written p (p.ihl + port_off) new
  written-addressed none =
      port_at-outside (p.ihl + port_off) addressed-Rewrites (omega (arith, h.header_min))
        (omega (arith, h.header_min))
  written-addressed (some v) = rw addressed-Rewrites.same_protocol

  -- The checksum fields are apart from the addresses, the ports and what `__init__` looks at.
  six : 6 ≤ checksum_offset rewritten.protocol
  six = ground arith

  far : (i : ℕ) → (i < 10) ⊎ ((12 ≤ i) × (i < p.ihl + 4)) → ¬ Checksums rewritten i
  far i apart c = omega (arith, six, rewritten-Rewrites.same_ihl, h.header_min)

  pub readdressed : IsReaddressed ip_off port_off p b port (do
    q ← write_ip inet p ip_off ip
    r ← write_port? q (q.l4 + port_off) port
    refresh_checksums r)
  readdressed = record {
    out = refreshed.out;
    returns =
        setter_steps inet p rewritten refreshed.out ip b port ip_off port_off (p.ihl + port_off)
          packed (omega (arith, h.transport)) ported_write.returns refreshed.returns;
    valid =
        Rewrites-IsIp (far 0 (omega arith)) (far 9 (omega arith)) refreshed.rewrites rewritten-IsIp;
    address =
        quad-outside ip_off refreshed.rewrites (far ip_off (omega (arith, h.header_min)))
          (far (ip_off + 1) (omega (arith, h.header_min)))
          (far (ip_off + 2) (omega (arith, h.header_min)))
          (far (ip_off + 3) (omega (arith, h.header_min)))
        ∙ quad-outside ip_off ported_write.rewrites (omega (arith, h.header_min))
            (omega (arith, h.header_min)) (omega (arith, h.header_min))
            (omega (arith, h.header_min))
        ∙ quad-write_at ip_off b p.buf four (omega (arith, h.header_min, h.header_max));
    new_port =
        port_at-outside (p.ihl + port_off) refreshed.rewrites
          (far (p.ihl + port_off) (omega (arith, h.header_min)))
          (far (p.ihl + port_off + 1) (omega (arith, h.header_min)))
        ∙ ported_write.reads
        ∙ written-addressed port;
    rewrites =
        weaken (λ i t. omega (arith, same_offset, rewritten-Rewrites.same_ihl))
          (Rewrites-trans rewritten-Rewrites refreshed.rewrites);
    header_verifies = refreshed.header_verifies;
    segment_verifies = refreshed.segment_verifies;
  }

-- The two setters of the class.
module _ (inet : Inet) (p : IpPacket) (h : IsIp p) (room : HasRoom p) (ip : Text) (b : Bytes)
    (packed : inet.aton ip ≡ some b) (port : Option ℕ) (fits : PortFits port) where
  pub set_source_steps : IsReaddressed 12 0 p b port (set_source inet p (ip, port))
  unfolding set_source
  set_source_steps =
      readdressed inet p h room ip b packed port fits 12 0 (omega arith) (omega arith) (omega arith)

  pub set_destination_steps : IsReaddressed 16 2 p b port (set_destination inet p (ip, port))
  unfolding set_destination
  set_destination_steps =
      readdressed inet p h room ip b packed port fits 16 2 (omega arith) (omega arith) (omega arith)
