-- ===== src/Packet/Truncated.antt =====
-- Datagrams of TCP and UDP that end inside their layer-4 header, before its checksum.
use vpn_core.Base.{ℕ, ◌+◌, ◌*◌, ◌≤◌, ◌<◌, ◌≡◌, ap, ◌∙◌, ◌⊎◌, true, Option, some, arith}
use vpn_core.Base.Lists.{length}
use vpn_core.Base.Bits.{shr, low_bits}
use vpn_core.Base.Words.{Bytes, IsBytes, byte_at, write_at}
use vpn_core.Base.Text.{Text}
use vpn_core.Base.Result.{ok, raise, struct_error, ◌>>=◌}
use vpn_core.Packet.{
  IpPacket, Inet, init, ported, refresh_checksums, set_destination, set_source, write_ip,
  write_port?,
}
use vpn_core.Packet.Layout.{
  IsIp, In, Rewrites, Rewrites-write, Rewrites-trans, Rewrites-IsIp, init-IsIp,
}
use vpn_core.Packet.Segment.{with_buf, checksum_offset}
use vpn_core.Packet.Readdress.{PortFits, PortWritten, write_port-PortWritten}
use vpn_core.Packet.Ends.{refresh_checksums_short}

-- A setter whose last step raises.
setter_raises :
    (inet : Inet) (p q : IpPacket) (ip : Text) (b : Bytes) (port : Option ℕ)
    (ip_off port_off off : ℕ)
    → inet.aton ip ≡ some b
    → p.l4 + port_off ≡ off
    → write_port? (with_buf p (write_at ip_off b p.buf)) off port ≡ ok q
    → refresh_checksums q ≡ raise struct_error
    → (do
      a ← write_ip inet p ip_off ip
      c ← write_port? a (a.l4 + port_off) port
      refresh_checksums c)
      ≡ raise struct_error
unfolding write_ip
setter_raises inet p q ip b port ip_off port_off off packed at first second =
    rw (packed, at, first, second)

module _ (inet : Inet) (p : IpPacket) (h : IsIp p) (has_ports : ported p.protocol ≡ true)
    (short : length p.buf < p.ihl + checksum_offset p.protocol + 2) (ip : Text) (b : Bytes)
    (packed : inet.aton ip ≡ some b) (port : Option ℕ) (fits : PortFits port) where
  setter_short :
      (ip_off port_off : ℕ)
      → 12 ≤ ip_off
      → ip_off + 4 ≤ 20
      → port_off + 2 ≤ 4
      → (do
        a ← write_ip inet p ip_off ip
        c ← write_port? a (a.l4 + port_off) port
        refresh_checksums c)
        ≡ raise struct_error
  setter_short ip_off port_off low high near =
      let addressed : IpPacket = with_buf p (write_at ip_off b p.buf) in
      let first : Rewrites (In ip_off 4) p addressed =
        Rewrites-write p ip_off 4 b h.bytes (inet.aton-IsBytes ip b packed)
          (inet.length-aton ip b packed) in
      let sound : IsIp addressed = Rewrites-IsIp (omega arith) (omega arith) first h in
      let at_port : PortWritten addressed (p.ihl + port_off) port
          (write_port? addressed (p.ihl + port_off) port) =
        write_port-PortWritten addressed (p.ihl + port_off) port sound.bytes
          (λ k. omega (arith, sound.ports k, first.same_ihl)) fits in
      let both = Rewrites-trans first at_port.rewrites in
      let kept : IsIp at_port.out =
        Rewrites-IsIp (omega (arith, h.header_min)) (omega (arith, h.header_min)) both h in
      setter_raises inet p at_port.out ip b port ip_off port_off (p.ihl + port_off) packed
        (omega (arith, h.transport)) at_port.returns
        (refresh_checksums_short at_port.out kept (ap ported both.same_protocol ∙ has_ports) (
          omega
            (arith, short, both.same_ihl, both.same_length, ap checksum_offset both.same_protocol)))

-- A datagram of IPv4 whose TCP segment has 4 to 17 bytes, or whose UDP segment has 4 to 7, is a
-- packet for `__init__`; but `set_source` and `set_destination` raise `struct.error` on that packet,
-- whatever address that `inet_aton` accepts and whatever port below 65536, or none, they are given.
pub set_source-truncated :
    (inet : Inet) (raw : Bytes) (ihl : ℕ) (ip : Text) (b : Bytes) (port : Option ℕ)
    → IsBytes raw
    → shr (byte_at raw 0) 4 ≡ 4
    → ihl ≡ low_bits (byte_at raw 0) 4 * 4
    → 20 ≤ ihl
    → ihl + 4 ≤ length raw
    → ((byte_at raw 9 ≡ 6) × (length raw < ihl + 18))
      ⊎ ((byte_at raw 9 ≡ 17) × (length raw < ihl + 8))
    → inet.aton ip ≡ some b
    → PortFits port
    → (p : IpPacket) × (init raw ≡ ok p)
      × (set_source inet p (ip, port) ≡ raise struct_error)
      × (set_destination inet p (ip, port) ≡ raise struct_error)
unfolding init set_source set_destination
set_source-truncated inet raw ihl ip b port bytes version header least ports short packed fits =
    let p : IpPacket = record { buf = raw; ihl = ihl; protocol = byte_at raw 9; l4 = ihl } in
    let accepted : init raw ≡ ok p = ground arith in
    let h : IsIp p = (init-IsIp raw p bytes accepted).0 in
    let has_ports : ported p.protocol ≡ true = ground arith in
    let ends : length raw < ihl + checksum_offset p.protocol + 2 = ground arith in
    (
      p,
      accepted,
      setter_short inet p h has_ports ends ip b packed port fits 12 0 (omega arith) (omega arith)
          (omega arith),
      setter_short inet p h has_ports ends ip b packed port fits 16 2 (omega arith) (omega arith)
          (omega arith),
    )
