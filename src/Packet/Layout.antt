-- ===== src/Packet/Layout.antt =====
-- Well-formed packets, and what a change of some bytes leaves alone.
use vpn_core.Base.{
  ℕ, ◌+◌, ◌*◌, ◌/◌, ◌%◌, ◌≤◌, ◌<◌, ◌≡◌, refl, sym, ap, ◌∙◌, ◌⊎◌, inl, inr, true, Option, none, some,
  [], ◌∷◌, ◌++◌, arith,
}
use vpn_core.Base.Tests.{if◌then◌else◌, Bool-cases, le→ltb}
use vpn_core.Base.Lists.{length, take, drop, length-drop}
use vpn_core.Base.Words.{
  Bytes, IsBytes, byte_at, u16_at, unpack_from_u16, write_at, length-write_at, write_at-IsBytes,
  byte_at-write_at_outside,
}
use native.Mathlib.Decide.{dec_lt}
use vpn_core.Base.Slices.{byte_at-drop}
use vpn_core.Base.Result.{ok}
use vpn_core.Packet.{
  IpPacket, Inet, init, ported, checksum, pseudo_header, get_source, get_destination, read_port,
}

-- What `__init__` checks of the bytes, and where it finds the fields.
pub record IsIp (p : IpPacket) : Type 0 where
  pub bytes : IsBytes p.buf
  pub version : byte_at p.buf 0 / 16 ≡ 4
  pub header : p.ihl ≡ byte_at p.buf 0 % 16 * 4
  pub header_min : 20 ≤ p.ihl
  pub header_max : p.ihl ≤ length p.buf
  pub transport : p.l4 ≡ p.ihl
  pub kind : p.protocol ≡ byte_at p.buf 9
  pub ports : ported p.protocol ≡ true → p.ihl + 4 ≤ length p.buf

pub init-IsIp :
    (raw : Bytes) (p : IpPacket) → IsBytes raw → init raw ≡ ok p → IsIp p × (p.buf ≡ raw)
unfolding init
init-IsIp raw p bytes h = ground arith

-- The bytes of a well-formed packet parse to that packet.
pub IsIp-init : (p : IpPacket) → IsIp p → init p.buf ≡ ok p
unfolding init
IsIp-init p h = ground arith

-- The packet `q` has the fields of `p`, and its bytes but for those at touched offsets.
pub record Rewrites (touched : ℕ → Type 0) (p q : IpPacket) : Type 0 where
  pub same_ihl : q.ihl ≡ p.ihl
  pub same_protocol : q.protocol ≡ p.protocol
  pub same_l4 : q.l4 ≡ p.l4
  pub same_length : length q.buf ≡ length p.buf
  pub still_bytes : IsBytes q.buf
  pub outside : (i : ℕ) → ¬ touched i → byte_at q.buf i ≡ byte_at p.buf i

pub Rewrites-trans :
    {t u : ℕ → Type 0} {p q r : IpPacket}
    → Rewrites t p q
    → Rewrites u q r
    → Rewrites (λ i. t i ⊎ u i) p r
Rewrites-trans a b = record {
  same_ihl = b.same_ihl ∙ a.same_ihl;
  same_protocol = b.same_protocol ∙ a.same_protocol;
  same_l4 = b.same_l4 ∙ a.same_l4;
  same_length = b.same_length ∙ a.same_length;
  still_bytes = b.still_bytes;
  outside = λ i h. b.outside i (λ k. h (inr k)) ∙ a.outside i (λ k. h (inl k));
}

pub Rewrites-IsIp :
    {t : ℕ → Type 0} {p q : IpPacket} → ¬ t 0 → ¬ t 9 → Rewrites t p q → IsIp p → IsIp q
Rewrites-IsIp {p} {q} first ninth r h = record {
  bytes = r.still_bytes;
  version = omega (arith, r.same_ihl, r.outside 0 first, h.version);
  header = omega (arith, r.same_ihl, r.outside 0 first, h.header);
  header_min = omega (arith, r.same_ihl, h.header_min);
  header_max = omega (arith, r.same_ihl, r.same_length, h.header_max);
  transport = omega (arith, r.same_ihl, r.same_l4, h.transport);
  kind = omega (arith, r.same_protocol, r.outside 9 ninth, h.kind);
  ports =
      λ k. omega (arith, r.same_ihl, r.same_length, h.ports (ap ported (sym r.same_protocol) ∙ k));
}

-- The four bytes at an offset.
abbrev pub quad : Bytes → ℕ → Bytes
quad buf off =
    byte_at buf off ∷ byte_at buf (off + 1) ∷ byte_at buf (off + 2) ∷ byte_at buf (off + 3) ∷ []

take-quad : (xs : Bytes) → 4 ≤ length xs → take 4 xs ≡ quad xs 0
take-quad (a ∷ b ∷ c ∷ d ∷ xs) h = refl
take-quad _ h = absurd (omega arith)

pub take-drop-quad :
    (off : ℕ) (buf : Bytes) → off + 4 ≤ length buf → take 4 (drop off buf) ≡ quad buf off
take-drop-quad off buf h = rw (
  take-quad (drop off buf) (omega (arith, length-drop off buf)),
  byte_at-drop off 0 off buf (omega arith),
  byte_at-drop off 1 (off + 1) buf refl,
  byte_at-drop off 2 (off + 2) buf refl,
  byte_at-drop off 3 (off + 3) buf refl,
)

-- The checksums of the header and of the segment with its pseudo-header verify.
abbrev pub HeaderVerifies : IpPacket → Type 0
HeaderVerifies p = checksum (take p.ihl p.buf) ≡ 0

abbrev pub SegmentVerifies : IpPacket → Type 0
SegmentVerifies p = checksum (pseudo_header p (length (drop p.l4 p.buf)) ++ drop p.l4 p.buf) ≡ 0

-- The port that a packet has at an offset: none where the protocol has no ports.
abbrev pub port_at : IpPacket → ℕ → Option ℕ
port_at p off = if ported p.protocol then some (u16_at p.buf off) else none

read_port_lem :
    (p : IpPacket) (off k : ℕ)
    → off ≡ k
    → (ported p.protocol ≡ true → k + 2 ≤ length p.buf)
    → read_port p off ≡ ok (port_at p k)
unfolding read_port unpack_from_u16
read_port_lem p off k e h = elim (Bool-cases (ported p.protocol)) [
  | inl yes_ports ↦ rw (yes_ports, e, le→ltb (length p.buf) (k + 2) (h yes_ports))
  | inr no_ports ↦ rw no_ports
]

module _ (inet : Inet) (p : IpPacket) (h : IsIp p) where
  pub get_source_lem : get_source inet p ≡ ok (inet.ntoa (quad p.buf 12), port_at p p.ihl)
  unfolding get_source
  get_source_lem =
      rw
        (read_port_lem p (p.l4 + 0) p.ihl (omega (arith, h.transport))
          (λ k. omega (arith, h.ports k)))
        (ap (λ b. ok (inet.ntoa b, port_at p p.ihl))
          (take-drop-quad 12 p.buf (omega (arith, h.header_min, h.header_max))))

  pub get_destination_lem :
      get_destination inet p ≡ ok (inet.ntoa (quad p.buf 16), port_at p (p.ihl + 2))
  unfolding get_destination
  get_destination_lem =
      rw
        (read_port_lem p (p.l4 + 2) (p.ihl + 2) (omega (arith, h.transport))
          (λ k. omega (arith, h.ports k)))
        (ap (λ b. ok (inet.ntoa b, port_at p (p.ihl + 2)))
          (take-drop-quad 16 p.buf (omega (arith, h.header_min, h.header_max))))

-- The offsets of a field.
abbrev pub In : ℕ → ℕ → ℕ → Type 0
In off n i = (off ≤ i) × (i < off + n)

not-In : (off n i : ℕ) → ¬ In off n i → (i < off) ⊎ (off + n ≤ i)
not-In off n i h = elim (dec_lt i off) [
  | yes below ↦ inl below
  | no above ↦ elim (dec_lt i (off + n)) [
    | yes inside ↦ absurd (h (omega arith, inside))
    | no behind ↦ inr (omega arith)
  ]
]

pub Rewrites-write :
    (p : IpPacket) (off n : ℕ) (new : Bytes)
    → IsBytes p.buf
    → IsBytes new
    → length new ≡ n
    → Rewrites (In off n) p (record p { buf = write_at off new p.buf })
Rewrites-write p off n new h k e = record {
  same_ihl = refl;
  same_protocol = refl;
  same_l4 = refl;
  same_length = length-write_at off new p.buf;
  still_bytes = write_at-IsBytes off new p.buf k h;
  outside = λ i out.
      byte_at-write_at_outside off new p.buf i (let cases = not-In off n i out in omega arith);
}

pub Rewrites-refl : {t : ℕ → Type 0} {p : IpPacket} → IsBytes p.buf → Rewrites t p p
Rewrites-refl h = record {
  same_ihl = refl;
  same_protocol = refl;
  same_l4 = refl;
  same_length = refl;
  still_bytes = h;
  outside = λ i out. refl;
}

pub quad-outside :
    {t : ℕ → Type 0} {p q : IpPacket} (off : ℕ)
    → Rewrites t p q
    → ¬ t off
    → ¬ t (off + 1)
    → ¬ t (off + 2)
    → ¬ t (off + 3)
    → quad q.buf off ≡ quad p.buf off
quad-outside off r a b c d =
    rw (r.outside off a, r.outside (off + 1) b, r.outside (off + 2) c, r.outside (off + 3) d)

pub port_at-outside :
    {t : ℕ → Type 0} {p q : IpPacket} (off : ℕ)
    → Rewrites t p q
    → ¬ t off
    → ¬ t (off + 1)
    → port_at q off ≡ port_at p off
port_at-outside off r a b = rw (r.same_protocol, r.outside off a, r.outside (off + 1) b)
