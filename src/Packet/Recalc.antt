-- ===== src/Packet/Recalc.antt =====
-- The recomputation of the checksums: what it writes, and that the checksums then verify.
use vpn_core.Base.{ℕ, zero, suc, ◌+◌, ◌%◌, ◌≤◌, ◌<◌, ◌≡◌, refl, ap, ◌∙◌, ◌⊎◌, [], ◌∷◌, ◌++◌, arith}
use vpn_core.Base.Lists.{length, take, set, All-take, length-take}
use vpn_core.Base.Words.{
  Bytes, IsBytes, pack_u16, pack_into_u16, write_at, length-write_at, write_at-IsBytes,
}
use vpn_core.Base.Slices.{take-write_at_inside}
use vpn_core.Base.Result.{ok, raise, struct_error}
use vpn_core.Packet.{IpPacket, checksum, recalc_ip_checksum}
use vpn_core.Packet.Checksum.{word_sum, checksum_sum, checksum-lt, checksum-write}
use vpn_core.Packet.Layout.{IsIp, Rewrites, Rewrites-write, Rewrites-trans, In, HeaderVerifies}

-- `pack_into` writes where the field fits the buffer and the value fits the field.
pub pack_into_u16_fits :
    (buf : Bytes) (off v : ℕ)
    → off + 2 ≤ length buf
    → v < 65536
    → pack_into_u16 buf off v ≡ ok (write_at off (pack_u16 v) buf)
unfolding pack_into_u16
pack_into_u16_fits buf off v h k = ground arith

pub pack_into_u16_short :
    (buf : Bytes) (off v : ℕ) → length buf < off + 2 → pack_into_u16 buf off v ≡ raise struct_error
unfolding pack_into_u16
pack_into_u16_short buf off v h = ground arith

pub pack_u16-IsBytes : (v : ℕ) → v < 65536 → IsBytes (pack_u16 v)
pack_u16-IsBytes v h = omega arith

-- Writing behind a prefix.
set-append : (xs ys : Bytes) (i j v : ℕ) → length xs + i ≡ j → set (xs ++ ys) j v ≡ xs ++ set ys i v
set-append [] ys i j v e = ap (λ k. set ys k v) (let e' : j ≡ i = omega arith in e')
set-append (x ∷ xs) ys i zero v e = absurd (omega arith)
set-append (x ∷ xs) ys i (suc j) v e = ap (◌∷◌ x) (set-append xs ys i j v (omega arith))

pub write_at-append :
    (new xs ys : Bytes) (i j : ℕ)
    → length xs + i ≡ j
    → write_at j new (xs ++ ys) ≡ xs ++ write_at i new ys
unfolding write_at
write_at-append [] xs ys i j e = refl
write_at-append (b ∷ new) xs ys i j e =
    ap (write_at (j + 1) new) (set-append xs ys i j b e)
    ∙ write_at-append new xs (set ys i b) (i + 1) (j + 1) (omega arith)

-- The header with its checksum.
abbrev pub header_cleared : IpPacket → Bytes
header_cleared p = write_at 10 (0 ∷ 0 ∷ []) p.buf

abbrev pub header_done : IpPacket → IpPacket
header_done p = record p {
  buf = write_at 10 (pack_u16 (checksum (take p.ihl (header_cleared p)))) (header_cleared p);
}

pub header_done_lem : (p : IpPacket) → IsIp p → recalc_ip_checksum p ≡ ok (header_done p)
unfolding recalc_ip_checksum
header_done_lem p h = rw (
    pack_into_u16_fits (header_cleared p) 10 (checksum (take p.ihl (header_cleared p)))
      (omega (arith, length-write_at 10 (0 ∷ 0 ∷ []) p.buf, h.header_min, h.header_max))
      (checksum-lt (take p.ihl (header_cleared p))))

header_cleared-IsBytes : (p : IpPacket) → IsIp p → IsBytes (header_cleared p)
header_cleared-IsBytes p h = write_at-IsBytes 10 (0 ∷ 0 ∷ []) p.buf (omega arith) h.bytes

pub header_done-Verifies : (p : IpPacket) → IsIp p → HeaderVerifies (header_done p)
header_done-Verifies p h =
    ap checksum (
      take-write_at_inside p.ihl 10 (pack_u16 csum) (header_cleared p)
        (omega (arith, h.header_min)))
    ∙ checksum-write 5 csum (take p.ihl p.buf) block (All-take _ p.ihl p.buf h.bytes)
        (omega (arith, length-take p.ihl p.buf, h.header_min, h.header_max))
        (take-write_at_inside p.ihl 10 (0 ∷ 0 ∷ []) p.buf (omega (arith, h.header_min)))
        (checksum-lt block) sums.0 sums.1
  where
    block : Bytes
    block = take p.ihl (header_cleared p)

    csum : ℕ
    csum = checksum block

    sums : ((word_sum block + csum) % 65535 ≡ 0) × (0 < word_sum block + csum)
    sums = checksum_sum block (All-take _ p.ihl (header_cleared p) (header_cleared-IsBytes p h))

pub header_done-Rewrites :
    (p : IpPacket) → IsIp p → Rewrites (λ i. In 10 2 i ⊎ In 10 2 i) p (header_done p)
header_done-Rewrites p h =
    Rewrites-trans (Rewrites-write p 10 2 (0 ∷ 0 ∷ []) h.bytes (omega arith) refl) (
      Rewrites-write (record p { buf = header_cleared p }) 10 2 _ (header_cleared-IsBytes p h)
        (pack_u16-IsBytes _ (checksum-lt (take p.ihl (header_cleared p)))) refl)
