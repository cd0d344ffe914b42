-- ===== src/Packet/Segment.antt =====
-- The transport checksum: over the pseudo-header and the segment, at the offset of the protocol.
use vpn_core.Base.{
  ℕ, ◌+◌, ◌-◌, ◌%◌, ◌≤◌, ◌<◌, ◌≡◌, refl, sym, ap, ap₂, ◌∙◌, ◌⊎◌, [], ◌∷◌, ◌++◌, arith,
}
use vpn_core.Base.Tests.{◌==◌, if◌then◌else◌, le→leb}
use vpn_core.Base.Lists.{
  length, take, drop, All-append, All-take, All-drop, length-append, length-take, length-drop,
}
use vpn_core.Base.Words.{
  Bytes, IsBytes, byte_at-lt, pack_u16, pack_into_u16, write_at, length-write_at, write_at-IsBytes,
}
use vpn_core.Base.Slices.{take-write_at_outside, drop-write_at_inside}
use vpn_core.Base.Result.{ok}
use vpn_core.Packet.{IpPacket, tcp, checksum, pseudo_header, recalc_l4_checksum, shown_checksum}
use vpn_core.Packet.Checksum.{word_sum, checksum_sum, checksum-lt, checksum-write, double}
use vpn_core.Packet.Layout.{
  IsIp, Rewrites, Rewrites-write, Rewrites-trans, In, HeaderVerifies, SegmentVerifies,
}
use vpn_core.Packet.Recalc.{pack_into_u16_fits, pack_u16-IsBytes, write_at-append}

abbrev pub with_buf : IpPacket → Bytes → IpPacket
with_buf p buf = record p { buf = buf }

-- The checksum's offset in the segment.
abbrev pub checksum_offset : ℕ → ℕ
checksum_offset protocol = if protocol == tcp then 16 else 6

window-write :
    (lo off : ℕ) (new buf : Bytes)
    → lo + 4 ≤ off
    → take 4 (drop lo (write_at off new buf)) ≡ take 4 (drop lo buf)
window-write lo off new buf h =
    ap (take 4) (drop-write_at_inside lo off (off - lo) new buf (omega arith))
    ∙ take-write_at_outside 4 (off - lo) new (drop lo buf) (omega arith)

pseudo_header-write :
    (p : IpPacket) (off n : ℕ) (new buf : Bytes)
    → 20 ≤ off
    → pseudo_header (with_buf p (write_at off new buf)) n ≡ pseudo_header (with_buf p buf) n
unfolding pseudo_header
pseudo_header-write p off n new buf h =
    ap₂ (λ (a b : Bytes). a ++ (b ++ (0 ∷ p.protocol ∷ pack_u16 n)))
      (window-write 12 off new buf (omega arith)) (window-write 16 off new buf (omega arith))

length-pseudo_header : (p : IpPacket) (n : ℕ) → 20 ≤ length p.buf → length (pseudo_header p n) ≡ 12
unfolding pseudo_header
length-pseudo_header p n h = omega (
  arith,
  length-append (take 4 (drop 12 p.buf)) (take 4 (drop 16 p.buf) ++ (0 ∷ p.protocol ∷ pack_u16 n)),
  length-append (take 4 (drop 16 p.buf)) (0 ∷ p.protocol ∷ pack_u16 n),
  length-take 4 (drop 12 p.buf),
  length-take 4 (drop 16 p.buf),
  length-drop 12 p.buf,
  length-drop 16 p.buf,
)

pseudo_header-IsBytes : (p : IpPacket) (n : ℕ) → IsIp p → n < 65536 → IsBytes (pseudo_header p n)
unfolding pseudo_header
pseudo_header-IsBytes p n h fits =
    All-append _ (take 4 (drop 12 p.buf)) _ (All-take _ 4 _ (All-drop _ 12 p.buf h.bytes)) (
      All-append _ (take 4 (drop 16 p.buf)) _ (All-take _ 4 _ (All-drop _ 16 p.buf h.bytes))
        (omega (arith, h.kind, byte_at-lt p.buf 9 h.bytes)))

shown_sum :
    (protocol csum total : ℕ)
    → csum < 65536
    → (total + csum) % 65535 ≡ 0
    → 0 < total + csum
    → (shown_checksum protocol csum < 65536)
      × ((total + shown_checksum protocol csum) % 65535 ≡ 0)
      × (0 < total + shown_checksum protocol csum)
shown_sum protocol csum total small whole positive = ground arith

-- The steps of the method, from what each gives.
recalc_l4_steps :
    (p : IpPacket) (off csum : ℕ) (cleared buf : Bytes)
    → off ≡ p.l4 + checksum_offset p.protocol
    → pack_into_u16 p.buf off 0 ≡ ok cleared
    → length (drop p.l4 cleared) ≤ 65535
    → checksum
        (pseudo_header (with_buf p cleared) (length (drop p.l4 cleared)) ++ drop p.l4 cleared)
      ≡ csum
    → pack_into_u16 cleared off (shown_checksum p.protocol csum) ≡ ok buf
    → recalc_l4_checksum p ≡ ok (with_buf p buf)
unfolding recalc_l4_checksum
recalc_l4_steps p off csum cleared buf at first small sum second =
    rw (← at, first, le→leb (length (drop p.l4 cleared)) 65535 small, sum, second)

-- The block that is summed, with the checksum field cleared.
abbrev pub block_cleared : ℕ → IpPacket → Bytes
block_cleared o p =
    pseudo_header p (length (drop p.l4 p.buf)) ++ write_at o (0 ∷ 0 ∷ []) (drop p.l4 p.buf)

abbrev pub segment_done : ℕ → IpPacket → IpPacket
segment_done o p = with_buf p (
    write_at (p.l4 + o) (pack_u16 (shown_checksum p.protocol (checksum (block_cleared o p))))
      (write_at (p.l4 + o) (0 ∷ 0 ∷ []) p.buf))

module _ (p : IpPacket) (h : IsIp p) (o k : ℕ) (even : double k ≡ 12 + o)
    (fits : p.ihl + o + 2 ≤ length p.buf) (small : length (drop p.l4 p.buf) < 65536) where
  abbrev segment : Bytes
  segment = drop p.l4 p.buf

  abbrev front : Bytes
  front = pseudo_header p (length segment)

  abbrev shown : ℕ
  shown = shown_checksum p.protocol (checksum (block_cleared o p))

  length-front : length front ≡ 12
  length-front = length-pseudo_header p (length segment) (omega (arith, h.header_min, h.header_max))

  front-IsBytes : IsBytes front
  front-IsBytes = pseudo_header-IsBytes p (length segment) h small

  segment-IsBytes : IsBytes segment
  segment-IsBytes = All-drop _ p.l4 p.buf h.bytes

  block_cleared-write : block_cleared o p ≡ write_at (double k) (0 ∷ 0 ∷ []) (front ++ segment)
  block_cleared-write =
      sym (
        write_at-append (0 ∷ 0 ∷ []) front segment o (double k) (omega (arith, even, length-front)))

  cleared-IsBytes : IsBytes (block_cleared o p)
  cleared-IsBytes =
      All-append _ front _ front-IsBytes
        (write_at-IsBytes o (0 ∷ 0 ∷ []) segment (omega arith) segment-IsBytes)

  sums :
      (shown < 65536)
      × ((word_sum (block_cleared o p) + shown) % 65535 ≡ 0)
      × (0 < word_sum (block_cleared o p) + shown)
  sums =
      let (whole, positive) = checksum_sum (block_cleared o p) cleared-IsBytes in
      shown_sum p.protocol (checksum (block_cleared o p)) (word_sum (block_cleared o p))
        (checksum-lt (block_cleared o p)) whole positive

  segment_final :
      drop p.l4 (segment_done o p).buf
      ≡ write_at o (pack_u16 shown) (write_at o (0 ∷ 0 ∷ []) segment)
  segment_final =
      drop-write_at_inside p.l4 (p.l4 + o) o (pack_u16 shown)
        (write_at (p.l4 + o) (0 ∷ 0 ∷ []) p.buf) refl
      ∙ ap (write_at o (pack_u16 shown))
          (drop-write_at_inside p.l4 (p.l4 + o) o (0 ∷ 0 ∷ []) p.buf refl)

  length-segment_final : length (drop p.l4 (segment_done o p).buf) ≡ length segment
  length-segment_final =
      ap length segment_final
      ∙ length-write_at o (pack_u16 shown) (write_at o (0 ∷ 0 ∷ []) segment)
      ∙ length-write_at o (0 ∷ 0 ∷ []) segment

  front_final : pseudo_header (segment_done o p) (length (drop p.l4 (segment_done o p).buf)) ≡ front
  front_final =
      ap (pseudo_header (segment_done o p)) length-segment_final
      ∙ pseudo_header-write p (p.l4 + o) (length segment) (pack_u16 shown)
          (write_at (p.l4 + o) (0 ∷ 0 ∷ []) p.buf) behind
      ∙ pseudo_header-write p (p.l4 + o) (length segment) (0 ∷ 0 ∷ []) p.buf behind
    where
      behind : 20 ≤ p.l4 + o
      behind = omega (arith, h.header_min, h.transport)

  pub segment_done-Verifies : SegmentVerifies (segment_done o p)
  segment_done-Verifies =
      ap checksum (
        ap₂ ◌++◌ front_final segment_final
        ∙ sym (
            write_at-append (pack_u16 shown) front (write_at o (0 ∷ 0 ∷ []) segment) o (double k)
              (omega (arith, even, length-front))))
      ∙ checksum-write k shown (front ++ segment) (block_cleared o p)
          (All-append _ front segment front-IsBytes segment-IsBytes)
          (omega (
            arith,
            even,
            length-append front segment,
            length-front,
            length-drop p.l4 p.buf,
            h.transport,
          ))
          block_cleared-write sums.0 sums.1 sums.2

  pub segment_done-Rewrites :
      Rewrites (λ i. In (p.l4 + o) 2 i ⊎ In (p.l4 + o) 2 i) p (segment_done o p)
  segment_done-Rewrites =
      Rewrites-trans (Rewrites-write p (p.l4 + o) 2 (0 ∷ 0 ∷ []) h.bytes (omega arith) refl) (
        Rewrites-write (with_buf p (write_at (p.l4 + o) (0 ∷ 0 ∷ []) p.buf)) (p.l4 + o) 2
          (pack_u16 shown) (write_at-IsBytes (p.l4 + o) (0 ∷ 0 ∷ []) p.buf (omega arith) h.bytes)
          (pack_u16-IsBytes shown sums.0) refl)

  -- The header lies before the segment.
  pub segment_done-header : HeaderVerifies p → HeaderVerifies (segment_done o p)
  segment_done-header v =
      ap checksum (
        take-write_at_outside p.ihl (p.l4 + o) (pack_u16 shown)
          (write_at (p.l4 + o) (0 ∷ 0 ∷ []) p.buf) (omega (arith, h.transport))
        ∙ take-write_at_outside p.ihl (p.l4 + o) (0 ∷ 0 ∷ []) p.buf (omega (arith, h.transport)))
      ∙ v

  pub recalc_l4_done : o ≡ checksum_offset p.protocol → recalc_l4_checksum p ≡ ok (segment_done o p)
  recalc_l4_done at =
      recalc_l4_steps p (p.l4 + o) (checksum (block_cleared o p)) cleared _ (ap (λ t. p.l4 + t) at)
        (pack_into_u16_fits p.buf (p.l4 + o) 0 (omega (arith, h.transport)) (omega arith))
        (omega (arith, length_cleared)) (ap checksum (ap₂ ◌++◌ front_cleared segment_cleared))
        (pack_into_u16_fits cleared (p.l4 + o) shown
          (omega (arith, h.transport, length-write_at (p.l4 + o) (0 ∷ 0 ∷ []) p.buf)) sums.0)
    where
      cleared : Bytes
      cleared = write_at (p.l4 + o) (0 ∷ 0 ∷ []) p.buf

      segment_cleared : drop p.l4 cleared ≡ write_at o (0 ∷ 0 ∷ []) segment
      segment_cleared = drop-write_at_inside p.l4 (p.l4 + o) o (0 ∷ 0 ∷ []) p.buf refl

      length_cleared : length (drop p.l4 cleared) ≡ length segment
      length_cleared = ap length segment_cleared ∙ length-write_at o (0 ∷ 0 ∷ []) segment

      front_cleared : pseudo_header (with_buf p cleared) (length (drop p.l4 cleared)) ≡ front
      front_cleared =
          ap (pseudo_header (with_buf p cleared)) length_cleared
          ∙ pseudo_header-write p (p.l4 + o) (length segment) (0 ∷ 0 ∷ []) p.buf
              (omega (arith, h.header_min, h.transport))
