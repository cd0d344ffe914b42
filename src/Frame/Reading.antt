-- ===== src/Frame/Reading.antt =====
-- `read_packet` gives the packets that were sent, however the stream is cut into chunks.
use vpn_core.Base.{
  ℕ, ◌+◌, ◌≤◌, ◌≡◌, refl, sym, ap, ◌∙◌, subst, inl, inr, List, [], ◌∷◌, ◌++◌, append_assoc, arith,
}
use vpn_core.Base.Tests.{ltb, Bool-cases, ltb→le}
use vpn_core.Base.Lists.{
  length, take, drop, All, length-append, drop-append, take-append_le, drop-append_le, take_of_le,
  All-take,
}
use vpn_core.Base.Words.{Bytes, IsBytes, u16_at}
use vpn_core.Crypto.{cesar_shift, encode}
use vpn_core.Crypto.Laws.{length-encode, cesar_inverse, take-encode}
use vpn_core.VpnPacket.{header_len}
use vpn_core.Frame.{
  Tick, stop, timed_out, failed, received, Filled, filled, fill_until, Read, packet, read_rest,
  cut_frame, read_packet, read_packets, send_frame, frame_total,
}

-- The bytes that the ticks bring.
abbrev pub stream : List Tick → Bytes
stream [] = []
stream (received chunk ∷ ticks) = chunk ++ stream ticks
stream (_ ∷ ticks) = stream ticks

-- Nothing but chunks of at least one byte, and time-outs.
abbrev pub IsQuiet : List Tick → Type 0
IsQuiet [] = Unit
IsQuiet (timed_out ∷ ticks) = IsQuiet ticks
IsQuiet (received (b ∷ chunk) ∷ ticks) = IsQuiet ticks
IsQuiet (_ ∷ ticks) = ⊥

-- The loop ends with enough bytes, and loses none.
pub record IsFilled (n : ℕ) (all : Bytes) (r : Filled) : Type 0 where
  pub buf : Bytes
  pub ticks : List Tick
  pub returns : r ≡ filled buf ticks
  pub keeps : buf ++ stream ticks ≡ all
  pub enough : n ≤ length buf
  pub quiet : IsQuiet ticks

filled_now :
    (n : ℕ) (buf : Bytes) (ticks : List Tick) (r : Filled)
    → r ≡ filled buf ticks
    → n ≤ length buf
    → IsQuiet ticks
    → IsFilled n (buf ++ stream ticks) r
filled_now n buf ticks r e h q = record {
  buf = buf;
  ticks = ticks;
  returns = e;
  keeps = refl;
  enough = h;
  quiet = q;
}

pub fill_until-IsFilled :
    (n : ℕ) (buf : Bytes) (ticks : List Tick)
    → IsQuiet ticks
    → n ≤ length (buf ++ stream ticks)
    → IsFilled n (buf ++ stream ticks) (fill_until n buf ticks)
unfolding fill_until
fill_until-IsFilled n buf [] q h =
    filled_now n buf [] _ (ground (arith, length-append buf []))
      (omega (arith, length-append buf [])) tt
fill_until-IsFilled n buf (stop ∷ ticks) q h = absurd q
fill_until-IsFilled n buf (failed ∷ ticks) q h = absurd q
fill_until-IsFilled n buf (received [] ∷ ticks) q h = absurd q
fill_until-IsFilled n buf (timed_out ∷ ticks) q h = elim (Bool-cases (ltb (length buf) n)) [
  | inl short ↦ rw short (fill_until-IsFilled n buf ticks q h)
  | inr long ↦ rw long (filled_now n buf (timed_out ∷ ticks) _ refl (ltb→le _ _ long) q)
]
fill_until-IsFilled n buf (received (b ∷ chunk) ∷ ticks) q h =
    elim (Bool-cases (ltb (length buf) n)) [
      | inl short ↦ rw short (
          let regroup = append_assoc buf (b ∷ chunk) (stream ticks) in
          subst (λ all. IsFilled n all (fill_until n (buf ++ b ∷ chunk) ticks)) regroup
            (fill_until-IsFilled n (buf ++ b ∷ chunk) ticks q (rw regroup h)))
      | inr long ↦
          rw long (filled_now n buf (received (b ∷ chunk) ∷ ticks) _ refl (ltb→le _ _ long) q)
    ]

-- The header's length field is the packet's own.
abbrev pub IsFramed : Bytes → Type 0
IsFramed p = IsBytes p × (header_len ≤ length p) × (length p ≡ header_len + u16_at p 0)

prefix-take :
    (n : ℕ) (buf later p rest : Bytes)
    → n ≤ length buf
    → n ≤ length p
    → buf ++ later ≡ p ++ rest
    → take n buf ≡ take n p
prefix-take n buf later p rest h k e =
    sym (take-append_le n buf later h) ∙ ap (take n) e ∙ take-append_le n p rest k

u16_at-take : (p : Bytes) → header_len ≤ length p → u16_at (take header_len p) 0 ≡ u16_at p 0
u16_at-take (a ∷ b ∷ p) h = refl
u16_at-take _ h = absurd (omega arith)

pub frame_total_lem :
    (buf later p rest : Bytes)
    → IsFramed p
    → header_len ≤ length buf
    → buf ++ later ≡ send_frame p ++ rest
    → frame_total buf ≡ length p
frame_total_lem buf later p rest (bytes, long, framed) h e =
    rw (header, (cesar_inverse (take header_len p) cesar_shift (All-take _ header_len p bytes)).0)
      (omega (arith, u16_at-take p long))
  where
    header : take header_len buf ≡ encode (take header_len p) cesar_shift
    header =
        prefix-take header_len buf later (send_frame p) rest h
          (omega (arith, length-encode p cesar_shift)) e
        ∙ take-encode header_len p cesar_shift

-- One call of `read_packet` on a stream that starts with a frame.
pub record IsRead (p rest : Bytes) (r : Read) : Type 0 where
  pub buf : Bytes
  pub ticks : List Tick
  pub returns : r ≡ packet p buf ticks
  pub keeps : buf ++ stream ticks ≡ rest
  pub quiet : IsQuiet ticks

-- Once the buffer holds the frame, its cut is the packet and the bytes behind it.
IsRead-cut :
    (buf : Bytes) (ticks : List Tick) (p rest : Bytes)
    → IsQuiet ticks
    → IsFramed p
    → length p ≤ length buf
    → buf ++ stream ticks ≡ send_frame p ++ rest
    → IsRead p rest (cut_frame (length p) buf ticks)
IsRead-cut buf ticks p rest q framed h e = record {
  buf = drop (length p) buf;
  ticks = ticks;
  returns = rw (frame, (cesar_inverse p cesar_shift framed.0).0);
  keeps =
      sym (drop-append_le (length p) buf (stream ticks) h)
      ∙ ap (drop (length p)) e
      ∙ drop-append (length p) (send_frame p) rest (length-encode p cesar_shift);
  quiet = q;
}
  where
    frame : take (length p) buf ≡ send_frame p
    frame =
        prefix-take (length p) buf (stream ticks) (send_frame p) rest h
          (omega (arith, length-encode p cesar_shift)) e
        ∙ take_of_le (length p) (send_frame p) (omega (arith, length-encode p cesar_shift))

read_packet_lem :
    (buf : Bytes) (ticks : List Tick)
    → read_packet buf ticks ≡ read_rest (fill_until header_len buf ticks)
unfolding read_packet
read_packet_lem buf ticks = refl

read_rest-IsRead :
    (buf : Bytes) (ticks : List Tick) (p rest : Bytes)
    → IsQuiet ticks
    → IsFramed p
    → header_len ≤ length buf
    → buf ++ stream ticks ≡ send_frame p ++ rest
    → IsRead p rest (read_rest (filled buf ticks))
read_rest-IsRead buf ticks p rest q framed h e =
    rw (frame_total_lem buf (stream ticks) p rest framed h e, body.returns)
      (IsRead-cut body.buf body.ticks p rest body.quiet framed body.enough (body.keeps ∙ e))
  where
    body : IsFilled (length p) (buf ++ stream ticks) (fill_until (length p) buf ticks)
    body =
        fill_until-IsFilled (length p) buf ticks q (
          omega
            (arith, ap length e, length-append (send_frame p) rest, length-encode p cesar_shift))

pub read_packet-IsRead :
    (buf : Bytes) (ticks : List Tick) (p rest : Bytes)
    → IsQuiet ticks
    → IsFramed p
    → buf ++ stream ticks ≡ send_frame p ++ rest
    → IsRead p rest (read_packet buf ticks)
read_packet-IsRead buf ticks p rest q framed e =
    rw (read_packet_lem buf ticks, header.returns)
      (read_rest-IsRead header.buf header.ticks p rest header.quiet framed header.enough
        (header.keeps ∙ e))
  where
    header : IsFilled header_len (buf ++ stream ticks) (fill_until header_len buf ticks)
    header =
        fill_until-IsFilled header_len buf ticks q (
          omega
            (arith, ap length e, length-append (send_frame p) rest, length-encode p cesar_shift))

-- The bytes of the frames of some packets, one after another.
abbrev pub sent : List Bytes → Bytes
sent [] = []
sent (p ∷ ps) = send_frame p ++ sent ps

-- As many calls of `read_packet` as packets were sent give those packets in their order, whatever
-- the sizes of the chunks and however many time-outs come between them.
pub read_packets-sent :
    (ps : List Bytes) (buf : Bytes) (ticks : List Tick)
    → All IsFramed ps
    → IsQuiet ticks
    → buf ++ stream ticks ≡ sent ps
    → read_packets (length ps) buf ticks ≡ ps
unfolding read_packets
read_packets-sent [] buf ticks framed q e = refl
read_packets-sent (p ∷ ps) buf ticks framed q e =
    rw (one.returns, read_packets)
      (ap (◌∷◌ p) (read_packets-sent ps one.buf one.ticks framed.1 one.quiet one.keeps))
  where
    one : IsRead p (sent ps) (read_packet buf ticks)
    one = read_packet-IsRead buf ticks p (sent ps) q framed.0 e
