-- ===== src/VpnClient/Uplink.antt =====
-- A datagram on its way from `_send_loop` of Client/VPNClient.py to `_handle_data` of
-- Server/VPNServer.py: the pieces, their packets, their frames, and back.
use vpn_core.Base.{
  ℕ, suc, ◌≤◌, ◌≡◌, ◌∙◌, refl, sym, ap, subst, none, List, [], ◌∷◌, ◌++◌, Bool, map, arith,
}
use vpn_core.Base.Lists.{length, All}
use vpn_core.Base.Eq.{nat_eq}
use vpn_core.Base.Dict.{lookup}
use vpn_core.Base.Words.{Bytes, IsBytes}
use vpn_core.Base.Result.{ok, raise}
use vpn_core.VpnPacket.{Parts, data_code, parse_header_and_payload}
use vpn_core.VpnPacket.Header.{Fits, build-wire, header_byte_sum, parse-wire, wire}
use vpn_core.Frame.{Reasm, Tick, fragment, read_packets, reassemble_all, send_frame}
use vpn_core.Frame.Reading.{IsFramed, IsQuiet, read_packets-sent, sent, stream}
use vpn_core.Frame.Fragments.{
  IsFragmented, IsShort, data_parts, fragment-IsFragmented, joined, reassemble-fragment,
}
use vpn_core.VpnClient.{frames_of}

-- Byte strings, one after another.
abbrev pub run_together : List Bytes → Bytes
run_together [] = []
run_together (frame ∷ frames) = frame ++ run_together frames

-- What the parser makes of packets; those that it refuses are passed over.
abbrev pub parsed : List Bytes → List Parts
parsed [] = []
parsed (packet ∷ packets) = elim (parse_header_and_payload packet) [
  | raise e ↦ parsed packets
  | ok p ↦ p ∷ parsed packets
]

abbrev packets_of : ℕ → List (Bytes × Bool) → List Bytes
packets_of sid pieces = map wire (data_parts sid pieces)

IsBytes-left : (a b : Bytes) → IsBytes (a ++ b) → IsBytes a × IsBytes b
IsBytes-left [] b h = (tt, h)
IsBytes-left (x ∷ a) b h = let (front, back) = IsBytes-left a b h.1 in ((h.0, front), back)

module _ (sid : ℕ) (low : sid ≤ 7) where
  abbrev part : Bytes → Bool → Parts
  part piece more = record { code = data_code; session_id = sid; mtu_flag = more; payload = piece }

  part-Fits : (piece : Bytes) (more : Bool) → IsShort (piece, more) → Fits (part piece more)
  part-Fits piece more short = record {
    code_fits = omega arith;
    session_fits = omega arith;
    payload_fits = omega (arith, short);
  }

  wire-IsFramed :
      (piece : Bytes) (more : Bool)
      → IsShort (piece, more)
      → IsBytes piece
      → IsFramed (wire (part piece more))
  wire-IsFramed piece more short bytes = (
    (
      omega (arith, short),
      (
        omega arith,
        (
          ground (arith, header_byte_sum data_code sid more (omega arith) (omega arith)),
          (omega arith, bytes),
        ),
      ),
    ),
    omega arith,
    omega arith,
  )

  frames_of-packets :
      (pieces : List (Bytes × Bool))
      → All IsShort pieces
      → frames_of sid pieces ≡ (map send_frame (packets_of sid pieces), none)
  unfolding frames_of
  frames_of-packets [] short = refl
  frames_of-packets ((piece, more) ∷ pieces) short =
      rw
        (
          build-wire (part piece more) (part-Fits piece more short.0),
          frames_of-packets pieces short.1,
          frames_of,
        )
        refl

  packets-IsFramed :
      (pieces : List (Bytes × Bool))
      → All IsShort pieces
      → IsBytes (joined pieces)
      → All IsFramed (packets_of sid pieces)
  packets-IsFramed [] short bytes = tt
  packets-IsFramed ((piece, more) ∷ pieces) short bytes =
      let (front, back) = IsBytes-left piece (joined pieces) bytes in
      (wire-IsFramed piece more short.0 front, packets-IsFramed pieces short.1 back)

  parsed-packets :
      (pieces : List (Bytes × Bool))
      → All IsShort pieces
      → parsed (packets_of sid pieces) ≡ data_parts sid pieces
  parsed-packets [] short = refl
  parsed-packets ((piece, more) ∷ pieces) short =
      rw
        (
          parse-wire (part piece more) (part-Fits piece more short.0),
          parsed-packets pieces short.1,
          parsed,
        )
        refl

run_together-sent : (ps : List Bytes) → run_together (map send_frame ps) ≡ sent ps
run_together-sent [] = refl
run_together-sent (p ∷ ps) = ap (λ (t : Bytes). send_frame p ++ t) (run_together-sent ps)

length-frames : (ps : List Bytes) → length (map send_frame ps) ≡ length ps
length-frames [] = refl
length-frames (p ∷ ps) = ap suc (length-frames ps)

-- A byte string of any length, sent by a client with a session identifier up to 7: no builder raises,
-- and when the stream brings the frames in non-empty chunks with time-outs between them, as many
-- calls of `read_packet` as there are frames give packets that the parser accepts and that
-- `_handle_data` joins to that byte string, if nothing was pending for the session.
pub frames_of-reassemble_all :
    (sid : ℕ) (payload : Bytes) (reasm : Reasm) (ticks : List Tick)
    → sid ≤ 7
    → IsBytes payload
    → lookup sid reasm ≡ none
    → IsQuiet ticks
    → stream ticks ≡ run_together (frames_of sid (fragment payload)).0
    → ((frames_of sid (fragment payload)).1 ≡ none)
      × ((reassemble_all reasm
            (parsed (read_packets (length (frames_of sid (fragment payload)).0) [] ticks))).1
          ≡ payload ∷ [])
frames_of-reassemble_all sid payload reasm ticks low bytes fresh quiet arrives =
    let pieces : List (Bytes × Bool) = fragment payload in
    let f : IsFragmented payload pieces = fragment-IsFragmented payload in
    let packets : List Bytes = packets_of sid pieces in
    let made : frames_of sid pieces ≡ (map send_frame packets, none) =
      frames_of-packets sid low pieces f.short in
    let framed : All IsFramed packets =
      packets-IsFramed sid low pieces f.short (subst IsBytes (sym f.whole) bytes) in
    let read : read_packets (length packets) [] ticks ≡ packets =
      read_packets-sent packets [] ticks framed quiet
        (arrives ∙ ap (λ r. run_together r.0) made ∙ run_together-sent packets) in
    (
      ap (λ r. r.1) made,
      ap (λ n. (reassemble_all reasm (parsed (read_packets n [] ticks))).1)
            (ap (λ r. length r.0) made ∙ length-frames packets)
          ∙ ap (λ ps. (reassemble_all reasm (parsed ps)).1) read
          ∙ ap (λ ps. (reassemble_all reasm ps).1) (parsed-packets sid low pieces f.short)
          ∙ (reassemble-fragment sid payload reasm fresh).0,
    )
