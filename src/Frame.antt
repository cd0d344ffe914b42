-- ===== src/Frame.antt =====
-- Wire framing, alike in Server/VPNServer.py and Client/VPNClient.py: `_FrameReader`,
-- `_send_frame`, `_fragment`, and the reassembly at the start of `_handle_data`.
-- The socket is the list of what the rounds of `_fill` meet, in their order: a tick for a stop
-- request, a time-out, a failed `recv`, or a chunk that was received.
pub mod Reading
pub mod Fragments
use vpn_core.Base.{
  ℕ, zero, suc, ◌+◌, ◌-◌, ◌/◌, Bool, true, false, Option, none, some, List, [], ◌∷◌, ◌++◌,
}
use vpn_core.Base.Tests.{ltb, leb, if◌then◌else◌}
use vpn_core.Base.Lists.{length, take, drop}
use vpn_core.Base.Eq.{nat_eq}
use vpn_core.Base.Dict.{Dict, lookup, insert, delete}
use vpn_core.Base.Words.{Bytes, u16_at}
use vpn_core.Crypto.{cesar_shift, encode, decode}
use vpn_core.VpnPacket.{Parts, header_len}

pub data Tick : Type 0 where
  stop timed_out failed : Tick
  received : Bytes → Tick

-- How a loop over `_fill` ends: with enough bytes (the buffer and the ticks to come), at the end
-- of the connection, by `_Stopped`, or not at all within the ticks.
pub data Filled : Type 0 where
  filled : Bytes → List Tick → Filled
  closed : Bytes → List Tick → Filled
  stopped : Bytes → List Tick → Filled
  waiting : Bytes → Filled

-- `while len(self._buf) < n: if not self._fill(should_stop): return None`, where each tick is one
-- round of the loop inside `_fill`.
unfoldable pub fill_until : ℕ → Bytes → List Tick → Filled
fill_until n buf [] = if ltb (length buf) n then waiting buf else filled buf []
fill_until n buf (stop ∷ ticks) =
    if ltb (length buf) n then stopped buf ticks else filled buf (stop ∷ ticks)
fill_until n buf (timed_out ∷ ticks) =
    let rest = fill_until n buf ticks in
    if ltb (length buf) n then rest else filled buf (timed_out ∷ ticks)
fill_until n buf (failed ∷ ticks) =
    if ltb (length buf) n then closed buf ticks else filled buf (failed ∷ ticks)
fill_until n buf (received [] ∷ ticks) =
    if ltb (length buf) n then closed buf ticks else filled buf (received [] ∷ ticks)
fill_until n buf (received (b ∷ chunk) ∷ ticks) =
    let rest = fill_until n (buf ++ b ∷ chunk) ticks in
    if ltb (length buf) n then rest else filled buf (received (b ∷ chunk) ∷ ticks)

-- `read_packet`: a packet with the reader's state after it, or why there is none.
pub data Read : Type 0 where
  packet : Bytes → Bytes → List Tick → Read
  no_packet : Filled → Read

-- The cut of the frame from the buffer, at the end of `read_packet`.
abbrev pub cut_frame : ℕ → Bytes → List Tick → Read
cut_frame total buf ticks = packet (decode (take total buf) cesar_shift) (drop total buf) ticks

-- The length in the header says how many bytes the frame has.
abbrev pub frame_total : Bytes → ℕ
frame_total buf = header_len + u16_at (decode (take header_len buf) cesar_shift) 0

abbrev pub read_body : ℕ → Filled → Read
read_body total (filled buf ticks) = cut_frame total buf ticks
read_body total (closed buf ticks) = no_packet (closed buf ticks)
read_body total (stopped buf ticks) = no_packet (stopped buf ticks)
read_body total (waiting buf) = no_packet (waiting buf)

abbrev pub read_rest : Filled → Read
read_rest (filled buf ticks) =
    let total = frame_total buf in read_body total (fill_until total buf ticks)
read_rest (closed buf ticks) = no_packet (closed buf ticks)
read_rest (stopped buf ticks) = no_packet (stopped buf ticks)
read_rest (waiting buf) = no_packet (waiting buf)

unfoldable pub read_packet : Bytes → List Tick → Read
unfolding fill_until
read_packet buf ticks = read_rest (fill_until header_len buf ticks)

-- The reader of a receive loop: the packets of `n` calls, up to the first that gives none.
unfoldable pub read_packets : ℕ → Bytes → List Tick → List Bytes
unfolding read_packet
read_packets zero buf ticks = []
read_packets (suc n) buf ticks = elim (read_packet buf ticks) [
  | packet p buf' ticks' ↦ p ∷ read_packets n buf' ticks'
  | no_packet _ ↦ []
]

-- `_send_frame`: the bytes that `sendall` is given.
abbrev pub send_frame : Bytes → Bytes
send_frame p = encode p cesar_shift

abbrev pub max_data_payload : ℕ
max_data_payload = 65530

-- The loop of `_fragment` at index `i`, with the rounds that are left; `size` is the step.
unfoldable pub fragment_loop : ℕ → ℕ → ℕ → Bytes → List (Bytes × Bool)
fragment_loop size zero i payload = []
fragment_loop size (suc rounds) i payload =
    (take size (drop i payload), ltb (i + size) (length payload))
    ∷ fragment_loop size rounds (i + size) payload

-- `_fragment`: `range(0, len(payload), size)` has as many rounds as the rounded-up quotient.
unfoldable pub fragment : Bytes → List (Bytes × Bool)
unfolding fragment_loop
fragment payload =
    if leb (length payload) max_data_payload
    then (payload, false) ∷ []
    else fragment_loop max_data_payload ((length payload + max_data_payload - 1) / max_data_payload)
        0 payload

abbrev pub Reasm : Type 0
Reasm = Dict ℕ Bytes

-- `self._reasm.get(sid, b"")`.
abbrev pub pending_bytes : ℕ → Reasm → Bytes
pending_bytes sid reasm = elim (lookup sid reasm) [ none ↦ [] | some buf ↦ buf ]

-- The first lines of `_handle_data`: the new `_reasm`, and the whole datagram with its last piece.
unfoldable pub reassemble : Reasm → Parts → Reasm × Option Bytes
reassemble reasm parsed =
    let buf = pending_bytes parsed.session_id reasm ++ parsed.payload in
    if parsed.mtu_flag
    then (insert parsed.session_id buf reasm, none)
    else (delete parsed.session_id reasm, some buf)

-- The datagrams that a run of DATA packets gives.
unfoldable pub reassemble_all : Reasm → List Parts → Reasm × List Bytes
unfolding reassemble
reassemble_all reasm [] = (reasm, [])
reassemble_all reasm (p ∷ ps) =
    let (reasm', out) = reassemble reasm p in
    let (final, rest) = reassemble_all reasm' ps in
    (final, elim out [ none ↦ rest | some buf ↦ buf ∷ rest ])
