-- ===== src/Tests/Framing.antt =====
-- The frame reader and the fragments at concrete inputs.
use vpn_core.Base.{ℕ, ◌≡◌, refl, true, false, none, List, [], ◌∷◌, arith}
use vpn_core.Base.Eq.{nat_eq}
use vpn_core.Base.Dict.{lookup}
use vpn_core.Base.Words.{Bytes}
use vpn_core.Crypto.{encode, decode}
use vpn_core.Frame.{
  Tick, timed_out, received, read_packets, fragment_loop, fragment, reassemble_all,
}
use vpn_core.Frame.Reading.{read_packets-sent}
use vpn_core.Frame.Fragments.{data_parts, reassemble-fragment}

abbrev packets : List Bytes
packets = (0 ∷ 2 ∷ 7 ∷ 0 ∷ 9 ∷ 8 ∷ []) ∷ (0 ∷ 0 ∷ 16 ∷ 0 ∷ []) ∷ []

-- The frames of both, cut after the first byte and inside the second frame.
abbrev chunks : List Tick
chunks =
    received (5 ∷ [])
    ∷ timed_out
    ∷ received (7 ∷ 12 ∷ 5 ∷ 14 ∷ 13 ∷ 5 ∷ [])
    ∷ received (5 ∷ 21 ∷ 5 ∷ [])
    ∷ []

read_packets-sent_example : read_packets 2 [] chunks ≡ packets
unfolding encode
read_packets-sent_example = read_packets-sent packets [] chunks (omega arith) tt refl

read_run : read_packets 2 [] chunks ≡ packets
unfolding read_packets decode
read_run = refl

reassemble-fragment_example :
    ((reassemble_all [] (data_parts 3 (fragment (1 ∷ 2 ∷ [])))).1 ≡ (1 ∷ 2 ∷ []) ∷ [])
    × ((j : ℕ)
        → lookup j (reassemble_all [] (data_parts 3 (fragment (1 ∷ 2 ∷ [])))).0
          ≡ lookup {V = Bytes} j [])
unfolding lookup
reassemble-fragment_example = reassemble-fragment 3 (1 ∷ 2 ∷ []) [] refl

-- Five bytes in pieces of two.
loop_run :
    fragment_loop 2 3 0 (1 ∷ 2 ∷ 3 ∷ 4 ∷ 5 ∷ [])
    ≡ (1 ∷ 2 ∷ [], true) ∷ (3 ∷ 4 ∷ [], true) ∷ (5 ∷ [], false) ∷ []
unfolding fragment_loop
loop_run = refl

reassemble_run :
    (reassemble_all [] (data_parts 3 (fragment_loop 2 3 0 (1 ∷ 2 ∷ 3 ∷ 4 ∷ 5 ∷ [])))).1
    ≡ (1 ∷ 2 ∷ 3 ∷ 4 ∷ 5 ∷ []) ∷ []
unfolding fragment_loop reassemble_all lookup vpn_core.Base.Dict.insert vpn_core.Base.Dict.delete
reassemble_run = refl
