-- ===== src/Frame/Fragments.antt =====
-- `_fragment` cuts a datagram into pieces that `_handle_data` puts together again.
use vpn_core.Base.{
  ℕ, zero, suc, ◌+◌, ◌-◌, ◌*◌, ◌/◌, ◌≤◌, ◌<◌, ◌≡◌, refl, sym, ap, ◌∙◌, subst, inl, inr, Bool, true,
  false, none, List, [], ◌∷◌, ◌++◌, append-nil, append_assoc, arith,
}
use vpn_core.Base.Tests.{
  leb, ◌==◌, if◌then◌else◌, Bool-cases, le→ltb, lt→ltb, ==_iff, leb→le, leb→lt,
}
use vpn_core.Base.Lists.{length, drop, All, length-take, take-append-drop, drop_of_le}
use vpn_core.Base.Eq.{nat_eq}
use vpn_core.Base.Dict.{lookup, insert, lookup-insert, lookup-delete}
use vpn_core.Base.Words.{Bytes}
use vpn_core.VpnPacket.{Parts, data_code}
use vpn_core.Frame.{fragment_loop, fragment, max_data_payload, Reasm, pending_bytes, reassemble_all}

abbrev pub joined : List (Bytes × Bool) → Bytes
joined [] = []
joined ((piece, more) ∷ pieces) = piece ++ joined pieces

-- At least one piece, and the flag for more pieces is set on all but the last.
abbrev pub IsChain : List (Bytes × Bool) → Type 0
IsChain [] = ⊥
IsChain ((piece, more) ∷ []) = more ≡ false
IsChain ((piece, more) ∷ next ∷ pieces) = (more ≡ true) × IsChain (next ∷ pieces)

abbrev pub IsShort : Bytes × Bool → Type 0
IsShort (piece, more) = length piece ≤ max_data_payload

drop-nil : (n : ℕ) → drop {A = ℕ} n [] ≡ []
drop-nil zero = refl
drop-nil (suc n) = refl

drop-drop : (m n k : ℕ) (xs : Bytes) → m + n ≡ k → drop n (drop m xs) ≡ drop k xs
drop-drop zero n k xs e = ap (λ t. drop t xs) (let e' : n ≡ k = omega arith in e')
drop-drop (suc m) n k [] e = drop-nil n ∙ sym (drop-nil k)
drop-drop (suc m) n zero (x ∷ xs) e = absurd (omega arith)
drop-drop (suc m) n (suc k) (x ∷ xs) e = drop-drop m n k xs (omega arith)

loop-joined :
    (size rounds i : ℕ) (payload : Bytes)
    → length payload ≤ i + rounds * size
    → joined (fragment_loop size rounds i payload) ≡ drop i payload
unfolding fragment_loop
loop-joined size zero i payload h = sym (drop_of_le i payload (omega arith))
loop-joined size (suc rounds) i payload h =
    rw
      (
        loop-joined size rounds (i + size) payload (omega arith),
        ← drop-drop i size (i + size) payload refl,
      )
      (take-append-drop size (drop i payload))

loop-IsChain :
    (size rounds i : ℕ) (payload : Bytes)
    → i + rounds * size < length payload
    → length payload ≤ i + suc rounds * size
    → IsChain (fragment_loop size (suc rounds) i payload)
unfolding fragment_loop
loop-IsChain size zero i payload h k = le→ltb (i + size) (length payload) (omega arith)
loop-IsChain size (suc rounds) i payload h k = (
  lt→ltb (i + size) (length payload) (omega arith),
  loop-IsChain size rounds (i + size) payload (omega arith) (omega arith),
)

loop-IsShort :
    (size rounds i : ℕ) (payload : Bytes)
    → size ≤ max_data_payload
    → All IsShort (fragment_loop size rounds i payload)
unfolding fragment_loop
loop-IsShort size zero i payload h = tt
loop-IsShort size (suc rounds) i payload h = (
  omega (arith, length-take size (drop i payload)),
  loop-IsShort size rounds (i + size) payload h,
)

pub record IsFragmented (payload : Bytes) (pieces : List (Bytes × Bool)) : Type 0 where
  pub whole : joined pieces ≡ payload
  pub chained : IsChain pieces
  pub short : All IsShort pieces

loop-IsFragmented :
    (size rounds : ℕ) (payload : Bytes)
    → size ≤ max_data_payload
    → rounds * size < length payload
    → length payload ≤ suc rounds * size
    → IsFragmented payload (fragment_loop size (suc rounds) 0 payload)
loop-IsFragmented size rounds payload h k l = record {
  whole = loop-joined size (suc rounds) 0 payload (omega arith);
  chained = loop-IsChain size rounds 0 payload (omega arith) (omega arith);
  short = loop-IsShort size (suc rounds) 0 payload h;
}

-- The pieces join to the payload, each fits a DATA packet, and all but the last are marked.
pub fragment-IsFragmented : (payload : Bytes) → IsFragmented payload (fragment payload)
unfolding fragment
fragment-IsFragmented payload = elim (Bool-cases (leb (length payload) max_data_payload)) [
  | inl small ↦
      rw (small, fragment)
        (record { whole = append-nil payload; chained = refl; short = (leb→le _ _ small, tt) })
  | inr big ↦
      let rounds = (length payload + max_data_payload - 1) / max_data_payload in
      let longer : max_data_payload < length payload = leb→lt _ _ big in
      let e : rounds ≡ suc (rounds - 1) = omega arith in
      rw (big, fragment)
        (subst (λ r. IsFragmented payload (fragment_loop max_data_payload r 0 payload)) (sym e)
          (loop-IsFragmented max_data_payload (rounds - 1) payload (omega arith) (omega arith)
            (omega arith)))
]

-- The DATA packets of the pieces, as the receiver parses them.
abbrev pub data_parts : ℕ → List (Bytes × Bool) → List Parts
data_parts sid [] = []
data_parts sid ((piece, more) ∷ pieces) =
    record { code = data_code; session_id = sid; mtu_flag = more; payload = piece }
    ∷ data_parts sid pieces

abbrev more_part : ℕ → Bytes → Parts
more_part sid piece = record {
  code = data_code;
  session_id = sid;
  mtu_flag = true;
  payload = piece;
}

reassemble_all-more :
    (sid : ℕ) (piece : Bytes) (ps : List Parts) (reasm : Reasm)
    → reassemble_all reasm (more_part sid piece ∷ ps)
      ≡ reassemble_all (insert sid (pending_bytes sid reasm ++ piece) reasm) ps
unfolding reassemble_all
reassemble_all-more sid piece ps reasm = refl

pending_bytes-insert :
    (sid : ℕ) (buf : Bytes) (reasm : Reasm) → pending_bytes sid (insert sid buf reasm) ≡ buf
pending_bytes-insert sid buf reasm = ground (arith, lookup-insert sid sid buf reasm)

erased-insert :
    (sid j : ℕ) (buf : Bytes) (reasm : Reasm)
    → (if sid == j then none else lookup j (insert sid buf reasm))
      ≡ (if sid == j then none else lookup j reasm)
erased-insert sid j buf reasm = ground (arith, lookup-insert sid j buf reasm)

-- The run over the pieces gives `whole`, and removes what was pending for the session.
abbrev Gives : ℕ → List (Bytes × Bool) → Reasm → Bytes → Type 0
Gives sid pieces reasm whole =
    ((reassemble_all reasm (data_parts sid pieces)).1 ≡ whole ∷ [])
    × ((j : ℕ)
        → lookup j (reassemble_all reasm (data_parts sid pieces)).0
          ≡ (if sid == j then none else lookup j reasm))

-- A chain of pieces gives one datagram, and only its session's entry changes.
reassemble-chain :
    (sid : ℕ) (pieces : List (Bytes × Bool)) (reasm : Reasm)
    → IsChain pieces
    → Gives sid pieces reasm (pending_bytes sid reasm ++ joined pieces)
unfolding reassemble_all
reassemble-chain sid [] reasm c = absurd c
reassemble-chain sid ((piece, true) ∷ []) reasm c = cc
reassemble-chain sid ((piece, false) ∷ []) reasm c = (
  ap (λ b. (pending_bytes sid reasm ++ b) ∷ []) (sym (append-nil piece)),
  λ j. lookup-delete sid j reasm,
)
reassemble-chain sid ((piece, false) ∷ next ∷ pieces) reasm c = cc
reassemble-chain sid ((piece, true) ∷ next ∷ pieces) reasm c =
    let buf = pending_bytes sid reasm ++ piece in
    let step = reassemble_all-more sid piece (data_parts sid (next ∷ pieces)) reasm in
    let rest = reassemble-chain sid (next ∷ pieces) (insert sid buf reasm) c.1 in
    (
      ap (λ r. r.1) step
          ∙ rest.0
          ∙ ap (λ b. b ∷ [])
              (rw (pending_bytes-insert sid buf reasm)
                (append_assoc (pending_bytes sid reasm) piece (joined (next ∷ pieces)))),
      λ j. ap (λ r. lookup j r.0) step ∙ rest.1 j ∙ erased-insert sid j buf reasm,
    )

pending_bytes_fresh :
    (sid : ℕ) (reasm : Reasm) → lookup sid reasm ≡ none → pending_bytes sid reasm ≡ []
pending_bytes_fresh sid reasm h = rw (h, pending_bytes)

-- The fragments of a datagram, received in their order for a session with nothing pending, give
-- that datagram, and the session has nothing pending again; no other session's bytes change.
pub reassemble-fragment :
    (sid : ℕ) (payload : Bytes) (reasm : Reasm)
    → lookup sid reasm ≡ none
    → ((reassemble_all reasm (data_parts sid (fragment payload))).1 ≡ payload ∷ [])
      × ((j : ℕ)
          → lookup j (reassemble_all reasm (data_parts sid (fragment payload))).0 ≡ lookup j reasm)
reassemble-fragment sid payload reasm fresh = (
  chain.0 ∙ ap (λ b. b ∷ []) (rw (pending_bytes_fresh sid reasm fresh) f.whole),
  λ j. chain.1 j ∙ unchanged j,
)
  where
    f : IsFragmented payload (fragment payload)
    f = fragment-IsFragmented payload

    chain :
        Gives sid (fragment payload) reasm (pending_bytes sid reasm ++ joined (fragment payload))
    chain = reassemble-chain sid (fragment payload) reasm f.chained

    unchanged : (j : ℕ) → (if sid == j then none else lookup j reasm) ≡ lookup j reasm
    unchanged j = elim (Bool-cases (sid == j)) [
      | inl same ↦ rw same (sym (subst (λ k. lookup k reasm ≡ none) ((==_iff sid j).0 same) fresh))
      | inr other ↦ rw other
    ]
