-- ===== src/Dns/Names.antt =====
-- Names in DNS messages: what `_parse_name` of Server/DNSCache.py reads of a name's labels, and of a
-- pointer.
use vpn_core.Base.{
  ℕ, zero, suc, ◌+◌, ◌/◌, ◌%◌, Option, none, some, ◌≤◌, ◌<◌, ◌≡◌, ◌∙◌, sym, ap, refl, true, false,
  List, [], ◌∷◌, ◌++◌, map, bit_or, append_assoc, arith,
}
use vpn_core.Base.Tests.{leb, ltb, ◌==◌}
use vpn_core.Base.Lists.{
  length, length-append, length-drop, take, drop, take-append, drop-append, All,
}
use vpn_core.Base.Bits.{shr, shl, low_bits}
use vpn_core.Base.Slices.{byte_at-drop, drop-drop}
use vpn_core.Base.Words.{Bytes, byte_at}
use vpn_core.Base.Text.{Text}
use vpn_core.Dns.{name_loop, parse_name, decode_label, join}

-- A label of a name: 1 to 63 bytes.
abbrev pub IsLabel : Bytes → Type 0
IsLabel label = (1 ≤ length label) × (length label ≤ 63)

-- A name as RFC 1035 writes it.
unfoldable pub name_bytes : List Bytes → Bytes
name_bytes [] = 0 ∷ []
name_bytes (label ∷ labels) = length label ∷ label ++ name_bytes labels

-- After a jump, the end of the name stays where the pointer was.
name_loop-jumped :
    (steps : ℕ) (bytes : Bytes) (offset next_offset : ℕ)
    → (name_loop steps bytes offset true next_offset).1 ≡ next_offset
unfolding name_loop
name_loop-jumped zero bytes offset next_offset = refl
name_loop-jumped (suc steps) bytes offset next_offset = ground (
  arith,
  name_loop-jumped steps bytes
      (bit_or (shl (low_bits (byte_at bytes offset) 6) 8) (byte_at bytes (offset + 1))) next_offset,
  name_loop-jumped steps bytes (offset + 1 + byte_at bytes offset) next_offset,
)

-- What stands at an offset, as the code looks at it.
pub byte_at_of :
    (bytes rest : Bytes) (offset i : ℕ)
    → drop offset bytes ≡ rest
    → byte_at bytes (offset + i) ≡ byte_at rest i
byte_at_of bytes rest offset i e = rw (← e) (sym (byte_at-drop offset i (offset + i) bytes refl))

pub length_of :
    (bytes rest : Bytes) (offset : ℕ)
    → drop offset bytes ≡ rest
    → 1 ≤ length rest
    → length bytes ≡ offset + length rest
length_of bytes rest offset e some_left =
    omega (arith, length-drop offset bytes, ap (λ (t : Bytes). length t) e)

first_at :
    (bytes rest : Bytes) (offset b : ℕ) → drop offset bytes ≡ b ∷ rest → byte_at bytes offset ≡ b
first_at bytes rest offset b e =
    ap (byte_at bytes) {x = offset} {y = offset + 0} (omega arith)
    ∙ byte_at_of bytes (b ∷ rest) offset 0 e

drop-label :
    (label bytes tail : Bytes) (offset : ℕ)
    → drop offset bytes ≡ length label ∷ label ++ tail
    → drop (offset + 1 + length label) bytes ≡ tail
drop-label label bytes tail offset e =
    sym (drop-drop (length label) (offset + 1) (offset + 1 + length label) bytes refl)
    ∙ ap (drop (length label)) (sym (drop-drop 1 offset (offset + 1) bytes refl) ∙ ap (drop 1) e)
    ∙ drop-append (length label) label tail refl

-- A round at a label.
name_loop-label :
    (label : Bytes) (steps : ℕ) (bytes tail : Bytes) (offset next_offset : ℕ)
    → IsLabel label
    → drop offset bytes ≡ length label ∷ label ++ tail
    → name_loop (suc steps) bytes offset false next_offset ≡ (
      decode_label label ∷ (name_loop steps bytes (offset + 1 + length label) false next_offset).0,
      (name_loop steps bytes (offset + 1 + length label) false next_offset).1,
    )
unfolding name_loop
name_loop-label label steps bytes tail offset next_offset h e =
    let n : ℕ = length label in
    let size : length bytes ≡ offset + (1 + n + length tail) = omega (
      arith,
      length_of bytes (n ∷ label ++ tail) offset e (omega arith),
      length-append {0} label tail,
    ) in
    let inside : leb (length bytes) offset ≡ false = ground (arith, size) in
    let some_left : (n == 0) ≡ false = ground (arith, h) in
    let plain : (shr n 6 == 3) ≡ false = ground (arith, h) in
    let fits : ltb (length bytes) (offset + 1 + n) ≡ false = ground (arith, size) in
    let behind : drop (offset + 1) bytes ≡ label ++ tail =
      sym (drop-drop 1 offset (offset + 1) bytes refl) ∙ ap (drop 1) e in
    let here : take n (drop (offset + 1) bytes) ≡ label =
      ap (take n) behind ∙ take-append n label tail refl in
    rw (inside, first_at bytes (label ++ tail) offset n e, some_left, plain, fits, here) refl

-- A round at the end of a name.
name_loop-root :
    (steps : ℕ) (bytes rest : Bytes) (offset next_offset : ℕ)
    → drop offset bytes ≡ 0 ∷ rest
    → name_loop (suc steps) bytes offset false next_offset ≡ ([], offset + 1)
unfolding name_loop
name_loop-root steps bytes rest offset next_offset e =
    let size : length bytes ≡ offset + (1 + length rest) =
      omega (arith, length_of bytes (0 ∷ rest) offset e (omega arith)) in
    let inside : leb (length bytes) offset ≡ false = ground (arith, size) in
    rw (inside, first_at bytes rest offset 0 e) refl

name_loop-name_bytes :
    (labels : List Bytes) (steps : ℕ) (bytes rest : Bytes) (offset next_offset : ℕ)
    → All IsLabel labels
    → drop offset bytes ≡ name_bytes labels ++ rest
    → length labels < steps
    → name_loop steps bytes offset false next_offset
      ≡ (map decode_label labels, offset + length (name_bytes labels))
unfolding name_bytes
name_loop-name_bytes [] (suc steps) bytes rest offset next_offset h e enough =
    name_loop-root steps bytes rest offset next_offset e
name_loop-name_bytes (label ∷ labels) (suc steps) bytes rest offset next_offset h e enough =
    let n : ℕ = length label in
    let tail : Bytes = name_bytes labels ++ rest in
    let e' : drop offset bytes ≡ n ∷ label ++ tail =
      e ∙ ap (λ (t : Bytes). n ∷ t) (append_assoc label (name_bytes labels) rest) in
    let later =
      name_loop-name_bytes labels steps bytes rest (offset + 1 + n) next_offset h.1
        (drop-label label bytes tail offset e') (omega arith) in
    name_loop-label label steps bytes tail offset next_offset h.0 e'
    ∙ ap (λ (r : List Text × ℕ). (decode_label label ∷ r.0, r.1)) later
    ∙ ap (λ (k : ℕ). (map decode_label (label ∷ labels), k))
        {x = offset + 1 + n + length (name_bytes labels)}
        {y = offset + suc (length (label ++ name_bytes labels))}
        (omega (arith, length-append {0} label (name_bytes labels)))
name_loop-name_bytes labels zero bytes rest offset next_offset h e enough = absurd (omega arith)

-- Where a name of less than 128 labels, of 1 to 63 bytes each, stands in a message, the parser reads
-- the labels joined by dots, and gives the offset behind the name.
pub parse_name-name_bytes :
    (labels : List Bytes) (bytes rest : Bytes) (offset : ℕ)
    → All IsLabel labels
    → length labels < 128
    → drop offset bytes ≡ name_bytes labels ++ rest
    → parse_name bytes offset
      ≡ (join (map decode_label labels), offset + length (name_bytes labels))
unfolding parse_name
parse_name-name_bytes labels bytes rest offset h few e =
    ap (λ (r : List Text × ℕ). (join r.0, r.1))
      (name_loop-name_bytes labels 128 bytes rest offset offset h e few)

name_loop-pointer :
    (steps : ℕ) (bytes rest : Bytes) (offset next_offset high low : ℕ)
    → 192 ≤ high
    → high < 256
    → drop offset bytes ≡ high ∷ low ∷ rest
    → (name_loop (suc steps) bytes offset false next_offset).1 ≡ offset + 2
unfolding name_loop
name_loop-pointer steps bytes rest offset next_offset high low from below e =
    let size : length bytes ≡ offset + (2 + length rest) =
      omega (arith, length_of bytes (high ∷ low ∷ rest) offset e (omega arith)) in
    let inside : leb (length bytes) offset ≡ false = ground (arith, size) in
    let fits : leb (length bytes) (offset + 1) ≡ false = ground (arith, size) in
    let some_left : (high == 0) ≡ false = ground arith in
    let marked : (shr high 6 == 3) ≡ true = ground arith in
    rw (inside, first_at bytes (low ∷ rest) offset high e, some_left, marked, fits)
      (name_loop-jumped steps bytes (bit_or (shl (low_bits high 6) 8) (byte_at bytes (offset + 1)))
        (offset + 2))

-- The owner of a record: some labels, and then the root or a pointer to where the name goes on.
unfoldable pub owner_bytes : List Bytes → Option ℕ → Bytes
owner_bytes [] none = 0 ∷ []
owner_bytes [] (some target) = (192 + target / 256) ∷ target % 256 ∷ []
owner_bytes (label ∷ labels) end = length label ∷ label ++ owner_bytes labels end

abbrev pub IsTarget : Option ℕ → Type 0
IsTarget none = Unit
IsTarget (some target) = target < 16384

pub length-owner_bytes :
    (labels : List Bytes) (end : Option ℕ) → 1 ≤ length (owner_bytes labels end)
unfolding owner_bytes
length-owner_bytes [] none = omega arith
length-owner_bytes [] (some target) = omega arith
length-owner_bytes (label ∷ labels) end = omega arith

name_loop-owner_bytes :
    (labels : List Bytes) (end : Option ℕ) (steps : ℕ) (bytes rest : Bytes)
    → (offset next_offset : ℕ) → All IsLabel labels
    → IsTarget end
    → drop offset bytes ≡ owner_bytes labels end ++ rest
    → length labels < steps
    → (name_loop steps bytes offset false next_offset).1 ≡ offset + length (owner_bytes labels end)
unfolding owner_bytes
name_loop-owner_bytes [] none (suc steps) bytes rest offset next_offset h t e enough =
    ap (λ (r : List Text × ℕ). r.1) (name_loop-root steps bytes rest offset next_offset e)
name_loop-owner_bytes [] (some target) (suc steps) bytes rest offset next_offset h t e enough =
    name_loop-pointer steps bytes rest offset next_offset (192 + target / 256) (target % 256)
      (omega arith) (omega (arith, t)) e
name_loop-owner_bytes (label ∷ labels) end (suc steps) bytes rest offset next_offset h t e enough =
    let n : ℕ = length label in
    let tail : Bytes = owner_bytes labels end ++ rest in
    let e' : drop offset bytes ≡ n ∷ label ++ tail =
      e ∙ ap (λ (x : Bytes). n ∷ x) (append_assoc label (owner_bytes labels end) rest) in
    ap (λ (r : List Text × ℕ). r.1)
      (name_loop-label label steps bytes tail offset next_offset h.0 e')
    ∙ name_loop-owner_bytes labels end steps bytes rest (offset + 1 + n) next_offset h.1 t
        (drop-label label bytes tail offset e') (omega arith)
    ∙ omega (arith, length-append {0} label (owner_bytes labels end))
name_loop-owner_bytes labels end zero bytes rest offset next_offset h t e enough =
    absurd (omega arith)

-- Behind the owner of a record, wherever its pointer leads.
pub parse_name-owner_bytes :
    (labels : List Bytes) (end : Option ℕ) (bytes rest : Bytes) (offset : ℕ)
    → All IsLabel labels
    → IsTarget end
    → length labels < 128
    → drop offset bytes ≡ owner_bytes labels end ++ rest
    → (parse_name bytes offset).1 ≡ offset + length (owner_bytes labels end)
unfolding parse_name
parse_name-owner_bytes labels end bytes rest offset h t few e =
    name_loop-owner_bytes labels end 128 bytes rest offset offset h t e few
