-- ===== src/Base/Words.antt =====
-- Byte strings: reads and writes at an offset, and `struct`'s big-endian 16-bit fields.
use Prim.Native.Nat.{ℕ, zero, suc, ◌+◌, ◌*◌, ◌/◌, ◌%◌, ◌≤◌, ◌<◌}
use mathlib.Core.Path.{◌≡◌, refl, ap, ◌∙◌}
use mathlib.Core.Logic.{◌≢◌, ◌⊎◌, inl}
use mathlib.Core.List.{List, [], ◌∷◌}
use native.Mathlib.Omega.{arith}
use vpn_core.Base.Tests.{ltb, if◌then◌else◌}
use vpn_core.Base.Lists.{length, get_or, set, All, length-set}
use vpn_core.Base.Result.{Result, ok, raise, struct_error}

abbrev pub Bytes : Type 0
Bytes = List ℕ

abbrev pub IsBytes : Bytes → Type 0
IsBytes = All (λ b. b < 256)

-- `buf[i]` for an index in range.
abbrev pub byte_at : Bytes → ℕ → ℕ
byte_at buf i = get_or buf i 0

abbrev pub u16_at : Bytes → ℕ → ℕ
u16_at buf off = byte_at buf off * 256 + byte_at buf (off + 1)

-- `buf[off:off + len(new)] = new`, in range.
unfoldable pub write_at : ℕ → Bytes → Bytes → Bytes
write_at off [] buf = buf
write_at off (x ∷ new) buf = write_at (off + 1) new (set buf off x)

-- The bytes of `struct.pack("!H", v)`, for a value in range.
abbrev pub pack_u16 : ℕ → Bytes
pack_u16 v = v / 256 ∷ v % 256 ∷ []

-- `struct.unpack_from("!H", buf, off)[0]`.
unfoldable pub unpack_from_u16 : Bytes → ℕ → Result ℕ
unpack_from_u16 buf off =
    if ltb (length buf) (off + 2) then raise struct_error else ok (u16_at buf off)

-- `struct.pack_into("!H", buf, off, v)`.
unfoldable pub pack_into_u16 : Bytes → ℕ → ℕ → Result Bytes
pack_into_u16 buf off v =
    if ltb (length buf) (off + 2)
    then raise struct_error
    else if ltb 65535 v
    then raise struct_error
    else ok (write_at off (pack_u16 v) buf)

pub get_or-set_self : (xs : Bytes) (i j v : ℕ) → i ≡ j → i < length xs → get_or (set xs i v) j 0 ≡ v
get_or-set_self [] i j v e h = absurd (omega arith)
get_or-set_self (x ∷ xs) zero zero v e h = refl
get_or-set_self (x ∷ xs) zero (suc j) v e h = absurd (omega arith)
get_or-set_self (x ∷ xs) (suc i) zero v e h = absurd (omega arith)
get_or-set_self (x ∷ xs) (suc i) (suc j) v e h =
    get_or-set_self xs i j v (omega arith) (omega arith)

get_or-set_ne : (xs : Bytes) (i j v : ℕ) → i ≢ j → get_or (set xs i v) j 0 ≡ get_or xs j 0
get_or-set_ne [] i j v h = refl
get_or-set_ne (x ∷ xs) zero zero v h = absurd (h refl)
get_or-set_ne (x ∷ xs) zero (suc j) v h = refl
get_or-set_ne (x ∷ xs) (suc i) zero v h = refl
get_or-set_ne (x ∷ xs) (suc i) (suc j) v h = get_or-set_ne xs i j v (λ e. h (ap suc e))

pub length-write_at : (off : ℕ) (new buf : Bytes) → length (write_at off new buf) ≡ length buf
unfolding write_at
length-write_at off [] buf = refl
length-write_at off (x ∷ new) buf =
    length-write_at (off + 1) new (set buf off x) ∙ length-set buf off x

pub byte_at-write_at_outside :
    (off : ℕ) (new buf : Bytes) (i : ℕ)
    → (i < off) ⊎ (off + length new ≤ i)
    → byte_at (write_at off new buf) i ≡ byte_at buf i
unfolding write_at
byte_at-write_at_outside off [] buf i h = refl
byte_at-write_at_outside off (x ∷ new) buf i h =
    byte_at-write_at_outside (off + 1) new (set buf off x) i (omega arith)
    ∙ get_or-set_ne buf off i x (omega arith)

pub byte_at-write_at_inside :
    (off : ℕ) (new buf : Bytes) (i j : ℕ)
    → off + length new ≤ length buf
    → i < length new
    → off + i ≡ j
    → byte_at (write_at off new buf) j ≡ byte_at new i
unfolding write_at
byte_at-write_at_inside off [] buf i j fits h e = absurd (omega arith)
byte_at-write_at_inside off (x ∷ new) buf zero j fits h e =
    byte_at-write_at_outside (off + 1) new (set buf off x) j (inl (omega arith))
    ∙ get_or-set_self buf off j x (omega arith) (omega arith)
byte_at-write_at_inside off (x ∷ new) buf (suc i) j fits h e =
    byte_at-write_at_inside (off + 1) new (set buf off x) i j (omega (arith, length-set buf off x))
      (omega arith) (omega arith)

IsBytes-set : (xs : Bytes) (i v : ℕ) → IsBytes xs → v < 256 → IsBytes (set xs i v)
IsBytes-set [] i v h k = tt
IsBytes-set (x ∷ xs) zero v h k = (k, h.1)
IsBytes-set (x ∷ xs) (suc i) v h k = (h.0, IsBytes-set xs i v h.1 k)

pub write_at-IsBytes :
    (off : ℕ) (new buf : Bytes) → IsBytes new → IsBytes buf → IsBytes (write_at off new buf)
unfolding write_at
write_at-IsBytes off [] buf n h = h
write_at-IsBytes off (x ∷ new) buf n h =
    write_at-IsBytes (off + 1) new (set buf off x) n.1 (IsBytes-set buf off x h n.0)

pub byte_at-lt : (xs : Bytes) (i : ℕ) → IsBytes xs → byte_at xs i < 256
byte_at-lt [] i h = omega arith
byte_at-lt (x ∷ xs) zero h = h.0
byte_at-lt (x ∷ xs) (suc i) h = byte_at-lt xs i h.1

-- Where the two bytes of a 16-bit field were written.
pub u16_at-write_at :
    (off v : ℕ) (buf : Bytes)
    → off + 2 ≤ length buf
    → u16_at (write_at off (pack_u16 v) buf) off ≡ v
u16_at-write_at off v buf h = omega (
  arith,
  byte_at-write_at_inside off (pack_u16 v) buf 0 off (omega arith) (omega arith) (omega arith),
  byte_at-write_at_inside off (pack_u16 v) buf 1 (off + 1) (omega arith) (omega arith)
      (omega arith),
)

-- A field that the write does not touch.
pub u16_at-write_at_outside :
    (off : ℕ) (new buf : Bytes) (i : ℕ)
    → (i + 2 ≤ off) ⊎ (off + length new ≤ i)
    → u16_at (write_at off new buf) i ≡ u16_at buf i
u16_at-write_at_outside off new buf i h = omega (
  arith,
  byte_at-write_at_outside off new buf i (omega arith),
  byte_at-write_at_outside off new buf (i + 1) (omega arith),
)

-- The bytes of `struct.pack("!I", v)`, for a value in range, and `struct.unpack("!I", buf)`.
abbrev pub pack_u32 : ℕ → Bytes
pack_u32 v = v / 16777216 ∷ v / 65536 % 256 ∷ v / 256 % 256 ∷ v % 256 ∷ []

abbrev pub u32_at : Bytes → ℕ → ℕ
u32_at buf off = u16_at buf off * 65536 + u16_at buf (off + 2)

pub u16_at-lt : (xs : Bytes) (i : ℕ) → IsBytes xs → u16_at xs i < 65536
u16_at-lt xs i h = omega (arith, byte_at-lt xs i h, byte_at-lt xs (i + 1) h)
