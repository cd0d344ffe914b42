-- ===== src/Base/Slices.antt =====
-- Slices of a byte string after a write: a prefix or a suffix that the write meets whole or not
-- at all.
use Prim.Native.Nat.{ℕ, zero, suc, ◌+◌, ◌≤◌, ◌<◌}
use mathlib.Core.Path.{◌≡◌, refl, ap, ◌∙◌}
use mathlib.Core.List.{[], ◌∷◌}
use native.Mathlib.Omega.{arith}
use vpn_core.Base.Lists.{length, set, take, drop, drop_of_le}
use vpn_core.Base.Words.{Bytes, byte_at, write_at}

take-set_ge : (n i v : ℕ) (xs : Bytes) → n ≤ i → take n (set xs i v) ≡ take n xs
take-set_ge zero i v xs h = refl
take-set_ge (suc n) i v [] h = refl
take-set_ge (suc n) zero v (x ∷ xs) h = absurd (omega arith)
take-set_ge (suc n) (suc i) v (x ∷ xs) h = ap (◌∷◌ x) (take-set_ge n i v xs (omega arith))

take-set_lt : (n i v : ℕ) (xs : Bytes) → i < n → take n (set xs i v) ≡ set (take n xs) i v
take-set_lt zero i v xs h = absurd (omega arith)
take-set_lt (suc n) i v [] h = refl
take-set_lt (suc n) zero v (x ∷ xs) h = refl
take-set_lt (suc n) (suc i) v (x ∷ xs) h = ap (◌∷◌ x) (take-set_lt n i v xs (omega arith))

drop-set_lt : (n i v : ℕ) (xs : Bytes) → i < n → drop n (set xs i v) ≡ drop n xs
drop-set_lt zero i v xs h = absurd (omega arith)
drop-set_lt (suc n) i v [] h = refl
drop-set_lt (suc n) zero v (x ∷ xs) h = refl
drop-set_lt (suc n) (suc i) v (x ∷ xs) h = drop-set_lt n i v xs (omega arith)

drop-set : (n i j v : ℕ) (xs : Bytes) → n + j ≡ i → drop n (set xs i v) ≡ set (drop n xs) j v
drop-set zero i j v xs h = rw (let e : i ≡ j = omega arith in e)
drop-set (suc n) i j v [] h = refl
drop-set (suc n) zero j v (x ∷ xs) h = absurd (omega arith)
drop-set (suc n) (suc i) j v (x ∷ xs) h = drop-set n i j v xs (omega arith)

pub take-write_at_outside :
    (n off : ℕ) (new buf : Bytes) → n ≤ off → take n (write_at off new buf) ≡ take n buf
unfolding write_at
take-write_at_outside n off [] buf h = refl
take-write_at_outside n off (x ∷ new) buf h =
    take-write_at_outside n (off + 1) new (set buf off x) (omega arith) ∙ take-set_ge n off x buf h

pub take-write_at_inside :
    (n off : ℕ) (new buf : Bytes)
    → off + length new ≤ n
    → take n (write_at off new buf) ≡ write_at off new (take n buf)
unfolding write_at
take-write_at_inside n off [] buf h = refl
take-write_at_inside n off (x ∷ new) buf h =
    take-write_at_inside n (off + 1) new (set buf off x) (omega arith)
    ∙ ap (write_at (off + 1) new) (take-set_lt n off x buf (omega arith))

pub drop-write_at_outside :
    (n off : ℕ) (new buf : Bytes)
    → off + length new ≤ n
    → drop n (write_at off new buf) ≡ drop n buf
unfolding write_at
drop-write_at_outside n off [] buf h = refl
drop-write_at_outside n off (x ∷ new) buf h =
    drop-write_at_outside n (off + 1) new (set buf off x) (omega arith)
    ∙ drop-set_lt n off x buf (omega arith)

pub drop-write_at_inside :
    (n off k : ℕ) (new buf : Bytes)
    → n + k ≡ off
    → drop n (write_at off new buf) ≡ write_at k new (drop n buf)
unfolding write_at
drop-write_at_inside n off k [] buf h = refl
drop-write_at_inside n off k (x ∷ new) buf h =
    drop-write_at_inside n (off + 1) (k + 1) new (set buf off x) (omega arith)
    ∙ ap (write_at (k + 1) new) (drop-set n off k x buf h)

pub byte_at-drop : (n i j : ℕ) (xs : Bytes) → n + i ≡ j → byte_at (drop n xs) i ≡ byte_at xs j
byte_at-drop zero i j xs h = rw (let e : i ≡ j = omega arith in e)
byte_at-drop (suc n) i j [] h = refl
byte_at-drop (suc n) i zero (x ∷ xs) h = absurd (omega arith)
byte_at-drop (suc n) i (suc j) (x ∷ xs) h = byte_at-drop n i j xs (omega arith)

pub byte_at-take : (n i : ℕ) (xs : Bytes) → i < n → byte_at (take n xs) i ≡ byte_at xs i
byte_at-take zero i xs h = absurd (omega arith)
byte_at-take (suc n) i [] h = refl
byte_at-take (suc n) zero (x ∷ xs) h = refl
byte_at-take (suc n) (suc i) (x ∷ xs) h = byte_at-take n i xs (omega arith)

pub drop-drop : (m n k : ℕ) (xs : Bytes) → n + m ≡ k → drop m (drop n xs) ≡ drop k xs
drop-drop m zero k xs e = ap (λ (t : ℕ). drop t xs) (let is : m ≡ k = omega arith in is)
drop-drop m (suc n) zero xs e = absurd (omega arith)
drop-drop m (suc n) (suc k) [] e = drop_of_le m [] (omega arith)
drop-drop m (suc n) (suc k) (x ∷ xs) e = drop-drop m n k xs (omega arith)
