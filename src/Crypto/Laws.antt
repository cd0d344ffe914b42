-- ===== src/Crypto/Laws.antt =====
-- The shift of `Cesar` is a bijection on byte strings that keeps lengths.
use vpn_core.Base.{ℕ, zero, suc, ◌+◌, ◌-◌, ◌%◌, ◌<◌, ◌≡◌, refl, ap, ap₂, [], ◌∷◌, ◌++◌, arith}
use vpn_core.Base.Lists.{length, take}
use vpn_core.Base.Words.{Bytes, IsBytes}
use vpn_core.Crypto.{encode, decode}

pub length-encode : (bs : Bytes) (s : ℕ) → length (encode bs s) ≡ length bs
unfolding encode
length-encode [] s = refl
length-encode (b ∷ bs) s = ap suc (length-encode bs s)

pub encode-IsBytes : (bs : Bytes) (s : ℕ) → IsBytes (encode bs s)
unfolding encode
encode-IsBytes [] s = tt
encode-IsBytes (b ∷ bs) s = (omega arith, encode-IsBytes bs s)

pub decode-IsBytes : (bs : Bytes) (s : ℕ) → IsBytes (decode bs s)
unfolding decode
decode-IsBytes [] s = tt
decode-IsBytes (b ∷ bs) s = (omega arith, decode-IsBytes bs s)

pub decode-encode_one : (b s : ℕ) → b < 256 → ((b + s) % 256 + 256 - s % 256) % 256 ≡ b
decode-encode_one b s h = omega arith

pub encode-decode_one : (b s : ℕ) → b < 256 → ((b + 256 - s % 256) % 256 + s) % 256 ≡ b
encode-decode_one b s h = omega arith

decode-encode : (bs : Bytes) (s : ℕ) → IsBytes bs → decode (encode bs s) s ≡ bs
unfolding encode decode
decode-encode [] s h = refl
decode-encode (b ∷ bs) s h = ap₂ ◌∷◌ (decode-encode_one b s h.0) (decode-encode bs s h.1)

encode-decode : (bs : Bytes) (s : ℕ) → IsBytes bs → encode (decode bs s) s ≡ bs
unfolding encode decode
encode-decode [] s h = refl
encode-decode (b ∷ bs) s h = ap₂ ◌∷◌ (encode-decode_one b s h.0) (encode-decode bs s h.1)

-- On byte strings `decode` and `encode` with one shift are inverse to each other, and both give
-- byte strings.
pub cesar_inverse :
    (bs : Bytes) (s : ℕ)
    → IsBytes bs
    → (decode (encode bs s) s ≡ bs)
      × (encode (decode bs s) s ≡ bs)
      × IsBytes (encode bs s)
      × IsBytes (decode bs s)
cesar_inverse bs s h =
    (decode-encode bs s h, encode-decode bs s h, encode-IsBytes bs s, decode-IsBytes bs s)

pub encode-append : (xs ys : Bytes) (s : ℕ) → encode (xs ++ ys) s ≡ encode xs s ++ encode ys s
unfolding encode
encode-append [] ys s = refl
encode-append (x ∷ xs) ys s = ap (◌∷◌ ((x + s) % 256)) (encode-append xs ys s)

pub take-encode : (n : ℕ) (xs : Bytes) (s : ℕ) → take n (encode xs s) ≡ encode (take n xs) s
unfolding encode
take-encode zero xs s = refl
take-encode (suc n) [] s = refl
take-encode (suc n) (x ∷ xs) s = ap (◌∷◌ ((x + s) % 256)) (take-encode n xs s)
