-- ===== src/VpnPacket/Header.antt =====
-- The header's round trips: what `_build_packet` writes, `_parse_header_and_payload` reads back,
-- and only that is accepted.
use vpn_core.Base.{
  ℕ, ◌+◌, ◌*◌, ◌/◌, ◌%◌, ◌≤◌, ◌<◌, ◌≡◌, refl, sym, ◌∙◌, subst, ◌↔◌, Bool, true, false, not, ◌∷◌,
  arith,
}
use vpn_core.Base.Tests.{◌==◌}
use vpn_core.Base.Lists.{length, take, drop, take_of_le}
use vpn_core.Base.Bits.{bit_or-shl}
use vpn_core.Base.Int.{ℤ, pos, negsuc, ◌≤ℤ◌}
use vpn_core.Base.Words.{Bytes, IsBytes}
use vpn_core.Base.Result.{ok, raise, value_error, ok-injective}
use vpn_core.VpnPacket.{Parts, header_byte, build_packet, parse_header_and_payload, max_payload}

abbrev flag_bit : Bool → ℕ
flag_bit true = 1
flag_bit false = 0

-- The three fields do not overlap.
pub header_byte_sum :
    (code session_id : ℕ) (flag : Bool)
    → code < 16
    → session_id < 8
    → header_byte code session_id flag ≡ code * 16 + session_id * 2 + flag_bit flag
unfolding header_byte
header_byte_sum code session_id true c s = ground (
  arith,
  bit_or-shl 4 code (session_id * 2) (omega arith),
  bit_or-shl 1 (code * 8 + session_id) 1 (omega arith),
)
header_byte_sum code session_id false c s = ground (
  arith,
  bit_or-shl 4 code (session_id * 2) (omega arith),
  bit_or-shl 1 (code * 8 + session_id) 0 (omega arith),
)

-- What fits in the fields.
pub record Fits (p : Parts) : Type 0 where
  pub code_fits : p.code < 16
  pub session_fits : p.session_id < 8
  pub payload_fits : length p.payload ≤ max_payload

-- The packet that carries the parts.
abbrev pub wire : Parts → Bytes
wire p =
    length p.payload / 256
    ∷ length p.payload % 256
    ∷ header_byte p.code p.session_id p.mtu_flag
    ∷ 0
    ∷ p.payload

pub build-wire :
    (p : Parts)
    → Fits p
    → build_packet (pos p.code) (pos p.session_id) p.payload p.mtu_flag ≡ ok (wire p)
unfolding build_packet
build-wire p f = ground arith

build-Fits :
    (p : Parts) (packet : Bytes)
    → build_packet (pos p.code) (pos p.session_id) p.payload p.mtu_flag ≡ ok packet
    → Fits p
unfolding build_packet
build-Fits p packet h = ground arith

flag_of_bit : (n : ℕ) (b : Bool) → n % 2 ≡ flag_bit b → not (n % 2 == 0) ≡ b
flag_of_bit n true h = ground arith
flag_of_bit n false h = ground arith

flag_bit-lt : (b : Bool) → flag_bit b < 2
flag_bit-lt true = omega arith
flag_bit-lt false = omega arith

payload_of_wire :
    (a b c d n : ℕ) (payload : Bytes)
    → length payload ≡ n
    → drop 4 (take (4 + n) (a ∷ b ∷ c ∷ d ∷ payload)) ≡ payload
payload_of_wire a b c d n payload h =
    rw (take_of_le (4 + n) (a ∷ b ∷ c ∷ d ∷ payload) (omega arith))

pub parse-wire : (p : Parts) → Fits p → parse_header_and_payload (wire p) ≡ ok p
unfolding parse_header_and_payload
parse-wire p f = ground (
  arith,
  header_byte_sum p.code p.session_id p.mtu_flag,
  flag_bit-lt p.mtu_flag,
  flag_of_bit (header_byte p.code p.session_id p.mtu_flag) p.mtu_flag,
  payload_of_wire (length p.payload / 256) (length p.payload % 256)
      (header_byte p.code p.session_id p.mtu_flag) 0 (length p.payload) p.payload refl,
)

bit_of_flag : (n : ℕ) → flag_bit (not (n % 2 == 0)) ≡ n % 2
bit_of_flag n = ground arith

header_byte_of_fields :
    (n : ℕ) → n < 256 → header_byte (n / 16 % 16) (n / 2 % 8) (not (n % 2 == 0)) ≡ n
header_byte_of_fields n h = omega (
  arith,
  header_byte_sum (n / 16 % 16) (n / 2 % 8) (not (n % 2 == 0)) (omega arith) (omega arith),
  bit_of_flag n,
)

-- What is accepted is the wire form of its parts.
wire-parse :
    (packet : Bytes) (p : Parts)
    → IsBytes packet
    → parse_header_and_payload packet ≡ ok p
    → Fits p × (packet ≡ wire p)
unfolding parse_header_and_payload
wire-parse (a ∷ b ∷ c ∷ d ∷ payload) p bytes h =
    ground (arith, header_byte_of_fields c, payload_of_wire a b c d (a * 256 + b) payload)
wire-parse _ p bytes h = ground arith

pub parse-build :
    (packet : Bytes) (p : Parts)
    → build_packet (pos p.code) (pos p.session_id) p.payload p.mtu_flag ≡ ok packet
    → parse_header_and_payload packet ≡ ok p
parse-build packet p h =
    subst (λ q. parse_header_and_payload q ≡ ok p)
      (ok-injective (sym (build-wire p (build-Fits p packet h)) ∙ h))
      (parse-wire p (build-Fits p packet h))

-- A session id that the builder accepts is no negative number.
build-session :
    (code : ℕ) (session_id : ℤ) (payload : Bytes) (flag : Bool) {packet : Bytes}
    → build_packet (pos code) session_id payload flag ≡ ok packet
    → (n : ℕ) × (session_id ≡ pos n)
unfolding build_packet
build-session code (pos n) payload flag h = (n, refl)
build-session code (negsuc n) payload flag h = absurd (ground arith)

-- The parts that the receiver of a built packet reads.
pub parse-built :
    (code : ℕ) (session_id : ℤ) (payload : Bytes) (flag : Bool) (packet : Bytes)
    → build_packet (pos code) session_id payload flag ≡ ok packet
    → (n : ℕ) × (session_id ≡ pos n)
      × (parse_header_and_payload packet
          ≡ ok (record { code = code; session_id = n; mtu_flag = flag; payload = payload }))
parse-built code session_id payload flag packet h =
    let (n, e) = build-session code session_id payload flag h in
    (
      n,
      e,
      parse-build packet
          (record { code = code; session_id = n; mtu_flag = flag; payload = payload }) (rw (← e) h),
    )

-- Parsing and building are inverse partial functions: on a byte string, the parser returns the
-- parts exactly when the builder makes the byte string of them.
pub parse-build_iff :
    (packet : Bytes) (p : Parts)
    → IsBytes packet
    → (parse_header_and_payload packet ≡ ok p)
      ↔ (build_packet (pos p.code) (pos p.session_id) p.payload p.mtu_flag ≡ ok packet)
parse-build_iff packet p bytes = (forth, parse-build packet p)
  where
    forth :
        parse_header_and_payload packet ≡ ok p
        → build_packet (pos p.code) (pos p.session_id) p.payload p.mtu_flag ≡ ok packet
    forth h = let (fits, e) = wire-parse packet p bytes h in rw e (build-wire p fits)

-- The builder refuses exactly what does not fit: a code outside 0-15, a session id outside 0-7 or
-- more than 65535 bytes of payload, and the error is then a `ValueError`.
pub build_packet-raise_iff :
    (code session_id : ℤ) (payload : Bytes) (flag : Bool)
    → (build_packet code session_id payload flag ≡ raise value_error) ↔ (
        ¬ (
          (pos 0 ≤ℤ code)
          × (code ≤ℤ pos 15)
          × (pos 0 ≤ℤ session_id)
          × (session_id ≤ℤ pos 7)
          × (length payload ≤ 65535)))
unfolding build_packet
build_packet-raise_iff code session_id payload flag = ground arith
