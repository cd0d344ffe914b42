-- ===== src/Server/Quota.antt =====
-- The quota of a session in Server/VPNServer.py: what `_charge` lets through.
use vpn_core.Base.{ℕ, ◌+◌, ◌-◌, ◌<◌, ◌≡◌, refl, true, false, List, [], ◌∷◌, inl, inr, arith}
use vpn_core.Base.Tests.{if◌then◌else◌, Bool-cases}
use vpn_core.Base.Lists.{is_empty}
use vpn_core.Base.Int.{pos, ◌-ℤ◌, leb_ℤ}
use vpn_core.Base.Words.{Bytes}
use vpn_core.Base.Result.{Result, ok, raise}
use vpn_core.VpnPacket.Server.{build_disconnect}
use vpn_core.Database.{mark_quota_exhausted}
use vpn_core.Server.{Handler, VpnServer, try_send}
use vpn_core.Server.Session.{charge, quota_exhausted}

-- The bytes that go through before the first refusal, of datagrams charged one after the other.
unfoldable pub spend : VpnServer → Handler → List ℕ → ℕ
unfolding charge
spend s h [] = 0
spend s h (n ∷ ns) =
    let (after, paid, allowed) = charge s h n in
    let rest = spend after paid ns in if allowed then n + rest else 0

take_off :
    (q n : ℕ) → leb_ℤ (pos q -ℤ pos n) (pos 0) ≡ false → (pos q -ℤ pos n ≡ pos (q - n)) × (n < q)
unfolding ◌-ℤ◌
take_off q n h = ground arith

charge_paid :
    (s : VpnServer) (h : Handler) (n : ℕ)
    → h.quota_enforced ≡ true
    → leb_ℤ (h.current_quota -ℤ pos n) (pos 0) ≡ false
    → charge s h n ≡ (s, record h { current_quota = h.current_quota -ℤ pos n }, true)
unfolding charge
charge_paid s h n counted enough = rw (counted, enough, charge) refl

charge_refused :
    (s : VpnServer) (h : Handler) (n : ℕ)
    → h.quota_enforced ≡ true
    → leb_ℤ (h.current_quota -ℤ pos n) (pos 0) ≡ true
    → charge s h n ≡ (
      (quota_exhausted s (record h { current_quota = pos 0; quota_enforced = false })).0,
      (quota_exhausted s (record h { current_quota = pos 0; quota_enforced = false })).1,
      false,
    )
unfolding charge
charge_refused s h n counted spent = rw (counted, spent, charge) refl

charge_uncounted :
    (s : VpnServer) (h : Handler) (n : ℕ) → h.quota_enforced ≡ false → charge s h n ≡ (s, h, true)
unfolding charge
charge_uncounted s h n uncounted = rw (uncounted, charge) refl

-- A session that counts and has a positive quota lets less than its quota through before it refuses
-- a datagram, whatever the sizes are.
pub spend_lt :
    (s : VpnServer) (h : Handler) (q : ℕ) (ns : List ℕ)
    → h.quota_enforced ≡ true
    → h.current_quota ≡ pos q
    → 0 < q
    → spend s h ns < q
unfolding spend
spend_lt s h q [] counted quota some_left = some_left
spend_lt s h q (n ∷ ns) counted quota some_left =
    elim (Bool-cases (leb_ℤ (h.current_quota -ℤ pos n) (pos 0))) [
      | inl spent ↦ rw (charge_refused s h n counted spent) some_left
      | inr enough ↦
          let (left, less) = take_off q n (rw quota at enough) in
          let paid : Handler = record h { current_quota = h.current_quota -ℤ pos n } in
          let rest : spend s paid ns < q - n =
            spend_lt s paid (q - n) ns counted (rw quota left) (omega (arith, less)) in
          rw (charge_paid s h n counted enough) (omega (arith, rest, less))
    ]

try_send-quota :
    (r : Result Bytes) (h : Handler)
    → ((try_send r h).current_quota ≡ h.current_quota)
      × ((try_send r h).quota_enforced ≡ h.quota_enforced)
try_send-quota (raise e) h = (refl, refl)
try_send-quota (ok packet) h = (refl, refl)

-- What a refusal leaves behind.
pub record IsRefused (s : VpnServer) (h : Handler) (after : VpnServer) (left : Handler)
    : Type 0 where
  pub stopped : left.stopped ≡ true
  pub spent : left.current_quota ≡ pos 0
  pub marked : is_empty h.username ≡ false → after.db ≡ mark_quota_exhausted s.db h.username
  pub uncounted : (n : ℕ) → charge after left n ≡ (after, left, true)

-- A refusal of a session that counts stops the handler, leaves no quota, and marks the account of a
-- user with a name; but it also ends the counting, so that every further charge of that handler is
-- let through, whatever its size.
pub charge-IsRefused :
    (s : VpnServer) (h : Handler) (n : ℕ)
    → h.quota_enforced ≡ true
    → (charge s h n).2 ≡ false
    → IsRefused s h (charge s h n).0 (charge s h n).1
unfolding quota_exhausted
charge-IsRefused s h n counted refused =
    elim (Bool-cases (leb_ℤ (h.current_quota -ℤ pos n) (pos 0))) [
      | inr enough ↦ absurd (ground (arith, refused, charge_paid s h n counted enough))
      | inl spent ↦
          let (left, ended) =
            try_send-quota (build_disconnect h.session_id)
              (record h { current_quota = pos 0; quota_enforced = false }) in
          rw (charge_refused s h n counted spent) (record {
            stopped = refl;
            spent = left;
            marked = λ named. rw (named, quota_exhausted) refl;
            uncounted = λ m. charge_uncounted _ _ m ended;
          })
    ]
