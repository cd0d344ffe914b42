-- ===== src/Nat/Allocate.antt =====
-- The search for a free number: it takes a free one wherever it starts, and fails only when every
-- candidate is taken.
use vpn_core.Base.{
  ℕ, zero, suc, ◌+◌, ◌-◌, ◌≤◌, ◌<◌, ◌≡◌, refl, ap, ◌∙◌, ◌⊎◌, inl, inr, Bool, true, false, arith,
}
use vpn_core.Base.Tests.{leb, ltb, Bool-cases}
use vpn_core.Base.Result.{Error, Result, ok, raise, runtime_error}
use vpn_core.Nat.{scan}

-- The candidate after some rounds.
unfoldable walk : (ℕ → ℕ) → ℕ → ℕ → ℕ
walk next zero candidate = candidate
walk next (suc rounds) candidate = walk next rounds (next candidate)

scan_taken :
    (is_free : ℕ → Bool) (next : ℕ → ℕ) (rounds start n : ℕ) (e : Error)
    → scan is_free next rounds start ≡ raise e
    → n < rounds
    → is_free (walk next n start) ≡ false
unfolding scan walk
scan_taken is_free next zero start n e h lt = absurd (omega arith)
scan_taken is_free next (suc rounds) start zero e h lt = ground arith
scan_taken is_free next (suc rounds) start (suc n) e h lt =
    ground (arith, scan_taken is_free next rounds (next start) n e)

-- What a search over the numbers from `low` to below `high` promises.
pub data IsChoice (is_free : ℕ → Bool) (low high : ℕ) : Result ℕ → Type 0 where
  chosen : (p : ℕ) → low ≤ p → p < high → is_free p ≡ true → IsChoice is_free low high (ok p)
  exhausted :
      ((p : ℕ) → low ≤ p → p < high → is_free p ≡ false)
      → IsChoice is_free low high (raise runtime_error)

-- Counting from `low` to below `high` and around.
module _ (low high : ℕ) (next : ℕ → ℕ) (steps : (c : ℕ) → low ≤ c → c + 1 < high → next c ≡ c + 1)
    (wraps : (c : ℕ) → c + 1 ≡ high → next c ≡ low) where
  walk_up : (n c : ℕ) → low ≤ c → c + n < high → walk next n c ≡ c + n
  unfolding walk
  walk_up zero c from below = omega arith
  walk_up (suc n) c from below =
      ground (arith, steps c from (omega arith), walk_up n (c + 1) (omega arith) (omega arith))

  walk_around :
      (n c : ℕ)
      → low ≤ c
      → c + suc n ≡ high
      → (j : ℕ) → low + j < high
      → walk next (suc n + j) c ≡ low + j
  unfolding walk
  walk_around zero c from total j small =
      ground (arith, wraps c (omega arith), walk_up j low (omega arith) small)
  walk_around (suc n) c from total j small =
      ap (λ (m : ℕ). walk next m c) {x = suc (suc n) + j} {y = suc (suc n + j)} (omega arith)
      ∙ ap (walk next (suc n + j)) (steps c from (omega arith))
      ∙ walk_around n (c + 1) (omega arith) (omega arith) j small

  next_in_range : (c : ℕ) → low ≤ c → c < high → (low ≤ next c) × (next c < high)
  next_in_range c from below = elim (Bool-cases (ltb (c + 1) high)) [
    | inl inside ↦ ground (arith, steps c from (ground arith))
    | inr last ↦ ground (arith, wraps c (ground arith))
  ]

  module _ (is_free : ℕ → Bool) where
    -- Every candidate is met within as many rounds as there are candidates.
    scan_exhausted :
        (start p : ℕ)
        → low ≤ start
        → start < high
        → scan is_free next (high - low) start ≡ raise runtime_error
        → low ≤ p
        → p < high
        → is_free p ≡ false
    scan_exhausted start p from below h from' below' = elim (Bool-cases (leb start p)) [
      | inl ahead ↦
          rw (← meets ahead)
            (scan_taken is_free next (high - low) start (p - start) runtime_error h (ground arith))
      | inr behind ↦ rw (← meets_around behind) (
          scan_taken is_free next (high - low) start (suc (high - start - 1) + (p - low))
            runtime_error h (ground arith))
    ]
      where
        meets : leb start p ≡ true → walk next (p - start) start ≡ p
        meets ahead = ground (arith, walk_up (p - start) start from (ground arith))

        meets_around :
            leb start p ≡ false → walk next (suc (high - start - 1) + (p - low)) start ≡ p
        meets_around behind = ground (
          arith,
          walk_around (high - start - 1) start from (ground arith) (p - low) (ground arith),
        )

    scan_cases :
        (rounds start : ℕ)
        → low ≤ start
        → start < high
        → (scan is_free next rounds start ≡ raise runtime_error)
          ⊎ ((p : ℕ) × (scan is_free next rounds start ≡ ok p)
              × (low ≤ p)
              × (p < high)
              × (is_free p ≡ true))
    unfolding scan
    scan_cases zero start from below = inl refl
    scan_cases (suc rounds) start from below =
        let (from', below') = next_in_range start from below in
        elim (Bool-cases (is_free start)) [
          | inl free ↦ inr (start, rw free, from, below, free)
          | inr taken ↦ rw taken (scan_cases rounds (next start) from' below')
        ]

    pub scan-IsChoice :
        (start : ℕ)
        → low ≤ start
        → start < high
        → IsChoice is_free low high (scan is_free next (high - low) start)
    scan-IsChoice start from below = elim (scan_cases (high - low) start from below) [
      | inl failed ↦
          rw failed
            (exhausted (λ p from' below'. scan_exhausted start p from below failed from' below'))
      | inr (p, found, from', below', free) ↦ rw found (chosen p from' below' free)
    ]
