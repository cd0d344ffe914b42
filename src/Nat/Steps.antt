-- ===== src/Nat/Steps.antt =====
-- Each change of the tables of Server/NAT.py keeps them inverse to each other, short, and their
-- numbers in range.
use vpn_core.Base.{
  ℕ, ◌≤◌, ◌<◌, ◌≡◌, ◌∙◌, sym, refl, ap, true, ◌&&◌, Option, none, some, inl, inr, arith,
}
use vpn_core.Base.Tests.{if◌then◌else◌, Bool-cases}
use vpn_core.Base.Lists.{length}
use vpn_core.Base.Eq.{Eq, ◌=?◌, =?_refl, nat_eq, list_eq, list_beq_iff}
use vpn_core.Base.Dict.{
  Dict, lookup, insert, move_to_end, Distinct, lookup-insert, lookup-move_to_end, insert-Distinct,
  move_to_end-Distinct, length-insert_fresh, length-move_to_end,
}
use vpn_core.Base.Text.{Text}
use vpn_core.Nat.{Keying, Tables, remember, renew}
use vpn_core.Nat.TwoWay.{IsTwoWay, IsTwoWay-same, IsTwoWay-added}

module _ {F : Type 0} ⦃f_eq : Eq F⦄ where
  abbrev pub in_table : F → Option (Dict F ℕ) → Option ℕ
  in_table f none = none
  in_table f (some table) = lookup f table

  -- A client's table: no flow twice, at most `most` flows, numbers from `low` to below `high`.
  abbrev pub IsShort : ℕ → ℕ → ℕ → Dict F ℕ → Type 0
  IsShort most low high table =
      Distinct table
      × (length table ≤ most)
      × ((f : F) (n : ℕ) → lookup f table ≡ some n → (low ≤ n) × (n < high))

module _ {F R : Type 0} ⦃f_eq : Eq F⦄ ⦃r_eq : Eq R⦄ where
  -- The number of a client's flow, and the owner of a number.
  abbrev pub number_at : Tables F R → Text → F → Option ℕ
  number_at t ip f = in_table f (lookup ip t.fwd)

  abbrev pub owner_at : Tables F R → R → Option (Text × ℕ)
  owner_at t r = lookup r t.rev

  -- The invariant: the tables are inverse to each other, and each client's is short.
  pub record IsTable (k : Keying F R) (most low high : ℕ) (t : Tables F R) : Type 0 where
    pub two_way : IsTwoWay k (number_at t) (owner_at t)
    pub each :
        (ip : Text) (table : Dict F ℕ) → lookup ip t.fwd ≡ some table → IsShort most low high table

module _ {F R : Type 0} ⦃f_eq : Eq F⦄ ⦃r_eq : Eq R⦄ (k : Keying F R) (most low high : ℕ) where
  -- One client's table replaced.
  module _ (t : Tables F R) (ip : Text) (table : Dict F ℕ) (rev : Dict R (Text × ℕ)) where
    pub number-insert :
        (j : Text) (g : F)
        → number_at (record { fwd = insert ip table t.fwd; rev = rev }) j g
          ≡ (if ip =? j then lookup g table else number_at t j g)
    number-insert j g = elim (Bool-cases (ip =? j)) [
      | inl same ↦ rw (lookup-insert ip j table t.fwd, same)
      | inr other ↦ rw (lookup-insert ip j table t.fwd, other)
    ]

    pub each-insert :
        IsTable k most low high t
        → IsShort most low high table
        → (j : Text) (other : Dict F ℕ) → lookup j (insert ip table t.fwd) ≡ some other
        → IsShort most low high other
    each-insert valid short j other h = elim (Bool-cases (ip =? j)) [
      | inl same ↦
          let e : table ≡ other = ground (arith, lookup-insert ip j table t.fwd) in rw (← e) short
      | inr apart ↦ valid.each j other (ground (arith, lookup-insert ip j table t.fwd))
    ]

  module _ (t : Tables F R) (valid : IsTable k most low high t) (ip : Text) (table : Dict F ℕ)
      (here : lookup ip t.fwd ≡ some table) where
    pub number-here : (j : Text) (g : F) → (ip =? j) ≡ true → number_at t j g ≡ lookup g table
    number-here j g same =
        ap (λ (x : Text). number_at t x g) (sym ((list_beq_iff ip j).0 same)) ∙ ap (in_table g) here

    pub renew-IsTable : (f : F) → IsTable k most low high (renew k ip f table t)
    unfolding renew
    renew-IsTable f = record {
      two_way = IsTwoWay-same k valid.two_way numbers (λ r. refl);
      each = each-insert t ip (move_to_end f table) t.rev valid short;
    }
      where
        old : IsShort most low high table
        old = valid.each ip table here

        short : IsShort most low high (move_to_end f table)
        short = (
          move_to_end-Distinct f table old.0,
          omega (arith, length-move_to_end f table old.0, old.1),
          λ g n h. old.2 g n (sym (lookup-move_to_end f g table) ∙ h),
        )

        numbers :
            (j : Text) (g : F)
            → number_at (record t { fwd = insert ip (move_to_end f table) t.fwd }) j g
              ≡ number_at t j g
        numbers j g = elim (Bool-cases (ip =? j)) [
          | inl same ↦
              rw (number-insert t ip (move_to_end f table) t.rev j g, same)
                (lookup-move_to_end f g table ∙ sym (number-here j g same))
          | inr other ↦ rw (number-insert t ip (move_to_end f table) t.rev j g, other)
        ]

    pub remember-IsTable :
        (f : F) (n : ℕ)
        → lookup f table ≡ none
        → lookup (k.rev_key f n) t.rev ≡ none
        → length table < most
        → low ≤ n
        → n < high
        → IsTable k most low high (remember k ip f n table t)
    unfolding remember
    remember-IsTable f n fresh unused room from below = record {
      two_way =
          IsTwoWay-added k valid.two_way ip f n (number-here ip f (=?_refl ip) ∙ fresh) unused
            numbers (λ r. lookup-insert (k.rev_key f n) r (ip, k.inner f) t.rev);
      each =
          each-insert t ip (insert f n table) (insert (k.rev_key f n) (ip, k.inner f) t.rev) valid
            short;
    }
      where
        old : IsShort most low high table
        old = valid.each ip table here

        short : IsShort most low high (insert f n table)
        short = (
          insert-Distinct f n table old.0,
          omega (arith, length-insert_fresh f n table fresh, room),
          λ g m h. ground (arith, lookup-insert f g n table, old.2 g m, from, below),
        )

        numbers :
            (j : Text) (g : F)
            → number_at
                (record {
                  fwd = insert ip (insert f n table) t.fwd;
                  rev = insert (k.rev_key f n) (ip, k.inner f) t.rev;
                })
                j
                g
              ≡ (if ip =? j && f =? g then some n else number_at t j g)
        numbers j g = elim (Bool-cases (ip =? j)) [
          | inl same ↦
              rw
                (
                  number-insert t ip (insert f n table)
                      (insert (k.rev_key f n) (ip, k.inner f) t.rev) j g,
                  same,
                  number-here j g same,
                )
                (lookup-insert f g n table)
          | inr other ↦ rw (
            number-insert t ip (insert f n table) (insert (k.rev_key f n) (ip, k.inner f) t.rev) j
                g,
            other,
          )
        ]
