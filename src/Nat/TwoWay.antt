-- ===== src/Nat/TwoWay.antt =====
-- The forward and the reverse table of Server/NAT.py as functions, each the inverse of the other,
-- and what keeps them so: an entry removed from both, an entry added to both, a client removed.
use vpn_core.Base.{ℕ, ◌≡◌, ◌≢◌, ◌∙◌, sym, false, ◌&&◌, Option, none, some, inl, inr, arith}
use vpn_core.Base.Tests.{if◌then◌else◌, Bool-cases}
use vpn_core.Base.Eq.{Eq, ◌=?◌, nat_eq, list_eq, list_beq_iff}
use vpn_core.Base.Text.{Text}
use vpn_core.Nat.{Keying}

module _ {F R : Type 0} ⦃f_eq : Eq F⦄ ⦃r_eq : Eq R⦄ (k : Keying F R) where
  pub record IsTwoWay (number : Text → F → Option ℕ) (owner : R → Option (Text × ℕ)) : Type 0 where
    pub forth :
        (ip : Text) (f : F) (n : ℕ)
        → number ip f ≡ some n
        → owner (k.rev_key f n) ≡ some (ip, k.inner f)
    pub back :
        (r : R) (ip : Text) (v : ℕ)
        → owner r ≡ some (ip, v)
        → (f : F) × (n : ℕ) × (number ip f ≡ some n) × (k.rev_key f n ≡ r) × (k.inner f ≡ v)

  module _ {number number' : Text → F → Option ℕ} {owner owner' : R → Option (Text × ℕ)}
      (old : IsTwoWay number owner) where
    -- Tables with the same entries.
    pub IsTwoWay-same :
        ((ip : Text) (f : F) → number' ip f ≡ number ip f)
        → ((r : R) → owner' r ≡ owner r)
        → IsTwoWay number' owner'
    IsTwoWay-same numbers owners = record {
      forth = λ ip f n h. owners _ ∙ old.forth ip f n (sym (numbers ip f) ∙ h);
      back = λ r ip v h.
          let (f, n, at_f, key, value) = old.back r ip v (sym (owners r) ∙ h) in
          (f, n, numbers ip f ∙ at_f, key, value);
    }

    -- One entry less.
    module _ (ip : Text) (f : F) (n : ℕ) (present : number ip f ≡ some n)
        (numbers : (j : Text) (g : F)
          → number' j g ≡ (if ip =? j && f =? g then none else number j g))
        (owners : (r : R) → owner' r ≡ (if k.rev_key f n =? r then none else owner r)) where
      removed_forth :
          (j : Text) (g : F) (m : ℕ)
          → number' j g ≡ some m
          → owner' (k.rev_key g m) ≡ some (j, k.inner g)
      removed_forth j g m h = ground (
        arith,
        numbers j g,
        owners (k.rev_key g m),
        list_beq_iff ip j,
        f_eq.beq_iff f g,
        r_eq.beq_iff (k.rev_key f n) (k.rev_key g m),
        old.forth j g m,
        old.forth ip f n present,
        k.separate f g n m,
      )

      removed_back :
          (r : R) (j : Text) (v : ℕ)
          → owner' r ≡ some (j, v)
          → (g : F) × (m : ℕ) × (number' j g ≡ some m) × (k.rev_key g m ≡ r) × (k.inner g ≡ v)
      removed_back r j v h =
          let (g, m, at_g, key, value) = old.back r j v (ground (arith, owners r)) in
          (
            g,
            m,
            ground (
              arith,
              numbers j g,
              owners r,
              list_beq_iff ip j,
              f_eq.beq_iff f g,
              r_eq.beq_iff (k.rev_key f n) r,
              at_g,
              present,
            ),
            key,
            value,
          )

      pub IsTwoWay-removed : IsTwoWay number' owner'
      IsTwoWay-removed = record { forth = removed_forth; back = removed_back }

    -- One entry more, for a flow that has none, with a number that no flow has.
    module _ (ip : Text) (f : F) (n : ℕ) (fresh : number ip f ≡ none)
        (unused : owner (k.rev_key f n) ≡ none)
        (numbers : (j : Text) (g : F)
          → number' j g ≡ (if ip =? j && f =? g then some n else number j g))
        (owners : (r : R)
          → owner' r ≡ (if k.rev_key f n =? r then some (ip, k.inner f) else owner r)) where
      added_forth :
          (j : Text) (g : F) (m : ℕ)
          → number' j g ≡ some m
          → owner' (k.rev_key g m) ≡ some (j, k.inner g)
      added_forth j g m h = ground (
        arith,
        numbers j g,
        owners (k.rev_key g m),
        list_beq_iff ip j,
        f_eq.beq_iff f g,
        r_eq.beq_iff (k.rev_key f n) (k.rev_key g m),
        old.forth j g m,
      )

      added_back :
          (r : R) (j : Text) (v : ℕ)
          → owner' r ≡ some (j, v)
          → (g : F) × (m : ℕ) × (number' j g ≡ some m) × (k.rev_key g m ≡ r) × (k.inner g ≡ v)
      added_back r j v h = elim (Bool-cases (k.rev_key f n =? r)) [
        | inl same ↦ (
          f,
          n,
          ground (arith, numbers j f, owners r, list_beq_iff ip j, f_eq.beq_iff f f),
          (r_eq.beq_iff (k.rev_key f n) r).0 same,
          ground (arith, owners r),
        )
        | inr other ↦
            let (g, m, at_g, key, value) = old.back r j v (ground (arith, owners r)) in
            (
              g,
              m,
              ground (arith, numbers j g, list_beq_iff ip j, f_eq.beq_iff f g, at_g, fresh),
              key,
              value,
            )
      ]

      pub IsTwoWay-added : IsTwoWay number' owner'
      IsTwoWay-added = record { forth = added_forth; back = added_back }

    -- All entries of one client less.
    module _ (ip : Text)
        (numbers : (j : Text) (g : F) → number' j g ≡ (if ip =? j then none else number j g))
        (gone : (r : R) (v : ℕ) → owner' r ≢ some (ip, v))
        (only : (r : R) (x : Text × ℕ) → owner' r ≡ some x → owner r ≡ some x)
        (kept : (r : R) (j : Text) (v : ℕ)
          → (ip =? j) ≡ false
          → owner r ≡ some (j, v)
          → owner' r ≡ some (j, v)) where
      cleared_back :
          (r : R) (j : Text) (v : ℕ)
          → owner' r ≡ some (j, v)
          → (g : F) × (m : ℕ) × (number' j g ≡ some m) × (k.rev_key g m ≡ r) × (k.inner g ≡ v)
      cleared_back r j v h =
          let (g, m, at_g, key, value) = old.back r j v (only r (j, v) h) in
          (g, m, ground (arith, numbers j g, list_beq_iff ip j, gone r v, at_g, h), key, value)

      cleared_forth :
          (j : Text) (g : F) (m : ℕ)
          → number' j g ≡ some m
          → owner' (k.rev_key g m) ≡ some (j, k.inner g)
      cleared_forth j g m h =
          ground (arith, numbers j g, old.forth j g m, kept (k.rev_key g m) j (k.inner g))

      pub IsTwoWay-cleared : IsTwoWay number' owner'
      IsTwoWay-cleared = record { forth = cleared_forth; back = cleared_back }
