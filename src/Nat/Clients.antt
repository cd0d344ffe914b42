-- ===== src/Nat/Clients.antt =====
-- A client's table opened by `register_client`, and closed with all its numbers by
-- `unregister_client`, of Server/NAT.py.
use vpn_core.Base.{ℕ, ◌≡◌, ◌≢◌, ◌∙◌, sym, refl, false, none, some, [], ◌∷◌, inl, inr, arith}
use vpn_core.Base.Tests.{if◌then◌else◌, Bool-cases}
use vpn_core.Base.Eq.{Eq, ◌=?◌, =?_refl, nat_eq, list_eq, list_beq_iff}
use vpn_core.Base.Dict.{Dict, lookup, insert, delete, Distinct, lookup-delete}
use vpn_core.Base.Text.{Text}
use vpn_core.Nat.{Keying, Tables, forget}
use vpn_core.Nat.TwoWay.{IsTwoWay-same, IsTwoWay-cleared}
use vpn_core.Nat.Steps.{IsTable, number_at, number-insert, each-insert}

module _ {F R : Type 0} ⦃f_eq : Eq F⦄ ⦃r_eq : Eq R⦄ (k : Keying F R) where
  -- What `forget` leaves.
  forget_only :
      (table : Dict F ℕ) (rev : Dict R (Text × ℕ)) (r : R) (x : Text × ℕ)
      → lookup r (forget k table rev) ≡ some x
      → lookup r rev ≡ some x
  unfolding forget
  forget_only [] rev r x h = h
  forget_only ((f, n) ∷ rest) rev r x h = ground (
    arith,
    forget_only rest (delete (k.rev_key f n) rev) r x h,
    lookup-delete (k.rev_key f n) r rev,
  )

  forget_gone :
      (table : Dict F ℕ) (rev : Dict R (Text × ℕ)) (f : F) (n : ℕ) (x : Text × ℕ)
      → lookup f table ≡ some n
      → lookup (k.rev_key f n) (forget k table rev) ≢ some x
  unfolding forget lookup
  forget_gone [] rev f n x h e = cc
  forget_gone ((g, m) ∷ rest) rev f n x h e = elim (Bool-cases (g =? f)) [
    | inl same ↦ ground (
      arith,
      forget_only rest (delete (k.rev_key g m) rev) (k.rev_key f n) x e,
      lookup-delete (k.rev_key g m) (k.rev_key f n) rev,
      f_eq.beq_iff g f,
      r_eq.beq_iff (k.rev_key g m) (k.rev_key f n),
    )
    | inr other ↦ forget_gone rest (delete (k.rev_key g m) rev) f n x (ground arith) e
  ]

  forget_kept :
      (table : Dict F ℕ) (rev : Dict R (Text × ℕ)) (r : R)
      → Distinct table
      → ((f : F) (n : ℕ) → lookup f table ≡ some n → k.rev_key f n ≢ r)
      → lookup r (forget k table rev) ≡ lookup r rev
  unfolding forget lookup
  forget_kept [] rev r distinct apart = refl
  forget_kept ((g, m) ∷ rest) rev r distinct apart =
      forget_kept rest (delete (k.rev_key g m) rev) r distinct.1
        (λ f n h. apart f n (ground (arith, h, distinct.0, f_eq.beq_iff g f)))
      ∙ ground (
        arith,
        lookup-delete (k.rev_key g m) r rev,
        r_eq.beq_iff (k.rev_key g m) r,
        apart g m (rw (=?_refl g)),
      )

  module _ (most low high : ℕ) (t : Tables F R) (valid : IsTable k most low high t)
      (ip : Text) where
    pub register-IsTable :
        lookup ip t.fwd ≡ none → IsTable k most low high (record t { fwd = insert ip [] t.fwd })
    unfolding lookup
    register-IsTable absent = record {
      two_way = IsTwoWay-same k valid.two_way numbers (λ r. refl);
      each = each-insert k most low high t ip [] t.rev valid (ground arith);
    }
      where
        numbers :
            (j : Text) (g : F)
            → number_at (record t { fwd = insert ip [] t.fwd }) j g ≡ number_at t j g
        numbers j g = elim (Bool-cases (ip =? j)) [
          | inl same ↦
              rw (number-insert k most low high t ip [] t.rev j g, same)
                (ground (arith, list_beq_iff ip j))
          | inr other ↦ rw (number-insert k most low high t ip [] t.rev j g, other)
        ]

    pub unregister-IsTable :
        (table : Dict F ℕ)
        → lookup ip t.fwd ≡ some table
        → IsTable k most low high (record { fwd = delete ip t.fwd; rev = forget k table t.rev })
    unregister-IsTable table here = record {
      two_way = IsTwoWay-cleared k valid.two_way ip numbers gone (forget_only table t.rev) kept;
      each = λ j other h. valid.each j other (ground (arith, lookup-delete ip j t.fwd));
    }
      where
        numbers :
            (j : Text) (g : F)
            → number_at (record { fwd = delete ip t.fwd; rev = forget k table t.rev }) j g
              ≡ (if ip =? j then none else number_at t j g)
        numbers j g = elim (Bool-cases (ip =? j)) [
          | inl same ↦ rw (lookup-delete ip j t.fwd, same)
          | inr other ↦ rw (lookup-delete ip j t.fwd, other)
        ]

        at_here : (g : F) → number_at t ip g ≡ lookup g table
        at_here g = rw here

        gone : (r : R) (v : ℕ) → lookup r (forget k table t.rev) ≢ some (ip, v)
        gone r v h =
            let (f, n, at_f, key, value) =
              valid.two_way.back r ip v (forget_only table t.rev r (ip, v) h) in
            forget_gone table t.rev f n (ip, v) (sym (at_here f) ∙ at_f) (rw key h)

        kept :
            (r : R) (j : Text) (v : ℕ)
            → (ip =? j) ≡ false
            → lookup r t.rev ≡ some (j, v)
            → lookup r (forget k table t.rev) ≡ some (j, v)
        kept r j v other h =
            forget_kept table t.rev r (valid.each ip table here).0 (λ f n at_f e.
              ground
                (arith, list_beq_iff ip j, valid.two_way.forth ip f n (at_here f ∙ at_f), e, h))
            ∙ h
