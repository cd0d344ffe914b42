-- ===== src/Nat/Flows.antt =====
-- `number_of` and `touch` of Server/NAT.py's tables keep their invariant, and the number that a
-- flow is given is its own.
use vpn_core.Base.{ℕ, ◌≤◌, ◌<◌, ◌≡◌, ◌∙◌, refl, ap, ◌&&◌, none, some, [], ◌∷◌, inl, inr, arith}
use vpn_core.Base.Tests.{leb, leb→le, leb→lt, if◌then◌else◌, Bool-cases, Option-cases}
use vpn_core.Base.Lists.{length}
use vpn_core.Base.Eq.{Eq, ◌=?◌, =?_refl, nat_eq, list_eq, list_beq_iff}
use vpn_core.Base.Dict.{
  Dict, lookup, has, insert, delete, move_to_end, lookup-insert, lookup-delete, lookup-move_to_end,
}
use vpn_core.Base.Text.{Text}
use vpn_core.Base.Result.{Error, Result, ok, raise, ok-injective, Result-cases}
use vpn_core.Nat.{
  Keying, Tables, pop_first, evict, remember, renew, touch, new_flow, open_flow, number_of,
}
use vpn_core.Nat.TwoWay.{IsTwoWay-removed}
use vpn_core.Nat.Steps.{
  IsShort, IsTable, number_at, number-here, number-insert, each-insert, renew-IsTable,
  remember-IsTable,
}

module _ {F R : Type 0} ⦃f_eq : Eq F⦄ ⦃r_eq : Eq R⦄ (k : Keying F R) (most low high : ℕ) where
  -- The invariant, and the same clients.
  pub record IsKept (t u : Tables F R) : Type 0 where
    pub valid : IsTable k most low high u
    pub domain : (j : Text) → has j u.fwd ≡ has j t.fwd

  IsKept-trans : {t u v : Tables F R} → IsKept t u → IsKept u v → IsKept t v
  IsKept-trans one two = record { valid = two.valid; domain = λ j. two.domain j ∙ one.domain j }

  -- A flow has got its number, if it has got one.
  pub record IsNumbered (ip : Text) (f : F) (t : Tables F R) (r : Tables F R × Result ℕ)
      : Type 0 where
    pub kept : IsKept t r.0
    pub owns : (n : ℕ) → r.1 ≡ ok n → number_at r.0 ip f ≡ some n

  -- After an eviction there is room.
  record IsEvicted (ip : Text) (table : Dict F ℕ) (t : Tables F R) (r : Result (Tables F R))
      : Type 0 where
    out : Tables F R
    returns : r ≡ ok out
    kept : IsKept t out
    rest : Dict F ℕ
    here : lookup ip out.fwd ≡ some rest
    room : length rest < most
    absent : (f : F) → lookup f table ≡ none → lookup f rest ≡ none

  module _ (t : Tables F R) (valid : IsTable k most low high t) (ip : Text) where
    domain-insert :
        (table new : Dict F ℕ) (j : Text)
        → lookup ip t.fwd ≡ some table
        → has j (insert ip new t.fwd) ≡ has j t.fwd
    domain-insert table new j here = ground (arith, lookup-insert ip j new t.fwd, list_beq_iff ip j)

    pop_first-IsEvicted :
        (table : Dict F ℕ)
        → lookup ip t.fwd ≡ some table
        → 0 < most
        → most ≤ length table
        → IsEvicted ip table t (pop_first k ip table t)
    unfolding lookup
    pop_first-IsEvicted [] here positive full = absurd (omega arith)
    pop_first-IsEvicted ((f, n) ∷ rest) here positive full = record {
      out = record { fwd = insert ip rest t.fwd; rev = delete (k.rev_key f n) t.rev };
      returns = refl;
      kept = record {
        valid = record {
          two_way =
              IsTwoWay-removed k valid.two_way ip f n
                (number-here k most low high t valid ip ((f, n) ∷ rest) here ip f (=?_refl ip)
                  ∙ rw (=?_refl f))
                numbers (λ r. lookup-delete (k.rev_key f n) r t.rev);
          each = each-insert k most low high t ip rest (delete (k.rev_key f n) t.rev) valid short;
        };
        domain = λ j. domain-insert ((f, n) ∷ rest) rest j here;
      };
      rest = rest;
      here = lookup-insert ip ip rest t.fwd ∙ rw (=?_refl ip);
      room = omega (arith, old.1);
      absent = λ g h. ground arith;
    }
      where
        old : IsShort most low high ((f, n) ∷ rest)
        old = valid.each ip ((f, n) ∷ rest) here

        short : IsShort most low high rest
        short = (
          old.0.1,
          omega (arith, old.1),
          λ g m h. ground (arith, old.2 g m, old.0.0, f_eq.beq_iff f g),
        )

        numbers :
            (j : Text) (g : F)
            → number_at
                (record { fwd = insert ip rest t.fwd; rev = delete (k.rev_key f n) t.rev })
                j
                g
              ≡ (if ip =? j && f =? g then none else number_at t j g)
        numbers j g = elim (Bool-cases (ip =? j)) [
          | inl same ↦
              rw
                (
                  number-insert k most low high t ip rest (delete (k.rev_key f n) t.rev) j g,
                  same,
                  number-here k most low high t valid ip ((f, n) ∷ rest) here j g same,
                )
                (ground (arith, old.0.0, f_eq.beq_iff f g))
          | inr other ↦
              rw (number-insert k most low high t ip rest (delete (k.rev_key f n) t.rev) j g, other)
        ]

    renew-IsKept :
        (f : F) (table : Dict F ℕ) → lookup ip t.fwd ≡ some table → IsKept t (renew k ip f table t)
    unfolding renew
    renew-IsKept f table here = record {
      valid = renew-IsTable k most low high t valid ip table here f;
      domain = λ j. domain-insert table (move_to_end f table) j here;
    }

    IsKept-same : IsKept t t
    IsKept-same = record { valid = valid; domain = λ j. refl }

    renew-number :
        (f : F) (table : Dict F ℕ)
        → lookup ip t.fwd ≡ some table
        → number_at (renew k ip f table t) ip f ≡ lookup f table
    unfolding renew
    renew-number f table here =
        number-insert k most low high t ip (move_to_end f table) t.rev ip f
        ∙ rw (=?_refl ip) (lookup-move_to_end f f table)

    pub touch-IsKept : (f : F) → IsKept t (touch k ip f t)
    unfolding touch
    touch-IsKept f = elim (Option-cases (lookup ip t.fwd)) [
      | inl absent ↦ rw (absent, touch) IsKept-same
      | inr (table, here) ↦
          rw (here, touch)
            (elim (Bool-cases (has f table)) [
              | inl there ↦ rw there (renew-IsKept f table here)
              | inr gone ↦ rw gone IsKept-same
            ])
    ]

    failed-IsNumbered :
        {u : Tables F R} {e : Error} (f : F) → IsKept t u → IsNumbered ip f t (u, raise e)
    failed-IsNumbered f kept = record { kept = kept; owns = λ n h. cc }

  -- The choice of a number gives a free one in range.
  abbrev pub IsSound : F → (Dict R (Text × ℕ) → Result ℕ) → Type 0
  IsSound f choose =
      (rev : Dict R (Text × ℕ)) (n : ℕ)
      → choose rev ≡ ok n
      → (lookup (k.rev_key f n) rev ≡ none) × (low ≤ n) × (n < high)

  module _ (choose : Dict R (Text × ℕ) → Result ℕ) (f : F) (sound : IsSound f choose)
      (ip : Text) where
    new_flow-IsNumbered :
        (t : Tables F R) (table : Dict F ℕ)
        → IsTable k most low high t
        → lookup ip t.fwd ≡ some table
        → lookup f table ≡ none
        → length table < most
        → IsNumbered ip f t (new_flow k choose ip f t)
    unfolding remember
    new_flow-IsNumbered t table valid here fresh room = elim (Result-cases (choose t.rev)) [
      | inl (e, failed) ↦
          rw (failed, new_flow) (failed-IsNumbered t valid ip f (IsKept-same t valid ip))
      | inr (n, found) ↦
          let (unused, from, below) = sound t.rev n found in
          rw (found, here, new_flow)
            (record {
              kept = record {
                valid =
                    remember-IsTable k most low high t valid ip table here f n fresh unused room
                      from below;
                domain = λ j. domain-insert t valid ip table (insert f n table) j here;
              };
              owns = λ m h.
                  number-insert k most low high t ip (insert f n table)
                    (insert (k.rev_key f n) (ip, k.inner f) t.rev) ip f
                  ∙ rw (=?_refl ip)
                      (lookup-insert f f n table ∙ rw (=?_refl f) (ap some (ok-injective h)));
            })
    ]

    open_flow-IsNumbered :
        (t : Tables F R) (table : Dict F ℕ)
        → 0 < most
        → IsTable k most low high t
        → lookup ip t.fwd ≡ some table
        → lookup f table ≡ none
        → IsNumbered ip f t (open_flow k most choose ip f table t)
    unfolding open_flow evict
    open_flow-IsNumbered t table positive valid here fresh =
        elim (Bool-cases (leb most (length table))) [
          | inl full ↦
              let ev : IsEvicted ip table t (pop_first k ip table t) =
                pop_first-IsEvicted t valid ip table here positive (leb→le _ _ full) in
              let made =
                new_flow-IsNumbered ev.out ev.rest ev.kept.valid ev.here (ev.absent f fresh)
                  ev.room in
              rw (full, here, ev.returns)
                (record { kept = IsKept-trans ev.kept made.kept; owns = made.owns })
          | inr room ↦ rw room (new_flow-IsNumbered t table valid here fresh (leb→lt _ _ room))
        ]

    pub number_of-IsNumbered :
        (t : Tables F R)
        → 0 < most
        → IsTable k most low high t
        → IsNumbered ip f t (number_of k most choose ip f t)
    unfolding number_of
    number_of-IsNumbered t positive valid = elim (Option-cases (lookup ip t.fwd)) [
      | inl absent ↦
          rw (absent, number_of) (failed-IsNumbered t valid ip f (IsKept-same t valid ip))
      | inr (table, here) ↦
          rw (here, number_of)
            (elim (Option-cases (lookup f table)) [
              | inl fresh ↦ rw fresh (open_flow-IsNumbered t table positive valid here fresh)
              | inr (n, there) ↦ rw there (record {
                kept = renew-IsKept t valid ip f table here;
                owns =
                    λ m h. renew-number t valid ip f table here ∙ there ∙ ap some (ok-injective h);
              })
            ])
    ]
