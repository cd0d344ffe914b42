-- ===== src/Base/Dict.antt =====
-- Python's dictionaries: association lists in insertion order.
use Prim.Native.Nat.{◌+◌, ◌≤◌}
use mathlib.Core.Path.{◌≡◌, refl, ◌∙◌}
use mathlib.Core.Logic.{inl, inr}
use mathlib.Core.Bool.{Bool, true, false}
use mathlib.Core.List.{List, [], ◌∷◌, ◌++◌}
use mathlib.Core.Option.{Option, none, some}
use native.Mathlib.Omega.{arith}
use vpn_core.Base.Tests.{if◌then◌else◌, Option-cases, Bool-cases}
use vpn_core.Base.Lists.{length, length-append}
use vpn_core.Base.Eq.{Eq, ◌=?◌}

abbrev pub Dict {ℓ κ} : Type ℓ → Type κ → Type (ℓ ⊔ κ)
Dict K V = List (K × V)

-- What an update of the row with a key does to the row of a key.
abbrev pub changed {κ} : {V : Type κ} → Bool → (V → V) → Option V → Option V
changed b f none = none
changed b f (some v) = some (if b then f v else v)

module _ {ℓ κ} {K : Type ℓ} {V : Type κ} ⦃e : Eq K⦄ where
  -- `d.get(k)`.
  unfoldable pub lookup : K → Dict K V → Option V
  lookup k [] = none
  lookup k ((j, v) ∷ d) = if j =? k then some v else lookup k d

  -- `k in d`.
  abbrev pub has : K → Dict K V → Bool
  has k d = elim (lookup k d) [ none ↦ false | some _ ↦ true ]

  -- `d[k] = v`: a known key keeps its place, a new one goes to the end.
  unfoldable pub insert : K → V → Dict K V → Dict K V
  insert k v [] = (k, v) ∷ []
  insert k v ((j, w) ∷ d) = if j =? k then (j, v) ∷ d else (j, w) ∷ insert k v d

  -- `d.pop(k, None)`.
  unfoldable pub delete : K → Dict K V → Dict K V
  delete k [] = []
  delete k ((j, w) ∷ d) = if j =? k then delete k d else (j, w) ∷ delete k d

  -- `d.move_to_end(k)` for a key that is there.
  unfoldable pub move_to_end : K → Dict K V → Dict K V
  move_to_end k d = elim (lookup k d) [ none ↦ d | some v ↦ delete k d ++ (k, v) ∷ [] ]

  -- No key twice.
  abbrev pub Distinct : Dict K V → Type κ
  Distinct [] = Unit
  Distinct ((k, v) ∷ d) = (lookup k d ≡ none) × Distinct d

  pub lookup-insert :
      (k j : K) (v : V) (d : Dict K V)
      → lookup j (insert k v d) ≡ (if k =? j then some v else lookup j d)
  unfolding lookup insert
  lookup-insert k j v [] = refl
  lookup-insert k j v ((i, w) ∷ d) =
      ground (arith, e.beq_iff k j, e.beq_iff i k, e.beq_iff i j, lookup-insert k j v d)

  pub lookup-delete :
      (k j : K) (d : Dict K V) → lookup j (delete k d) ≡ (if k =? j then none else lookup j d)
  unfolding lookup delete
  lookup-delete k j [] = ground arith
  lookup-delete k j ((i, w) ∷ d) =
      ground (arith, e.beq_iff k j, e.beq_iff i k, e.beq_iff i j, lookup-delete k j d)

  lookup-append :
      (j : K) (c d : Dict K V)
      → lookup j (c ++ d) ≡ elim (lookup j c) [ none ↦ lookup j d | some v ↦ some v ]
  unfolding lookup
  lookup-append j [] d = refl
  lookup-append j ((i, w) ∷ c) d = ground (arith, lookup-append j c d)

  pub move_to_end_absent : (k : K) (d : Dict K V) → lookup k d ≡ none → move_to_end k d ≡ d
  unfolding move_to_end
  move_to_end_absent k d h = rw (h, move_to_end)

  pub move_to_end_found :
      (k : K) (v : V) (d : Dict K V)
      → lookup k d ≡ some v
      → move_to_end k d ≡ delete k d ++ (k, v) ∷ []
  unfolding move_to_end
  move_to_end_found k v d h = rw (h, move_to_end)

  pub lookup-move_to_end : (k j : K) (d : Dict K V) → lookup j (move_to_end k d) ≡ lookup j d
  unfolding lookup
  lookup-move_to_end k j d = elim (Option-cases (lookup k d)) [
    | inl absent ↦ rw (move_to_end_absent k d absent)
    | inr (v, found) ↦ rw (move_to_end_found k v d found) (
        ground
          (arith, e.beq_iff k j, lookup-append j (delete k d) ((k, v) ∷ []), lookup-delete k j d))
  ]

  pub insert-Distinct : (k : K) (v : V) (d : Dict K V) → Distinct d → Distinct (insert k v d)
  unfolding insert lookup
  insert-Distinct k v [] h = (refl, tt)
  insert-Distinct k v ((j, w) ∷ d) h =
      ground (arith, e.beq_iff j k, e.beq_iff k j, insert-Distinct k v d h.1, lookup-insert k j v d)

  pub delete-Distinct : (k : K) (d : Dict K V) → Distinct d → Distinct (delete k d)
  unfolding delete lookup
  delete-Distinct k [] h = tt
  delete-Distinct k ((j, w) ∷ d) h = ground (arith, delete-Distinct k d h.1, lookup-delete k j d)

  snoc-Distinct :
      (k : K) (v : V) (d : Dict K V) → Distinct d → lookup k d ≡ none → Distinct (d ++ (k, v) ∷ [])
  unfolding lookup
  snoc-Distinct k v [] h fresh = (refl, tt)
  snoc-Distinct k v ((j, w) ∷ d) h fresh = ground (
    arith,
    e.beq_iff k j,
    e.beq_iff j k,
    lookup-append j d ((k, v) ∷ []),
    snoc-Distinct k v d h.1,
  )

  pub move_to_end-Distinct : (k : K) (d : Dict K V) → Distinct d → Distinct (move_to_end k d)
  unfolding lookup
  move_to_end-Distinct k d h = elim (Option-cases (lookup k d)) [
    | inl absent ↦ rw (move_to_end_absent k d absent) h
    | inr (v, found) ↦ rw (move_to_end_found k v d found) (
        snoc-Distinct k v (delete k d) (delete-Distinct k d h)
          (ground (arith, lookup-delete k k d, e.beq_iff k k)))
  ]

  pub length-insert_fresh :
      (k : K) (v : V) (d : Dict K V) → lookup k d ≡ none → length (insert k v d) ≡ length d + 1
  unfolding lookup insert
  length-insert_fresh k v [] h = omega arith
  length-insert_fresh k v ((j, w) ∷ d) h = ground (arith, length-insert_fresh k v d)

  pub length-insert_le : (k : K) (v : V) (d : Dict K V) → length (insert k v d) ≤ length d + 1
  unfolding insert
  length-insert_le k v [] = omega arith
  length-insert_le k v ((j, w) ∷ d) = ground (arith, length-insert_le k v d)

  delete_absent : (k : K) (d : Dict K V) → lookup k d ≡ none → delete k d ≡ d
  unfolding lookup delete
  delete_absent k [] h = refl
  delete_absent k ((j, w) ∷ d) h = ground (arith, delete_absent k d)

  length-delete_found :
      (k : K) (v : V) (d : Dict K V)
      → Distinct d
      → lookup k d ≡ some v
      → length (delete k d) + 1 ≡ length d
  unfolding lookup delete
  length-delete_found k v [] h found = cc
  length-delete_found k v ((j, w) ∷ d) h found =
      ground (arith, e.beq_iff j k, delete_absent k d, length-delete_found k v d h.1)

  pub length-move_to_end : (k : K) (d : Dict K V) → Distinct d → length (move_to_end k d) ≡ length d
  length-move_to_end k d h = elim (Option-cases (lookup k d)) [
    | inl absent ↦ rw (move_to_end_absent k d absent)
    | inr (v, found) ↦ rw (move_to_end_found k v d found) (
        omega (
          arith,
          length-append {κ ⊔ ℓ} (delete k d) ((k, v) ∷ []),
          length-delete_found k v d h found,
        ))
  ]

  pub length-delete-le : (k : K) (d : Dict K V) → length (delete k d) ≤ length d
  unfolding delete
  length-delete-le k [] = omega arith
  length-delete-le k ((j, w) ∷ d) = ground (arith, length-delete-le k d)

  -- `UPDATE ... WHERE key = k`, and the update of every row.
  unfoldable pub modify : K → (V → V) → Dict K V → Dict K V
  modify k f [] = []
  modify k f ((j, v) ∷ d) = (j, if j =? k then f v else v) ∷ modify k f d

  unfoldable pub modify_all : (V → V) → Dict K V → Dict K V
  modify_all f [] = []
  modify_all f ((j, v) ∷ d) = (j, f v) ∷ modify_all f d

  pub lookup-modify :
      (k j : K) (f : V → V) (d : Dict K V)
      → lookup j (modify k f d) ≡ changed (k =? j) f (lookup j d)
  unfolding lookup modify
  lookup-modify k j f [] = refl
  lookup-modify k j f ((i, v) ∷ d) = elim (Bool-cases (i =? j)) [
    | inl here ↦
        let e : (i =? k) ≡ (k =? j) = ground (arith, e.beq_iff i j, e.beq_iff i k, e.beq_iff k j) in
        rw (here, e)
    | inr other ↦ rw other (lookup-modify k j f d)
  ]

  pub lookup-modify_all :
      (j : K) (f : V → V) (d : Dict K V) → lookup j (modify_all f d) ≡ changed true f (lookup j d)
  unfolding lookup modify_all
  lookup-modify_all j f [] = refl
  lookup-modify_all j f ((i, v) ∷ d) = elim (Bool-cases (i =? j)) [
    | inl here ↦ rw here
    | inr other ↦ rw other (lookup-modify_all j f d)
  ]

  pub modify-Distinct : (k : K) (f : V → V) (d : Dict K V) → Distinct d → Distinct (modify k f d)
  unfolding modify
  modify-Distinct k f [] h = tt
  modify-Distinct k f ((j, v) ∷ d) h = (lookup-modify k j f d ∙ rw h.0, modify-Distinct k f d h.1)

  pub modify_all-Distinct : (f : V → V) (d : Dict K V) → Distinct d → Distinct (modify_all f d)
  unfolding modify_all
  modify_all-Distinct f [] h = tt
  modify_all-Distinct f ((j, v) ∷ d) h =
      (lookup-modify_all j f d ∙ rw h.0, modify_all-Distinct f d h.1)
