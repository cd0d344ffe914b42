-- ===== src/Server/Pool.antt =====
-- The pool of addresses of Server/VPNServer.py: no address is lost or given out twice.
use vpn_core.Base.{
  ℕ, zero, suc, ◌+◌, ◌≤◌, ◌≡◌, inl, inr, refl, Bool, true, false, ◌||◌, Option, List, [], ◌∷◌, ◌++◌,
  arith,
}
use vpn_core.Base.Tests.{if◌then◌else◌, Bool-cases}
use vpn_core.Base.Lists.{length, is_empty}
use vpn_core.Base.Eq.{
  nat_eq, pair_eq, list_eq, ◌=?◌, =?_iff, is_in, discard, is_in-add, is_in-discard,
}
use vpn_core.Base.Dict.{Dict, lookup, has, delete, lookup-insert, lookup-delete}
use vpn_core.Base.Text.{Text}
use vpn_core.Base.Int.{ℤ, int_eq}
use vpn_core.Base.Result.{Result, ok, raise}
use vpn_core.Nat.Server.{unregister_client}
use vpn_core.Server.{
  Handler, VpnServer, assign_loop, assign_ip, with_pending, is_pending, is_active, register_session,
  unregister_session,
}

-- How often an address stands in a list.
unfoldable pub count : Text → List Text → ℕ
count x [] = 0
count x (y ∷ ys) = (if y =? x then 1 else 0) + count x ys

abbrev pub one_if : Bool → ℕ
one_if true = 1
one_if false = 0

-- In how many places an address is: free, pending or in a session.
unfoldable pub places : VpnServer → Text → ℕ
unfolding count is_in lookup
places s x = count x s.free_ips + one_if (is_in x s.pending) + one_if (has x s.active_by_ip)

count-append : (x : Text) (ys zs : List Text) → count x (ys ++ zs) ≡ count x ys + count x zs
unfolding count
count-append x [] zs = omega arith
count-append x (y ∷ ys) zs = omega (arith, count-append x ys zs)

is_in-count : (x : Text) (ys : List Text) → is_in x ys ≡ false → count x ys ≡ 0
unfolding count is_in
is_in-count x [] h = refl
is_in-count x (y ∷ ys) h = ground (arith, is_in-count x ys)

-- The address that the loop chooses is in no other place, and leaves the free ones once.
abbrev chosen_as : Text → Result Text → ℕ
chosen_as x (raise e) = 0
chosen_as x (ok ip) = one_if (ip =? x)

abbrev IsFresh : List Text → Dict Text ℕ → Result Text → Type 0
IsFresh pending active (raise e) = Unit
IsFresh pending active (ok ip) = (is_in ip pending ≡ false) × (has ip active ≡ false)

module _ (pending : List Text) (active : Dict Text ℕ) where
  count-assign_loop :
      (rounds : ℕ) (free : List Text) (x : Text)
      → count x (assign_loop rounds free pending active).0
          + chosen_as x (assign_loop rounds free pending active).1
        ≡ count x free
  unfolding assign_loop count
  count-assign_loop zero free x = omega arith
  count-assign_loop (suc rounds) [] x = refl
  count-assign_loop (suc rounds) (ip ∷ free) x =
      elim (Bool-cases (is_in ip pending || has ip active)) [
        | inl taken ↦ rw taken (
            omega
              (arith, count-assign_loop rounds (free ++ ip ∷ []) x, count-append x free (ip ∷ [])))
        | inr left_over ↦ rw left_over (ground arith)
      ]

  assign_loop-IsFresh :
      (rounds : ℕ) (free : List Text)
      → IsFresh pending active (assign_loop rounds free pending active).1
  unfolding assign_loop
  assign_loop-IsFresh zero free = tt
  assign_loop-IsFresh (suc rounds) [] = tt
  assign_loop-IsFresh (suc rounds) (ip ∷ free) =
      elim (Bool-cases (is_in ip pending || has ip active)) [
        | inl taken ↦ rw taken (assign_loop-IsFresh rounds (free ++ ip ∷ []))
        | inr left_over ↦ rw left_over (ground arith)
      ]

pending-count :
    (x : Text) (pending : List Text) (active : Dict Text ℕ) (r : Result Text)
    → IsFresh pending active r
    → one_if (is_in x (with_pending pending r)) ≡ one_if (is_in x pending) + chosen_as x r
pending-count x pending active (raise e) h = omega arith
pending-count x pending active (ok ip) h = ground (arith, is_in-add ip x pending, =?_iff ip x)

pub places-assign_ip : (s : VpnServer) (x : Text) → places (assign_ip s).0 x ≡ places s x
unfolding places assign_ip
places-assign_ip s x =
    let r : Result Text = (assign_loop (length s.free_ips) s.free_ips s.pending s.active_by_ip).1 in
    omega (
      arith,
      count-assign_loop s.pending s.active_by_ip (length s.free_ips) s.free_ips x,
      pending-count x s.pending s.active_by_ip r
          (assign_loop-IsFresh s.pending s.active_by_ip (length s.free_ips) s.free_ips),
    )

pub places-register_session :
    (s : VpnServer) (i : ℕ) (h : Handler) (x : Text)
    → is_pending s h.assigned_ip ≡ true
    → is_active s h.assigned_ip ≡ false
    → places (register_session s i h) x ≡ places s x
unfolding places register_session
places-register_session s i h x waiting apart = ground (
  arith,
  =?_iff h.assigned_ip x,
  is_in-discard h.assigned_ip x s.pending,
  lookup-insert h.assigned_ip x i s.active_by_ip,
)

one-count : (x : Text) (ys : List Text) → is_in x ys ≡ true → 1 ≤ count x ys
unfolding count is_in
one-count x [] h = absurd cc
one-count x (y ∷ ys) h = ground (arith, one-count x ys)

-- An address that was active, and nowhere else, is put back.
released_count :
    (free pending : List Text) (active : Dict Text ℕ) (ip x : Text)
    → has ip active ≡ true
    → count ip free + one_if (is_in ip pending) + one_if (has ip active) ≤ 1
    → count x (if is_in ip free then free else free ++ ip ∷ [])
        + one_if (is_in x (discard ip pending))
        + one_if (has x (delete ip active))
      ≡ count x free + one_if (is_in x pending) + one_if (has x active)
unfolding count
released_count free pending active ip x there once = elim (Bool-cases (is_in ip free)) [
  | inl twice ↦ absurd (ground (arith, one-count ip free twice))
  | inr gone ↦ rw gone (
      ground (
        arith,
        =?_iff ip x,
        count-append x free (ip ∷ []),
        is_in-discard ip x pending,
        lookup-delete ip x active,
      ))
]

-- A session ends.
pub places-unregister_session :
    (s : VpnServer) (i : ℕ) (h : Handler) (q : Option ℤ) (x : Text)
    → is_empty h.assigned_ip ≡ false
    → (unregister_client s.nat h.assigned_ip).1 ≡ ok tt
    → has h.assigned_ip s.active_by_ip ≡ true
    → places s h.assigned_ip ≤ 1
    → places (unregister_session s i h q).0 x ≡ places s x
unfolding places unregister_session
places-unregister_session s i h q x named returned active once =
    rw (named, returned)
      (released_count s.free_ips s.pending s.active_by_ip h.assigned_ip x active once)
