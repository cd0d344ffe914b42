-- ===== src/Nat.antt =====
-- Server/NAT.py: the pair of tables that the port translation and the ICMP translation keep alike,
-- and the search for a free number. The class is in Nat/Server.
pub mod Allocate
pub mod TwoWay
pub mod Steps
pub mod Flows
pub mod Clients
pub mod State
pub mod History
pub mod Sent
pub mod Answers
pub mod Delivery
pub mod Server
use vpn_core.Base.{
  ℕ, zero, suc, ◌+◌, ◌≡◌, Bool, true, false, Option, none, some, List, [], ◌∷◌, arith,
}
use vpn_core.Base.Tests.{leb, if◌then◌else◌}
use vpn_core.Base.Lists.{length}
use vpn_core.Base.Eq.{Eq, nat_eq, pair_eq, list_eq}
use vpn_core.Base.Dict.{Dict, lookup, has, insert, delete, move_to_end}
use vpn_core.Base.Text.{Text}
use vpn_core.Base.Result.{Result, ok, raise, key_error, runtime_error, or_raise, ◌>>=◌}

-- How a client's flow and its number make the key and the value of the reverse table.
pub record Keying (F R : Type 0) : Type 0 where
  pub rev_key : F → ℕ → R
  pub inner : F → ℕ
  pub separate :
      (f g : F) (n m : ℕ) → rev_key f n ≡ rev_key g m → inner f ≡ inner g → (f ≡ g) × (n ≡ m)

pub l4_separate :
    (f g : ℕ × ℕ) (n m : ℕ) → ◌≡◌ {A = ℕ × ℕ} (f.0, n) (g.0, m) → f.1 ≡ g.1 → (f ≡ g) × (n ≡ m)
l4_separate (p, s) (q, r) n m keys ports = ground arith

-- `_l4_fwd` maps a client to `(proto, src_port) → nat_port`, `_l4_rev` maps `(proto, nat_port)` to
-- `(client_ip, src_port)`.
abbrev pub l4_keying : Keying (ℕ × ℕ) (ℕ × ℕ)
l4_keying = record { rev_key = λ f n. (f.0, n); inner = λ f. f.1; separate = l4_separate }

-- `_icmp_fwd` maps a client to `original_id → nat_id`, `_icmp_rev` maps `nat_id` to
-- `(client_ip, original_id)`.
abbrev pub icmp_keying : Keying ℕ ℕ
icmp_keying = record {
  rev_key = λ f n. n;
  inner = λ f. f;
  separate = λ f g n m keys ids. (ids, keys);
}

pub record Tables (F R : Type 0) : Type 0 where
  pub fwd : Dict Text (Dict F ℕ)
  pub rev : Dict R (Text × ℕ)

module _ {F R : Type 0} ⦃f_eq : Eq F⦄ ⦃r_eq : Eq R⦄ (k : Keying F R) where
  -- `popitem(last=False)` on the client's table, and the removal of its reverse entry.
  abbrev pub pop_first : Text → Dict F ℕ → Tables F R → Result (Tables F R)
  pop_first ip [] t = raise key_error
  pop_first ip ((f, n) ∷ rest) t =
      ok (record { fwd = insert ip rest t.fwd; rev = delete (k.rev_key f n) t.rev })

  -- `_evict_l4_lru` and `_evict_icmp_lru`.
  unfoldable pub evict : Text → Tables F R → Result (Tables F R)
  evict ip t = do table ← or_raise (lookup ip t.fwd) key_error; pop_first ip table t

  -- `table[flow] = n` and the reverse entry.
  unfoldable pub remember : Text → F → ℕ → Dict F ℕ → Tables F R → Tables F R
  remember ip f n table t = record {
    fwd = insert ip (insert f n table) t.fwd;
    rev = insert (k.rev_key f n) (ip, k.inner f) t.rev;
  }

  -- The use of an entry of a client's table, which moves to the end.
  unfoldable pub renew : Text → F → Dict F ℕ → Tables F R → Tables F R
  renew ip f table t = record t { fwd = insert ip (move_to_end f table) t.fwd }

  -- With room in the client's table: the choice of a number, and its entries. `table` is the object
  -- that `fwd[ip]` holds.
  abbrev pub new_flow :
      (Dict R (Text × ℕ) → Result ℕ) → Text → F → Tables F R → Tables F R × Result ℕ
  new_flow choose ip f t = elim (choose t.rev) [
    | raise e ↦ (t, raise e)
    | ok n ↦ elim (lookup ip t.fwd) [
      | none ↦ (t, raise key_error)
      | some table ↦ (remember ip f n table t, ok n)
    ]
  ]

  -- A new flow of a client, for which the oldest gives way when `most` flows are there.
  unfoldable pub open_flow :
      ℕ → (Dict R (Text × ℕ) → Result ℕ) → Text → F → Dict F ℕ → Tables F R → Tables F R × Result ℕ
  unfolding evict remember
  open_flow most choose ip f table t =
      if leb most (length table)
      then (elim (evict ip t) [ raise e ↦ (t, raise e) | ok u ↦ new_flow choose ip f u ])
      else new_flow choose ip f t

  -- The number of a client's flow: the one it has, or a new one.
  unfoldable pub number_of :
      ℕ → (Dict R (Text × ℕ) → Result ℕ) → Text → F → Tables F R → Tables F R × Result ℕ
  unfolding open_flow renew
  number_of most choose ip f t = elim (lookup ip t.fwd) [
    | none ↦ (t, raise key_error)
    | some table ↦ elim (lookup f table) [
      | some n ↦ (renew ip f table t, ok n)
      | none ↦ open_flow most choose ip f table t
    ]
  ]

  -- An answer to a flow renews it, if it is still there.
  unfoldable pub touch : Text → F → Tables F R → Tables F R
  unfolding renew
  touch ip f t = elim (lookup ip t.fwd) [
    | none ↦ t
    | some table ↦ if has f table then renew ip f table t else t
  ]

  -- The loop of `unregister_client` over a client's table.
  unfoldable pub forget : Dict F ℕ → Dict R (Text × ℕ) → Dict R (Text × ℕ)
  forget [] rev = rev
  forget ((f, n) ∷ rest) rev = forget rest (delete (k.rev_key f n) rev)

-- The search of `_allocate_port` and `_allocate_icmp_id`: the first free candidate of so many.
unfoldable pub scan : (ℕ → Bool) → (ℕ → ℕ) → ℕ → ℕ → Result ℕ
scan is_free next zero candidate = raise runtime_error
scan is_free next (suc rounds) candidate =
    let later = scan is_free next rounds (next candidate) in
    if is_free candidate then ok candidate else later
