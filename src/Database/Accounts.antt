-- ===== src/Database/Accounts.antt =====
-- The accounts of Server/Database.py: what each call keeps in order.
use vpn_core.Base.{
  ◌≡◌, ◌∙◌, sym, refl, Bool, true, false, ◌||◌, Option, none, some, List, [], ◌∷◌, inl, inr, arith,
}
use vpn_core.Base.Tests.{Bool-cases, Option-cases}
use vpn_core.Base.Lists.{All}
use vpn_core.Base.Eq.{nat_eq, list_eq, ◌=?◌}
use vpn_core.Base.Dict.{
  Dict, lookup, has, insert, modify, changed, Distinct, lookup-insert, lookup-delete, lookup-modify,
  lookup-modify_all, insert-Distinct, delete-Distinct, modify-Distinct, modify_all-Distinct,
}
use vpn_core.Base.Text.{Text}
use vpn_core.Base.Int.{ℤ, pos, ◌≤ℤ◌, max_ℤ, ◌+ℤ◌}
use vpn_core.Base.Result.{Result, ok, raise}
use vpn_core.Database.{
  Account, UserDb, empty, all_users, is_connected, connected, disconnected, topped_up, emptied,
  create_user, mark_connected, mark_disconnected, set_quota, add_quota, mark_quota_exhausted,
  set_account_status, reset_all_connections, delete_user, status_of,
}

abbrev pub is_some {ℓ} : {A : Type ℓ} → Option A → Bool
is_some none = false
is_some (some a) = true

-- An account has no debts, and an address exactly while it is connected.
abbrev pub IsAccount : Account → Type 0
IsAccount a =
    (pos 0 ≤ℤ a.remaining_quota) × (is_some a.assigned_ip ≡ is_connected a.connection_status)

-- No name twice, none reserved, and every account in order.
pub record IsUsers (users : Dict Text Account) : Type 0 where
  pub names : Distinct users
  pub none_reserved : lookup all_users users ≡ none
  pub rows : (name : Text) (a : Account) → lookup name users ≡ some a → IsAccount a

changed-IsAccount :
    (b : Bool) (f : Account → Account) (o : Option Account) (a : Account)
    → ((v : Account) → o ≡ some v → IsAccount v)
    → ((v : Account) → IsAccount v → IsAccount (f v))
    → changed b f o ≡ some a
    → IsAccount a
changed-IsAccount b f none a old keeps e = absurd cc
changed-IsAccount true f (some v) a old keeps e =
    let is : f v ≡ a = cc e in rw (← is) (keeps v (old v refl))
changed-IsAccount false f (some v) a old keeps e = old a e

IsUsers-modify :
    (users : Dict Text Account) (name : Text) (f : Account → Account)
    → IsUsers users
    → ((a : Account) → IsAccount a → IsAccount (f a))
    → IsUsers (modify name f users)
IsUsers-modify users name f h keeps = record {
  names = modify-Distinct name f users h.names;
  none_reserved = lookup-modify name all_users f users ∙ rw h.none_reserved;
  rows = λ j a e.
      changed-IsAccount (name =? j) f (lookup j users) a (h.rows j) keeps
        (sym (lookup-modify name j f users) ∙ e);
}

-- The calls that change the accounts.
pub data Call : Type 0 where
  create : Text → Text → ℤ → Call
  open_connection : Text → Text → Call
  close_connection : Text → Option ℤ → Call
  set : Text → ℤ → Call
  extend : Text → ℤ → Call
  exhaust remove : Text → Call
  give_status : Text → Text → Call
  reset : Call

abbrev after_update : UserDb → Result (UserDb × Bool) → UserDb
after_update db (raise e) = db
after_update db (ok (after, met)) = after

unfoldable pub call : UserDb → Call → UserDb
unfolding create_user mark_connected mark_disconnected set_quota add_quota mark_quota_exhausted
    set_account_status reset_all_connections delete_user
call db (create username password_hash quota) = (create_user db username password_hash quota).0
call db (open_connection username assigned_ip) = mark_connected db username assigned_ip
call db (close_connection username quota) = mark_disconnected db username quota
call db (set username quota) = set_quota db username quota
call db (extend username extra_bytes) = (add_quota db username extra_bytes).0
call db (exhaust username) = mark_quota_exhausted db username
call db (remove username) = (delete_user db username).0
call db (give_status username status) = after_update db (set_account_status db username status)
call db reset = reset_all_connections db

unfoldable pub calls : UserDb → List Call → UserDb
unfolding call
calls db [] = db
calls db (c ∷ cs) = calls (call db c) cs

-- An account is created without debts.
abbrev pub IsFair : Call → Type 0
IsFair (create username password_hash quota) = pos 0 ≤ℤ quota
IsFair _ = Unit

max-le : (q : ℤ) → pos 0 ≤ℤ max_ℤ (pos 0) q
max-le q = ground arith

disconnected-IsAccount : (q : Option ℤ) (a : Account) → IsAccount a → IsAccount (disconnected q a)
disconnected-IsAccount none a h = (h.0, refl)
disconnected-IsAccount (some q) a h = (max-le q, refl)

module _ (db : UserDb) (h : IsUsers db.users) where
  IsUsers-insert :
      (name : Text) (a : Account)
      → (name =? all_users) ≡ false
      → IsAccount a
      → IsUsers (insert name a db.users)
  IsUsers-insert name a other good = record {
    names = insert-Distinct name a db.users h.names;
    none_reserved = lookup-insert name all_users a db.users ∙ rw other h.none_reserved;
    rows = λ j b e. elim (Bool-cases (name =? j)) [
      | inl same ↦
          let is : a ≡ b = ground (arith, lookup-insert name j a db.users) in rw (← is) good
      | inr apart ↦ h.rows j b (ground (arith, lookup-insert name j a db.users))
    ];
  }

  create-IsUsers :
      (username password_hash : Text) (quota : ℤ)
      → pos 0 ≤ℤ quota
      → IsUsers (create_user db username password_hash quota).0.users
  unfolding create_user
  create-IsUsers username password_hash quota fair =
      elim (Bool-cases (username =? all_users || has username db.users)) [
        | inl taken ↦ rw taken h
        | inr free ↦ rw free (IsUsers-insert username _ (ground arith) (fair, refl))
      ]

  add_quota-IsUsers :
      (username : Text) (extra_bytes : ℤ) → IsUsers (add_quota db username extra_bytes).0.users
  unfolding add_quota
  add_quota-IsUsers username extra_bytes = elim (Option-cases (lookup username db.users)) [
    | inl absent ↦ rw (absent, add_quota) h
    | inr (row, there) ↦
        rw (there, add_quota)
          (IsUsers-modify db.users username (λ a. topped_up extra_bytes row) h
            (λ a k. (max-le (row.remaining_quota +ℤ extra_bytes), (h.rows username row there).1)))
  ]

  status-IsUsers :
      (username status : Text)
      → IsUsers (after_update db (set_account_status db username status)).users
  unfolding set_account_status
  status-IsUsers username status = elim (Option-cases (status_of status)) [
    | inl wrong ↦ rw (wrong, set_account_status) h
    | inr (s, is) ↦
        rw (is, set_account_status)
          (IsUsers-modify db.users username (λ a. record a { account_status = s }) h (λ a k. k))
  ]

  reset-IsUsers : IsUsers (reset_all_connections db).users
  unfolding reset_all_connections
  reset-IsUsers = record {
    names = modify_all-Distinct (disconnected none) db.users h.names;
    none_reserved = lookup-modify_all all_users (disconnected none) db.users ∙ rw h.none_reserved;
    rows = λ j a e.
        changed-IsAccount true (disconnected none) (lookup j db.users) a (h.rows j)
          (disconnected-IsAccount none)
          (sym (lookup-modify_all j (disconnected none) db.users) ∙ e);
  }

  delete-IsUsers : (username : Text) → IsUsers (delete_user db username).0.users
  unfolding delete_user
  delete-IsUsers username = record {
    names = delete-Distinct username db.users h.names;
    none_reserved = ground (arith, lookup-delete username all_users db.users, h.none_reserved);
    rows = λ j a e. h.rows j a (ground (arith, lookup-delete username j db.users));
  }

  call-IsUsers : (c : Call) → IsFair c → IsUsers (call db c).users
  unfolding call mark_connected mark_disconnected set_quota mark_quota_exhausted
  call-IsUsers (create username password_hash quota) fair =
      create-IsUsers username password_hash quota fair
  call-IsUsers (open_connection username assigned_ip) fair =
      IsUsers-modify db.users username (connected assigned_ip) h (λ a k. (k.0, refl))
  call-IsUsers (close_connection username quota) fair =
      IsUsers-modify db.users username (disconnected quota) h (disconnected-IsAccount quota)
  call-IsUsers (set username quota) fair =
      IsUsers-modify db.users username _ h (λ a k. (max-le quota, k.1))
  call-IsUsers (extend username extra_bytes) fair = add_quota-IsUsers username extra_bytes
  call-IsUsers (exhaust username) fair =
      IsUsers-modify db.users username emptied h (λ a k. (omega arith, refl))
  call-IsUsers (remove username) fair = delete-IsUsers username
  call-IsUsers (give_status username status) fair = status-IsUsers username status
  call-IsUsers reset fair = reset-IsUsers

empty-IsUsers : IsUsers empty.users
unfolding lookup
empty-IsUsers = record { names = tt; none_reserved = refl; rows = λ name a e. absurd cc }

calls-IsUsers :
    (db : UserDb) (cs : List Call) → All IsFair cs → IsUsers db.users → IsUsers (calls db cs).users
unfolding calls
calls-IsUsers db [] fair h = h
calls-IsUsers db (c ∷ cs) fair h = calls-IsUsers (call db c) cs fair.1 (call-IsUsers db h c fair.0)

-- After any calls on a new database, of which none creates an account with debts: no name stands
-- twice, the reserved name `all` is no account, no quota is negative, and an account has an
-- assigned address exactly while it is connected.
pub history-IsUsers : (cs : List Call) → All IsFair cs → IsUsers (calls empty cs).users
history-IsUsers cs fair = calls-IsUsers empty cs fair empty-IsUsers
