-- ===== src/Server/Access.antt =====
-- Who is let in by Server/VPNServer.py: `_authenticate`, and the way from `_handle_register` over the
-- grace window to a session.
use vpn_core.Base.{ℕ, suc, ◌≡◌, ◌∙◌, ◌↔◌, ap, refl, true, false, none, some, inl, inr, arith}
use vpn_core.Base.Tests.{Bool-cases, Option-cases}
use vpn_core.Base.Lists.{is_empty}
use vpn_core.Base.Eq.{nat_eq, list_eq, ◌=?◌, =?_refl}
use vpn_core.Base.Dict.{lookup, has, insert, modify, lookup-insert, lookup-modify}
use vpn_core.Base.Text.{Text}
use vpn_core.Base.Int.{ℤ, pos, ◌≤ℤ◌, ◌+ℤ◌, max_ℤ, leb_ℤ}
use vpn_core.VpnPacket.Server.{ParsedPacket}
use vpn_core.Database.{
  Account, Status, UserDb, status_active, status_banned, status_quota_exhausted, conn_disconnect,
  all_users, create_user, get_user, mark_quota_exhausted, add_quota, update_user, emptied,
  topped_up,
}
use vpn_core.Server.{Handler, VpnServer, grant_quota}
use vpn_core.Server.Session.{Env}
use vpn_core.Server.Run.{authenticate, admit, handle_register, admin_username, text_of, is_text}

-- What an account is let in as.
pub data IsAdmitted (user : Account) : Status → Type 0 where
  spent :
      user.account_status ≡ status_active
      → user.remaining_quota ≤ℤ pos 0
      → IsAdmitted user status_quota_exhausted
  marked : user.account_status ≡ status_quota_exhausted → IsAdmitted user status_quota_exhausted
  active :
      user.account_status ≡ status_active
      → leb_ℤ user.remaining_quota (pos 0) ≡ false
      → IsAdmitted user status_active

-- The user is no administrator, has an account with that password hash, and the account is let in.
pub record IsLetIn (db : UserDb) (parsed : ParsedPacket) (status : Status) : Type 0 where
  pub user : Account
  pub other : is_text admin_username parsed.username ≡ false
  pub known : get_user db (text_of parsed.username) ≡ some user
  pub right : is_text user.password parsed.password_hash ≡ true
  pub admitted : IsAdmitted user status

module _ (env : Env) (s : VpnServer) (h : Handler) (parsed : ParsedPacket) where
  admit_sound :
      (user : Account) (status out : Status)
      → user.account_status ≡ status
      → (admit env s h parsed user status).2 ≡ some out
      → IsAdmitted user out
  admit_sound user status_banned out is e = absurd cc
  admit_sound user status_quota_exhausted out is e =
      let same : status_quota_exhausted ≡ out = cc e in rw (← same) (marked is)
  admit_sound user status_active out is e = elim (Bool-cases (leb_ℤ user.remaining_quota (pos 0))) [
    | inl none_left ↦
        let same : status_quota_exhausted ≡ out = cc (rw none_left at e) in
        rw (← same) (spent is (ground (arith, none_left)))
    | inr some_left ↦
        let same : status_active ≡ out = cc (rw some_left at e) in rw (← same) (active is some_left)
  ]

  admit_complete :
      (user : Account) (out : Status)
      → IsAdmitted user out
      → (admit env s h parsed user user.account_status).2 ≡ some out
  admit_complete user status_quota_exhausted (spent is none_left) =
      rw (is, (let e : leb_ℤ user.remaining_quota (pos 0) ≡ true = ground (arith, none_left) in e))
        refl
  admit_complete user status_quota_exhausted (marked is) = rw is refl
  admit_complete user status_banned let_in = elim let_in [ ]
  admit_complete user status_active (active is some_left) = rw (is, some_left) refl

  authenticate_sound :
      (out : Status) → (authenticate env s h parsed).2 ≡ some out → IsLetIn s.db parsed out
  unfolding authenticate
  authenticate_sound out e = elim (Bool-cases (is_text admin_username parsed.username)) [
    | inl admin ↦ absurd (cc (rw (admin, authenticate) at e))
    | inr other ↦ elim (Option-cases (get_user s.db (text_of parsed.username))) [
      | inl unknown ↦ absurd (cc (rw (other, unknown, authenticate) at e))
      | inr (user, known) ↦ elim (Bool-cases (is_text user.password parsed.password_hash)) [
        | inr wrong ↦ absurd (cc (rw (other, known, wrong, authenticate) at e))
        | inl right ↦ record {
          user = user;
          other = other;
          known = known;
          right = right;
          admitted =
              admit_sound user user.account_status out refl
                (rw (other, known, right, authenticate) at e);
        }
      ]
    ]
  ]

  authenticate_complete :
      (out : Status) → IsLetIn s.db parsed out → (authenticate env s h parsed).2 ≡ some out
  unfolding authenticate
  authenticate_complete out l =
      rw (l.other, l.known, l.right, authenticate) (admit_complete l.user out l.admitted)

  -- `_authenticate` lets a user in exactly when the name is not the administrator's, an account has
  -- that name and password hash, and the account is not banned: as exhausted when the account is
  -- marked so or has no quota, and as active otherwise.
  pub authenticate_iff :
      (out : Status) → ((authenticate env s h parsed).2 ≡ some out) ↔ IsLetIn s.db parsed out
  authenticate_iff out = (authenticate_sound out, authenticate_complete out)

-- A new account, and what the steps make of it.
abbrev fresh : Text → Account
fresh password_hash = record {
  password = password_hash;
  remaining_quota = pos 0;
  connection_status = conn_disconnect;
  account_status = status_active;
  assigned_ip = none;
}

module _ (env : Env) (s : VpnServer) (h : Handler) (username password_hash : Text)
    (asked : ParsedPacket) (named : asked.username ≡ some username)
    (given : asked.password_hash ≡ some password_hash) where
  registered_lem :
      is_empty username ≡ false
      → is_empty password_hash ≡ false
      → (username =? all_users) ≡ false
      → has username s.db.users ≡ false
      → (handle_register env s h asked).0.db
        ≡ record s.db { users = insert username (fresh password_hash) s.db.users }
  unfolding handle_register create_user
  registered_lem a b c d = rw (named, given, a, b, c, d, handle_register) refl

  right_lem :
      (user : Account)
      → user.password ≡ password_hash
      → is_text user.password asked.password_hash ≡ true
  right_lem user e = rw (given, e) (=?_refl password_hash)

  -- The account after an authentication without quota.
  marked_lem :
      (user : Account)
      → is_text admin_username asked.username ≡ false
      → get_user s.db username ≡ some user
      → user.password ≡ password_hash
      → user.account_status ≡ status_active
      → leb_ℤ user.remaining_quota (pos 0) ≡ true
      → (authenticate env s h asked).0 ≡ record s { db = mark_quota_exhausted s.db username }
  unfolding authenticate
  marked_lem user other known same status none_left =
      let name : text_of asked.username ≡ username = rw named refl in
      let there : get_user s.db (text_of asked.username) ≡ some user = rw name known in
      rw (other, there, right_lem user same, status, none_left, authenticate)
        (ap (λ (t : Text). record s { db = mark_quota_exhausted s.db t }) name)

  let_in_lem :
      (db : UserDb) (user : Account) (status : Status)
      → is_text admin_username asked.username ≡ false
      → get_user db username ≡ some user
      → user.password ≡ password_hash
      → IsAdmitted user status
      → IsLetIn db asked status
  let_in_lem db user status other known same admitted = record {
    user = user;
    other = other;
    known = rw named known;
    right = right_lem user same;
    admitted = admitted;
  }

lookup-fresh :
    (db : UserDb) (username password_hash : Text)
    → lookup username (insert username (fresh password_hash) db.users) ≡ some (fresh password_hash)
lookup-fresh db username password_hash =
    lookup-insert username username (fresh password_hash) db.users ∙ rw (=?_refl username) refl

lookup_changed :
    (db : UserDb) (username : Text) (user : Account) (f : Account → Account)
    → get_user db username ≡ some user
    → lookup username (modify username f db.users) ≡ some (f user)
lookup_changed db username user f known =
    lookup-modify username username f db.users ∙ rw (=?_refl username, known) refl

marked_there :
    (db : UserDb) (username : Text) (user : Account)
    → get_user db username ≡ some user
    → get_user (mark_quota_exhausted db username) username ≡ some (emptied user)
unfolding mark_quota_exhausted
marked_there db username user known = lookup_changed db username user emptied known

add_quota_lem :
    (db : UserDb) (username : Text) (n : ℤ) (row : Account)
    → get_user db username ≡ some row
    → (add_quota db username n).0 ≡ update_user db username (λ a. topped_up n row)
unfolding add_quota
add_quota_lem db username n row known = rw (known, add_quota) refl

grant_quota_lem :
    (s : VpnServer) (username : Text) (n : ℤ)
    → is_empty username ≡ false
    → leb_ℤ (max_ℤ (pos 0) n) (pos 0) ≡ false
    → (grant_quota s username n).0.db ≡ (add_quota s.db username (max_ℤ (pos 0) n)).0
unfolding grant_quota
grant_quota_lem s username n named some_bytes = rw (named, some_bytes, grant_quota) refl

max-pos : (n : ℕ) → max_ℤ (pos 0) (pos n) ≡ pos n
max-pos n = ground arith

-- The account of a user who is granted some bytes.
granted_lem :
    (s : VpnServer) (username : Text) (user : Account) (k : ℕ)
    → is_empty username ≡ false
    → get_user s.db username ≡ some user
    → get_user (grant_quota s username (pos (suc k))).0.db username
      ≡ some (topped_up (pos (suc k)) user)
granted_lem s username user k named known =
    ap (λ (db : UserDb). get_user db username)
      (grant_quota_lem s username (pos (suc k)) named
          (ap (λ (n : ℤ). leb_ℤ n (pos 0)) (max-pos (suc k)) ∙ ground arith)
        ∙ ap (λ (n : ℤ). (add_quota s.db username n).0) (max-pos (suc k))
        ∙ add_quota_lem s.db username (pos (suc k)) user known)
    ∙ lookup_changed s.db username user (λ a. topped_up (pos (suc k)) user) known

none_and_some : (k : ℕ) → pos 0 +ℤ pos (suc k) ≡ pos (suc k)
unfolding ◌+ℤ◌
none_and_some k = ground arith

topped_up_lem :
    (user : Account) (k : ℕ)
    → user.account_status ≡ status_quota_exhausted
    → user.remaining_quota ≡ pos 0
    → IsAdmitted (topped_up (pos (suc k)) user) status_active
topped_up_lem user k is_marked none_left =
    let total : max_ℤ (pos 0) (user.remaining_quota +ℤ pos (suc k)) ≡ pos (suc k) =
      rw none_left (ap (max_ℤ (pos 0)) (none_and_some k) ∙ max-pos (suc k)) in
    let more : leb_ℤ (max_ℤ (pos 0) (user.remaining_quota +ℤ pos (suc k))) (pos 0) ≡ false =
      ap (λ (n : ℤ). leb_ℤ n (pos 0)) total ∙ ground arith in
    active (rw (is_marked, more) refl) more

-- A new user with a name that is neither reserved nor taken, and a password hash, is registered
-- without quota: the first authentication with that hash gives the grace window, and the next one,
-- after a grant of any positive number of bytes, an active session.
pub register-authenticate :
    (env : Env) (s : VpnServer) (h first second : Handler) (username password_hash : Text)
    → (asked : ParsedPacket) (k : ℕ) → asked.username ≡ some username
    → asked.password_hash ≡ some password_hash
    → is_empty username ≡ false
    → is_empty password_hash ≡ false
    → (username =? all_users) ≡ false
    → is_text admin_username asked.username ≡ false
    → has username s.db.users ≡ false
    → ((authenticate env (handle_register env s h asked).0 first asked).2
        ≡ some status_quota_exhausted)
      × ((authenticate env
            (grant_quota
              (authenticate env (handle_register env s h asked).0 first asked).0
              username
              (pos (suc k))).0
            second
            asked).2
          ≡ some status_active)
register-authenticate env s h first second username password_hash asked k named given a b c other
      d =
    let registered : VpnServer = (handle_register env s h asked).0 in
    let new : Account = fresh password_hash in
    let there : get_user registered.db username ≡ some new =
      ap (λ (db : UserDb). get_user db username)
        (registered_lem env s h username password_hash asked named given a b c d)
      ∙ lookup-fresh s.db username password_hash in
    let waiting : VpnServer = (authenticate env registered first asked).0 in
    let marking : waiting ≡ record registered { db = mark_quota_exhausted registered.db username } =
      marked_lem env registered first username password_hash asked named given new other there refl
        refl refl in
    let exhausted_there : get_user waiting.db username ≡ some (emptied new) =
      ap (λ (v : VpnServer). get_user v.db username) marking
      ∙ marked_there registered.db username new there in
    (
      authenticate_complete env registered first asked status_quota_exhausted (
          let_in_lem env registered first username password_hash asked named given registered.db new
            status_quota_exhausted other there refl (spent refl (omega arith))),
      authenticate_complete env _ second asked status_active (
          let_in_lem env waiting second username password_hash asked named given _
            (topped_up (pos (suc k)) (emptied new)) status_active other
            (granted_lem waiting username (emptied new) k a exhausted_there) refl
            (topped_up_lem (emptied new) k refl refl)),
    )
