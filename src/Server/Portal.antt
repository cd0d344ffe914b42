-- ===== src/Server/Portal.antt =====
-- Server/VPNServer.py: the calls of the portal. A set of handlers has its elements in some order; the
-- first is the one that `handlers[0]` gives.
use vpn_core.Base.{
  ℕ, ◌≡◌, ◌∙◌, ap, refl, Bool, false, not, ◌||◌, Option, none, some, List, [], ◌∷◌, inl, inr,
}
use vpn_core.Base.Tests.{if◌then◌else◌, Bool-cases}
use vpn_core.Base.Lists.{is_empty}
use vpn_core.Base.Eq.{nat_eq, list_eq, ◌=?◌, =?_refl}
use vpn_core.Base.Dict.{lookup, has, insert, lookup-insert}
use vpn_core.Base.Text.{Text, Codec, codes}
use vpn_core.Base.Int.{ℤ, pos, leb_ℤ}
use vpn_core.Base.Result.{Result, ok, raise, Result-cases}
use vpn_core.VpnPacket.Server.{hash_password}
use vpn_core.Database.{
  Account, Connection, Status, UserDb, status_active, conn_disconnect, all_users, create_user,
  get_user, is_banned,
}
use vpn_core.Database.Rules.{Strings}
use vpn_core.Server.{VpnServer, handlers_of, top_up}
use vpn_core.Server.Run.{admin_username, text_of}

pub data Reply : Type 0 where
  accepted : Reply
  refused : Text → Reply

pub data Login : Type 0 where
  logged_in : Status → Login
  denied : Text → Login

pub data Purchase : Type 0 where
  added : ℤ → ℤ → Purchase
  declined : Text → Purchase

pub record Snapshot : Type 0 where
  pub username : Text
  pub account_status : Status
  pub connection_status : Connection
  pub assigned_ip : Option Text
  pub remaining_quota : ℤ

-- A name that the portal keeps to itself.
abbrev pub is_reserved : Text → Bool
is_reserved name = name =? admin_username || name =? all_users

module _ (codec : Codec) (strings : Strings) where
  open strings use {strip}

  unfoldable pub portal_register : VpnServer → Option Text → Option Text → VpnServer × Result Reply
  unfolding hash_password create_user
  portal_register s username password =
      let name = strip (text_of username) in
      if is_empty name || is_empty (text_of password)
      then (s, ok (refused (codes "Username and password are required")))
      else if is_reserved name
      then (s, ok (refused (codes "This username is reserved")))
      else elim (hash_password codec name (text_of password)) [
        | raise e ↦ (s, raise e)
        | ok hash ↦
            let (db, created) = create_user s.db name hash (pos 0) in
            if not created
            then (s, ok (refused (codes "Username already exists")))
            else (record s { db = db }, ok accepted)
      ]

  abbrev pub login_of : Account → Login
  login_of user =
      if is_banned user.account_status
      then denied (codes "Account banned")
      else logged_in user.account_status

  unfoldable pub portal_authenticate : VpnServer → Option Text → Text → Result Login
  unfolding hash_password
  portal_authenticate s username password =
      let name = strip (text_of username) in
      if is_reserved name
      then ok (denied (codes "This account cannot use the portal"))
      else elim (get_user s.db name) [
        | none ↦ ok (denied (codes "User not found"))
        | some user ↦ elim (hash_password codec name password) [
          | raise e ↦ raise e
          | ok hash ↦
              ok (if user.password =? hash then login_of user else denied (codes "Wrong password"))
        ]
      ]

-- `portal_request_quota`, with what `int(amount)` gives.
unfoldable pub portal_request_quota : VpnServer → Text → Option ℤ → VpnServer × Purchase
unfolding top_up
portal_request_quota s username none =
    (s, declined (codes "Amount must be an integer number of bytes"))
portal_request_quota s username (some amount) =
    let (after, new_total) = top_up s username amount in
    if leb_ℤ amount (pos 0)
    then (s, declined (codes "Amount must be a positive number of bytes"))
    else if not (leb_ℤ amount (pos 4294967295))
    then (s, declined (codes "Amount exceeds the 4294967295-byte limit"))
    else if not (has username s.db.users)
    then (s, declined (codes "User not found"))
    else (after, added amount new_total)

-- The quota of the first live handler, if there is one.
abbrev pub live_quota : VpnServer → List ℕ → ℤ → ℤ
live_quota s [] stored = stored
live_quota s (i ∷ group) stored = elim (lookup i s.handlers) [
  | none ↦ stored
  | some h ↦ h.current_quota
]

unfoldable pub portal_status : VpnServer → Text → Option Snapshot
portal_status s username = elim (get_user s.db username) [
  | none ↦ none
  | some info ↦ some (record {
    username = username;
    account_status = info.account_status;
    connection_status = info.connection_status;
    assigned_ip = info.assigned_ip;
    remaining_quota = live_quota s (handlers_of s username) info.remaining_quota;
  })
]

module _ (codec : Codec) (strings : Strings) (s : VpnServer) (username password : Text) where
  open strings use {strip}

  abbrev fresh : Text → Account
  fresh hash = record {
    password = hash;
    remaining_quota = pos 0;
    connection_status = conn_disconnect;
    account_status = status_active;
    assigned_ip = none;
  }

  registered_lem :
      (hash : Text)
      → (strip username =? all_users || has (strip username) s.db.users) ≡ false
      → (create_user s.db (strip username) hash (pos 0)).0
        ≡ record s.db { users = insert (strip username) (fresh hash) s.db.users }
  unfolding create_user
  registered_lem hash free = rw free refl

  login_lem :
      (t : VpnServer) (hash : Text)
      → is_reserved (strip username) ≡ false
      → hash_password codec (strip username) password ≡ ok hash
      → get_user t.db (strip username) ≡ some (fresh hash)
      → portal_authenticate codec strings t (some username) password ≡ ok (logged_in status_active)
  unfolding portal_authenticate
  login_lem t hash open_name hashed known =
      rw (open_name, known, hashed, =?_refl hash, portal_authenticate) refl

  known_lem :
      (db : UserDb) (hash : Text)
      → db ≡ record s.db { users = insert (strip username) (fresh hash) s.db.users }
      → get_user db (strip username) ≡ some (fresh hash)
  known_lem db hash e =
      ap (λ (d : UserDb). get_user d (strip username)) e
      ∙ lookup-insert (strip username) (strip username) (fresh hash) s.db.users
      ∙ rw (=?_refl (strip username)) refl

  after_lem :
      (hash : Text)
      → (is_empty (strip username) || is_empty password) ≡ false
      → is_reserved (strip username) ≡ false
      → hash_password codec (strip username) password ≡ ok hash
      → (strip username =? all_users || has (strip username) s.db.users) ≡ false
      → (portal_register codec strings s (some username) (some password)).0.db
        ≡ record s.db { users = insert (strip username) (fresh hash) s.db.users }
  unfolding portal_register create_user
  after_lem hash a b hashed free = rw (a, b, hashed, free, portal_register) refl

  -- Whoever registers at the portal and is accepted can log in there with the same name and password,
  -- to an active account.
  pub portal_register-authenticate :
      (portal_register codec strings s (some username) (some password)).1 ≡ ok accepted
      → portal_authenticate codec strings
          (portal_register codec strings s (some username) (some password)).0
          (some username)
          password
        ≡ ok (logged_in status_active)
  unfolding portal_register create_user
  portal_register-authenticate done =
      elim (Bool-cases (is_empty (strip username) || is_empty password)) [
        | inl a ↦ absurd (cc (rw (a, portal_register) at done))
        | inr a ↦ elim (Bool-cases (is_reserved (strip username))) [
          | inl b ↦ absurd (cc (rw (a, b, portal_register) at done))
          | inr b ↦ elim (Result-cases (hash_password codec (strip username) password)) [
            | inl (e, failed) ↦ absurd (cc (rw (a, b, failed, portal_register) at done))
            | inr (hash, hashed) ↦
                elim (Bool-cases (strip username =? all_users || has (strip username) s.db.users)) [
                  | inl taken ↦ absurd (cc (rw (a, b, hashed, taken, portal_register) at done))
                  | inr free ↦
                      login_lem (portal_register codec strings s (some username) (some password)).0
                        hash b hashed (known_lem _ hash (after_lem hash a b hashed free))
                ]
          ]
        ]
      ]
