-- ===== src/Database.antt =====
-- Server/Database.py: `UserDB`, the tables of the accounts, the firewall's rules and the traffic
-- log. A statement of SQL is the change of a table; a table with a primary key is a dictionary. The
-- numbers are those below SQLite's limit of 2 ** 63. The lock makes each method one step.
pub mod Rules
pub mod Accounts
use vpn_core.Base.{ℕ, Bool, true, false, not, ◌&&◌, ◌||◌, Option, none, some, List, [], ◌∷◌, map}
use vpn_core.Base.Tests.{ltb, ◌==◌, if◌then◌else◌}
use vpn_core.Base.Eq.{nat_eq, list_eq, ◌=?◌}
use vpn_core.Base.Dict.{Dict, lookup, has, insert, delete, modify, modify_all}
use vpn_core.Base.Text.{Text, codes}
use vpn_core.Base.Int.{ℤ, pos, negsuc, ◌+ℤ◌, leb_ℤ, max_ℤ}
use vpn_core.Base.Result.{Result, ok, raise, value_error}

pub data Status : Type 0 where
  status_active status_banned status_quota_exhausted : Status

pub data Connection : Type 0 where
  conn_connect conn_disconnect : Connection

-- The texts that stand for the statuses.
unfoldable pub status_of : Text → Option Status
status_of t =
    if t =? codes "active"
    then some status_active
    else if t =? codes "banned"
    then some status_banned
    else if t =? codes "quota_exhausted"
    then some status_quota_exhausted
    else none

abbrev pub is_exhausted : Status → Bool
is_exhausted status_active = false
is_exhausted status_banned = false
is_exhausted status_quota_exhausted = true

abbrev pub is_banned : Status → Bool
is_banned status_active = false
is_banned status_banned = true
is_banned status_quota_exhausted = false

abbrev pub is_connected : Connection → Bool
is_connected conn_connect = true
is_connected conn_disconnect = false

abbrev pub all_users : Text
all_users = codes "all"

-- A row of `users`, without its key.
pub record Account : Type 0 where
  pub password : Text
  pub remaining_quota : ℤ
  pub connection_status : Connection
  pub account_status : Status
  pub assigned_ip : Option Text

-- A row of `firewall_domains` or `firewall_ips`.
pub record Rule : Type 0 where
  pub id : ℕ
  pub username : Text
  pub target : Text

pub record Log : Type 0 where
  pub id : ℕ
  pub username : Text
  pub dest_ip : Text
  pub dest_port : Option ℕ
  pub domain : Option Text
  pub action : Text

-- A table whose key counts up, and never comes again.
pub record Table (A : Type 0) : Type 0 where
  pub next : ℕ
  pub rows : List A

pub record UserDb : Type 0 where
  pub users : Dict Text Account
  pub domains : Table Rule
  pub ips : Table Rule
  pub logs : Table Log

-- `_init_schema` on a new file.
abbrev pub empty : UserDb
empty = record {
  users = [];
  domains = record { next = 1; rows = [] };
  ips = record { next = 1; rows = [] };
  logs = record { next = 1; rows = [] };
}

abbrev pub user_exists : UserDb → Text → Bool
user_exists db username = has username db.users

unfoldable pub create_user : UserDb → Text → Text → ℤ → UserDb × Bool
create_user db username password_hash remaining_quota =
    if username =? all_users || has username db.users then (db, false) else (
      record db {
        users =
            insert username
              (record {
                password = password_hash;
                remaining_quota = remaining_quota;
                connection_status = conn_disconnect;
                account_status = status_active;
                assigned_ip = none;
              })
              db.users;
      },
      true,
    )

abbrev pub get_user : UserDb → Text → Option Account
get_user db username = lookup username db.users

abbrev pub has_password : Option Account → Text → Bool
has_password none password_hash = false
has_password (some user) password_hash = user.password =? password_hash

abbrev pub verify_password : UserDb → Text → Text → Bool
verify_password db username password_hash = has_password (get_user db username) password_hash

-- `UPDATE users SET ... WHERE username = ?`.
abbrev pub update_user : UserDb → Text → (Account → Account) → UserDb
update_user db username f = record db { users = modify username f db.users }

abbrev pub connected : Text → Account → Account
connected assigned_ip a = record a {
  connection_status = conn_connect;
  assigned_ip = some assigned_ip;
}

unfoldable pub mark_connected : UserDb → Text → Text → UserDb
mark_connected db username assigned_ip = update_user db username (connected assigned_ip)

abbrev pub disconnected : Option ℤ → Account → Account
disconnected none a = record a { connection_status = conn_disconnect; assigned_ip = none }
disconnected (some quota) a = record a {
  connection_status = conn_disconnect;
  assigned_ip = none;
  remaining_quota = max_ℤ (pos 0) quota;
}

unfoldable pub mark_disconnected : UserDb → Text → Option ℤ → UserDb
mark_disconnected db username remaining_quota =
    update_user db username (disconnected remaining_quota)

abbrev pub quota_of : Option Account → ℤ
quota_of none = pos 0
quota_of (some user) = user.remaining_quota

unfoldable pub get_quota : UserDb → Text → ℤ
get_quota db username = quota_of (get_user db username)

unfoldable pub set_quota : UserDb → Text → ℤ → UserDb
set_quota db username remaining_quota =
    update_user db username (λ a. record a { remaining_quota = max_ℤ (pos 0) remaining_quota })

-- The row that `add_quota` writes back.
abbrev pub new_status : Status → ℤ → Status
new_status status new_quota =
    if is_exhausted status && not (leb_ℤ new_quota (pos 0)) then status_active else status

abbrev pub topped_up : ℤ → Account → Account
topped_up extra_bytes a =
    let new_quota = max_ℤ (pos 0) (a.remaining_quota +ℤ extra_bytes) in
    record a { remaining_quota = new_quota; account_status = new_status a.account_status new_quota }

unfoldable pub add_quota : UserDb → Text → ℤ → UserDb × ℤ
unfolding ◌+ℤ◌
add_quota db username extra_bytes = elim (get_user db username) [
  | none ↦ (db, negsuc 0)
  | some row ↦ (
    update_user db username (λ a. topped_up extra_bytes row),
    (topped_up extra_bytes row).remaining_quota,
  )
]

abbrev pub emptied : Account → Account
emptied a = record a {
  remaining_quota = pos 0;
  account_status = status_quota_exhausted;
  connection_status = conn_disconnect;
  assigned_ip = none;
}

unfoldable pub mark_quota_exhausted : UserDb → Text → UserDb
mark_quota_exhausted db username = update_user db username emptied

-- The update, and whether a row was met (`cur.rowcount > 0`).
unfoldable pub set_account_status : UserDb → Text → Text → Result (UserDb × Bool)
unfolding status_of
set_account_status db username status = elim (status_of status) [
  | none ↦ raise value_error
  | some s ↦
      ok (update_user db username (λ a. record a { account_status = s }), has username db.users)
]

abbrev pub ban_user : UserDb → Text → Result (UserDb × Bool)
ban_user db username = set_account_status db username (codes "banned")

abbrev pub unban_user : UserDb → Text → Result (UserDb × Bool)
unban_user db username = set_account_status db username (codes "active")

unfoldable pub reset_all_connections : UserDb → UserDb
reset_all_connections db = record db { users = modify_all (disconnected none) db.users }

unfoldable pub delete_user : UserDb → Text → UserDb × Bool
delete_user db username = (record db { users = delete username db.users }, has username db.users)
