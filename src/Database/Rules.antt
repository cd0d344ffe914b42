-- ===== src/Database/Rules.antt =====
-- Server/Database.py: the firewall's rules and the traffic log; and `VPNServer.is_blocked` of
-- Server/VPNServer.py, which reads the rules. `str.strip` and `str.lower` are the parameter
-- `strings`.
pub mod Matching
pub mod Adding
use vpn_core.Base.{
  ℕ, suc, ◌+◌, ◌-◌, ◌≡◌, Bool, true, false, not, ◌&&◌, ◌||◌, Option, none, some, List, [], ◌∷◌,
  ◌++◌, map, min, max,
}
use vpn_core.Base.Tests.{ltb, leb, ◌==◌, if◌then◌else◌}
use vpn_core.Base.Lists.{length, take, drop, is_empty}
use vpn_core.Base.Eq.{nat_eq, list_eq, ◌=?◌, is_in}
use vpn_core.Base.Text.{Text, codes}
use vpn_core.Base.Int.{ℤ, pos, negsuc, pos_part}
use vpn_core.Base.Result.{Result, ok, raise, value_error, ◌>>=◌, ◌>>◌, require}
use vpn_core.Database.{Rule, Log, Table, UserDb, all_users}

pub record Strings : Type 0 where
  pub strip : Text → Text
  pub lower : Text → Text
  pub lower-lower : (t : Text) → lower (lower t) ≡ lower t

-- `INSERT INTO`: the new row has the next number, and `lastrowid` is that.
abbrev pub append_rule : Table Rule → Text → Text → Table Rule × ℕ
append_rule table username target = (
  record {
    next = suc table.next;
    rows = table.rows ++ record { id = table.next; username = username; target = target } ∷ [];
  },
  table.next,
)

-- `DELETE FROM ... WHERE id = ?`, and whether a row was met.
unfoldable pub without : ℕ → List Rule → List Rule
without id [] = []
without id (r ∷ rules) = if r.id == id then without id rules else r ∷ without id rules

abbrev pub delete_rule : Table Rule → ℕ → Table Rule × Bool
delete_rule table id = (
  record table { rows = without id table.rows },
  not (length (without id table.rows) == length table.rows),
)

module _ (strings : Strings) where
  open strings use {strip, lower}

  unfoldable pub add_firewall_domain : UserDb → Text → Text → Result (UserDb × ℕ)
  add_firewall_domain db username domain = do
    let name = strip username
    let target = lower (strip domain)
    require (not (is_empty name || is_empty target)) value_error
    let (domains, id) = append_rule db.domains name target
    ok (record db { domains = domains }, id)

  unfoldable pub add_firewall_ip : UserDb → Text → Text → Result (UserDb × ℕ)
  add_firewall_ip db username ip = do
    let name = strip username
    let target = strip ip
    require (not (is_empty name || is_empty target)) value_error
    let (ips, id) = append_rule db.ips name target
    ok (record db { ips = ips }, id)

unfoldable pub remove_firewall_rule : UserDb → ℕ → Text → Result (UserDb × Bool)
unfolding without
remove_firewall_rule db rule_id rule_type =
    if rule_type =? codes "domain"
    then (let (domains, met) = delete_rule db.domains rule_id in
        ok (record db { domains = domains }, met))
    else if rule_type =? codes "ip"
    then (let (ips, met) = delete_rule db.ips rule_id in ok (record db { ips = ips }, met))
    else raise value_error

-- Rows are kept in the order of their numbers.
abbrev pub list_firewall_rules : UserDb → List Rule × List Rule
list_firewall_rules db = (db.domains.rows, db.ips.rows)

-- `WHERE username = ? OR username = ?`.
unfoldable pub targets_for : Text → List Rule → List Text
targets_for username [] = []
targets_for username (r ∷ rules) =
    if r.username =? username || r.username =? all_users
    then r.target ∷ targets_for username rules
    else targets_for username rules

abbrev pub get_firewall_for_user : Strings → UserDb → Text → List Text × List Text
get_firewall_for_user strings db username =
    (map strings.lower (targets_for username db.domains.rows), targets_for username db.ips.rows)

-- `d.endswith(end)`.
unfoldable pub ends_with : Text → Text → Bool
ends_with d end = leb (length end) (length d) && drop (length d - length end) d =? end

-- `d == rule or d.endswith("." + rule)`, for some rule.
unfoldable pub matches_rule : Text → List Text → Bool
unfolding ends_with
matches_rule d [] = false
matches_rule d (rule ∷ rules) = (d =? rule || ends_with d (46 ∷ rule)) || matches_rule d rules

abbrev pub blocked_domain : Strings → List Text → Option Text → Bool
blocked_domain strings rules none = false
blocked_domain strings rules (some domain) =
    if is_empty domain then false else matches_rule (strings.lower domain) rules

-- `VPNServer.is_blocked`.
unfoldable pub is_blocked : Strings → UserDb → Text → Text → Option Text → Bool
unfolding targets_for is_in matches_rule
is_blocked strings db username dest_ip domain =
    let (domains, ips) = get_firewall_for_user strings db username in
    if is_in dest_ip ips then true else blocked_domain strings domains domain

unfoldable pub log_traffic : UserDb → Text → Text → Option ℕ → Option Text → Text → UserDb
log_traffic db username dest_ip dest_port domain action = record db {
  logs = record {
    next = suc db.logs.next;
    rows =
        db.logs.rows
        ++ record {
          id = db.logs.next;
          username = username;
          dest_ip = dest_ip;
          dest_port = dest_port;
          domain = domain;
          action = action;
        }
          ∷ [];
  };
}

-- The rows of a user, or of all without one, with the newest first.
unfoldable pub newest_of : Option Text → List Log → List Log → List Log
newest_of username newer [] = newer
newest_of none newer (r ∷ rows) = newest_of none (r ∷ newer) rows
newest_of (some name) newer (r ∷ rows) =
    newest_of (some name) (if r.username =? name then r ∷ newer else newer) rows

-- An empty name counts as none.
abbrev pub named : Option Text → Option Text
named none = none
named (some []) = none
named (some (c ∷ name)) = some (c ∷ name)

unfoldable pub get_traffic_logs : UserDb → Option Text → ℤ → List Log
unfolding newest_of
get_traffic_logs db username limit =
    take (max 1 (min (pos_part limit) 100000)) (newest_of (named username) [] db.logs.rows)

abbrev pub clear_traffic_logs : UserDb → UserDb
clear_traffic_logs db = record db { logs = record (db.logs) { rows = [] } }
