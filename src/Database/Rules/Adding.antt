-- ===== src/Database/Rules/Adding.antt =====
-- `add_firewall_domain` and `remove_firewall_rule` of Server/Database.py, seen by `is_blocked`.
use vpn_core.Base.{
  ℕ, suc, ◌<◌, ◌≡◌, inl, inr, refl, true, false, ◌||◌, some, List, [], ◌∷◌, ◌++◌, arith,
}
use vpn_core.Base.Lists.{is_empty, length-append, All, Among}
use vpn_core.Base.Eq.{nat_eq, list_eq, ◌=?◌}
use vpn_core.Base.Text.{Text, codes}
use vpn_core.Base.Result.{ok}
use vpn_core.Database.{Rule, Table, UserDb, all_users}
use vpn_core.Database.Rules.{
  Strings, is_blocked, without, add_firewall_domain, add_firewall_ip, remove_firewall_rule,
}
use vpn_core.Database.Rules.Matching.{IsWithin, by_domain, is_blocked_iff}

Among-append : (r : Rule) (rows : List Rule) → Among r (rows ++ r ∷ [])
Among-append r [] = inl refl
Among-append r (x ∷ rows) = inr (Among-append r rows)

-- The numbers given out so far.
abbrev pub IsNumbered : Table Rule → Type 0
IsNumbered table = All (λ r. r.id < table.next) table.rows

without-append :
    (n : ℕ) (rows : List Rule) (r : Rule)
    → All (λ x. x.id < n) rows
    → r.id ≡ n
    → without n (rows ++ r ∷ []) ≡ rows
unfolding without
without-append n [] r h e = ground arith
without-append n (x ∷ rows) r h e = ground (arith, h.0, without-append n rows r h.1 e)

module _ (strings : Strings) (db after : UserDb) (username domain : Text) (id : ℕ)
    (added : add_firewall_domain strings db username domain ≡ ok (after, id)) where
  open strings use {strip, lower}

  rule : Rule
  rule = record { id = db.domains.next; username = strip username; target = lower (strip domain) }

  added_lem :
      (after ≡ record db {
        domains = record { next = suc db.domains.next; rows = db.domains.rows ++ rule ∷ [] };
      })
      × (id ≡ db.domains.next)
  unfolding add_firewall_domain rule
  added_lem = ground (arith, added)

  -- Once a domain has been blocked for a user, or for `all`, a packet of that user to an address that
  -- is known to be the domain's or a subdomain's, in whatever case, is blocked, whatever the address.
  pub add_firewall_domain-is_blocked :
      (viewer dest_ip d : Text)
      → (strip username =? viewer || strip username =? all_users) ≡ true
      → is_empty d ≡ false
      → IsWithin (lower d) (lower (strip domain))
      → is_blocked strings after viewer dest_ip (some d) ≡ true
  unfolding rule
  add_firewall_domain-is_blocked viewer dest_ip d concerned some_text within =
      (is_blocked_iff strings after viewer dest_ip (some d)).1 (
        by_domain d refl some_text rule (rw added_lem.0 (Among-append rule db.domains.rows))
          concerned (rw (strings.lower-lower (strip domain)) within))

  removed_domain :
      IsNumbered db.domains
      → remove_firewall_rule after id (codes "domain")
        ≡ ok (
          record db { domains = record { next = suc db.domains.next; rows = db.domains.rows } },
          true,
        )
  unfolding remove_firewall_rule rule
  removed_domain numbered =
      let gone : without db.domains.next (db.domains.rows ++ rule ∷ []) ≡ db.domains.rows =
        without-append db.domains.next db.domains.rows rule numbered refl in
      rw (added_lem.0, added_lem.1, gone)
        (ground (arith, length-append {0} db.domains.rows (rule ∷ [])))

module _ (strings : Strings) (db after : UserDb) (username ip : Text) (id : ℕ)
    (added : add_firewall_ip strings db username ip ≡ ok (after, id)) where
  open strings use {strip}

  ip_rule : Rule
  ip_rule = record { id = db.ips.next; username = strip username; target = strip ip }

  added_ip :
      (after
        ≡ record db { ips = record { next = suc db.ips.next; rows = db.ips.rows ++ ip_rule ∷ [] } })
      × (id ≡ db.ips.next)
  unfolding add_firewall_ip ip_rule
  added_ip = ground (arith, added)

  removed_ip :
      IsNumbered db.ips
      → remove_firewall_rule after id (codes "ip")
        ≡ ok (record db { ips = record { next = suc db.ips.next; rows = db.ips.rows } }, true)
  unfolding remove_firewall_rule ip_rule
  removed_ip numbered =
      let gone : without db.ips.next (db.ips.rows ++ ip_rule ∷ []) ≡ db.ips.rows =
        without-append db.ips.next db.ips.rows ip_rule numbered refl in
      rw (added_ip.0, added_ip.1, gone)
        (ground (arith, length-append {0} db.ips.rows (ip_rule ∷ [])))

-- Where the numbers of the domain rules and of the address rules are those given out so far: after
-- the addition of a domain rule, the removal of a domain rule with its number meets it and leaves
-- the rules as they were, and so it is for an address rule.
pub remove_firewall_rule-add :
    (strings : Strings) (db with_domain with_ip : UserDb) (username domain ip : Text)
    → (domain_id ip_id : ℕ)
    → add_firewall_domain strings db username domain ≡ ok (with_domain, domain_id)
    → add_firewall_ip strings db username ip ≡ ok (with_ip, ip_id)
    → IsNumbered db.domains
    → IsNumbered db.ips
    → (remove_firewall_rule with_domain domain_id (codes "domain")
        ≡ ok (
          record db { domains = record { next = suc db.domains.next; rows = db.domains.rows } },
          true,
        ))
      × (remove_firewall_rule with_ip ip_id (codes "ip")
          ≡ ok (record db { ips = record { next = suc db.ips.next; rows = db.ips.rows } }, true))
remove_firewall_rule-add strings db with_domain with_ip username domain ip domain_id ip_id a b c d =
    (
      removed_domain strings db with_domain username domain domain_id a c,
      removed_ip strings db with_ip username ip ip_id b d,
    )
