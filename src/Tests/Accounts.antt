-- ===== src/Tests/Accounts.antt =====
-- Database.py, DNSCache.py and `is_blocked` at concrete inputs.
use vpn_core.Base.{ℕ, ◌+◌, ◌≤◌, ◌++◌, ◌≡◌, ◌↔◌, refl, true, ◌&&◌, none, some, List, [], ◌∷◌, arith}
use vpn_core.Base.Tests.{leb, if◌then◌else◌}
use vpn_core.Base.Lists.{length, All}
use vpn_core.Base.Eq.{nat_eq, list_eq, is_in}
use vpn_core.Base.Text.{Text, codes}
use vpn_core.Base.Int.{pos}
use vpn_core.Base.Result.{ok}
use vpn_core.Database.{UserDb, empty}
use vpn_core.Database.Accounts.{Call, IsUsers, calls, history-IsUsers}
use vpn_core.Database.Rules.{
  Strings, add_firewall_domain, add_firewall_ip, is_blocked, remove_firewall_rule,
}
use vpn_core.Database.Rules.Matching.{IsBlocked, below, is_blocked_iff}
use vpn_core.Database.Rules.Adding.{add_firewall_domain-is_blocked, remove_firewall_rule-add}
use vpn_core.Dns.{ingest, new_cache, parse_dns_response, resolve_domain, decimal}
use vpn_core.Dns.Cache.{observe_all, observe_all-bounded}
use vpn_core.Dns.Records.{IsAnswer, addresses, other, v4}
use vpn_core.Dns.Answers.{
  Response, response_bytes, parse_dns_response-response_bytes, ingest-response_bytes,
}
use vpn_core.Tests.Datagrams.{query}

-- `lower` on ASCII.
abbrev lower_code : ℕ → ℕ
lower_code c = if leb 65 c && leb c 90 then c + 32 else c

abbrev pub lower_ascii : Text → Text
lower_ascii [] = []
lower_ascii (c ∷ t) = lower_code c ∷ lower_ascii t

pub lower_ascii_twice : (t : Text) → lower_ascii (lower_ascii t) ≡ lower_ascii t
lower_ascii_twice [] = refl
lower_ascii_twice (c ∷ t) = ground (arith, lower_ascii_twice t)

abbrev pub plain : Strings
plain = record { strip = λ t. t; lower = lower_ascii; lower-lower = lower_ascii_twice }

abbrev bob : Text
bob = codes "bob"

abbrev some_calls : List Call
some_calls =
    Call.create bob (codes "x") (pos 100)
    ∷ Call.open_connection bob (codes "10.0.0.2")
    ∷ Call.exhaust bob
    ∷ Call.extend bob (pos 7)
    ∷ Call.give_status bob (codes "banned")
    ∷ []

history-IsUsers_example : IsUsers (calls empty some_calls).users
history-IsUsers_example = history-IsUsers some_calls (omega arith)

abbrev ruled : UserDb
ruled = record empty {
  domains = record {
    next = 2;
    rows = record { id = 1; username = bob; target = codes "ads.com" } ∷ [];
  };
}

added_run : add_firewall_domain plain empty bob (codes "Ads.com") ≡ ok (ruled, 1)
unfolding add_firewall_domain
added_run = refl

is_blocked_iff_example :
    (is_blocked plain ruled bob (codes "1.2.3.4") (some (codes "www.ADS.com")) ≡ true)
    ↔ IsBlocked plain ruled bob (codes "1.2.3.4") (some (codes "www.ADS.com"))
is_blocked_iff_example =
    is_blocked_iff plain ruled bob (codes "1.2.3.4") (some (codes "www.ADS.com"))

add_firewall_domain-is_blocked_example :
    is_blocked plain ruled bob (codes "1.2.3.4") (some (codes "www.ADS.com")) ≡ true
add_firewall_domain-is_blocked_example =
    add_firewall_domain-is_blocked plain empty ruled bob (codes "Ads.com") 1 added_run bob
      (codes "1.2.3.4") (codes "www.ADS.com") refl refl (below (codes "www") refl)

abbrev ruled_ip : UserDb
ruled_ip = record empty {
  ips = record {
    next = 2;
    rows = record { id = 1; username = bob; target = codes "1.2.3.4" } ∷ [];
  };
}

added_ip_run : add_firewall_ip plain empty bob (codes "1.2.3.4") ≡ ok (ruled_ip, 1)
unfolding add_firewall_ip
added_ip_run = refl

remove_firewall_rule-add_example :
    (remove_firewall_rule ruled 1 (codes "domain")
      ≡ ok (record empty { domains = record { next = 2; rows = [] } }, true))
    × (remove_firewall_rule ruled_ip 1 (codes "ip")
        ≡ ok (record empty { ips = record { next = 2; rows = [] } }, true))
remove_firewall_rule-add_example =
    remove_firewall_rule-add plain empty ruled ruled_ip bob (codes "Ads.com") (codes "1.2.3.4") 1 1
      added_run added_ip_run tt tt

observe_all-bounded_example : length (observe_all (new_cache 3) (query ∷ [])).entries ≤ 65538
observe_all-bounded_example = observe_all-bounded 3 (query ∷ []) (omega arith)

-- `example.com` with the alias `www.example.com`, the A record of that, and a record of an owner at
-- the root.
abbrev answered : Response
answered = record {
  id = 7;
  flags = 33152;
  authorities = 0;
  additionals = 0;
  qtype = 1;
  qclass = 1;
  labels = codes "example" ∷ codes "com" ∷ [];
  answers =
      record {
        labels = [];
        pointer = some 12;
        ttl = 60;
        value = other 5 1 (3 ∷ 119 ∷ 119 ∷ 119 ∷ 192 ∷ 12 ∷ []);
      }
      ∷ record { labels = codes "www" ∷ []; pointer = some 12; ttl = 60; value = v4 93 184 216 34 }
      ∷ record { labels = []; pointer = none; ttl = 60; value = other 16 1 (1 ∷ 65 ∷ []) }
      ∷ [];
}

alias-IsAnswer : All IsAnswer answered.answers
alias-IsAnswer = (
  record { labelled = tt; few = omega arith; target = omega arith; known = omega arith },
  (
    record { labelled = omega arith; few = omega arith; target = omega arith; known = tt },
    (record { labelled = tt; few = omega arith; target = tt; known = omega arith }, tt),
  ),
)

known_run : is_in (codes "93.184.216.34") (addresses answered.answers) ≡ true
unfolding is_in addresses decimal
known_run = refl

parse_dns_response-response_bytes_example :
    parse_dns_response (response_bytes answered ++ [])
    ≡ some (codes "example.com", codes "93.184.216.34" ∷ [])
unfolding addresses decimal
parse_dns_response-response_bytes_example =
    parse_dns_response-response_bytes answered [] (omega arith) (omega arith) alias-IsAnswer

ingest-response_bytes_example :
    resolve_domain (ingest (new_cache 0) (response_bytes answered ++ [])) (codes "93.184.216.34")
    ≡ some (codes "example.com")
ingest-response_bytes_example =
    ingest-response_bytes (new_cache 0) answered [] (codes "93.184.216.34") (omega arith)
      (omega arith) alias-IsAnswer refl known_run
