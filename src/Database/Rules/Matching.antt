-- ===== src/Database/Rules/Matching.antt =====
-- The firewall of Server/Database.py and `is_blocked`: a rule blocks its domain with the domain's
-- subdomains, for its user, or for every user.
use vpn_core.Base.{
  ℕ, ◌-◌, ◌≡◌, ◌∙◌, ◌↔◌, inl, inr, sym, refl, ap, Bool, true, false, ◌&&◌, ◌||◌, Option, none, some,
  List, [], ◌∷◌, ◌++◌, map, arith,
}
use vpn_core.Base.Tests.{leb, le→leb, Bool-cases}
use vpn_core.Base.Lists.{
  length, take, drop, is_empty, length-append, drop-append, take-append-drop, Among,
}
use vpn_core.Base.Eq.{nat_eq, list_eq, list_beq_iff, ◌=?◌, =?_refl, is_in}
use vpn_core.Base.Text.{Text}
use vpn_core.Database.{Rule, UserDb, all_users}
use vpn_core.Database.Rules.{
  Strings, ends_with, matches_rule, targets_for, is_blocked, blocked_domain,
}

-- `d` is the rule's domain, or ends with a dot and it.
pub data IsWithin (d rule : Text) : Type 0 where
  same : d ≡ rule → IsWithin d rule
  below : (sub : Text) → d ≡ sub ++ 46 ∷ rule → IsWithin d rule

ends_with_sound : (d end : Text) → ends_with d end ≡ true → (sub : Text) × (d ≡ sub ++ end)
unfolding ends_with
ends_with_sound d end h =
    let n : ℕ = length d - length end in
    let e : drop n d ≡ end = (list_beq_iff (drop n d) end).0 (ground arith) in
    (take n d, sym (take-append-drop n d) ∙ ap (λ (t : Text). take n d ++ t) e)

ends_with-append : (sub end : Text) → ends_with (sub ++ end) end ≡ true
unfolding ends_with
ends_with-append sub end =
    let fits : leb (length end) (length (sub ++ end)) ≡ true =
      le→leb _ _ (omega (arith, length-append {0} sub end)) in
    let n : length sub ≡ length (sub ++ end) - length end =
      omega (arith, length-append {0} sub end) in
    rw (fits, drop-append (length (sub ++ end) - length end) sub end n, =?_refl end)

-- A rule is its user's, or everyone's.
abbrev pub applies : Text → Rule → Bool
applies username r = r.username =? username || r.username =? all_users

within : Text → Text → Bool
within d rule = d =? rule || ends_with d (46 ∷ rule)

within_sound : (d rule : Text) → within d rule ≡ true → IsWithin d rule
unfolding within
within_sound d rule h = elim (Bool-cases (d =? rule)) [
  | inl e ↦ same ((list_beq_iff d rule).0 e)
  | inr e ↦ let (sub, p) = ends_with_sound d (46 ∷ rule) (ground arith) in below sub p
]

within_complete : (d rule : Text) → IsWithin d rule → within d rule ≡ true
unfolding within
within_complete d rule (same e) = rw (e, =?_refl rule)
within_complete d rule (below sub e) = rw (e, ends_with-append sub (46 ∷ rule)) (ground arith)

-- Some rule that applies has a target of which `test` holds.
abbrev Found : (Text → Bool) → Text → List Rule → Type 0
Found test username rows =
    (r : Rule) × Among r rows × (applies username r ≡ true) × (test r.target ≡ true)

unfoldable any : (Text → Bool) → List Text → Bool
any test [] = false
any test (t ∷ ts) = test t || any test ts

any_sound :
    (test : Text → Bool) (username : Text) (rows : List Rule)
    → any test (targets_for username rows) ≡ true
    → Found test username rows
unfolding any targets_for
any_sound test username [] h = absurd cc
any_sound test username (r ∷ rows) h = elim (Bool-cases (applies username r && test r.target)) [
  | inl e ↦ (r, inl refl, ground arith, ground arith)
  | inr e ↦
      let (s, at, applied, tested) = any_sound test username rows (ground arith) in
      (s, inr at, applied, tested)
]

any_complete :
    (test : Text → Bool) (username : Text) (rows : List Rule) (r : Rule)
    → Among r rows
    → applies username r ≡ true
    → test r.target ≡ true
    → any test (targets_for username rows) ≡ true
unfolding any targets_for
any_complete test username [] r at applied tested = elim at [ ]
any_complete test username (x ∷ rows) r (inl e) applied tested =
    let a : applies username x ≡ true = rw e applied in
    let b : test x.target ≡ true = rw e tested in ground arith
any_complete test username (x ∷ rows) r (inr at) applied tested =
    ground (arith, any_complete test username rows r at applied tested)

is_in-any : (t : Text) (ts : List Text) → is_in t ts ≡ any (λ x. x =? t) ts
unfolding is_in any
is_in-any t [] = refl
is_in-any t (x ∷ ts) = rw (is_in-any t ts)

matches-any :
    (f : Text → Text) (d : Text) (ts : List Text)
    → matches_rule d (map f ts) ≡ any (λ x. within d (f x)) ts
unfolding matches_rule any within
matches-any f d [] = refl
matches-any f d (x ∷ ts) = rw (matches-any f d ts)

-- Why a packet of a user to an address, whose domain may be known, is blocked.
pub data IsBlocked (strings : Strings) (db : UserDb) (username dest_ip : Text)
    (domain : Option Text) : Type 0 where
  by_ip :
      (r : Rule)
      → Among r db.ips.rows
      → applies username r ≡ true
      → r.target ≡ dest_ip
      → IsBlocked strings db username dest_ip domain
  by_domain :
      (d : Text)
      → domain ≡ some d
      → is_empty d ≡ false
      → (r : Rule) → Among r db.domains.rows
      → applies username r ≡ true
      → IsWithin (strings.lower d) (strings.lower r.target)
      → IsBlocked strings db username dest_ip domain

module _ (strings : Strings) (db : UserDb) (username dest_ip : Text) where
  domain_sound :
      (domain : Option Text)
      → blocked_domain strings (map strings.lower (targets_for username db.domains.rows)) domain
        ≡ true
      → IsBlocked strings db username dest_ip domain
  domain_sound none h = absurd cc
  domain_sound (some d) h = elim (Bool-cases (is_empty d)) [
    | inl e ↦ absurd (ground arith)
    | inr e ↦
        let (r, at, applied, tested) =
          any_sound (λ x. within (strings.lower d) (strings.lower x)) username db.domains.rows
            (sym
                (matches-any strings.lower (strings.lower d) (targets_for username db.domains.rows))
              ∙ (rw e at h)) in
        by_domain d refl e r at applied (within_sound _ _ tested)
  ]

  is_blocked_sound :
      (domain : Option Text)
      → is_blocked strings db username dest_ip domain ≡ true
      → IsBlocked strings db username dest_ip domain
  unfolding is_blocked
  is_blocked_sound domain h = elim (Bool-cases (is_in dest_ip (targets_for username db.ips.rows))) [
    | inl e ↦
        let (r, at, applied, tested) =
          any_sound (λ x. x =? dest_ip) username db.ips.rows
            (sym (is_in-any dest_ip (targets_for username db.ips.rows)) ∙ e) in
        by_ip r at applied ((list_beq_iff r.target dest_ip).0 tested)
    | inr e ↦ domain_sound domain (rw e at h)
  ]

  is_blocked_complete :
      (domain : Option Text)
      → IsBlocked strings db username dest_ip domain
      → is_blocked strings db username dest_ip domain ≡ true
  unfolding is_blocked
  is_blocked_complete domain (by_ip r at applied e) = rw (
      is_in-any dest_ip (targets_for username db.ips.rows)
      ∙ any_complete (λ x. x =? dest_ip) username db.ips.rows r at applied
          ((list_beq_iff r.target dest_ip).1 e))
  is_blocked_complete domain (by_domain d known some_text r at applied is_within) =
      elim (Bool-cases (is_in dest_ip (targets_for username db.ips.rows))) [
        | inl e ↦ rw e
        | inr e ↦
            rw (e, known, some_text)
              (matches-any strings.lower (strings.lower d) (targets_for username db.domains.rows)
                ∙ any_complete (λ x. within (strings.lower d) (strings.lower x)) username
                    db.domains.rows r at applied (within_complete _ _ is_within))
      ]

  -- A packet is blocked exactly when a rule of the user, or one for all users, names its address, or
  -- names its known domain or one that this is a subdomain of, without regard to case.
  pub is_blocked_iff :
      (domain : Option Text)
      → (is_blocked strings db username dest_ip domain ≡ true)
        ↔ IsBlocked strings db username dest_ip domain
  is_blocked_iff domain = (is_blocked_sound domain, is_blocked_complete domain)
