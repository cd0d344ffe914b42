-- ===== src/Nat/History.antt =====
-- Histories of calls of `ServerNAT`, from its creation on.
use vpn_core.Base.{
  ℕ, ◌≤◌, ◌<◌, ◌≡◌, ◌≢◌, ◌∙◌, refl, true, false, not, ◌&&◌, ◌||◌, none, some, List, [], ◌∷◌, inl,
  inr, arith,
}
use vpn_core.Base.Tests.{Bool-cases, Option-cases}
use vpn_core.Base.Lists.{All}
use vpn_core.Base.Eq.{Eq, nat_eq, pair_eq, list_eq, ◌=?◌, =?_refl, is_in, is_in-add, is_in-discard}
use vpn_core.Base.Dict.{Dict, lookup, has, insert, delete, lookup-insert, lookup-delete}
use vpn_core.Base.Words.{Bytes}
use vpn_core.Base.Text.{Text}
use vpn_core.Base.Result.{ok}
use vpn_core.Packet.{Inet}
use vpn_core.Nat.{Keying, Tables, l4_keying, icmp_keying, forget}
use vpn_core.Nat.Steps.{IsTable}
use vpn_core.Nat.Clients.{register-IsTable, unregister-IsTable}
use vpn_core.Nat.Server.{
  ServerNat, new, register_client, unregister_client, add_ignored_port, remove_ignored_port,
  translate_out, translate_in,
}
use vpn_core.Nat.State.{IsValid, translate_out-IsValid, translate_in-IsValid}

pub new-IsValid : (exit_ip : Text) (ignored : List ℕ) → IsValid (new exit_ip ignored)
unfolding lookup is_in
new-IsValid exit_ip ignored = record {
  l4 = record {
    two_way = record { forth = λ ip f n h. cc; back = λ r ip v h. absurd cc };
    each = λ ip table h. absurd cc;
  };
  echo = record {
    two_way = record { forth = λ ip f n h. cc; back = λ r ip v h. absurd cc };
    each = λ ip table h. absurd cc;
  };
  l4_clients = λ ip. refl;
  echo_clients = λ ip. refl;
}

-- Entries of a client's table against the list of clients.
lookup_absent : {V : Type 0} (ip : Text) (d : Dict Text V) → has ip d ≡ false → lookup ip d ≡ none
lookup_absent ip d h = ground arith

lookup_found :
    {V : Type 0} (ip : Text) (d : Dict Text V) → has ip d ≡ true → (v : V) × (lookup ip d ≡ some v)
lookup_found ip d h = elim (Option-cases (lookup ip d)) [
  | inl absent ↦ absurd (ground arith)
  | inr found ↦ found
]

has-insert :
    {V : Type 0} (ip j : Text) (v : V) (d : Dict Text V)
    → has j (insert ip v d) ≡ (ip =? j || has j d)
has-insert ip j v d = ground (arith, lookup-insert ip j v d)

has-delete :
    {V : Type 0} (ip j : Text) (d : Dict Text V) → has j (delete ip d) ≡ (not (ip =? j) && has j d)
has-delete ip j d = ground (arith, lookup-delete ip j d)

-- A client without a table owns no number.
no_owner :
    {F R : Type 0} ⦃f_eq : Eq F⦄ ⦃r_eq : Eq R⦄ (k : Keying F R) (most low high : ℕ) (t : Tables F R)
    → IsTable k most low high t
    → (ip : Text) → lookup ip t.fwd ≡ none
    → (r : R) (v : ℕ) → lookup r t.rev ≢ some (ip, v)
no_owner k most low high t valid ip absent r v h =
    let (f, n, at_f, key, value) = valid.two_way.back r ip v h in
    absurd (ground (arith, at_f, absent))

module _ (nat : ServerNat) (valid : IsValid nat) (ip : Text) where
  pub register_client-IsValid : IsValid (register_client nat ip)
  unfolding register_client
  register_client-IsValid = elim (Bool-cases (is_in ip nat.clients)) [
    | inl known ↦ rw known valid
    | inr fresh ↦ rw fresh (record {
      l4 =
          register-IsTable l4_keying 200 50000 60000 nat.l4 valid.l4 ip
            (lookup_absent ip nat.l4.fwd (valid.l4_clients ip ∙ fresh));
      echo =
          register-IsTable icmp_keying 10 0 65536 nat.echo valid.echo ip
            (lookup_absent ip nat.echo.fwd (valid.echo_clients ip ∙ fresh));
      l4_clients =
          λ j. rw (has-insert ip j [] nat.l4.fwd, valid.l4_clients j, is_in-add ip j nat.clients);
      echo_clients = λ j.
          rw (has-insert ip j [] nat.echo.fwd, valid.echo_clients j, is_in-add ip j nat.clients);
    })
  ]

  -- What `unregister_client` leaves: it has returned, the client is none, and no number is its own.
  pub record IsGone : Type 0 where
    pub returns : (unregister_client nat ip).1 ≡ ok tt
    pub valid_after : IsValid (unregister_client nat ip).0
    pub unknown : is_in ip (unregister_client nat ip).0.clients ≡ false
    pub no_port : (r : ℕ × ℕ) (v : ℕ) → lookup r (unregister_client nat ip).0.l4.rev ≢ some (ip, v)
    pub no_id : (r v : ℕ) → lookup r (unregister_client nat ip).0.echo.rev ≢ some (ip, v)

  unregistered : is_in ip nat.clients ≡ false → IsGone
  unfolding unregister_client
  unregistered absent = record {
    returns = rw absent;
    valid_after = rw absent valid;
    unknown = rw absent absent;
    no_port = rw absent (
        no_owner l4_keying 200 50000 60000 nat.l4 valid.l4 ip
          (lookup_absent ip nat.l4.fwd (valid.l4_clients ip ∙ absent)));
    no_id = rw absent (
        no_owner icmp_keying 10 0 65536 nat.echo valid.echo ip
          (lookup_absent ip nat.echo.fwd (valid.echo_clients ip ∙ absent)));
  }

  removed :
      (flows : Dict (ℕ × ℕ) ℕ) (echoes : Dict ℕ ℕ)
      → is_in ip nat.clients ≡ true
      → lookup ip nat.l4.fwd ≡ some flows
      → lookup ip nat.echo.fwd ≡ some echoes
      → IsGone
  unfolding unregister_client
  removed flows echoes known at_l4 at_echo = record {
    returns = rw (known, at_l4, at_echo);
    valid_after =
        rw (known, at_l4, at_echo)
          (record {
            l4 = l4;
            echo = echo;
            l4_clients = λ j.
                rw (has-delete ip j nat.l4.fwd, valid.l4_clients j, is_in-discard ip j nat.clients);
            echo_clients = λ j. rw (
              has-delete ip j nat.echo.fwd,
              valid.echo_clients j,
              is_in-discard ip j nat.clients,
            );
          });
    unknown = rw (known, at_l4, at_echo) (is_in-discard ip ip nat.clients ∙ rw (=?_refl ip));
    no_port =
        rw (known, at_l4, at_echo)
          (no_owner l4_keying 200 50000 60000 _ l4 ip
            (lookup-delete ip ip nat.l4.fwd ∙ rw (=?_refl ip)));
    no_id =
        rw (known, at_l4, at_echo)
          (no_owner icmp_keying 10 0 65536 _ echo ip
            (lookup-delete ip ip nat.echo.fwd ∙ rw (=?_refl ip)));
  }
    where
      l4 :
          IsTable l4_keying 200 50000 60000
            (record { fwd = delete ip nat.l4.fwd; rev = forget l4_keying flows nat.l4.rev })
      l4 = unregister-IsTable l4_keying 200 50000 60000 nat.l4 valid.l4 ip flows at_l4

      echo :
          IsTable icmp_keying 10 0 65536
            (record { fwd = delete ip nat.echo.fwd; rev = forget icmp_keying echoes nat.echo.rev })
      echo = unregister-IsTable icmp_keying 10 0 65536 nat.echo valid.echo ip echoes at_echo

  -- With the tables in order, `unregister_client` returns; afterwards the tables are in order, the
  -- address is no client's, and no port and no ICMP identifier leads to it.
  pub unregister_client-IsGone : IsGone
  unregister_client-IsGone = elim (Bool-cases (is_in ip nat.clients)) [
    | inr absent ↦ unregistered absent
    | inl known ↦
        let (flows, at_l4) = lookup_found ip nat.l4.fwd (valid.l4_clients ip ∙ known) in
        let (echoes, at_echo) = lookup_found ip nat.echo.fwd (valid.echo_clients ip ∙ known) in
        removed flows echoes known at_l4 at_echo
  ]

-- The calls of the public methods, with the numbers that `random.randrange` draws.
pub data Call : Type 0 where
  register unregister : Text → Call
  ignore heed : ℕ → Call
  send : ℕ → ℕ → Bytes → Call
  answer : Bytes → Call

-- The draws are in the ranges that `randrange` is given.
abbrev pub IsDrawn : Call → Type 0
IsDrawn (send port_start id_start packet) =
    (50000 ≤ port_start) × (port_start < 60000) × (id_start < 65536)
IsDrawn _ = Unit

module _ (inet : Inet) where
  unfoldable pub call : ServerNat → Call → ServerNat
  unfolding register_client unregister_client translate_out translate_in
  call nat (register ip) = register_client nat ip
  call nat (unregister ip) = (unregister_client nat ip).0
  call nat (ignore port) = add_ignored_port nat port
  call nat (heed port) = remove_ignored_port nat port
  call nat (send port_start id_start packet) = (translate_out inet nat port_start id_start packet).0
  call nat (answer packet) = (translate_in inet nat packet).0

  unfoldable pub calls : ServerNat → List Call → ServerNat
  unfolding call
  calls nat [] = nat
  calls nat (c ∷ cs) = calls (call nat c) cs

  call-IsValid : (nat : ServerNat) (c : Call) → IsDrawn c → IsValid nat → IsValid (call nat c)
  unfolding call
  call-IsValid nat (register ip) drawn valid = register_client-IsValid nat valid ip
  call-IsValid nat (unregister ip) drawn valid =
      let gone : IsGone nat valid ip = unregister_client-IsGone nat valid ip in gone.valid_after
  call-IsValid nat (ignore port) drawn valid = record {
    l4 = valid.l4;
    echo = valid.echo;
    l4_clients = valid.l4_clients;
    echo_clients = valid.echo_clients;
  }
  call-IsValid nat (heed port) drawn valid = record {
    l4 = valid.l4;
    echo = valid.echo;
    l4_clients = valid.l4_clients;
    echo_clients = valid.echo_clients;
  }
  call-IsValid nat (send port_start id_start packet) drawn valid =
      translate_out-IsValid inet nat valid port_start id_start packet drawn.0 drawn.1 drawn.2
  call-IsValid nat (answer packet) drawn valid = translate_in-IsValid inet nat valid packet

  calls-IsValid :
      (nat : ServerNat) (cs : List Call) → All IsDrawn cs → IsValid nat → IsValid (calls nat cs)
  unfolding calls
  calls-IsValid nat [] drawn valid = valid
  calls-IsValid nat (c ∷ cs) drawn valid =
      calls-IsValid (call nat c) cs drawn.1 (call-IsValid nat c drawn.0 valid)

  -- After any calls of the methods on a new object, whatever the packets and the draws in their
  -- ranges, the reverse tables are the inverses of the clients' tables, a client has at most 200
  -- ports, of 50000-59999, and 10 ICMP identifiers below 65536, no flow stands twice in a table,
  -- and the tables' clients are the registered ones.
  pub history-IsValid :
      (exit_ip : Text) (ignored : List ℕ) (cs : List Call)
      → All IsDrawn cs
      → IsValid (calls (new exit_ip ignored) cs)
  history-IsValid exit_ip ignored cs drawn =
      calls-IsValid (new exit_ip ignored) cs drawn (new-IsValid exit_ip ignored)
