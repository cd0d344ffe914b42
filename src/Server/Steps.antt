-- ===== src/Server/Steps.antt =====
-- What may happen to the pool of Server/VPNServer.py: an address is assigned, announced or left, or
-- something else of the server changes.
use vpn_core.Base.{ℕ, ◌≤◌, ◌≡◌, ◌∙◌, refl, true, false, Option, none, some, List}
use vpn_core.Base.Lists.{is_empty}
use vpn_core.Base.Eq.{nat_eq, list_eq}
use vpn_core.Base.Text.{Text}
use vpn_core.Base.Int.{ℤ}
use vpn_core.Nat.Server.{ServerNat, unregister_client}
use vpn_core.Nat.State.{IsValid}
use vpn_core.Nat.History.{register_client-IsValid, unregister_client-IsGone, IsGone}
use vpn_core.Server.{
  Handler, VpnServer, assign_ip, is_pending, is_active, register_session, unregister_session,
  with_port, without_port,
}
use vpn_core.Server.Pool.{
  count, places, places-assign_ip, places-register_session, places-unregister_session,
}

pub data Step (s t : VpnServer) : Type 0 where
  assign : t ≡ (assign_ip s).0 → Step s t
  announce :
      (i : ℕ) (h : Handler)
      → is_pending s h.assigned_ip ≡ true
      → is_active s h.assigned_ip ≡ false
      → t ≡ register_session s i h
      → Step s t
  end_session :
      (i : ℕ) (h : Handler) (q : Option ℤ)
      → is_empty h.assigned_ip ≡ false
      → is_active s h.assigned_ip ≡ true
      → t ≡ (unregister_session s i h q).0
      → Step s t
  besides :
      t.free_ips ≡ s.free_ips
      → t.pending ≡ s.pending
      → t.active_by_ip ≡ s.active_by_ip
      → (IsValid s.nat → IsValid t.nat)
      → Step s t

pub data Reach (s : VpnServer) : VpnServer → Type 0 where
  here : Reach s s
  next : {t u : VpnServer} → Reach s t → Step t u → Reach s u

-- Each address of a pool is in one place, each other in none, and the translation is in order.
pub record IsPooled (pool : List Text) (s : VpnServer) : Type 0 where
  pub nat_valid : IsValid s.nat
  pub placed : (x : Text) → places s x ≡ count x pool

module _ (nat : ServerNat) (valid : IsValid nat) where
  with_port-IsValid : (port : Option ℕ) → IsValid (with_port nat port)
  with_port-IsValid none = valid
  with_port-IsValid (some port) = record {
    l4 = valid.l4;
    echo = valid.echo;
    l4_clients = valid.l4_clients;
    echo_clients = valid.echo_clients;
  }

  without_port-IsValid : (port : Option ℕ) → IsValid (without_port nat port)
  without_port-IsValid none = valid
  without_port-IsValid (some port) = record {
    l4 = valid.l4;
    echo = valid.echo;
    l4_clients = valid.l4_clients;
    echo_clients = valid.echo_clients;
  }

-- A pool has no address twice.
abbrev pub IsUnique : List Text → Type 0
IsUnique pool = (x : Text) → count x pool ≤ 1

module _ (pool : List Text) (once : IsUnique pool) (s t : VpnServer) (h : IsPooled pool s) where
  leave-IsPooled :
      (i : ℕ) (k : Handler) (q : Option ℤ)
      → is_empty k.assigned_ip ≡ false
      → is_active s k.assigned_ip ≡ true
      → IsPooled pool (unregister_session s i k q).0
  unfolding unregister_session
  leave-IsPooled i k q named active =
      let gone : IsGone s.nat h.nat_valid k.assigned_ip =
        unregister_client-IsGone s.nat h.nat_valid k.assigned_ip in
      record {
        nat_valid =
            rw (named, gone.returns)
              (without_port-IsValid (unregister_client s.nat k.assigned_ip).0 gone.valid_after
                k.local_port);
        placed = λ x.
            places-unregister_session s i k q x named gone.returns active
              (rw (h.placed k.assigned_ip) (once k.assigned_ip))
            ∙ h.placed x;
      }

  besides-IsPooled :
      t.free_ips ≡ s.free_ips
      → t.pending ≡ s.pending
      → t.active_by_ip ≡ s.active_by_ip
      → (IsValid s.nat → IsValid t.nat)
      → IsPooled pool t
  unfolding places
  besides-IsPooled free pending active keeps = record {
    nat_valid = keeps h.nat_valid;
    placed = λ x. (rw (free, pending, active) refl) ∙ h.placed x;
  }

  Step-IsPooled : Step s t → IsPooled pool t
  unfolding assign_ip register_session
  Step-IsPooled (assign e) =
      rw e (record { nat_valid = h.nat_valid; placed = λ x. places-assign_ip s x ∙ h.placed x })
  Step-IsPooled (announce i k waiting apart e) = rw e (record {
    nat_valid =
        with_port-IsValid _ (register_client-IsValid s.nat h.nat_valid k.assigned_ip) k.local_port;
    placed = λ x. places-register_session s i k x waiting apart ∙ h.placed x;
  })
  Step-IsPooled (end_session i k q named active e) = rw e (leave-IsPooled i k q named active)
  Step-IsPooled (besides free pending active keeps) = besides-IsPooled free pending active keeps

-- From a server in which each address of a pool without repetitions is in one place, and each other
-- in none, no sequence of assignments, announcements, ends of sessions and other changes loses an
-- address, or puts one in two places.
pub Reach-IsPooled :
    {s t : VpnServer} (pool : List Text)
    → IsUnique pool
    → IsPooled pool s
    → Reach s t
    → IsPooled pool t
Reach-IsPooled pool once h here = h
Reach-IsPooled pool once h (next {t} {u} r step) =
    Step-IsPooled pool once t u (Reach-IsPooled pool once h r) step
