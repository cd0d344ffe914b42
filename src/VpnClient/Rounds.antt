-- ===== src/VpnClient/Rounds.antt =====
-- What a round of `_establish` in Client/VPNClient.py comes to, by what its parts come to.
use vpn_core.Base.{Bool, true, false, not, sym, subst, ◌≡◌, refl, ◌⊎◌, inl, inr}
use vpn_core.Base.Tests.{Bool-cases, if◌then◌else◌}
use vpn_core.Base.Text.{Text, Codec}
use vpn_core.VpnClient.{
  Attempt, after_handshake, after_setup, Client, Failure, Round, World, again, auth_error, done,
  failed, give_up, handshake_get_ip, hang, malformed, need_new_ip, open_data_connection, os_error,
  pending, round, server_error, setup_error, unsendable, up,
}

-- The failures of a handshake after which there is another round.
abbrev pub IsTransient : Failure → Type 0
IsTransient auth_error = ⊥
IsTransient setup_error = ⊥
IsTransient server_error = Unit
IsTransient need_new_ip = Unit
IsTransient os_error = Unit
IsTransient malformed = Unit
IsTransient unsendable = ⊥

tunnel_down : (b : Bool) (r : Round) → b ≡ false → (if not b then again else r) ≡ again
tunnel_down b r e = rw e

tunnel_there : (b : Bool) (r : Round) → b ≡ true → (if not b then again else r) ≡ r
tunnel_there b r e = rw e

-- What a round comes to, by its handshake, its tunnel and its data connection.
module _ (codec : Codec) (c : Client) (w : World) where
  abbrev pub Handshakes : Attempt Text → Type 0
  Handshakes outcome = handshake_get_ip codec c w.session_id w.handshake ≡ outcome

  abbrev pub Connects : Text → Attempt (Unit {0}) → Type 0
  Connects ip outcome =
      Handshakes (done ip)
      × (w.tunnel_up ≡ true)
      × (open_data_connection codec c w.session_id ip w.session ≡ outcome)

  -- A handshake with a transient failure, a tunnel that does not come up, or a data connection with
  -- any failure but `AuthError`.
  abbrev pub GoesOn : Type 0
  GoesOn =
      ((why : Failure) × Handshakes (failed why) × IsTransient why)
      ⊎ (((ip : Text) × Handshakes (done ip) × (w.tunnel_up ≡ false))
          ⊎ ((ip : Text) × (why : Failure) × Connects ip (failed why) × ¬ (why ≡ auth_error)))

  -- A handshake with any other failure, or a data connection with `AuthError`.
  abbrev pub Raises : Failure → Type 0
  Raises why =
      (Handshakes (failed why) × ¬ IsTransient why)
      ⊎ ((ip : Text) × Connects ip (failed auth_error) × (why ≡ auth_error))

  -- A read that never returns.
  abbrev pub Waits : Type 0
  Waits = Handshakes pending ⊎ ((ip : Text) × Connects ip pending)

  abbrev pub IsVerdict : Round → Type 0
  IsVerdict (up ip) = Connects ip (done tt)
  IsVerdict again = GoesOn
  IsVerdict (give_up why) = Raises why
  IsVerdict hang = Waits

  IsVerdict-failed : (why : Failure) → Handshakes (failed why) → IsVerdict (after_handshake why)
  IsVerdict-failed auth_error e = inl (e, λ h. h)
  IsVerdict-failed setup_error e = inl (e, λ h. h)
  IsVerdict-failed server_error e = inl (server_error, e, tt)
  IsVerdict-failed need_new_ip e = inl (need_new_ip, e, tt)
  IsVerdict-failed os_error e = inl (os_error, e, tt)
  IsVerdict-failed malformed e = inl (malformed, e, tt)
  IsVerdict-failed unsendable e = inl (e, λ h. h)

  IsVerdict-connected :
      (ip : Text) (outcome : Attempt (Unit {0}))
      → Connects ip outcome
      → IsVerdict (after_setup ip outcome)
  IsVerdict-connected ip (done _) e = e
  IsVerdict-connected ip pending e = inr (ip, e)
  IsVerdict-connected ip (failed auth_error) e = inr (ip, e, refl)
  IsVerdict-connected ip (failed setup_error) e = inr (inr (ip, setup_error, e, λ k. cc k))
  IsVerdict-connected ip (failed server_error) e = inr (inr (ip, server_error, e, λ k. cc k))
  IsVerdict-connected ip (failed need_new_ip) e = inr (inr (ip, need_new_ip, e, λ k. cc k))
  IsVerdict-connected ip (failed os_error) e = inr (inr (ip, os_error, e, λ k. cc k))
  IsVerdict-connected ip (failed malformed) e = inr (inr (ip, malformed, e, λ k. cc k))
  IsVerdict-connected ip (failed unsendable) e = inr (inr (ip, unsendable, e, λ k. cc k))

  Attempt-cases :
      {A : Type 0} (a : Attempt A)
      → ((x : A) × (a ≡ done x)) ⊎ ((a ≡ pending) ⊎ ((why : Failure) × (a ≡ failed why)))
  Attempt-cases (done x) = inl (x, refl)
  Attempt-cases pending = inr (inl refl)
  Attempt-cases (failed why) = inr (inr (why, refl))

  pub round-IsVerdict : IsVerdict (round codec c w)
  unfolding round
  round-IsVerdict = elim (Attempt-cases (handshake_get_ip codec c w.session_id w.handshake)) [
    | inr (inl e) ↦ rw (e, round) (inl e)
    | inr (inr (why, e)) ↦ rw (e, round) (IsVerdict-failed why e)
    | inl (ip, e) ↦
        let opened : Round =
          after_setup ip (open_data_connection codec c w.session_id ip w.session) in
        rw (e, round)
          (elim (Bool-cases w.tunnel_up) [
            | inr down ↦
                subst IsVerdict (sym (tunnel_down w.tunnel_up opened down))
                  (inr (inl (ip, e, down)))
            | inl there ↦ subst IsVerdict (sym (tunnel_there w.tunnel_up opened there)) (
                IsVerdict-connected ip (open_data_connection codec c w.session_id ip w.session)
                  (e, there, refl))
          ])
  ]
