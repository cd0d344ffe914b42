-- ===== src/VpnClient/Sessions.antt =====
-- The sessions of `VPNClient` in Client/VPNClient.py: how `_establish` ends, and how many there are.
use vpn_core.Base.{
  ℕ, zero, suc, false, sym, subst, ◌≤◌, ◌<◌, ◌≡◌, refl, none, List, [], ◌∷◌, inl, inr, arith,
}
use vpn_core.Base.Tests.{◌==◌, Bool-cases}
use vpn_core.Base.Text.{Text, Codec}
use vpn_core.VpnClient.{
  authenticate, Client, Failure, Outcome, Round, World, again, connect, do_reconnect, done,
  established, exhausted, give_up, handshake_get_ip, hang, open_data_connection, raised, round,
  rounds, started, tried, unended, up,
}
use vpn_core.VpnClient.Rounds.{Connects, GoesOn, IsVerdict, Raises, Waits, round-IsVerdict}

-- How rounds end: the first of them that does not go on decides.
pub data IsEnd (codec : Codec) (c : Client) (worlds : ℕ → World) (n : ℕ) (end : Client × Outcome)
    : Type 0 where
  with_session :
      (k : ℕ) (ip : Text)
      → k < n
      → Connects codec c (worlds k) ip (done tt)
      → ((j : ℕ) → k < j → j < n → GoesOn codec c (worlds j))
      → end ≡ (started c (worlds k) ip k, established)
      → IsEnd codec c worlds n end
  with_exception :
      (k : ℕ) (why : Failure)
      → k < n
      → Raises codec c (worlds k) why
      → ((j : ℕ) → k < j → j < n → GoesOn codec c (worlds j))
      → end.1 ≡ raised why
      → end.0.retries_left ≡ k
      → IsEnd codec c worlds n end
  with_wait :
      (k : ℕ)
      → k < n
      → Waits codec c (worlds k)
      → ((j : ℕ) → k < j → j < n → GoesOn codec c (worlds j))
      → end.1 ≡ unended
      → IsEnd codec c worlds n end
  with_none :
      ((j : ℕ) → j < n → GoesOn codec c (worlds j))
      → end.1 ≡ exhausted
      → end.0.retries_left ≡ 0
      → IsEnd codec c worlds n end

module _ (codec : Codec) where
  later_all :
      (n : ℕ) (c : Client) (worlds : ℕ → World)
      → GoesOn codec c (worlds n)
      → ((j : ℕ) → j < n → GoesOn codec c (worlds j))
      → (j : ℕ) → j < suc n
      → GoesOn codec c (worlds j)
  later_all n c worlds next before j below = elim (Bool-cases (j == n)) [
    | inl here ↦
        let e : j ≡ n = ground (arith, here) in subst (λ i. GoesOn codec c (worlds i)) (sym e) next
    | inr other ↦ before j (ground (arith, other))
  ]

  later :
      (n : ℕ) (c : Client) (worlds : ℕ → World)
      → GoesOn codec c (worlds n)
      → (k : ℕ) → ((j : ℕ) → k < j → j < n → GoesOn codec c (worlds j))
      → (j : ℕ) → k < j
      → j < suc n
      → GoesOn codec c (worlds j)
  later n c worlds next k before j above below = elim (Bool-cases (j == n)) [
    | inl here ↦
        let e : j ≡ n = ground (arith, here) in subst (λ i. GoesOn codec c (worlds i)) (sym e) next
    | inr other ↦ before j above (ground (arith, other))
  ]

  -- Later rounds see the user's name and password as they were.
  one_more :
      (n : ℕ) (c : Client) (worlds : ℕ → World)
      → GoesOn codec c (worlds n)
      → {end : Client × Outcome} → IsEnd codec (tried codec c (worlds n) n) worlds n end
      → IsEnd codec c worlds (suc n) end
  unfolding handshake_get_ip open_data_connection authenticate
  one_more n c worlds next (with_session k ip below opened before e) =
      with_session k ip (omega arith) opened (later n c worlds next k before) e
  one_more n c worlds next (with_exception k why below ended before e r) =
      with_exception k why (omega arith) ended (later n c worlds next k before) e r
  one_more n c worlds next (with_wait k below waits before e) =
      with_wait k (omega arith) waits (later n c worlds next k before) e
  one_more n c worlds next (with_none before e r) =
      with_none (λ j below. later_all n c worlds next before j below) e r

  -- A round, with what the rounds after it come to.
  from_round :
      (n : ℕ) (c : Client) (worlds : ℕ → World) (r : Round)
      → round codec c (worlds n) ≡ r
      → IsVerdict codec c (worlds n) r
      → IsEnd codec
          (tried codec c (worlds n) n)
          worlds
          n
          (rounds codec n (tried codec c (worlds n) n) worlds)
      → IsEnd codec c worlds (suc n) (rounds codec (suc n) c worlds)
  unfolding rounds
  from_round n c worlds (up ip) e verdict rest =
      rw (e, rounds) (with_session n ip (omega arith) verdict (λ j k l. absurd (omega arith)) refl)
  from_round n c worlds (give_up why) e verdict rest =
      rw (e, rounds)
        (with_exception n why (omega arith) verdict (λ j k l. absurd (omega arith)) refl refl)
  from_round n c worlds hang e verdict rest =
      rw (e, rounds) (with_wait n (omega arith) verdict (λ j k l. absurd (omega arith)) refl)
  from_round n c worlds again e verdict rest = rw (e, rounds) (one_more n c worlds verdict rest)

  rounds-IsEnd :
      (n : ℕ) (c : Client) (worlds : ℕ → World) → IsEnd codec c worlds n (rounds codec n c worlds)
  unfolding rounds
  rounds-IsEnd zero c worlds = with_none (λ j below. absurd (omega arith)) refl refl
  rounds-IsEnd (suc n) c worlds =
      from_round n c worlds (round codec c (worlds n)) refl (round-IsVerdict codec c (worlds n))
        (rounds-IsEnd n (tried codec c (worlds n) n) worlds)

  -- `connect` makes at most three rounds, and the first that does not go on decides how it ends:
  -- with a session, when its handshake gives an address, the tunnel comes up and the data connection
  -- opens; with its exception, when the handshake fails with `AuthError`, `ConnectionSetupError` or a
  -- `ValueError` of a builder, or the data connection with `AuthError`; or never, when a read of it
  -- never returns. When all three go on, it ends with `ReconnectExhaustedError`. After a session or
  -- an exception as many retries are left as rounds were not needed.
  pub connect-IsEnd :
      (c : Client) (worlds : ℕ → World)
      → IsEnd codec (record c { retries_left = 3 }) worlds 3 (connect codec c worlds)
  unfolding connect
  connect-IsEnd c worlds = rounds-IsEnd 3 (record c { retries_left = 3 }) worlds

  -- How many sessions follow: one for each request of the server for a new address, as long as
  -- `_do_reconnect` brings one.
  abbrev go_on : Outcome → ℕ → ℕ
  go_on established rest = suc rest
  go_on (raised why) rest = 0
  go_on exhausted rest = 0
  go_on unended rest = 0

  unfoldable pub further_sessions : Client → List (ℕ → World) → ℕ
  unfolding do_reconnect
  further_sessions c [] = 0
  further_sessions c (worlds ∷ rest) =
      let (after, outcome) = do_reconnect codec c worlds in
      go_on outcome (further_sessions after rest)

  unfoldable pub sessions : Client → (ℕ → World) → List (ℕ → World) → ℕ
  unfolding connect further_sessions
  sessions c worlds rest =
      let (after, outcome) = connect codec c worlds in go_on outcome (further_sessions after rest)

  IsFewer : ℕ → Client × Outcome → Type 0
  IsFewer n (after, established) = after.retries_left < n
  IsFewer n (after, raised why) = Unit
  IsFewer n (after, exhausted) = Unit
  IsFewer n (after, unended) = Unit

  end-IsFewer :
      (n : ℕ) (c : Client) (worlds : ℕ → World) (end : Client × Outcome)
      → IsEnd codec c worlds n end
      → IsFewer n end
  unfolding IsFewer
  end-IsFewer n c worlds end (with_session k ip below opened before e) =
      subst (IsFewer n) (sym e) below
  end-IsFewer n c worlds (after, outcome) (with_exception k why below ended before e r) =
      subst (λ o. IsFewer n (after, o)) (sym e) tt
  end-IsFewer n c worlds (after, outcome) (with_wait k below waits before e) =
      subst (λ o. IsFewer n (after, o)) (sym e) tt
  end-IsFewer n c worlds (after, outcome) (with_none before e r) =
      subst (λ o. IsFewer n (after, o)) (sym e) tt

  bounded :
      (n : ℕ) (end : Client × Outcome) (rest : ℕ)
      → IsFewer n end
      → rest ≤ end.0.retries_left
      → go_on end.1 rest ≤ n
  unfolding IsFewer
  bounded n (after, established) rest fewer le = omega arith
  bounded n (after, raised why) rest fewer le = omega arith
  bounded n (after, exhausted) rest fewer le = omega arith
  bounded n (after, unended) rest fewer le = omega arith

  further_sessions-le :
      (c : Client) (rest : List (ℕ → World)) → further_sessions c rest ≤ c.retries_left
  unfolding further_sessions do_reconnect
  further_sessions-le c [] = omega arith
  further_sessions-le c (worlds ∷ rest) =
      let now : Client = record c { connected = false; nat = none } in
      bounded c.retries_left (rounds codec c.retries_left now worlds) _
        (end-IsFewer c.retries_left now worlds _ (rounds-IsEnd c.retries_left now worlds))
        (further_sessions-le (rounds codec c.retries_left now worlds).0 rest)

  -- A client has at most three sessions after a `connect`, whatever the network does and however
  -- often the server asks for a new address: a session does not give the retries back.
  pub sessions-le :
      (c : Client) (worlds : ℕ → World) (rest : List (ℕ → World)) → sessions c worlds rest ≤ 3
  unfolding sessions
  sessions-le c worlds rest =
      bounded 3 (connect codec c worlds) _ (end-IsFewer 3 _ worlds _ (connect-IsEnd c worlds))
        (further_sessions-le (connect codec c worlds).0 rest)
