-- ===== src/VpnPacket/Replies.antt =====
-- What the builders of Server/VPNPacket.py make, the parser of Client/VPNPacket.py accepts and reads
-- as it was meant.
use vpn_core.Base.{
  ℕ, ◌≤◌, ◌≡◌, refl, sym, ap, ◌∙◌, ◌⊎◌, inl, inr, Bool, true, false, some, [], ◌∷◌, arith,
}
use vpn_core.Base.Int.{ℤ, pos, negsuc}
use vpn_core.Base.Words.{Bytes, pack_u32, u32_at}
use vpn_core.Base.Text.{Text, Codec, encode_text}
use vpn_core.Base.Result.{Result, ok, >>=-eq-ok, ◌>>=◌}
use vpn_core.VpnPacket.{
  build_packet, data_code, auth_success, auth_failed, quota_response, disconnect, status, error,
  assign_ip, get_new_ip, register_success,
}
use vpn_core.VpnPacket.Header.{parse-built}
use vpn_core.VpnPacket.Exchange.{u32-pack, decode-encode_text}
use vpn_core.VpnPacket.Server
use vpn_core.VpnPacket.Client

-- One constructor for each builder of the server.
pub data Message : Type 0 where
  datagram : Bytes → Bool → Message
  welcome unwelcome farewell another_address known : Message
  bytes_added : ℤ → Message
  state : Bytes → Message
  trouble address : Text → Message

-- The code of a reply, and what it carries.
abbrev pub code_of : Message → ℕ
code_of (datagram payload more) = data_code
code_of welcome = auth_success
code_of unwelcome = auth_failed
code_of farewell = disconnect
code_of another_address = get_new_ip
code_of known = register_success
code_of (bytes_added amount) = quota_response
code_of (state bytes) = status
code_of (trouble message) = error
code_of (address ip) = assign_ip

abbrev pub Carries : Message → Client.ParsedPacket → Type 0
Carries (datagram payload more) v = (v.payload ≡ payload) × (v.mtu_flag ≡ more)
Carries welcome v = Unit
Carries unwelcome v = Unit
Carries farewell v = Unit
Carries another_address v = Unit
Carries known v = Unit
Carries (bytes_added amount) v = (n : ℕ) × (amount ≡ pos n) × (v.added_bytes ≡ some n)
Carries (state bytes) v = v.status_bytes ≡ some bytes
Carries (trouble message) v = v.error_message ≡ some message
Carries (address ip) v = v.ip ≡ some ip

module _ (codec : Codec) where
  unfoldable pub server_build : Message → ℤ → Result Bytes
  server_build (datagram payload more) sid = Server.build_data sid payload more
  server_build welcome sid = Server.build_auth_success sid
  server_build unwelcome sid = Server.build_auth_failed sid
  server_build farewell sid = Server.build_disconnect sid
  server_build another_address sid = Server.build_get_new_ip sid
  server_build known sid = Server.build_register_success sid
  server_build (bytes_added amount) sid = Server.build_quota_response sid amount
  server_build (state bytes) sid = Server.build_status sid bytes
  server_build (trouble message) sid = Server.build_error codec sid message
  server_build (address ip) sid = Server.build_assign_ip codec sid ip

  -- The client's parser reads the reply, for its session.
  pub record IsRead (m : Message) (sid : ℤ) (packet : Bytes) : Type 0 where
    pub view : Client.ParsedPacket
    pub parses : Client.parse codec packet ≡ ok view
    pub for_session : pos view.session_id ≡ sid
    pub code_is : view.code ≡ code_of m
    pub carries : Carries m view

  -- A packet whose payload is read as `view` with the fields of the header.
  IsRead-built :
      (m : Message) (sid : ℤ) (payload : Bytes) (more : Bool) (packet : Bytes)
      → Client.client_receivable (code_of m) ≡ true
      → (view : ℕ → Client.ParsedPacket)
      → ((n : ℕ)
          → Client.read_payload codec
              (record { code = code_of m; session_id = n; mtu_flag = more; payload = payload })
            ≡ ok (view n))
      → ((n : ℕ) → ((view n).session_id ≡ n) × ((view n).code ≡ code_of m) × Carries m (view n))
      → build_packet (pos (code_of m)) sid payload more ≡ ok packet
      → IsRead m sid packet
  unfolding Client.parse
  IsRead-built m sid payload more packet allowed view reads means h =
      let (n, e, parsed) = parse-built (code_of m) sid payload more packet h in
      let (session, code, rest) = means n in
      record {
        view = view n;
        parses = rw (parsed, allowed) (reads n);
        for_session = ap pos session ∙ sym e;
        code_is = code;
        carries = rest;
      }

  -- The view of a packet that the parser does not look into.
  abbrev seen : Message → Bytes → Bool → ℕ → Client.ParsedPacket
  seen m payload more n =
      Client.bare (record { code = code_of m; session_id = n; mtu_flag = more; payload = payload })

  pub server_build-IsRead_bare :
      (m : Message) (sid : ℤ) (packet : Bytes)
      → (code_of m ≡ auth_success)
        ⊎ ((code_of m ≡ auth_failed)
            ⊎ ((code_of m ≡ disconnect)
                ⊎ ((code_of m ≡ get_new_ip) ⊎ (code_of m ≡ register_success))))
      → ((n : ℕ) → Carries m (seen m [] false n))
      → build_packet (pos (code_of m)) sid [] false ≡ ok packet
      → IsRead m sid packet
  unfolding Client.read_payload Client.client_receivable
  server_build-IsRead_bare m sid packet kind means h =
      IsRead-built m sid [] false packet (ground arith) (seen m [] false) (λ n. ground arith)
        (λ n. (refl, refl, means n)) h

  text-IsRead :
      (m : Message) (sid : ℤ) (t : Text) (packet : Bytes)
      → Client.client_receivable (code_of m) ≡ true
      → (view : Bytes → ℕ → Client.ParsedPacket)
      → ((payload : Bytes) (n : ℕ)
          → codec.utf8_decode payload ≡ some t
          → Client.read_payload codec
              (record { code = code_of m; session_id = n; mtu_flag = false; payload = payload })
            ≡ ok (view payload n))
      → ((payload : Bytes) (n : ℕ)
          → ((view payload n).session_id ≡ n)
            × ((view payload n).code ≡ code_of m)
            × Carries m (view payload n))
      → (encode_text codec t >>= λ payload. build_packet (pos (code_of m)) sid payload false)
        ≡ ok packet
      → IsRead m sid packet
  text-IsRead m sid t packet allowed view reads means made =
      let (payload, encoded, h) = >>=-eq-ok (encode_text codec t) _ made in
      IsRead-built m sid payload false packet allowed (view payload)
        (λ n. reads payload n (decode-encode_text codec t payload encoded)) (means payload) h

  -- Whatever packet a builder of the server makes, the client's parser accepts it, for the session
  -- that it was made for and with its code, and reads what it carries: the payload and flag of DATA,
  -- the number of bytes added, the status, the text of an error, or an address.
  pub server_build-IsRead :
      (m : Message) (sid : ℤ) (packet : Bytes)
      → server_build m sid ≡ ok packet
      → IsRead m sid packet
  unfolding server_build Client.read_payload Client.client_receivable Server.build_quota_response
      Server.build_error Server.build_assign_ip
  server_build-IsRead (datagram payload more) sid packet h =
      IsRead-built (datagram payload more) sid payload more packet refl
        (seen (datagram payload more) payload more) (λ n. refl) (λ n. (refl, refl, (refl, refl))) h
  server_build-IsRead welcome sid packet h =
      server_build-IsRead_bare welcome sid packet (inl refl) (λ n. tt) h
  server_build-IsRead unwelcome sid packet h =
      server_build-IsRead_bare unwelcome sid packet (inr (inl refl)) (λ n. tt) h
  server_build-IsRead farewell sid packet h =
      server_build-IsRead_bare farewell sid packet (inr (inr (inl refl))) (λ n. tt) h
  server_build-IsRead another_address sid packet h =
      server_build-IsRead_bare another_address sid packet (inr (inr (inr (inl refl)))) (λ n. tt) h
  server_build-IsRead known sid packet h =
      server_build-IsRead_bare known sid packet (inr (inr (inr (inr refl)))) (λ n. tt) h
  server_build-IsRead (bytes_added (negsuc a)) sid packet h = absurd (ground arith)
  server_build-IsRead (bytes_added (pos a)) sid packet h =
      let fits : a ≤ 4294967295 = ground arith in
      let built : build_packet (pos quota_response) sid (pack_u32 a) false ≡ ok packet =
        ground arith in
      IsRead-built (bytes_added (pos a)) sid (pack_u32 a) false packet refl
        (λ n. record (seen (bytes_added (pos a)) (pack_u32 a) false n) {
          added_bytes = some (u32_at (pack_u32 a) 0);
        })
        (λ n. refl) (λ n. (refl, refl, (a, refl, ap some (u32-pack a fits)))) built
  server_build-IsRead (state bytes) sid packet h =
      IsRead-built (state bytes) sid bytes false packet refl
        (λ n. record (seen (state bytes) bytes false n) { status_bytes = some bytes }) (λ n. refl)
        (λ n. (refl, refl, refl)) h
  server_build-IsRead (trouble message) sid packet h =
      text-IsRead (trouble message) sid message packet refl
        (λ payload n. record (seen (trouble message) payload false n) {
          error_message = some message;
        })
        (λ payload n e. rw e refl) (λ payload n. (refl, refl, refl)) h
  server_build-IsRead (address []) sid packet h = cc
  server_build-IsRead (address (c ∷ ip)) sid packet h =
      text-IsRead (address (c ∷ ip)) sid (c ∷ ip) packet refl
        (λ payload n. record (seen (address (c ∷ ip)) payload false n) { ip = some (c ∷ ip) })
        (λ payload n e. rw e refl) (λ payload n. (refl, refl, refl)) h
