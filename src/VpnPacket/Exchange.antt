-- ===== src/VpnPacket/Exchange.antt =====
-- What one side builds, the other side's parser accepts and reads as it was meant.
use vpn_core.Base.{
  ℕ, ◌≤◌, ◌≡◌, refl, sym, ap, ◌∙◌, ◌⊎◌, inl, inr, Bool, true, false, some, [], ◌∷◌, arith,
}
use vpn_core.Base.Int.{ℤ, pos, negsuc}
use vpn_core.Base.Words.{Bytes, pack_u32, u32_at}
use vpn_core.Base.Text.{Text, Codec, encode_text}
use vpn_core.Base.Result.{Result, ok, >>=-eq-ok, ◌>>=◌}
use vpn_core.VpnPacket.{
  Parts, build_packet, data_code, keep_alive, auth_request, quota_request, disconnect, status,
  error, get_ip, register_request, announce_ip,
}
use vpn_core.VpnPacket.Header.{parse-built}
use vpn_core.VpnPacket.Server
use vpn_core.VpnPacket.Server.{hash_password, decode_credentials, decode_text}
use vpn_core.VpnPacket.Client
use vpn_core.VpnPacket.Client.{credentials_payload}

-- One constructor for each builder of the client.
pub data Request : Type 0 where
  piece : Bytes → Bool → Request
  auth register : Text → Text → Request
  quota : ℤ → Request
  failure announce : Text → Request
  alive goodbye status_query address_query : Request

pub u32-pack : (v : ℕ) → v ≤ 4294967295 → u32_at (pack_u32 v) 0 ≡ v
u32-pack v h = omega arith

module _ (codec : Codec) where
  unfoldable pub client_build : Request → ℤ → Result Bytes
  client_build (piece payload more) sid = Client.build_data sid payload more
  client_build (auth u p) sid = Client.build_auth_request codec sid u p
  client_build (register u p) sid = Client.build_register_request codec sid u p
  client_build (quota amount) sid = Client.build_quota_request sid amount
  client_build (failure message) sid = Client.build_error codec sid message
  client_build (announce ip) sid = Client.build_announce_ip codec sid ip
  client_build alive sid = Client.build_keep_alive sid
  client_build goodbye sid = Client.build_disconnect sid
  client_build status_query sid = Client.build_status_request sid
  client_build address_query sid = Client.build_get_ip sid

  -- The user name, and the hash that the client computed.
  abbrev pub Names : Text → Text → Server.ParsedPacket → Type 0
  Names u p v =
      (v.username ≡ some u)
      × ((h : Text) × (hash_password codec u p ≡ ok h) × (v.password_hash ≡ some h))

  -- What the server shall read.
  abbrev pub Means : Request → Server.ParsedPacket → Type 0
  Means (piece payload more) v = (v.code ≡ data_code) × (v.payload ≡ payload) × (v.mtu_flag ≡ more)
  Means (auth u p) v = (v.code ≡ auth_request) × Names u p v
  Means (register u p) v = (v.code ≡ register_request) × Names u p v
  Means (quota amount) v =
      (v.code ≡ quota_request) × ((n : ℕ) × (amount ≡ pos n) × (v.requested_bytes ≡ some n))
  Means (failure message) v = (v.code ≡ error) × (v.error_message ≡ some message)
  Means (announce ip) v = (v.code ≡ announce_ip) × (v.ip ≡ some ip)
  Means alive v = v.code ≡ keep_alive
  Means goodbye v = v.code ≡ disconnect
  Means status_query v = v.code ≡ status
  Means address_query v = v.code ≡ get_ip

  pub record IsReceived (m : Request) (sid : ℤ) (packet : Bytes) : Type 0 where
    pub view : Server.ParsedPacket
    pub parses : Server.parse codec packet ≡ ok view
    pub session : pos view.session_id ≡ sid
    pub means : Means m view

  -- A text that was encoded decodes to itself.
  pub decode-encode_text :
      (t : Text) (b : Bytes) → encode_text codec t ≡ ok b → codec.utf8_decode b ≡ some t
  unfolding encode_text
  decode-encode_text t b h = codec.utf8_decode-encode t b (ground arith)

  -- The parser on a built packet: the payload is read under the header's fields.
  parse_step :
      (code : ℕ) (sid : ℤ) (payload : Bytes) (more : Bool) (packet : Bytes)
      → Server.server_receivable code ≡ true
      → build_packet (pos code) sid payload more ≡ ok packet
      → (n : ℕ) × (sid ≡ pos n)
        × (Server.parse codec packet
            ≡ Server.read_payload codec
                (record { code = code; session_id = n; mtu_flag = more; payload = payload }))
  unfolding Server.parse
  parse_step code sid payload more packet allowed h =
      let (n, e, parsed) = parse-built code sid payload more packet h in
      (n, e, rw (parsed, allowed))

  -- A packet whose payload the parser does not look into, or that has none.
  plain-IsReceived :
      (m : Request) (code : ℕ) (sid : ℤ) (payload : Bytes) (more : Bool) (packet : Bytes)
      → Server.server_receivable code ≡ true
      → ((p : Parts)
          → p.code ≡ code
          → p.payload ≡ payload
          → Server.read_payload codec p ≡ ok (Server.bare p))
      → ((n : ℕ)
          → Means m (
              Server.bare
                (record { code = code; session_id = n; mtu_flag = more; payload = payload })))
      → build_packet (pos code) sid payload more ≡ ok packet
      → IsReceived m sid packet
  plain-IsReceived m code sid payload more packet allowed reads means h =
      let (n, e, parsed) = parse_step code sid payload more packet allowed h in
      record {
        view =
            Server.bare
              (record { code = code; session_id = n; mtu_flag = more; payload = payload });
        parses = parsed ∙ reads _ refl refl;
        session = sym e;
        means = means n;
      }

  -- The parser's reading of each kind of payload.
  read_plain :
      (code : ℕ) (payload : Bytes)
      → ((code ≡ data_code) ⊎ (code ≡ status))
        ⊎ ((payload ≡ []) × (((code ≡ keep_alive) ⊎ (code ≡ disconnect)) ⊎ (code ≡ get_ip)))
      → (p : Parts) → p.code ≡ code
      → p.payload ≡ payload
      → Server.read_payload codec p ≡ ok (Server.bare p)
  unfolding Server.read_payload
  read_plain code payload kind p e f = ground arith

  credentials_exchange :
      (u p : Text) (payload : Bytes)
      → credentials_payload codec u p ≡ ok payload
      → (h : Text) × (hash_password codec u p ≡ ok h)
        × (decode_credentials codec payload ≡ ok (u, h))
  unfolding credentials_payload decode_credentials
  credentials_exchange u p payload made =
      let (h, hashed, encoded) = >>=-eq-ok (hash_password codec u p) _ made in
      (
        h,
        hashed,
        rw (
          decode-encode_text (codec.json_credentials u h) payload encoded,
          codec.json_loads-credentials u h,
        ),
      )

  -- AUTH_REQUEST and REGISTER_REQUEST, which differ in the code alone.
  credentials-IsReceived :
      (m : Request) (code : ℕ) (sid : ℤ) (u p : Text) (packet : Bytes)
      → (code ≡ auth_request) ⊎ (code ≡ register_request)
      → ((v : Server.ParsedPacket) → v.code ≡ code → Names u p v → Means m v)
      → (credentials_payload codec u p >>= λ payload. build_packet (pos code) sid payload false)
        ≡ ok packet
      → IsReceived m sid packet
  credentials-IsReceived m code sid u p packet kind means made =
      let (payload, c, h) = >>=-eq-ok (credentials_payload codec u p) _ made in
      let (hash, hashed, read) = credentials_exchange u p payload c in
      let (n, e, parsed) = parse_step code sid payload false packet (allowed kind) h in
      let parts : Parts = record {
        code = code;
        session_id = n;
        mtu_flag = false;
        payload = payload;
      } in
      record {
        view = record (Server.bare parts) { username = some u; password_hash = some hash };
        parses = parsed ∙ reads parts hash kind read;
        session = sym e;
        means = means _ refl (refl, (hash, hashed, refl));
      }
    where
      allowed :
          (code ≡ auth_request) ⊎ (code ≡ register_request) → Server.server_receivable code ≡ true
      allowed k = unfold Server.server_receivable in ground arith

      reads :
          (parts : Parts) (hash : Text)
          → (parts.code ≡ auth_request) ⊎ (parts.code ≡ register_request)
          → decode_credentials codec parts.payload ≡ ok (u, hash)
          → Server.read_payload codec parts
            ≡ ok (record (Server.bare parts) { username = some u; password_hash = some hash })
      reads parts hash k r = unfold Server.read_payload in ground arith

  quota-IsReceived :
      (amount sid : ℤ) (packet : Bytes)
      → Client.build_quota_request sid amount ≡ ok packet
      → IsReceived (quota amount) sid packet
  unfolding Client.build_quota_request Server.read_payload Server.server_receivable
  quota-IsReceived (negsuc a) sid packet made = absurd (ground arith)
  quota-IsReceived (pos a) sid packet made =
      let h : build_packet (pos quota_request) sid (pack_u32 a) false ≡ ok packet = ground arith in
      let fits : a ≤ 4294967295 = ground arith in
      let (n, e, parsed) = parse_step quota_request sid (pack_u32 a) false packet refl h in
      record {
        view =
            record (Server.bare (record {
              code = quota_request;
              session_id = n;
              mtu_flag = false;
              payload = pack_u32 a;
            })) { requested_bytes = some (u32_at (pack_u32 a) 0) };
        parses = parsed;
        session = sym e;
        means = (refl, (a, refl, ap some (u32-pack a fits)));
      }

  failure-IsReceived :
      (message : Text) (sid : ℤ) (packet : Bytes)
      → Client.build_error codec sid message ≡ ok packet
      → IsReceived (failure message) sid packet
  unfolding Client.build_error Server.read_payload Server.server_receivable decode_text
  failure-IsReceived message sid packet made =
      let (payload, encoded, h) = >>=-eq-ok (encode_text codec message) _ made in
      let (n, e, parsed) = parse_step error sid payload false packet refl h in
      record {
        view =
            record (Server.bare
              (record { code = error; session_id = n; mtu_flag = false; payload = payload })) {
                error_message = some message;
              };
        parses = parsed ∙ rw (decode-encode_text message payload encoded);
        session = sym e;
        means = (refl, refl);
      }

  announce-IsReceived :
      (ip : Text) (sid : ℤ) (packet : Bytes)
      → Client.build_announce_ip codec sid ip ≡ ok packet
      → IsReceived (announce ip) sid packet
  unfolding Client.build_announce_ip Server.read_payload Server.server_receivable decode_text
  announce-IsReceived [] sid packet made = cc
  announce-IsReceived (c ∷ ip) sid packet made =
      let (payload, encoded, h) = >>=-eq-ok (encode_text codec (c ∷ ip)) _ made in
      let (n, e, parsed) = parse_step announce_ip sid payload false packet refl h in
      record {
        view =
            record (Server.bare (record {
              code = announce_ip;
              session_id = n;
              mtu_flag = false;
              payload = payload;
            })) { ip = some (c ∷ ip) };
        parses = parsed ∙ rw (decode-encode_text (c ∷ ip) payload encoded);
        session = sym e;
        means = (refl, refl);
      }

  -- Whatever a builder of the client makes, the server's parser accepts, for the session that it
  -- was made for, and reads as it was meant: credentials with the hash that the client computed,
  -- the number of bytes asked for, the text of an error or an address.
  pub client_build-IsReceived :
      (m : Request) (sid : ℤ) (packet : Bytes)
      → client_build m sid ≡ ok packet
      → IsReceived m sid packet
  unfolding client_build Server.server_receivable Client.build_auth_request
      Client.build_register_request
  client_build-IsReceived (piece payload more) sid packet h =
      plain-IsReceived (piece payload more) data_code sid payload more packet refl
        (read_plain data_code payload (inl (inl refl))) (λ n. (refl, refl, refl)) h
  client_build-IsReceived (auth u p) sid packet h =
      credentials-IsReceived (auth u p) auth_request sid u p packet (inl refl) (λ v e k. (e, k)) h
  client_build-IsReceived (register u p) sid packet h =
      credentials-IsReceived (register u p) register_request sid u p packet (inr refl)
        (λ v e k. (e, k)) h
  client_build-IsReceived (quota amount) sid packet h = quota-IsReceived amount sid packet h
  client_build-IsReceived (failure message) sid packet h = failure-IsReceived message sid packet h
  client_build-IsReceived (announce ip) sid packet h = announce-IsReceived ip sid packet h
  client_build-IsReceived alive sid packet h =
      plain-IsReceived alive keep_alive sid [] false packet refl
        (read_plain keep_alive [] (inr (refl, inl (inl refl)))) (λ n. refl) h
  client_build-IsReceived goodbye sid packet h =
      plain-IsReceived goodbye disconnect sid [] false packet refl
        (read_plain disconnect [] (inr (refl, inl (inr refl)))) (λ n. refl) h
  client_build-IsReceived status_query sid packet h =
      plain-IsReceived status_query status sid [] false packet refl
        (read_plain status [] (inl (inr refl))) (λ n. refl) h
  client_build-IsReceived address_query sid packet h =
      plain-IsReceived address_query get_ip sid [] false packet refl
        (read_plain get_ip [] (inr (refl, inr refl))) (λ n. refl) h
