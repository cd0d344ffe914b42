-- ===== src/Crypto.antt =====
-- Server/Crypto.py (Client/Crypto.py and Loadbalancer/Crypto.py are copies): the byte shift that
-- every frame goes through. A shift is a natural number, as at each call.
pub mod Laws
use vpn_core.Base.{ℕ, ◌+◌, ◌-◌, ◌%◌, List, [], ◌∷◌}
use vpn_core.Base.Words.{Bytes}

abbrev pub cesar_shift : ℕ
cesar_shift = 5

-- `Cesar.encode`: an empty input gives `b''`.
unfoldable pub encode : Bytes → ℕ → Bytes
encode [] shifting = []
encode (b ∷ input) shifting = (b + shifting) % 256 ∷ encode input shifting

-- `Cesar.decode`: the remainder of Python is never negative, so 256 is added first.
unfoldable pub decode : Bytes → ℕ → Bytes
decode [] shifting = []
decode (b ∷ input) shifting = (b + 256 - shifting % 256) % 256 ∷ decode input shifting
