-- ===== src/Base/Text.antt =====
-- Texts as lists of code points, and what the program uses of Python's codecs: `str.encode` and
-- `bytes.decode` for UTF-8, the `json` module on credentials, and `hashlib.sha256`.
use Prim.Native.Nat.{ℕ}
use Prim.Native.Char.{code}
use Prim.Native.String.{String}
use mathlib.Core.Path.{◌≡◌}
use mathlib.Core.List.{List, [], ◌∷◌}
use mathlib.Core.Option.{Option, none, some}
use vpn_core.Base.Dict.{Dict}
use vpn_core.Base.Words.{Bytes, IsBytes}
use vpn_core.Base.Result.{Result, ok, raise, value_error}

abbrev pub Text : Type 0
Text = List ℕ

-- The code points of a literal.
abbrev pub codes : String → Text
codes String.[] = []
codes (String.◌∷◌ c s) = code c ∷ codes s

-- What the program tells apart in a JSON value: an object's members that are no strings are `none`.
pub data Json : Type 0 where
  string : Text → Json
  object : Dict Text (Option Text) → Json
  other : Json

-- `utf8_encode` fails on lone surrogates, `utf8_decode` on what is no UTF-8, `json_loads` on what
-- is no JSON; what `json.loads` raises at the interpreter's limits, of digits in a number and of nested
-- values, is left out. `json_credentials u p` is `json.dumps({"username": u, "password": p})`.
pub record Codec : Type 0 where
  pub utf8_encode : Text → Option Bytes
  pub utf8_decode : Bytes → Option Text
  pub json_loads : Text → Option Json
  pub json_credentials : Text → Text → Text
  pub sha256_hex : Bytes → Text
  pub utf8_decode-encode : (t : Text) (b : Bytes) → utf8_encode t ≡ some b → utf8_decode b ≡ some t
  pub utf8_encode-IsBytes : (t : Text) (b : Bytes) → utf8_encode t ≡ some b → IsBytes b
  pub json_loads-credentials :
      (u p : Text)
      → json_loads (json_credentials u p)
        ≡ some (object ((codes "username", some u) ∷ (codes "password", some p) ∷ []))

module _ (codec : Codec) where
  -- `t.encode("utf-8")`: a `UnicodeEncodeError` is a `ValueError`.
  unfoldable pub encode_text : Text → Result Bytes
  encode_text t = elim (codec.utf8_encode t) [ none ↦ raise value_error | some b ↦ ok b ]
