-- ===== src/Runtime.antt =====
-- What the program takes from Node.js and does not implement: hashing, signatures, base64url with
-- `JSON.parse`, dates and conversions to text. Everything that uses them takes a `Node`.
use Prim.Native.Nat.{ℕ}
use capability_demo.Prelude.{List, ℤ, ◌≡◌, refl, Bool, String, Option, none, some}
use capability_demo.Json.{Json, null, str}

pub record Node : Type 0 where
  -- crypto.createHash('sha256').update(s, 'utf8').digest('hex')
  pub sha256 : String → String
  -- JSON.parse(Buffer.from(s, 'base64url').toString('utf8')); `none` where it throws
  pub decode : String → Option Json
  -- JSON.parse(s); `none` where it throws
  pub parse : String → Option Json
  -- crypto.verify(null, message, key, base64url signature); `none` where it throws
  pub verify : String → String → String → Option Bool
  -- crypto.sign(null, message, key) as base64url
  pub sign : String → String → String
  -- Buffer.from(s, 'utf8').toString('base64url'), and back
  pub to_base64url : String → String
  pub from_base64url : String → String
  -- Date.parse; `none` is NaN
  pub date_parse : String → Option ℤ
  -- Date.now()
  pub date_now : ℤ
  -- new Date().toISOString()
  pub now_iso : String
  -- crypto.createPublicKey(pem), as a text; `none` where it throws
  pub create_public_key : String → Option String
  -- bytes.toString('utf8')
  pub utf8 : List ℕ → String
  -- String(v) for a value that is no text
  pub show : Json → String
  -- JSON.stringify(s) for a text
  pub quote : String → String
  -- s.toUpperCase()
  pub to_upper_case : String → String
  -- JSON.stringify(v)
  pub stringify : Json → String

module _ (node : Node) where
  -- String(v)
  abbrev pub to_text : Json → String
  to_text (str s) = s
  to_text v = node.show v

  -- `scalar`: v == null ? '' : String(v)
  unfoldable pub scalar : Option Json → String
  scalar none = ""
  scalar (some null) = ""
  scalar (some v) = to_text v

  pub scalar_str : (s : String) → scalar (some (str s)) ≡ s
  unfolding scalar
  scalar_str s = refl
