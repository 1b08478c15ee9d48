-- ===== src/Http/Request.antt =====
-- The requests of the HTTP adapter and the checks on their parts (demo/src/http-atomic.js).
use Prim.Native.Nat.{ℕ}
use Prim.Native.Char.{Char, code}
use text.Mathlib.Text.{starts_with}
use capability_demo.Prelude.{
  is_space, is_space, Bool, true, false, not, ◌&&◌, ◌||◌, String, ◌==◌, eqb, leb, ltb, concat,
  begins_with, List, [], Option, none, some, if◌then◌else◌,
}

-- The second argument of `fetch`.
pub record FetchInit : Type 0 where
  pub method : String
  pub headers : List (String × String)
  pub redirect : String
  pub body : Option String

-- What the adapter reads from a response; `etag` is the header.
pub record HttpResponse : Type 0 where
  pub status : ℕ
  pub ok : Bool
  pub etag : Option String
  pub text : String

-- `fetch`, with all that stands behind it as a state; `none` where it throws.
pub record Origin (S : Type 0) : Type 0 where
  pub fetch : S → String → FetchInit → Option HttpResponse × S

abbrev pub is_quote : Char → Bool
is_quote c = eqb (code c) 34

-- `[^"]*"$`
unfoldable pub tag_rest : String → Bool
tag_rest String.[] = false
tag_rest (String.◌∷◌ c s) = if is_quote c then s == "" else tag_rest s

-- `[^"]+"$`
unfoldable pub tag_body : String → Bool
tag_body String.[] = false
tag_body (String.◌∷◌ c s) = not (is_quote c) && tag_rest s

-- /^"[^"]+"$/
unfoldable pub opaque_tag : String → Bool
opaque_tag String.[] = false
opaque_tag (String.◌∷◌ c s) = is_quote c && tag_body s

unfoldable pub is_strong_etag : Option String → Bool
unfolding opaque_tag tag_body tag_rest begins_with
is_strong_etag none = false
is_strong_etag (some etag) =
    if etag == "" then false else if begins_with etag "w/" then false else opaque_tag etag

unfoldable pub is_create_intent_pin : String → Bool
is_create_intent_pin pin = starts_with pin "absent:"

-- `s.includes(t)`
holds : String → String → Bool
holds t String.[] = t == ""
holds t (String.◌∷◌ c s) = starts_with (String.◌∷◌ c s) t || holds t s

-- `s.trim() === ''`
is_blank : String → Bool
is_blank String.[] = true
is_blank (String.◌∷◌ c s) = is_space (code c) && is_blank s

-- `s.replace(/\/+$/, '')`
unfoldable pub strip_slashes : String → String
strip_slashes String.[] = ""
strip_slashes (String.◌∷◌ c s) =
    let rest = strip_slashes s in if rest == "" && eqb (code c) 47 then "" else String.◌∷◌ c rest

pub data Resource : Type 0 where
  resource_at : (url : String) → Resource
  no_resource : (reason : String) → Resource

-- The arguments are `none` where they are no texts.
unfoldable pub resource_url : Option String → Option String → Resource
unfolding holds is_blank is_space strip_slashes begins_with
resource_url none resource_path = no_resource "missing_base_url"
resource_url (some base) none =
    if is_blank base then no_resource "missing_base_url" else no_resource "resource_path_not_rooted"
resource_url (some base) (some path) =
    if is_blank base
    then no_resource "missing_base_url"
    else if not (starts_with path "/")
    then no_resource "resource_path_not_rooted"
    else if (begins_with path "http:" || begins_with path "https:") || holds "://" path
    then no_resource "resource_path_absolute"
    else resource_at (concat (strip_slashes base) path)

unfoldable pub is_redirect_status : ℕ → Bool
is_redirect_status status = leb 300 status && ltb status 400

-- `status >= 200 && status < 300`
abbrev pub is_2xx : ℕ → Bool
is_2xx status = leb 200 status && ltb status 300

-- The result of observeEtag.
pub record Observed : Type 0 where
  pub ok : Bool
  pub etag : Option String
  pub status : ℕ

abbrev pub observation : HttpResponse → Observed
observation r =
    if eqb r.status 404
    then record { ok = true; etag = none; status = 404 }
    else if not r.ok
    then record { ok = false; etag = r.etag; status = r.status }
    else record { ok = true; etag = r.etag; status = r.status }

abbrev pub observed_by : {S : Type 0} → Option HttpResponse × S → Option Observed × S
observed_by (none, s) = (none, s)
observed_by (some r, s) = (some (observation r), s)

module _ {S : Type 0} (origin : Origin S) where
  unfoldable pub http_request :
      S → String → String → List (String × String) → Option String → Option HttpResponse × S
  http_request s url method headers body =
      origin.fetch s url
        (record { method = method; headers = headers; redirect = "manual"; body = body })

  unfoldable pub observe_etag : S → String → Option Observed × S
  unfolding http_request
  observe_etag s url = observed_by (http_request s url "GET" [] none)
