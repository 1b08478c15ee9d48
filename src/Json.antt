-- ===== src/Json.antt =====
-- The values that `JSON.parse` returns, and what the program reads from them
-- (packages/middleware/src/verify-grant.js, demo/src).
use capability_demo.Prelude.{
  ℤ, ◌≡◌, ◌↔◌, refl, ap, Bool, true, false, String, ◌==◌, eq_iff, List, [], ◌∷◌, Option, none, some,
  if◌then◌else◌,
}

-- A number is an integer, or is known by the text that JavaScript prints for it. A parsed object
-- has each key once, as `JSON.parse` keeps the last of equal keys.
mutual
  pub data Json : Type 0 where
    null : Json
    bool : Bool → Json
    int : ℤ → Json
    frac : String → Json
    str : String → Json
    arr : Items → Json
    obj : Fields → Json

  pub data Items : Type 0 where
    nil : Items
    cons : Json → Items → Items

  pub data Fields : Type 0 where
    end : Fields
    field : String → Json → Fields → Fields

pub find_field : String → Fields → Option Json
find_field k end = none
find_field k (field j v fs) = if j == k then some v else find_field k fs

-- `value[k]`; `none` is `undefined`
unfoldable pub get : String → Json → Option Json
unfolding find_field
get k (obj fs) = find_field k fs
get k _ = none

field_names : Fields → List String
field_names end = []
field_names (field k v fs) = k ∷ field_names fs

-- `Object.keys(value)`
unfoldable pub keys : Json → List String
unfolding field_names
keys (obj fs) = field_names fs
keys _ = []

-- `value && typeof value === 'object' && !Array.isArray(value)`
abbrev pub is_object : Json → Bool
is_object (obj fs) = true
is_object _ = false

-- `typeof v === 'string'`
abbrev pub is_string : Option Json → Bool
is_string (some (str s)) = true
is_string _ = false

-- `v === undefined || typeof v === 'string'`
abbrev pub is_optional_string : Option Json → Bool
is_optional_string none = true
is_optional_string v = is_string v

-- `v === t` for a text `t`
abbrev pub is_text : Option Json → String → Bool
is_text (some (str s)) t = s == t
is_text _ t = false

-- The text that stands in a field, `""` where there is none.
abbrev pub text_or_empty : Option Json → String
text_or_empty (some (str s)) = s
text_or_empty _ = ""

pub is_text_iff : (v : Option Json) (t : String) → (is_text v t ≡ true) ↔ (v ≡ some (str t))
is_text_iff none t = (λ h. cc, λ h. cc)
is_text_iff (some null) t = (λ h. cc, λ h. cc)
is_text_iff (some (bool b)) t = (λ h. cc, λ h. cc)
is_text_iff (some (int n)) t = (λ h. cc, λ h. cc)
is_text_iff (some (frac s)) t = (λ h. cc, λ h. cc)
is_text_iff (some (arr xs)) t = (λ h. cc, λ h. cc)
is_text_iff (some (obj fs)) t = (λ h. cc, λ h. cc)
is_text_iff (some (str s)) t =
    (λ h. ap (λ x. some (str x)) ((eq_iff s t).0 h), λ h. (eq_iff s t).1 (ap text_or_empty h))

pub is_string-eq : (v : Option Json) → is_string v ≡ true → v ≡ some (str (text_or_empty v))
is_string-eq none h = cc
is_string-eq (some (str s)) h = refl
is_string-eq (some null) h = cc
is_string-eq (some (bool b)) h = cc
is_string-eq (some (int n)) h = cc
is_string-eq (some (frac s)) h = cc
is_string-eq (some (arr xs)) h = cc
is_string-eq (some (obj fs)) h = cc
