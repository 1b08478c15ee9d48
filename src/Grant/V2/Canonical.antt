-- ===== src/Grant/V2/Canonical.antt =====
-- RFC 8785 canonical JSON (`canonicalJsonV2` of packages/middleware/src/verify-grant.js).
use Prim.Native.Nat.{ℕ, ◌-◌, ◌+◌, ◌/◌, ◌%◌}
use Prim.Native.Char.{code}
use capability_demo.Prelude.{
  Bool, true, false, ◌||◌, String, ◌==◌, concat, join, List, [], ◌∷◌, Option, none, some,
  if◌then◌else◌, ltb, eqb, map,
}
use capability_demo.Json.{
  Json, null, bool, int, frac, str, arr, obj, Items, nil, cons, Fields, end, field,
}
use capability_demo.Runtime.{Node}

-- The UTF-16 code units by which `sort` compares keys.
abbrev units_of : ℕ → List ℕ → List ℕ
units_of c rest =
    if ltb c 0x10000
    then c ∷ rest
    else (0xd800 + (c - 0x10000) / 0x400) ∷ (0xdc00 + (c - 0x10000) % 0x400) ∷ rest

unfoldable pub utf16 : String → List ℕ
utf16 String.[] = []
utf16 (String.◌∷◌ c s) = units_of (code c) (utf16 s)

unfoldable pub units_lt : List ℕ → List ℕ → Bool
units_lt [] [] = false
units_lt [] (b ∷ bs) = true
units_lt (a ∷ as') [] = false
units_lt (a ∷ as') (b ∷ bs) =
    let rest = units_lt as' bs in if ltb a b then true else if eqb a b then rest else false

abbrev Entry : Type 0
Entry = String × String

insert_entry : Entry → List Entry → List Entry
insert_entry e [] = e ∷ []
insert_entry e (f ∷ fs) =
    let rest = insert_entry e fs in
    if units_lt (utf16 e.0) (utf16 f.0) then e ∷ f ∷ fs else f ∷ rest

-- `Object.keys(value).sort()`, with what each key maps to.
sort_entries : List Entry → List Entry
sort_entries [] = []
sort_entries (e ∷ es) = insert_entry e (sort_entries es)

infixl 5 ◌>>=◌
abbrev ◌>>=◌ {ℓ κ} : {A : Type ℓ} {B : Type κ} → Option A → (A → Option B) → Option B
none >>= k = none
some a >>= k = k a

module _ (node : Node) where
  -- `${JSON.stringify(k)}:${canonical(value[k])}`
  render : Entry → String
  render e = concat (node.quote e.0) (concat ":" e.1)

  mutual
    canonical : Json → Option String
    canonical null = some "null"
    canonical (bool true) = some "true"
    canonical (bool false) = some "false"
    canonical (str s) = some (node.quote s)
    canonical (int n) = some (node.show (int n))
    canonical (frac s) = if s == "Infinity" || s == "-Infinity" then none else some s
    canonical (arr xs) = canonical_items xs >>= λ ts. some (concat "[" (concat (join "," ts) "]"))
    canonical (obj fs) = canonical_fields fs >>= λ es.
        some (concat "{" (concat (join "," (map render (sort_entries es))) "}"))

    canonical_items : Items → Option (List String)
    canonical_items nil = some []
    canonical_items (cons x xs) = canonical x >>= λ t. canonical_items xs >>= λ ts. some (t ∷ ts)

    canonical_fields : Fields → Option (List Entry)
    canonical_fields end = some []
    canonical_fields (field k v fs) =
        canonical v >>= λ t. canonical_fields fs >>= λ es. some ((k, t) ∷ es)

  -- `none` where it throws: a number that is not finite.
  unfoldable pub canonical_json_v2 : Json → Option String
  unfolding canonical canonical_items canonical_fields sort_entries insert_entry units_lt utf16
      render
  canonical_json_v2 value = canonical value
