-- ===== src/Guard/Keys.antt =====
-- The keys that a guard pins (`loadKeyring` of packages/middleware/src/index.js).
use capability_demo.Prelude.{
  Bool, true, false, String, ◌==◌, any, select, List, [], ◌∷◌, Option, none, some, if◌then◌else◌,
}
use capability_demo.Json.{Json, Items, null, str, arr, nil, cons, get, is_text, text_or_empty}
use capability_demo.Runtime.{Node, to_text}
use capability_demo.Git.Retention.{is_truthy}

-- A key object is known by a text.
pub record PinnedKey : Type 0 where
  pub public_key : String
  pub kid : Option String
  pub status : String

-- `by_kid` in the order of the insertions; `any` matches whatever kid a token claims.
pub record Keyring : Type 0 where
  pub by_kid : List (String × PinnedKey)
  pub unnamed : Option PinnedKey

-- The arguments: the PEM text, the parsed keys file and the kid, `none` where they are not given
-- or empty.
pub record KeySource : Type 0 where
  pub public_key_pem : Option String
  pub keys_file : Option Json
  pub kid : Option String

items : Items → List Json
items nil = []
items (cons v vs) = v ∷ items vs

-- `doc && Array.isArray(doc.keys) ? doc.keys : null`, and no entries for `null`
unfoldable pub entries_of : Option Json → List Json
unfolding items
entries_of (some (arr vs)) = items vs
entries_of v = []

abbrev is_null : Json → Bool
is_null null = true
is_null v = false

-- `kid ? keys.filter((k) => k.kid === kid) : keys`
abbrev usable : Option String → List Json → List Json
usable none entries = entries
usable (some kid) entries = select (λ e. is_text (get "kid" e) kid) entries

-- `entry.status || 'active'`, of which only 'retired' is told apart
abbrev pub status_of : Option Json → String
status_of (some (str s)) = if s == "" then "active" else s
status_of v = "active"

-- Map.get: the value that was set last
unfoldable pub pinned_for : String → List (String × PinnedKey) → Option PinnedKey
pinned_for kid [] = none
pinned_for kid ((k, key) ∷ rest) = elim (pinned_for kid rest) [
  | some later ↦ some later
  | none ↦ if k == kid then some key else none
]

module _ (node : Node) (create_public_key : String → Option String) where
  -- String(v), `undefined` for a missing one
  abbrev kid_text : Option Json → String
  kid_text none = "undefined"
  kid_text (some v) = to_text node v

  -- `v || null` for a kid, which is only compared as a text
  abbrev kid_or_null : Option Json → Option String
  kid_or_null none = none
  kid_or_null (some v) = if is_truthy (some v) then some (to_text node v) else none

  entry_of : Json → Option String → Option (String × PinnedKey)
  entry_of entry none = none
  entry_of entry (some key) = some (
    kid_text (get "kid" entry),
    record {
      public_key = key;
      kid = kid_or_null (get "kid" entry);
      status = status_of (get "status" entry);
    },
  )

  -- A missing PEM throws, and so does one that is no key.
  unfoldable pub pin_entry : Json → Option (String × PinnedKey)
  unfolding entry_of
  pin_entry entry =
      if is_truthy (get "public_key_pem" entry)
      then entry_of entry (create_public_key (text_or_empty (get "public_key_pem" entry)))
      else none

  pin_next :
      Option (String × PinnedKey)
      → Option (List (String × PinnedKey))
      → Option (List (String × PinnedKey))
  pin_next (some e) (some rest) = some (e ∷ rest)
  pin_next _ _ = none

  unfoldable pub pin_all : List Json → Option (List (String × PinnedKey))
  unfolding pin_next
  pin_all [] = some []
  pin_all (e ∷ es) = pin_next (pin_entry e) (pin_all es)

  ring_of_file : Option (List (String × PinnedKey)) → Option Keyring
  ring_of_file none = none
  ring_of_file (some by_kid) = some (record { by_kid = by_kid; unnamed = none })

  ring_of_pem : Option String → Option String → Option Keyring
  ring_of_pem kid none = none
  ring_of_pem none (some key) = some (record {
    by_kid = [];
    unnamed = some (record { public_key = key; kid = none; status = "active" });
  })
  ring_of_pem (some kid) (some key) =
      let one : PinnedKey = record { public_key = key; kid = some kid; status = "active" } in
      some (record { by_kid = (kid, one) ∷ []; unnamed = some one })

  load_file : Option String → List Json → Option Keyring
  unfolding ring_of_file
  load_file kid [] = none
  load_file kid (e ∷ es) =
      if any is_null (e ∷ es)
      then none
      else elim (usable kid (e ∷ es)) [ [] ↦ none | u ∷ us ↦ ring_of_file (pin_all (u ∷ us)) ]

  -- `none` where it throws: no key is given, the file has no usable entry, or one is no key.
  unfoldable pub load_keyring : KeySource → Option Keyring
  unfolding ring_of_pem load_file entries_of
  load_keyring source = elim source.public_key_pem [
    | some pem ↦ ring_of_pem source.kid (create_public_key pem)
    | none ↦ elim source.keys_file [
      | none ↦ none
      | some doc ↦ load_file source.kid (entries_of (get "keys" doc))
    ]
  ]
