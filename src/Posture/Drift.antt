-- ===== src/Posture/Drift.antt =====
-- The drift between a baseline and the facts that are found: walkDiff and diffFacts of
-- demo/src/posture.js, without the names that driftName gives.
use capability_demo.Prelude.{
  ltb_ℤ, Bool, true, false, not, ◌&&◌, String, ◌==◌, concat, join, List, [], ◌∷◌, ◌++◌, Option,
  none, some, if◌then◌else◌,
}
use capability_demo.Json.{
  Json, Items, Fields, null, bool, int, frac, str, arr, obj, nil, cons, end, field, get, is_object,
}
use capability_demo.Runtime.{Node, to_text}
use capability_demo.Git.Retention.{is_truthy, is_bool}
use capability_demo.Grant.V2.Canonical.{utf16, units_lt}

pub record Difference : Type 0 where
  pub path : String
  pub expected : Json
  pub actual : Option Json

-- `path ? `${path}.${k}` : k`
abbrev pub extend : String → String → String
extend path k = if path == "" then k else concat path (concat "." k)

-- The differences under each key of an object.
abbrev pub Keyed : Type 0
Keyed = String × List Difference

unfoldable pub insert_keyed : Keyed → List Keyed → List Keyed
insert_keyed e [] = e ∷ []
insert_keyed e (f ∷ fs) =
    let rest = insert_keyed e fs in
    if units_lt (utf16 e.0) (utf16 f.0) then e ∷ f ∷ fs else f ∷ rest

-- `[...keys].sort()`
unfoldable pub sort_keyed : List Keyed → List Keyed
unfolding insert_keyed units_lt utf16
sort_keyed [] = []
sort_keyed (e ∷ es) = insert_keyed e (sort_keyed es)

unfoldable pub all_differences : List Keyed → List Difference
all_differences [] = []
all_differences (e ∷ es) = e.1 ++ all_differences es

-- The object that is found, unless it says that it is missing.
abbrev pub found_object : Option Json → Option Json
found_object none = none
found_object (some v) = if is_object v && not (is_bool (get "missing" v) true) then some v else none

-- `actual && actual.missing ? 'missing' : actual`
abbrev pub or_missing : Option Json → Option Json
or_missing none = none
or_missing (some v) = if is_truthy (get "missing" v) then some (str "missing") else some v

module _ (node : Node) where
  -- An element of an array, as `join` prints it.
  abbrev pub element_text : Json → String
  element_text null = ""
  element_text v = to_text node v

  unfoldable pub element_texts : Items → List String
  element_texts nil = []
  element_texts (cons v vs) = element_text v ∷ element_texts vs

  -- `Array.isArray(v) ? v.join(',') : v`
  unfoldable pub joined : Json → Json
  unfolding element_texts
  joined (arr items) = str (join "," (element_texts items))
  joined v = v

  -- `===` for values of which the first is no object
  abbrev pub same_json : Json → Json → Bool
  same_json null null = true
  same_json (bool true) (bool b) = b
  same_json (bool false) (bool b) = not b
  same_json (int n) (int m) = not (ltb_ℤ n m) && not (ltb_ℤ m n)
  same_json (frac s) (frac t) = s == t
  same_json (str s) (str t) = s == t
  same_json _ _ = false

  unfoldable pub same_leaf : Json → Option Json → Bool
  unfolding joined
  same_leaf expected none = false
  same_leaf expected (some actual) = same_json (joined expected) (joined actual)

  unfoldable pub leaf_diff : Json → Option Json → String → List Difference
  unfolding same_leaf
  leaf_diff expected actual path =
      if same_leaf expected actual
      then []
      else record { path = path; expected = expected; actual = actual } ∷ []

  -- An object that is not found, or the differences of its fields.
  unfoldable pub object_diff :
      Json → Option Json → String → Option Json → (Json → List Keyed) → List Difference
  unfolding sort_keyed all_differences
  object_diff expected actual path none fields =
      record { path = path; expected = expected; actual = or_missing actual } ∷ []
  object_diff expected actual path (some v) fields = all_differences (sort_keyed (fields v))

  unfoldable mutual
    -- Keys that only the facts have are passed over.
    pub walk_diff : Json → Option Json → String → List Difference
    walk_diff (obj fs) actual path =
        object_diff (obj fs) actual path (found_object actual) (λ v. walk_fields fs v path)
    walk_diff expected actual path = leaf_diff expected actual path

    pub walk_fields : Fields → Json → String → List Keyed
    walk_fields end v path = []
    walk_fields (field k e fs) v path =
        (k, walk_diff e (get k v) (extend path k)) ∷ walk_fields fs v path

  -- Facts that could not be read are one difference.
  unfoldable pub diff_facts : Json → Json → List Difference
  unfolding walk_diff
  diff_facts live baseline =
      if is_truthy (get "unreadable" live)
      then record {
        path = "catalog";
        expected = str "readable";
        actual = if is_truthy (get "error" live) then get "error" live else some (str "unreadable");
      }
        ∷ []
      else walk_diff baseline (some live) ""
