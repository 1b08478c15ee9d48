-- ===== src/Git/Laws/Pushes.antt =====
-- An accepted push leaves every ledger entry as it is (demo/src/ledger-hook.js).
use text.Mathlib.Text.{starts_with}
use capability_demo.Prelude.{
  ◌≡◌, refl, sym, ap, ◌∙◌, Bool, true, false, not, String, ◌==◌, eq_iff, concat, any, List, [], ◌∷◌,
  Option, none, some, Bool-cases, inl, inr, if◌then◌else◌, or-eq-false_iff,
}
use capability_demo.Git.Repo.{must_not_exist, value_after}
use capability_demo.Git.Execute.{ledger_prefix}
use capability_demo.Git.Hook.{PushedRef, is_refused, pre_receive}

-- What a push does to the values of the refs, one ref after the other.
abbrev pub pushed : List PushedRef → (String → Option String) → String → Option String
pushed [] refs = refs
pushed (u ∷ us) refs = pushed us (λ x. if x == u.ref then value_after u.new_sha else refs x)

-- git announces forty zeros as the old value only of a ref that does not exist.
abbrev pub IsHonest : List PushedRef → (String → Option String) → Type 0
IsHonest [] refs = Unit
IsHonest (u ∷ us) refs =
    (u.old ≡ must_not_exist → refs u.ref ≡ none)
    × IsHonest us (λ x. if x == u.ref then value_after u.new_sha else refs x)

not-true : (b : Bool) → not b ≡ true → b ≡ false
not-true true h = cc
not-true false h = refl

not-false : (b : Bool) → not b ≡ false → b ≡ true
not-false true h = refl
not-false false h = cc

creates_only :
    (u : PushedRef)
    → starts_with u.ref (concat ledger_prefix "/") ≡ true
    → is_refused u ≡ false
    → u.old ≡ must_not_exist
unfolding is_refused
creates_only u l h =
    let (a, b) = (or-eq-false_iff (u.new_sha == must_not_exist) _).0 (rw l at h) in
    (eq_iff u.old must_not_exist).0 (not-false _ b)

one_kept :
    (u : PushedRef) (refs : String → Option String) (x v : String)
    → starts_with x (concat ledger_prefix "/") ≡ true
    → is_refused u ≡ false
    → (u.old ≡ must_not_exist → refs u.ref ≡ none)
    → refs x ≡ some v
    → (if x == u.ref then value_after u.new_sha else refs x) ≡ some v
one_kept u refs x v l h honest there = elim (Bool-cases (x == u.ref)) [
  | inl same ↦
      let e : x ≡ u.ref = (eq_iff x u.ref).0 same in
      absurd (
        clash (
          sym there
          ∙ ap refs e
          ∙ honest
              (creates_only u (sym (ap (λ r. starts_with r (concat ledger_prefix "/")) e) ∙ l) h)))
  | inr other ↦ rw other there
]
  where
    clash : some v ≡ none → ⊥
    clash q = cc

all_kept :
    (us : List PushedRef) (refs : String → Option String) (x v : String)
    → starts_with x (concat ledger_prefix "/") ≡ true
    → any is_refused us ≡ false
    → IsHonest us refs
    → refs x ≡ some v
    → pushed us refs x ≡ some v
all_kept [] refs x v l h k there = there
all_kept (u ∷ us) refs x v l h (honest, k) there =
    let (a, b) = (or-eq-false_iff (is_refused u) (any is_refused us)).0 h in
    all_kept us (λ y. if y == u.ref then value_after u.new_sha else refs y) x v l b k
      (one_kept u refs x v l a honest there)

-- A push that the hook accepts neither deletes nor changes an entry under the ledger prefix, whatever
-- else it does, as long as git announces forty zeros only for refs that do not exist.
pub pre_receive-keeps_ledger :
    (us : List PushedRef) (refs : String → Option String) (x v : String)
    → starts_with x (concat ledger_prefix "/") ≡ true
    → pre_receive us ≡ true
    → IsHonest us refs
    → refs x ≡ some v
    → pushed us refs x ≡ some v
unfolding pre_receive
pre_receive-keeps_ledger us refs x v l h k there =
    all_kept us refs x v l (not-true (any is_refused us) h) k there
