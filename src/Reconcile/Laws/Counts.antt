-- ===== src/Reconcile/Laws/Counts.antt =====
-- The counts and the headline of a report (demo/src/reconcile.js).
use Prim.Native.Nat.{ℕ, ◌+◌, suc}
use mathlib.Core.Path.{ap₂}
use capability_demo.Prelude.{
  ◌≡◌, ◌⊎◌, refl, ap, ◌∙◌, Bool, true, false, not, ◌&&◌, arith, leb, eqb, length, select, List, [],
  ◌∷◌, Option, none, some, Bool-cases, inl, inr, if◌then◌else◌,
}
use capability_demo.Reconcile.Report.{
  Entry, Outcome, confirmed, rejected, released, indeterminate, same_outcome, is_confirmed, is_ok,
  enforced, enforce_no_unproven_confirmed, count_outcomes, first_present, severity, roll_up,
}

-- How bad an outcome is.
abbrev pub rank : Outcome → ℕ
rank indeterminate = 3
rank released = 2
rank rejected = 1
rank confirmed = 0

abbrev pub worse : Outcome → Option Outcome → Option Outcome
worse a none = some a
worse a (some o) = some (if leb (rank o) (rank a) then a else o)

-- The worst outcome of a list, by rank.
abbrev pub worst : List Entry → Option Outcome
worst [] = none
worst (g ∷ gs) = worse g.outcome (worst gs)

abbrev bump : Outcome → (Outcome → ℕ) → Outcome → ℕ
bump a counts o = if same_outcome a o then counts o + 1 else counts o

first_present-bump :
    (a : Outcome) (counts : Outcome → ℕ)
    → first_present (bump a counts) severity ≡ worse a (first_present counts severity)
unfolding first_present
first_present-bump indeterminate counts = ground arith
first_present-bump released counts = ground arith
first_present-bump rejected counts = ground arith
first_present-bump confirmed counts = ground arith

first_present-worst : (gs : List Entry) → first_present (count_outcomes gs) severity ≡ worst gs
unfolding first_present count_outcomes
first_present-worst [] = refl
first_present-worst (g ∷ gs) =
    first_present-bump g.outcome (count_outcomes gs) ∙ ap (worse g.outcome) (first_present-worst gs)

abbrev pub total : (Outcome → ℕ) → ℕ
total counts = counts indeterminate + counts released + counts rejected + counts confirmed

total-bump : (a : Outcome) (counts : Outcome → ℕ) → total (bump a counts) ≡ suc (total counts)
total-bump indeterminate counts = omega arith
total-bump released counts = omega arith
total-bump rejected counts = omega arith
total-bump confirmed counts = omega arith

total-count_outcomes : (gs : List Entry) → total (count_outcomes gs) ≡ length gs
unfolding count_outcomes
total-count_outcomes [] = refl
total-count_outcomes (g ∷ gs) =
    total-bump g.outcome (count_outcomes gs) ∙ ap suc (total-count_outcomes gs)

attention_step :
    (b : Bool) (g : Entry) (xs : List Entry) (c l : ℕ)
    → length xs + c ≡ l
    → length (elim (not b) [ true ↦ g ∷ xs | false ↦ xs ]) + (if b then c + 1 else c) ≡ suc l
attention_step true g xs c l h = omega arith
attention_step false g xs c l h = omega arith

attention :
    (gs : List Entry)
    → length (select (λ g. not (is_confirmed g)) gs) + count_outcomes gs confirmed ≡ length gs
unfolding count_outcomes
attention [] = refl
attention (g ∷ gs) = attention_step (same_outcome g.outcome confirmed) g _ _ _ (attention gs)

-- Whether a grant has an outcome, by rank.
abbrev pub has_outcome : Outcome → Entry → Bool
has_outcome o g = eqb (rank g.outcome) (rank o)

same_rank : (a b : Outcome) → same_outcome a b ≡ eqb (rank a) (rank b)
same_rank confirmed confirmed = refl
same_rank confirmed rejected = refl
same_rank confirmed released = refl
same_rank confirmed indeterminate = refl
same_rank rejected confirmed = refl
same_rank rejected rejected = refl
same_rank rejected released = refl
same_rank rejected indeterminate = refl
same_rank released confirmed = refl
same_rank released rejected = refl
same_rank released released = refl
same_rank released indeterminate = refl
same_rank indeterminate confirmed = refl
same_rank indeterminate rejected = refl
same_rank indeterminate released = refl
same_rank indeterminate indeterminate = refl

each_step :
    (b t : Bool) (g : Entry) (xs : List Entry) (c : ℕ)
    → b ≡ t
    → c ≡ length xs
    → (if b then c + 1 else c) ≡ length (elim t [ true ↦ g ∷ xs | false ↦ xs ])
each_step true true g xs c e h = omega arith
each_step false false g xs c e h = h
each_step true false g xs c e h = cc
each_step false true g xs c e h = cc

each_outcome :
    (o : Outcome) (gs : List Entry) → count_outcomes gs o ≡ length (select (has_outcome o) gs)
unfolding count_outcomes
each_outcome o [] = refl
each_outcome o (g ∷ gs) =
    each_step (same_outcome g.outcome o) (has_outcome o g) g _ _ (same_rank g.outcome o)
      (each_outcome o gs)

-- The report adds up: the count of each outcome is the number of grants that have it, and the
-- counts sum up to all grants; the grants that need attention are those that are not confirmed; and
-- the headline is the worst outcome of a grant, in the order indeterminate, released, rejected,
-- confirmed, where there is a grant at all.
pub roll_up-adds_up :
    (gs : List Entry)
    → ((roll_up gs).outcome ≡ worst gs)
      × (total (roll_up gs).counts ≡ length gs)
      × ((o : Outcome) → (roll_up gs).counts o ≡ length (select (has_outcome o) gs))
      × ((roll_up gs).needs_attention + (roll_up gs).counts confirmed ≡ length gs)
unfolding roll_up
roll_up-adds_up gs =
    (first_present-worst gs, total-count_outcomes gs, λ o. each_outcome o gs, attention gs)

unconfirmed : (has : Entry → Bool) (e : Entry) → is_confirmed e ≡ false → enforced has e ≡ e
unfolding enforced
unconfirmed has e h = rw h refl

enforced_cases :
    (has : Entry → Bool) (e : Entry)
    → (enforced has e ≡ e) ⊎ (is_confirmed (enforced has e) ≡ false)
unfolding enforced
enforced_cases has e = elim (Bool-cases (is_confirmed e)) [
  | inr h ↦ inl (rw h refl)
  | inl h ↦ elim (Bool-cases (is_ok e.attest_status && has e)) [
    | inl k ↦ inl (rw (h, k) refl)
    | inr k ↦ inr (rw (h, k) refl)
  ]
]

settled :
    (has : Entry → Bool) (e : Entry)
    → (enforced has e ≡ e) ⊎ (is_confirmed (enforced has e) ≡ false)
    → enforced has (enforced has e) ≡ enforced has e
settled has e (inl h) = ap (enforced has) h
settled has e (inr h) = unconfirmed has (enforced has e) h

-- Checking a report again changes nothing.
pub enforce-idempotent :
    (has : Entry → Bool) (es : List Entry)
    → enforce_no_unproven_confirmed has (enforce_no_unproven_confirmed has es)
      ≡ enforce_no_unproven_confirmed has es
unfolding enforce_no_unproven_confirmed
enforce-idempotent has [] = refl
enforce-idempotent has (e ∷ es) =
    ap₂ ◌∷◌ (settled has e (enforced_cases has e)) (enforce-idempotent has es)
