-- ===== src/Reconcile/Laws/Keys.antt =====
-- The key that a manifest has for a kid, and when it is in force (resolveKeyManifest of
-- demo/src/posture.js, keyInForce of demo/src/reconcile.js).
use capability_demo.Prelude.{
  ◌≡◌, ◌≢◌, ◌⊎◌, refl, sym, ap, ◌∙◌, Bool, true, false, not, String, ◌==◌, eq_iff, List, [], ◌∷◌,
  ◌++◌, All, Option, none, some, some-inj, Bool-cases, Option-cases, inl, inr, if◌then◌else◌,
}
use capability_demo.Runtime.{Node}
use capability_demo.Grant.Profile.{is_nullish}
use capability_demo.Reconcile.Keyring.{
  KeyEntry, Manifest, KeyWindow, inside, non_finite_key_window, outside_key_window, in_force,
  unknown_status, force_of, is_the, first_match, resolve_key_manifest, check_key_window,
  key_in_force,
}

-- The entry is the first of the manifest with the kid, which is not empty.
pub record IsEntryFor (manifest : Manifest) (kid : String) (entry : KeyEntry) : Type 0 where
  pub full : kid ≢ ""
  pub before : List KeyEntry
  pub after : List KeyEntry
  pub listed : manifest.keys ≡ some (before ++ entry ∷ after)
  pub names : entry.kid ≡ some kid
  pub first : All (λ (k : KeyEntry). k.kid ≢ some kid) before

is_the_sound : (o : Option String) (s : String) → is_the o s ≡ true → o ≡ some s
is_the_sound none s h = cc
is_the_sound (some t) s h = ap some ((eq_iff t s).0 h)

is_the_other : (o : Option String) (s : String) → is_the o s ≡ false → o ≢ some s
is_the_other none s h e = cc
is_the_other (some t) s h e = let same : (t == s) ≡ true = (eq_iff t s).1 (some-inj e) in cc

first_match_sound :
    (keys : List KeyEntry) (kid : String) (entry : KeyEntry)
    → first_match keys kid ≡ some entry
    → (before : List KeyEntry) × (after : List KeyEntry) × (keys ≡ before ++ entry ∷ after)
      × (entry.kid ≡ some kid)
      × All (λ (k : KeyEntry). k.kid ≢ some kid) before
unfolding first_match
first_match_sound [] kid entry h = cc
first_match_sound (k ∷ ks) kid entry h = elim (Bool-cases (is_the k.kid kid)) [
  | inl e ↦
      let same : k ≡ entry = some-inj (rw e at h) in
      (
        [],
        ks,
        ap (λ x. x ∷ ks) same,
        ap (λ (x : KeyEntry). x.kid) (sym same) ∙ is_the_sound k.kid kid e,
        tt,
      )
  | inr e ↦
      let (before, after, split, names, first) = first_match_sound ks kid entry (rw e at h) in
      (k ∷ before, after, ap (λ xs. k ∷ xs) split, names, (is_the_other k.kid kid e, first))
]

pub resolve_key_manifest_sound :
    (manifest : Manifest) (kid : String) (entry : KeyEntry)
    → resolve_key_manifest manifest kid ≡ some entry
    → IsEntryFor manifest kid entry
unfolding resolve_key_manifest
resolve_key_manifest_sound manifest kid entry h = elim (Option-cases manifest.keys) [
  | inl e ↦ absurd (nothing (rw (e, resolve_key_manifest) at h))
  | inr (keys, e) ↦
      let h₁ : (if kid == "" then none else first_match keys kid) ≡ some entry =
        rw (e, resolve_key_manifest) at h in
      elim (Bool-cases (kid == "")) [
        | inl f ↦ absurd (nothing (rw f at h₁))
        | inr f ↦
            let (before, after, split, names, first) =
              first_match_sound keys kid entry (rw f at h₁) in
            record {
              full = λ g. let same : (kid == "") ≡ true = (eq_iff kid "").1 g in cc;
              before = before;
              after = after;
              listed = e ∙ ap some split;
              names = names;
              first = first;
            }
      ]
]
  where
    nothing : none ≡ some entry → ⊥
    nothing h = cc

module _ (node : Node) where
  -- An active key is in force at any time, a retired one inside its window, up to its retirement
  -- where it has no end; no other status will do.
  abbrev pub IsInForce : KeyEntry → String → Type 0
  IsInForce entry as_of =
      (entry.status ≡ some "active")
      ⊎ ((entry.status ≡ some "retired")
          × (check_key_window node as_of entry.valid_from
                (if is_nullish entry.valid_until then entry.retired_at else entry.valid_until) none
              ≡ inside))

  force_of_sound : (w : KeyWindow) → force_of w ≡ in_force → w ≡ inside
  force_of_sound inside h = refl
  force_of_sound non_finite_key_window h = cc
  force_of_sound outside_key_window h = cc

  retired_sound :
      (b : Bool) (w : KeyWindow)
      → (if not b then unknown_status else force_of w) ≡ in_force
      → (b ≡ true) × (w ≡ inside)
  retired_sound true w h = (refl, force_of_sound w h)
  retired_sound false w h = cc

  pub key_in_force_sound :
      (entry : KeyEntry) (as_of : String)
      → key_in_force node entry as_of ≡ in_force
      → IsInForce entry as_of
  unfolding key_in_force
  key_in_force_sound entry as_of h = elim (Bool-cases (is_the entry.status "active")) [
    | inl e ↦ inl (is_the_sound entry.status "active" e)
    | inr e ↦
        let (retired, within) = retired_sound (is_the entry.status "retired") _ (rw e at h) in
        inr (is_the_sound entry.status "retired" retired, within)
  ]
