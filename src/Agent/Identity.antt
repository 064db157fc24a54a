-- ===== src/Agent/Identity.antt =====
-- crates/sentinel-polkit-agent/src/identity.rs: which identity to authenticate as.
-- An identity: its kind, and its details. A detail is a number, or a value that is no u32.
use sentinel_cosmic.Common.{
  Option-cases, inr, Bool-cases, some, ==_iff, ==_refl, ◌==◌, Any, ◌∙◌, arith, inl, if◌then◌else◌,
  ap, Option, sym, ◌>>=◌, ◌∷◌, none, ◌≡◌, List, [], ℕ, ◌↔◌,
}
use sentinel_cosmic.Text.{text_eq, codes, Text}

pub record Identity : Type 0 where
  pub kind : Text
  pub details : List (Text × Option ℕ)

unfoldable pub get_detail : List (Text × Option ℕ) → Text → Option (Option ℕ)
unfolding text_eq
get_detail [] k = none
get_detail ((j, v) ∷ ds) k = if text_eq j k then some v else get_detail ds k

-- The uid of an identity: none if it is no `unix-user`, has no uid, or one that is no u32.
unfoldable pub uid_of : Identity → Option ℕ
unfolding get_detail
uid_of i =
    if text_eq i.kind (codes "unix-user")
    then get_detail i.details (codes "uid") >>= (λ v. v)
    else none

-- `pick`.
unfoldable pub pick : List Identity → ℕ → Option ℕ
unfolding uid_of
pick [] own_uid = none
pick (i ∷ is) own_uid = elim (uid_of i) [
  | none ↦ pick is own_uid
  | some uid ↦ (let rest = pick is own_uid in if uid == own_uid then some uid else rest)
]

pick_sound :
    (is : List Identity) (own uid : ℕ)
    → pick is own ≡ some uid
    → (uid ≡ own) × Any (λ i. uid_of i ≡ some own) is
unfolding pick
pick_sound [] own uid h = absurd (cc)
pick_sound (i ∷ is) own uid h = elim (Option-cases (uid_of i)) [
  | inl e ↦ let (same, among) = pick_sound is own uid (rw (e, pick) at h) in (same, inr among)
  | inr (u, e) ↦ elim (Bool-cases (u == own)) [
    | inl t ↦
        let eq : u ≡ own = (==_iff u own).0 t in (ground (arith, e, h, t), inl (e ∙ ap some eq))
    | inr f ↦
        let (same, among) = pick_sound is own uid (ground (arith, e, h, f)) in (same, inr among)
  ]
]

pick_complete :
    (is : List Identity) (own : ℕ) → Any (λ i. uid_of i ≡ some own) is → pick is own ≡ some own
unfolding pick
pick_complete [] own m = absurd m
pick_complete (i ∷ is) own (inl e) = rw (e, pick) (rw (==_refl own))
pick_complete (i ∷ is) own (inr m) = elim (Option-cases (uid_of i)) [
  | inl e ↦ rw (e, pick) (pick_complete is own m)
  | inr (u, e) ↦ elim (Bool-cases (u == own)) [
    | inl t ↦ rw (e, pick) (rw t (ap some ((==_iff u own).0 t)))
    | inr f ↦ rw (e, pick) (rw f (pick_complete is own m))
  ]
]

-- Whoever is picked is the agent's own user, and that user is picked exactly when polkit offers it as
-- a unix-user: no click stands in for the credential of somebody else.
pub pick_iff :
    (is : List Identity) (own uid : ℕ)
    → (pick is own ≡ some uid) ↔ ((uid ≡ own) × Any (λ i. uid_of i ≡ some own) is)
pick_iff is own uid = (pick_sound is own uid, λ h. pick_complete is own h.1 ∙ ap some (sym h.0))
