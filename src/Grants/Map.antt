-- ===== src/Grants/Map.antt =====
-- The map behind the grants: what looking up, inserting and pruning do to one another.
-- Each key stands once.
use sentinel_cosmic.Common.{
  none, ℕ, inl, if◌then◌else◌, Option, [], arith, ◌≡◌, inr, refl, Bool-cases, ◌∷◌, some, ltb,
}
use sentinel_cosmic.Grants.{elapsed, insert, Grants, get, max_remember, prune}
use sentinel_cosmic.Text.{Text, text_eq}
use sentinel_cosmic.Text.Equality.{text_eq_iff, text_eq_sym}

abbrev pub Unique : Grants → Type 0
Unique [] = Unit {0}
Unique ((k, t) ∷ s) = (get s k ≡ none) × Unique s

pub get-insert :
    (s : Grants) (k : Text) (t : ℕ) (j : Text)
    → get (insert s k t) j ≡ (if text_eq k j then some t else get s j)
unfolding get insert
get-insert [] k t j = refl
get-insert ((i, u) ∷ s) k t j =
    ground (arith, text_eq_iff i k, text_eq_iff i j, text_eq_iff k j, get-insert s k t j)

pub insert-Unique : (s : Grants) (k : Text) (t : ℕ) → Unique s → Unique (insert s k t)
unfolding insert
insert-Unique [] k t u = (unfold get in refl, tt)
insert-Unique ((i, v) ∷ s) k t (n, u) = elim (Bool-cases (text_eq i k)) [
  | inl e ↦ rw e (rw (← (text_eq_iff i k).0 e) n, u)
  | inr m ↦ rw m (rw (get-insert s k t i, text_eq_sym k i, m) n, insert-Unique s k t u)
]

-- What is left of an entry.
abbrev pub kept : ℕ → Option ℕ → Option ℕ
kept now none = none
kept now (some t) = if ltb (elapsed now t) max_remember then some t else none

get-prune-none : (now : ℕ) (s : Grants) (k : Text) → get s k ≡ none → get (prune now s) k ≡ none
unfolding get prune
get-prune-none now [] k e = refl
get-prune-none now ((j, t) ∷ s) k e = ground (arith, get-prune-none now s k)

pub get-prune :
    (now : ℕ) (s : Grants) (k : Text) → Unique s → get (prune now s) k ≡ kept now (get s k)
unfolding get prune
get-prune now [] k u = refl
get-prune now ((j, t) ∷ s) k (n, u) = elim (Bool-cases (text_eq j k)) [
  | inl e ↦
      let gone : get (prune now s) k ≡ none =
        get-prune-none now s k (rw ((text_eq_iff j k).0 e) at n) in
      ground (arith, e, gone)
  | inr m ↦ ground (arith, m, get-prune now s k u)
]

pub prune-Unique : (now : ℕ) (s : Grants) → Unique s → Unique (prune now s)
unfolding prune
prune-Unique now [] u = tt
prune-Unique now ((j, t) ∷ s) (n, u) = elim (Bool-cases (ltb (elapsed now t) max_remember)) [
  | inl e ↦ rw e (get-prune-none now s j n, prune-Unique now s u)
  | inr m ↦ rw m (prune-Unique now s u)
]
