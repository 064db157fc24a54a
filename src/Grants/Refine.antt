-- ===== src/Grants/Refine.antt =====
-- The map against the list of all grants ever made: pruning never changes an answer.
use sentinel_cosmic.Common.{
  Option, List, true, ◌≤◌, ◌≡◌, some, Bool, false, inl, arith, ltb, refl, ◌⊎◌, ◌∷◌, ℕ, none, inr,
  if◌then◌else◌, Bool-cases, [], ◌-◌, Any, ◌<◌, ◌↔◌,
}
use sentinel_cosmic.Grants.{
  max_remember, get, elapsed, grant, Grants, prune, fresh, is_some_and, capped,
}
use sentinel_cosmic.Grants.Map.{kept, prune-Unique, insert-Unique, get-insert, Unique, get-prune}
use sentinel_cosmic.Text.{text_eq, Text}
use sentinel_cosmic.Text.Equality.{text_eq_iff}

-- The grants made so far, newest first.
abbrev pub Log : Type 0
Log = List (ℕ × Text)

unfoldable pub replay : Log → Grants
replay [] = []
replay ((t, k) ∷ log) = grant t (replay log) k

-- The clock does not run backwards.
abbrev pub Clock : ℕ → Log → Type 0
Clock now [] = Unit {0}
Clock now ((t, k) ∷ log) = (t ≤ now) × Clock t log

pub later-Clock : (now later : ℕ) (log : Log) → now ≤ later → Clock now log → Clock later log
later-Clock now later [] h c = tt
later-Clock now later ((t, k) ∷ log) h (le, c) = (omega arith, c)

replay-Unique : (log : Log) → Unique (replay log)
unfolding replay grant
replay-Unique [] = tt
replay-Unique ((t, k) ∷ log) =
    insert-Unique (prune t (replay log)) k t (prune-Unique t (replay log) (replay-Unique log))

-- The instant of the newest grant for a key.
abbrev newest : Log → Text → Option ℕ
newest [] k = none
newest ((t, j) ∷ log) k = if text_eq j k then some t else newest log k

-- An entry is missing only if the newest grant is past the cap.
abbrev Agrees : ℕ → Option ℕ → Option ℕ → Type 0
Agrees now got none = got ≡ none
Agrees now got (some t) = (got ≡ some t) ⊎ ((got ≡ none) × (max_remember ≤ now - t))

kept-Agrees :
    (now later : ℕ) (got new : Option ℕ)
    → now ≤ later
    → Agrees now got new
    → Agrees later (kept later got) new
kept-Agrees now later got none h a = rw a
kept-Agrees now later got (some t) h (inl e) = rw e (ground arith)
kept-Agrees now later got (some t) h (inr (e, old)) = rw e (inr (refl, omega arith))

later-Agrees :
    (now later : ℕ) (got new : Option ℕ) → now ≤ later → Agrees now got new → Agrees later got new
later-Agrees now later got none h a = a
later-Agrees now later got (some t) h (inl e) = inl e
later-Agrees now later got (some t) h (inr (e, old)) = inr (e, omega arith)

if-Agrees :
    (now : ℕ) (b : Bool) (t : ℕ) (got new : Option ℕ)
    → Agrees now got new
    → Agrees now (if b then some t else got) (if b then some t else new)
if-Agrees now true t got new a = inl refl
if-Agrees now false t got new a = a

replay-Agrees :
    (now : ℕ) (log : Log) (k : Text)
    → Clock now log
    → Agrees now (get (replay log) k) (newest log k)
unfolding replay grant
replay-Agrees now [] k c = unfold get in refl
replay-Agrees now ((t, j) ∷ log) k (le, c) =
    rw (get-insert (prune t (replay log)) j t k, get-prune t (replay log) k (replay-Unique log))
      (if-Agrees now (text_eq j k) t (kept t (get (replay log) k)) (newest log k) (
        later-Agrees t now (kept t (get (replay log) k)) (newest log k) le (
          kept-Agrees t t (get (replay log) k) (newest log k) (omega arith)
            (replay-Agrees t log k c))))

-- Some grant for the key is younger than the window.
abbrev pub Granted : ℕ → ℕ → Text → Log → Type 0
Granted now window k = Any (λ g. (g.1 ≡ k) × (now - g.0 < window))

-- No grant is younger than the newest of all.
Granted-le :
    (now window b : ℕ) (k : Text) (log : Log)
    → Clock b log
    → Granted now window k log
    → now - b < window
Granted-le now window b k [] c g = absurd g
Granted-le now window b k ((t, j) ∷ log) (le, c) (inl (e, h)) = omega arith
Granted-le now window b k ((t, j) ∷ log) (le, c) (inr g) =
    omega (arith, Granted-le now window t k log c g)

-- The newest grant for the key decides.
Granted-newest :
    (now window b : ℕ) (k : Text) (log : Log)
    → Clock b log
    → Granted now window k log
    → (t : ℕ) × (newest log k ≡ some t) × (now - t < window)
Granted-newest now window b k [] c g = absurd g
Granted-newest now window b k ((t, j) ∷ log) (le, c) (inl (e, h)) =
    (t, rw ((text_eq_iff j k).1 e), h)
Granted-newest now window b k ((t, j) ∷ log) (le, c) (inr g) = elim (Bool-cases (text_eq j k)) [
  | inl e ↦ (t, rw e, Granted-le now window t k log c g)
  | inr m ↦ rw m (Granted-newest now window t k log c g)
]

newest-Granted :
    (now window : ℕ) (k : Text) (log : Log) (t : ℕ)
    → newest log k ≡ some t
    → now - t < window
    → Granted now window k log
newest-Granted now window k [] t e h = cc
newest-Granted now window k ((u, j) ∷ log) t e h = elim (Bool-cases (text_eq j k)) [
  | inl same ↦ inl ((text_eq_iff j k).0 same, ground (arith, e, h, same))
  | inr m ↦ inr (newest-Granted now window k log t (rw m at e) h)
]

is_some_and_sound :
    (o : Option ℕ) (p : ℕ → Bool) → is_some_and o p ≡ true → (t : ℕ) × (o ≡ some t) × (p t ≡ true)
is_some_and_sound none p h = cc
is_some_and_sound (some t) p h = (t, refl, h)

fresh_sound :
    (now : ℕ) (log : Log) (k : Text) (ttl : ℕ)
    → Clock now log
    → fresh now (replay log) k ttl ≡ true
    → Granted now (capped ttl) k log
unfolding fresh
fresh_sound now log k ttl c h =
    let (t, e, young) =
      is_some_and_sound (get (replay log) k) (λ u. ltb (elapsed now u) (capped ttl))
        (ground (arith, h)) in
    by_newest t e young (newest log k) refl (replay-Agrees now log k c)
  where
    by_newest :
        (t : ℕ)
        → get (replay log) k ≡ some t
        → ltb (elapsed now t) (capped ttl) ≡ true
        → (o : Option ℕ) → newest log k ≡ o
        → Agrees now (get (replay log) k) o
        → Granted now (capped ttl) k log
    by_newest t e young none n a = absurd (cc)
    by_newest t e young (some u) n (inl same) =
        newest-Granted now (capped ttl) k log u n (ground (arith, e, same, young))
    by_newest t e young (some u) n (inr (missing, old)) = absurd (cc)

fresh_complete :
    (now : ℕ) (log : Log) (k : Text) (ttl : ℕ)
    → Clock now log
    → Granted now (capped ttl) k log
    → fresh now (replay log) k ttl ≡ true
unfolding fresh
fresh_complete now log k ttl c g =
    let (t, e, young) = Granted-newest now (capped ttl) now k log c g in
    by_got t young (rw e at (replay-Agrees now log k c))
  where
    by_got :
        (t : ℕ)
        → now - t < capped ttl
        → Agrees now (get (replay log) k) (some t)
        → fresh now (replay log) k ttl ≡ true
    by_got t young (inl same) = rw (same, fresh) (ground arith)
    by_got t young (inr (missing, old)) = absurd (omega arith)

-- After any sequence of grants, at a clock that does not run backwards, a key is found fresh exactly
-- when some grant was made for it within the requested window or 900 seconds, whichever is less.
pub fresh-replay_iff :
    (now : ℕ) (log : Log) (k : Text) (ttl : ℕ)
    → Clock now log
    → (fresh now (replay log) k ttl ≡ true) ↔ Granted now (capped ttl) k log
fresh-replay_iff now log k ttl c = (fresh_sound now log k ttl c, fresh_complete now log k ttl c)
