-- ===== src/Policy/Decide.antt =====
-- What an entry of a policy list matches, and which list decides.
-- An entry names the action, or it is the whole path, or, without a slash, the path's basename.
use sentinel_cosmic.Basename.{process_basename}
use sentinel_cosmic.Common.{
  false, ◌∷◌, ◌≡◌, inl, some, Any, none, ◌⊎◌, Option, [], refl, inr, ◌↔◌, List, any, Bool-cases,
  arith, true,
}
use sentinel_cosmic.Policy.{
  list_matches, decide, ask, Policy, entry_matches, is_some_eq, deny, allow,
}
use sentinel_cosmic.Text.{Text, contains}
use sentinel_cosmic.Text.Equality.{text_eq_iff}

abbrev pub Matches : Option Text → Option Text → Text → Type 0
Matches exe action entry =
    (action ≡ some entry)
    ⊎ ((path : Text) × (exe ≡ some path)
        × (((contains entry b'/' ≡ true) × (entry ≡ path))
            ⊎ ((contains entry b'/' ≡ false) × (process_basename path ≡ some entry))))

pub is_some_eq_iff : (o : Option Text) (t : Text) → (is_some_eq o t ≡ true) ↔ (o ≡ some t)
is_some_eq_iff none t = (λ h. cc, λ h. cc)
is_some_eq_iff (some s) t = ground (arith, text_eq_iff s t)

entry_matches_sound :
    (exe action : Option Text) (entry : Text)
    → entry_matches exe action entry ≡ true
    → Matches exe action entry
unfolding entry_matches
entry_matches_sound none action entry h = inl (ground (arith, is_some_eq_iff action entry))
entry_matches_sound (some path) action entry h = elim (Bool-cases (is_some_eq action entry)) [
  | inl e ↦ inl ((is_some_eq_iff action entry).0 e)
  | inr n ↦ elim (Bool-cases (contains entry b'/')) [
    | inl e ↦ inr (path, refl, inl (e, ground (arith, text_eq_iff entry path)))
    | inr m ↦
        inr (path, refl, inr (m, ground (arith, is_some_eq_iff (process_basename path) entry)))
  ]
]

entry_matches_complete :
    (exe action : Option Text) (entry : Text)
    → Matches exe action entry
    → entry_matches exe action entry ≡ true
unfolding entry_matches
entry_matches_complete exe action entry (inl e) = ground (arith, is_some_eq_iff action entry)
entry_matches_complete exe action entry (inr (path, e, inl (c, same))) =
    rw e (ground (arith, text_eq_iff entry path))
entry_matches_complete exe action entry (inr (path, e, inr (c, base))) =
    rw e (ground (arith, is_some_eq_iff (process_basename path) entry))

pub entry_matches_iff :
    (exe action : Option Text) (entry : Text)
    → (entry_matches exe action entry ≡ true) ↔ Matches exe action entry
entry_matches_iff exe action entry =
    (entry_matches_sound exe action entry, entry_matches_complete exe action entry)

list_matches_iff :
    (list : List Text) (exe action : Option Text)
    → (list_matches list exe action ≡ true) ↔ Any (Matches exe action) list
unfolding list_matches
list_matches_iff [] exe action = (λ h. cc, λ h. absurd h)
list_matches_iff (t ∷ list) exe action = (
  λ h. elim (Bool-cases (entry_matches exe action t)) [
    | inl e ↦ inl ((entry_matches_iff exe action t).0 e)
    | inr n ↦ inr ((list_matches_iff list exe action).0 (rw n at h))
  ],
  λ m. elim m [
    | inl e ↦ rw ((entry_matches_iff exe action t).1 e)
    | inr r ↦ ground (arith, (list_matches_iff list exe action).1 r)
  ],
)

-- The decision is to deny exactly when an entry of the deny list matches, whatever the allow list
-- holds; to allow exactly when no entry of the deny list and some entry of the allow list matches.
pub decide_iff :
    (p : Policy) (exe action : Option Text)
    → ((decide p exe action ≡ deny) ↔ Any (Matches exe action) p.deny_list)
      × ((decide p exe action ≡ allow)
          ↔ ((¬ Any (Matches exe action) p.deny_list) × Any (Matches exe action) p.allow_list))
unfolding decide
decide_iff p exe action =
    let d = list_matches_iff p.deny_list exe action in
    let a = list_matches_iff p.allow_list exe action in
    elim (Bool-cases (list_matches p.deny_list exe action)) [
      | inl e ↦ rw e ((λ _. d.0 e, λ _. refl), (λ h. cc, λ h. absurd (h.0 (d.0 e))))
      | inr n ↦ elim (Bool-cases (list_matches p.allow_list exe action)) [
        | inl e ↦
            rw (n, e)
              (
                (λ h. cc, λ h. absurd (ground (arith, d.1 h, n))),
                (λ _. (λ h. ground (arith, d.1 h, n), a.0 e), λ _. refl),
              )
        | inr m ↦
            rw (n, m)
              (
                (λ h. cc, λ h. absurd (ground (arith, d.1 h, n))),
                (λ h. cc, λ h. absurd (ground (arith, a.1 h.1, m))),
              )
      ]
    ]

-- Without a target and without an action no list decides: the request is asked.
pub decide_unknown : (p : Policy) → decide p none none ≡ ask
unfolding decide list_matches entry_matches
decide_unknown p = rw (no_match p.deny_list, no_match p.allow_list)
  where
    no_match : (l : List Text) → any (entry_matches none none) l ≡ false
    no_match [] = refl
    no_match (t ∷ l) = no_match l
