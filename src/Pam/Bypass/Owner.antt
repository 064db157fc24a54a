-- ===== src/Pam/Bypass/Owner.antt =====
-- Which agent's approval counts.
use sentinel_cosmic.Common.{
  Option, false, ◌≡◌, ◌⊎◌, ==_refl, true, ◌≢◌, arith, Option-cases, refl, none, ◌>>=◌, ==_iff, Bool,
  ◌∙◌, ap, inr, some, ℕ, ◌==◌, Bool-cases, inl, sym,
}
use sentinel_cosmic.Pam.{PamResult, pam_success}
use sentinel_cosmic.Pam.Bypass.{
  check_agent_bypass, Approved, query_agent, Bus, on_approval, resolve_pam_user,
}
use sentinel_cosmic.Text.{Text}

query_agent_sound :
    (bus : Bus) (uid : ℕ)
    → query_agent bus uid ≡ some true
    → (bus.owner_uid ≡ some uid)
      × (bus.connects ≡ true)
      × (bus.proxy_built ≡ true)
      × (bus.take_approval ≡ some true)
unfolding query_agent
query_agent_sound bus uid h = elim (Option-cases bus.owner_uid) [
  | inl e ↦ absurd (ground (arith, e, h))
  | inr (owner, e) ↦ elim (Bool-cases (owner == uid)) [
    | inl t ↦ (
      e ∙ ap some ((==_iff owner uid).0 t),
      ground (arith, e, h, t),
      ground (arith, e, h, t),
      ground (arith, e, h, t),
    )
    | inr f ↦ absurd (ground (arith, e, h, f))
  ]
]

query_agent_complete :
    (bus : Bus) (uid : ℕ)
    → bus.owner_uid ≡ some uid
    → bus.connects ≡ true
    → bus.proxy_built ≡ true
    → bus.take_approval ≡ some true
    → query_agent bus uid ≡ some true
unfolding query_agent
query_agent_complete bus uid o c p t = rw (c, o) (rw (==_refl uid, p) t)

abbrev asked : Bus → Option Text → Option PamResult
asked bus user = user >>= (λ u. bus.uid_of_name u >>= (λ uid. on_approval (query_agent bus uid)))

on_approval-none : (o : Option Bool) → (o ≢ some true) → on_approval o ≡ none
on_approval-none none n = refl
on_approval-none (some true) n = absurd (n refl)
on_approval-none (some false) n = refl

approval_cases : (o : Option Bool) → (o ≡ some true) ⊎ (o ≢ some true)
approval_cases none = inr (λ e. cc e)
approval_cases (some true) = inl refl
approval_cases (some false) = inr (λ e. cc e)

some_inj {ℓ} : {A : Type ℓ} {x y : A} → some x ≡ some y → x ≡ y
some_inj e = cc e

user_of :
    (bus : Bus) (user : Text) (a : Approved bus) → resolve_pam_user bus ≡ some user → a.0 ≡ user
user_of bus user a e = some_inj (sym (a.2) ∙ e)

uid_of :
    (bus : Bus) (user : Text) (uid : ℕ) (a : Approved bus)
    → resolve_pam_user bus ≡ some user
    → bus.uid_of_name user ≡ some uid
    → a.1 ≡ uid
uid_of bus user uid a e f = some_inj (sym (a.3) ∙ ap bus.uid_of_name (user_of bus user a e) ∙ f)

-- The bypass answers SUCCESS or nothing, never a refusal, and SUCCESS exactly when the bus name is owned
-- by the very user who is being authenticated and that user's agent hands out an approval: another
-- user's process that took the name gets nobody in.
pub check_agent_bypass_iff :
    (bus : Bus)
    → ((check_agent_bypass bus ≡ none) × (¬ Approved bus))
      ⊎ ((check_agent_bypass bus ≡ some pam_success) × Approved bus)
unfolding check_agent_bypass
check_agent_bypass_iff bus = elim (Option-cases (resolve_pam_user bus)) [
  | inl e ↦ inl (ap (asked bus) e, λ a. cc (e, a.2))
  | inr (user, e) ↦ elim (Option-cases (bus.uid_of_name user)) [
    | inl f ↦ inl (
      ap (asked bus) e ∙ ap (λ o. o >>= (λ uid. on_approval (query_agent bus uid))) f,
      λ a. cc (f, a.3, user_of bus user a e),
    )
    | inr (uid, f) ↦
        (let chain : check_agent_bypass bus ≡ on_approval (query_agent bus uid) =
            ap (asked bus) e ∙ ap (λ o. o >>= (λ u. on_approval (query_agent bus u))) f in
          elim (approval_cases (query_agent bus uid)) [
            | inl q ↦
                let (o, c, p, t) = query_agent_sound bus uid q in
                inr (chain ∙ ap on_approval q, (user, uid, e, f, o, c, p, t))
            | inr n ↦ inl (
              chain ∙ on_approval-none (query_agent bus uid) n,
              λ a. n (
                  query_agent_complete bus uid (a.4 ∙ ap some (uid_of bus user uid a e f)) (a.5)
                    (a.6) (a.7)),
            )
          ])
  ]
]
