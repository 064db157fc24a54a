-- ===== src/Broker/Keys.antt =====
-- Keys as texts: no two grants share one.
use sentinel_cosmic.Broker.{keystr}
use sentinel_cosmic.Common.{◌∷◌, ℕ, [], arith, ◌≢◌, ◌≡◌, ◌++◌, refl, All}
use sentinel_cosmic.Proto.{RememberKey}
use sentinel_cosmic.Text.{Text}
use sentinel_cosmic.Text.Decimal.{to_string, to_string-Digits, to_string_inj, Digits}

abbrev pub Lacks : ℕ → Text → Type 0
Lacks c = All (λ d. d ≢ c)

-- A text is cut at its first NUL in one way only.
pub cut_unique :
    (a b x y : Text) → Lacks 0 a → Lacks 0 b → a ++ (0 ∷ x) ≡ b ++ (0 ∷ y) → (a ≡ b) × (x ≡ y)
cut_unique [] [] x y ha hb e = (refl, cc)
cut_unique [] (d ∷ b) x y ha (n, hb) e = absurd (n (cc))
cut_unique (c ∷ a) [] x y (n, ha) hb e = absurd (n (cc))
cut_unique (c ∷ a) (d ∷ b) x y (n, ha) (m, hb) e =
    let (same, rest) = cut_unique a b x y ha hb (cc) in (cc, rest)

Digits-Lacks : (s : Text) → Digits s → Lacks 0 s
Digits-Lacks [] h = tt
Digits-Lacks (c ∷ s) (d, h) = (ground (arith, d), Digits-Lacks s h)

to_string-Lacks : (n : ℕ) → Lacks 0 (to_string n)
to_string-Lacks n = Digits-Lacks (to_string n) (to_string-Digits n)

RememberKey-eq :
    (k l : RememberKey)
    → k.loginuid ≡ l.loginuid
    → k.sessionid ≡ l.sessionid
    → k.service ≡ l.service
    → k.command ≡ l.command
    → k ≡ l
RememberKey-eq k l u s v c i = record {
  loginuid = u i;
  sessionid = s i;
  service = v i;
  command = c i;
}

-- Two keys whose services hold no NUL and which are stored under the same text are the same key:
-- no command can reach across the boundary between the fields, whatever it holds.
pub keystr_inj :
    (k l : RememberKey) → Lacks 0 k.service → Lacks 0 l.service → keystr k ≡ keystr l → k ≡ l
unfolding keystr
keystr_inj k l nk nl e =
    let (u, e1) =
      cut_unique (to_string k.loginuid) (to_string l.loginuid) _ _ (to_string-Lacks k.loginuid)
        (to_string-Lacks l.loginuid) e in
    let (s, e2) =
      cut_unique (to_string k.sessionid) (to_string l.sessionid) _ _ (to_string-Lacks k.sessionid)
        (to_string-Lacks l.sessionid) e1 in
    let (v, c) = cut_unique k.service l.service k.command l.command nk nl e2 in
    RememberKey-eq k l (to_string_inj k.loginuid l.loginuid u)
      (to_string_inj k.sessionid l.sessionid s) v c
