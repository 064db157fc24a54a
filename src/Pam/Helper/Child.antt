-- ===== src/Pam/Helper/Child.antt =====
-- crates/pam-sentinel/src/helper.rs: `child_exec`, what the forked child does before it is the helper.
use sentinel_cosmic.Common.{
  if◌then◌else◌, Option, Any, true, false, ◌++◌, some, ℕ, inl, map, List, refl, none, ◌≡◌, [], Bool,
  inr, ◌∷◌,
}
use sentinel_cosmic.Pam.Helper.{child_argv, HelperRequest}
use sentinel_cosmic.Pam.Locale.{read_locale_env}
use sentinel_cosmic.Procfs.{Proc}
use sentinel_cosmic.Text.{Text, contains, codes}

-- The child's system calls and settings, in their order.
pub data Effect : Type 0 where
  initgroups : Text → ℕ → Effect
  setgid : ℕ → Effect
  setuid : ℕ → Effect
  set_var : Text → Text → Effect
  dup_stdout : Effect
  execv : Text → List Text → Effect
  writes : Text → Effect
  exits : ℕ → Effect

pub record PasswdEntry : Type 0 where
  pub name : Text
  pub uid : ℕ
  pub gid : ℕ
  pub dir : Text

-- What the system says of each call. A successful exec does not return.
pub record Kernel : Type 0 where
  pub from_uid : ℕ → Option PasswdEntry
  pub initgroups_ok : Bool
  pub setgid_ok : Bool
  pub setuid_ok : Bool
  pub dup_ok : Bool
  pub exec_ok : Bool

-- The end of a call: the rest if it succeeded, and otherwise `exit(1)`.
abbrev or_exit : Bool → List Effect → List Effect
or_exit true rest = rest
or_exit false rest = exits 1 ∷ []

-- `CString::new(name).unwrap_or_else(…)`.
abbrev c_name : Text → Text
c_name s = if contains s 0 then [] else s

abbrev set_vars : List (Text × Text) → List Effect
set_vars vars = map (λ (kv : Text × Text). set_var kv.0 kv.1) vars

abbrev identity_vars : PasswdEntry → List (Text × Text)
identity_vars u = (codes "HOME", u.dir) ∷ (codes "USER", u.name) ∷ (codes "LOGNAME", u.name) ∷ []

-- The exec, and the refusal that is written where it fails.
unfoldable pub exec_helper : Kernel → Text → List Text → List Effect
unfolding contains
exec_helper k path argv =
    if contains path 0
    then exits 1 ∷ []
    else execv path argv ∷ (if k.exec_ok then [] else writes (codes "DENY\n") ∷ exits 1 ∷ [])

-- The environment, the pipe and the exec, as the user.
unfoldable pub as_target : Kernel → Proc → Text → HelperRequest → PasswdEntry → List Effect
unfolding exec_helper child_argv read_locale_env
as_target k proc path req u =
    set_vars (identity_vars u ++ read_locale_env proc req.requesting_pid)
    ++ (dup_stdout ∷ or_exit k.dup_ok (exec_helper k path (child_argv path req)))

unfoldable pub drop_privileges : Kernel → PasswdEntry → List Effect → List Effect
unfolding contains
drop_privileges k u rest =
    initgroups (c_name u.name) u.gid
    ∷ or_exit k.initgroups_ok
        (setgid u.gid ∷ or_exit k.setgid_ok (setuid u.uid ∷ or_exit k.setuid_ok rest))

abbrev for_entry : Kernel → Proc → Text → HelperRequest → Option PasswdEntry → List Effect
for_entry k proc path req none = exits 1 ∷ []
for_entry k proc path req (some u) = drop_privileges k u (as_target k proc path req u)

-- `child_exec`.
unfoldable pub child_exec : Kernel → Proc → Text → HelperRequest → List Effect
unfolding drop_privileges as_target
child_exec k proc path req = for_entry k proc path req (k.from_uid req.target_uid)

abbrev pub IsExec : Effect → Type 0
IsExec (execv path argv) = Unit {0}
IsExec _ = ⊥

-- The calls that give up root's groups and ids for the user's.
abbrev pub drops : PasswdEntry → List Effect
drops u = initgroups (c_name u.name) u.gid ∷ setgid u.gid ∷ setuid u.uid ∷ []

IsExec-behind :
    (e : Effect) (b : Bool) (rest : List Effect)
    → ¬ IsExec e
    → Any IsExec (e ∷ or_exit b rest)
    → (b ≡ true) × Any IsExec rest
IsExec-behind e b rest n (inl h) = absurd (n h)
IsExec-behind e true rest n (inr h) = (refl, h)
IsExec-behind e false rest n (inr (inl h)) = absurd h
IsExec-behind e false rest n (inr (inr h)) = absurd h

privileges_dropped :
    (k : Kernel) (u : PasswdEntry) (rest : List Effect)
    → Any IsExec (drop_privileges k u rest)
    → (drop_privileges k u rest ≡ drops u ++ rest)
      × (k.initgroups_ok ≡ true)
      × (k.setgid_ok ≡ true)
      × (k.setuid_ok ≡ true)
unfolding drop_privileges
privileges_dropped k u rest h =
    let (a, g) = IsExec-behind (initgroups (c_name u.name) u.gid) k.initgroups_ok _ (λ e. e) h in
    let (b, f) = IsExec-behind (setgid u.gid) k.setgid_ok _ (λ e. e) g in
    let (c, e) = IsExec-behind (setuid u.uid) k.setuid_ok rest (λ e. e) f in (rw (a, b, c), a, b, c)

dropped :
    (k : Kernel) (proc : Proc) (path : Text) (req : HelperRequest) (o : Option PasswdEntry)
    → k.from_uid req.target_uid ≡ o
    → Any IsExec (for_entry k proc path req o)
    → (u : PasswdEntry) × (rest : List Effect) × (k.from_uid req.target_uid ≡ some u)
      × (for_entry k proc path req o ≡ drops u ++ rest)
      × (k.initgroups_ok ≡ true)
      × (k.setgid_ok ≡ true)
      × (k.setuid_ok ≡ true)
dropped k proc path req none e (inl h) = absurd h
dropped k proc path req none e (inr h) = absurd h
dropped k proc path req (some u) e h =
    let (same, a, b, c) = privileges_dropped k u (as_target k proc path req u) h in
    (u, as_target k proc path req u, e, same, a, b, c)

-- Nothing is executed before the privileges are dropped. If the child comes to execute anything, then the
-- user it is to be was found, and before everything else it took that user's groups, group id and user id,
-- in this order, and each of the three calls succeeded.
pub child_exec-drops :
    (k : Kernel) (proc : Proc) (path : Text) (req : HelperRequest)
    → Any IsExec (child_exec k proc path req)
    → (u : PasswdEntry) × (rest : List Effect) × (k.from_uid req.target_uid ≡ some u)
      × (child_exec k proc path req ≡ drops u ++ rest)
      × (k.initgroups_ok ≡ true)
      × (k.setgid_ok ≡ true)
      × (k.setuid_ok ≡ true)
unfolding child_exec
child_exec-drops k proc path req h = dropped k proc path req (k.from_uid req.target_uid) refl h
