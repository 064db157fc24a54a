-- ===== src/Pam/Helper/Arguments.antt =====
-- crates/pam-sentinel/src/helper.rs against crates/sentinel-polkit-agent/src/helper_ui.rs: the arguments that
-- the two spawners pass.
use sentinel_cosmic.Agent.HelperUi.{Request, helper_args}
use sentinel_cosmic.Common.{
  ℕ, arith, List, Option, ◌∷◌, ◌++◌, All, refl, inl, some, false, Bool-cases, if◌then◌else◌, inr,
  Bool, none, [], ◌≡◌, ◌∙◌, true, ap,
}
use sentinel_cosmic.Pam.Helper.{flag_value, child_argv, process_args, HelperRequest, without_nul}
use sentinel_cosmic.Text.{contains, Text, is_empty, codes}
use sentinel_cosmic.Text.Decimal.{to_string-Digits, to_string, Digits, pos}

-- A value that is passed only where the process is shown, and perhaps only if it is not empty.
abbrev if_shown {ℓ} : {A : Type ℓ} → Bool → A → Option A
if_shown visible v = if visible then some v else none

abbrev if_filled : Bool → Text → Option Text
if_filled visible v = if visible then (if is_empty v then none else some v) else none

-- The same request as the agent would hold it.
abbrev pub as_request : HelperRequest → Request
as_request req =
    let visible = req.cfg.show_process_info in
    record {
      title = req.title;
      message = req.message;
      secondary = req.secondary;
      timeout = req.cfg.timeout;
      min_time = req.cfg.min_display_time_ms;
      randomize = req.cfg.randomize_buttons;
      sound_name = req.cfg.sound_name;
      remember_secs = req.remember_secs;
      process_exe = if_shown visible req.process.exe;
      process_cmdline = if_filled visible req.process.cmdline;
      process_pid = if_shown visible (pos req.requesting_pid);
      process_cwd = if_filled visible req.process.cwd;
      requesting_user = if_shown visible req.user;
      action = if_shown visible req.service;
    }

-- A request none of whose texts has a NUL.
pub record IsNulFree (req : HelperRequest) : Type 0 where
  pub title : contains req.title 0 ≡ false
  pub message : contains req.message 0 ≡ false
  pub secondary : contains req.secondary 0 ≡ false
  pub sound_name : contains req.cfg.sound_name 0 ≡ false
  pub exe : contains req.process.exe 0 ≡ false
  pub cmdline : contains req.process.cmdline 0 ≡ false
  pub cwd : contains req.process.cwd 0 ≡ false
  pub user : contains req.user 0 ≡ false
  pub service : contains req.service 0 ≡ false

abbrev NulFree : List Text → Type 0
NulFree = All (λ s. contains s 0 ≡ false)

without_nul-NulFree : (ss : List Text) → NulFree ss → without_nul ss ≡ ss
without_nul-NulFree [] h = refl
without_nul-NulFree (s ∷ ss) (f, h) = rw (f, without_nul-NulFree ss h) refl

NulFree-append : (ss ts : List Text) → NulFree ss → NulFree ts → NulFree (ss ++ ts)
NulFree-append [] ts h k = k
NulFree-append (s ∷ ss) ts (f, h) k = (f, NulFree-append ss ts h k)

Digits-nul_free : (s : Text) → Digits s → contains s 0 ≡ false
unfolding contains
Digits-nul_free [] ds = refl
Digits-nul_free (c ∷ s) (d, ds) = ground (arith, d, Digits-nul_free s ds)

number_nul_free : (n : ℕ) → contains (to_string n) 0 ≡ false
number_nul_free n = Digits-nul_free (to_string n) (to_string-Digits n)

flag_value-NulFree :
    (flag v : Text) → contains flag 0 ≡ false → contains v 0 ≡ false → NulFree (flag_value flag v)
flag_value-NulFree flag [] f h = tt
flag_value-NulFree flag (c ∷ v) f h = (f, (h, tt))

process_args-NulFree : (req : HelperRequest) → IsNulFree req → NulFree (process_args req)
unfolding contains
process_args-NulFree req f =
    let cwd =
      NulFree-append (flag_value (codes "--process-cwd") req.process.cwd)
        (codes "--requesting-user" ∷ req.user ∷ codes "--action" ∷ req.service ∷ [])
        (flag_value-NulFree (codes "--process-cwd") req.process.cwd refl f.cwd)
        (refl, (f.user, (refl, (f.service, tt)))) in
    let cmdline =
      NulFree-append (flag_value (codes "--process-cmdline") req.process.cmdline) _
        (flag_value-NulFree (codes "--process-cmdline") req.process.cmdline refl f.cmdline)
        (refl, (number_nul_free req.requesting_pid, cwd)) in
    elim (Bool-cases req.cfg.show_process_info) [
      | inl e ↦ rw e (refl, (f.exe, cmdline))
      | inr e ↦ rw e tt
    ]

-- Both spawners spell a value that may be missing alike.
filled_value :
    (flag v : Text)
    → flag_value flag v
      ≡ sentinel_cosmic.Agent.HelperUi.flag_value flag (if is_empty v then none else some v)
filled_value flag [] = refl
filled_value flag (c ∷ v) = refl

process_words :
    (req : HelperRequest)
    → process_args req ≡ sentinel_cosmic.Agent.HelperUi.process_args (as_request req)
process_words req =
    let asked = codes "--requesting-user" ∷ req.user ∷ codes "--action" ∷ req.service ∷ [] in
    let cmdline =
      ap
        (λ w.
          codes "--process-exe"
          ∷ req.process.exe
          ∷ (w
              ++ (codes "--process-pid"
                  ∷ to_string req.requesting_pid
                  ∷ (flag_value (codes "--process-cwd") req.process.cwd ++ asked))))
        (filled_value (codes "--process-cmdline") req.process.cmdline) in
    let cwd =
      ap
        (λ w.
          codes "--process-exe"
          ∷ req.process.exe
          ∷ (sentinel_cosmic.Agent.HelperUi.flag_value (codes "--process-cmdline")
                (if is_empty req.process.cmdline then none else some req.process.cmdline)
              ++ (codes "--process-pid" ∷ to_string req.requesting_pid ∷ (w ++ asked))))
        (filled_value (codes "--process-cwd") req.process.cwd) in
    elim (Bool-cases req.cfg.show_process_info) [ inl e ↦ rw e (cmdline ∙ cwd) | inr e ↦ rw e refl ]

-- The words before the process's.
abbrev dialog_words : HelperRequest → List Text → List Text
dialog_words req rest =
    codes "--title"
    ∷ req.title
    ∷ codes "--message"
    ∷ req.message
    ∷ codes "--secondary"
    ∷ req.secondary
    ∷ codes "--timeout"
    ∷ to_string req.cfg.timeout
    ∷ codes "--min-time"
    ∷ to_string req.cfg.min_display_time_ms
    ∷ codes "--remember-secs"
    ∷ to_string req.remember_secs
    ∷ (flag_value (codes "--sound-name") req.cfg.sound_name
        ++ ((if req.cfg.randomize_buttons then codes "--randomize" ∷ [] else []) ++ rest))

dialog_words-NulFree :
    (req : HelperRequest) (rest : List Text)
    → IsNulFree req
    → NulFree rest
    → NulFree (dialog_words req rest)
unfolding contains
dialog_words-NulFree req rest f h =
    let switched =
      NulFree-append (if req.cfg.randomize_buttons then codes "--randomize" ∷ [] else []) rest
        (switch-NulFree req.cfg.randomize_buttons) h in
    let sound =
      NulFree-append (flag_value (codes "--sound-name") req.cfg.sound_name) _
        (flag_value-NulFree (codes "--sound-name") req.cfg.sound_name refl f.sound_name) switched in
    (
      refl,
      (
        f.title,
        (
          refl,
          (
            f.message,
            (
              refl,
              (
                f.secondary,
                (
                  refl,
                  (
                    number_nul_free req.cfg.timeout,
                    (
                      refl,
                      (
                        number_nul_free req.cfg.min_display_time_ms,
                        (refl, (number_nul_free req.remember_secs, sound)),
                      ),
                    ),
                  ),
                ),
              ),
            ),
          ),
        ),
      ),
    )
  where
    switch-NulFree : (b : Bool) → NulFree (if b then codes "--randomize" ∷ [] else [])
    switch-NulFree true = (refl, tt)
    switch-NulFree false = tt

-- The two spawners agree. The arguments that the PAM module passes for a request without a NUL are, behind
-- the program's path, those that the agent passes for the same request: the process's, the user's and the
-- action's only where the process is shown, and its command line and directory only if they are not empty.
pub child_argv-helper_args :
    (path : Text) (req : HelperRequest)
    → contains path 0 ≡ false
    → IsNulFree req
    → child_argv path req ≡ path ∷ helper_args (as_request req)
unfolding child_argv helper_args
child_argv-helper_args path req no_nul f =
    without_nul-NulFree (path ∷ dialog_words req (process_args req))
      (no_nul, dialog_words-NulFree req (process_args req) f (process_args-NulFree req f))
    ∙ ap (λ w. path ∷ dialog_words req w) (process_words req)
