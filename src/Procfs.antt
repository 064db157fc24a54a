-- ===== src/Procfs.antt =====
-- crates/sentinel-shared/src/lib.rs, module `procfs`, and the readers of numbers in
-- crates/pam-sentinel/src/lib.rs. A process is named by a natural number: zero stands for every pid that
-- is not positive.
pub mod Args
pub mod Tests
use sentinel_cosmic.Common.{
  leb, some, Option, map_option, ℕ, if◌then◌else◌, ◌==◌, or_else, not, none, ◌∷◌, [], unwrap_or,
  retain, List, ◌>>=◌,
}
use sentinel_cosmic.Text.{
  join, text_eq, split_whitespace, Text, strip_prefix, trim, codes, is_empty, lines, split_once,
  split,
}
use sentinel_cosmic.Text.Decimal.{u32_max, read_number, parse_u32, pos, negsuc, ℤ}
use sentinel_cosmic.Text.Words.{space}

-- What the kernel shows below /proc: none for what cannot be read or is no UTF-8. The command line is
-- decoded, its NULs kept; the environment is cut at its NULs, an entry that is no UTF-8 being none.
pub record Proc : Type 0 where
  pub comm : ℕ → Option Text
  pub status : ℕ → Option Text
  pub exe : ℕ → Option Text
  pub cwd : ℕ → Option Text
  pub cmdline : ℕ → Option Text
  pub environ : ℕ → Option (List (Option Text))
  pub loginuid : ℕ → Option Text
  pub sessionid : ℕ → Option Text

-- `if pid <= 0 { return None; }`.
abbrev pub if_positive {ℓ} : {A : Type ℓ} → ℕ → Option A → Option A
if_positive pid o = if pid == 0 then none else o

-- A pid of the type i32 as the readers below take it: they answer alike for all that are not positive.
abbrev pub pid_of : ℤ → ℕ
pid_of (pos n) = n
pid_of (negsuc n) = 0

unfoldable pub read_comm : Proc → ℕ → Option Text
unfolding trim
read_comm proc pid = if_positive pid (map_option trim (proc.comm pid))

-- `s.trim().parse::<i32>().ok()`, a negative number read as zero.
abbrev parse_pid : Text → Option ℕ
parse_pid [] = none
parse_pid (c ∷ s) =
    if c == b'-'
    then (read_number s >>= λ n. if leb n 2147483648 then some 0 else none)
    else (parse_u32 (c ∷ s) >>= λ n. if leb n 2147483647 then some n else none)

-- The first line that begins with `PPid:`.
unfoldable pub find_ppid : List Text → Option ℕ
unfolding strip_prefix trim parse_u32 read_number
find_ppid [] = none
find_ppid (l ∷ ls) = elim (strip_prefix l (codes "PPid:")) [
  | some rest ↦ parse_pid (trim rest)
  | none ↦ find_ppid ls
]

unfoldable pub read_ppid : Proc → ℕ → Option ℕ
unfolding find_ppid lines
read_ppid proc pid = if_positive pid (proc.status pid >>= λ s. find_ppid (lines s))

unfoldable pub read_exe : Proc → ℕ → Option Text
read_exe proc pid = if_positive pid (proc.exe pid)

unfoldable pub read_cwd : Proc → ℕ → Option Text
read_cwd proc pid = if_positive pid (proc.cwd pid)

-- The parts of a command line that are not empty, joined by blanks.
abbrev joined : List Text → Option Text
joined [] = none
joined (p ∷ ps) = some (join (p ∷ ps) space)

unfoldable pub cmdline_of_bytes : Text → Option Text
unfolding split join
cmdline_of_bytes bytes = joined (retain (λ p. not (is_empty p)) (split (λ c. c == 0) bytes))

unfoldable pub read_cmdline : Proc → ℕ → Option Text
unfolding cmdline_of_bytes
read_cmdline proc pid = if_positive pid (proc.cmdline pid >>= cmdline_of_bytes)

-- The value of the first entry `key=value`.
unfoldable pub find_var : List (Option Text) → Text → Option Text
unfolding split_once text_eq
find_var [] key = none
find_var (none ∷ es) key = find_var es key
find_var (some e ∷ es) key = elim (split_once e b'=') [
  | none ↦ find_var es key
  | some (k, v) ↦ (let rest = find_var es key in if text_eq k key then some v else rest)
]

unfoldable pub read_environ_var : Proc → ℕ → Text → Option Text
unfolding find_var
read_environ_var proc pid key = if_positive pid (proc.environ pid >>= λ es. find_var es key)

-- `read_proc_u32` for one of the two files: u32::MAX where there is no number.
unfoldable pub read_proc_u32 : (ℕ → Option Text) → ℕ → ℕ
unfolding parse_u32 trim
read_proc_u32 file ppid =
    unwrap_or (if_positive ppid (file ppid >>= λ s. parse_u32 (trim s))) u32_max

-- `iter.next()`.
abbrev first_of : List Text → Option Text
first_of [] = none
first_of (w ∷ ws) = some w

-- The real uid of the first `Uid:` line that has one.
unfoldable pub find_uid : List Text → Option ℕ
unfolding strip_prefix split_whitespace parse_u32
find_uid [] = none
find_uid (l ∷ ls) =
    or_else
      (strip_prefix l (codes "Uid:") >>= (λ rest. first_of (split_whitespace rest) >>= parse_u32))
      (find_uid ls)

-- `caller_uid`. The last argument is the process's own real uid.
unfoldable pub caller_uid : Proc → ℕ → ℕ → ℕ
unfolding parse_u32 trim find_uid lines
caller_uid proc ppid own_uid =
    unwrap_or
      (if_positive ppid (
        or_else
          (proc.loginuid ppid
            >>= (λ s. parse_u32 (trim s) >>= λ uid. if uid == u32_max then none else some uid))
          (proc.status ppid >>= λ s. find_uid (lines s))))
      own_uid
