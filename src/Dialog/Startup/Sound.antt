-- ===== src/Dialog/Startup/Sound.antt =====
-- Which file a sound's name stands for, and what is tried to play it.
use sentinel_cosmic.Common.{
  ◌≡◌, List, ◌∷◌, none, [], or_else, Option, if◌then◌else◌, inl, some, refl, Bool-cases, inr, ◌++◌,
  sym, Bool, arith, ◌∙◌, ap₂,
}
use sentinel_cosmic.Dialog.Startup.{
  sound_path, sound_dirs, find_dir, sound_exts, resolve_sound_file, find_ext,
}
use sentinel_cosmic.Text.{starts_with_char, Text}

-- The paths that the name may stand for, in the order of preference.
abbrev pub paths_in : Text → Text → List Text → List Text
paths_in name dir [] = []
paths_in name dir (ext ∷ exts) = sound_path name dir ext ∷ paths_in name dir exts

abbrev pub paths_of : Text → List Text → List Text
paths_of name [] = []
paths_of name (dir ∷ dirs) = paths_in name dir sound_exts ++ paths_of name dirs

-- The first entry that passes.
abbrev pub first_that : (Text → Bool) → List Text → Option Text
first_that p [] = none
first_that p (x ∷ xs) = if p x then some x else first_that p xs

first_that-append :
    (p : Text → Bool) (xs ys : List Text)
    → first_that p (xs ++ ys) ≡ or_else (first_that p xs) (first_that p ys)
first_that-append p [] ys = refl
first_that-append p (x ∷ xs) ys = ground (arith, first_that-append p xs ys)

find_ext-first :
    (is_file : Text → Bool) (name dir : Text) (exts : List Text)
    → find_ext is_file name dir exts ≡ first_that is_file (paths_in name dir exts)
unfolding find_ext
find_ext-first is_file name dir [] = refl
find_ext-first is_file name dir (ext ∷ exts) = rw (find_ext-first is_file name dir exts)

find_dir-first :
    (is_file : Text → Bool) (name : Text) (dirs : List Text)
    → find_dir is_file name dirs ≡ first_that is_file (paths_of name dirs)
unfolding find_dir
find_dir-first is_file name [] = refl
find_dir-first is_file name (dir ∷ dirs) =
    ap₂ or_else (find_ext-first is_file name dir sound_exts) (find_dir-first is_file name dirs)
    ∙ sym (first_that-append is_file (paths_in name dir sound_exts) (paths_of name dirs))

-- The nested loops over directories and extensions are one search: a name stands for the first of its nine
-- paths that is a file, the directories in their order and within each `oga`, `ogg`, `wav`; a path that
-- begins with a slash stands for itself, if it is a file, and for nothing else.
pub resolve_sound_file-first :
    (is_file : Text → Bool) (name : Text)
    → resolve_sound_file is_file name
      ≡ first_that is_file
          (if starts_with_char name b'/' then name ∷ [] else paths_of name sound_dirs)
unfolding resolve_sound_file
resolve_sound_file-first is_file name = elim (Bool-cases (starts_with_char name b'/')) [
  | inl e ↦ rw e
  | inr e ↦ rw e (find_dir-first is_file name sound_dirs)
]
