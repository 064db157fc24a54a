-- ===== src/Dialog/Startup.antt =====
-- crates/sentinel-helper-kde/src/main.rs, and `finish` of bridge.rs: what the dialog's process does before and around the event loop.
-- Qt is what the environment says of it: whether the scene loads, and what the user does in the loop.
pub mod Answer
pub mod Process
pub mod Sound
pub mod Tests
use sentinel_cosmic.Cli.{RenderMode, effective_render_mode}
use sentinel_cosmic.Common.{
  [], Bool, if◌then◌else◌, none, ◌++◌, Option, or_else, true, some, List, false, ◌∷◌, unwrap_or, ℕ,
  is_some,
}
use sentinel_cosmic.Dialog.{start, Input, play, bare, Args}
use sentinel_cosmic.Text.{is_empty, starts_with_char, codes, Text}
use sentinel_cosmic.Verdict.{exit_code, Verdict, Outcome, show_verdict}

-- `resolve_sound_file`: a path as it is, otherwise a name in the themes' directories.
abbrev pub sound_dirs : List Text
sound_dirs =
    codes "/usr/share/sounds/freedesktop/stereo"
    ∷ codes "/usr/local/share/sounds/freedesktop/stereo"
    ∷ codes "/usr/share/sounds/Oxygen/stereo"
    ∷ []

abbrev pub sound_exts : List Text
sound_exts = codes "oga" ∷ codes "ogg" ∷ codes "wav" ∷ []

abbrev pub sound_path : Text → Text → Text → Text
sound_path name dir ext = dir ++ (b'/' ∷ (name ++ (b'.' ∷ ext)))

unfoldable pub find_ext : (Text → Bool) → Text → Text → List Text → Option Text
find_ext is_file name dir [] = none
find_ext is_file name dir (ext ∷ exts) =
    if is_file (sound_path name dir ext)
    then some (sound_path name dir ext)
    else find_ext is_file name dir exts

unfoldable pub find_dir : (Text → Bool) → Text → List Text → Option Text
unfolding find_ext
find_dir is_file name [] = none
find_dir is_file name (dir ∷ dirs) =
    or_else (find_ext is_file name dir sound_exts) (find_dir is_file name dirs)

unfoldable pub resolve_sound_file : (Text → Bool) → Text → Option Text
unfolding find_dir
resolve_sound_file is_file name =
    if starts_with_char name b'/'
    then (if is_file name then some name else none)
    else find_dir is_file name sound_dirs

-- A command line: the program and its arguments.
abbrev pub Command : Type 0
Command = Text × List Text

-- `spawn_detached`: the absolute path first, then the bare name. The last component tells of the attempts.
unfoldable pub spawn_detached : (Command → Bool) → Text → List Text → Bool × List Command
spawn_detached starts bin args =
    if starts (codes "/usr/bin/" ++ bin, args)
    then (true, (codes "/usr/bin/" ++ bin, args) ∷ [])
    else (starts (bin, args), (codes "/usr/bin/" ++ bin, args) ∷ (bin, args) ∷ [])

abbrev pub players : Text → List Command
players file =
    (codes "pw-play", file ∷ [])
    ∷ (codes "paplay", file ∷ [])
    ∷ (
      codes "ffplay",
      codes "-nodisp" ∷ codes "-autoexit" ∷ codes "-loglevel" ∷ codes "quiet" ∷ file ∷ [],
    )
    ∷ (codes "aplay", codes "-q" ∷ file ∷ [])
    ∷ []

-- The loop over the players, which stops at the first that starts.
unfoldable pub try_players : (Command → Bool) → List Command → Bool × List Command
unfolding spawn_detached
try_players starts [] = (false, [])
try_players starts ((bin, args) ∷ ps) =
    let (started, tried) = spawn_detached starts bin args in
    let (later, more) = try_players starts ps in
    if started then (true, tried) else (later, tried ++ more)

abbrev play_file : (Command → Bool) → List Command → Option Text → Bool × List Command
play_file starts tried none = (false, tried)
play_file starts tried (some file) =
    let (started, more) = try_players starts (players file) in (started, tried ++ more)

-- `play_sound`: whether something plays, and what was tried.
unfoldable pub play_sound : (Text → Bool) → (Command → Bool) → Text → Bool × List Command
unfolding spawn_detached try_players resolve_sound_file
play_sound is_file starts name =
    if is_empty name
    then (false, [])
    else (let (started, tried) =
          spawn_detached starts (codes "canberra-gtk-play") (codes "-i" ∷ name ∷ []) in
        if started then (true, tried) else play_file starts tried (resolve_sound_file is_file name))

-- How the process meets the desktop: its variables, whether the scene loads, and what the user does in the
-- event loop, which may end before a verdict.
pub record Desktop : Type 0 where
  pub wayland_display : Option Text
  pub current_desktop : Option Text
  pub logging_rules : Option Text
  pub render_loop : Option Text
  pub scene_loads : Bool
  pub coin : Bool
  pub lang : Text
  pub events : List Input

-- The arguments that only the start-up reads.
pub record StartArgs : Type 0 where
  pub sound_name : Text
  pub windowed : Bool
  pub layer_shell : Bool

-- `entry`, the scene of a render mode.
unfoldable pub scene_of : RenderMode → Text
scene_of RenderMode.layer_shell = codes "qrc:/qt/qml/org/sentinel/kde/qml/Main.qml"
scene_of RenderMode.windowed = codes "qrc:/qt/qml/org/sentinel/kde/qml/Windowed.qml"

abbrev unless_set : Option Text → Text → Text → List (Text × Text)
unless_set none name value = (name, value) ∷ []
unless_set (some v) name value = []

abbrev shell_integration : RenderMode → List (Text × Text)
shell_integration RenderMode.layer_shell =
    (codes "QT_WAYLAND_SHELL_INTEGRATION", codes "layer-shell") ∷ []
shell_integration RenderMode.windowed = []

-- The variables that are set before Qt starts.
unfoldable pub qt_environ : RenderMode → Desktop → List (Text × Text)
qt_environ mode d =
    shell_integration mode
    ++ (unless_set d.logging_rules (codes "QT_LOGGING_RULES") (codes "kf.iconthemes.warning=false")
        ++ unless_set d.render_loop (codes "QSG_RENDER_LOOP") (codes "basic"))

-- What the process leaves behind: its standard output, its exit code, the players it tried, the variables
-- that it set and the scene that it loaded.
pub record Finished : Type 0 where
  pub stdout : Text
  pub code : ℕ
  pub tried : List Command
  pub environ : List (Text × Text)
  pub scene : Option Text

-- `finish`, which ends the process.
unfoldable pub finish : Verdict → Finished
unfolding show_verdict exit_code
finish v = record {
  stdout = show_verdict v ++ (b'\n' ∷ []);
  code = exit_code v.outcome;
  tried = [];
  environ = [];
  scene = none;
}

-- The scene and the event loop. `finish_deny` is called where the scene fails and behind the loop.
unfoldable pub show_dialog : Args → Desktop → Verdict
unfolding start play
show_dialog a d =
    if d.scene_loads
    then unwrap_or (play (start a d.coin d.lang) d.events) (bare Outcome.deny)
    else bare Outcome.deny

-- `main`.
unfoldable pub run_main : (Text → Bool) → (Command → Bool) → Args → StartArgs → Desktop → Finished
unfolding effective_render_mode finish play_sound qt_environ scene_of show_dialog
run_main is_file starts a f d =
    let mode = effective_render_mode f.windowed f.layer_shell d.current_desktop in
    if is_some d.wayland_display
    then record (finish (show_dialog a d)) {
      tried = (play_sound is_file starts f.sound_name).1;
      environ = qt_environ mode d;
      scene = some (scene_of mode);
    }
    else finish (bare Outcome.deny)
