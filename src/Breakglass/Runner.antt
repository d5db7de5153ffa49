-- ===== src/Breakglass/Runner.antt =====
-- enforcer/breakglass_runner.py: the deterministic release after a delay.
-- Clock readings are counted in milliseconds, delays in thousandths of an hour.
pub mod Countdown
pub mod Certain
use hypr_blocker.Base.{ℕ, Bool, true, false, not, Option, none, some, List, [], ◌∷◌, if◌then◌else◌}
use hypr_blocker.Base.Int.{ℤ, pos}
use hypr_blocker.Base.Float.{Float, fin, minus, times, max_float, min_float, at_least}
use hypr_blocker.Enforcer.Requests.{LockFile, recorded}

abbrev pub default_delay_hours : Float
default_delay_hours = fin (pos 36000)

abbrev pub min_delay_hours : Float
min_delay_hours = fin (pos 24000)

abbrev pub max_delay_hours : Float
max_delay_hours = fin (pos 48000)

unfoldable pub clamp_delay_hours : Float → Float
clamp_delay_hours hours = min_float (max_float hours min_delay_hours) max_delay_hours

-- `clamp_delay_hours(...) * 3600.0`, where a thousandth of an hour is 3600 milliseconds.
unfoldable pub should_release : Float → Float → Float → Bool
unfolding clamp_delay_hours
should_release trigger_mtime now delay_hours =
    let elapsed = minus now trigger_mtime in
    at_least elapsed (times 3600 (clamp_delay_hours delay_hours))

-- The document of `secure/breakglass.json`, whose numbers are those that the runner wrote.
pub record State : Type 0 where
  pub requested_at : Option Float
  pub delay_hours : Option Float
  pub released : Bool
  pub released_at : Option Float

-- The file: absent, unreadable or not a JSON dict, or a document.
pub data StateFile : Type 0 where
  no_file bad_file : StateFile
  document : State → StateFile

abbrev pub empty_state : State
empty_state = record {
  requested_at = none;
  delay_hours = none;
  released = false;
  released_at = none;
}

unfoldable pub load_state : StateFile → State
load_state (document state) = state
load_state _ = empty_state

-- The files that a pass reads and writes. `credential` says whether the root credential is world-readable, `none`
-- where there is no such file.
pub record Files : Type 0 where
  pub state_file : StateFile
  pub lock_file : LockFile
  pub credential : Option Bool
  pub trigger : Bool

-- Which of the operating system's calls raise OSError in a pass.
pub record Failures : Type 0 where
  pub save_state : Bool
  pub write_lock : Bool
  pub change_mode : Bool
  pub unlink : Bool

-- What `run_once` returns, or the OSError of `_save_state` that leaves it.
pub data Action : Type 0 where
  idle recorded_now pending released already_released : Action
  os_error : Action

-- `_release`: each of the three steps on its own, an error of one does not stop the others.
unfoldable pub release : Failures → Files → Files
release fails w = record w {
  lock_file = if fails.write_lock then w.lock_file else recorded none none;
  credential = elim w.credential [
    | none ↦ none
    | some c ↦ some (if fails.change_mode then c else true)
  ];
  trigger = if fails.unlink then w.trigger else false;
}

-- `_save_state` and the action that the pass then returns.
unfoldable pub save_then : Failures → State → Action → Files → Action × Files
save_then fails state action w =
    if fails.save_state then (os_error, w) else (action, record w { state_file = document state })

-- A pass on which no request is recorded.
unfoldable pub watch_trigger : Failures → Float → Bool → Files → Action × Files
unfolding save_then
watch_trigger fails now false w = (idle, w)
watch_trigger fails now true w =
    save_then fails
      (record {
        requested_at = some now;
        delay_hours = some default_delay_hours;
        released = false;
        released_at = none;
      })
      recorded_now w

abbrev stated_delay : Option Float → Float
stated_delay none = default_delay_hours
stated_delay (some hours) = hours

-- A pass on which a request is recorded.
unfoldable pub count_down : Failures → Float → Float → State → Files → Action × Files
unfolding save_then release should_release clamp_delay_hours
count_down fails now requested state w =
    let hours = clamp_delay_hours (stated_delay state.delay_hours) in
    if should_release requested now hours
    then save_then fails (record state { released = true; released_at = some now }) released
        (release fails w)
    else (pending, w)

unfoldable pub run_state : Failures → Float → State → Files → Action × Files
unfolding watch_trigger count_down
run_state fails now state w = elim state.released [
  | true ↦ (already_released, w)
  | false ↦ elim state.requested_at [
    | none ↦ watch_trigger fails now w.trigger w
    | some requested ↦ count_down fails now requested state w
  ]
]

unfoldable pub run_once : Failures → Float → Files → Action × Files
unfolding run_state load_state
run_once fails now w = run_state fails now (load_state w.state_file) w
