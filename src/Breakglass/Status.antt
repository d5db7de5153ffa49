-- ===== src/Breakglass/Status.antt =====
-- daemon/grants/breakglass.py: what the user tier shows of the countdown, and how it asks for it.
use hypr_blocker.Base.{
  ◌≡◌, refl, List, [], ◌∷◌, inl, inr, Bool-cases, Bool, true, false, Option, none, some,
  if◌then◌else◌,
}
use hypr_blocker.Base.Int.{ℤ}
use hypr_blocker.Base.Float.{Float}
use hypr_blocker.Base.Text.{Text, codes, text_eq}
use hypr_blocker.Base.Time.{DateTime, aware}
use hypr_blocker.Breakglass.Runner.{
  State, StateFile, no_file, bad_file, document, load_state, Files,
}

-- A value of a JSON dict: a key that is missing, a number, true or false, a text with what `datetime.fromisoformat`
-- makes of it, or anything else.
pub data JsonValue : Type 0 where
  absent other : JsonValue
  number : Float → JsonValue
  flag : Bool → JsonValue
  string : Option DateTime → JsonValue

-- `_parse_iso`.
abbrev pub parse_iso : JsonValue → Option DateTime
parse_iso (string date) = date
parse_iso _ = none

-- The keys of `breakglass.json` that this module reads; `released` is `... is True`.
pub record StateDoc : Type 0 where
  pub requested_at : JsonValue
  pub release_at : JsonValue
  pub released : Bool

pub data Stage : Type 0 where
  idle requested pending released : Stage

pub record BreakGlassStatus : Type 0 where
  pub state : Stage
  pub requested_at : Option DateTime
  pub release_at : Option DateTime

-- The part after the document.
abbrev status_of_trigger : Bool → Option DateTime → BreakGlassStatus
status_of_trigger true at = record { state = requested; requested_at = at; release_at = none }
status_of_trigger false at = record { state = idle; requested_at = none; release_at = none }

unfoldable pub compute_status : Option StateDoc → Bool → Option DateTime → BreakGlassStatus
compute_status none trigger_exists at = status_of_trigger trigger_exists at
compute_status (some doc) trigger_exists at =
    let asked = parse_iso doc.requested_at in
    elim doc.released [
      | true ↦ record {
        state = released;
        requested_at = asked;
        release_at = parse_iso doc.release_at;
      }
      | false ↦ elim (parse_iso doc.release_at) [
        | none ↦ status_of_trigger trigger_exists at
        | some t ↦ record { state = pending; requested_at = asked; release_at = some t }
      ]
    ]

abbrev number_field : Option Float → JsonValue
number_field none = absent
number_field (some x) = number x

-- The keys of the document that the root runner writes, as this module reads their values. `requested_at` and
-- `released_at` are numbers of seconds.
abbrev pub written_keys : State → List (Text × JsonValue)
written_keys s =
    (codes "requested_at", number_field s.requested_at)
    ∷ (codes "delay_hours", number_field s.delay_hours)
    ∷ (codes "released", flag s.released)
    ∷ (codes "released_at", number_field s.released_at)
    ∷ []

-- `state_doc.get(key)`
abbrev pub get_key : Text → List (Text × JsonValue) → JsonValue
get_key key [] = absent
get_key key ((k, v) ∷ keys) = let rest = get_key key keys in if text_eq key k then v else rest

-- `... is True`
abbrev pub is_true : JsonValue → Bool
is_true (flag b) = b
is_true _ = false

unfoldable pub written_doc : State → StateDoc
written_doc s = record {
  requested_at = get_key (codes "requested_at") (written_keys s);
  release_at = get_key (codes "release_at") (written_keys s);
  released = is_true (get_key (codes "released") (written_keys s));
}

unfoldable pub read_doc : StateFile → Option StateDoc
unfolding written_doc
read_doc (document s) = some (written_doc s)
read_doc _ = none

-- The text of the trigger file: the time that it names, if it can be read and names one, or a text that is no
-- UTF-8, whose reading raises.
pub data TriggerText : Type 0 where
  names : Option DateTime → TriggerText
  undecodable : TriggerText

-- The status with the trigger there.
abbrev pub with_trigger : Option StateDoc → TriggerText → Option BreakGlassStatus
unfolding compute_status
with_trigger doc undecodable = none
with_trigger doc (names stamp) = some (compute_status doc true stamp)

-- `read_status` where the runner wrote the document, none where it raises.
unfoldable pub read_status : TriggerText → Files → Option BreakGlassStatus
unfolding compute_status with_trigger read_doc
read_status text w = elim w.trigger [
  | true ↦ with_trigger (read_doc w.state_file) text
  | false ↦ some (compute_status (read_doc w.state_file) false none)
]

-- The part of `request_release` behind the status. `failed` says that the trigger cannot be written.
unfoldable pub drop_trigger :
    Option BreakGlassStatus → ℤ → Bool → Files → Option BreakGlassStatus × Files
drop_trigger none now failed w = (none, w)
drop_trigger (some status) now failed w = elim status.state [
  | idle ↦ elim failed [
    | true ↦ (some status, w)
    | false ↦ (
      some (record { state = requested; requested_at = some (aware now); release_at = none }),
      record w { trigger = true },
    )
  ]
  | _ ↦ (some status, w)
]

-- `request_release`: the status that it returns, none where it raises, and the files.
unfoldable pub request_release : TriggerText → ℤ → Bool → Files → Option BreakGlassStatus × Files
unfolding drop_trigger
request_release text now failed w = drop_trigger (read_status text w) now failed w

-- What the status says of a document by the runner: released, or else only whether the trigger is there.
abbrev pub shown : Bool → Bool → Stage
shown true trigger = released
shown false true = requested
shown false false = idle

compute_status-shown :
    (f : StateFile) (trigger : Bool) (at : Option DateTime)
    → (compute_status (read_doc f) trigger at).state ≡ shown (load_state f).released trigger
unfolding compute_status load_state read_doc written_doc
compute_status-shown no_file true at = refl
compute_status-shown no_file false at = refl
compute_status-shown bad_file true at = refl
compute_status-shown bad_file false at = refl
compute_status-shown (document s) trigger at =
    by_fields s.requested_at s.delay_hours s.released s.released_at trigger
  where
    by_fields :
        (asked hours : Option Float) (done : Bool) (ended : Option Float) (trigger : Bool)
        → (compute_status
            (read_doc (
              document (record {
                requested_at = asked;
                delay_hours = hours;
                released = done;
                released_at = ended;
              })))
            trigger
            at).state
          ≡ shown done trigger
    by_fields asked hours true ended trigger = refl
    by_fields asked hours false ended true = refl
    by_fields asked hours false ended false = refl

-- With a document by the runner and a trigger file that can be decoded, or none, the status is `released` if the
-- document says so, and otherwise `requested` or `idle` by the trigger file alone.
pub read_status-shown :
    (stamp : Option DateTime) (w : Files)
    → (status : BreakGlassStatus) × (read_status (names stamp) w ≡ some status)
      × (status.state ≡ shown (load_state w.state_file).released w.trigger)
unfolding read_status
read_status-shown stamp w = elim (Bool-cases w.trigger) [
  | inl t ↦ (
    compute_status (read_doc w.state_file) true stamp,
    rw t refl,
    rw t (compute_status-shown w.state_file true stamp),
  )
  | inr t ↦ (
    compute_status (read_doc w.state_file) false none,
    rw t refl,
    rw t (compute_status-shown w.state_file false none),
  )
]
