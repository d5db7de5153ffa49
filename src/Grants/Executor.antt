-- ===== src/Grants/Executor.antt =====
-- daemon/grants/executor.py: the commands that may be run with root rights.
pub mod Shapes
mod Tests
use hypr_blocker.Base.{
  ℕ, suc, ◌+◌, Bool, true, false, not, ◌&&◌, ◌||◌, Option, none, some, List, [], ◌∷◌, if◌then◌else◌,
  any, all, length, leb, ◌==◌,
}
use hypr_blocker.Base.Text.{Text, codes, text_eq, lower, contains, has_char, after_last}
use hypr_blocker.Grants.Denylist.{find_denials, join_spaces}

-- A literal of a template, or a placeholder with its `fullmatch`.
pub data Slot : Type 0 where
  token : Text → Slot
  placeholder : (Text → Bool) → Slot

pub record CommandTemplate : Type 0 where
  pub name : Text
  pub description : Text
  pub argv : List Slot

pub record ValidatedCommand : Type 0 where
  pub template_name : Text
  pub description : Text
  pub argv : List Text

abbrev pub is_first_char : ℕ → Bool
is_first_char c = leb b'a' c && leb c b'z' || leb b'0' c && leb c b'9'

abbrev pub is_later_char : ℕ → Bool
is_later_char c = is_first_char c || any (λ d. c == d) (codes "@._+-")

-- `[a-z0-9][a-z0-9@._+-]{0,63}`
abbrev pub is_package_name : Text → Bool
is_package_name [] = false
is_package_name (c ∷ t) = is_first_char c && (all is_later_char t && leb (length t) 63)

abbrev pub grammar : List CommandTemplate
grammar =
    record {
      name = codes "pacman-upgrade";
      description = codes "Full system upgrade (pacman -Syu)";
      argv =
          token (codes "/usr/bin/pacman") ∷ token (codes "-Syu") ∷ token (codes "--noconfirm") ∷ [];
    }
    ∷ record {
      name = codes "pacman-install";
      description = codes "Install one package from the repositories";
      argv =
          token (codes "/usr/bin/pacman")
          ∷ token (codes "-S")
          ∷ token (codes "--noconfirm")
          ∷ placeholder is_package_name
          ∷ [];
    }
    ∷ record {
      name = codes "flatpak-update";
      description = codes "Update all flatpaks";
      argv = token (codes "/usr/bin/flatpak") ∷ token (codes "update") ∷ token (codes "-y") ∷ [];
    }
    ∷ []

-- `literal.rsplit("/", 1)[-1]`
abbrev pub basename : Text → Text
basename literal = after_last (codes "/") literal literal

unfoldable pub literal_matches : Text → Text → ℕ → Bool
literal_matches literal requested position =
    text_eq requested literal
    || (position == 0 && (not (has_char b'/' requested) && text_eq requested (basename literal)))

abbrev pub cons_to : Text → Option (List Text) → Option (List Text)
cons_to a none = none
cons_to a (some args) = some (a ∷ args)

-- The loop of `_match_template` from a position on. Lists of different lengths do not match.
unfoldable pub match_slots : ℕ → List Slot → List Text → Option (List Text)
unfolding literal_matches
match_slots i [] [] = some []
match_slots i [] (v ∷ vs) = none
match_slots i (s ∷ ss) [] = none
match_slots i (token l ∷ ss) (v ∷ vs) =
    let later = match_slots (suc i) ss vs in if literal_matches l v i then cons_to l later else none
match_slots i (placeholder f ∷ ss) (v ∷ vs) =
    let later = match_slots (suc i) ss vs in if f v then cons_to v later else none

abbrev pub approved :
    CommandTemplate → Option (List Text) → Option ValidatedCommand → Option ValidatedCommand
approved t none otherwise = otherwise
approved t (some argv) otherwise =
    some (record { template_name = t.name; description = t.description; argv = argv })

unfoldable pub first_match : List CommandTemplate → List Text → Option ValidatedCommand
unfolding match_slots
first_match [] requested = none
first_match (t ∷ ts) requested =
    approved t (match_slots 0 t.argv requested) (first_match ts requested)

unfoldable pub screened : List Text → List Text → Option ValidatedCommand
unfolding first_match
screened (hit ∷ hits) requested = none
screened [] requested =
    if any (λ arg. contains (codes "hyprblocker") (lower arg)) requested
    then none
    else first_match grammar requested

-- `validate_command`, none where it raises `CommandRejected`.
unfoldable pub validate_command : List Text → Option ValidatedCommand
unfolding find_denials screened
validate_command [] = none
validate_command (a ∷ args) =
    screened (find_denials (some (join_spaces (a ∷ args)) ∷ [])) (a ∷ args)
