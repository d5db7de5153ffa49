-- ===== src/Grants/Denylist/Rules.antt =====
-- The rules of daemon/grants/denylist.py.
use hypr_blocker.Base.{◌==◌, not, ◌||◌, List, [], ◌∷◌}
use hypr_blocker.Base.Text.{Text, codes, is_blank}
use hypr_blocker.Grants.Regex.{
  Regex, boundary, one, many, up_to, seq, alt, literal, one_of, word, is_word, spaces, optional,
}

pub record Rule : Type 0 where
  pub label : Text
  pub pattern : Regex

systemd_rule : Regex
systemd_rule = alt (word (literal (codes "systemd"))) (
    alt (word (literal (codes "systemctl")))
      (one_of (codes "/etc/systemd" ∷ codes "/usr/lib/systemd" ∷ [])))

sudoers_rule : Regex
sudoers_rule =
    alt (word (seq (literal (codes "sudoer")) (optional b's')))
      (alt (word (literal (codes "visudo"))) (literal (codes "/etc/sudoers")))

unit_rule : Regex
unit_rule = seq (literal (codes "hyprblocker")) (
    seq (one (λ c. c == b'-' || c == b'.'))
      (one_of (codes "service" ∷ codes "enforcer" ∷ codes "breakglass" ∷ codes "timer" ∷ [])))

membership_rule : Regex
membership_rule = alt (seq (literal (codes "hyprblocker")) (seq spaces (literal (codes "group")))) (
    alt (word (seq (literal (codes "group")) (seq spaces (literal (codes "hyprblocker"))))) (
      alt (word (literal (codes "gpasswd"))) (
        alt (word (literal (codes "groupmod"))) (
          alt (word (literal (codes "groupdel"))) (
            alt (word (literal (codes "groupadd")))
              (alt (word (literal (codes "usermod"))) (word (literal (codes "userdel")))))))))

credential_rule : Regex
credential_rule =
    alt (literal (codes "root_credential"))
      (word (seq (literal (codes "credential")) (optional b's')))

state_file_rule : Regex
state_file_rule =
    alt
      (seq boundary (
        seq
          (one_of
            (codes "lock" ∷ codes "breakglass" ∷ codes "enforcement" ∷ codes "enforcer_state" ∷ []))
          (seq (literal (codes ".json")) boundary)))
      (alt (word (literal (codes "policy.md"))) (word (literal (codes "grants.log"))))

-- `[^.\n]{0,60}`
near : Regex
near = up_to 60 (λ c. not (c == b'.' || c == b'\n'))

-- A word, at most 60 characters of the same sentence, and the beginning of another word.
verb_then : Regex → Regex → Regex
verb_then verbs objects = seq (word verbs) (seq near (seq boundary objects))

tampering_rule : Regex
tampering_rule =
    verb_then
      (alt
        (one_of (
          codes "disable"
          ∷ codes "bypass"
          ∷ codes "stop"
          ∷ codes "kill"
          ∷ codes "remove"
          ∷ codes "uninstall"
          ∷ codes "weaken"
          ∷ codes "circumvent"
          ∷ codes "pause"
          ∷ codes "suspend"
          ∷ []))
        (seq (literal (codes "turn")) (seq spaces (literal (codes "off")))))
      (alt (seq (literal (codes "enforc")) (many is_word)) (
        alt (one_of (codes "blocker" ∷ codes "blocking" ∷ codes "watchdog" ∷ codes "daemon" ∷ []))
          (alt (seq (literal (codes "lock")) (many is_word)) (literal (codes "extension")))))

override_rule : Regex
override_rule =
    verb_then
      (one_of (
        codes "ignore"
        ∷ codes "override"
        ∷ codes "disregard"
        ∷ codes "forget"
        ∷ codes "reinterpret"
        ∷ codes "rewrite"
        ∷ codes "modify"
        ∷ codes "edit"
        ∷ codes "change"
        ∷ codes "replace"
        ∷ codes "update"
        ∷ []))
      (alt (seq (literal (codes "polic")) (many is_word)) (
        alt (seq (literal (codes "instruction")) (optional b's')) (
          alt (seq (literal (codes "rule")) (optional b's')) (
            alt (literal (codes "scaffold")) (
              alt
                (seq (literal (codes "meta")) (
                  seq (up_to 1 (λ c. c == b'-' || c == b' '))
                    (seq (literal (codes "rule")) (optional b's'))))
                (alt (seq (literal (codes "system")) (seq spaces (literal (codes "prompt"))))
                  (literal (codes "prompt"))))))))

settings_lock_rule : Regex
settings_lock_rule =
    seq (literal (codes "settings"))
      (seq (many (λ c. is_blank c || (c == b'_' || c == b'-'))) (literal (codes "lock")))

-- `_RULES`
unfoldable pub rules : List Rule
unfolding systemd_rule sudoers_rule unit_rule membership_rule credential_rule state_file_rule near
    verb_then tampering_rule override_rule settings_lock_rule
rules =
    record { label = codes "blocker code directory"; pattern = literal (codes "/opt/hyprblocker") }
    ∷ record {
      label = codes "blocker state directory";
      pattern = literal (codes "/var/lib/hyprblocker");
    }
    ∷ record { label = codes "systemd"; pattern = systemd_rule }
    ∷ record { label = codes "sudoers"; pattern = sudoers_rule }
    ∷ record { label = codes "hyprblocker unit/service"; pattern = unit_rule }
    ∷ record { label = codes "hyprblocker group / membership tools"; pattern = membership_rule }
    ∷ record { label = codes "credential file"; pattern = credential_rule }
    ∷ record { label = codes "grant broker secrets"; pattern = literal (codes "grant_broker") }
    ∷ record { label = codes "secure state files"; pattern = state_file_rule }
    ∷ record { label = codes "enforcement tampering"; pattern = tampering_rule }
    ∷ record { label = codes "policy/instruction override"; pattern = override_rule }
    ∷ record { label = codes "settings lock"; pattern = settings_lock_rule }
    ∷ []
