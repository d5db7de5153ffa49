-- ===== src/ProcScan.antt =====
-- enforcer/proc_scan.py: the browsers to kill and the user of the session, from the process table.
pub mod Selected
mod Tests
use hypr_blocker.Base.{
  ℕ, suc, ◌+◌, ◌-◌, ◌*◌, Bool, true, false, not, ◌&&◌, ◌||◌, Option, none, some, List, [], ◌∷◌,
  ◌++◌, if◌then◌else◌, map, all, leb, ltb, ◌==◌,
}
use hypr_blocker.Base.Int.{ℤ, pos, eqb_ℤ, ◌-ℤ◌}
use hypr_blocker.Base.Text.{
  Text, codes, text_eq, member, strip, split_lines, has_char, before, after, after_last, ends_with,
  is_blank, lstrip_by,
}

-- What the reading of a file gives: its text, OSError, or UnicodeDecodeError, as for a process that has given
-- itself a name that is no UTF-8.
pub data FileText : Type 0 where
  holds : Text → FileText
  unreadable undecodable : FileText

-- A directory entry of the process table: its name, what its link `exe` resolves to, and the contents
-- of `status` and `loginuid`; both errors of the latter are caught, and stand as none.
pub record ProcEntry : Type 0 where
  pub name : Text
  pub exe : Option Text
  pub status : FileText
  pub loginuid : Option Text

abbrev pub is_digit : ℕ → Bool
is_digit c = leb b'0' c && leb c b'9'

-- The digits of a number after the first: an underscore may stand between two of them.
abbrev pub more_digits : ℕ → Bool → Text → Option ℕ
more_digits n after_underscore [] = if after_underscore then none else some n
more_digits n after_underscore (c ∷ t) =
    if is_digit c
    then more_digits (10 * n + (c - b'0')) false t
    else if c == b'_' && not after_underscore
    then more_digits n true t
    else none

abbrev pub parse_digits : Text → Option ℕ
parse_digits [] = none
parse_digits (c ∷ t) = if is_digit c then more_digits (c - b'0') false t else none

abbrev pub negated : Option ℕ → Option ℤ
negated none = none
negated (some n) = some (pos 0 -ℤ pos n)

abbrev pub positive : Option ℕ → Option ℤ
positive none = none
positive (some n) = some (pos n)

abbrev pub signed : Text → Option ℤ
signed [] = none
signed (c ∷ t) =
    if c == b'-'
    then negated (parse_digits t)
    else if c == b'+'
    then positive (parse_digits t)
    else positive (parse_digits (c ∷ t))

-- `int(text)`, none where it raises ValueError.
unfoldable pub parse_int : Text → Option ℤ
parse_int t = signed (strip t)

-- `parse_proc_status`
unfoldable pub fields_from : List Text → List (Text × Text)
fields_from [] = []
fields_from (line ∷ lines) =
    if has_char b':' line
    then (strip (before b':' line), strip (after b':' line)) ∷ fields_from lines
    else fields_from lines

unfoldable pub parse_proc_status : Text → List (Text × Text)
unfolding fields_from
parse_proc_status t = fields_from (split_lines t)

-- `fields.get(key)`: a later line of the same key has replaced an earlier one.
abbrev pub get_last : Text → Option Text → List (Text × Text) → Option Text
get_last key found [] = found
get_last key found ((k, v) ∷ fields) = get_last key (if text_eq key k then some v else found) fields

-- `raw.split()[0]`, none where there is no word.
abbrev pub word_from : Text → Text
word_from [] = []
word_from (c ∷ t) = if is_blank c then [] else c ∷ word_from t

abbrev pub first_word : Text → Option Text
first_word t = elim (word_from (lstrip_by is_blank t)) [ [] ↦ none | c ∷ w ↦ some (c ∷ w) ]

abbrev pub int_of : Option Text → Option ℤ
unfolding parse_int
int_of none = none
int_of (some t) = parse_int t

abbrev pub uid_of_field : Option Text → Option ℤ
unfolding int_of
uid_of_field none = none
uid_of_field (some raw) = int_of (first_word raw)

-- `status_real_uid`
unfoldable pub status_real_uid : List (Text × Text) → Option ℤ
unfolding uid_of_field
status_real_uid fields = uid_of_field (get_last (codes "Uid") none fields)

-- The text before ` (deleted)` at its end.
abbrev pub drop_deleted : Text → Text
drop_deleted [] = []
drop_deleted (c ∷ t) = if text_eq (c ∷ t) (codes " (deleted)") then [] else c ∷ drop_deleted t

-- `exe_realpath`
unfoldable pub exe_realpath : ProcEntry → Option Text
exe_realpath e = elim e.exe [ none ↦ none | some target ↦ some (drop_deleted target) ]

abbrev pub login_of : Option ℤ → Option ℤ
login_of none = none
login_of (some value) = if eqb_ℤ value (pos 4294967295) then none else some value

-- `_loginuid`
unfoldable pub loginuid_of : ProcEntry → Option ℤ
unfolding int_of
loginuid_of e = login_of (int_of e.loginuid)

-- `_pid_real_uid`, none where the reading raises.
unfoldable pub real_uid_of : FileText → Option (Option ℤ)
unfolding status_real_uid parse_proc_status
real_uid_of undecodable = none
real_uid_of unreadable = some none
real_uid_of (holds t) = some (status_real_uid (parse_proc_status t))

unfoldable pub pid_real_uid : ProcEntry → Option (Option ℤ)
unfolding real_uid_of
pid_real_uid e = real_uid_of e.status

-- `uid is not None and uid != 0`, and `uid == target_uid`.
abbrev pub not_root : Option ℤ → Bool
not_root none = false
not_root (some uid) = not (eqb_ℤ uid (pos 0))

abbrev pub is_uid : ℤ → Option ℤ → Bool
is_uid target none = false
is_uid target (some uid) = eqb_ℤ uid target

-- `_uid_matches`, none where it raises.
abbrev pub match_uid : Option ℤ → Option (Option ℤ) → Option ℤ → Option Bool
match_uid target none login = none
match_uid none (some uid) login = some (not_root uid || not_root login)
match_uid (some target) (some uid) login = some (is_uid target uid || is_uid target login)

unfoldable pub uid_matches : Option ℤ → ProcEntry → Option Bool
uid_matches target e = match_uid target (pid_real_uid e) (loginuid_of e)

-- `Path(target).name`: the last part between slashes that is neither empty nor a dot.
abbrev keep_part : Text → Text → Text
keep_part [] name = name
keep_part (c ∷ t) name = if text_eq (c ∷ t) (codes ".") then name else c ∷ t

abbrev pub name_from : Text → Text → Text → Text
name_from part name [] = keep_part part name
name_from part name (c ∷ t) =
    name_from (if c == b'/' then [] else part ++ c ∷ [])
      (if c == b'/' then keep_part part name else name) t

-- `Path(exe).name not in wanted`, the other way round.
abbrev pub runs_one_of : List Text → Option Text → Bool
runs_one_of wanted none = false
runs_one_of wanted (some exe) = member (name_from [] [] exe) wanted

-- `int(entry.name)` of an entry whose name `isdigit`.
abbrev pub pid_of : Text → Option ℕ
pid_of [] = none
pid_of (c ∷ t) = if all is_digit (c ∷ t) then parse_digits (c ∷ t) else none

abbrev pub first_user : Option (Option ℤ) → Option (Option ℤ) → Option (Option ℤ)
first_user none later = none
first_user (some none) later = later
first_user (some (some uid)) later = if not (eqb_ℤ uid (pos 0)) then some (some uid) else later

abbrev pub is_process : Option ℕ → Bool
is_process none = false
is_process (some pid) = true

-- `find_session_uid` over the entries, none where it raises.
unfoldable pub find_session_uid : List Text → List ProcEntry → Option (Option ℤ)
unfolding exe_realpath pid_real_uid
find_session_uid wanted [] = some none
find_session_uid wanted (e ∷ es) =
    let later = find_session_uid wanted es in
    if is_process (pid_of e.name) && runs_one_of wanted (exe_realpath e)
    then first_user (pid_real_uid e) later
    else later

abbrev pub insert_pid : ℕ → List ℕ → List ℕ
insert_pid n [] = n ∷ []
insert_pid n (m ∷ ms) = let rest = insert_pid n ms in if leb n m then n ∷ m ∷ ms else m ∷ rest

abbrev pub sorted : List ℕ → List ℕ
sorted [] = []
sorted (n ∷ ns) = insert_pid n (sorted ns)

-- An entry is a process of a listed browser and of the target user.
unfoldable pub is_target : List Text → Option ℤ → ProcEntry → Option Bool
unfolding exe_realpath uid_matches
is_target wanted target e =
    if runs_one_of wanted (exe_realpath e) then uid_matches target e else some false

abbrev pub add_pid : Option ℕ → Option Bool → Option (List ℕ) → Option (List ℕ)
add_pid none matches pids = pids
add_pid (some pid) none pids = none
add_pid (some pid) (some matches) none = none
add_pid (some pid) (some false) (some pids) = some pids
add_pid (some pid) (some true) (some pids) = some (pid ∷ pids)

-- The pids in the order of the table, none where an entry raises.
unfoldable pub matches : List Text → Option ℤ → List ProcEntry → Option (List ℕ)
unfolding is_target
matches wanted target [] = some []
matches wanted target (e ∷ es) =
    add_pid (pid_of e.name) (is_target wanted target e) (matches wanted target es)

abbrev pub in_order : Option (List ℕ) → Option (List ℕ)
in_order none = none
in_order (some pids) = some (sorted pids)

-- `find_browser_pids`, none where it raises; the entries are none where the table cannot be listed.
unfoldable pub find_browser_pids : List Text → Option ℤ → Option (List ProcEntry) → Option (List ℕ)
unfolding matches
find_browser_pids wanted target none = some []
find_browser_pids wanted target (some entries) = in_order (matches wanted target entries)

-- `kill_pids`: how many were signalled; `signalled` tells for which the call succeeds.
unfoldable pub kill_pids : (ℕ → Bool) → List ℕ → ℕ
kill_pids signalled [] = 0
kill_pids signalled (p ∷ ps) =
    let rest = kill_pids signalled ps in if signalled p then suc rest else rest
