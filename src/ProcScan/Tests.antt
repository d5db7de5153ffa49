-- ===== src/ProcScan/Tests.antt =====
-- Instances of the properties of the process scan.
use hypr_blocker.Base.{ℕ, inl, inr, ◌≡◌, ◌↔◌, refl, true, none, some, List, [], ◌∷◌, is_among, Any}
use hypr_blocker.Base.Int.{ℤ, pos, ◌-ℤ◌}
use hypr_blocker.Base.Text.{Text, codes}
use hypr_blocker.ProcScan.{
  real_uid_of, holds, undecodable, name_from, ProcEntry, find_browser_pids, find_session_uid,
  matches, is_target, exe_realpath, uid_matches, pid_real_uid, loginuid_of, status_real_uid,
  parse_proc_status, fields_from, parse_int,
}
use hypr_blocker.ProcScan.Selected.{Selects, selected_iff, undecodable_stops_scan}

-- A browser whose program was replaced while it ran.
abbrev firefox : ProcEntry
firefox = record {
  name = codes "412";
  exe = some (codes "/usr/lib/firefox (deleted)");
  status = holds (codes "Name:\tfirefox\nUid:\t1000\t1000\t1000\t1000\n");
  loginuid = some (codes "4294967295\n");
}

abbrev table : List ProcEntry
table = record firefox { name = codes "self" } ∷ firefox ∷ []

abbrev wanted : List Text
wanted = codes "firefox" ∷ []

firefox_is_found : find_browser_pids wanted (some (pos 1000)) (some table) ≡ some (412 ∷ [])
unfolding find_browser_pids matches is_target exe_realpath uid_matches pid_real_uid real_uid_of
    loginuid_of status_real_uid parse_proc_status fields_from parse_int
firefox_is_found = refl

user_is_found : find_session_uid wanted table ≡ some (some (pos 1000))
unfolding find_session_uid exe_realpath pid_real_uid real_uid_of status_real_uid parse_proc_status
    fields_from parse_int
user_is_found = refl

numbers_are_read :
    (parse_int (codes " -1_000\n") ≡ some (ℤ.negsuc 999))
    × (parse_int (codes "1__0") ≡ none)
    × (parse_int (codes "+") ≡ none)
unfolding parse_int ◌-ℤ◌
numbers_are_read = (refl, refl, refl)

selected_iff_example :
    (pids : List ℕ) × (find_browser_pids wanted (some (pos 1000)) (some table) ≡ some pids)
    × ((pid : ℕ) → (is_among pid pids ≡ true) ↔ Any (Selects wanted (some (pos 1000)) pid) table)
selected_iff_example =
    selected_iff wanted (some (pos 1000)) table ((λ h e. cc e), ((λ h e. cc e), tt))

-- The same browser under a name that is no UTF-8, behind another one.
abbrev hidden : List ProcEntry
hidden = firefox ∷ record firefox { name = codes "413"; status = undecodable } ∷ []

undecodable_stops_scan_example : find_browser_pids wanted (some (pos 1000)) (some hidden) ≡ none
unfolding exe_realpath
undecodable_stops_scan_example =
    undecodable_stops_scan wanted (some (pos 1000)) hidden (inr (inl (refl, refl, refl)))

a_slash_is_ignored : name_from [] [] (codes "/tmp/firefox/./") ≡ codes "firefox"
a_slash_is_ignored = refl
