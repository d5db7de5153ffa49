-- ===== src/ProcScan/Selected.antt =====
-- Which processes the scan selects.
use hypr_blocker.Base.{
  ℕ, ◌≡◌, refl, ap, ◌∙◌, ◌↔◌, ◌⊎◌, inl, inr, Bool, true, false, ◌||◌, Option, none, some, List, [],
  ◌∷◌, arith, All, ◌≢◌, Any, Bool-cases, leb, ◌==◌, is_among,
}
use hypr_blocker.Base.Int.{ℤ}
use hypr_blocker.Base.Text.{Text}
use hypr_blocker.ProcScan.{
  FileText, holds, unreadable, undecodable, real_uid_of, match_uid, is_process, in_order, ProcEntry,
  exe_realpath, pid_real_uid, loginuid_of, not_root, is_uid, uid_matches, runs_one_of, pid_of,
  insert_pid, sorted, is_target, add_pid, matches, find_browser_pids, status_real_uid,
  parse_proc_status,
}

is_among-insert :
    (p n : ℕ) (ms : List ℕ) → is_among p (insert_pid n ms) ≡ ((p == n) || is_among p ms)
is_among-insert p n [] = refl
is_among-insert p n (m ∷ ms) = elim (Bool-cases (leb n m)) [
  | inl e ↦ rw e refl
  | inr e ↦ ground (arith, e, is_among-insert p n ms)
]

is_among-sorted : (p : ℕ) (ns : List ℕ) → is_among p (sorted ns) ≡ is_among p ns
is_among-sorted p [] = refl
is_among-sorted p (n ∷ ns) =
    is_among-insert p n (sorted ns) ∙ ap (λ b. (p == n) || b) (is_among-sorted p ns)

-- The process of an entry is a browser of the list with the pid given, and belongs to the target user.
abbrev pub Selects : List Text → Option ℤ → ℕ → ProcEntry → Type 0
Selects wanted target pid e =
    (pid_of e.name ≡ some pid)
    × (runs_one_of wanted (exe_realpath e) ≡ true)
    × (uid_matches target e ≡ some true)

-- The status of a listed browser can be decoded.
abbrev pub IsDecodable : List Text → ProcEntry → Type 0
IsDecodable wanted e = runs_one_of wanted (exe_realpath e) ≡ true → e.status ≢ undecodable

-- The entry is a process of a listed browser whose status cannot be decoded.
abbrev pub Blinds : List Text → ProcEntry → Type 0
Blinds wanted e =
    (is_process (pid_of e.name) ≡ true)
    × (runs_one_of wanted (exe_realpath e) ≡ true)
    × (e.status ≡ undecodable)

real_uid_of-some : (s : FileText) → s ≢ undecodable → (u : Option ℤ) × (real_uid_of s ≡ some u)
unfolding real_uid_of
real_uid_of-some undecodable h = absurd (h refl)
real_uid_of-some unreadable h = (none, refl)
real_uid_of-some (holds t) h = (status_real_uid (parse_proc_status t), refl)

match_uid-some :
    (target : Option ℤ) (o : Option (Option ℤ)) (u login : Option ℤ)
    → o ≡ some u
    → (b : Bool) × (match_uid target o login ≡ some b)
match_uid-some target none u login h = cc h
match_uid-some none (some v) u login h = (not_root v || not_root login, refl)
match_uid-some (some t) (some v) u login h = (is_uid t v || is_uid t login, refl)

uid_matches-some :
    (target : Option ℤ) (e : ProcEntry)
    → e.status ≢ undecodable
    → (b : Bool) × (uid_matches target e ≡ some b)
unfolding uid_matches pid_real_uid
uid_matches-some target e h =
    let (u, known) = real_uid_of-some e.status h in
    match_uid-some target (real_uid_of e.status) u (loginuid_of e) known

is_target-some :
    (wanted : List Text) (target : Option ℤ) (e : ProcEntry)
    → IsDecodable wanted e
    → (b : Bool) × (is_target wanted target e ≡ some b)
      × ((b ≡ true)
          ↔ ((runs_one_of wanted (exe_realpath e) ≡ true) × (uid_matches target e ≡ some true)))
unfolding is_target
is_target-some wanted target e h = elim (Bool-cases (runs_one_of wanted (exe_realpath e))) [
  | inl runs ↦
      let (b, known) = uid_matches-some target e (h runs) in
      (b, rw runs known, (λ k. (runs, known ∙ ap {B = Option Bool} some k), λ k. cc (known, k.1)))
  | inr other ↦ (false, rw other refl, (λ k. cc k, λ k. cc (other, k.0)))
]

add_pid_iff :
    (o : Option ℕ) (b : Bool) (ps : List ℕ)
    → (out : List ℕ) × (add_pid o (some b) (some ps) ≡ some out)
      × ((p : ℕ) → (is_among p out ≡ true) ↔ (((o ≡ some p) × (b ≡ true)) ⊎ (is_among p ps ≡ true)))
add_pid_iff none b ps = (ps, refl, λ p. (λ h. inr h, λ h. elim h [ inl m ↦ cc m.0 | inr m ↦ m ]))
add_pid_iff (some n) false ps =
    (ps, refl, λ p. (λ h. inr h, λ h. elim h [ inl m ↦ cc m.1 | inr m ↦ m ]))
add_pid_iff (some n) true ps = (
  n ∷ ps,
  refl,
  λ p. elim (Bool-cases (p == n)) [
    | inl k ↦ (λ h. inl (ground (arith, k), refl), λ h. ground (arith, k))
    | inr k ↦ (
      λ h. inr (ground (arith, k, h)),
      λ h. elim h [ inl m ↦ ground (arith, k, m.0) | inr m ↦ ground (arith, k, m) ],
    )
  ],
)

matches_iff :
    (wanted : List Text) (target : Option ℤ) (es : List ProcEntry)
    → All (IsDecodable wanted) es
    → (pids : List ℕ) × (matches wanted target es ≡ some pids)
      × ((p : ℕ) → (is_among p pids ≡ true) ↔ Any (Selects wanted target p) es)
unfolding matches
matches_iff wanted target [] a = ([], refl, λ p. (λ h. cc h, λ h. absurd h))
matches_iff wanted target (e ∷ es) a =
    let (ps, rest, selected) = matches_iff wanted target es a.1 in
    let (b, test, means) = is_target-some wanted target e a.0 in
    let (out, added, among) = add_pid_iff (pid_of e.name) b ps in
    (
      out,
      ap (λ t. add_pid (pid_of e.name) t (matches wanted target es)) test
          ∙ ap (λ l. add_pid (pid_of e.name) (some b) l) rest
          ∙ added,
      λ p. (
        λ h. elim ((among p).0 h) [
          | inl m ↦ let both = means.0 m.1 in inl (m.0, both.0, both.1)
          | inr m ↦ inr ((selected p).0 m)
        ],
        λ h. elim h [
          | inl m ↦ (among p).1 (inl (m.0, means.1 (m.1, m.2)))
          | inr m ↦ (among p).1 (inr ((selected p).1 m))
        ],
      ),
    )

-- In a process table that can be listed, and in which the status of every listed browser can be decoded, the scan
-- ends, and exactly those processes are selected whose program is a listed browser and whose real or login
-- user is the target user, or any user but root where none is given.
pub selected_iff :
    (wanted : List Text) (target : Option ℤ) (es : List ProcEntry)
    → All (IsDecodable wanted) es
    → (pids : List ℕ) × (find_browser_pids wanted target (some es) ≡ some pids)
      × ((pid : ℕ) → (is_among pid pids ≡ true) ↔ Any (Selects wanted target pid) es)
unfolding find_browser_pids
selected_iff wanted target es a =
    let (ps, found, selected) = matches_iff wanted target es a in
    (sorted ps, ap in_order found, λ pid. rw (is_among-sorted pid ps) (selected pid))

blind_entry :
    (o : Option ℕ) (t : Option Bool) (l : Option (List ℕ))
    → is_process o ≡ true
    → t ≡ none
    → add_pid o t l ≡ none
blind_entry none t l h k = cc h
blind_entry (some p) none l h k = refl
blind_entry (some p) (some b) l h k = cc k

blind_rest : (o : Option ℕ) (t : Option Bool) → add_pid o t none ≡ none
blind_rest none t = refl
blind_rest (some p) none = refl
blind_rest (some p) (some b) = refl

blind_target :
    (wanted : List Text) (target : Option ℤ) (e : ProcEntry)
    → Blinds wanted e
    → is_target wanted target e ≡ none
unfolding is_target uid_matches pid_real_uid real_uid_of
blind_target wanted target e (process, runs, blind) = rw (runs, blind) refl

blind_matches :
    (wanted : List Text) (target : Option ℤ) (es : List ProcEntry)
    → Any (Blinds wanted) es
    → matches wanted target es ≡ none
unfolding matches
blind_matches wanted target [] h = absurd h
blind_matches wanted target (e ∷ es) (inl m) =
    blind_entry (pid_of e.name) (is_target wanted target e) (matches wanted target es) m.0
      (blind_target wanted target e m)
blind_matches wanted target (e ∷ es) (inr m) =
    ap (λ l. add_pid (pid_of e.name) (is_target wanted target e) l)
      (blind_matches wanted target es m)
    ∙ blind_rest (pid_of e.name) (is_target wanted target e)

-- One process of a listed browser whose status cannot be decoded stops the scan with an exception, whatever else
-- runs and whoever its user is: no browser is selected.
pub undecodable_stops_scan :
    (wanted : List Text) (target : Option ℤ) (es : List ProcEntry)
    → Any (Blinds wanted) es
    → find_browser_pids wanted target (some es) ≡ none
unfolding find_browser_pids
undecodable_stops_scan wanted target es h = ap in_order (blind_matches wanted target es h)
