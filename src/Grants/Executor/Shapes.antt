-- ===== src/Grants/Executor/Shapes.antt =====
-- The commands that the grammar lets through.
use hypr_blocker.Base.{
  ℕ, suc, ◌≡◌, refl, sym, ap, ◌∙◌, ◌⊎◌, inl, inr, Bool, true, false, Option, none, some, List, [],
  ◌∷◌, any, Any, arith, Bool-cases, Option-cases,
}
use hypr_blocker.Base.Text.{Text, codes, text_eq_iff, contains, lower}
use hypr_blocker.Grants.Denylist.{find_denials, join_spaces}
use hypr_blocker.Grants.Executor.{
  Slot, token, placeholder, CommandTemplate, ValidatedCommand, is_package_name, grammar,
  literal_matches, match_slots, cons_to, first_match, screened, validate_command,
}

-- An argv has the shape of a template: its literals to the letter, and values that pass for its placeholders.
abbrev pub Fits : List Slot → List Text → Type 0
Fits [] [] = Unit
Fits [] (v ∷ vs) = ⊥
Fits (s ∷ ss) [] = ⊥
Fits (token l ∷ ss) (v ∷ vs) = (v ≡ l) × Fits ss vs
Fits (placeholder f ∷ ss) (v ∷ vs) = (f v ≡ true) × Fits ss vs

abbrev pub arguments : List Text → List Text
arguments [] = []
arguments (program ∷ args) = args

later-literal : (l v : Text) (i : ℕ) → literal_matches l v (suc i) ≡ true → v ≡ l
unfolding literal_matches
later-literal l v i h = (text_eq_iff v l).0 (ground (arith, h))

cons_to-some :
    (a : Text) (o : Option (List Text)) (argv : List Text)
    → cons_to a o ≡ some argv
    → (args : List Text) × (o ≡ some args) × (argv ≡ a ∷ args)
cons_to-some a none argv h = cc h
cons_to-some a (some args) argv h = (args, refl, cc h)

match_slots-Fits :
    (i : ℕ) (slots : List Slot) (requested argv : List Text)
    → match_slots i slots requested ≡ some argv
    → Fits slots argv
unfolding match_slots
match_slots-Fits i [] [] [] h = tt
match_slots-Fits i [] [] (a ∷ argv) h = cc h
match_slots-Fits i [] (v ∷ vs) argv h = cc h
match_slots-Fits i (s ∷ ss) [] argv h = cc h
match_slots-Fits i (token l ∷ ss) (v ∷ vs) argv h = elim (Bool-cases (literal_matches l v i)) [
  | inl e ↦
      let (args, k, q) = cons_to-some l (match_slots (suc i) ss vs) argv (rw e at h) in
      rw q (refl, match_slots-Fits (suc i) ss vs args k)
  | inr e ↦ cc (rw e at h)
]
match_slots-Fits i (placeholder f ∷ ss) (v ∷ vs) argv h = elim (Bool-cases (f v)) [
  | inl e ↦
      let (args, k, q) = cons_to-some v (match_slots (suc i) ss vs) argv (rw e at h) in
      rw q (e, match_slots-Fits (suc i) ss vs args k)
  | inr e ↦ cc (rw e at h)
]

same_list : (a b : Text) (s t argv : List Text) → a ≡ b → s ≡ t → argv ≡ b ∷ t → a ∷ s ≡ argv
same_list a b s t argv h k q = ground (arith, h, k, q)

-- Past the first position a match returns what was requested.
later-same :
    (i : ℕ) (slots : List Slot) (requested argv : List Text)
    → match_slots (suc i) slots requested ≡ some argv
    → requested ≡ argv
unfolding match_slots
later-same i [] [] argv h = cc h
later-same i [] (v ∷ vs) argv h = cc h
later-same i (s ∷ ss) [] argv h = cc h
later-same i (token l ∷ ss) (v ∷ vs) argv h = elim (Bool-cases (literal_matches l v (suc i))) [
  | inl e ↦
      let (args, k, q) = cons_to-some l (match_slots (suc (suc i)) ss vs) argv (rw e at h) in
      let same = later-literal l v i e in
      same_list v l vs args argv same (later-same (suc i) ss vs args k) q
  | inr e ↦ cc (rw e at h)
]
later-same i (placeholder f ∷ ss) (v ∷ vs) argv h = elim (Bool-cases (f v)) [
  | inl e ↦
      let (args, k, q) = cons_to-some v (match_slots (suc (suc i)) ss vs) argv (rw e at h) in
      same_list v v vs args argv refl (later-same (suc i) ss vs args k) q
  | inr e ↦ cc (rw e at h)
]

match_slots-arguments :
    (slots : List Slot) (requested argv : List Text)
    → match_slots 0 slots requested ≡ some argv
    → arguments requested ≡ arguments argv
unfolding match_slots
match_slots-arguments [] [] argv h = let q : [] ≡ argv = cc h in ap arguments q
match_slots-arguments [] (v ∷ vs) argv h = cc h
match_slots-arguments (s ∷ ss) [] argv h = cc h
match_slots-arguments (token l ∷ ss) (v ∷ vs) argv h = elim (Bool-cases (literal_matches l v 0)) [
  | inl e ↦
      let (args, k, q) = cons_to-some l (match_slots 1 ss vs) argv (rw e at h) in
      later-same 0 ss vs args k ∙ sym (ap arguments q)
  | inr e ↦ cc (rw e at h)
]
match_slots-arguments (placeholder f ∷ ss) (v ∷ vs) argv h = elim (Bool-cases (f v)) [
  | inl e ↦
      let (args, k, q) = cons_to-some v (match_slots 1 ss vs) argv (rw e at h) in
      later-same 0 ss vs args k ∙ sym (ap arguments q)
  | inr e ↦ cc (rw e at h)
]

-- The shape of a template, with the arguments that were requested.
abbrev Follows : List Text → List Text → CommandTemplate → Type 0
Follows requested argv t = Fits t.argv argv × (arguments requested ≡ arguments argv)

approved-argv :
    (t : CommandTemplate) (argv : List Text) (command : ValidatedCommand)
    → some (record { template_name = t.name; description = t.description; argv = argv })
      ≡ some command
    → argv ≡ command.argv
approved-argv t argv command h =
    let same : record { template_name = t.name; description = t.description; argv = argv }
        ≡ command =
      cc h in
    ap (λ (c : ValidatedCommand). c.argv) same

first_match-Follows :
    (ts : List CommandTemplate) (requested : List Text) (command : ValidatedCommand)
    → first_match ts requested ≡ some command
    → Any (Follows requested command.argv) ts
unfolding first_match
first_match-Follows [] requested command h = cc h
first_match-Follows (t ∷ ts) requested command h =
    elim (Option-cases (match_slots 0 t.argv requested)) [
      | inl e ↦ inr (first_match-Follows ts requested command (rw e at h))
      | inr (argv, e) ↦
          let same_argv = approved-argv t argv command (rw e at h) in
          let fits = match_slots-Fits 0 t.argv requested argv e in
          let same = match_slots-arguments t.argv requested argv e in
          inl (rw (sym same_argv) (fits, same))
    ]

Fits-token :
    (l : Text) (ss : List Slot) (argv : List Text)
    → Fits (token l ∷ ss) argv
    → (rest : List Text) × (argv ≡ l ∷ rest) × Fits ss rest
Fits-token l ss [] h = absurd h
Fits-token l ss (v ∷ vs) h = (vs, ap (λ (x : Text). x ∷ vs) h.0, h.1)

Fits-placeholder :
    (f : Text → Bool) (argv : List Text)
    → Fits (placeholder f ∷ []) argv
    → (v : Text) × (f v ≡ true) × (argv ≡ v ∷ [])
Fits-placeholder f [] h = absurd h
Fits-placeholder f (v ∷ []) h = (v, h.0, refl)
Fits-placeholder f (v ∷ w ∷ vs) h = absurd h.1

Fits-end : (argv : List Text) → Fits [] argv → argv ≡ []
Fits-end [] h = refl
Fits-end (v ∷ vs) h = absurd h

Fits-three :
    (a b c : Text) (argv : List Text)
    → Fits (token a ∷ token b ∷ token c ∷ []) argv
    → argv ≡ a ∷ b ∷ c ∷ []
Fits-three a b c argv h =
    let (r, e, k) = Fits-token a (token b ∷ token c ∷ []) argv h in
    let (s, f, l) = Fits-token b (token c ∷ []) r k in
    let (t, g, m) = Fits-token c [] s l in
    let end = Fits-end t m in
    e
    ∙ ap (λ (x : List Text). a ∷ x)
        (f ∙ ap (λ (x : List Text). b ∷ x) (g ∙ ap (λ (x : List Text). c ∷ x) end))

-- The three commands that there are, one of them with the name of a package.
abbrev pub IsUpgrade : List Text → Type 0
IsUpgrade argv = argv ≡ codes "/usr/bin/pacman" ∷ codes "-Syu" ∷ codes "--noconfirm" ∷ []

abbrev pub IsFlatpakUpdate : List Text → Type 0
IsFlatpakUpdate argv = argv ≡ codes "/usr/bin/flatpak" ∷ codes "update" ∷ codes "-y" ∷ []

abbrev pub IsInstall : List Text → Type 0
IsInstall argv =
    (name : Text) × (is_package_name name ≡ true)
    × (argv ≡ codes "/usr/bin/pacman" ∷ codes "-S" ∷ codes "--noconfirm" ∷ name ∷ [])

Fits-install :
    (a b c : Text) (f : Text → Bool) (argv : List Text)
    → Fits (token a ∷ token b ∷ token c ∷ placeholder f ∷ []) argv
    → (v : Text) × (f v ≡ true) × (argv ≡ a ∷ b ∷ c ∷ v ∷ [])
Fits-install a b c f argv h =
    let (r, e, k) = Fits-token a (token b ∷ token c ∷ placeholder f ∷ []) argv h in
    let (s, g, l) = Fits-token b (token c ∷ placeholder f ∷ []) r k in
    let (t, m, n) = Fits-token c (placeholder f ∷ []) s l in
    let (v, ok, end) = Fits-placeholder f t n in
    (
      v,
      ok,
      e
          ∙ ap (λ (x : List Text). a ∷ x)
              (g ∙ ap (λ (x : List Text). b ∷ x) (m ∙ ap (λ (x : List Text). c ∷ x) end)),
    )

grammar-shapes :
    (requested argv : List Text)
    → Any (Follows requested argv) grammar
    → (arguments requested ≡ arguments argv)
      × (IsUpgrade argv ⊎ IsFlatpakUpdate argv ⊎ IsInstall argv)
grammar-shapes requested argv (inl h) =
    (h.1, inl (Fits-three (codes "/usr/bin/pacman") (codes "-Syu") (codes "--noconfirm") argv h.0))
grammar-shapes requested argv (inr (inl h)) = (
  h.1,
  inr (
      inr (
        Fits-install (codes "/usr/bin/pacman") (codes "-S") (codes "--noconfirm") is_package_name
          argv h.0)),
)
grammar-shapes requested argv (inr (inr (inl h))) =
    (h.1, inr (inl (Fits-three (codes "/usr/bin/flatpak") (codes "update") (codes "-y") argv h.0)))
grammar-shapes requested argv (inr (inr (inr h))) = absurd h

screened-match :
    (hits requested : List Text) (command : ValidatedCommand)
    → screened hits requested ≡ some command
    → (hits ≡ [])
      × (any (λ arg. contains (codes "hyprblocker") (lower arg)) requested ≡ false)
      × (first_match grammar requested ≡ some command)
unfolding screened
screened-match (hit ∷ hits) requested command h = cc h
screened-match [] requested command h =
    elim (Bool-cases (any (λ arg. contains (codes "hyprblocker") (lower arg)) requested)) [
      | inl e ↦ cc (rw e at h)
      | inr e ↦ (refl, e, rw e at h)
    ]

-- A command that is validated is a full upgrade by pacman, the installation of one package with a name of
-- the allowed characters, or an update of all flatpaks, each with the absolute path of its program and with
-- the arguments that were requested; and neither the denylist nor the name of the blocker is hit by the request.
pub validated_command :
    (requested : List Text) (command : ValidatedCommand)
    → validate_command requested ≡ some command
    → (find_denials (some (join_spaces requested) ∷ []) ≡ [])
      × (any (λ arg. contains (codes "hyprblocker") (lower arg)) requested ≡ false)
      × (arguments requested ≡ arguments command.argv)
      × (IsUpgrade command.argv ⊎ IsFlatpakUpdate command.argv ⊎ IsInstall command.argv)
unfolding validate_command
validated_command [] command h = cc h
validated_command (a ∷ args) command h =
    let (clean, unnamed, found) =
      screened-match (find_denials (some (join_spaces (a ∷ args)) ∷ [])) (a ∷ args) command h in
    let (same, shape) =
      grammar-shapes (a ∷ args) command.argv
        (first_match-Follows grammar (a ∷ args) command found) in
    (clean, unnamed, same, shape)
