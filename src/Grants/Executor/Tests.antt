-- ===== src/Grants/Executor/Tests.antt =====
-- Instances of the properties of the grammar and of the denylist.
use hypr_blocker.Base.{◌≡◌, refl, ◌⊎◌, false, none, some, List, [], ◌∷◌, any}
use hypr_blocker.Base.Text.{Text, codes, contains, lower}
use hypr_blocker.Grants.Regex.{match_here, search_from, search}
use hypr_blocker.Grants.Denylist.{find_denials, denials_of, hits_text, join_spaces}
use hypr_blocker.Grants.Denylist.Rules.{rules}
use hypr_blocker.Grants.Executor.{
  ValidatedCommand, validate_command, screened, first_match, match_slots, literal_matches,
}
use hypr_blocker.Grants.Executor.Shapes.{
  arguments, IsUpgrade, IsFlatpakUpdate, IsInstall, validated_command,
}

abbrev install_vim : List Text
install_vim = codes "pacman" ∷ codes "-S" ∷ codes "--noconfirm" ∷ codes "vim" ∷ []

abbrev validated_install : ValidatedCommand
validated_install = record {
  template_name = codes "pacman-install";
  description = codes "Install one package from the repositories";
  argv = codes "/usr/bin/pacman" ∷ codes "-S" ∷ codes "--noconfirm" ∷ codes "vim" ∷ [];
}

install_is_validated : validate_command install_vim ≡ some validated_install
unfolding validate_command screened first_match match_slots literal_matches find_denials denials_of
    hits_text rules search search_from match_here
install_is_validated = refl

validated_command_example :
    (find_denials (some (join_spaces install_vim) ∷ []) ≡ [])
    × (any (λ arg. contains (codes "hyprblocker") (lower arg)) install_vim ≡ false)
    × (arguments install_vim ≡ arguments validated_install.argv)
    × (IsUpgrade validated_install.argv
        ⊎ IsFlatpakUpdate validated_install.argv
        ⊎ IsInstall validated_install.argv)
validated_command_example = validated_command install_vim validated_install install_is_validated

-- A verb in front of a part of the blocker, in whatever case, with other words between them.
tampering_is_denied :
    find_denials (some (codes "please DISABLE the nasty Watchdog now") ∷ [])
    ≡ codes "enforcement tampering" ∷ []
unfolding find_denials denials_of hits_text rules search search_from match_here
tampering_is_denied = refl

-- The words of another sentence are not taken together, and `kills` is not the word `kill`.
sentences_are_apart :
    find_denials
      (some (codes "Stop it. My daemon kills") ∷ some (codes "kills the blocker") ∷ none ∷ [])
    ≡ []
unfolding find_denials denials_of hits_text rules search search_from match_here
sentences_are_apart = refl
