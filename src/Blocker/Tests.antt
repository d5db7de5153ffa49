-- ===== src/Blocker/Tests.antt =====
-- Instances of the properties of the URL evaluation, and runs of its definitions.
use hypr_blocker.Base.{◌≡◌, refl, ◌↔◌, true, false, [], ◌∷◌, Any}
use hypr_blocker.Base.Int.{pos}
use hypr_blocker.Base.Text.{Text, codes}
use hypr_blocker.Blocker.Url.{
  is_catch_all_pattern, is_protected_url, catch_all_matches, url_matches_pattern,
}
use hypr_blocker.Blocker.Priority.{
  patterns_from, priority_rank, name_key, priority_key, blocked, websites_blocked, allowed, missing,
  number, text, items, Block,
}
use hypr_blocker.Blocker.Evaluate.{allows, block_rank, evaluate_url_against_blocks, blocks_it}
use hypr_blocker.Blocker.Bands.{Vetoes, evaluate_iff_veto}

-- A block of low priority that names reddit.com.
abbrev leisure : Block
leisure name_key = text (codes "leisure")
leisure priority_key = text (codes " Low ")
leisure blocked = text (codes "reddit.com")
leisure _ = missing

-- A block of high priority that names reddit.com but allows one board of it.
abbrev work : Block
work priority_key = number (pos 2)
work websites_blocked = items (codes "reddit.com" ∷ [])
work allowed = items (codes "reddit.com/r/agda" ∷ [])
work _ = missing

abbrev board : Text
board = codes "https://reddit.com/r/agda"

evaluate_iff_veto_example :
    (blocks_it (evaluate_url_against_blocks board (leisure ∷ work ∷ []) websites_blocked) ≡ true)
    ↔ ((is_protected_url board ≡ false)
        × Any
            (Vetoes board (blocked, websites_blocked) (leisure ∷ work ∷ []))
            (leisure ∷ work ∷ []))
evaluate_iff_veto_example =
    evaluate_iff_veto board (leisure ∷ work ∷ []) websites_blocked (blocked, websites_blocked) refl

-- The allow list of the higher priority wins over the block of the lower.
higher_priority_allows :
    blocks_it (evaluate_url_against_blocks board (leisure ∷ work ∷ []) blocked) ≡ false
unfolding evaluate_url_against_blocks is_protected_url patterns_from url_matches_pattern block_rank
    priority_rank allows
higher_priority_allows = refl

lower_priority_alone : blocks_it (evaluate_url_against_blocks board (leisure ∷ []) blocked) ≡ true
unfolding evaluate_url_against_blocks is_protected_url patterns_from url_matches_pattern block_rank
    priority_rank allows
lower_priority_alone = refl

other_board_is_blocked :
    blocks_it
      (evaluate_url_against_blocks (codes "https://reddit.com/r/all") (leisure ∷ work ∷ []) blocked)
    ≡ true
unfolding evaluate_url_against_blocks is_protected_url patterns_from url_matches_pattern block_rank
    priority_rank allows
other_board_is_blocked = refl

reddit_not_all : is_catch_all_pattern (codes "reddit.com") ≡ false
unfolding is_catch_all_pattern
reddit_not_all = refl

no_scheme_and_empty_text :
    (is_protected_url (codes "") ≡ true)
    × (is_protected_url (codes "about:config") ≡ true)
    × (is_protected_url (codes "http://[::1]:8000/") ≡ true)
    × (catch_all_matches (codes "ftp://a.b") ≡ false)
unfolding is_protected_url catch_all_matches
no_scheme_and_empty_text = (refl, refl, refl, refl)

-- A domain pattern does not look through a query that follows the host at once.
query_at_once : url_matches_pattern (codes "https://reddit.com?x=1") (codes "reddit.com") ≡ false
unfolding url_matches_pattern
query_at_once = refl
