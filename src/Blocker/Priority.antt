-- ===== src/Blocker/Priority.antt =====
-- Attributes of a block as `_raw_attr` reads them from an API dict or an ORM row, and the priority
-- bands (daemon/blocker.py).
use hypr_blocker.Base.{ℕ, zero, suc, Bool, not, Option, none, some, List, [], if◌then◌else◌, keep}
use hypr_blocker.Base.Int.{ℤ}
use hypr_blocker.Base.Text.{Text, codes, text_eq, lower, strip}
use hypr_blocker.Blocker.Url.{parse_rules_from_text}

-- The attribute names that the module asks for.
pub data Key : Type 0 where
  name_key priority_key : Key
  blocked websites_blocked media_blocked websites_media_blocked allowed websites_allowed : Key

-- The value of an attribute: `_MISSING`, `None`, or a Python value. A list stands with `str` already
-- applied to its items.
pub data Raw : Type 0 where
  missing null : Raw
  flag : Bool → Raw
  number : ℤ → Raw
  text : Text → Raw
  items : List Text → Raw

-- A dict or a row, as the function that `_raw_attr` makes of it.
abbrev pub Block : Type 0
Block = Key → Raw

pub data Priority : Type 0 where
  low medium high : Priority

from_rank : ℕ → Option Priority
from_rank zero = some low
from_rank (suc zero) = some medium
from_rank (suc (suc zero)) = some high
from_rank _ = none

priority_word : Text → Option Priority
priority_word key =
    if text_eq key (codes "low")
    then some low
    else if text_eq key (codes "medium")
    then some medium
    else if text_eq key (codes "high")
    then some high
    else if text_eq key (codes "0")
    then some low
    else if text_eq key (codes "1")
    then some medium
    else if text_eq key (codes "2")
    then some high
    else none

-- `none` stands for the ValueError.
unfoldable pub coerce_priority : Raw → Option Priority
unfolding priority_word from_rank
coerce_priority (number (ℤ.pos n)) = from_rank n
coerce_priority (text t) = priority_word (lower (strip t))
coerce_priority _ = none

unfoldable pub priority_label : Raw → Priority
unfolding coerce_priority
priority_label value = elim (coerce_priority value) [ none ↦ low | some p ↦ p ]

abbrev pub rank : Priority → ℕ
rank low = 0
rank medium = 1
rank high = 2

unfoldable pub priority_rank : Raw → ℕ
unfolding priority_label
priority_rank value = rank (priority_label value)

-- `_as_patterns`.
unfoldable pub as_patterns : Raw → List Text
unfolding parse_rules_from_text
as_patterns (items l) = keep (λ t. not (text_eq (strip t) [])) l
as_patterns (text t) = parse_rules_from_text (some t)
as_patterns _ = []

-- `_patterns_from` over a pair of keys: the first that is there and is not `None`.
unfoldable pub patterns_from : Block → Key × Key → List Text
unfolding as_patterns
patterns_from block (first, second) = elim (block first) [
  | missing ↦ as_patterns (block second)
  | null ↦ as_patterns (block second)
  | v ↦ as_patterns v
]
