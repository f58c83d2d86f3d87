-- ===== src/SemDiff/Entities.antt =====
-- What a list of changes says of each entity: its most specific kind and its first hunk.
use patchbin.Base.{
  ℕ, Str, Bool, false, Option, none, some, List, [], ◌∷◌, ltb, str_eq, any_row, if◌then◌else◌, ◌≡◌,
}
use patchbin.SemDiff.{SemanticChange}
use patchbin.SemDiff.Changes.{rank, key}

abbrev pub lesser : ℕ → ℕ → ℕ
lesser a b = if ltb a b then a else b

-- The rank of a change as one of the entity with the key `k`: 4, below all, for another entity.
abbrev pub rank_at : Str → SemanticChange → ℕ
rank_at k c = if str_eq (key c) k then rank c.kind else 4

-- The least rank of an entity's changes, 4 if it has none.
unfoldable pub best_rank : Str → List SemanticChange → ℕ
best_rank k [] = 4
best_rank k (c ∷ cs) = lesser (rank_at k c) (best_rank k cs)

abbrev pub or_first : Option ℕ → Option ℕ → Option ℕ
or_first none later = later
or_first (some n) later = some n

abbrev pub hunk_at : Str → SemanticChange → Option ℕ
hunk_at k c = if str_eq (key c) k then some c.hunk_index else none

-- The hunk of an entity's first change.
unfoldable pub first_hunk : Str → List SemanticChange → Option ℕ
first_hunk k [] = none
first_hunk k (c ∷ cs) = or_first (hunk_at k c) (first_hunk k cs)

abbrev pub has_key : Str → List SemanticChange → Bool
has_key k = any_row (λ c. str_eq (key c) k)

-- No entity occurs twice.
abbrev pub DistinctKeys : List SemanticChange → Type 0
DistinctKeys [] = Unit
DistinctKeys (c ∷ cs) = (has_key (key c) cs ≡ false) × DistinctKeys cs
