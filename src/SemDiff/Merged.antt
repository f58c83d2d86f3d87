-- ===== src/SemDiff/Merged.antt =====
-- The merging of a file's changes in semdiff.go, entity by entity.
use patchbin.Base.{
  ℕ, ◌≤◌, Str, Bool, true, false, ◌||◌, Option, none, some, List, [], ◌∷◌, ltb, str_eq, str_eq_iff,
  str_eq_comm, if◌then◌else◌, Bool-cases, inl, inr, ◌≡◌, refl, sym, ap, subst, ◌∙◌, arith,
}
use patchbin.SemDiff.{ChangeKind, SemanticChange}
use patchbin.SemDiff.Changes.{rank, key, merge_into, merge_onto, merge_changes_by_entity}
use patchbin.SemDiff.Entities.{
  lesser, rank_at, best_rank, or_first, hunk_at, first_hunk, has_key, DistinctKeys,
}

-- Two changes with one key are of one entity for every key.
same_key : (a b k : Str) → str_eq a b ≡ true → str_eq a k ≡ str_eq b k
same_key a b k h = ap (λ s. str_eq s k) ((str_eq_iff a b).0 h)

lesser_swap : (a b c : ℕ) → lesser a (lesser b c) ≡ lesser b (lesser a c)
lesser_swap a b c = ground arith

-- The better of two ranks of one entity counts, whichever it stands for.
lesser_merged :
    (mine : Bool) (new old others : ℕ)
    → lesser (if mine then (if ltb new old then new else old) else 4) others
      ≡ lesser (if mine then new else 4) (lesser (if mine then old else 4) others)
lesser_merged true new old others = ground arith
lesser_merged false new old others = ground arith

or_first-none : (o : Option ℕ) → or_first o none ≡ o
or_first-none none = refl
or_first-none (some n) = refl

or_first_assoc : (a b d : Option ℕ) → or_first a (or_first b d) ≡ or_first (or_first a b) d
or_first_assoc none b d = refl
or_first_assoc (some n) b d = refl

-- The entry of an entity once a further change of it is merged.
abbrev merged_entry : Bool → SemanticChange → SemanticChange → SemanticChange
merged_entry better c e =
    if better then record e { kind = c.kind; old_sig = c.old_sig; new_sig = c.new_sig } else e

rank_at-merged_entry :
    (k : Str) (better : Bool) (c e : SemanticChange)
    → rank_at k (merged_entry better c e)
      ≡ (if str_eq (key e) k then (if better then rank c.kind else rank e.kind) else 4)
rank_at-merged_entry k true c e = refl
rank_at-merged_entry k false c e = refl

hunk_at-merged_entry :
    (k : Str) (better : Bool) (c e : SemanticChange)
    → hunk_at k (merged_entry better c e) ≡ hunk_at k e
hunk_at-merged_entry k true c e = refl
hunk_at-merged_entry k false c e = refl

key-merged_entry : (better : Bool) (c e : SemanticChange) → key (merged_entry better c e) ≡ key e
key-merged_entry true c e = refl
key-merged_entry false c e = refl

module _ (k : Str) (c : SemanticChange) where
  best_rank-merge_into :
      (cs : List SemanticChange)
      → best_rank k (merge_into c cs) ≡ lesser (rank_at k c) (best_rank k cs)
  unfolding best_rank merge_into
  best_rank-merge_into [] = refl
  best_rank-merge_into (e ∷ es) = elim (Bool-cases (str_eq (key e) (key c))) [
    | inl h ↦ rw h (
        ap (λ r. lesser r (best_rank k es))
          (rank_at-merged_entry k (ltb (rank c.kind) (rank e.kind)) c e)
        ∙ lesser_merged (str_eq (key e) k) (rank c.kind) (rank e.kind) (best_rank k es)
        ∙ ap (λ b. lesser (if b then rank c.kind else 4) (lesser (rank_at k e) (best_rank k es)))
            (same_key (key e) (key c) k h))
    | inr h ↦ rw h (
        ap (lesser (rank_at k e)) (best_rank-merge_into es)
        ∙ lesser_swap (rank_at k e) (rank_at k c) (best_rank k es))
  ]

  first_hunk-merge_into :
      (cs : List SemanticChange)
      → first_hunk k (merge_into c cs) ≡ or_first (first_hunk k cs) (hunk_at k c)
  unfolding first_hunk merge_into
  first_hunk-merge_into [] = or_first-none (hunk_at k c)
  first_hunk-merge_into (e ∷ es) = elim (Bool-cases (str_eq (key e) (key c))) [
    | inl h ↦ rw h (
        ap (λ o. or_first o (first_hunk k es))
          (hunk_at-merged_entry k (ltb (rank c.kind) (rank e.kind)) c e)
        ∙ taken_first (str_eq (key e) k) (str_eq (key c) k) (same_key (key e) (key c) k h)
            (first_hunk k es))
    | inr h ↦ rw h (
        ap (or_first (hunk_at k e)) (first_hunk-merge_into es)
        ∙ or_first_assoc (hunk_at k e) (first_hunk k es) (hunk_at k c))
  ]
    where
      taken_first :
          (mine yours : Bool)
          → mine ≡ yours
          → (o : Option ℕ)
          → or_first (if mine then some e.hunk_index else none) o
            ≡ or_first
                (or_first (if mine then some e.hunk_index else none) o)
                (if yours then some c.hunk_index else none)
      taken_first true yours same none = refl
      taken_first true yours same (some n) = refl
      taken_first false true same o = absurd (cc same)
      taken_first false false same none = refl
      taken_first false false same (some n) = refl

  has_key-merge_into :
      (cs : List SemanticChange) → has_key k (merge_into c cs) ≡ (has_key k cs || str_eq (key c) k)
  unfolding merge_into
  has_key-merge_into [] = ground arith
  has_key-merge_into (e ∷ es) = elim (Bool-cases (str_eq (key e) (key c))) [
    | inl h ↦ rw h (
        ap (λ s. str_eq s k || has_key k es)
          (key-merged_entry (ltb (rank c.kind) (rank e.kind)) c e)
        ∙ ground (arith, same_key (key e) (key c) k h))
    | inr h ↦ rw h (ground (arith, has_key-merge_into es))
  ]

module _ (k : Str) where
  rank_le : (kind : ChangeKind) → rank kind ≤ 4
  rank_le ChangeKind.signature_changed = omega arith
  rank_le ChangeKind.renamed = omega arith
  rank_le ChangeKind.added = omega arith
  rank_le ChangeKind.removed = omega arith
  rank_le ChangeKind.modified = omega arith

  best_rank_le : (es : List SemanticChange) → best_rank k es ≤ 4
  unfolding best_rank
  best_rank_le [] = omega arith
  best_rank_le (e ∷ es) = ground (arith, best_rank_le es, rank_le e.kind)

  best_rank-merge_onto :
      (cs merged : List SemanticChange)
      → best_rank k (merge_onto merged cs) ≡ lesser (best_rank k cs) (best_rank k merged)
  unfolding best_rank merge_onto
  best_rank-merge_onto [] merged = ground (arith, best_rank_le merged)
  best_rank-merge_onto (c ∷ cs) merged =
      best_rank-merge_onto cs (merge_into c merged)
      ∙ ap (lesser (best_rank k cs)) (best_rank-merge_into k c merged)
      ∙ ground arith

  has_key-merge_onto :
      (cs merged : List SemanticChange)
      → has_key k (merge_onto merged cs) ≡ (has_key k merged || has_key k cs)
  unfolding merge_onto
  has_key-merge_onto [] merged = ground arith
  has_key-merge_onto (c ∷ cs) merged =
      has_key-merge_onto cs (merge_into c merged) ∙ ground (arith, has_key-merge_into k c merged)

  -- Merging loses no entity and makes up none.
  pub has_key-merge_changes_by_entity :
      (cs : List SemanticChange) → has_key k (merge_changes_by_entity cs) ≡ has_key k cs
  unfolding merge_changes_by_entity
  has_key-merge_changes_by_entity cs = has_key-merge_onto cs []

  first_hunk-merge_onto :
      (cs merged : List SemanticChange)
      → first_hunk k (merge_onto merged cs) ≡ or_first (first_hunk k merged) (first_hunk k cs)
  unfolding first_hunk merge_onto
  first_hunk-merge_onto [] merged = sym (or_first-none (first_hunk k merged))
  first_hunk-merge_onto (c ∷ cs) merged =
      first_hunk-merge_onto cs (merge_into c merged)
      ∙ ap (λ o. or_first o (first_hunk k cs)) (first_hunk-merge_into k c merged)
      ∙ sym (or_first_assoc (first_hunk k merged) (hunk_at k c) (first_hunk k cs))

merge_into-DistinctKeys :
    (c : SemanticChange) (cs : List SemanticChange)
    → DistinctKeys cs
    → DistinctKeys (merge_into c cs)
unfolding merge_into
merge_into-DistinctKeys c [] distinct = (refl, tt)
merge_into-DistinctKeys c (e ∷ es) (new, distinct) = elim (Bool-cases (str_eq (key e) (key c))) [
  | inl h ↦ rw h (
    subst (λ s. has_key s es ≡ false) (sym (key-merged_entry (ltb (rank c.kind) (rank e.kind)) c e))
        new,
    distinct,
  )
  | inr h ↦ rw h (
    ground (arith, has_key-merge_into (key e) c es, str_eq_comm (key c) (key e)),
    merge_into-DistinctKeys c es distinct,
  )
]

merge_onto-DistinctKeys :
    (cs merged : List SemanticChange) → DistinctKeys merged → DistinctKeys (merge_onto merged cs)
unfolding merge_onto
merge_onto-DistinctKeys [] merged distinct = distinct
merge_onto-DistinctKeys (c ∷ cs) merged distinct =
    merge_onto-DistinctKeys cs (merge_into c merged) (merge_into-DistinctKeys c merged distinct)

-- Whatever the changes of a file are: the merged list has one change per entity (kind and name); an
-- entity has one exactly with the most specific kind that any of its changes had, and it points at
-- the hunk of its first change.
pub merge_changes_by_entity-DistinctKeys :
    (cs : List SemanticChange)
    → DistinctKeys (merge_changes_by_entity cs)
      × ((k : Str)
          → (best_rank k (merge_changes_by_entity cs) ≡ best_rank k cs)
            × (first_hunk k (merge_changes_by_entity cs) ≡ first_hunk k cs))
unfolding merge_changes_by_entity best_rank first_hunk
merge_changes_by_entity-DistinctKeys cs = (
  merge_onto-DistinctKeys cs [] tt,
  λ k. (
    best_rank-merge_onto k cs [] ∙ ground (arith, best_rank_le k cs),
    first_hunk-merge_onto k cs [],
  ),
)
