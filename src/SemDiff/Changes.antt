-- ===== src/SemDiff/Changes.antt =====
-- The changes of one file: those of each hunk, merged by the entity that they concern, and the summary
-- of a patch.
use patchbin.Base.{
  ℕ, zero, suc, ◌+◌, Str, Bool, true, false, not, ◌&&◌, ◌||◌, Option, none, some, List, [], ◌∷◌,
  ◌++◌, codes, ◌==◌, ltb, str_eq, any_row, first_row, if◌then◌else◌,
}
use patchbin.Base.Number.{format}
use patchbin.Mbox.{Fragment, File}
use patchbin.SemDiff.{
  ChangeKind, SemanticEntity, SemanticChange, Language, Grammar, language_for_file, fragment_sides,
  extract_entities,
}
use patchbin.SemDiff.Comment.{enclosing_name}

abbrev has_name : Str → Str × SemanticEntity → Bool
has_name name (n, _) = str_eq n name

-- A map from names to entities: the last entity of a name stays.
unfoldable pub by_name : List SemanticEntity → List (Str × SemanticEntity)
by_name [] = []
by_name (e ∷ es) =
    let rest = by_name es in if any_row (has_name e.name) rest then rest else ((e.name, e) ∷ rest)

abbrev pub change : ChangeKind → Str → Str → Str → Str → ℕ → SemanticChange
change kind entity_kind name old_sig new_sig hunk = record {
  kind = kind;
  entity_kind = entity_kind;
  name = name;
  old_sig = old_sig;
  new_sig = new_sig;
  hunk_index = hunk;
  hunk_anchor = [];
}

-- What happened to an entity that the new side has.
abbrev pub new_entity_changes :
    ℕ → Str → SemanticEntity → Option (Str × SemanticEntity) → List SemanticChange
new_entity_changes hunk name new none =
    change ChangeKind.added new.kind name [] new.signature hunk ∷ []
new_entity_changes hunk name new (some (_, old)) =
    if str_eq old.body_hash new.body_hash
    then []
    else (change
          (if str_eq old.signature new.signature
            then ChangeKind.modified
            else ChangeKind.signature_changed)
          new.kind name old.signature new.signature hunk
        ∷ [])

unfoldable pub added_or_changed :
    ℕ → List (Str × SemanticEntity) → List (Str × SemanticEntity) → List SemanticChange
added_or_changed hunk olds [] = []
added_or_changed hunk olds ((name, new) ∷ news) =
    new_entity_changes hunk name new (first_row (has_name name) olds)
    ++ added_or_changed hunk olds news

unfoldable pub removed_changes :
    ℕ → List (Str × SemanticEntity) → List (Str × SemanticEntity) → List SemanticChange
removed_changes hunk news [] = []
removed_changes hunk news ((name, old) ∷ olds) =
    let rest = removed_changes hunk news olds in
    if any_row (has_name name) news
    then rest
    else (change ChangeKind.removed old.kind name old.signature [] hunk ∷ rest)

unfoldable pub is_edited : Fragment → Bool
is_edited f = not (f.lines_added == 0 && f.lines_deleted == 0)

abbrev pub one_modified : ℕ → Str × Str → List SemanticChange
one_modified hunk (kind, name) = change ChangeKind.modified kind name [] [] hunk ∷ []

unfoldable pub enclosing_change_from_comment : Language → Fragment → ℕ → List SemanticChange
unfolding is_edited
enclosing_change_from_comment l f hunk =
    if str_eq f.comment [] || not (is_edited f)
    then []
    else elim (enclosing_name l f.comment) [ none ↦ [] | some found ↦ one_modified hunk found ]

-- `n - 1` as it is printed; the numbers of a hunk are not negative.
abbrev pub print_pred : ℕ → Str
print_pred zero = codes "-1"
print_pred (suc n) = format n

unfoldable pub chunk_name : Fragment → Str
chunk_name f =
    codes "lines "
    ++ (format f.new_position ++ (codes "-" ++ print_pred (f.new_position + f.new_lines)))

unfoldable pub generic_chunk_change : Fragment → ℕ → List SemanticChange
unfolding is_edited chunk_name
generic_chunk_change f hunk =
    if is_edited f then one_modified hunk (codes "chunk", chunk_name f) else []

-- The first list that is not empty.
abbrev pub or_else : List SemanticChange → List SemanticChange → List SemanticChange
or_else [] next = next
or_else (c ∷ cs) next = c ∷ cs

-- Ranks of `semanticChangeKindRank`
abbrev pub rank : ChangeKind → ℕ
rank ChangeKind.signature_changed = 0
rank ChangeKind.renamed = 1
rank ChangeKind.added = 2
rank ChangeKind.removed = 2
rank ChangeKind.modified = 3

abbrev pub key : SemanticChange → Str
key c = c.entity_kind ++ (0 ∷ c.name)

-- One round of the loop: `merged` in the order of `order`.
unfoldable pub merge_into : SemanticChange → List SemanticChange → List SemanticChange
merge_into c [] = c ∷ []
merge_into c (e ∷ es) =
    let rest = merge_into c es in
    if str_eq (key e) (key c)
    then (if ltb (rank c.kind) (rank e.kind)
        then record e { kind = c.kind; old_sig = c.old_sig; new_sig = c.new_sig }
        else e)
      ∷ es
    else (e ∷ rest)

unfoldable pub merge_onto : List SemanticChange → List SemanticChange → List SemanticChange
unfolding merge_into
merge_onto merged [] = merged
merge_onto merged (c ∷ cs) = merge_onto (merge_into c merged) cs

unfoldable pub merge_changes_by_entity : List SemanticChange → List SemanticChange
unfolding merge_onto
merge_changes_by_entity cs = merge_onto [] cs

module _ (grammar : Grammar) where
  unfoldable pub diff_entities : List SemanticEntity → List SemanticEntity → ℕ → List SemanticChange
  unfolding by_name added_or_changed removed_changes
  diff_entities olds news hunk =
      added_or_changed hunk (by_name olds) (grammar.iterate (by_name news))
      ++ removed_changes hunk (by_name news) (grammar.iterate (by_name olds))

  -- The changes of the hunk at an index.
  unfoldable pub hunk_changes : Language → ℕ → Fragment → List SemanticChange
  unfolding diff_entities enclosing_change_from_comment generic_chunk_change
  hunk_changes l hunk f =
      let (old_text, new_text) = fragment_sides f.lines in
      or_else
        (diff_entities (extract_entities grammar l old_text) (extract_entities grammar l new_text)
          hunk)
        (or_else (enclosing_change_from_comment l f hunk) (generic_chunk_change f hunk))

  unfoldable pub changes_from : Language → ℕ → List Fragment → List SemanticChange
  unfolding hunk_changes
  changes_from l hunk [] = []
  changes_from l hunk (f ∷ fs) = hunk_changes l hunk f ++ changes_from l (suc hunk) fs

  abbrev pub analyzed_name : File → Str
  analyzed_name f = if str_eq f.new_name [] then f.old_name else f.new_name

  abbrev pub changes_in : File → Option Language → List SemanticChange
  changes_in f none = []
  changes_in f (some l) =
      if f.is_binary || not (grammar.compiles l)
      then []
      else merge_changes_by_entity (changes_from l 0 f.fragments)

  unfoldable pub analyze_semantic_changes : File → List SemanticChange
  unfolding changes_from merge_changes_by_entity
  analyze_semantic_changes f = changes_in f (language_for_file (analyzed_name f))

pub record SemanticSummary : Type 0 where
  pub added : ℕ
  pub modified : ℕ
  pub signature_changed : ℕ
  pub removed : ℕ
  pub analyzed_file_count : ℕ
  pub skipped_files : List Str

unfoldable pub has_content : SemanticSummary → Bool
has_content s = ltb 0 s.analyzed_file_count || any_row (λ (f : Str). true) s.skipped_files

unfoldable pub total : SemanticSummary → ℕ
total s = s.added + s.modified + s.signature_changed + s.removed

unfoldable pub count_change : ChangeKind → SemanticSummary → SemanticSummary
count_change ChangeKind.added s = record s { added = s.added + 1 }
count_change ChangeKind.removed s = record s { removed = s.removed + 1 }
count_change ChangeKind.signature_changed s = record s {
  signature_changed = s.signature_changed + 1;
}
count_change ChangeKind.modified s = record s { modified = s.modified + 1 }
count_change ChangeKind.renamed s = record s { modified = s.modified + 1 }

unfoldable pub count_changes : List SemanticChange → SemanticSummary → SemanticSummary
unfolding count_change
count_changes [] s = s
count_changes (c ∷ cs) s = count_changes cs (count_change c.kind s)

unfoldable pub summarize_semantic_changes :
    SemanticSummary → Str → Bool → List SemanticChange → SemanticSummary
unfolding count_changes
summarize_semantic_changes s name false cs = record s {
  skipped_files = s.skipped_files ++ (name ∷ []);
}
summarize_semantic_changes s name true cs =
    count_changes cs (record s { analyzed_file_count = s.analyzed_file_count + 1 })
