-- ===== src/SemDiff/Reported.antt =====
-- The hunks of a file in its summary, and the counts of a summary, of semdiff.go.
use patchbin.Base.{
  ℕ, suc, ◌+◌, Str, Bool, true, false, ◌||◌, some, List, [], ◌∷◌, ◌++◌, str_eq_refl, ltb, length,
  if◌then◌else◌, ◌≡◌, ◌≢◌, refl, sym, ap, subst, ◌∙◌, codes, append-nil, any_row, where_rows, arith,
}
use patchbin.Mbox.{Fragment, File}
use patchbin.SemDiff.{SemanticChange, ChangeKind, Language, Grammar, language_for_file}
use patchbin.SemDiff.Changes.{
  key, is_edited, or_else, one_modified, enclosing_change_from_comment, generic_chunk_change,
  chunk_name, hunk_changes, changes_from, analyzed_name, analyze_semantic_changes, SemanticSummary,
  count_change, count_changes, has_content, summarize_semantic_changes,
}
use patchbin.SemDiff.Entities.{has_key}
use patchbin.SemDiff.Merged.{has_key-merge_changes_by_entity}

or_else-not_nil : (cs ds : List SemanticChange) → ds ≢ [] → or_else cs ds ≢ []
or_else-not_nil [] ds h same = h same
or_else-not_nil (c ∷ cs) ds h same = absurd (cc same)

has_key-append_left :
    (k : Str) (cs ds : List SemanticChange) → has_key k cs ≡ true → has_key k (cs ++ ds) ≡ true
has_key-append_left k [] ds h = absurd (cc h)
has_key-append_left k (c ∷ cs) ds h = ground (arith, has_key-append_left k cs ds)

has_key-append_right :
    (k : Str) (cs ds : List SemanticChange) → has_key k ds ≡ true → has_key k (cs ++ ds) ≡ true
has_key-append_right k [] ds h = h
has_key-append_right k (c ∷ cs) ds h = ground (arith, has_key-append_right k cs ds h)

-- The entity of the first change.
abbrev key_of : List SemanticChange → Str
key_of [] = []
key_of (c ∷ cs) = key c

has_key-key_of : (cs : List SemanticChange) → cs ≢ [] → has_key (key_of cs) cs ≡ true
has_key-key_of [] h = absurd (h refl)
has_key-key_of (c ∷ cs) h = ground (arith, str_eq_refl (key c))

generic_chunk_change-edited :
    (f : Fragment) (hunk : ℕ) → is_edited f ≡ true → generic_chunk_change f hunk ≢ []
unfolding generic_chunk_change
generic_chunk_change-edited f hunk edited same =
    absurd (
      cc (same, ap (λ b. if b then one_modified hunk (codes "chunk", chunk_name f) else []) edited))

module _ (grammar : Grammar) (l : Language) where
  hunk_changes-edited :
      (hunk : ℕ) (f : Fragment) → is_edited f ≡ true → hunk_changes grammar l hunk f ≢ []
  unfolding hunk_changes
  hunk_changes-edited hunk f edited = or_else-not_nil _ _ (
      or_else-not_nil (enclosing_change_from_comment l f hunk) _
        (generic_chunk_change-edited f hunk edited))

  has_key-changes_from :
      (k : Str) (i : ℕ) (before after : List Fragment) (f : Fragment)
      → has_key k (hunk_changes grammar l (length before + i) f) ≡ true
      → has_key k (changes_from grammar l i (before ++ f ∷ after)) ≡ true
  unfolding changes_from
  has_key-changes_from k i [] after f h =
      has_key-append_left k (hunk_changes grammar l i f) _
        (subst (λ n. has_key k (hunk_changes grammar l n f) ≡ true) (omega arith) h)
  has_key-changes_from k i (g ∷ before) after f h =
      has_key-append_right k (hunk_changes grammar l i g) _ (
        has_key-changes_from k (suc i) before after f
          (subst (λ n. has_key k (hunk_changes grammar l n f) ≡ true) (omega arith) h))

-- In a text file of a language with a grammar, every hunk that adds or deletes a line is in the
-- summary: an entity of the hunk's own changes has an entry.
pub analyze_semantic_changes-IsComplete :
    (grammar : Grammar) (file : File) (l : Language) (before after : List Fragment)
    (hunk : Fragment)
    → language_for_file (analyzed_name grammar file) ≡ some l
    → file.is_binary ≡ false
    → grammar.compiles l ≡ true
    → file.fragments ≡ before ++ hunk ∷ after
    → is_edited hunk ≡ true
    → (k : Str) × (has_key k (hunk_changes grammar l (length before) hunk) ≡ true)
      × (has_key k (analyze_semantic_changes grammar file) ≡ true)
unfolding analyze_semantic_changes
analyze_semantic_changes-IsComplete grammar file l before after hunk known text compiles at edited =
    let cs = hunk_changes grammar l (length before) hunk in
    let mine = has_key-key_of cs (hunk_changes-edited grammar l (length before) hunk edited) in
    (
      key_of cs,
      mine,
      rw (known, text, compiles, at)
          (has_key-merge_changes_by_entity (key_of cs)
              (changes_from grammar l 0 (before ++ hunk ∷ after))
            ∙ has_key-changes_from grammar l (key_of cs) 0 before after hunk (
                subst (λ n. has_key (key_of cs) (hunk_changes grammar l n hunk) ≡ true)
                  (omega arith) mine)),
    )

-- How many changes are of a kind, or of one of two.
abbrev pub count_of : (ChangeKind → Bool) → List SemanticChange → ℕ
count_of is_kind cs = length (where_rows (λ c. is_kind c.kind) cs)

abbrev pub is_added : ChangeKind → Bool
is_added kind = elim kind [ ChangeKind.added ↦ true | _ ↦ false ]

abbrev pub is_removed : ChangeKind → Bool
is_removed kind = elim kind [ ChangeKind.removed ↦ true | _ ↦ false ]

abbrev pub is_signature : ChangeKind → Bool
is_signature kind = elim kind [ ChangeKind.signature_changed ↦ true | _ ↦ false ]

abbrev pub is_modified : ChangeKind → Bool
is_modified kind = elim kind [ ChangeKind.modified ↦ true | ChangeKind.renamed ↦ true | _ ↦ false ]

-- `s` with the changes of `cs` counted.
abbrev pub IsCounted : SemanticSummary → List SemanticChange → SemanticSummary → Type 0
IsCounted s cs s' =
    (s'.added ≡ s.added + count_of is_added cs)
    × (s'.removed ≡ s.removed + count_of is_removed cs)
    × (s'.signature_changed ≡ s.signature_changed + count_of is_signature cs)
    × (s'.modified ≡ s.modified + count_of is_modified cs)

-- The number of changes of one of them.
abbrev one_of : (ChangeKind → Bool) → ChangeKind → ℕ
one_of is_kind kind = if is_kind kind then 1 else 0

count_of-cons :
    (is_kind : ChangeKind → Bool) (c : SemanticChange) (cs : List SemanticChange)
    → count_of is_kind (c ∷ cs) ≡ one_of is_kind c.kind + count_of is_kind cs
count_of-cons is_kind c cs = ground arith

count_change-one :
    (kind : ChangeKind) (s : SemanticSummary)
    → ((count_change kind s).added ≡ s.added + one_of is_added kind)
      × ((count_change kind s).removed ≡ s.removed + one_of is_removed kind)
      × ((count_change kind s).signature_changed ≡ s.signature_changed + one_of is_signature kind)
      × ((count_change kind s).modified ≡ s.modified + one_of is_modified kind)
      × ((count_change kind s).analyzed_file_count ≡ s.analyzed_file_count)
      × ((count_change kind s).skipped_files ≡ s.skipped_files)
unfolding count_change
count_change-one ChangeKind.added s = (refl, omega arith, omega arith, omega arith, refl, refl)
count_change-one ChangeKind.removed s = (omega arith, refl, omega arith, omega arith, refl, refl)
count_change-one ChangeKind.signature_changed s =
    (omega arith, omega arith, refl, omega arith, refl, refl)
count_change-one ChangeKind.modified s = (omega arith, omega arith, omega arith, refl, refl, refl)
count_change-one ChangeKind.renamed s = (omega arith, omega arith, omega arith, refl, refl, refl)

count_changes-IsCounted :
    (cs : List SemanticChange) (s : SemanticSummary)
    → IsCounted s cs (count_changes cs s)
      × ((count_changes cs s).analyzed_file_count ≡ s.analyzed_file_count)
      × ((count_changes cs s).skipped_files ≡ s.skipped_files)
unfolding count_changes
count_changes-IsCounted [] s = ((omega arith, omega arith, omega arith, omega arith), refl, refl)
count_changes-IsCounted (c ∷ cs) s =
    let ((added, removed, signature, modified), files, skipped) =
      count_changes-IsCounted cs (count_change c.kind s) in
    let (added', removed', signature', modified', files', skipped') = count_change-one c.kind s in
    (
      (
        omega (arith, added, added', count_of-cons is_added c cs),
        omega (arith, removed, removed', count_of-cons is_removed c cs),
        omega (arith, signature, signature', count_of-cons is_signature c cs),
        omega (arith, modified, modified', count_of-cons is_modified c cs),
      ),
      files ∙ files',
      skipped ∙ skipped',
    )

-- Adding a file to a summary: of a supported one, each of the four counters grows by the number of the
-- file's changes of its kind (a renaming counts as a modification), and the files by one; another
-- file is named among the skipped ones and counts nothing. In both cases the summary has something
-- to show.
pub summarize_semantic_changes-IsCounted :
    (s : SemanticSummary) (name : Str) (supported : Bool) (cs : List SemanticChange)
    → IsCounted s (if supported then cs else []) (summarize_semantic_changes s name supported cs)
      × ((summarize_semantic_changes s name supported cs).analyzed_file_count
          ≡ s.analyzed_file_count + (if supported then 1 else 0))
      × ((summarize_semantic_changes s name supported cs).skipped_files
          ≡ s.skipped_files ++ (if supported then [] else (name ∷ [])))
      × (has_content (summarize_semantic_changes s name supported cs) ≡ true)
unfolding summarize_semantic_changes has_content
summarize_semantic_changes-IsCounted s name true cs =
    let (counts, files, skipped) =
      count_changes-IsCounted cs (record s { analyzed_file_count = s.analyzed_file_count + 1 }) in
    (counts, files, skipped ∙ sym (append-nil s.skipped_files), ground (arith, files))
summarize_semantic_changes-IsCounted s name false cs = (
  (omega arith, omega arith, omega arith, omega arith),
  omega arith,
  refl,
  has_name s.skipped_files,
)
  where
    has_name :
        (names : List Str)
        → (ltb 0 s.analyzed_file_count || any_row (λ (f : Str). true) (names ++ name ∷ [])) ≡ true
    has_name [] = ground arith
    has_name (n ∷ names) = ground arith
