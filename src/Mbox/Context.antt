-- ===== src/Mbox/Context.antt =====
-- What the digest of a patch depends on: not where its changes stand, and not what is around them.
use patchbin.Base.{
  Bool, true, false, List, [], ◌∷◌, ◌++◌, map, where_rows, if◌then◌else◌, All, ◌≡◌, refl, ap,
}
use patchbin.Mbox.{
  LineOp, Line, Fragment, File, PatchHeader, Tools, line_content, lines_content, fragments_content,
  file_content, files_content, file_has_base, calc_content_sha, name_of, email_of, newline,
}

-- Is the line added or deleted?
abbrev pub is_change : Line → Bool
is_change l = elim l.op [
  | LineOp.op_context ↦ false
  | LineOp.op_delete ↦ true
  | LineOp.op_add ↦ true
]

-- A fragment without its place and its context, and a file of such fragments.
abbrev pub bare_fragment : Fragment → Fragment
bare_fragment f = record f {
  comment = [];
  old_position = 0;
  old_lines = 0;
  new_position = 0;
  new_lines = 0;
  lines = where_rows is_change f.lines;
}

abbrev pub bare_file : File → File
bare_file f = record f { fragments = map bare_fragment f.fragments }

module _ (tools : Tools) where
  lines_content-changes :
      (ls : List Line) → lines_content tools (where_rows is_change ls) ≡ lines_content tools ls
  unfolding lines_content line_content
  lines_content-changes [] = refl
  lines_content-changes (l ∷ ls) = go l.op (lines_content-changes ls)
    where
      go :
          (op : LineOp)
          → lines_content tools (where_rows is_change ls) ≡ lines_content tools ls
          → lines_content tools (where_rows is_change (record l { op = op } ∷ ls))
            ≡ lines_content tools (record l { op = op } ∷ ls)
      go LineOp.op_context same = same
      go LineOp.op_delete same =
          ap (λ s. line_content tools (record l { op = LineOp.op_delete }) ++ s) same
      go LineOp.op_add same =
          ap (λ s. line_content tools (record l { op = LineOp.op_add }) ++ s) same

  fragments_content-bare :
      (fs : List Fragment)
      → fragments_content tools (map bare_fragment fs) ≡ fragments_content tools fs
  unfolding fragments_content
  fragments_content-bare [] = refl
  fragments_content-bare (f ∷ fs) =
      λ i. lines_content-changes f.lines i ++ fragments_content-bare fs i

  file_content-bare : (f : File) → file_content tools (bare_file f) ≡ file_content tools f
  unfolding file_content
  file_content-bare f = rw (fragments_content-bare f.fragments) refl

  files_content-bare :
      (files : List File)
      → All (λ f. file_has_base (bare_file f) ≡ file_has_base f) files
      → files_content tools (map bare_file files) ≡ files_content tools files
  unfolding files_content
  files_content-bare [] h = refl
  files_content-bare (f ∷ files) (same, h) =
      λ i. (if same i then [] else file_content-bare f i) ++ files_content-bare files h i

  -- Leaving the positions, the comments and the context lines out of a patch's fragments does not
  -- change its digest, if no file names a base commit in a context line alone.
  pub calc_content_sha-bare :
      (files : List File) (header : PatchHeader)
      → All (λ f. file_has_base (bare_file f) ≡ file_has_base f) files
      → calc_content_sha tools (map bare_file files) header ≡ calc_content_sha tools files header
  unfolding calc_content_sha
  calc_content_sha-bare files header h =
      ap
        (λ s. tools.sha256_hex (
          header.title
          ++ (newline
              ∷ (header.body
                  ++ (newline
                      ∷ (name_of header ++ (newline ∷ (email_of header ++ (newline ∷ s)))))))))
        (files_content-bare files h)
