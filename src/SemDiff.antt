-- ===== src/SemDiff.antt =====
-- semdiff.go: the summary of what a patch does to functions and types. The grammars of tree-sitter
-- are the argument `Grammar`; the names in hunk headers are read by `SemDiff.Comment`.
pub mod Patterns
pub mod Comment
pub mod Header
pub mod Pieces
pub mod GoName
pub mod Changes
pub mod Entities
pub mod Merged
pub mod Reported
use patchbin.Base.{
  ℕ, ◌+◌, ◌-◌, ◌<◌, Str, Bool, true, false, not, ◌&&◌, ◌||◌, Option, none, some, List, [], ◌∷◌,
  ◌++◌, codes, suc, zero, ◌==◌, leb, ltb, str_eq, has_byte, take, if◌then◌else◌,
}
use patchbin.Base.Space.{trim_space, space_width}
use patchbin.Base.Search.{index_of, join}
use patchbin.Mbox.{LineOp, Line, Fragment, File}

pub data ChangeKind : Type 0 where
  added removed modified signature_changed renamed : ChangeKind

pub record SemanticEntity : Type 0 where
  pub kind : Str
  pub name : Str
  pub signature : Str
  pub body_hash : Str

pub record SemanticChange : Type 0 where
  pub kind : ChangeKind
  pub entity_kind : Str
  pub name : Str
  pub old_sig : Str
  pub new_sig : Str
  pub hunk_index : ℕ
  pub hunk_anchor : Str

-- The grammars that are linked in.
pub data Language : Type 0 where
  golang javascript typescript tsx python rust zig : Language

-- The captures of one match of a language's query: the type and the text of the node `entity`, if it
-- is there, and the text of `name`.
pub record Capture : Type 0 where
  pub entity : Option (Str × Str)
  pub name : Str

-- What tree-sitter answers: whether the query of a language compiles, and the matches in a text, or
-- none if it is not parsed; SHA-256 in hexadecimal; and the order in which a map is iterated.
pub record Grammar : Type 0 where
  pub compiles : Language → Bool
  pub captures : Language → Str → Option (List Capture)
  pub sha256_hex : Str → Str
  pub iterate : List (Str × SemanticEntity) → List (Str × SemanticEntity)

abbrev pub slash : ℕ
slash = b'/'

abbrev pub full_stop : ℕ
full_stop = b'.'

-- filepath.Ext: from the last dot behind the last slash.
unfoldable pub extension : Str → Str
extension [] = []
extension (c ∷ s) =
    let rest = extension s in
    if str_eq rest []
    then (if c == full_stop && not (has_byte slash s) then c ∷ s else [])
    else rest

-- strings.ToLower, with the two letters outside ASCII whose lower case is in ASCII: U+0130 and U+212A.
abbrev lower_byte : ℕ → ℕ
lower_byte c = if leb b'A' c && leb c b'Z' then c + 32 else c

unfoldable pub to_lower : Str → Str
to_lower [] = []
to_lower (a ∷ []) = lower_byte a ∷ []
to_lower (a ∷ b ∷ []) =
    if a == 0xc4 && b == 0xb0 then b'i' ∷ [] else (lower_byte a ∷ lower_byte b ∷ [])
to_lower (a ∷ b ∷ c ∷ s) =
    let behind_one = to_lower (b ∷ c ∷ s) in
    let behind_two = to_lower (c ∷ s) in
    let behind_three = to_lower s in
    if a == 0xc4 && b == 0xb0
    then b'i' ∷ behind_two
    else (if a == 0xe2 && (b == 0x84 && c == 0xaa)
        then b'k' ∷ behind_three
        else (lower_byte a ∷ behind_one))

-- `languageRegistry`
unfoldable pub language_of : Str → Option Language
language_of ext =
    if str_eq ext (codes ".go")
    then some Language.golang
    else if str_eq ext (codes ".js") || str_eq ext (codes ".jsx")
    then some Language.javascript
    else if str_eq ext (codes ".mjs") || str_eq ext (codes ".cjs")
    then some Language.javascript
    else if str_eq ext (codes ".ts")
    then some Language.typescript
    else if str_eq ext (codes ".tsx")
    then some Language.tsx
    else if str_eq ext (codes ".py")
    then some Language.python
    else if str_eq ext (codes ".rs")
    then some Language.rust
    else if str_eq ext (codes ".zig")
    then some Language.zig
    else none

unfoldable pub language_for_file : Str → Option Language
unfolding extension to_lower language_of
language_for_file name = language_of (to_lower (extension name))

unfoldable pub supports_semantic_diff : Str → Bool
supports_semantic_diff name = elim (language_for_file name) [ none ↦ false | some l ↦ true ]

-- The old and the new text of a hunk.
unfoldable pub fragment_sides : List Line → Str × Str
fragment_sides [] = ([], [])
fragment_sides (l ∷ ls) =
    let (old_text, new_text) = fragment_sides ls in
    elim l.op [
      | LineOp.op_context ↦ (l.line ++ old_text, l.line ++ new_text)
      | LineOp.op_delete ↦ (l.line ++ old_text, new_text)
      | LineOp.op_add ↦ (old_text, l.line ++ new_text)
    ]

-- strings.Fields: `cur` is the field that is being read, `skip` bytes of white space are still to be
-- passed over.
unfoldable pub fields_from : ℕ → Str → Str → List Str
fields_from skip [] [] = []
fields_from skip (d ∷ cur) [] = (d ∷ cur) ∷ []
fields_from (suc skip) cur (c ∷ s) = fields_from skip cur s
fields_from zero [] (c ∷ s) =
    let field = fields_from zero (c ∷ []) s in
    let blank = fields_from (space_width (c ∷ s) - 1) [] s in
    if space_width (c ∷ s) == 0 then field else blank
fields_from zero (d ∷ cur) (c ∷ s) =
    let field = fields_from zero (d ∷ cur ++ c ∷ []) s in
    let blank = fields_from (space_width (c ∷ s) - 1) [] s in
    if space_width (c ∷ s) == 0 then field else ((d ∷ cur) ∷ blank)

unfoldable pub fields : Str → List Str
unfolding fields_from
fields s = fields_from 0 [] s

abbrev pub one_line : Str → Str
one_line s = join (fields s) (codes " ")

-- The text in front of the first brace, on one line.
unfoldable pub signature_of : Str → Str
unfolding fields
signature_of body =
    one_line (elim (index_of body (codes "{")) [ none ↦ body | some i ↦ take i body ])

module _ (grammar : Grammar) where
  unfoldable pub hash_body : Str → Str
  hash_body body = grammar.sha256_hex (one_line body)

  -- A match without its node or its name is passed over.
  unfoldable pub entities_of : List Capture → List SemanticEntity
  unfolding signature_of hash_body
  entities_of [] = []
  entities_of (c ∷ cs) =
      let rest = entities_of cs in
      elim c.entity [
        | none ↦ rest
        | some (node, body) ↦
            if str_eq c.name []
            then rest
            else (record {
              kind = node;
              name = c.name;
              signature = signature_of body;
              body_hash = hash_body body;
            }
                ∷ rest)
      ]

  unfoldable pub extract_entities : Language → Str → List SemanticEntity
  unfolding entities_of
  extract_entities l src =
      if str_eq (trim_space src) []
      then []
      else elim (grammar.captures l src) [ none ↦ [] | some cs ↦ entities_of cs ]
