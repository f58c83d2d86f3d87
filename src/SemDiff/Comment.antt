-- ===== src/SemDiff/Comment.antt =====
-- The names that semdiff.go reads in the header of a hunk, for each language: a kind of node and a
-- name.
use patchbin.Base.{
  Str, List, Option, none, some, ◌∷◌, codes, str_eq, any_row, if◌then◌else◌, ◌≡◌, refl,
}
use patchbin.Base.Regex.{run, rounds, Regex, submatches}
use patchbin.SemDiff.{Language}
use patchbin.SemDiff.Patterns.{
  go_func, js_function, js_class, js_method, js_control_keywords, py_function, py_class,
  rust_function, rust_item, zig_function, zig_test, zig_container,
}

-- The name that a pattern finds.
unfoldable pub name_in : Regex → Str → Option Str
name_in r comment = elim (submatches r comment) [ some (name ∷ names) ↦ some name | _ ↦ none ]

-- The text of the last group.
abbrev pub last_of : Option (List Str) → Option Str
last_of found = elim found [ some (name ∷ names) ↦ some name | _ ↦ none ]

pub name_in-last_of : (r : Regex) (s : Str) → name_in r s ≡ last_of (submatches r s)
unfolding name_in
name_in-last_of r s = refl

-- The kind with the name that was found, or what the next patterns say.
abbrev pub found_or : Str → Option Str → Option (Str × Str) → Option (Str × Str)
found_or kind none next = next
found_or kind (some name) next = some (kind, name)

unfoldable pub go_enclosing_name : Str → Option (Str × Str)
unfolding name_in
go_enclosing_name comment = found_or (codes "function_declaration") (name_in go_func comment) none

-- A word of control flow is no method.
abbrev pub unless_control : Option Str → Option Str
unless_control none = none
unless_control (some name) = if any_row (str_eq name) js_control_keywords then none else some name

unfoldable pub js_enclosing_name : Str → Option (Str × Str)
unfolding name_in
js_enclosing_name comment = found_or (codes "function_declaration") (name_in js_function comment) (
    found_or (codes "class_declaration") (name_in js_class comment)
      (found_or (codes "method_definition") (unless_control (name_in js_method comment)) none))

unfoldable pub py_enclosing_name : Str → Option (Str × Str)
unfolding name_in
py_enclosing_name comment =
    found_or (codes "function_definition") (name_in py_function comment)
      (found_or (codes "class_definition") (name_in py_class comment) none)

unfoldable pub rust_enclosing_name : Str → Option (Str × Str)
unfolding name_in
rust_enclosing_name comment = found_or (codes "function_item") (name_in rust_function comment) (
    found_or (codes "struct_item") (name_in (rust_item (codes "struct")) comment) (
      found_or (codes "enum_item") (name_in (rust_item (codes "enum")) comment)
        (found_or (codes "trait_item") (name_in (rust_item (codes "trait")) comment) none)))

unfoldable pub zig_enclosing_name : Str → Option (Str × Str)
unfolding name_in
zig_enclosing_name comment =
    found_or (codes "function_declaration") (name_in zig_function comment) (
      found_or (codes "test_declaration") (name_in zig_test comment)
        (found_or (codes "variable_declaration") (name_in zig_container comment) none))

-- `enclosingNameFromComment` of a language
unfoldable pub enclosing_name : Language → Str → Option (Str × Str)
enclosing_name Language.golang = go_enclosing_name
enclosing_name Language.javascript = js_enclosing_name
enclosing_name Language.typescript = js_enclosing_name
enclosing_name Language.tsx = js_enclosing_name
enclosing_name Language.python = py_enclosing_name
enclosing_name Language.rust = rust_enclosing_name
enclosing_name Language.zig = zig_enclosing_name

go_method_is_read :
    go_enclosing_name (codes "func (s *Foo) Bar(x int) error {")
    ≡ some (codes "function_declaration", codes "Bar")
unfolding go_enclosing_name submatches run rounds
go_method_is_read = refl

js_if_is_no_method : js_enclosing_name (codes "  if (x) {") ≡ none
unfolding js_enclosing_name submatches run rounds
js_if_is_no_method = refl

js_export_is_read :
    js_enclosing_name (codes "export default async function* f1 (")
    ≡ some (codes "function_declaration", codes "f1")
unfolding js_enclosing_name submatches run rounds
js_export_is_read = refl

rust_method_is_read :
    rust_enclosing_name (codes "    pub(crate) async fn go<T>(")
    ≡ some (codes "function_item", codes "go")
unfolding rust_enclosing_name submatches run rounds
rust_method_is_read = refl

zig_test_is_read :
    zig_enclosing_name (codes "test \"a b\" {") ≡ some (codes "test_declaration", codes "a b")
unfolding zig_enclosing_name submatches run rounds
zig_test_is_read = refl

zig_struct_is_read :
    zig_enclosing_name (codes "pub const Foo = packed struct {")
    ≡ some (codes "variable_declaration", codes "Foo")
unfolding zig_enclosing_name submatches run rounds
zig_struct_is_read = refl
