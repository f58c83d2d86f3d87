-- ===== src/SemDiff/Patterns.antt =====
-- The patterns of semdiff.go for the header of a hunk, for each language. A pattern has one group, which
-- is the name.
use patchbin.Base.{ℕ, Str, not, ◌||◌, List, [], ◌∷◌, codes, ◌==◌}
use patchbin.Base.Regex.{
  Regex, optional, some_of, word, blanks, some_blanks, is_letter, is_letter_or_digit, identifier,
}

infixr 6 ◌▷◌
abbrev ◌▷◌ : Regex → Regex → Regex
r ▷ t = Regex.seq r t

abbrev pub byte : ℕ → Regex
byte b = Regex.one (λ c. c == b)

abbrev pub but : ℕ → Regex
but b = Regex.one (λ c. not (c == b))

-- A word and the white space behind it.
abbrev pub keyword : Str → Regex
keyword w = word w ▷ some_blanks

abbrev pub any_of : List Regex → Regex
any_of [] = Regex.nothing
any_of (r ∷ []) = r
any_of (r ∷ q ∷ rs) = Regex.alt r (any_of (q ∷ rs))

-- `goFuncCommentPattern`
abbrev pub go_func : Regex
go_func =
    word (codes "func")
    ▷ blanks
    ▷ optional (byte b'(' ▷ Regex.many (but b')') ▷ byte b')' ▷ blanks)
    ▷ Regex.group identifier
    ▷ blanks
    ▷ byte b'('

-- The identifiers of JavaScript: with the dollar.
abbrev pub js_identifier : Regex
js_identifier =
    Regex.one (λ c. is_letter c || c == b'$')
    ▷ Regex.many (Regex.one (λ c. is_letter_or_digit c || c == b'$'))

-- `jsFunctionCommentPattern`
abbrev pub js_function : Regex
js_function =
    blanks
    ▷ optional (keyword (codes "export"))
    ▷ optional (keyword (codes "default"))
    ▷ optional (keyword (codes "async"))
    ▷ word (codes "function")
    ▷ blanks
    ▷ optional (byte b'*')
    ▷ blanks
    ▷ Regex.group js_identifier
    ▷ blanks
    ▷ byte b'('

-- `jsClassCommentPattern`
abbrev pub js_class : Regex
js_class =
    blanks
    ▷ optional (keyword (codes "export"))
    ▷ optional (keyword (codes "default"))
    ▷ optional (keyword (codes "abstract"))
    ▷ keyword (codes "class")
    ▷ Regex.group js_identifier

-- `jsMethodCommentPattern`
abbrev pub js_method : Regex
js_method =
    blanks
    ▷ Regex.many (
        any_of (
          keyword (codes "public")
          ∷ keyword (codes "private")
          ∷ keyword (codes "protected")
          ∷ keyword (codes "static")
          ∷ keyword (codes "async")
          ∷ keyword (codes "readonly")
          ∷ []))
    ▷ optional (any_of (keyword (codes "get") ∷ keyword (codes "set") ∷ []))
    ▷ Regex.group js_identifier
    ▷ blanks
    ▷ optional (byte b'<' ▷ Regex.many (but b'>') ▷ byte b'>')
    ▷ blanks
    ▷ byte b'('

-- `jsControlKeywords`
abbrev pub js_control_keywords : List Str
js_control_keywords =
    codes "if"
    ∷ codes "for"
    ∷ codes "while"
    ∷ codes "switch"
    ∷ codes "catch"
    ∷ codes "function"
    ∷ codes "return"
    ∷ codes "constructor"
    ∷ []

-- `pyFunctionCommentPattern`
abbrev pub py_function : Regex
py_function =
    blanks
    ▷ optional (keyword (codes "async"))
    ▷ keyword (codes "def")
    ▷ Regex.group identifier
    ▷ blanks
    ▷ byte b'('

-- `pyClassCommentPattern`
abbrev pub py_class : Regex
py_class = blanks ▷ keyword (codes "class") ▷ Regex.group identifier

-- `pub` with an optional restriction
abbrev pub rust_pub : Regex
rust_pub =
    optional
      (word (codes "pub") ▷ optional (byte b'(' ▷ Regex.many (but b')') ▷ byte b')') ▷ some_blanks)

-- `rustFunctionCommentPattern`
abbrev pub rust_function : Regex
rust_function =
    blanks
    ▷ rust_pub
    ▷ optional (keyword (codes "async"))
    ▷ optional (keyword (codes "unsafe"))
    ▷ optional
        (keyword (codes "extern") ▷ byte b'"' ▷ Regex.many (but b'"') ▷ byte b'"' ▷ some_blanks)
    ▷ keyword (codes "fn")
    ▷ Regex.group identifier

-- `rustStructCommentPattern` and its like for enums and traits
abbrev pub rust_item : Str → Regex
rust_item w = blanks ▷ rust_pub ▷ keyword w ▷ Regex.group identifier

-- An identifier, or any text in quotes behind an at sign.
abbrev pub zig_identifier : Regex
zig_identifier = Regex.alt identifier (word (codes "@\"") ▷ some_of (but b'"') ▷ byte b'"')

abbrev pub zig_extern : Regex
zig_extern =
    word (codes "extern")
    ▷ optional (some_blanks ▷ byte b'"' ▷ Regex.many (but b'"') ▷ byte b'"')
    ▷ some_blanks

-- `zigFunctionCommentPattern`
abbrev pub zig_function : Regex
zig_function =
    blanks
    ▷ Regex.many (
        any_of (
          keyword (codes "pub")
          ∷ keyword (codes "export")
          ∷ zig_extern
          ∷ keyword (codes "inline")
          ∷ keyword (codes "noinline")
          ∷ []))
    ▷ keyword (codes "fn")
    ▷ Regex.group zig_identifier

-- `zigTestCommentPattern`; only one of its two groups takes part in a match.
abbrev pub zig_test : Regex
zig_test =
    blanks
    ▷ optional (keyword (codes "pub"))
    ▷ keyword (codes "test")
    ▷ Regex.alt (byte b'"' ▷ Regex.group (some_of (but b'"')) ▷ byte b'"')
        (Regex.group zig_identifier)

-- `zigContainerCommentPattern`
abbrev pub zig_container : Regex
zig_container =
    blanks
    ▷ Regex.many (
        any_of (
          keyword (codes "pub")
          ∷ keyword (codes "export")
          ∷ zig_extern
          ∷ keyword (codes "threadlocal")
          ∷ []))
    ▷ any_of (word (codes "const") ∷ word (codes "var") ∷ [])
    ▷ some_blanks
    ▷ Regex.group zig_identifier
    ▷ blanks
    ▷ optional (byte b':' ▷ blanks ▷ some_of (but b'='))
    ▷ blanks
    ▷ byte b'='
    ▷ blanks
    ▷ optional (any_of (keyword (codes "extern") ∷ keyword (codes "packed") ∷ []))
    ▷ any_of (
        word (codes "struct")
        ∷ word (codes "enum")
        ∷ word (codes "union")
        ∷ word (codes "opaque")
        ∷ word (codes "error")
        ∷ [])
