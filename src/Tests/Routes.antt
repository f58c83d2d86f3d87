-- ===== src/Tests/Routes.antt =====
-- Addresses, headers of hunks and digests at which the general statements are tried.
use patchbin.Base.{
  sym, str_eq, str_eq_iff, Str, true, false, Option, none, some, List, [], ◌∷◌, codes, map, ◌≡◌,
  ◌⊎◌, refl, subst, arith,
}
use patchbin.SemDiff.Comment.{go_enclosing_name}
use patchbin.SemDiff.Header.{go_header, go_enclosing_name-go_header}
use patchbin.SemDiff.GoName.{IsGoHeader, go_enclosing_name-IsGoHeader}
use patchbin.RangeDiff.Matching.{entry, find_exact_matches}
use patchbin.RangeDiff.Exact.{AreExact, patches, shas, find_exact_matches-AreExact}
use patchbin.Store.{empty_db}
use patchbin.Web.Server.{Assets, Handler, pattern_of, handle, git_web_server}
use patchbin.Web.Patterns.{fits, IsChosen, each_handler}
use patchbin.Web.Routed.{git_web_server-serves}
use patchbin.Tests.Detail.{site}
use patchbin.Tests.Texts.{older, newer}

abbrev assets : Assets
assets = record {
  desc = [];
  embed_fs = λ file. some (some file);
  stat = λ dir. false;
  dir_fs = λ dir file. none;
  static_dir = codes "data/static";
  type_by_extension = λ file. codes "text/css";
  detect_content_type = λ contents. [];
  css = [];
}

abbrev style : List Str
style = codes "static" ∷ codes "git-pr.css" ∷ []

handler_is :
    (h : Handler)
    → ◌≡◌ {A = Option Handler} (some Handler.static_handler) (some h)
    → Handler.static_handler ≡ h
handler_is h e = cc e

-- The pattern of the static files is the most specific one for `style`.
static_is_specific :
    (other : Handler)
    → fits (pattern_of other) style ≡ true
    → (path : List Str) → fits (pattern_of Handler.static_handler) path ≡ true
    → fits (pattern_of other) path ≡ true
unfolding fits pattern_of
static_is_specific other e [] f = absurd (cc f)
static_is_specific other e (s ∷ []) f = absurd (ground (arith, f))
static_is_specific other e (s ∷ t ∷ []) f =
    let is : s ≡ codes "static" = ground (arith, f, str_eq_iff s (codes "static")) in
    let filled : str_eq t [] ≡ false = ground (arith, f) in
    rw is (
      each_handler
        (λ k.
          fits (pattern_of k) style ≡ true → fits (pattern_of k) (codes "static" ∷ t ∷ []) ≡ true)
        (λ g. refl) (λ g. cc g) (λ g. cc g) (λ g. cc g) (λ g. cc g) (λ g. cc g) (λ g. refl)
        (λ g. rw filled refl) other e)
static_is_specific other e (s ∷ t ∷ u ∷ parts) f = absurd (ground (arith, f))

style-IsChosen : IsChosen style (some Handler.static_handler)
unfolding fits pattern_of
style-IsChosen = record {
  fitting = λ h e. subst (λ k. fits (pattern_of k) style ≡ true) (handler_is h e) refl;
  specific = λ h other e f path g.
      static_is_specific other f path
        (subst (λ k. fits (pattern_of k) path ≡ true) (sym (handler_is h e)) g);
  complete = λ h e. absurd (cc e);
}

git_web_server-serves_example :
    git_web_server site assets (λ parts. some Handler.static_handler) style [] empty_db
    ≡ handle site assets Handler.static_handler style [] empty_db
git_web_server-serves_example =
    git_web_server-serves site assets (λ parts. some Handler.static_handler) (codes "static")
      (codes "git-pr.css" ∷ []) [] empty_db style-IsChosen

abbrev header : Str
header = codes "func (s *Foo) Bar(x int) error {"

go_enclosing_name-IsGoHeader_example :
    ((name : Str) × (go_enclosing_name header ≡ some (codes "function_declaration", name))
      × IsGoHeader name header)
    ⊎ ((go_enclosing_name header ≡ none) × ((name : Str) → ¬ IsGoHeader name header))
go_enclosing_name-IsGoHeader_example = go_enclosing_name-IsGoHeader header

go_enclosing_name-go_header_example :
    go_enclosing_name (go_header (some (codes "s *Foo")) (codes "Bar") (codes "x int) error {"))
    ≡ some (codes "function_declaration", codes "Bar")
go_enclosing_name-go_header_example =
    go_enclosing_name-go_header (some (codes "s *Foo")) b'B' (codes "ar") (codes "x int) error {")
      (refl, (refl, (refl, (refl, (refl, (refl, tt)))))) refl (refl, (refl, tt))

find_exact_matches-AreExact_example :
    AreExact (shas newer) (find_exact_matches 0 (map entry older) (map entry newer)).0
    × AreExact (shas older) (find_exact_matches 0 (map entry older) (map entry newer)).1
    × (patches (find_exact_matches 0 (map entry older) (map entry newer)).0 ≡ older)
    × (patches (find_exact_matches 0 (map entry older) (map entry newer)).1 ≡ newer)
find_exact_matches-AreExact_example = find_exact_matches-AreExact older newer
