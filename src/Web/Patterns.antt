-- ===== src/Web/Patterns.antt =====
-- How `http.ServeMux` chooses among the patterns of web.go, by its documentation, and which of them are more
-- specific than others.
use patchbin.Base.{
  Str, Bool, true, false, not, ◌&&◌, Option, none, some, List, [], ◌∷◌, codes, str_eq,
  if◌then◌else◌, ◌≡◌, refl,
}
use patchbin.Web.Server.{Piece, Handler, pattern_of}

-- The documented matching of a pattern with the parts of a path between its slashes (the last part is
-- empty for a path that ends in a slash).
unfoldable pub fits : List Piece → List Str → Bool
fits [] [] = true
fits [] (s ∷ parts) = false
fits (p ∷ ps) [] = false
fits (Piece.literal w ∷ ps) (s ∷ parts) = str_eq s w && fits ps parts
fits (Piece.wildcard ∷ ps) (s ∷ parts) = not (str_eq s []) && fits ps parts
fits (Piece.rest ∷ ps) (s ∷ parts) = true
fits (Piece.subtree ∷ ps) (s ∷ parts) = true

-- The documented choice of `http.ServeMux`: a handler whose pattern fits, and of which no other
-- pattern that fits is more specific, or none if no pattern fits.
pub record IsChosen (parts : List Str) (choice : Option Handler) : Type 0 where
  pub fitting : (h : Handler) → choice ≡ some h → fits (pattern_of h) parts ≡ true
  pub specific :
      (h other : Handler)
      → choice ≡ some h
      → fits (pattern_of other) parts ≡ true
      → (path : List Str) → fits (pattern_of h) path ≡ true
      → fits (pattern_of other) path ≡ true
  pub complete : (h : Handler) → choice ≡ none → fits (pattern_of h) parts ≡ false

-- The handler that is meant for an address.
abbrev pub meant : List Str → Handler
meant [] = Handler.index_handler
meant (s ∷ []) =
    if str_eq s []
    then Handler.index_handler
    else if str_eq s (codes "active")
    then Handler.active_handler
    else if str_eq s (codes "inactive")
    then Handler.inactive_handler
    else if str_eq s (codes "rss")
    then Handler.all_rss_handler
    else if str_eq s (codes "syntax.css")
    then Handler.chroma_style_handler
    else Handler.repo_list_handler
meant (s ∷ t ∷ []) =
    if str_eq s []
    then Handler.index_handler
    else if str_eq s (codes "static") && not (str_eq t [])
    then Handler.static_handler
    else Handler.pr_detail_handler
meant (s ∷ t ∷ u ∷ parts) = if str_eq s [] then Handler.index_handler else Handler.pr_detail_handler

-- An address that fits the pattern of a handler, and of no other handler but those it is more specific
-- than.
abbrev pub sample : Handler → List Str
sample Handler.index_handler = [] ∷ codes "x" ∷ []
sample Handler.active_handler = codes "active" ∷ []
sample Handler.inactive_handler = codes "inactive" ∷ []
sample Handler.all_rss_handler = codes "rss" ∷ []
sample Handler.chroma_style_handler = codes "syntax.css" ∷ []
sample Handler.repo_list_handler = codes "x" ∷ []
sample Handler.pr_detail_handler = codes "x" ∷ codes "x" ∷ codes "x" ∷ []
sample Handler.static_handler = codes "static" ∷ codes "x" ∷ []

-- The first handler is at least as specific as the second.
abbrev pub below : Handler → Handler → Bool
below h q = fits (pattern_of q) (sample h)

pub below-itself : (h : Handler) → below h h ≡ true
unfolding fits pattern_of
below-itself Handler.index_handler = refl
below-itself Handler.active_handler = refl
below-itself Handler.inactive_handler = refl
below-itself Handler.all_rss_handler = refl
below-itself Handler.chroma_style_handler = refl
below-itself Handler.repo_list_handler = refl
below-itself Handler.pr_detail_handler = refl
below-itself Handler.static_handler = refl

pub each_handler :
    (P : Handler → Type 0)
    → P Handler.index_handler
    → P Handler.active_handler
    → P Handler.inactive_handler
    → P Handler.all_rss_handler
    → P Handler.chroma_style_handler
    → P Handler.repo_list_handler
    → P Handler.pr_detail_handler
    → P Handler.static_handler
    → (h : Handler) → P h
each_handler P a b c d e f g k Handler.index_handler = a
each_handler P a b c d e f g k Handler.active_handler = b
each_handler P a b c d e f g k Handler.inactive_handler = c
each_handler P a b c d e f g k Handler.all_rss_handler = d
each_handler P a b c d e f g k Handler.chroma_style_handler = e
each_handler P a b c d e f g k Handler.repo_list_handler = f
each_handler P a b c d e f g k Handler.pr_detail_handler = g
each_handler P a b c d e f g k Handler.static_handler = k

-- No other handler is more specific than one whose pattern has a literal.
abbrev pub IsFirst : Handler → Type 0
IsFirst q = (h : Handler) → below h q ≡ true → h ≡ q

pub active-IsFirst : IsFirst Handler.active_handler
unfolding fits pattern_of
active-IsFirst =
    each_handler (λ h. below h Handler.active_handler ≡ true → h ≡ Handler.active_handler)
      (λ e. cc e) (λ e. cc) (λ e. cc e) (λ e. cc e) (λ e. cc e) (λ e. cc e) (λ e. cc e) (λ e. cc e)

pub inactive-IsFirst : IsFirst Handler.inactive_handler
unfolding fits pattern_of
inactive-IsFirst =
    each_handler (λ h. below h Handler.inactive_handler ≡ true → h ≡ Handler.inactive_handler)
      (λ e. cc e) (λ e. cc e) (λ e. cc) (λ e. cc e) (λ e. cc e) (λ e. cc e) (λ e. cc e) (λ e. cc e)

pub all_rss-IsFirst : IsFirst Handler.all_rss_handler
unfolding fits pattern_of
all_rss-IsFirst =
    each_handler (λ h. below h Handler.all_rss_handler ≡ true → h ≡ Handler.all_rss_handler)
      (λ e. cc e) (λ e. cc e) (λ e. cc e) (λ e. cc) (λ e. cc e) (λ e. cc e) (λ e. cc e) (λ e. cc e)

pub chroma_style-IsFirst : IsFirst Handler.chroma_style_handler
unfolding fits pattern_of
chroma_style-IsFirst =
    each_handler
      (λ h. below h Handler.chroma_style_handler ≡ true → h ≡ Handler.chroma_style_handler)
      (λ e. cc e) (λ e. cc e) (λ e. cc e) (λ e. cc e) (λ e. cc) (λ e. cc e) (λ e. cc e) (λ e. cc e)

pub static-IsFirst : IsFirst Handler.static_handler
unfolding fits pattern_of
static-IsFirst =
    each_handler (λ h. below h Handler.static_handler ≡ true → h ≡ Handler.static_handler)
      (λ e. cc e) (λ e. cc e) (λ e. cc e) (λ e. cc e) (λ e. cc e) (λ e. cc e) (λ e. cc e) (λ e. cc)
