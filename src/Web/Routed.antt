-- ===== src/Web/Routed.antt =====
-- Which handler of the web server answers an address.
use patchbin.Base.{
  Str, str_eq_iff, true, false, not, ◌&&◌, Option, some, List, [], ◌∷◌, codes, str_eq, ◌≡◌, inl,
  inr, refl, ap, ◌∙◌, arith, Bool-cases, Option-cases, subst,
}
use patchbin.Store.{Db}
use patchbin.Web.Data.{Site}
use patchbin.Web.Server.{Handler, Assets, pattern_of, handle, served_by, git_web_server}
use patchbin.Web.Patterns.{
  fits, IsChosen, meant, sample, below, below-itself, each_handler, IsFirst, active-IsFirst,
  inactive-IsFirst, all_rss-IsFirst, chroma_style-IsFirst, static-IsFirst,
}

at_index :
    (parts : List Str) (s : Str)
    → str_eq s [] ≡ true
    → (h : Handler) → fits (pattern_of h) (s ∷ parts) ≡ true
    → h ≡ Handler.index_handler
unfolding fits pattern_of
at_index parts s e =
    let is : s ≡ [] = ground (arith, str_eq_iff s [], e) in
    rw is (
      each_handler (λ h. fits (pattern_of h) ([] ∷ parts) ≡ true → h ≡ Handler.index_handler)
        (λ f. cc) (λ f. cc f) (λ f. cc f) (λ f. cc f) (λ f. cc f) (λ f. cc f) (λ f. cc f)
        (λ f. cc f))

at_repo :
    (s : Str)
    → str_eq s (codes "active") ≡ false
    → str_eq s (codes "inactive") ≡ false
    → str_eq s (codes "rss") ≡ false
    → str_eq s (codes "syntax.css") ≡ false
    → (h : Handler) → fits (pattern_of h) (s ∷ []) ≡ true
    → below h Handler.repo_list_handler ≡ true
    → h ≡ Handler.repo_list_handler
unfolding fits pattern_of
at_repo s a i r c =
    each_handler
      (λ h.
        fits (pattern_of h) (s ∷ []) ≡ true
        → below h Handler.repo_list_handler ≡ true
        → h ≡ Handler.repo_list_handler)
      (λ f e. cc e) (λ f e. ground (arith, f, a)) (λ f e. ground (arith, f, i))
      (λ f e. ground (arith, f, r)) (λ f e. ground (arith, f, c)) (λ f e. cc) (λ f e. cc e)
      (λ f e. cc e)

at_detail :
    (parts : List Str)
    → fits (pattern_of Handler.static_handler) parts ≡ false
    → (h : Handler) → fits (pattern_of h) parts ≡ true
    → below h Handler.pr_detail_handler ≡ true
    → h ≡ Handler.pr_detail_handler
unfolding fits pattern_of
at_detail parts no_file =
    each_handler
      (λ h.
        fits (pattern_of h) parts ≡ true
        → below h Handler.pr_detail_handler ≡ true
        → h ≡ Handler.pr_detail_handler)
      (λ f e. cc e) (λ f e. cc e) (λ f e. cc e) (λ f e. cc e) (λ f e. cc e) (λ f e. cc e)
      (λ f e. cc) (λ f e. cc (f, no_file))

module _ (parts : List Str) (h : Handler) (c : IsChosen parts (some h)) where
  as_specific : (q : Handler) → fits (pattern_of q) parts ≡ true → below h q ≡ true
  as_specific q f = c.specific h q refl f (sample h) (below-itself h)

  chosen_first : (q : Handler) → IsFirst q → fits (pattern_of q) parts ≡ true → h ≡ q
  chosen_first q first f = first h (as_specific q f)

chosen_one : (s : Str) (h : Handler) → IsChosen (s ∷ []) (some h) → h ≡ meant (s ∷ [])
unfolding fits pattern_of
chosen_one s h c = elim (Bool-cases (str_eq s [])) [
  | inl e ↦ rw e (at_index [] s e h (c.fitting h refl))
  | inr filled ↦ rw filled (elim (Bool-cases (str_eq s (codes "active"))) [
    | inl e ↦ rw e (chosen_first (s ∷ []) h c _ active-IsFirst (ground arith))
    | inr a ↦ rw a (elim (Bool-cases (str_eq s (codes "inactive"))) [
      | inl e ↦ rw e (chosen_first (s ∷ []) h c _ inactive-IsFirst (ground arith))
      | inr i ↦ rw i (elim (Bool-cases (str_eq s (codes "rss"))) [
        | inl e ↦ rw e (chosen_first (s ∷ []) h c _ all_rss-IsFirst (ground arith))
        | inr r ↦ rw r (elim (Bool-cases (str_eq s (codes "syntax.css"))) [
          | inl e ↦ rw e (chosen_first (s ∷ []) h c _ chroma_style-IsFirst (ground arith))
          | inr y ↦ rw y (
              at_repo s a i r y h (c.fitting h refl)
                (as_specific (s ∷ []) h c Handler.repo_list_handler (ground arith)))
        ])
      ])
    ])
  ])
]

chosen_two : (s t : Str) (h : Handler) → IsChosen (s ∷ t ∷ []) (some h) → h ≡ meant (s ∷ t ∷ [])
unfolding fits pattern_of
chosen_two s t h c = elim (Bool-cases (str_eq s [])) [
  | inl e ↦ rw e (at_index (t ∷ []) s e h (c.fitting h refl))
  | inr filled ↦ rw filled (elim (Bool-cases (str_eq s (codes "static") && not (str_eq t []))) [
    | inl e ↦
        rw e (chosen_first (s ∷ t ∷ []) h c Handler.static_handler static-IsFirst (ground arith))
    | inr e ↦ rw e (
        at_detail (s ∷ t ∷ []) (ground arith) h (c.fitting h refl)
          (as_specific (s ∷ t ∷ []) h c Handler.pr_detail_handler (ground arith)))
  ])
]

chosen_more :
    (s t u : Str) (parts : List Str) (h : Handler)
    → IsChosen (s ∷ t ∷ u ∷ parts) (some h)
    → h ≡ meant (s ∷ t ∷ u ∷ parts)
unfolding fits pattern_of
chosen_more s t u parts h c = elim (Bool-cases (str_eq s [])) [
  | inl e ↦ rw e (at_index (t ∷ u ∷ parts) s e h (c.fitting h refl))
  | inr filled ↦ rw filled (
      at_detail (s ∷ t ∷ u ∷ parts) (ground arith) h (c.fitting h refl)
        (as_specific (s ∷ t ∷ u ∷ parts) h c Handler.pr_detail_handler (ground arith)))
]

index-fits :
    (s : Str) (parts : List Str) → fits (pattern_of Handler.index_handler) (s ∷ parts) ≡ true
unfolding fits pattern_of
index-fits s parts = refl

chosen :
    (s : Str) (parts : List Str) (h : Handler)
    → IsChosen (s ∷ parts) (some h)
    → h ≡ meant (s ∷ parts)
chosen s [] h c = chosen_one s h c
chosen s (t ∷ []) h c = chosen_two s t h c
chosen s (t ∷ u ∷ parts) h c = chosen_more s t u parts h c

-- If `http.ServeMux` chooses among the registered patterns as it is documented (one that fits, and the
-- most specific of those), then every address is answered by the handler that is meant for it: the
-- lists, the feed and the style sheet by their names; any other single part by the list of that
-- repository; `/static/` with one more part by the file of that name; any longer address by the
-- page of the request; and the rest by the index.
pub git_web_server-serves :
    (site : Site) (assets : Assets) (mux : List Str → Option Handler) (s : Str) (parts : List Str)
    (pubkey : Str) (db : Db)
    → IsChosen (s ∷ parts) (mux (s ∷ parts))
    → git_web_server site assets mux (s ∷ parts) pubkey db
      ≡ handle site assets (meant (s ∷ parts)) (s ∷ parts) pubkey db
unfolding git_web_server
git_web_server-serves site assets mux s parts pubkey db c = elim (Option-cases (mux (s ∷ parts))) [
  | inl none_fits ↦ absurd (cc (index-fits s parts, c.complete Handler.index_handler none_fits))
  | inr (h, is) ↦
      let same = chosen s parts h (subst (IsChosen (s ∷ parts)) is c) in
      ap (λ o. served_by site assets o (s ∷ parts) pubkey db) is
      ∙ ap (λ k. handle site assets k (s ∷ parts) pubkey db) same
]
