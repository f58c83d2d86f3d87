-- ===== src/SemDiff/GoName.antt =====
-- The headers of hunks in which goFuncCommentPattern of semdiff.go finds a name, as texts.
use patchbin.Base.{
  ◌-◌, Str, ◌++◌, none, some, List, [], ◌∷◌, codes, length, take, ◌≡◌, ◌⊎◌, inl, inr, refl, sym, ap,
  subst, ◌∙◌,
}
use patchbin.Base.Regex.{is_blank}
use patchbin.Base.Regex.Matches.{Matches, submatches-decides}
use patchbin.SemDiff.Patterns.{go_func}
use patchbin.SemDiff.Comment.{last_of, name_in-last_of, found_or, go_enclosing_name}
use patchbin.SemDiff.Header.{take-front}
use patchbin.SemDiff.Pieces.{
  IsBlank, IsName, IsReceiver, byte-eq, many-Reads, many-Accepts, word-Reads, word-Accepts,
  identifier-Reads, identifier-Accepts, receiver-Reads, receiver-Accepts,
}

-- `func`, a receiver or none, the name, and an open parenthesis, with white space between them or not.
abbrev pub IsGoHeader : Str → Str → Type 0
IsGoHeader name s =
    (ws receiver ws' rest : Str) × (s
      ≡ codes "func" ++ (ws ++ (receiver ++ (name ++ (ws' ++ b'(' ∷ rest)))))
    × IsBlank ws
    × IsReceiver receiver
    × IsName name
    × IsBlank ws'

-- A match of the pattern is a header with the name that is caught.
go_func-Reads :
    (s : Str) (out : List Str) (rest : Str)
    → Matches go_func [] s out rest
    → (name : Str) × (out ≡ name ∷ []) × IsGoHeader name s
go_func-Reads s out rest
      (
        c1,
        s1,
        func,
        (
          c2,
          s2,
          space,
          (c3, s3, receives, (c4, s4, (c5, names, e4), (c6, s6, space', (d, at6, same, e6)))),
        ),
      ) =
    let (e1, (w, at, is)) = word-Reads (codes "func") [] s c1 s1 func in
    let (e2, (ws, at1, blank)) = many-Reads is_blank c1 s1 c2 s2 space in
    let (e3, (r, at2, received)) = receiver-Reads c2 s2 c3 s3 receives in
    let (e5, (name, at3, named)) = identifier-Reads c3 s3 c5 s4 names in
    let (e7, (ws', at4, blank')) = many-Reads is_blank c4 s4 c6 s6 space' in
    let caught : take (length s3 - length s4) s3 ≡ name =
      ap (λ (t : Str). take (length t - length s4) t) at3 ∙ take-front name s4 in
    let nothing : c5 ≡ [] = sym (e1 ∙ e2 ∙ e3 ∙ e5) in
    let behind : s4 ≡ ws' ++ b'(' ∷ rest =
      at4 ∙ ap (λ t. ws' ++ t) (at6 ∙ ap (λ c. c ∷ rest) (byte-eq b'(' d same)) in
    let after_func : s1 ≡ ws ++ (r ++ (name ++ (ws' ++ b'(' ∷ rest))) =
      at1 ∙ ap (λ t. ws ++ t) (at2 ∙ ap (λ t. r ++ t) (at3 ∙ ap (λ t. name ++ t) behind)) in
    (
      name,
      sym e6 ∙ sym e7 ∙ e4 ∙ (λ i. caught i ∷ nothing i),
      (ws, r, ws', rest, at ∙ (λ i. is i ++ after_func i), blank, received, named, blank'),
    )

-- A header is matched.
go_func-Accepts :
    (name s : Str) → IsGoHeader name s → (rest : Str) × Matches go_func [] s (name ∷ []) rest
go_func-Accepts name s (ws, r, ws', rest, at, blank, received, named, blank') =
    let s4 : Str = ws' ++ b'(' ∷ rest in
    (
      rest,
      subst (λ t. Matches go_func [] t (name ∷ []) rest) (sym at)
          (
            [],
            ws ++ (r ++ (name ++ s4)),
            word-Accepts (codes "func") [] (ws ++ (r ++ (name ++ s4))),
            (
              [],
              r ++ (name ++ s4),
              many-Accepts is_blank [] ws (r ++ (name ++ s4)) blank,
              (
                [],
                name ++ s4,
                receiver-Accepts [] r (name ++ s4) received,
                (
                  name ∷ [],
                  s4,
                  (
                    [],
                    identifier-Accepts [] name s4 named,
                    ap (λ (n : Str). n ∷ []) (sym (take-front name s4)),
                  ),
                  (
                    name ∷ [],
                    b'(' ∷ rest,
                    many-Accepts is_blank (name ∷ []) ws' (b'(' ∷ rest) blank',
                    (b'(', refl, refl, refl),
                  ),
                ),
              ),
            ),
          ),
    )

-- For every header of a hunk, the search for the name of a Go function ends, and decides whether the
-- text begins like `func`, a receiver in parentheses or none, an identifier of ASCII letters, digits
-- and underscores, and an open parenthesis, with white space between them or not: either it gives
-- the identifier of such a beginning, or none, and then the text has no such beginning.
pub go_enclosing_name-IsGoHeader :
    (s : Str)
    → ((name : Str) × (go_enclosing_name s ≡ some (codes "function_declaration", name))
        × IsGoHeader name s)
      ⊎ ((go_enclosing_name s ≡ none) × ((name : Str) → ¬ IsGoHeader name s))
unfolding go_enclosing_name
go_enclosing_name-IsGoHeader s =
    let kind = codes "function_declaration" in
    elim (submatches-decides go_func s) [
      | inl (out, rest, m, h) ↦
          let (name, is, header) = go_func-Reads s out rest m in
          inl (
            name,
            ap (λ n. found_or kind n none)
                (name_in-last_of go_func s ∙ ap last_of (h ∙ ap some is)),
            header,
          )
      | inr (h, never) ↦ inr (
        ap (λ n. found_or kind n none) (name_in-last_of go_func s ∙ ap last_of h),
        λ name header. let (rest, m) = go_func-Accepts name s header in never (name ∷ []) rest m,
      )
    ]
