-- ===== src/Web/Legacy.antt =====
-- The redirection of the addresses that named a request by its number.
use patchbin.Base.{
  ℕ, ◌≤◌, Str, false, Option, none, some, List, [], ◌∷◌, ◌++◌, codes, str_eq, has_byte,
  has_byte-append, append_assoc, append-nil, if◌then◌else◌, Result, ok, err, ◌≡◌, refl, sym, ap,
  ◌∙◌, arith,
}
use patchbin.Base.Number.{
  ℤ, pos, negsuc, max_int64, parse_int, parse_int-format, format, format-digits, format-cons,
  IsDigit,
}
use patchbin.Base.Search.{
  split, split-cons, split-part, split-whole, join, join-split, cut_last, cut_last-append,
  cut_last-lacks,
}
use patchbin.Target.Digits.{has_byte-digits}
use patchbin.Store.{PatchRequest, Db, Driver}
use patchbin.Pr.Queries.{get_patch_request_by_id}
use patchbin.SemDiff.{slash, full_stop}
use patchbin.Web.{Response}

-- The number of a request, and the revision behind its last dot.
abbrev pub number_and_rev : Str → Option (Str × Str) → Str × Str
number_and_rev text none = (text, [])
number_and_rev text (some (number, rev)) = (number, full_stop ∷ rev)

abbrev pub remainder_of : List Str → Str
remainder_of [] = []
remainder_of (p ∷ parts) = slash ∷ join (p ∷ parts) (slash ∷ [])

abbrev pub new_address : Str → List Str → Result PatchRequest → Response Str
new_address rev parts (err e) = Response.status 404
new_address rev parts (ok pr) =
    Response.redirect (slash ∷ (pr.repo_name ++ (slash ∷ (pr.slug ++ (rev ++ remainder_of parts)))))

-- No id is negative, so a negative number selects no row.
abbrev pub by_number : Driver → Db → Str → List Str → Option ℤ → Response Str
by_number drv db rev parts none = Response.status 404
by_number drv db rev parts (some (negsuc n)) = Response.status 404
by_number drv db rev parts (some (pos n)) = new_address rev parts (get_patch_request_by_id drv n db)

abbrev pub by_parts : Driver → Db → List Str → Response Str
by_parts drv db [] = Response.panicked
by_parts drv db (first ∷ parts) =
    let (number, rev) = number_and_rev first (cut_last full_stop first) in
    by_number drv db rev parts (parse_int number)

abbrev pub first_filled : Str → Str → Str
first_filled [] slug = slug
first_filled (c ∷ id) slug = c ∷ id

-- `id` and `slug` are the values in the path, empty where the route has none.
unfoldable pub redirect_legacy_pr : Driver → Str → Str → Db → Response Str
redirect_legacy_pr drv id slug db =
    let path = first_filled id slug in
    if str_eq path []
    then Response.redirect (codes "/")
    else if str_eq path (codes "active")
    then Response.redirect (codes "/active")
    else if str_eq path (codes "inactive")
    then Response.redirect (codes "/inactive")
    else by_parts drv db (split path (slash ∷ []))

remainder_of-split : (tail : Str) → remainder_of (split tail (slash ∷ [])) ≡ slash ∷ tail
remainder_of-split tail =
    let (p, ps, e) = split-cons tail (slash ∷ []) in
    ap remainder_of e
    ∙ ap (λ t. slash ∷ t) (ap (λ parts. join parts (slash ∷ [])) (sym e) ∙ join-split slash [] tail)

-- A path that begins with a digit is no name of a list.
to_parts :
    (drv : Driver) (d : ℕ) (rest path : Str) (db : Db)
    → IsDigit d
    → path ≡ d ∷ rest
    → redirect_legacy_pr drv [] path db ≡ by_parts drv db (split path (slash ∷ []))
unfolding redirect_legacy_pr
to_parts drv d rest path db digit e = rw e (ground arith)

module _ (drv : Driver) (db : Db) (id : ℕ) (pr : PatchRequest) (fits : id ≤ max_int64)
    (found : get_patch_request_by_id drv id db ≡ ok pr) where
  found_by :
      (rev : Str) (parts : List Str)
      → by_number drv db rev parts (parse_int (format id)) ≡ new_address rev parts (ok pr)
  found_by rev parts = rw (parse_int-format id fits) (rw found refl)

  abbrev pub moved : Str → Response Str
  moved rest = Response.redirect (slash ∷ (pr.repo_name ++ (slash ∷ (pr.slug ++ rest))))

  numbered :
      (parts : List Str) (first : Str) (cut : Option (Str × Str)) (rev : Str)
      → cut_last full_stop first ≡ cut
      → number_and_rev first cut ≡ (format id, rev)
      → by_parts drv db (first ∷ parts) ≡ new_address rev parts (ok pr)
  numbered parts first cut rev is_cut split_off = rw is_cut (rw split_off (found_by rev parts))

  no_slash : has_byte slash (format id) ≡ false
  no_slash = has_byte-digits slash (format id) (format-digits id) (omega arith)

  no_dot : has_byte full_stop (format id) ≡ false
  no_dot = has_byte-digits full_stop (format id) (format-digits id) (omega arith)

  -- An address that begins with the number is split at its slashes.
  to_parts_of :
      (rest : Str)
      → redirect_legacy_pr drv [] (format id ++ rest) db
        ≡ by_parts drv db (split (format id ++ rest) (slash ∷ []))
  to_parts_of rest =
      let (d, digits, e) = format-cons id in
      let (digit, _) = rw e at (format-digits id) in
      to_parts drv d (digits ++ rest) (format id ++ rest) db digit (ap (λ s. s ++ rest) e)

  -- What stands in front of the first slash is the number, or the number with a revision.
  alone :
      (first rev : Str)
      → has_byte slash first ≡ false
      → number_and_rev first (cut_last full_stop first) ≡ (format id, rev)
      → by_parts drv db (split first (slash ∷ [])) ≡ moved (rev ++ [])
  alone first rev whole cut =
      ap (by_parts drv db) (split-whole slash first whole)
      ∙ numbered [] first (cut_last full_stop first) rev refl cut

  with_tail :
      (first rev tail : Str)
      → has_byte slash first ≡ false
      → number_and_rev first (cut_last full_stop first) ≡ (format id, rev)
      → by_parts drv db (split (first ++ slash ∷ tail) (slash ∷ [])) ≡ moved (rev ++ slash ∷ tail)
  with_tail first rev tail whole cut =
      ap (by_parts drv db) (split-part slash first tail whole)
      ∙ numbered (split tail (slash ∷ [])) first (cut_last full_stop first) rev refl cut
      ∙ ap (λ t. moved (rev ++ t)) (remainder_of-split tail)

  plain_number : number_and_rev (format id) (cut_last full_stop (format id)) ≡ (format id, [])
  plain_number = rw (cut_last-lacks full_stop (format id) no_dot) refl

  with_rev :
      (rev : Str)
      → has_byte full_stop rev ≡ false
      → number_and_rev
          (format id ++ full_stop ∷ rev)
          (cut_last full_stop (format id ++ full_stop ∷ rev))
        ≡ (format id, full_stop ∷ rev)
  with_rev rev single = rw (cut_last-append full_stop (format id) rev single) refl

  -- The address that named a request by its number is moved to the one with its repository and slug:
  -- the number alone, the number with anything behind a slash, the number with a revision (that has
  -- neither a dot nor a slash), and the number with a revision and anything behind a slash, each with
  -- the same revision and the same rest.
  pub redirect_legacy_pr-moves :
      (rev tail : Str)
      → has_byte slash rev ≡ false
      → has_byte full_stop rev ≡ false
      → (redirect_legacy_pr drv [] (format id) db ≡ moved [])
        × (redirect_legacy_pr drv [] (format id ++ slash ∷ tail) db ≡ moved (slash ∷ tail))
        × (redirect_legacy_pr drv [] (format id ++ full_stop ∷ rev) db ≡ moved (full_stop ∷ rev))
        × (redirect_legacy_pr drv [] (format id ++ full_stop ∷ (rev ++ slash ∷ tail)) db
            ≡ moved (full_stop ∷ (rev ++ slash ∷ tail)))
  redirect_legacy_pr-moves rev tail plain single =
      let first = format id ++ full_stop ∷ rev in
      let path = append_assoc (format id) (full_stop ∷ rev) (slash ∷ tail) in
      let whole : has_byte slash first ≡ false =
        has_byte-append slash (format id) (full_stop ∷ rev) ∙ ground (arith, no_slash, plain) in
      let serve = λ (s : Str). redirect_legacy_pr drv [] s db in
      (
        ap serve (sym (append-nil (format id)))
            ∙ to_parts_of []
            ∙ ap (λ s. by_parts drv db (split s (slash ∷ []))) (append-nil (format id))
            ∙ alone (format id) [] no_slash plain_number,
        to_parts_of (slash ∷ tail) ∙ with_tail (format id) [] tail no_slash plain_number,
        to_parts_of (full_stop ∷ rev)
            ∙ alone first (full_stop ∷ rev) whole (with_rev rev single)
            ∙ ap (λ t. moved (full_stop ∷ t)) (append-nil rev),
        to_parts_of (full_stop ∷ (rev ++ slash ∷ tail))
            ∙ ap (λ s. by_parts drv db (split s (slash ∷ []))) (sym path)
            ∙ with_tail first (full_stop ∷ rev) tail whole (with_rev rev single),
      )
