-- ===== src/Resolve/Ids.antt =====
-- The id of a patchset that is shown, `pr.rev`, is read back.
use mathlib.Core.List.{reverse}
use patchbin.Base.{
  ℕ, ◌≤◌, ◌<◌, Str, false, some, [], ◌∷◌, ◌++◌, append_assoc, codes, str_eq, trim_prefix, ok, ◌≡◌,
  refl, sym, ap, ◌∙◌, arith,
}
use patchbin.Base.Space.{trim_space, trim_space-plain, starts_plain}
use patchbin.Base.Search.{cut_first, cut_first-append}
use patchbin.Base.Number.{
  pos, max_int64, parse_int-format, format, format-cons, format-digits, IsDigit,
}
use patchbin.Target.{dot}
use patchbin.Target.Digits.{has_byte-digits, plain-digit, trim_prefix-digits, reverse-format}
use patchbin.Resolve.{id_of, parse_id, get_formatted_patchset_id}

-- A text that nothing is trimmed of, cut at its first dot.
parse_id-step :
    (text before behind : Str)
    → trim_space text ≡ text
    → str_eq text [] ≡ false
    → trim_prefix text (codes "pr-") ≡ text
    → cut_first dot text ≡ (before, some behind)
    → parse_id text ≡ id_of (before, some behind)
unfolding parse_id
parse_id-step text before behind plain filled whole cut =
    rw plain (rw filled (ap id_of (ap (cut_first dot) whole ∙ cut)))

digits_filled : (d : ℕ) (rest : Str) → str_eq (d ∷ rest) [] ≡ false
digits_filled d rest = refl

digits_whole : (d : ℕ) (rest : Str) → IsDigit d → trim_prefix (d ∷ rest) (codes "pr-") ≡ d ∷ rest
digits_whole d rest h = ground arith

id_of-format :
    (pr rev : ℕ)
    → pr ≤ max_int64
    → rev ≤ max_int64
    → id_of (format pr, some (format rev)) ≡ ok (record { pr_id = pos pr; rev = pos rev })
id_of-format pr rev fits fits' = rw (parse_int-format pr fits) (
    rw (trim_prefix-digits (format rev) (format-digits rev)) (rw (parse_int-format rev fits') refl))

-- The id of a patchset that is shown, of a request and a revision that are positive and in the range
-- of int64, is read back as these two numbers.
pub parse_id-get_formatted_patchset_id :
    (pr rev : ℕ)
    → 0 < pr
    → 0 < rev
    → pr ≤ max_int64
    → rev ≤ max_int64
    → parse_id (get_formatted_patchset_id pr rev) ≡ ok (record { pr_id = pos pr; rev = pos rev })
unfolding get_formatted_patchset_id
parse_id-get_formatted_patchset_id pr rev some_pr some_rev fits fits' =
    let text : Str = format pr ++ (dot ∷ format rev) in
    let shown : get_formatted_patchset_id pr rev ≡ text = ground arith in
    let (d, rest, e) = format-cons pr in
    let (digit, _) = rw e at (format-digits pr) in
    let front : text ≡ d ∷ (rest ++ dot ∷ format rev) = ap (λ s. s ++ dot ∷ format rev) e in
    let (c, tail, e', last_digit) = reverse-format (format pr ++ dot ∷ []) rev in
    let joined : (format pr ++ dot ∷ []) ++ format rev ≡ text =
      append_assoc (format pr) (dot ∷ []) (format rev) in
    let back : reverse text ≡ c ∷ tail = ap reverse (sym joined) ∙ e' in
    ap parse_id shown
    ∙ parse_id-step text (format pr) (format rev)
        (trim_space-plain text (ap starts_plain front ∙ plain-digit d digit)
          (ap starts_plain back ∙ plain-digit c last_digit))
        (ap (λ s. str_eq s []) front) (rw front (digits_whole d (rest ++ dot ∷ format rev) digit))
        (cut_first-append dot (format pr) (format rev)
          (has_byte-digits dot (format pr) (format-digits pr) (omega arith)))
    ∙ id_of-format pr rev fits fits'
