-- ===== src/CoverLetter/Preserved.antt =====
-- The mbox that is sent out holds the patchset as it was submitted.
use patchbin.Base.{
  ℕ, Str, Option, none, some, List, [], ◌∷◌, ◌++◌, append_assoc, append-nil, map, drop, take,
  take-append-drop, ok, if◌then◌else◌, Bool-cases, inl, inr, ◌≡◌, refl, sym, ap, subst, ◌∙◌,
}
use patchbin.Base.Search.{index_of, join}
use patchbin.Store.{User, PatchRequest, PatchText, EventLog}
use patchbin.Mbox.{Tools, File, newline, parse_patchset}
use patchbin.Mbox.Texts.{join-parse_patchset, raw_texts}
use patchbin.CoverLetter.{
  Layouts, line_end, trailer, references_text, has_cover_letter, augment_cover_letter_patch,
  insert_at, following, build_discussion, generate_cover_letter_patch,
  generate_mbox_with_cover_letter,
}

-- `mbox` is `text` with `piece` put in at one place.
abbrev pub HasInserted : Str → Str → Str → Type 0
HasInserted text piece mbox =
    (before after : Str) × (before ++ after ≡ text) × (mbox ≡ before ++ (piece ++ after))

abbrev pub texts : List (PatchText × List File) → List PatchText
texts = map (λ p. p.0)

-- A first patch and those that follow it are the texts joined by line ends.
join-following :
    (p : PatchText × List File) (ps : List (PatchText × List File))
    → join (raw_texts (p ∷ ps)) line_end ≡ p.0.raw_text ++ following (texts ps)
unfolding following join
join-following p [] = sym (append-nil _)
join-following p (q ∷ ps) = ap (λ s. p.0.raw_text ++ (line_end ++ s)) (join-following q ps)

insert_at-HasInserted :
    (o : Option ℕ) (raw piece rest : Str)
    → HasInserted (raw ++ rest) piece (insert_at o raw piece ++ rest)
insert_at-HasInserted none raw piece rest = (raw, rest, refl, append_assoc raw piece rest)
insert_at-HasInserted (some i) raw piece rest = (
  take i raw,
  drop i raw ++ rest,
  sym (append_assoc (take i raw) (drop i raw) rest) ∙ ap (λ s. s ++ rest) (take-append-drop i raw),
  append_assoc (take i raw) (piece ++ drop i raw) rest
      ∙ ap (λ s. take i raw ++ s) (append_assoc piece (drop i raw) rest),
)

-- What is put into the text that was submitted.
abbrev pub piece_of : Layouts → PatchRequest → List PatchText → Str → Str → Str
piece_of layouts pr ps discussion url =
    if has_cover_letter ps
    then references_text discussion url pr.id
    else (generate_cover_letter_patch layouts pr discussion url ++ line_end)

-- For every patchset that is accepted, the mbox that is made of its patches is the text that was
-- submitted with one piece put in: the reference and the discussion if the first patch is a cover
-- letter, and otherwise the generated cover letter and a line end. No byte of the text is lost or changed.
pub generate_mbox-HasInserted :
    (layouts : Layouts) (tools : Tools) (text : Str) (ps : List (PatchText × List File))
    (pr : PatchRequest) (events : List EventLog) (users : ℕ → Option User) (url : Str)
    → parse_patchset tools text ≡ ok ps
    → HasInserted text
        (piece_of layouts pr (texts ps) (build_discussion layouts events users) url)
        (generate_mbox_with_cover_letter layouts pr (texts ps) events users url)
unfolding augment_cover_letter_patch generate_mbox_with_cover_letter following
generate_mbox-HasInserted layouts tools text [] pr events users url h =
    absurd ((join-parse_patchset tools text [] h).0 refl)
generate_mbox-HasInserted layouts tools text (p ∷ ps) pr events users url h =
    let discussion = build_discussion layouts events users in
    let whole : p.0.raw_text ++ following (texts ps) ≡ text =
      sym (join-following p ps) ∙ (join-parse_patchset tools text (p ∷ ps) h).1 in
    let cover_text = generate_cover_letter_patch layouts pr discussion url in
    elim (Bool-cases (has_cover_letter (texts (p ∷ ps)))) [
      | inl cover ↦ rw cover (
          subst
            (λ t. HasInserted t (references_text discussion url pr.id) (
              augment_cover_letter_patch p.0.raw_text discussion url pr.id ++ following (texts ps)))
            whole
            (insert_at-HasInserted (index_of p.0.raw_text trailer) p.0.raw_text
              (references_text discussion url pr.id) (following (texts ps))))
      | inr cover ↦ rw cover (
        [],
        text,
        refl,
        ap (λ s. cover_text ++ (newline ∷ s)) whole ∙ sym (append_assoc cover_text line_end text),
      )
    ]
