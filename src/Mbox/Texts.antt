-- ===== src/Mbox/Texts.antt =====
-- Parsing a patchset loses nothing of its text.
use patchbin.Base.{
  Str, not, List, [], ◌∷◌, ◌++◌, map, has_prefix, str_eq, ok, Error, fail_if, >>=-eq-ok, ◌≡◌, ◌≢◌,
  sym, ap, ◌∙◌, arith,
}
use patchbin.Base.Space.{trim_space}
use patchbin.Base.Search.{join, join-split, split-cons, join-map_append}
use patchbin.Store.{PatchText}
use patchbin.Mbox.{
  Tools, File, start_of_patch, newline, split_patch_set, parse_part, parse_rest, parse_parts,
  parse_patchset,
}

abbrev pub raw_texts : List (PatchText × List File) → List Str
raw_texts = map (λ p. p.0.raw_text)

module _ (tools : Tools) where
  parse_part-text :
      (raw text : Str) (p : PatchText × List File)
      → parse_part tools raw text ≡ ok p
      → p.0.raw_text ≡ text
  unfolding parse_part
  parse_part-text raw text p h =
      let ((files, preamble), _, rest) = >>=-eq-ok (tools.parse_patch text) _ h in
      let (header, _, last) = >>=-eq-ok (tools.parse_header preamble) _ rest in ground (arith, last)

  parse_rest-texts :
      (raws : List Str) (ps : List (PatchText × List File))
      → parse_rest tools raws ≡ ok ps
      → raw_texts ps ≡ map (λ raw. start_of_patch ++ raw) raws
  unfolding parse_rest
  parse_rest-texts [] ps h = ground arith
  parse_rest-texts (raw ∷ raws) ps h =
      let (q, first, rest) = >>=-eq-ok (parse_part tools raw (start_of_patch ++ raw)) _ h in
      let (qs, others, last) = >>=-eq-ok (parse_rest tools raws) _ rest in
      let whole : ps ≡ q ∷ qs = ground (arith, last) in
      ap raw_texts whole ∙ (λ i.
        parse_part-text raw (start_of_patch ++ raw) q first i ∷ parse_rest-texts raws qs others i)

  parse_parts-texts :
      (raw : Str) (raws : List Str) (ps : List (PatchText × List File))
      → parse_parts tools (raw ∷ raws) ≡ ok ps
      → raw_texts ps ≡ raw ∷ map (λ raw. start_of_patch ++ raw) raws
  unfolding parse_parts
  parse_parts-texts raw raws ps h =
      let (q, first, rest) = >>=-eq-ok (parse_part tools raw raw) _ h in
      let (qs, others, last) = >>=-eq-ok (parse_rest tools raws) _ rest in
      let whole : ps ≡ q ∷ qs = ground (arith, last) in
      ap raw_texts whole
      ∙ (λ i. parse_part-text raw raw q first i ∷ parse_rest-texts raws qs others i)

  -- Nothing of a patchset that is accepted is lost or changed: there is at least one patch, and the
  -- texts that are stored, with a line end between each and the next, are the text that was sent.
  pub join-parse_patchset :
      (text : Str) (ps : List (PatchText × List File))
      → parse_patchset tools text ≡ ok ps
      → (ps ≢ []) × (join (raw_texts ps) (newline ∷ []) ≡ text)
  unfolding parse_patchset split_patch_set
  join-parse_patchset text ps h =
      let sep : Str = newline ∷ start_of_patch in
      let (_, _, rest) =
        >>=-eq-ok (fail_if (str_eq (trim_space text) []) Error.patchset_empty) _ h in
      let (_, _, parsed) =
        >>=-eq-ok (fail_if (not (has_prefix text start_of_patch)) Error.patchset_unrecognized) _
          rest in
      let (raw, raws, parts) = split-cons text sep in
      let texts = parse_parts-texts raw raws ps (rw parts at parsed) in
      (
        λ none_left. cc (texts, ap raw_texts none_left),
        ap (λ ts. join ts (newline ∷ [])) texts
            ∙ join-map_append (newline ∷ []) start_of_patch raw raws
            ∙ ap (λ ts. join ts sep) (sym parts)
            ∙ join-split newline start_of_patch text,
      )
