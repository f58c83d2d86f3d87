-- ===== src/CoverLetter.antt =====
-- cover_letter.go: the mbox that is sent out for a patch request, with a cover letter that carries
-- the discussion.
pub mod Preserved
use patchbin.Base.{
  ℕ, suc, ◌+◌, Str, Bool, true, false, not, ◌&&◌, ◌++◌, Option, none, some, List, [], ◌∷◌, codes,
  ◌==◌, ltb, str_eq, drop, take, if◌then◌else◌, any_row,
}
use patchbin.Base.Space.{trim_space}
use patchbin.Base.Search.{index_of, contains, split}
use patchbin.Base.Number.{format}
use patchbin.Base.Sort.{sort_by}
use patchbin.Store.{User, PatchRequest, PatchText, EventKind, EventLog, NullInt64}
use patchbin.Mbox.{newline}

-- The layouts RFC3339 and RFC1123Z of `Time.Format`, and SHA-256 in hexadecimal.
pub record Layouts : Type 0 where
  pub rfc3339 : ℕ → Str
  pub rfc1123z : ℕ → Str
  pub sha256_hex : Str → Str

abbrev pub line_end : Str
line_end = newline ∷ []

abbrev pub diff_mark : Str
diff_mark = codes "diff --git"

abbrev pub trailer : Str
trailer = newline ∷ codes "-- \n"

unfoldable pub has_cover_letter : List PatchText → Bool
has_cover_letter [] = false
has_cover_letter (p ∷ ps) = not (contains p.raw_text diff_mark)

-- `patchsetEventTypes`
abbrev pub submits : EventKind → Bool
submits EventKind.pr_created = true
submits EventKind.pr_patchset_added = true
submits e = false

-- A column that is set and positive.
abbrev pub is_set : NullInt64 → Bool
is_set n = n.valid && ltb 0 n.int64

-- `prID`: the last event with a request names it.
unfoldable pub discussed_request : List EventLog → ℕ → ℕ
discussed_request [] id = id
discussed_request (e ∷ es) id =
    discussed_request es (if is_set e.patch_request_id then e.patch_request_id.int64 else id)

-- `psIDs`, before it is sorted
unfoldable pub submitted_ids : List EventLog → List ℕ → List ℕ
submitted_ids [] ids = ids
submitted_ids (e ∷ es) ids =
    let id = e.patchset_id.int64 in
    let is_new = submits e.event && (is_set e.patchset_id && not (any_row (λ k. k == id) ids)) in
    submitted_ids es (if is_new then ids ++ (id ∷ []) else ids)

-- `psRevs[id]`, if there is one: the place of `id` in the sorted list, counted from `n`.
unfoldable pub revision_of : ℕ → ℕ → ℕ → List ℕ → Option Str
revision_of pr id n [] = none
revision_of pr id n (k ∷ ks) =
    let later = revision_of pr id (suc n) ks in
    let name = if ltb 0 pr then format pr ++ (codes "." ++ format n) else codes "v" ++ format n in
    if k == id then some name else later

-- `strings.TrimRight(s, "\n")`
unfoldable pub trim_line_ends : Str → Str
trim_line_ends [] = []
trim_line_ends (c ∷ s) =
    let rest = trim_line_ends s in if (c == newline) && str_eq rest [] then [] else c ∷ rest

unfoldable pub indented : List Str → Str
indented [] = []
indented (l ∷ ls) = codes "  " ++ (l ++ (newline ∷ indented ls))

module _ (layouts : Layouts) where
  unfoldable pub pubkey_fingerprint : Str → Str
  pubkey_fingerprint pubkey = codes "SHA256:" ++ layouts.sha256_hex (trim_space pubkey ++ line_end)

  -- `"[%s] %s:\n"`
  unfoldable pub heading : EventLog → User → Str
  unfolding pubkey_fingerprint
  heading e u =
      codes "["
      ++ (layouts.rfc3339 e.created_at
          ++ (codes "] " ++ (pubkey_fingerprint u.pubkey ++ codes ":\n")))

  -- What one event adds, with the request and the sorted revisions.
  unfoldable pub event_text : ℕ → List ℕ → EventLog → User → Str
  unfolding heading revision_of indented
  event_text pr ids e u =
      let id = e.patchset_id.int64 in
      let name : Str = elim (revision_of pr id 1 ids) [
        | some r ↦ r
        | none ↦ codes "v" ++ format id
      ] in
      let submission = heading e u ++ (codes "  Submitted revision " ++ (name ++ codes "\n\n")) in
      let remark = heading e u ++ (indented (split e.payload.comment line_end) ++ line_end) in
      (if submits e.event && e.patchset_id.valid then submission else [])
      ++ (if str_eq e.payload.comment [] then [] else remark)

  unfoldable pub events_text : (ℕ → Option User) → ℕ → List ℕ → List EventLog → Str
  unfolding event_text
  events_text users pr ids [] = []
  events_text users pr ids (e ∷ es) =
      elim (users e.user_id) [ none ↦ [] | some u ↦ event_text pr ids e u ]
      ++ events_text users pr ids es

  unfoldable pub build_discussion : List EventLog → (ℕ → Option User) → Str
  unfolding events_text discussed_request submitted_ids trim_line_ends
  build_discussion [] users = []
  build_discussion (e ∷ es) users =
      let ids = sort_by (λ (k : ℕ). k) (submitted_ids (e ∷ es) []) in
      trim_line_ends (events_text users (discussed_request (e ∷ es) 0) ids (e ∷ es))

  unfoldable pub generate_cover_letter_patch : PatchRequest → Str → Str → Str
  generate_cover_letter_patch pr discussion url =
      codes "From 0000000000000000000000000000000000000000 Mon Sep 17 00:00:00 2001\n"
      ++ (codes "From: patchbin <patchbin@"
          ++ (url
              ++ (codes ">\n"
                  ++ (codes "Date: "
                      ++ (layouts.rfc1123z pr.created_at
                          ++ (line_end
                              ++ (codes "Subject: [patchbin #"
                                  ++ (format pr.id
                                      ++ (codes "] "
                                          ++ (pr.name
                                              ++ (codes "\n\n"
                                                  ++ (codes "References: https://"
                                                      ++ (url
                                                          ++ (codes "/pr/"
                                                            ++ (format pr.id
                                                            ++ (line_end
                                                            ++ ((if str_eq discussion []
                                                            then []
                                                            else line_end
                                                            ++ (discussion ++ line_end))
                                                            ++ codes
                                                            "\n-- \npatchbin cover letter\n")))))))))))))))))

-- `insert`
unfoldable pub references_text : Str → Str → ℕ → Str
references_text discussion url pr =
    codes "\nReferences: https://"
    ++ (url
        ++ (codes "/pr/"
            ++ (format pr
                ++ (line_end
                    ++ (if str_eq discussion []
                        then []
                        else line_end ++ (discussion ++ line_end))))))

-- In front of the trailer if there is one, and otherwise at the end.
abbrev pub insert_at : Option ℕ → Str → Str → Str
insert_at (some i) raw piece = take i raw ++ (piece ++ drop i raw)
insert_at none raw piece = raw ++ piece

unfoldable pub augment_cover_letter_patch : Str → Str → Str → ℕ → Str
augment_cover_letter_patch raw discussion url pr =
    insert_at (index_of raw trailer) raw (references_text discussion url pr)

-- The patches that follow the first text of the mbox.
unfoldable pub following : List PatchText → Str
following [] = []
following (p ∷ ps) = line_end ++ (p.raw_text ++ following ps)

module _ (layouts : Layouts) where
  -- `patches[0]` of the branch with a cover letter exists, since `has_cover_letter` is false for none.
  unfoldable pub generate_mbox_with_cover_letter :
      PatchRequest → List PatchText → List EventLog → (ℕ → Option User) → Str → Str
  unfolding has_cover_letter build_discussion generate_cover_letter_patch augment_cover_letter_patch
      following
  generate_mbox_with_cover_letter pr [] events users url =
      generate_cover_letter_patch layouts pr (build_discussion layouts events users) url
  generate_mbox_with_cover_letter pr (p ∷ ps) events users url =
      let discussion = build_discussion layouts events users in
      if has_cover_letter (p ∷ ps)
      then augment_cover_letter_patch p.raw_text discussion url pr.id ++ following ps
      else (generate_cover_letter_patch layouts pr discussion url ++ following (p ∷ ps))
