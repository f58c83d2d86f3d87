-- ===== src/Cli/Summary.antt =====
-- What `show` and a push print of a patch request: prSummary and formatTable of cli.go. The columns of
-- text/tabwriter, the layout of times and SHA-256 are arguments.
use patchbin.Base.{
  ℕ, suc, Str, Bool, true, false, ◌++◌, Option, none, some, List, [], ◌∷◌, codes, length, str_eq,
  last_elem?, Result, ok, err, Error, ◌>>=◌, ◌≡◌, refl,
}
use patchbin.Base.Number.{format}
use patchbin.Base.Search.{split}
use patchbin.Store.{PatchRequest, Patchset, Patch, User, Db, Driver}
use patchbin.Pr.Queries.{
  indexed, get_patchsets_by_pr_id, get_patches_by_patchset_id, get_user_by_id,
}
use patchbin.Mbox.{newline}
use patchbin.RangeDiff.{truncate_sha}
use patchbin.Cli.{pr_summary}

-- An escape sequence `\033[…m`.
abbrev ansi : Str → Str
ansi code = 27 ∷ b'[' ∷ code ++ b'm' ∷ []

abbrev ansi_reset : Str
ansi_reset = ansi (codes "0")

abbrev ansi_bold : Str
ansi_bold = ansi (codes "1")

abbrev ansi_gray : Str
ansi_gray = ansi (codes "90")

-- Texts one behind the other.
abbrev pub joined : List Str → Str
joined [] = []
joined (s ∷ ss) = s ++ joined ss

-- The bytes of U+25CF and of U+25B8.
abbrev bullet : Str
bullet = 226 ∷ 151 ∷ 143 ∷ []

abbrev triangle : Str
triangle = 226 ∷ 150 ∷ 184 ∷ []

abbrev tab : Str
tab = 9 ∷ []

-- A line of the table; only the first line of all is gray.
abbrev pub table_line : Bool → Str → Str
table_line first [] = []
table_line true (c ∷ line) = joined (ansi_gray ∷ (c ∷ line) ∷ ansi_reset ∷ (newline ∷ []) ∷ [])
table_line false (c ∷ line) = (c ∷ line) ++ newline ∷ []

abbrev pub table_lines : Bool → List Str → Str
table_lines first [] = []
table_lines first (line ∷ lines) = table_line first line ++ table_lines false lines

-- The times, the names of users and the columns.
pub record Screen : Type 0 where
  pub align : Str → Str
  pub time_format : ℕ → Str
  pub user_name : Str → Str
  pub url : Str

unfoldable pub format_table : Screen → Str → Str
format_table screen text = table_lines true (split (screen.align text) (newline ∷ []))

module _ (screen : Screen) (pr : PatchRequest) where
  abbrev pub heading_line : Str → Str → Str
  heading_line label text =
      joined (codes "  " ∷ ansi_gray ∷ label ∷ ansi_reset ∷ text ∷ (newline ∷ []) ∷ [])

  abbrev pub headings : Str
  headings = joined (
      (ansi_bold
        ++ bullet
        ++ codes " PR "
        ++ pr.repo_name
        ++ codes ":"
        ++ pr.slug
        ++ ansi_reset
        ++ codes "  "
        ++ ansi_bold
        ++ pr.name
        ++ ansi_reset
        ++ newline ∷ [])
      ∷ heading_line (codes "Repo:") (codes "   " ++ pr.repo_name)
      ∷ heading_line (codes "Slug:") (codes "   " ++ pr.slug)
      ∷ heading_line (codes "URL:")
          (codes "    https://" ++ screen.url ++ codes "/" ++ pr.repo_name ++ codes "/" ++ pr.slug)
      ∷ heading_line (codes "Date:") (codes "   " ++ screen.time_format pr.created_at)
      ∷ (newline ∷ [])
      ∷ [])

  -- `repo:slug.rev`
  abbrev pub shown_target : ℕ → Str
  shown_target rev = pr.repo_name ++ codes ":" ++ pr.slug ++ codes "." ++ format rev

  abbrev pub patchset_row_text : ℕ → Patchset → Result User → Str
  patchset_row_text rev p (err e) = []
  patchset_row_text rev p (ok user) = joined (
      codes "  v"
      ∷ format rev
      ∷ tab
      ∷ shown_target rev
      ∷ tab
      ∷ screen.user_name user.pubkey
      ∷ tab
      ∷ screen.time_format p.created_at
      ∷ (newline ∷ [])
      ∷ [])

  -- A row for each patchset whose user is found.
  unfoldable pub patchset_rows : Driver → Db → ℕ → List Patchset → Str
  patchset_rows drv db rev [] = []
  patchset_rows drv db rev (p ∷ ps) =
      patchset_row_text rev p (get_user_by_id drv p.user_id db) ++ patchset_rows drv db (suc rev) ps

  abbrev pub author_text : Patch → Str
  author_text p = elim (str_eq p.content.author_email []) [
    | true ↦ p.content.author_name
    | false ↦ joined (p.content.author_name ∷ codes " <" ∷ p.content.author_email ∷ codes ">" ∷ [])
  ]

  unfoldable pub patch_rows : ℕ → List Patch → Str
  unfolding truncate_sha
  patch_rows n [] = []
  patch_rows n (p ∷ ps) =
      joined (
        codes "  "
        ∷ format n
        ∷ tab
        ∷ truncate_sha p.content.commit_sha
        ∷ tab
        ∷ author_text p
        ∷ tab
        ∷ screen.time_format p.content.author_date
        ∷ tab
        ∷ p.content.title
        ∷ (newline ∷ [])
        ∷ [])
      ++ patch_rows (suc n) ps

  abbrev pub section_line : Str → Str → Str
  section_line title note = joined (
      ansi_bold
      ∷ triangle
      ∷ codes " "
      ∷ title
      ∷ ansi_reset
      ∷ codes " "
      ∷ ansi_gray
      ∷ note
      ∷ ansi_reset
      ∷ (newline ∷ [])
      ∷ [])

  -- What is printed, and the error that ends it; nothing printed is taken back.
  abbrev pub patches_part : Str → ℕ → Result (List Patch) → Str × Result (Unit {0})
  patches_part out count (err e) = (out, err e)
  patches_part out count (ok patches) = (
    joined (
        out
        ∷ (newline ∷ [])
        ∷ section_line (codes "Patches") (codes "(latest: v" ++ format count ++ codes ")")
        ∷ format_table screen (codes "  #\tCommit\tAuthor\tDate\tTitle\n" ++ patch_rows 1 patches)
        ∷ []),
    ok tt,
  )

  abbrev pub latest_part : Driver → Db → Str → ℕ → Option Patchset → Str × Result (Unit {0})
  latest_part drv db out count none = (out, err Error.panic)
  latest_part drv db out count (some latest) =
      patches_part out count (get_patches_by_patchset_id drv latest.id db)

  abbrev pub patchsets_part : Driver → Db → Result (List Patchset) → Str × Result (Unit {0})
  patchsets_part drv db (err e) = (headings, err e)
  patchsets_part drv db (ok patchsets) =
      latest_part drv db
        (joined (
          headings
          ∷ section_line (codes "Patchsets")
              (codes "(" ++ format (length patchsets) ++ codes " total)")
          ∷ format_table screen
              (codes "  Rev\tTarget\tUser\tDate\n" ++ patchset_rows drv db 1 patchsets)
          ∷ []))
        (length patchsets) (last_elem? patchsets)

  unfoldable pub print_summary : Driver → Db → Str × Result (Unit {0})
  unfolding format_table patchset_rows patch_rows
  print_summary drv db = patchsets_part drv db (get_patchsets_by_pr_id drv pr.id db)

  -- The answer of the session is the one that the commands give.
  print_summary-pr_summary :
      (drv : Driver) (db : Db) → (print_summary drv db).1 ≡ pr_summary drv pr db
  unfolding print_summary pr_summary
  print_summary-pr_summary drv db = answer (get_patchsets_by_pr_id drv pr.id db)
    where
      ended :
          (out : Str) (count : ℕ) (r : Result (List Patch))
          → (patches_part out count r).1 ≡ (r >>= λ _. ok tt)
      ended out count (err e) = refl
      ended out count (ok patches) = refl

      of_latest :
          (out : Str) (count : ℕ) (o : Option Patchset)
          → (latest_part drv db out count o).1
            ≡ (indexed o >>= λ latest. get_patches_by_patchset_id drv latest.id db >>= λ _. ok tt)
      of_latest out count none = refl
      of_latest out count (some latest) =
          ended out count (get_patches_by_patchset_id drv latest.id db)

      answer :
          (r : Result (List Patchset))
          → (patchsets_part drv db r).1 ≡ (
              r >>= λ patchsets. indexed (last_elem? patchsets) >>= λ latest.
              get_patches_by_patchset_id drv latest.id db >>= λ _. ok tt)
      answer (err e) = refl
      answer (ok patchsets) = of_latest _ _ (last_elem? patchsets)
