-- ===== src/DiffHtml.antt =====
-- diff_render.go: a hunk as a table in HTML. The highlighting of chroma and the printing of a hunk's
-- header by go-gitdiff are the argument `Painter`.
pub mod Numbers
use patchbin.Base.{
  ℕ, suc, ◌+◌, Str, Bool, true, false, ◌||◌, Option, none, some, List, [], ◌∷◌, ◌++◌, codes, ◌==◌,
  str_eq, if◌then◌else◌,
}
use patchbin.Base.Number.{format}
use patchbin.Base.Space.{trim_space}
use patchbin.Mbox.{LineOp, Line, Fragment}

-- What the highlighter does with a line: no tokens, the markup of the line, or an error behind the
-- part that was written already.
pub data Painted : Type 0 where
  untokenised : Painted
  formatted : Str → Painted
  broken : Str → Painted

pub record Painter : Type 0 where
  pub header : Fragment → Str
  pub paint : Str → Str → Painted

-- html.EscapeString
unfoldable pub escape_string : Str → Str
escape_string [] = []
escape_string (c ∷ s) =
    let rest = escape_string s in
    if c == b'<'
    then codes "&lt;" ++ rest
    else if c == b'>'
    then codes "&gt;" ++ rest
    else if c == b'&'
    then codes "&amp;" ++ rest
    else if c == 39
    then codes "&#39;" ++ rest
    else if c == 34
    then codes "&#34;" ++ rest
    else (c ∷ rest)

-- `strings.TrimRight(s, "\r\n")`
unfoldable pub trim_line_break : Str → Str
trim_line_break [] = []
trim_line_break (c ∷ s) =
    let rest = trim_line_break s in
    if str_eq rest [] then (if c == 13 || c == 10 then [] else (c ∷ [])) else (c ∷ rest)

abbrev pub span_text : ℕ → ℕ → Str
span_text position lines = format position ++ (codes "," ++ format lines)

abbrev pub comment_behind : Str → Str
comment_behind [] = []
comment_behind (c ∷ comment) = codes " " ++ (c ∷ comment)

-- The header of the library, or one that is put together.
unfoldable pub hunk_header : Painter → Fragment → Str
hunk_header painter f =
    let header = trim_space (painter.header f) in
    if str_eq header []
    then codes "@@ -"
      ++ (span_text f.old_position f.old_lines
          ++ (codes " +"
              ++ (span_text f.new_position f.new_lines
                  ++ (codes " @@" ++ comment_behind f.comment))))
    else header

-- The numbers of a line, its gutter and its class.
pub record DiffRow : Type 0 where
  pub old_number : Option ℕ
  pub new_number : Option ℕ
  pub gutter : Str
  pub row_class : Str
  pub content : Str

unfoldable pub diff_rows : ℕ → ℕ → List Line → List DiffRow
diff_rows old new [] = []
diff_rows old new (l ∷ ls) =
    let both = diff_rows (suc old) (suc new) ls in
    let left = diff_rows (suc old) new ls in
    let right = diff_rows old (suc new) ls in
    elim l.op [
      | LineOp.op_context ↦
          (record {
            old_number = some old;
            new_number = some new;
            gutter = codes " ";
            row_class = codes "diff-line diff-line-context";
            content = l.line;
          }
            ∷ both)
      | LineOp.op_delete ↦
          (record {
            old_number = some old;
            new_number = none;
            gutter = codes "-";
            row_class = codes "diff-line diff-line-delete";
            content = l.line;
          }
            ∷ left)
      | LineOp.op_add ↦
          (record {
            old_number = none;
            new_number = some new;
            gutter = codes "+";
            row_class = codes "diff-line diff-line-add";
            content = l.line;
          }
            ∷ right)
    ]

-- `anchor-L12`, if the hunk has an anchor.
abbrev pub anchor_id : Str → Str → ℕ → Str
anchor_id [] side n = []
anchor_id (c ∷ anchor) side n = (c ∷ anchor) ++ (side ++ format n)

-- The number as a link, if it has an id.
abbrev pub number_link : Str → ℕ → Str
number_link [] n = format n
number_link (c ∷ id) n =
    codes "<a href=\"#" ++ (escape_string (c ∷ id) ++ (codes "\">" ++ (format n ++ codes "</a>")))

abbrev pub id_attribute : Str → Str
id_attribute [] = []
id_attribute (c ∷ id) = codes " id=\"" ++ (escape_string (c ∷ id) ++ codes "\"")

-- A cell of a column of numbers.
unfoldable pub number_cell : Str → Str → Str → Option ℕ → Str
number_cell class anchor side none = codes "<td class=\"diff-num " ++ (class ++ codes "\"></td>")
number_cell class anchor side (some n) =
    let id = anchor_id anchor side n in
    codes "<td class=\"diff-num "
    ++ (class
        ++ (codes "\""
            ++ (id_attribute id
                ++ (codes " data-line-number=\""
                    ++ (format n ++ (codes "\">" ++ (number_link id n ++ codes "</td>")))))))

abbrev pub painted_text : Str → Painted → Str
painted_text content untokenised = escape_string content
painted_text content (formatted markup) = markup
painted_text content (broken markup) = markup ++ escape_string content

abbrev pub code_text : Painter → Str → Str → Str
code_text painter file [] = codes "\n"
code_text painter file (c ∷ content) = painted_text (c ∷ content) (painter.paint file (c ∷ content))

unfoldable pub row_html : Painter → Str → Str → DiffRow → Str
unfolding number_cell escape_string trim_line_break
row_html painter file anchor row =
    codes "<tr class=\""
    ++ (row.row_class
        ++ (codes "\">"
            ++ (number_cell (codes "diff-num-old") anchor (codes "-L") row.old_number
                ++ (number_cell (codes "diff-num-new") anchor (codes "-R") row.new_number
                    ++ (codes "<td class=\"diff-gutter\">"
                        ++ (escape_string row.gutter
                            ++ (codes "</td><td class=\"diff-code\">"
                                ++ (code_text painter file (trim_line_break row.content)
                                    ++ codes "</td></tr>\n"))))))))

unfoldable pub rows_html : Painter → Str → Str → List DiffRow → Str
unfolding row_html
rows_html painter file anchor [] = []
rows_html painter file anchor (r ∷ rs) =
    row_html painter file anchor r ++ rows_html painter file anchor rs

-- The whole table; it is never an error.
unfoldable pub format_diff_hunk : Painter → Str → Fragment → Str → Str
unfolding hunk_header diff_rows rows_html
format_diff_hunk painter file f anchor =
    codes
      "<div class=\"chroma diff-container\"><table class=\"diff-table\"><tbody class=\"diff-hunk\">"
    ++ (codes "<tr class=\"diff-line diff-line-hunk\"><td class=\"diff-num diff-num-old\">...</td>"
        ++ (codes "<td class=\"diff-num diff-num-new\">...</td><td class=\"diff-gutter\"></td>"
            ++ (codes "<td class=\"diff-code\"><span class=\"gu\">"
                ++ (escape_string (hunk_header painter f)
                    ++ (codes "</span></td></tr>\n"
                        ++ (rows_html painter file anchor
                              (diff_rows f.old_position f.new_position f.lines)
                            ++ codes "</tbody></table></div>"))))))
