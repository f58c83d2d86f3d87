-- ===== src/Web/Server.antt =====
-- The server of web.go: its routes, the index page, the static files and the handlers in one function.
-- `http.ServeMux`, the file systems, the MIME types, the style sheet of chroma and the handling of the
-- templates are arguments.
use patchbin.Base.{Str, Bool, Option, none, some, List, [], ◌∷◌, codes, str_eq, if◌then◌else◌}
use patchbin.Base.Search.{join}
use patchbin.Store.{Db}
use patchbin.RangeDiff.{truncate_sha}
use patchbin.Web.{Response, TabStatus, PrListItem, pr_list_handler, repo_pr_list_handler}
use patchbin.Web.Feeds.{FeedItem, rss_handler}
use patchbin.Web.Data.{Site}
use patchbin.Web.Selected.{Page, create_pr_detail}

-- One part of a pattern of `http.ServeMux` between slashes: a literal, `{name}`, `{name...}`, and the
-- slash at the end of `/`.
pub data Piece : Type 0 where
  literal : Str → Piece
  wildcard rest subtree : Piece

-- The handlers that the server registers.
pub data Handler : Type 0 where
  index_handler active_handler inactive_handler all_rss_handler chroma_style_handler : Handler
  repo_list_handler pr_detail_handler static_handler : Handler

-- The pattern under which each handler is registered, all of them for GET.
unfoldable pub pattern_of : Handler → List Piece
pattern_of Handler.index_handler = Piece.subtree ∷ []
pattern_of Handler.active_handler = Piece.literal (codes "active") ∷ []
pattern_of Handler.inactive_handler = Piece.literal (codes "inactive") ∷ []
pattern_of Handler.all_rss_handler = Piece.literal (codes "rss") ∷ []
pattern_of Handler.chroma_style_handler = Piece.literal (codes "syntax.css") ∷ []
pattern_of Handler.repo_list_handler = Piece.wildcard ∷ []
pattern_of Handler.pr_detail_handler = Piece.wildcard ∷ Piece.rest ∷ []
pattern_of Handler.static_handler = Piece.literal (codes "static") ∷ Piece.wildcard ∷ []

-- `shaFn` of the templates
unfoldable pub sha_fn : Str → Str
unfolding truncate_sha
sha_fn sha = if str_eq sha [] then codes "(none)" else truncate_sha sha

-- `MetaData`; the tab is the one of a list.
pub record MetaData : Type 0 where
  pub url : Str
  pub desc : Str
  pub tab : Option TabStatus

-- What opening a file gives: nothing, a file that cannot be read, or its contents.
abbrev pub FileSystem : Type 0
FileSystem = Str → Option (Option Str)

pub data ServedPage : Type 0 where
  index : MetaData → ServedPage
  pr_list : List PrListItem → MetaData → ServedPage
  repo : Str → List PrListItem → MetaData → ServedPage
  feed : List FeedItem → ServedPage
  detail : Page → ServedPage
  style_sheet : Str → ServedPage
  static_file : Str → Str → ServedPage

abbrev pub map_page : {P : Type 0} → (P → ServedPage) → Response P → Response ServedPage
map_page f (Response.status n) = Response.status n
map_page f (Response.redirect to) = Response.redirect to
map_page f (Response.page p) = Response.page (f p)
map_page f Response.panicked = Response.panicked

-- `getUserDefinedFS`: no file system if the directory is not there.
abbrev pub get_user_defined_fs : (Str → Bool) → (Str → FileSystem) → Str → Option FileSystem
get_user_defined_fs stat dir_fs dir = if stat dir then some (dir_fs dir) else none

-- The user's file system is asked first; only what it cannot open is looked up in the embedded one.
abbrev pub open_merged : Option FileSystem → FileSystem → FileSystem
open_merged none embed_fs file = embed_fs file
open_merged (some user_fs) embed_fs file = elim (user_fs file) [
  | some opened ↦ some opened
  | none ↦ embed_fs file
]

abbrev pub contents_page : Str → Option (Option Str) → Response ServedPage
contents_page content_type none = Response.status 404
contents_page content_type (some none) = Response.status 404
contents_page content_type (some (some contents)) =
    Response.page (ServedPage.static_file content_type contents)

-- What the server takes from outside beside the `Site`: `Desc` of the configuration, the embedded files
-- and the user's directories with that of the static files, `mime.TypeByExtension` of a name, `http.DetectContentType` and the style sheet.
pub record Assets : Type 0 where
  pub desc : Str
  pub embed_fs : FileSystem
  pub stat : Str → Bool
  pub dir_fs : Str → FileSystem
  pub static_dir : Str
  pub type_by_extension : Str → Str
  pub detect_content_type : Str → Str
  pub css : Str

module _ (site : Site) (assets : Assets) where
  abbrev pub meta_data : Option TabStatus → MetaData
  meta_data tab = record { url = site.url; desc = assets.desc; tab = tab }

  abbrev pub index_page : Response ServedPage
  index_page = Response.page (ServedPage.index (meta_data none))

  abbrev pub style_page : Response ServedPage
  style_page = Response.page (ServedPage.style_sheet assets.css)

  -- The type of a file: by its name, or else by its contents.
  abbrev pub content_type_of : Str → Option (Option Str) → Str
  content_type_of file (some (some contents)) =
      let by_name = assets.type_by_extension file in
      if str_eq by_name [] then assets.detect_content_type contents else by_name
  content_type_of file opened = []

  unfoldable pub serve_file : Str → Response ServedPage
  serve_file file =
      let opened =
        open_merged (get_user_defined_fs assets.stat assets.dir_fs assets.static_dir)
          assets.embed_fs file in
      contents_page (content_type_of file opened) opened

  -- A handler on the parts of the address and the `pubkey` of the query.
  unfoldable pub handle : Handler → List Str → Str → Db → Response ServedPage
  unfolding serve_file
  handle Handler.index_handler parts pubkey db = index_page
  handle Handler.active_handler parts pubkey db =
      map_page (λ prs. ServedPage.pr_list prs (meta_data (some TabStatus.tab_active)))
        (pr_list_handler site.drv site.time_format TabStatus.tab_active db)
  handle Handler.inactive_handler parts pubkey db =
      map_page (λ prs. ServedPage.pr_list prs (meta_data (some TabStatus.tab_inactive)))
        (pr_list_handler site.drv site.time_format TabStatus.tab_inactive db)
  handle Handler.all_rss_handler parts pubkey db =
      map_page ServedPage.feed
        (rss_handler site.drv site.layouts site.feed_layouts site.url [] pubkey db)
  handle Handler.chroma_style_handler parts pubkey db = style_page
  handle Handler.repo_list_handler (name ∷ parts) pubkey db =
      map_page (λ prs. ServedPage.repo name prs (meta_data none))
        (repo_pr_list_handler site.drv site.time_format name db)
  handle Handler.pr_detail_handler (name ∷ parts) pubkey db =
      map_page ServedPage.detail (create_pr_detail site name (join parts (codes "/")) db)
  handle Handler.static_handler (name ∷ file ∷ parts) pubkey db = serve_file file
  handle h parts pubkey db = Response.status 404

  -- Without a handler, `http.ServeMux` answers itself.
  abbrev pub served_by : Option Handler → List Str → Str → Db → Response ServedPage
  served_by none parts pubkey db = Response.status 404
  served_by (some h) parts pubkey db = handle h parts pubkey db

  -- The answer to GET: `mux` is the choice of `http.ServeMux` among the handlers.
  unfoldable pub git_web_server :
      (List Str → Option Handler) → List Str → Str → Db → Response ServedPage
  unfolding handle
  git_web_server mux parts pubkey db = served_by (mux parts) parts pubkey db
