-- ===== src/Web/Feeds.antt =====
-- The feeds of web.go: what an item is made of.
use patchbin.Base.{
  ℕ, Str, List, [], ◌∷◌, ◌++◌, codes, str_eq, if◌then◌else◌, Result, ok, err, ◌>>=◌,
}
use patchbin.Base.Number.{ℤ, pos, negsuc, format}
use patchbin.Store.{User, PatchRequest, EventKind, EventData, EventLog, Db, Driver}
use patchbin.Pr.Queries.{
  get_user_by_id, get_user_by_pubkey, get_patch_request_by_id, get_patch_requests_by_repo_name,
  get_event_logs, get_event_logs_by_pr_id, get_event_logs_by_user_id,
}
use patchbin.CoverLetter.{Layouts}
use patchbin.Keys.{compute_user_name}
use patchbin.Resolve.{get_pr_id}
use patchbin.Web.{Response}

-- json.Marshal of the data of an event, and `time.RFC3339Nano`
pub record FeedLayouts : Type 0 where
  pub marshal : EventData → Str
  pub rfc3339_nano : ℕ → Str

-- An item; its description is the title.
pub record FeedItem : Type 0 where
  pub id : Str
  pub title : Str
  pub href : Str
  pub content : Str
  pub created : ℕ
  pub author : Str

abbrev pub event_name : EventKind → Str
event_name EventKind.pr_created = codes "pr_created"
event_name EventKind.pr_patchset_added = codes "pr_patchset_added"
event_name EventKind.pr_patchset_deleted = codes "pr_patchset_deleted"
event_name EventKind.pr_name_changed = codes "pr_name_changed"
event_name EventKind.pr_commented = codes "pr_commented"
event_name (EventKind.other_event name) = name

-- `EventData.String`
unfoldable pub event_data_string : FeedLayouts → EventData → Str
event_data_string texts payload =
    if str_eq (texts.marshal payload) (codes "{}") then [] else texts.marshal payload

unfoldable pub item_title : PatchRequest → EventLog → Str
item_title pr e =
    event_name e.event
    ++ (codes " in "
        ++ (pr.repo_name
            ++ (codes " for PR \""
                ++ (pr.name
                    ++ (codes "\" (" ++ (pr.repo_name ++ (codes ":" ++ (pr.slug ++ codes ")"))))))))

unfoldable pub item_content : FeedLayouts → PatchRequest → EventLog → Str
unfolding event_data_string
item_content texts pr e =
    codes "<div><div>Repo: "
    ++ (pr.repo_name
        ++ (codes "</div><div>Slug: "
            ++ (pr.slug
                ++ (codes "</div><div>Event: "
                    ++ (event_name e.event
                        ++ (codes "</div><div>Created: "
                            ++ (texts.rfc3339_nano e.created_at
                                ++ (codes "</div><div>Data: "
                                    ++ (event_data_string texts e.payload
                                        ++ codes "</div></div>")))))))))

module _ (drv : Driver) (layouts : Layouts) (texts : FeedLayouts) (url : Str) where
  unfoldable pub feed_item : PatchRequest → EventLog → User → FeedItem
  unfolding item_title item_content
  feed_item pr e user = record {
    id = format e.id;
    title = item_title pr e;
    href = codes "https://" ++ (url ++ (codes "/" ++ (pr.repo_name ++ (codes "/" ++ pr.slug))));
    content = item_content texts pr e;
    created = e.created_at;
    author = compute_user_name layouts user.pubkey;
  }

  abbrev pub item_if_known : PatchRequest → EventLog → Result User → List FeedItem
  item_if_known pr e (err _) = []
  item_if_known pr e (ok user) = feed_item pr e user ∷ []

  -- An event of a user who cannot be read is passed over.
  unfoldable pub pr_items : PatchRequest → Db → List EventLog → List FeedItem
  pr_items pr db [] = []
  pr_items pr db (e ∷ es) =
      item_if_known pr e (get_user_by_id drv e.user_id db) ++ pr_items pr db es

  abbrev pub items_or_none : PatchRequest → Db → Result (List EventLog) → List FeedItem
  items_or_none pr db (err _) = []
  items_or_none pr db (ok events) = pr_items pr db events

  unfoldable pub repo_items : Db → List PatchRequest → List FeedItem
  unfolding pr_items
  repo_items db [] = []
  repo_items db (pr ∷ prs) =
      items_or_none pr db (get_event_logs_by_pr_id drv pr.id db) ++ repo_items db prs

  abbrev pub repo_feed : Db → Result (List PatchRequest) → Response (List FeedItem)
  repo_feed db (err e) = Response.status 500
  repo_feed db (ok prs) = Response.page (repo_items db prs)

  unfoldable pub repo_rss_handler : Str → Db → Response (List FeedItem)
  unfolding repo_items
  repo_rss_handler repo db =
      if str_eq repo (codes "prs")
      then Response.redirect (codes "/rss")
      else repo_feed db (get_patch_requests_by_repo_name drv repo db)

  abbrev pub pr_feed : PatchRequest → Db → Result (List EventLog) → Response (List FeedItem)
  pr_feed pr db (err e) = Response.status 500
  pr_feed pr db (ok events) = Response.page (pr_items pr db events)

  unfoldable pub render_pr_rss : PatchRequest → Db → Response (List FeedItem)
  unfolding pr_items
  render_pr_rss pr db = pr_feed pr db (get_event_logs_by_pr_id drv pr.id db)

  abbrev pub item_if_named : EventLog → User → Result PatchRequest → List FeedItem
  item_if_named e user (err _) = []
  item_if_named e user (ok pr) = feed_item pr e user ∷ []

  abbrev pub item_of_user : Db → EventLog → Result User → List FeedItem
  item_of_user db e (err _) = []
  item_of_user db e (ok user) =
      item_if_named e user (get_patch_request_by_id drv e.patch_request_id.int64 db)

  unfoldable pub all_items : Db → List EventLog → List FeedItem
  all_items db [] = []
  all_items db (e ∷ es) = item_of_user db e (get_user_by_id drv e.user_id db) ++ all_items db es

  abbrev pub feed_of : Db → Result (List EventLog) → Response (List FeedItem)
  feed_of db (err e) = Response.status 500
  feed_of db (ok events) = Response.page (all_items db events)

  abbrev pub feed_of_user : Db → Result User → Response (List FeedItem)
  feed_of_user db (err e) = Response.status 404
  feed_of_user db (ok user) = feed_of db (get_event_logs_by_user_id drv user.id db)

  -- No id is negative, so a negative number selects no row.
  abbrev pub feed_of_id : Db → Result ℤ → Response (List FeedItem)
  feed_of_id db (err e) = Response.status 422
  feed_of_id db (ok (pos n)) = feed_of db (get_event_logs_by_pr_id drv n db)
  feed_of_id db (ok (negsuc n)) = feed_of db (get_event_logs_by_pr_id drv n db >>= λ events. ok [])

  -- `id` of the path wins over `pubkey` of the query.
  unfoldable pub rss_handler : Str → Str → Db → Response (List FeedItem)
  unfolding all_items
  rss_handler [] [] db = feed_of db (get_event_logs drv db)
  rss_handler [] (c ∷ pubkey) db = feed_of_user db (get_user_by_pubkey drv (c ∷ pubkey) db)
  rss_handler (c ∷ id) pubkey db = feed_of_id db (get_pr_id (c ∷ id))
