-- ===== src/Tests/Detail.antt =====
-- The page of a request with two patches.
use patchbin.Base.{Str, false, some, List, [], ◌∷◌, ◌++◌, codes, Result, ok, err, ◌≡◌, refl}
use patchbin.Base.Number.{format}
use patchbin.Base.Sort.{sort_by, sort_desc_by}
use patchbin.Base.Space.{
  trim_space, trim_front, space_width, back_space_width, ascii_space, space2, space3,
}
use patchbin.Base.Search.{split, split_from, cut_first, cut_last}
use patchbin.Target.{parse_target, target_of, split_revision}
use patchbin.Store.{Patch, Db, empty_db}
use patchbin.Store.Statements.{
  add_user, add_request, add_patchset, add_patch, add_event, transaction,
}
use patchbin.Pr.Queries.{
  get_user_by_id, get_user_by_pubkey, get_patch_request_by_id, get_patch_request_by_repo_and_slug,
  get_patchsets_by_pr_id, get_patchset_by_id, get_patches_by_patchset_id, get_event_logs_by_pr_id,
}
use patchbin.Pr.Users.{upsert_user_by_pubkey, create_user}
use patchbin.Pr.Submit.{
  submit_patch_request, patch_request_body, request_body, open_request, create_patches,
  create_patch,
}
use patchbin.Resolve.{resolve_target, by_target, of_request, get_patchset_rev, place_of}
use patchbin.Keys.{is_admin, compute_user_name}
use patchbin.DiffHtml.{untokenised}
use patchbin.Web.{Response}
use patchbin.Web.Data.{Site, PatchsetData, UserData, no_summary}
use patchbin.Web.Detail.{
  user_data, patchsets_data, get_all_patch_data, get_patch_data, summary_of, log_of, logs_data,
  get_log_data,
}
use patchbin.Web.Selected.{Page, PrDetailData, selected_place, patch_place, pr_page, raw_page}
use patchbin.Web.Raw.{raw_page-pull}
use patchbin.Cli.Reading.{pull}
use patchbin.CoverLetter.{line_end}
use patchbin.Web.Shown.{IsShown, pr_page-IsShown}
use patchbin.Cli.Summary.{Screen, patchset_rows, format_table}
use patchbin.Tests.{small_db, quiet, request, patchset, patch_text}
use patchbin.Tests.Texts.{simple_tools, plain_layouts, plain_choices, plain_header}
use patchbin.Tests.Summaries.{blind}

abbrev pub site : Site
site = record {
  drv = quiet;
  tools = simple_tools;
  choices = plain_choices;
  layouts = plain_layouts;
  feed_layouts = record { marshal = λ d. codes "{}"; rfc3339_nano = λ t. [] };
  keyring = record { parse_authorized_key = λ s. some s; admins = [] };
  grammar = blind;
  painter = record { header = λ f. []; paint = λ file s. untokenised };
  time_format = λ t. [];
  url = codes "host";
}

abbrev page_db : Db
page_db =
    (submit_patch_request quiet 1 (codes "pico") (codes "fix")
      (ok (patch_text (codes "a") ∷ patch_text (codes "b") ∷ []))
      (upsert_user_by_pubkey quiet (codes "key") empty_db).1).1

abbrev ann : UserData
ann = record {
  user_id = 1;
  name = codes "key";
  admin = false;
  pubkey = codes "key";
  created_at = [];
}

abbrev value_or_nil {ℓ} : {A : Type ℓ} → Result (List A) → List A
value_or_nil (ok xs) = xs
value_or_nil (err e) = []

abbrev second_half : Result (List Patch × List PatchsetData) → List PatchsetData
second_half (ok (ps, shown)) = shown
second_half (err e) = []

abbrev second_patch : Patch
second_patch = record {
  id = 2;
  user_id = 1;
  patchset_id = 1;
  content = patch_text (codes "b");
  created_at = 0;
}

abbrev second_page : PrDetailData
second_page = record {
  pr = request;
  user = ann;
  patchset = patchset;
  formatted_patchset_id = codes "pico/fix.1";
  patches = page_db.patches;
  patch = record {
    patch = second_patch;
    patch_files = [];
    patch_header = plain_header;
    url = codes "patch-2";
    formatted_author_date = [];
    semantic_summary = no_summary;
  };
  prev_url = codes "/pico/fix.1/patches/1";
  next_url = [];
  logs = value_or_nil (
      get_log_data site 1 (second_half (get_all_patch_data site request patchset page_db)) page_db);
}

second_is_shown :
    pr_page site (codes "pico") 2 (codes "fix") page_db ≡ Response.page (Page.detail second_page)
unfolding pr_page resolve_target by_target of_request parse_target target_of split_revision
    cut_first cut_last get_patch_request_by_repo_and_slug get_patchsets_by_pr_id sort_by
    sort_desc_by trim_space trim_front space_width back_space_width ascii_space space2 space3
    submit_patch_request patch_request_body request_body open_request create_patches create_patch
    add_user add_request add_patchset add_patch add_event transaction get_patch_request_by_id
    upsert_user_by_pubkey create_user format get_user_by_pubkey get_user_by_id
    get_patches_by_patchset_id get_event_logs_by_pr_id get_patchset_by_id get_patchset_rev place_of
    is_admin compute_user_name user_data patchsets_data get_all_patch_data get_patch_data summary_of
    log_of logs_data get_log_data selected_place patch_place
second_is_shown = refl

pr_page-IsShown_example : IsShown 2 second_page
pr_page-IsShown_example =
    pr_page-IsShown site (codes "pico") (codes "fix") 2 page_db second_page second_is_shown

abbrev fix_text : Response Page → Str
fix_text (Response.page (Page.mbox m)) = m
fix_text r = []

abbrev raw_fix : Str
raw_fix = fix_text (raw_page site (codes "pico") (codes "fix") page_db)

fix_is_resolved : resolve_target quiet (codes "pico:fix") page_db ≡ ok (request, patchset)
unfolding resolve_target by_target of_request parse_target target_of split_revision cut_first
    cut_last get_patch_request_by_repo_and_slug get_patchsets_by_pr_id sort_by sort_desc_by
    trim_space trim_front space_width back_space_width ascii_space space2 space3
    submit_patch_request patch_request_body request_body open_request create_patches create_patch
    add_user add_request add_patchset add_patch add_event transaction get_patch_request_by_id
    upsert_user_by_pubkey create_user get_user_by_pubkey get_user_by_id
fix_is_resolved = refl

fix_is_there : get_patch_request_by_id quiet 1 page_db ≡ ok request
unfolding sort_desc_by submit_patch_request patch_request_body request_body open_request
    create_patches create_patch add_user add_request add_patchset add_patch add_event transaction
    get_patch_request_by_id upsert_user_by_pubkey create_user get_user_by_pubkey get_user_by_id
fix_is_there = refl

fix_is_sent : raw_page site (codes "pico") (codes "fix") page_db ≡ Response.page (Page.mbox raw_fix)
unfolding raw_page get_patches_by_patchset_id get_event_logs_by_pr_id
fix_is_sent = rw (fix_is_resolved) refl

raw_page-pull_example :
    pull quiet plain_layouts (codes "host") (codes "pico:fix" ∷ []) page_db
    ≡ ok (raw_fix ++ line_end)
raw_page-pull_example =
    raw_page-pull site (codes "pico") (codes "fix") page_db request patchset raw_fix fix_is_resolved
      fix_is_there fix_is_sent

abbrev plain_screen : Screen
plain_screen = record {
  align = λ s. s;
  time_format = λ t. codes "now";
  user_name = λ key. key;
  url = codes "host";
}

-- One row for the patchset, with the target that it is found by.
summary_row_is_printed :
    patchset_rows plain_screen request quiet small_db 1 (patchset ∷ [])
    ≡ codes "  v1\tpico:fix.1\tkey\tnow\n"
unfolding patchset_rows get_user_by_id format
summary_row_is_printed = refl

-- The head of a table is gray, and empty lines are left out.
table_is_printed :
    format_table plain_screen (codes "a\n\nb\n") ≡ 27 ∷ (codes "[90ma" ++ 27 ∷ codes "[0m\nb\n")
unfolding format_table split split_from
table_is_printed = refl
