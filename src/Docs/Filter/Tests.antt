-- ===== src/Docs/Filter/Tests.antt =====
-- A page with two source sets, at which the theorems about its filter are applied.
use lib_rabbit_job_queue.Common.{◌≡◌, refl, true, false, none, List, [], ◌∷◌, String}
use lib_rabbit_job_queue.Docs.Page.{own, Page}
use lib_rabbit_job_queue.Docs.Filter.{
  filter_button_handler, filter_sourceset, initialize_filtering, refresh_filtering,
  refresh_no_content_notification,
}
use lib_rabbit_job_queue.Docs.Filter.Reload.{run_clicks}
use lib_rabbit_job_queue.Docs.Filter.Sets.{click_sets}
use lib_rabbit_job_queue.Docs.Filter.View.{view, run_clicks-view, run_clicks_twice}
use lib_rabbit_job_queue.Docs.Filter.Shown.{
  Clicked, filter_button_handler-Clicked, initialize-Shows,
}

abbrev dependencies : List (String × List String)
dependencies = ("jvm", "common" ∷ []) ∷ ("common", []) ∷ []

abbrev delivered : Page
delivered = record {
  context = record { dependencies = []; restricted_dependencies = []; active_filters = own [] };
  inactive_filters = none;
  elements = record { set = "jvm" ∷ []; current = [] } ∷ [];
  buttons =
      record { filter = "jvm"; is_active = true }
      ∷ record { filter = "common"; is_active = true }
      ∷ [];
  hinted = [];
  content_hidden = false;
  notices = 0;
  notice_shown = false;
}

abbrev page : Page
page = initialize_filtering dependencies delivered

filter_button_handler-Clicked_example : Clicked "jvm" page (filter_sourceset "jvm" page)
unfolding filter_button_handler initialize_filtering refresh_filtering
    refresh_no_content_notification
filter_button_handler-Clicked_example =
    filter_button_handler-Clicked "jvm" page (initialize-Shows dependencies delivered refl refl)
      (filter_sourceset "jvm" page) refl

-- "jvm" is made inactive, then "common", then "jvm" active again with all that it depends on.
abbrev clicks : List String
clicks = "jvm" ∷ "common" ∷ "jvm" ∷ []

run_clicks-view_example :
    view (run_clicks clicks page) ≡ click_sets page.context.dependencies clicks (view page)
run_clicks-view_example = run_clicks-view clicks page

run_clicks_twice_example : view (run_clicks ("jvm" ∷ "jvm" ∷ []) page) ≡ view page
unfolding initialize_filtering refresh_filtering refresh_no_content_notification
run_clicks_twice_example = run_clicks_twice "jvm" "common" page refl refl
