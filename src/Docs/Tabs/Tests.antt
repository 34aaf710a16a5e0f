-- ===== src/Docs/Tabs/Tests.antt =====
-- Two rows of bookmarks, at which the theorem about rows is applied.
use lib_rabbit_job_queue.Common.{◌≡◌, true, false, none, some, List, [], ◌∷◌, map, any}
use lib_rabbit_job_queue.Docs.Page.{Hinted}
use lib_rabbit_job_queue.Docs.Tabs.{is_available, row_active, refresh_platform_tabs}
use lib_rabbit_job_queue.Docs.Tabs.Laws.{refresh_platform_tabs-active}

-- The active bookmark of the first row is filtered away, the second row has nothing to show.
abbrev rows : List Hinted
rows =
    record {
      bookmarks =
          record {
            toggle = ":/jvm";
            set = some (":/jvm" ∷ []);
            current = some [];
            is_active = true;
          }
          ∷ record { toggle = ":/js"; set = none; current = none; is_active = false }
          ∷ [];
      contents =
          record { togglable = ":/jvm"; is_active = true }
          ∷ record { togglable = ":/js"; is_active = false }
          ∷ [];
    }
    ∷ record {
      bookmarks =
          record {
            toggle = ":/jvm";
            set = some (":/jvm" ∷ []);
            current = some [];
            is_active = true;
          }
          ∷ [];
      contents = [];
    }
    ∷ []

refresh_platform_tabs-active_example :
    map (λ (h : Hinted). row_active h.bookmarks) (refresh_platform_tabs rows)
    ≡ map (λ (h : Hinted). any is_available h.bookmarks) rows
refresh_platform_tabs-active_example = refresh_platform_tabs-active rows
