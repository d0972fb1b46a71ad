-- ===== src/I18n/Catalog.antt =====
-- src/i18n.rs: MESSAGES, grouped by page.
pub mod Pages
pub mod Apartments
pub mod People
pub mod Errors
pub mod Codes
use kehrkraft.Prelude.{List, ◌++◌}
use kehrkraft.I18n.Entries.{Entry}
use Pages.{layout, shared, buildings_index, building_form, building_page, schedule_page}
use Apartments.{apartment_pages, ownership_edit, tenancy_edit, building_owner_form}
use People.{people_pages, role_summaries, flow_messages}
use Errors.{internal_errors}
use Codes.{demo_banner, pdf, ical_feed, validation_codes}

unfoldable pub messages : List Entry
messages =
    layout
    ++ (shared
        ++ (buildings_index
            ++ (building_form
                ++ (building_page
                    ++ (schedule_page
                        ++ (apartment_pages
                            ++ (ownership_edit
                                ++ (tenancy_edit
                                    ++ (building_owner_form
                                        ++ (people_pages
                                            ++ (role_summaries
                                                ++ (flow_messages
                                                    ++ (internal_errors
                                                        ++ (demo_banner
                                                            ++ (pdf
                                                            ++ (ical_feed
                                                            ++ validation_codes))))))))))))))))
