-- ===== src/I18n/Catalog/Errors.antt =====
-- src/i18n.rs, MESSAGES: the bodies of internal errors.
use kehrkraft.Prelude.{List, [], ◌∷◌}
use kehrkraft.I18n.Entries.{Entry, entry_of}

-- Internal error bodies (rare, shown raw)
abbrev pub internal_errors : List Entry
internal_errors =
    entry_of "error.not_found" "Nicht gefunden" "Not found"
    ∷ entry_of "error.buildings_load" "Gebäude konnten nicht geladen werden."
        "The buildings could not be loaded."
    ∷ entry_of "error.building_load" "Gebäude konnte nicht geladen werden."
        "The building could not be loaded."
    ∷ entry_of "error.building_create" "Gebäude konnte nicht angelegt werden."
        "The building could not be created."
    ∷ entry_of "error.building_save" "Gebäude konnte nicht gespeichert werden."
        "The building could not be saved."
    ∷ entry_of "error.apartments_load" "Wohnungen konnten nicht geladen werden."
        "The apartments could not be loaded."
    ∷ entry_of "error.apartment_load" "Wohnung konnte nicht geladen werden."
        "The apartment could not be loaded."
    ∷ entry_of "error.apartment_create" "Wohnung konnte nicht angelegt werden."
        "The apartment could not be created."
    ∷ entry_of "error.apartment_save" "Wohnung konnte nicht gespeichert werden."
        "The apartment could not be saved."
    ∷ entry_of "error.apartment_data_load" "Wohnungsdaten konnten nicht geladen werden."
        "The apartment data could not be loaded."
    ∷ entry_of "error.building_owners_load" "Gebäudeeigentümer konnten nicht geladen werden."
        "The building owners could not be loaded."
    ∷ entry_of "error.building_owner_load" "Gebäudeeigentümer konnte nicht geladen werden."
        "The building owner could not be loaded."
    ∷ entry_of "error.building_owner_create" "Gebäudeeigentümer konnte nicht angelegt werden."
        "The building owner could not be created."
    ∷ entry_of "error.building_owner_save" "Gebäudeeigentümer konnte nicht gespeichert werden."
        "The building owner could not be saved."
    ∷ entry_of "error.building_owner_delete" "Gebäudeeigentümer konnte nicht gelöscht werden."
        "The building owner could not be deleted."
    ∷ entry_of "error.schedule_compute" "Der Plan konnte nicht berechnet werden."
        "The schedule could not be computed."
    ∷ entry_of "error.ownership_load" "Eigentum konnte nicht geladen werden."
        "The ownership could not be loaded."
    ∷ entry_of "error.ownership_create" "Eigentum konnte nicht angelegt werden."
        "The ownership could not be created."
    ∷ entry_of "error.ownership_save" "Eigentum konnte nicht gespeichert werden."
        "The ownership could not be saved."
    ∷ entry_of "error.ownership_delete" "Eigentum konnte nicht gelöscht werden."
        "The ownership could not be deleted."
    ∷ entry_of "error.ownership_structure_load"
        "Eigentumsverhältnisse konnten nicht geladen werden."
        "The ownership structure could not be loaded."
    ∷ entry_of "error.tenancy_load" "Mietverhältnis konnte nicht geladen werden."
        "The tenancy could not be loaded."
    ∷ entry_of "error.tenancy_create" "Mietverhältnis konnte nicht angelegt werden."
        "The tenancy could not be created."
    ∷ entry_of "error.tenancy_save" "Mietverhältnis konnte nicht gespeichert werden."
        "The tenancy could not be saved."
    ∷ entry_of "error.people_load" "Personen konnten nicht geladen werden."
        "The people could not be loaded."
    ∷ entry_of "error.person_load" "Person konnte nicht geladen werden."
        "The person could not be loaded."
    ∷ entry_of "error.person_save" "Person konnte nicht gespeichert werden."
        "The person could not be saved."
    ∷ entry_of "error.roles_load" "Rollen konnten nicht geladen werden."
        "The roles could not be loaded."
    ∷ entry_of "error.rotation_save" "Rotations-Versatz konnte nicht gespeichert werden."
        "The rotation offset could not be saved."
    ∷ entry_of "error.apartment_order" "Ungültige Reihenfolge der Wohnungen"
        "Invalid apartment order"
    ∷ entry_of "error.order_save" "Die Reihenfolge konnte nicht gespeichert werden."
        "The order could not be saved."
    ∷ entry_of "error.apartments_reload" "Wohnungen konnten nicht neu geladen werden."
        "The apartments could not be reloaded."
    ∷ []
