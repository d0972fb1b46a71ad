-- ===== src/I18n/Catalog/Pages.antt =====
-- src/i18n.rs, MESSAGES: the layout, the forms and the pages of buildings.
use kehrkraft.Prelude.{List, [], ◌∷◌}
use kehrkraft.I18n.Entries.{Entry, entry_of}

-- Layout (base.html)
abbrev pub layout : List Entry
layout =
    entry_of "nav.buildings" "Gebäude" "Buildings"
    ∷ entry_of "nav.people" "Personen" "People"
    ∷ entry_of "brand.alt" "Kehrkraft-Logo" "Kehrkraft logo"
    ∷ entry_of "lang.switch" "Sprache wählen" "Choose language"
    ∷ entry_of "footer.tagline" "Kehrkraft · Kehrwoche-Rotationsplan"
        "Kehrkraft · Kehrwoche rotation schedule"
    ∷ []

-- Shared bits of the forms and tables
abbrev pub shared : List Entry
shared =
    entry_of "form.name_max" "(max. 30 Zeichen)" "(max. 30 characters)"
    ∷ entry_of "form.optional" "(optional)" "(optional)"
    ∷ entry_of "form.description" "Beschreibung" "Description"
    ∷ entry_of "form.email" "E-Mail" "E-mail"
    ∷ entry_of "form.ownership_from" "Eigentum ab" "Ownership from"
    ∷ entry_of "owners.add_person" "Weitere Person hinzufügen" "Add another person"
    ∷ entry_of "owners.remove_person" "Entfernen" "Remove"
    ∷ entry_of "person.display_name" "Anzeigename" "Display name"
    ∷ entry_of "person.display_name_help"
        "Falls gesetzt, erscheint dieser Name überall dort, wo die Person angezeigt wird (z. B. im Kehrwoche-Plan) – statt des Namens."
        "When set, this name is shown instead of the name wherever the person is displayed (e.g. in the Kehrwoche schedule)."
    ∷ entry_of "ownership.people_required" "Ein Eigentum braucht mindestens eine Person."
        "An ownership needs at least one person."
    ∷ entry_of "building_owner.people_required"
        "Ein Gebäudeeigentum braucht mindestens eine Person."
        "A building ownership needs at least one person."
    ∷ entry_of "common.cancel" "Abbrechen" "Cancel"
    ∷ entry_of "common.edit" "Bearbeiten" "Edit"
    ∷ entry_of "common.delete" "Löschen" "Delete"
    ∷ entry_of "common.save_changes" "Änderungen speichern" "Save changes"
    ∷ entry_of "common.yes_end_anyway" "Ja, dennoch beenden" "Yes, end it anyway"
    ∷ entry_of "common.no_dont_end" "Nein, nicht beenden" "No, don't end it"
    ∷ entry_of "common.not_found" "Nicht gefunden" "Not found"
    ∷ entry_of "table.email" "E-Mail" "E-mail"
    ∷ entry_of "table.start" "Beginn" "Start"
    ∷ entry_of "table.end" "Ende" "End"
    ∷ entry_of "suggestions.help"
        "Bekannte Personen erscheinen bei der Eingabe als Vorschlag; dieselbe E-Mail-Adresse bedeutet dieselbe Person."
        "Known people appear as suggestions while you type; the same e-mail address always means the same person."
    ∷ []

-- Buildings index
abbrev pub buildings_index : List Entry
buildings_index =
    entry_of "buildings.heading" "Gebäude" "Buildings"
    ∷ entry_of "buildings.new" "Neues Gebäude" "New building"
    ∷ entry_of "buildings.empty" "Noch keine Gebäude." "No buildings yet."
    ∷ entry_of "buildings.empty_cta" "Lege dein erstes Gebäude an" "Create your first building"
    ∷ entry_of "buildings.delete_confirm" "Dieses Gebäude samt aller Wohnungen löschen?"
        "Delete this building and all of its apartments?"
    ∷ []

-- Building form (new/edit)
abbrev pub building_form : List Entry
building_form =
    entry_of "buildings.new_title" "Neues Gebäude anlegen" "Create a new building"
    ∷ entry_of "buildings.edit_title" "Gebäude bearbeiten" "Edit building"
    ∷ entry_of "buildings.contact_label" "Ansprechpartner" "Contact person"
    ∷ entry_of "buildings.new_contact_help"
        "Beide Felder leer lassen, wenn es keinen Ansprechpartner geben soll. Bekannte Personen erscheinen bei der Eingabe als Vorschlag; dieselbe E-Mail-Adresse bedeutet dieselbe Person."
        "Leave both fields empty when there is no contact person. Known people appear as suggestions while you type; the same e-mail address always means the same person."
    ∷ entry_of "buildings.edit_contact_help"
        "Beide Felder leer lassen, um den bisherigen Ansprechpartner zu behalten. Bekannte Personen erscheinen bei der Eingabe als Vorschlag; dieselbe E-Mail-Adresse bedeutet dieselbe Person."
        "Leave both fields empty to keep the current contact person. Known people appear as suggestions while you type; the same e-mail address always means the same person."
    ∷ entry_of "buildings.ownership_label" "Eigentumsverhältnisse" "Ownership structure"
    ∷ entry_of "buildings.ownership_help"
        "Entscheiden Sie sich für eine der beiden Formen – die Aufteilung eines von einer Person besessenen Gebäudes in einzelne Eigentumswohnungen (WEG) wird von Kehrkraft nicht unterstützt."
        "Choose one of the two forms – splitting a building owned by a single person into individually owned apartments (WEG) is not supported by Kehrkraft."
    ∷ entry_of "buildings.style_apartments"
        "Einzelne Wohnungen: Jede Wohnung gehört einer eigenen Person oder Gesellschaft (WEG). Beim Anlegen jeder Wohnung ist ihr erster Eigentümer anzugeben."
        "Individual apartments: each apartment belongs to its own person or company (WEG). When creating an apartment, its first owner must be provided."
    ∷ entry_of "buildings.style_building"
        "Ein Gebäudeeigentümer: Eine Person oder Gesellschaft besitzt das ganze Gebäude (z. B. eine Wohnungsgesellschaft). Die Wohnungen gehören dann mit zum Gebäude – einzelne Wohnungseigentümer gibt es nicht."
        "One building owner: a single person or company owns the whole building (e.g. a housing company). The apartments then come with the building – there are no individual apartment owners."
    ∷ entry_of "buildings.owner_help"
        "Wer ist der Gebäudeeigentümer? Bekannte Personen erscheinen bei der Eingabe als Vorschlag; dieselbe E-Mail-Adresse bedeutet dieselbe Person."
        "Who is the building owner? Known people appear as suggestions while you type; the same e-mail address always means the same person."
    ∷ entry_of "buildings.create" "Gebäude anlegen" "Create building"
    ∷ entry_of "buildings.save" "Gebäude speichern" "Save building"
    ∷ entry_of "buildings.owner_required"
        "Für ein Gebäude mit einem einzigen Eigentümer müssen Name, E-Mail-Adresse und Beginn („Eigentum ab“) angegeben werden."
        "For a building with a single owner, the name, e-mail address and start date (“Ownership from”) must be provided."
    ∷ []

-- Building page
abbrev pub building_page : List Entry
building_page =
    entry_of "buildings.contact_label_line" "Ansprechpartner:" "Contact person:"
    ∷ entry_of "buildings.public_pdf" "Plan als öffentliches PDF" "Schedule as public PDF"
    ∷ entry_of "buildings.public_ical" "öffentlicher iCal-Feed" "Public iCal feed"
    ∷ entry_of "buildings.schedule_heading" "Kehrwochen-Plan" "Kehrwoche schedule"
    ∷ entry_of "buildings.full_year" "Kompletter Jahresplan" "Full-year schedule"
    ∷ entry_of "buildings.no_upcoming"
        "Für dieses Jahr sind keine kommenden Wochen mehr eingeplant."
        "No upcoming weeks of this year remain scheduled."
    ∷ entry_of "schedule.week" "KW" "CW"
    ∷ entry_of "schedule.from" "von" "From"
    ∷ entry_of "schedule.to" "bis" "To"
    ∷ entry_of "schedule.tenant" "Mieter" "Tenant"
    ∷ entry_of "schedule.unassigned" "Nicht zugewiesen" "Unassigned"
    ∷ entry_of "buildings.apartments_heading" "Wohnungen" "Apartments"
    ∷ entry_of "buildings.saving_order" "Speichere Reihenfolge …" "Saving order …"
    ∷ entry_of "apartments.new" "Neue Wohnung" "New apartment"
    ∷ entry_of "buildings.no_apartments" "Noch keine Wohnungen." "No apartments yet."
    ∷ entry_of "buildings.sort_hint"
        "Die Reihenfolge in dieser Liste dient nur der Anzeige; die Kehrwoche-Rotation folgt der Anlage-Reihenfolge der Wohnungen (Badge „Rotation“)."
        "The order of this list only affects the display; the Kehrwoche rotation follows the apartments' creation order (badge “Rotation”)."
    ∷ entry_of "apartments.drag_title" "Zum Sortieren ziehen" "Drag to sort"
    ∷ entry_of "buildings.building_owners_heading" "Gebäudeeigentümer" "Building owners"
    ∷ entry_of "buildings.owners_blocked"
        "Nicht möglich, solange Wohnungen eigene Eigentümer haben (WEG)."
        "Not possible while the apartments have owners of their own (WEG)."
    ∷ entry_of "owners.add" "Eigentümer hinzufügen" "Add owner"
    ∷ entry_of "buildings.no_building_owner"
        "Kein Eigentümer für das gesamte Gebäude erfasst – dann braucht jede Wohnung einen eigenen Eigentümer."
        "No owner is recorded for the building as a whole – each apartment then needs an owner of its own."
    ∷ entry_of "buildings.building_owner_help"
        "Der Gebäudeeigentümer besitzt alle Wohnungen; einzelne Wohnungseigentümer sind dann nicht erforderlich. Vermietete Wohnungen delegieren die Kehrwoche weiterhin an den Mieter."
        "The building owner owns all apartments; individual apartment owners are then not required. Rented apartments still delegate the Kehrwoche to their tenant."
    ∷ entry_of "building_owner.delete_confirm" "Diesen Gebäudeeigentümer löschen?"
        "Delete this building owner?"
    ∷ entry_of "buildings.owner_chain_help"
        "Die Zeiträume reihen sich lückenlos aneinander: Ein neuer Eigentümer beginnt am Tag nach dem Ende des vorherigen."
        "The periods follow each other seamlessly: a new owner starts on the day after the previous one ends."
    ∷ entry_of "danger_zone.heading" "Gefahrenzone" "Danger zone"
    ∷ entry_of "buildings.rotation_confirm"
        "Rotations-Versatz dieses Gebäudes ändern? Die Kehrwoche-Zuordnung aller Wochen verschiebt sich sofort – auch für bereits vergangene Wochen."
        "Change this building's rotation offset? The Kehrwoche assignment of every week shifts immediately – including past weeks."
    ∷ entry_of "buildings.rotation_label" "Rotations-Versatz" "Rotation offset"
    ∷ entry_of "buildings.rotation_help"
        "Verschiebt den Beginn der Rotation: Nach jedem Schritt übernimmt die nächste Wohnung die erste Woche (0 = Standard). Gilt sofort für alle Wochen des Plans."
        "Shifts the start of the rotation: after each step, the next apartment takes over the first week (0 = default). Applies immediately to every week of the schedule."
    ∷ entry_of "common.apply" "Anwenden" "Apply"
    ∷ entry_of "buildings.delete_help"
        "Löscht das Gebäude samt aller Wohnungen, Eigentümer und Mietverhältnisse."
        "Deletes the building along with all of its apartments, owners and tenancies."
    ∷ entry_of "buildings.delete" "Gebäude löschen" "Delete building"
    ∷ []

-- Schedule page
abbrev pub schedule_page : List Entry
schedule_page =
    entry_of "schedule.title" "Jahresplan" "Annual schedule"
    ∷ entry_of "schedule.resident_links" "Bewohner-Links" "Resident links"
    ∷ entry_of "schedule.back_to_building" "Zurück zum Gebäude" "Back to the building"
    ∷ []
