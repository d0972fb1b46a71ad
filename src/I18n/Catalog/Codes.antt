-- ===== src/I18n/Catalog/Codes.antt =====
-- src/i18n.rs, MESSAGES: the printed schedule, the feed and the codes of the triggers.
use kehrkraft.Prelude.{List, [], ◌∷◌}
use kehrkraft.I18n.Entries.{Entry, entry_of}

-- Demo banner
abbrev pub demo_banner : List Entry
demo_banner = entry_of "demo.banner" "Demo-Modus" "Demo mode" ∷ []

-- PDF (Typst poster)
abbrev pub pdf : List Entry
pdf =
    entry_of "pdf.col_from" "von" "From"
    ∷ entry_of "pdf.col_to" "bis" "To"
    ∷ entry_of "pdf.qr_pdf" "Kehrwoche-PDF per QR öffnen" "Open the Kehrwoche PDF via QR code"
    ∷ entry_of "pdf.qr_ical" "Kalender-Feed per QR abonnieren"
        "Subscribe to the calendar feed via QR code"
    ∷ entry_of "pdf.footer_created" "Erstellt mit Kehrkraft v{0}" "Created with Kehrkraft v{0}"
    ∷ entry_of "pdf.footer_as_of" "Stand: {0}" "As of {0}"
    ∷ []

-- iCal feed
abbrev pub ical_feed : List Entry
ical_feed =
    entry_of "ical.summary" "Kehrwoche KW {0}: {1}" "Kehrwoche CW {0}: {1}"
    ∷ entry_of "ical.building" "Gebäude: {0}" "Building: {0}"
    ∷ []

-- Validation codes raised by the database triggers (migration 0012)
abbrev pub validation_codes : List Entry
validation_codes =
    entry_of "ERR_NAME_EMPTY" "Name darf nicht leer sein." "The name must not be empty."
    ∷ entry_of "ERR_NAME_TOO_LONG" "Name darf höchstens 30 Zeichen haben."
        "The name must not exceed 30 characters."
    ∷ entry_of "ERR_EMAIL_AT" "Die E-Mail-Adresse muss ein '@' enthalten."
        "The e-mail address must contain an '@'."
    ∷ entry_of "ERR_EMAIL_DOT" "Die E-Mail-Adresse muss nach dem '@' einen Punkt enthalten."
        "The part of the e-mail address after the '@' must contain a dot."
    ∷ entry_of "ERR_START_DATE_FORMAT" "Startdatum muss im Format JJJJ-MM-TT vorliegen."
        "The start date must use the format YYYY-MM-DD."
    ∷ entry_of "ERR_END_DATE_FORMAT" "Enddatum muss im Format JJJJ-MM-TT vorliegen."
        "The end date must use the format YYYY-MM-DD."
    ∷ entry_of "ERR_START_AFTER_END" "Das Startdatum darf nicht nach dem Enddatum liegen."
        "The start date must not lie after the end date."
    ∷ entry_of "ERR_OWNERSHIP_OVERLAP"
        "Das Eigentum überschneidet ein bestehendes Eigentum dieser Wohnung"
        "The ownership overlaps an existing ownership of this apartment"
    ∷ entry_of "ERR_TENANCY_OVERLAP"
        "Das Mietverhältnis überschneidet ein bestehendes Mietverhältnis dieser Wohnung."
        "The tenancy overlaps an existing tenancy of this apartment."
    ∷ entry_of "ERR_BUILDING_OWNER_OVERLAP"
        "Das Gebäudeeigentum überschneidet ein bestehendes Gebäudeeigentum"
        "The building ownership overlaps an existing building ownership"
    ∷ entry_of "ERR_OWNERSHIP_GAP_NEXT_START"
        "Das Eigentum muss am Tag nach dem Ende des vorherigen Eigentums beginnen; sonst bliebe ein Zeitraum ohne Eigentümer."
        "The ownership must start on the day after the previous ownership ends; otherwise there would be a period without an owner."
    ∷ entry_of "ERR_BUILDING_OWNER_GAP_NEXT_START"
        "Das Gebäudeeigentum muss am Tag nach dem Ende des vorherigen Gebäudeeigentums beginnen; sonst bliebe ein Zeitraum ohne Eigentümer."
        "The building ownership must start on the day after the previous building ownership ends; otherwise there would be a period without an owner."
    ∷ entry_of "ERR_OWNERSHIP_GAP_PREV_END"
        "Das Eigentum muss am Tag vor dem Beginn des nächsten Eigentums enden; sonst bliebe ein Zeitraum ohne Eigentümer."
        "The ownership must end on the day before the next ownership begins; otherwise there would be a period without an owner."
    ∷ entry_of "ERR_BUILDING_OWNER_GAP_PREV_END"
        "Das Gebäudeeigentum muss am Tag vor dem Beginn des nächsten Gebäudeeigentums enden; sonst bliebe ein Zeitraum ohne Eigentümer."
        "The building ownership must end on the day before the next building ownership begins; otherwise there would be a period without an owner."
    ∷ entry_of "ERR_OWNERSHIP_LAST_DELETE"
        "Das letzte Eigentum einer Wohnung kann nicht gelöscht werden, sonst hat die Wohnung keinen Eigentümer."
        "The last ownership of an apartment cannot be deleted, or the apartment would have no owner."
    ∷ entry_of "ERR_OWNERSHIP_MIDDLE_DELETE"
        "Dieses Eigentum liegt zwischen zwei anderen Eigentümerzeiträumen. Es kann nur das erste oder das letzte Eigentum gelöscht werden."
        "This ownership lies between two other ownership periods. Only the first or the last ownership can be deleted."
    ∷ entry_of "ERR_BUILDING_OWNER_LAST_DELETE"
        "Der letzte Gebäudeeigentümer kann nicht gelöscht werden, solange Wohnungen ohne eigenen Eigentümer auf ihn angewiesen sind."
        "The last building owner cannot be deleted while apartments without an owner of their own depend on them."
    ∷ entry_of "ERR_BUILDING_OWNER_MIDDLE_DELETE"
        "Dieses Gebäudeeigentum liegt zwischen zwei anderen Eigentümerzeiträumen. Es kann nur das erste oder das letzte Eigentum gelöscht werden."
        "This building ownership lies between two other ownership periods. Only the first or the last ownership can be deleted."
    ∷ entry_of "ERR_APARTMENT_REQUIRES_OWNER"
        "Eine Wohnung muss mindestens ein Eigentum haben. Legen Sie die Wohnung zusammen mit ihrem ersten Eigentümer an, oder legen Sie zuerst einen Eigentümer für das gesamte Gebäude an."
        "An apartment must have at least one ownership. Create the apartment together with its first owner, or first record an owner for the whole building."
    ∷ entry_of "ERR_OWNERSHIP_REQUIRES_PERSON" "Ein Eigentum muss einer Person zugeordnet sein."
        "An ownership must belong to a person."
    ∷ entry_of "ERR_BUILDING_OWNER_REQUIRES_PERSON"
        "Ein Gebäudeeigentum muss einer Person zugeordnet sein."
        "A building ownership must belong to a person."
    ∷ entry_of "ERR_TENANCY_REQUIRES_PERSON" "Ein Mietverhältnis muss einer Person zugeordnet sein."
        "A tenancy must belong to a person."
    ∷ entry_of "ERR_ADMIN_REQUIRES_PERSON" "Ein Ansprechpartner muss einer Person zugeordnet sein."
        "A contact person must belong to a person."
    ∷ entry_of "ERR_PERSON_EMAIL_TAKEN" "Eine Person mit dieser E-Mail-Adresse existiert bereits."
        "A person with this e-mail address already exists."
    ∷ entry_of "ERR_OWNERSHIP_FORBIDDEN_WHEN_BUILDING_OWNER"
        "Eine Wohnung eines Gebäudes mit Gebäudeeigentümer kann keinen eigenen Eigentümer haben."
        "An apartment of a building with a building owner cannot have an owner of its own."
    ∷ entry_of "ERR_BUILDING_OWNER_FORBIDDEN_WHEN_APARTMENT_OWNERS"
        "Ein Gebäude, dessen Wohnungen eigene Eigentümer haben, kann keinen Gebäudeeigentümer haben."
        "A building whose apartments have owners of their own cannot have a building owner."
    ∷ entry_of "ERR_OWNERSHIP_CURRENT_DELETE"
        "Das Eigentum, das die Wohnung derzeit abdeckt, kann nicht gelöscht werden. Beenden Sie den Zeitraum stattdessen oder legen Sie zuerst einen neuen Eigentümer an."
        "The ownership currently covering the apartment cannot be deleted. End the period instead, or first record a new owner."
    ∷ entry_of "ERR_BUILDING_OWNER_CURRENT_DELETE"
        "Der Gebäudeeigentümer, der das Gebäude derzeit abdeckt, kann nicht gelöscht werden, solange Wohnungen auf ihn angewiesen sind. Beenden Sie den Zeitraum stattdessen oder legen Sie zuerst einen Nachfolger an."
        "The building owner currently covering the building cannot be deleted while apartments depend on them. End the period instead, or first record a successor."
    ∷ []
