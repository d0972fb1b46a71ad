-- ===== src/I18n/Catalog/Apartments.antt =====
-- src/i18n.rs, MESSAGES: the pages of apartments and of the periods.
use kehrkraft.Prelude.{List, [], ◌∷◌}
use kehrkraft.I18n.Entries.{Entry, entry_of}

-- Apartment pages
abbrev pub apartment_pages : List Entry
apartment_pages =
    entry_of "apartments.new_for" "Neue Wohnung: {0}" "New apartment: {0}"
    ∷ entry_of "apartments.edit_title" "Wohnung bearbeiten" "Edit apartment"
    ∷ entry_of "apartments.save" "Wohnung speichern" "Save apartment"
    ∷ entry_of "apartments.create" "Wohnung anlegen" "Create apartment"
    ∷ entry_of "apartments.first_owner" "Erster Eigentümer" "First owner"
    ∷ entry_of "apartments.building_owned_help"
        "Das Gebäude gehört als Ganzes dem Gebäudeeigentümer – die Wohnung hat daher keinen eigenen Eigentümer. Einzelne Wohnungseigentümer gibt es erst, wenn das Gebäude in Wohnungseigentum aufgeteilt wird (WEG); das unterstützt Kehrkraft nicht."
        "The building belongs as a whole to the building owner – this apartment therefore has no owner of its own. Individual apartment owners only exist once the building is split into condominium units (WEG); Kehrkraft does not support such a split."
    ∷ entry_of "apartments.owner_required_help"
        "Eine Wohnung braucht immer mindestens einen Eigentümer; der erste wird zusammen mit der Wohnung angelegt."
        "An apartment always needs at least one owner; the first one is created together with the apartment."
    ∷ entry_of "apartments.ownership_until" "Eigentum bis" "Ownership until"
    ∷ entry_of "apartments.owners_heading" "Eigentümer" "Owners"
    ∷ entry_of "apartments.no_owners" "Keine Eigentümer erfasst." "No owners recorded."
    ∷ entry_of "apartments.owner_delete_confirm" "Dieses Eigentum löschen?" "Delete this ownership?"
    ∷ entry_of "apartments.weg_notice"
        "Das Gebäude gehört als Ganzes dem Gebäudeeigentümer. Eigentümer einzelner Wohnungen gibt es rechtlich nicht, solange das Gebäude nicht in Wohnungseigentum aufgeteilt ist (WEG). Eine solche Aufteilung unterstützt Kehrkraft nicht."
        "The building belongs as a whole to the building owner. There are legally no owners of individual apartments unless the building is split into condominium units (WEG). Kehrkraft does not support such a split."
    ∷ entry_of "apartments.owner_confirm_question"
        "{0} ist derzeit als Eigentümerin bzw. Eigentümer über den {1} hinaus erfasst. Soll das bisherige Eigentum am {2} (dem Tag vor dem neuen Beginn) enden?"
        "{0} is currently recorded as the owner beyond {1}. Should the previous ownership end on {2} (the day before the new one begins)?"
    ∷ entry_of "apartments.owner_confirm_help"
        "Wenn Sie das nicht bestätigen, schlägt das Anlegen des neuen Eigentums fehl."
        "If you do not confirm this, adding the new ownership will fail."
    ∷ entry_of "apartments.close_previous_owner" "Ja, bisheriges Eigentum beenden und hinzufügen"
        "Yes, end the previous ownership and add the new one"
    ∷ entry_of "apartments.tenants_heading" "Mieter" "Tenants"
    ∷ entry_of "apartments.tenant_delegation_help"
        "Besteht während einer Woche ein Mietverhältnis, wird die Kehrwoche an den Mieter delegiert. Überlappende Mietverhältnisse lehnt die Anwendung ab."
        "When a tenancy covers a week, the Kehrwoche is delegated to the tenant. Overlapping tenancies are rejected by the application."
    ∷ entry_of "apartments.no_tenancies" "Keine Mietverhältnisse erfasst." "No tenancies recorded."
    ∷ entry_of "apartments.tenant_delete_confirm" "Dieses Mietverhältnis löschen?"
        "Delete this tenancy?"
    ∷ entry_of "apartments.add_tenant" "Mieter hinzufügen" "Add tenant"
    ∷ entry_of "apartments.tenant_confirm_question"
        "Das bisherige Mietverhältnis von {0} besteht derzeit über den {1} hinaus. Soll es am {2} (dem Tag vor dem neuen Mietbeginn) enden?"
        "The previous tenancy of {0} currently runs beyond {1}. Should it end on {2} (the day before the new tenancy begins)?"
    ∷ entry_of "apartments.tenant_confirm_help"
        "Wenn Sie das nicht bestätigen, schlägt das Anlegen des neuen Mietverhältnisses fehl."
        "If you do not confirm this, adding the new tenancy will fail."
    ∷ entry_of "apartments.close_previous_tenant"
        "Ja, bisheriges Mietverhältnis beenden und hinzufügen"
        "Yes, end the previous tenancy and add the new one"
    ∷ entry_of "tenancy.start" "Mietbeginn" "Tenancy from"
    ∷ entry_of "tenancy.end" "Mietende" "Tenancy until"
    ∷ entry_of "apartments.delete_confirm" "Diese Wohnung löschen?" "Delete this apartment?"
    ∷ []

-- Ownership edit
abbrev pub ownership_edit : List Entry
ownership_edit =
    entry_of "ownership.edit_title" "Eigentümer bearbeiten" "Edit owner"
    ∷ entry_of "ownership.edit_title_with" "Eigentümer bearbeiten: {0}" "Edit owner: {0}"
    ∷ entry_of "ownership.breadcrumb" "Eigentümer: {0}" "Owner: {0}"
    ∷ entry_of "ownership.edit_subtitle" "Wohnung {0} ({1})" "Apartment {0} ({1})"
    ∷ entry_of "ownership.end_warning"
        "Das Enddatum {0} liegt vor dem heutigen Tag. Ab dem {1} hätte die Wohnung bis zur Erfassung eines neuen Eigentümers keinen Eigentümer mehr."
        "The end date {0} lies before today. From {1} on, the apartment would have no owner until a new owner is recorded."
    ∷ entry_of "ownership.end_warning_help"
        "Wenn Sie das nicht beabsichtigen, wählen Sie „Nein, nicht beenden“ oder ändern Sie das Enddatum."
        "If that is not what you intend, choose “No, don't end it” or change the end date."
    ∷ entry_of "ownership.person_help"
        "Name und E-Mail-Adresse gehören zur Person und gelten damit für alle Zeiträume, in denen sie als Eigentümerin oder Eigentümer geführt wird. Ein neues „Eigentum ab“ muss lückenlos an die übrigen Zeiträume der Wohnung anschließen."
        "Name and e-mail address belong to the person and therefore apply to every period in which they are recorded as the owner. A new “Ownership from” date must seamlessly follow the apartment's other periods."
    ∷ []

-- Tenancy edit
abbrev pub tenancy_edit : List Entry
tenancy_edit =
    entry_of "tenancy.edit_title" "Mieter bearbeiten" "Edit tenant"
    ∷ entry_of "tenancy.edit_title_with" "Mieter bearbeiten: {0}" "Edit tenant: {0}"
    ∷ entry_of "tenancy.breadcrumb" "Mieter: {0}" "Tenant: {0}"
    ∷ entry_of "tenancy.edit_subtitle" "Wohnung {0} ({1})" "Apartment {0} ({1})"
    ∷ entry_of "tenancy.person_help"
        "Name und E-Mail-Adresse gehören zur Person und gelten damit für alle Zeiträume, in denen sie geführt wird – auch als Eigentümerin oder Eigentümer."
        "Name and e-mail address belong to the person and therefore apply to every period in which they are recorded – also as an owner."
    ∷ []

-- Building-owner form
abbrev pub building_owner_form : List Entry
building_owner_form =
    entry_of "building_owner.new_title" "Gebäudeeigentümer hinzufügen" "Add building owner"
    ∷ entry_of "building_owner.edit_title" "Gebäudeeigentümer bearbeiten" "Edit building owner"
    ∷ entry_of "building_owner.form_help"
        "Ein Gebäudeeigentümer besitzt alle Wohnungen des Gebäudes; einzelne Wohnungseigentümer sind dann nicht erforderlich."
        "A building owner owns all apartments of the building; individual apartment owners are then not required."
    ∷ entry_of "building_owner.confirm_question"
        "{0} ist derzeit als Gebäudeeigentümer über den {1} hinaus erfasst. Soll das bisherige Gebäudeeigentum am {2} (dem Tag vor dem neuen Beginn) enden?"
        "{0} is currently recorded as the building owner beyond {1}. Should the previous building ownership end on {2} (the day before the new one begins)?"
    ∷ entry_of "building_owner.confirm_help"
        "Wenn Sie das nicht bestätigen, schlägt das Anlegen des neuen Gebäudeeigentümers fehl."
        "If you do not confirm this, adding the new building owner will fail."
    ∷ entry_of "building_owner.end_warning"
        "Das Enddatum {0} liegt vor dem heutigen Tag. Ab dem {1} hätte das Gebäude bis zur Erfassung eines neuen Gebäudeeigentümers keinen Eigentümer mehr."
        "The end date {0} lies before today. From {1} on, the building would have no owner until a new building owner is recorded."
    ∷ entry_of "building_owner.end_warning_help"
        "Wenn Sie das nicht beabsichtigen, wählen Sie „Nein, nicht beenden“ oder ändern Sie das Enddatum."
        "If that is not what you intend, choose “No, don't end it” or change the end date."
    ∷ entry_of "building_owner.person_help"
        "Name und E-Mail-Adresse gehören zur Person und gelten damit für alle Zeiträume, in denen sie als Eigentümerin oder Eigentümer geführt wird. Ein neues „Eigentum ab“ muss an den vorherigen Gebäudeeigentümer anschließen."
        "Name and e-mail address belong to the person and therefore apply to every period in which they are recorded as the owner. A new “Ownership from” date must follow the previous building owner."
    ∷ entry_of "building_owner.close_previous"
        "Ja, bisheriges Gebäudeeigentum beenden und hinzufügen"
        "Yes, end the previous building ownership and add the new one"
    ∷ []
