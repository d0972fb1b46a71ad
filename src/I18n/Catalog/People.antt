-- ===== src/I18n/Catalog/People.antt =====
-- src/i18n.rs, MESSAGES: the pages of people, roles and the messages of the handlers.
use kehrkraft.Prelude.{List, [], ◌∷◌}
use kehrkraft.I18n.Entries.{Entry, entry_of}

-- People pages
abbrev pub people_pages : List Entry
people_pages =
    entry_of "people.subtitle"
      "Jede Person wird nur einmal geführt – als Eigentümerin oder Eigentümer, Gebäudeeigentümer, Mieterin oder Mieter und Ansprechpartnerin oder Ansprechpartner. Dieselbe E-Mail-Adresse bedeutet dieselbe Person."
      "Each person is kept only once – as an owner, building owner, tenant or contact person. The same e-mail address always means the same person."
    ∷ entry_of "people.empty"
        "Noch keine Personen erfasst. Personen entstehen zusammen mit Eigentum, Mietverhältnissen oder Ansprechpartnern."
        "No people recorded yet. People come into being together with ownerships, tenancies or contact persons."
    ∷ entry_of "person.contact_heading" "Kontaktdaten" "Contact details"
    ∷ entry_of "person.email_help"
        "Die E-Mail-Adresse ist die Identität der Person: Name und Adresse gelten überall dort, wo die Person geführt wird – Eigentum, Mietverhältnisse, Ansprechpartner. Eine Adresse, die bereits einer anderen Person gehört, wird abgelehnt."
        "The e-mail address is the person's identity: the name and address apply wherever the person is recorded – ownerships, tenancies, contacts. An address that already belongs to another person is rejected."
    ∷ entry_of "person.roles_heading" "Rollen" "Roles"
    ∷ entry_of "person.no_roles" "Keine Rollen erfasst." "No roles recorded."
    ∷ entry_of "role.contact" "Ansprechpartner von" "Contact person for"
    ∷ entry_of "role.building_owner" "Gebäudeeigentümer von" "Building owner of"
    ∷ entry_of "role.owner" "Eigentümer von" "Owner of"
    ∷ entry_of "role.tenant" "Mieter von" "Tenant of"
    ∷ entry_of "role.since" "seit {0}" "since {0}"
    ∷ entry_of "role.range" "von {0} bis {1}" "from {0} to {1}"
    ∷ entry_of "role.since_in" "; seit {0}" "; since {0}"
    ∷ entry_of "role.range_in" "; von {0} bis {1}" "; from {0} to {1}"
    ∷ []

-- Role summaries on the people index (Rust side)
abbrev pub role_summaries : List Entry
role_summaries =
    entry_of "role.label.contact" "Ansprechpartner von {0}" "Contact person for {0}"
    ∷ entry_of "role.label.building_owner" "Gebäudeeigentümer von {0}" "Building owner of {0}"
    ∷ entry_of "role.label.owner" "Eigentümer von {0} ({1})" "Owner of {0} ({1})"
    ∷ entry_of "role.label.tenant" "Mieter von {0} ({1})" "Tenant of {0} ({1})"
    ∷ entry_of "people.more_roles" " · +{0} weitere" " · +{0} more"
    ∷ []

-- Rust-side flow messages (inline errors with dates/names)
abbrev pub flow_messages : List Entry
flow_messages =
    entry_of "ownership.decline_close"
      "Ohne das bisherige Eigentum von {0} am {1} zu beenden, kann das neue Eigentum nicht angelegt werden."
      "Without ending the previous ownership of {0} on {1}, the new ownership cannot be created."
    ∷ entry_of "ownership.gap_dates"
        "Das Eigentum muss am Tag nach dem Ende des vorherigen Eigentums beginnen; das vorherige Eigentum endet am {0}, der neue Beginn muss am {1} liegen (nicht am {2})."
        "The ownership must start on the day after the previous ownership ends; the previous ownership ends on {0}, so the new start must be {1} (not {2})."
    ∷ entry_of "tenancy.decline_close"
        "Ohne das bisherige Mietverhältnis von {0} am {1} zu beenden, kann das neue Mietverhältnis nicht angelegt werden."
        "Without ending the previous tenancy of {0} on {1}, the new tenancy cannot be created."
    ∷ entry_of "building_owner.decline_close"
        "Ohne das bisherige Gebäudeeigentum von {0} am {1} zu beenden, kann der neue Gebäudeeigentümer nicht angelegt werden."
        "Without ending the previous building ownership of {0} on {1}, the new building owner cannot be created."
    ∷ entry_of "building_owner.gap_dates"
        "Das Gebäudeeigentum muss am Tag nach dem Ende des vorherigen Gebäudeeigentums beginnen; das vorherige Gebäudeeigentum endet am {0}, der neue Beginn muss am {1} liegen (nicht am {2})."
        "The building ownership must start on the day after the previous building ownership ends; the previous building ownership ends on {0}, so the new start must be {1} (not {2})."
    ∷ []
