-- ===== src/I18n/Entries.antt =====
-- src/i18n.rs: an entry of the catalog.
use Prim.Native.String.{String}
use kehrkraft.Prelude.{Text}
use kehrkraft.Models.Names.{chars}

pub record Entry : Type 0 where
  pub key : Text
  pub german : Text
  pub english : Text

abbrev pub entry_of : String → String → String → Entry
entry_of key german english = record {
  key = chars key;
  german = chars german;
  english = chars english;
}
