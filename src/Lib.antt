-- ===== src/Lib.antt =====
-- Kehrkraft: the weekly cleaning duties (Kehrwoche) of a building and the records behind them.
--
-- The program keeps buildings, apartments, ownership periods, building-owner periods, tenancies and
-- people in SQLite (migrations/, src/db/), computes from them who serves each ISO week of a year
-- (src/scheduler/mod.rs), shows the result as pages, as a printed table (src/web/pdf.rs) and as an
-- iCalendar feed (src/web/ical.rs), and stores backups in a bucket (src/backup/).
--
-- Prelude      names, Boolean tests, texts as lists of code points, lists and integers over the
--              native numbers
-- Calendar     what the code takes from chrono: a record with its laws, which hold up to the last day
--              that chrono has; Gregorian is an instance, which lets the model run
-- Models       src/db/models.rs: the records; Names: effective names and joined labels
-- Scheduler    src/scheduler/mod.rs, the whole of schedule_for_year. The queries that it calls are
--              the record Queries. The loop over the weeks runs on a fuel of 54 rounds, one more than
--              the longest ISO year has weeks; a day after the last one of chrono is a panic
-- Db.Period    the triggers on the tables of periods (migrations/0012), on rows whose dates are days
-- Db.Store     the tables as one store, transactions on it, people and the cleanup of people
-- Db.People    resolve_person, the people of a period, update_person
-- Db.Periods   the operations on ownerships and building owners; Db.Owners gives their names
-- Db.Reads     the periods of a day, and the last end before one
-- Db.Apartments, Db.Buildings, Db.Tenancies, Db.Rows
--              the other operations of src/db/queries.rs that are modelled; Db.Samples is a small
--              database for the tests
-- Feed         src/web/ical.rs: escaping, folding and the document; Public is the handler, over the
--              scheduler and the texts of I18n
-- Pdf          src/web/pdf.rs: escaping, file names, the columns and the links
-- Strings      what the sources use of Rust's strings: prefixes, splitting, trimming, numbers
-- Backup       src/backup/: Naming has the slots and object names, Config the environment, Vault what
--              a run changes and its steps, Run and Verify one run and the check of the latest
--              backup. The calls that fail, or during which the deadline passes, are a list of
--              events; age, the files of SQLite, chrono and the bucket are the record Libraries
-- I18n         src/i18n.rs: the catalog, grouped by page, the language that a request prefers and the
--              placeholders of a message, on as much fuel as the message has characters
-- App          src/app.rs: the language switch, the password, the rate limit and the demo banner;
--              Settings is src/config.rs
-- Admin        src/web/admin.rs: Seeds has the rotation offsets that the page of a building offers,
--              Forms the fields of the forms of periods, Answers what the handlers answer, Owners
--              the handlers that create, update and delete ownerships and building owners
--
-- Days are numbers, counted from 0000-01-01. Ids are numbers in the order of their texts. i64 and
-- i128 values are integers without bounds: the sums of the code stay far below them. A transaction is
-- a function from a store to a result with a store; a rejected one has no store, as after a rollback.
-- Years are numbers from 0 on. Instants of the backups are nanoseconds, and the canary keeps whole
-- seconds. The handlers of owners have the error of the read after a commit as a parameter.
-- SQLite's trim and its reading of a date are parameters of the operations; a date that it reads has a
-- four-digit year. A row with a malformed date is rejected by the triggers on the format, and the
-- codes of other triggers that reject it too are not listed.
--
-- Not modelled: the templates and the handlers of other forms than those of owners, the routes
-- and the start-up, running Typst, and of src/db/queries.rs the deletion of buildings and
-- apartments and the lists.
pub mod Prelude
pub mod Calendar
pub mod Models
pub mod Scheduler
pub mod Db
pub mod Feed
pub mod Pdf
pub mod Strings
pub mod I18n
pub mod App
pub mod Backup
pub mod Admin
