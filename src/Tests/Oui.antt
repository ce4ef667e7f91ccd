-- ===== src/Tests/Oui.antt =====
-- The vendor database's theorems at a file of two records.
use rout.Base.{
  Bool, ◌≡◌, refl, true, false, List, [], ◌∷◌, none, some, Bytes, Bytes-discrete, insert, delete,
  lookup, text,
}
use rout.Net.{mac_string, hex_digit, octets}
use rout.Hex.{digit_value}
use rout.Oui.Database.{
  panics, Db, hex_decode, record_entry, add_records, read_orgs, load, set_err, lookup_org, Cached,
  Download, load_cached, load_new, store_body, finish_update, update,
}
use rout.Oui.Lookup.{last_org, load-lookup_org, Began, Ended, update-loaded}

program : Unit {0}
unfolding mac_string hex_digit octets digit_value hex_decode record_entry add_records read_orgs load
    lookup_org load_cached load_new store_body finish_update update Bytes-discrete insert delete
    lookup
program = tt

abbrev empty_db : Db
empty_db = record { orgs = []; loaded = false; err = false }

abbrev header : List Bytes
header = text "Registry" ∷ text "Assignment" ∷ text "Organization Name" ∷ []

abbrev records : List (List Bytes)
records =
    (text "MA-L" ∷ text "F09FC2" ∷ text "Ubiquiti" ∷ [])
    ∷ (text "MA-L" ∷ text "4409b8" ∷ text "Salcomp" ∷ [])
    ∷ []

abbrev loaded_db : Db
loaded_db = record {
  orgs = (text "44:09:b8", text "Salcomp") ∷ (text "f0:9f:c2", text "Ubiquiti") ∷ [];
  loaded = true;
  err = false;
}

loads : load empty_db (some (header ∷ records)) ≡ some (loaded_db, false)
unfolding program
loads = refl

empty_file : load empty_db (some []) ≡ none
unfolding program
empty_file = refl

long_assignment : hex_decode 3 (text "F09FC2A0") ≡ panics
unfolding program
long_assignment = refl

load-lookup_org_example :
    lookup_org loaded_db (text "f0:9f:c2")
    ≡ (elim (last_org (text "f0:9f:c2") records) [ none ↦ [] | some org ↦ org ])
load-lookup_org_example = load-lookup_org empty_db loaded_db header records (text "f0:9f:c2") loads

abbrev cached : Cached
cached = record { stat_fails = false; file = some (header ∷ records) }

-- The server has a new version, but the disk is full.
abbrev interrupted : Download
interrupted = record {
  response = λ conditional. some 200;
  mkdir_fails = false;
  temp_file_fails = false;
  copy_fails = true;
  replace_fails = false;
  file = none;
}

updates : update empty_db false (some cached) interrupted ≡ some (set_err true loaded_db)
unfolding program
updates = refl

-- A cached version that cannot be loaded is asked for again, whatever its age.
corrupted : load_cached empty_db (some (record cached { file = none })) ≡ some (empty_db, false)
unfolding program
corrupted = refl

update-loaded_example :
    (d1 : Db) × (conditional : Bool) × Began empty_db false (some cached) d1 conditional
    × ((set_err true loaded_db).loaded ≡ true)
    × Ended d1 conditional interrupted (set_err true loaded_db)
    × (false ≡ true → (set_err true loaded_db).err ≡ true)
update-loaded_example =
    update-loaded empty_db (set_err true loaded_db) false (some cached) interrupted updates
