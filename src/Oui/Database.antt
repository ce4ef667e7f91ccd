-- ===== src/Oui/Database.antt =====
-- util/oui/oui.go: `DB`, `load`, `update` and `Lookup`.
use rout.Base.{
  ◌==◌, not, ℕ, zero, suc, ◌+◌, ◌*◌, ◌>>=◌, if◌then◌else◌, Bool, true, false, List, [], ◌∷◌, Option,
  none, some, Bytes, Bytes-discrete, insert, lookup,
}
use rout.Net.{mac_string}
use rout.Hex.{digit_value}

-- What a step returns: a value, an error, or an index out of range.
pub data Outcome {ℓ} (A : Type ℓ) : Type ℓ where
  done : A → Outcome A
  fails : Outcome A
  panics : Outcome A

-- `err` says that there is an error.
pub record Db : Type 0 where
  pub orgs : List (Bytes × Bytes)
  pub loaded : Bool
  pub err : Bool

abbrev pub prepend : ℕ → Outcome Bytes → Outcome Bytes
prepend b (done bs) = done (b ∷ bs)
prepend b fails = fails
prepend b panics = panics

-- `hex.Decode` into a slice with room for `room` bytes: the bytes that it writes.
unfoldable pub hex_decode : ℕ → Bytes → Outcome Bytes
hex_decode room [] = done []
hex_decode room (a ∷ []) = fails
hex_decode zero (a ∷ b ∷ rest) = elim (digit_value a) [
  | none ↦ fails
  | some _ ↦ elim (digit_value b) [ none ↦ fails | some _ ↦ panics ]
]
hex_decode (suc room) (a ∷ b ∷ rest) =
    let later = hex_decode room rest in
    elim (digit_value a) [
      | none ↦ fails
      | some hi ↦ elim (digit_value b) [ none ↦ fails | some lo ↦ prepend (hi * 16 + lo) later ]
    ]

-- `n == 3`, and the key of the three bytes.
abbrev pub block_key : Outcome Bytes → Outcome Bytes
block_key (done (b0 ∷ b1 ∷ b2 ∷ [])) = done (mac_string (b0 ∷ b1 ∷ b2 ∷ []))
block_key (done _) = fails
block_key fails = fails
block_key panics = panics

abbrev pub with_org : Bytes → Outcome Bytes → Outcome (Bytes × Bytes)
with_org org (done key) = done (key, org)
with_org org fails = fails
with_org org panics = panics

-- The body of the loop over the records: the entry that it adds.
unfoldable pub record_entry : List Bytes → Outcome (Bytes × Bytes)
record_entry (_ ∷ assignment ∷ org ∷ _) = with_org org (block_key (hex_decode 3 assignment))
record_entry _ = panics

unfoldable pub add_records :
    List (Bytes × Bytes) → List (List Bytes) → Outcome (List (Bytes × Bytes))
add_records orgs [] = done orgs
add_records orgs (r ∷ rest) = elim (record_entry r) [
  | done (key, org) ↦ add_records (insert Bytes-discrete key org orgs) rest
  | fails ↦ fails
  | panics ↦ panics
]

-- The records of a file; `none` is an error of the CSV reader, and no record at all makes `records[1:]`
-- panic.
unfoldable pub read_orgs : Option (List (List Bytes)) → Outcome (List (Bytes × Bytes))
read_orgs none = fails
read_orgs (some []) = panics
read_orgs (some (_ ∷ rest)) = add_records [] rest

-- `load`: the database, and whether there was an error; `none` is a panic.
unfoldable pub load : Db → Option (List (List Bytes)) → Option (Db × Bool)
load d file = elim (read_orgs file) [
  | done orgs ↦ some (record d { orgs = orgs; loaded = true }, false)
  | fails ↦ some (d, true)
  | panics ↦ none
]

abbrev pub set_err : Bool → Db → Db
set_err e d = record d { loaded = true; err = e }

-- `Lookup`; a missing key reads as "".
unfoldable pub lookup_org : Db → Bytes → Bytes
lookup_org d assignment = elim (lookup Bytes-discrete assignment d.orgs) [
  | none ↦ []
  | some org ↦ org
]

-- The file that `os.Open` finds, with the records that the CSV reader finds in it, and the error of
-- `Stat`.
pub record Cached : Type 0 where
  pub stat_fails : Bool
  pub file : Option (List (List Bytes))

-- What `update` meets behind its request: the status of the response, if there is one, to a request with
-- or without If-Modified-Since; the errors of MkdirAll, TempFile, Copy and CloseAtomicallyReplace; and
-- the new file, if it can be opened.
pub record Download : Type 0 where
  pub response : Bool → Option ℕ
  pub mkdir_fails : Bool
  pub temp_file_fails : Bool
  pub copy_fails : Bool
  pub replace_fails : Bool
  pub file : Option (Option (List (List Bytes)))

-- The cached version, if any, and whether the request has If-Modified-Since, which a version that cannot
-- be loaded deletes.
unfoldable pub load_cached : Db → Option Cached → Option (Db × Bool)
load_cached d none = some (d, false)
load_cached d (some c) = elim (load d c.file) [
  | none ↦ none
  | some (d', e) ↦ some (d', if e then false else not c.stat_fails)
]

-- The new file, opened and loaded.
unfoldable pub load_new : Db → Option (Option (List (List Bytes))) → Option Db
load_new d none = some (set_err true d)
load_new d (some file) = elim (load d file) [ none ↦ none | some (d', e) ↦ some (set_err e d') ]

-- The steps that store the body of the response.
unfoldable pub store_body : Db → Download → Option Db
store_body d download =
    let loaded = load_new d download.file in
    if download.mkdir_fails
    then some (set_err true d)
    else if download.temp_file_fails
    then some (set_err true d)
    else if download.copy_fails
    then some (set_err true d)
    else if download.replace_fails
    then some (set_err true d)
    else loaded

-- The part from `Do` on.
unfoldable pub finish_update : Db → Bool → Download → Option Db
finish_update d conditional download =
    let stored = store_body d download in
    elim (download.response conditional) [
      | none ↦ some (set_err true d)
      | some status ↦
          if status == 304
          then some (set_err false d)
          else if not (status == 200)
          then some (set_err true d)
          else stored
    ]

-- `update`; `request_fails` is an error of `http.NewRequest`, and `none` a panic.
unfoldable pub update : Db → Bool → Option Cached → Download → Option Db
update d request_fails cached download =
    if request_fails
    then some (set_err true d)
    else load_cached d cached >>= λ r. finish_update r.0 r.1 download
