-- ===== src/Oui/Lookup.antt =====
-- What a loaded database answers.
use rout.Base.{
  ℕ, ℕ_discrete, ap, Bool-cases, ◌≡◌, ◌⊎◌, inl, inr, ◌∙◌, refl, subst, ite, Bool, Option-cases,
  true, false, List, [], ◌∷◌, Option, none, some, Bytes, Bytes-discrete, insert, lookup,
  lookup-insert, arith,
}
use rout.Oui.Blocks.{block_of, Outcome-cases, record_entry-done}
use rout.Oui.Database.{
  Cached, load_new, store_body, done, Db, record_entry, add_records, read_orgs, load, lookup_org,
  Download, load_cached, finish_update, update,
}

-- The organization of a record for the block `key`: the third column, if the second one is the block.
abbrev pub org_of : Bytes → List Bytes → Option Bytes
org_of key (registry ∷ assignment ∷ org ∷ rest) = elim (block_of assignment) [
  | none ↦ none
  | some block ↦ ite (Bytes-discrete block key) (some org) none
]
org_of key _ = none

-- The organization of the last record for a block.
abbrev pub last_org : Bytes → List (List Bytes) → Option Bytes
last_org key [] = none
last_org key (r ∷ rest) =
    let later = last_org key rest in elim later [ some org ↦ some org | none ↦ org_of key r ]

org_of_entry :
    (key : Bytes) (r : List Bytes) (k org : Bytes)
    → record_entry r ≡ done (k, org)
    → org_of key r ≡ ite (Bytes-discrete k key) (some org) none
org_of_entry key r k org e =
    let (registry, assignment, rest, is, block) = record_entry-done r k org e in
    let at : org_of key (registry ∷ assignment ∷ org ∷ rest)
        ≡ ite (Bytes-discrete k key) (some org) none =
      rw (block, org_of) refl in
    rw is at

abbrev pub or_else : Option Bytes → Option Bytes → Option Bytes
or_else none b = b
or_else (some a) b = some a

ite-or {ℓ} :
    {P : Type ℓ} (d : Dec P) (a : Bytes) (x : Option Bytes)
    → ite d (some a) x ≡ or_else (ite d (some a) none) x
ite-or (yes p) a x = refl
ite-or (no p) a x = refl

add_records-lookup :
    (orgs orgs' : List (Bytes × Bytes)) (records : List (List Bytes)) (key : Bytes)
    → add_records orgs records ≡ done orgs'
    → lookup Bytes-discrete key orgs'
      ≡ or_else (last_org key records) (lookup Bytes-discrete key orgs)
unfolding add_records
add_records-lookup orgs orgs' [] key e = ground arith
add_records-lookup orgs orgs' (r ∷ rest) key e = elim (Outcome-cases (record_entry r)) [
  | inr (inl bad) ↦ absurd (ground arith)
  | inr (inr bad) ↦ absurd (ground arith)
  | inl (ko, is) ↦
      let new = lookup-insert Bytes-discrete key ko.0 ko.1 orgs in
      let later =
        add_records-lookup (insert Bytes-discrete ko.0 ko.1 orgs) orgs' rest key
          (rw (is, add_records) at e) in
      elim (Option-cases (last_org key rest)) [
        | inr (org, more) ↦ later ∙ rw more refl
        | inl last ↦
            later
            ∙ rw (last, org_of_entry key r ko.0 ko.1 is, new)
                (ite-or (Bytes-discrete ko.0 key) ko.1 (lookup Bytes-discrete key orgs))
      ]
]

org_text :
    (o p : Option Bytes)
    → o ≡ or_else p none
    → (elim o [ none ↦ [] | some org ↦ org ]) ≡ (elim p [ none ↦ [] | some org ↦ org ])
org_text o none e = rw e refl
org_text o (some a) e = rw e refl

-- After a `load` without an error, `Lookup` answers a block such as `f0:9f:c2` with the third column of
-- the last record behind the header whose second column is the block's six digits, in either case, and
-- with "" if there is none.
pub load-lookup_org :
    (d d' : Db) (header : List Bytes) (records : List (List Bytes)) (key : Bytes)
    → load d (some (header ∷ records)) ≡ some (d', false)
    → lookup_org d' key ≡ (elim (last_org key records) [ none ↦ [] | some org ↦ org ])
unfolding load read_orgs lookup_org lookup
load-lookup_org d d' header records key e = elim (Outcome-cases (add_records [] records)) [
  | inr (inl bad) ↦ absurd (ground arith)
  | inr (inr bad) ↦ absurd (ground arith)
  | inl (orgs, made) ↦
      let after : orgs ≡ d'.orgs = ground arith in
      let at = add_records-lookup [] orgs records key made in
      let found : lookup Bytes-discrete key d'.orgs ≡ or_else (last_org key records) none =
        subst
          (λ (m : List (Bytes × Bytes)).
            lookup Bytes-discrete key m ≡ or_else (last_org key records) none)
          after at in
      org_text (lookup Bytes-discrete key d'.orgs) (last_org key records) found
]

load-cases :
    (d d' : Db) (file : Option (List (List Bytes))) (e : Bool)
    → load d file ≡ some (d', e)
    → ((e ≡ false) × (d'.loaded ≡ true)) ⊎ ((e ≡ true) × (d' ≡ d))
unfolding load
load-cases d d' file e l = elim (Outcome-cases (read_orgs file)) [
  | inl (orgs, made) ↦ inl (ground arith, ground arith)
  | inr (inl bad) ↦ inr (ground arith, ground arith)
  | inr (inr bad) ↦ absurd (ground arith)
]

-- The database `d'` that an update leaves where its cached version left `d1`: there was an error, and it
-- answers as `d1` does; or the server had nothing new, and it does so too; or it has loaded the file that
-- was downloaded with status 200, written and put in place without an error.
abbrev pub Ended : Db → Bool → Download → Db → Type 0
Ended d1 conditional t d' =
    ((d'.err ≡ true) × (d'.orgs ≡ d1.orgs))
    ⊎ ((d'.err ≡ false) × (t.response conditional ≡ some 304) × (d'.orgs ≡ d1.orgs))
    ⊎ ((d'.err ≡ false)
        × (t.response conditional ≡ some 200)
        × (t.mkdir_fails ≡ false)
        × (t.temp_file_fails ≡ false)
        × (t.copy_fails ≡ false)
        × (t.replace_fails ≡ false)
        × ((file : Option (List (List Bytes))) × (d2 : Db) × (t.file ≡ some file)
            × (load d1 file ≡ some (d2, false))
            × (d'.orgs ≡ d2.orgs)))

load_new-cases :
    (d d' : Db) (file : Option (Option (List (List Bytes))))
    → load_new d file ≡ some d'
    → (d'.loaded ≡ true)
      × (((d'.err ≡ true) × (d'.orgs ≡ d.orgs))
          ⊎ ((d'.err ≡ false)
              × ((records : Option (List (List Bytes))) × (d2 : Db) × (file ≡ some records)
                  × (load d records ≡ some (d2, false))
                  × (d'.orgs ≡ d2.orgs))))
unfolding load_new
load_new-cases d d' none e = (ground arith, inl (ground arith, ground arith))
load_new-cases d d' (some file) e = elim (Option-cases (load d file)) [
  | inl bad ↦ absurd (ground arith)
  | inr (r, l) ↦ elim (load-cases d r.0 file r.1 l) [
    | inl (fine, _) ↦ (
      ground arith,
      inr (
        ground arith,
        (file, r.0, refl, l ∙ ap (λ (e : Bool). some (r.0, e)) fine, ground arith),
      ),
    )
    | inr (bad, same) ↦ (ground arith, inl (ground arith, ground arith))
  ]
]

store_body-Ended :
    (d d' : Db) (conditional : Bool) (t : Download)
    → t.response conditional ≡ some 200
    → store_body d t ≡ some d'
    → (d'.loaded ≡ true) × Ended d conditional t d'
unfolding store_body
store_body-Ended d d' conditional t status e = elim (Bool-cases t.mkdir_fails) [
  | inl bad ↦ (ground arith, inl (ground arith, ground arith))
  | inr a ↦ elim (Bool-cases t.temp_file_fails) [
    | inl bad ↦ (ground arith, inl (ground arith, ground arith))
    | inr b ↦ elim (Bool-cases t.copy_fails) [
      | inl bad ↦ (ground arith, inl (ground arith, ground arith))
      | inr c ↦ elim (Bool-cases t.replace_fails) [
        | inl bad ↦ (ground arith, inl (ground arith, ground arith))
        | inr k ↦
            let (loaded, how) = load_new-cases d d' t.file (ground arith) in
            (
              loaded,
              elim how [
                | inl bad ↦ inl bad
                | inr (fine, from) ↦ inr (inr (fine, status, a, b, c, k, from))
              ],
            )
      ]
    ]
  ]
]

finish_update-Ended :
    (d d' : Db) (conditional : Bool) (t : Download)
    → finish_update d conditional t ≡ some d'
    → (d'.loaded ≡ true) × Ended d conditional t d'
unfolding finish_update
finish_update-Ended d d' conditional t e = elim (Option-cases (t.response conditional)) [
  | inl bad ↦ (ground arith, inl (ground arith, ground arith))
  | inr (status, got) ↦ elim (ℕ_discrete status 304) [
    | yes same ↦
        (ground arith, inr (inl (ground arith, got ∙ ap (λ (n : ℕ). some n) same, ground arith)))
    | no new ↦ elim (ℕ_discrete status 200) [
      | no bad ↦ (ground arith, inl (ground arith, ground arith))
      | yes fine ↦
          store_body-Ended d d' conditional t (got ∙ ap (λ (n : ℕ). some n) fine) (ground arith)
    ]
  ]
]

-- What the cached version leaves, and whether the request is conditional; nothing is read if the request
-- cannot be made.
abbrev pub Began : Db → Bool → Option Cached → Db → Bool → Type 0
Began d request_fails cached d1 conditional =
    ((request_fails ≡ true) × (d1 ≡ d))
    ⊎ ((request_fails ≡ false) × (load_cached d cached ≡ some (d1, conditional)))

-- An update that does not panic always ends the wait for the database, also where the request cannot be
-- made; if it ends with an error the database answers as it did after its cached version was read, and
-- it ends without one only if the server says that there is nothing new or if the new version was
-- downloaded with status 200, stored and loaded.
pub update-loaded :
    (d d' : Db) (request_fails : Bool) (cached : Option Cached) (t : Download)
    → update d request_fails cached t ≡ some d'
    → (d1 : Db) × (conditional : Bool) × Began d request_fails cached d1 conditional
      × (d'.loaded ≡ true)
      × Ended d1 conditional t d'
      × (request_fails ≡ true → d'.err ≡ true)
unfolding update
update-loaded d d' request_fails cached t e = elim (Bool-cases request_fails) [
  | inl bad ↦
      (d, false, inl (bad, refl), ground arith, inl (ground arith, ground arith), λ _. ground arith)
  | inr fine ↦ elim (Option-cases (load_cached d cached)) [
    | inl panic ↦ absurd (ground arith)
    | inr (r, read) ↦
        let (loaded, ended) = finish_update-Ended r.0 d' r.1 t (ground arith) in
        (r.0, r.1, inr (fine, read), loaded, ended, λ bad. absurd (ground arith))
  ]
]
