-- ===== src/Services/Documents/Upload/Outcomes.antt =====
-- What an upload accepts and what it leaves.
use contract_change_intel.Prelude.{
  ℕ, Text, codes, List, [], ◌∷◌, ◌++◌, Option, none, some, true, false, not, ◌≡◌, refl, sym, ◌∙◌,
  ◌||◌, arith, exists, inl, inr, ◌⊎◌, Bool-cases, Option-cases,
}
use contract_change_intel.Store.Rows.{Document, Db, Ctx, uploaded}
use contract_change_intel.Store.Errors.{
  Error, document_already_exists, document_not_found, mime_not_allowed, integrity_error,
}
use contract_change_intel.Store.Exec.{Result, ok, err}
use contract_change_intel.Repositories.Documents.{
  find_by_sha256, find_by_id, create, parent_exists, same_sha, document_exists,
}
use contract_change_intel.Repositories.Audit.{record_entry}
use contract_change_intel.Services.Documents.Upload.{
  Codecs, upload_document, read_upload, sniff_mime, parent_checked, or_conflict, or_default,
  upload_detail, is_allowed, opt_text_eq, save_document,
}

-- The rest of an upload behind its INSERT.
abbrev audited : Ctx → Text → Option ℕ → Result Document × Db → Result Document × Db
audited ctx content parent (ok d, db) = (
  ok d,
  record_entry ctx d.tenant_id "document.upload" "document" d.id (upload_detail d content parent)
      db,
)
audited ctx content parent (err e, db) = (err e, db)

-- The parent that an upload names, if it names one, is a document of the tenant.
abbrev pub ParentFound : ℕ → Db → Option ℕ → Type 0
ParentFound tenant_id db none = Unit
ParentFound tenant_id db (some id) = (d : Document) × (find_by_id tenant_id id db ≡ some d)

-- The checks that an upload passes before it writes.
pub record IsAccepted (codecs : Codecs) (tenant_id : ℕ) (content_type : Option Text)
    (stream : List Text) (max_bytes : ℕ) (parent : Option ℕ) (db : Db) (content : Text)
    : Type 0 where
  pub allowed : is_allowed content_type ≡ true
  pub complete : read_upload max_bytes 0 stream ≡ ok content
  pub sniffed : opt_text_eq (sniff_mime codecs content) content_type ≡ true
  pub parent_found : ParentFound tenant_id db parent
  pub is_new : find_by_sha256 tenant_id (codecs.sha256 content) db ≡ none

Result-cases : {A : Type 0} (r : Result A) → ((a : A) × (r ≡ ok a)) ⊎ ((e : Error) × (r ≡ err e))
Result-cases (ok a) = inl (a, refl)
Result-cases (err e) = inr (e, refl)

-- The row that an upload inserts into `db`.
abbrev pub IsInserted : ℕ → Text → Option ℕ → Db → Document → Db → Type 0
IsInserted tenant_id sha256 parent db d db' =
    (d.tenant_id ≡ tenant_id)
    × (d.sha256 ≡ sha256)
    × (d.amends_document_id ≡ parent)
    × (d.status ≡ uploaded)
    × (db'.documents ≡ db.documents ++ d ∷ [])

parent_cases :
    (tenant_id : ℕ) (parent : Option ℕ) (db : Db)
    → ParentFound tenant_id db parent
      ⊎ ((e : Error) × (parent_checked tenant_id parent db ≡ (err e, db)))
parent_cases tenant_id none db = inl tt
parent_cases tenant_id (some id) db = elim (Option-cases (find_by_id tenant_id id db)) [
  | inl e ↦ inr (document_not_found id, rw e refl)
  | inr (d, e) ↦ inl (d, e)
]

parent_passes :
    (tenant_id : ℕ) (parent : Option ℕ) (db : Db)
    → ParentFound tenant_id db parent
    → parent_checked tenant_id parent db ≡ (ok tt, db)
parent_passes tenant_id none db h = refl
parent_passes tenant_id (some id) db (d, e) = rw e refl

module _ (codecs : Codecs) (meanwhile : Db → Db) (ctx : Ctx) (tenant_id : ℕ)
    (filename content_type : Option Text) (stream : List Text) (max_bytes : ℕ) (parent : Option ℕ)
    (db : Db) where
  abbrev upload : Result Document × Db
  upload =
      upload_document codecs meanwhile ctx tenant_id filename content_type stream max_bytes parent
        db

  -- The database that the INSERT runs on.
  abbrev pub at_insert : Text → Db
  at_insert content = meanwhile (save_document tenant_id (codecs.sha256 content) content db)

  -- An upload fails before it writes, or passes the checks.
  upload_document-cases :
      ((e : Error) × (upload ≡ (err e, db)))
      ⊎ ((content : Text) × IsAccepted codecs tenant_id content_type stream max_bytes parent db
            content)
  unfolding upload_document
  upload_document-cases = elim (Bool-cases (is_allowed content_type)) [
    | inr a ↦ inl (mime_not_allowed content_type none, rw a refl)
    | inl a ↦ elim (Result-cases (read_upload max_bytes 0 stream)) [
      | inr (e, b) ↦ inl (e, rw (a, b) refl)
      | inl (content, b) ↦
          elim (Bool-cases (opt_text_eq (sniff_mime codecs content) content_type)) [
            | inr c ↦
                inl (mime_not_allowed content_type (sniff_mime codecs content), rw (a, b, c) refl)
            | inl c ↦ elim (parent_cases tenant_id parent db) [
              | inr (e, d) ↦ inl (e, rw (a, b, c, d) refl)
              | inl d ↦ elim (Option-cases (find_by_sha256 tenant_id (codecs.sha256 content) db)) [
                | inr (x, f) ↦ inl (
                  document_already_exists (some x.id),
                  rw (a, b, c, parent_passes tenant_id parent db d, f) refl,
                )
                | inl f ↦ inr (
                  content,
                  record { allowed = a; complete = b; sniffed = c; parent_found = d; is_new = f },
                )
              ]
            ]
          ]
    ]
  ]

  -- An upload that passes the checks writes its file and then runs the INSERT.
  upload_document-accepted :
      {content : Text}
      → IsAccepted codecs tenant_id content_type stream max_bytes parent db content
      → upload
        ≡ audited ctx content parent (
            or_conflict tenant_id (codecs.sha256 content) (
              create ctx tenant_id
                (or_default filename (codes "untitled"))
                (or_default content_type (codes "application/octet-stream"))
                (codecs.sha256 content)
                parent
                (at_insert content)))
  unfolding upload_document
  upload_document-accepted h =
      rw
        (
          h.allowed,
          h.complete,
          h.sniffed,
          parent_passes tenant_id parent db h.parent_found,
          h.is_new,
        )
        refl

create-ok :
    (ctx : Ctx) (tenant_id : ℕ) (filename mime_type sha256 : Text) (parent : Option ℕ) (db : Db)
    {d : Document} {db' : Db}
    → create ctx tenant_id filename mime_type sha256 parent db ≡ (ok d, db')
    → IsInserted tenant_id sha256 parent db d db'
unfolding create
create-ok ctx tenant_id filename mime_type sha256 parent db {db' = db'} h =
    elim (Bool-cases
      (exists (same_sha tenant_id sha256) db.documents || not (parent_exists db parent))) [
        | inl e ↦ absurd (ground arith)
        | inr e ↦ (ground arith, ground arith, ground arith, ground arith, ground arith)
      ]

audited-ok :
    (ctx : Ctx) (content : Text) (parent : Option ℕ) (tenant_id : ℕ) (sha256 : Text)
    (r : Result Document × Db) {d : Document} {db' : Db}
    → audited ctx content parent (or_conflict tenant_id sha256 r) ≡ (ok d, db')
    → (made : Db) × (r ≡ (ok d, made)) × (db'.documents ≡ made.documents)
unfolding record_entry
audited-ok ctx content parent tenant_id sha256 (ok x, db) h = (db, ground arith, ground arith)
audited-ok ctx content parent tenant_id sha256 (err e, db) h = elim e [
  | integrity_error ↦ absurd (ground arith)
  | _ ↦ absurd (ground arith)
]

-- An upload that returns has passed all checks, the type and the size of its content included; the
-- row it returns has the content's hash, the tenant and the parent that were asked for, and is
-- added to the documents that the INSERT found, whatever other sessions committed before it.
pub upload_document-ok :
    (codecs : Codecs) (meanwhile : Db → Db) (ctx : Ctx) (tenant_id : ℕ)
    (filename content_type : Option Text) (stream : List Text) (max_bytes : ℕ) (parent : Option ℕ)
    (db : Db) {d : Document} {db' : Db}
    → upload_document codecs meanwhile ctx tenant_id filename content_type stream max_bytes parent
        db
      ≡ (ok d, db')
    → (content : Text) × IsAccepted codecs tenant_id content_type stream max_bytes parent db content
      × IsInserted tenant_id
          (codecs.sha256 content)
          parent
          (meanwhile (save_document tenant_id (codecs.sha256 content) content db))
          d
          db'
upload_document-ok codecs meanwhile ctx tenant_id filename content_type stream max_bytes parent db
      {d = d} {db' = db'} h =
    elim (upload_document-cases codecs meanwhile ctx tenant_id filename content_type stream
      max_bytes parent db) [
        | inl (e, f) ↦ absurd (ground arith)
        | inr (content, a) ↦
            let p =
              upload_document-accepted codecs meanwhile ctx tenant_id filename content_type stream
                max_bytes parent db a in
            let (made, c, rows) =
              audited-ok ctx content parent tenant_id (codecs.sha256 content) _ (sym p ∙ h) in
            let (t, s, q, u, ds) = create-ok ctx tenant_id _ _ (codecs.sha256 content) parent _ c in
            (content, a, (t, s, q, u, rows ∙ ds))
      ]

-- An upload that passes its checks, and whose parent another session deletes before the INSERT, is
-- reported as a duplicate of no document, if no document of the tenant has the content's hash then.
pub upload_document-lost_parent :
    (codecs : Codecs) (meanwhile : Db → Db) (ctx : Ctx) (tenant_id : ℕ)
    (filename content_type : Option Text) (stream : List Text) (max_bytes parent_id : ℕ) (db : Db)
    {content : Text}
    → IsAccepted codecs tenant_id content_type stream max_bytes (some parent_id) db content
    → document_exists
        (meanwhile (save_document tenant_id (codecs.sha256 content) content db))
        parent_id
      ≡ false
    → find_by_sha256 tenant_id
        (codecs.sha256 content)
        (meanwhile (save_document tenant_id (codecs.sha256 content) content db))
      ≡ none
    → upload_document codecs meanwhile ctx tenant_id filename content_type stream max_bytes
        (some parent_id)
        db
      ≡ (
        err (document_already_exists none),
        meanwhile (save_document tenant_id (codecs.sha256 content) content db),
      )
unfolding create
upload_document-lost_parent codecs meanwhile ctx tenant_id filename content_type stream max_bytes
      parent_id db {content = content} a gone new =
    let z : (exists (same_sha tenant_id (codecs.sha256 content))
            (meanwhile (save_document tenant_id (codecs.sha256 content) content db)).documents
          || not (
              document_exists
                (meanwhile (save_document tenant_id (codecs.sha256 content) content db)) parent_id))
        ≡ true =
      ground (arith, gone) in
    rw
      (upload_document-accepted codecs meanwhile ctx tenant_id filename content_type stream
        max_bytes (some parent_id) db a)
      (rw z (rw new refl))
