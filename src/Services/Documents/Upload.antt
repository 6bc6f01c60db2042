-- ===== src/Services/Documents/Upload.antt =====
-- Upload: app/services/documents.py, `_read_upload`, `sniff_mime` and `upload_document`.
pub mod Reading
pub mod Outcomes
use contract_change_intel.Prelude.{
  starts_with, ℕ, ◌+◌, Text, codes, List, [], ◌∷◌, ◌++◌, Option, none, some, Bool, true, false, not,
  ◌||◌, ◌&&◌, ltb, ◌==◌, if◌then◌else◌, exists, select, text_eq, length,
}
use contract_change_intel.Store.Json.{Json, Fields, int, str, ident, obj, field, end}
use contract_change_intel.Store.Rows.{Document, StoredFile, Db, Ctx}
use contract_change_intel.Store.Errors.{
  Error, mime_not_allowed, upload_too_large, document_already_exists, document_not_found,
  integrity_error,
}
use contract_change_intel.Store.Exec.{
  Exec, Result, ok, err, ◌>>=◌, ◌>>◌, pure, query, write, made, require, raise_on, raise_if,
}
use contract_change_intel.Repositories.Documents
use contract_change_intel.Repositories.Audit.{record_entry}

-- What the code takes from the standard library's C modules: `hashlib.sha256(...).hexdigest()`,
-- `zipfile.ZipFile(...).namelist()` (none for a BadZipFile), and whether bytes decode as UTF-8.
pub record Codecs : Type 0 where
  pub sha256 : Text → Text
  pub namelist : Text → Option (List Text)
  pub decodes : Text → Bool

abbrev pub pdf_mime : Text
pdf_mime = codes "application/pdf"

abbrev pub docx_mime : Text
docx_mime = codes "application/vnd.openxmlformats-officedocument.wordprocessingml.document"

abbrev pub text_mime : Text
text_mime = codes "text/plain"

abbrev pub allowed_mime_types : List Text
allowed_mime_types = pdf_mime ∷ docx_mime ∷ text_mime ∷ []

abbrev pub pdf_magic : Text
pdf_magic = codes "%PDF-"

-- PK\x03\x04
abbrev pub zip_magic : Text
zip_magic = 0x50 ∷ 0x4b ∷ 0x03 ∷ 0x04 ∷ []

abbrev pub prepend : Text → Result Text → Result Text
prepend part (ok rest) = ok (part ++ rest)
prepend part (err e) = err e

-- The `while chunk := await read(...)` loop over the chunks that the stream yields, of which an
-- empty one ends it.
unfoldable pub read_upload : ℕ → ℕ → List Text → Result Text
read_upload max_bytes total [] = ok []
read_upload max_bytes total ([] ∷ chunks) = ok []
read_upload max_bytes total ((b ∷ chunk) ∷ chunks) =
    let rest = read_upload max_bytes (total + length (b ∷ chunk)) chunks in
    if ltb max_bytes (total + length (b ∷ chunk))
    then err (upload_too_large max_bytes)
    else prepend (b ∷ chunk) rest

-- The names in a Word package.
abbrev pub is_word_package : Option (List Text) → Bool
is_word_package none = false
is_word_package (some names) =
    exists (λ n. text_eq n (codes "[Content_Types].xml")) names
    && exists (starts_with (codes "word/")) names

unfoldable pub sniff_mime : Codecs → Text → Option Text
sniff_mime codecs [] = none
sniff_mime codecs (b ∷ bs) =
    if starts_with pdf_magic (b ∷ bs)
    then some pdf_mime
    else if starts_with zip_magic (b ∷ bs)
    then (if is_word_package (codecs.namelist (b ∷ bs)) then some docx_mime else none)
    else if exists (λ c. c == 0) (b ∷ bs)
    then none
    else if codecs.decodes (b ∷ bs)
    then some text_mime
    else none

abbrev pub opt_text_eq : Option Text → Option Text → Bool
opt_text_eq none none = true
opt_text_eq (some s) (some t) = text_eq s t
opt_text_eq _ _ = false

abbrev pub is_allowed : Option Text → Bool
is_allowed none = false
is_allowed (some mime) = exists (text_eq mime) allowed_mime_types

-- `text or default`.
abbrev pub or_default : Option Text → Text → Text
or_default none default = default
or_default (some []) default = default
or_default (some (c ∷ s)) default = c ∷ s

abbrev pub at_key : ℕ → Text → StoredFile → Bool
at_key tenant_id sha256 f = f.tenant_id == tenant_id && text_eq f.sha256 sha256

-- app/storage/local.py, `save_document`: the file is replaced as a whole.
unfoldable pub save_document : ℕ → Text → Text → Db → Db
save_document tenant_id sha256 content db = record db {
  stored_files =
      record { tenant_id = tenant_id; sha256 = sha256; content = content }
      ∷ select (λ f. not (at_key tenant_id sha256 f)) db.stored_files;
}

abbrev pub parent_checked : ℕ → Option ℕ → Exec (Unit {0})
parent_checked tenant_id none = pure tt
parent_checked tenant_id (some parent_id) = do
  parent ← query (Documents.find_by_id tenant_id parent_id)
  require parent (document_not_found parent_id)
  pure tt

abbrev pub document_id_of : Option Document → Option ℕ
document_id_of none = none
document_id_of (some d) = some d.id

-- The `except IntegrityError` clause.
abbrev pub or_conflict : ℕ → Text → Result Document × Db → Result Document × Db
or_conflict tenant_id sha256 (ok document, db) = (ok document, db)
or_conflict tenant_id sha256 (err integrity_error, db) = (
  err (document_already_exists (document_id_of (Documents.find_by_sha256 tenant_id sha256 db))),
  db,
)
or_conflict tenant_id sha256 (err e, db) = (err e, db)

abbrev pub amends_field : Option ℕ → Fields
amends_field none = end
amends_field (some id) = field "amends_document_id" (ident id) end

abbrev pub upload_detail : Document → Text → Option ℕ → Json
upload_detail document content parent = obj (
    field "filename" (str document.filename) (
      field "sha256" (str document.sha256) (
        field "mime_type" (str document.mime_type)
          (field "size_bytes" (int (length content)) (amends_field parent)))))

-- `meanwhile` is what other sessions commit between the duplicate check and the INSERT.
unfoldable pub upload_document :
    Codecs
    → (Db → Db)
    → Ctx
    → ℕ
    → Option Text
    → Option Text
    → List Text
    → ℕ
    → Option ℕ
    → Exec Document
unfolding save_document
upload_document codecs meanwhile ctx tenant_id filename content_type stream max_bytes parent = do
  raise_if (not (is_allowed content_type)) (mime_not_allowed content_type none)
  content ← λ db. (read_upload max_bytes 0 stream, db)
  let sha256 = codecs.sha256 content
  let sniffed = sniff_mime codecs content
  raise_if (not (opt_text_eq sniffed content_type)) (mime_not_allowed content_type sniffed)
  parent_checked tenant_id parent
  existing ← query (Documents.find_by_sha256 tenant_id sha256)
  raise_on existing (λ (d : Document). document_already_exists (some d.id))
  write (save_document tenant_id sha256 content)
  write meanwhile
  document ← λ db. or_conflict tenant_id sha256 (
      Documents.create ctx tenant_id (or_default filename (codes "untitled"))
        (or_default content_type (codes "application/octet-stream")) sha256 parent db)
  write (
      record_entry ctx document.tenant_id "document.upload" "document" document.id
        (upload_detail document content parent))
  pure document
