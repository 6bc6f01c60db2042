-- ===== src/Responses.antt =====
-- app/errors.py: the responses to the exceptions of the services. `show_id` is the text of a UUID, `show_int` that of an integer; `repr` is that of an optional
-- text and `repr_list` that of a list.
use contract_change_intel.Prelude.{
  ℕ, ◌/◌, ◌*◌, ◌≤◌, ◌<◌, ◌++◌, Text, codes, String, List, [], Option, none, some, ◌≡◌, refl, arith,
  ◌⊎◌, inl, inr,
}
use contract_change_intel.Store.Json.{Json, str, ident, word, obj, field, end, opt_json}
use contract_change_intel.Store.Errors.{Error, Prerequisite}
use contract_change_intel.Store.Errors
use contract_change_intel.Services.Documents.Upload.{allowed_mime_types}

pub record Response : Type 0 where
  pub status_code : ℕ
  pub content : Json
  pub headers : List (Text × Text)

abbrev pub detail_response : ℕ → Json → Response
detail_response status_code detail = record {
  status_code = status_code;
  content = obj (field "detail" detail end);
  headers = [];
}

abbrev pub kind_text : Prerequisite → String
kind_text Errors.Prerequisite.ingestion = "ingestion"
kind_text Errors.Prerequisite.extraction = "extraction"

module _ (show_id show_int : ℕ → Text) (repr : Option Text → Text)
    (repr_list : List Text → Text) where
  -- `{before}{id}{after}`
  abbrev pub about : String → ℕ → String → Json
  about before id after = str (codes before ++ show_id id ++ codes after)

  abbrev pub identified : Option Text → Text
  identified none = []
  identified (some sniffed) = codes "; content identified as " ++ sniffed

  abbrev pub mime_not_allowed : Option Text → Option Text → Response
  mime_not_allowed content_type sniffed = detail_response 415 (
      str (
        codes "unsupported media type "
        ++ repr content_type
        ++ codes "; allowed: "
        ++ repr_list allowed_mime_types
        ++ identified sniffed))

  abbrev pub upload_too_large : ℕ → Response
  upload_too_large max_bytes = detail_response 413 (
      str
        (codes "upload exceeds limit of " ++ show_int (max_bytes / (1024 * 1024)) ++ codes " MiB"))

  abbrev pub document_already_exists : Option ℕ → Response
  document_already_exists (some id) = detail_response 409 (obj (field "existing_id" (ident id) end))
  document_already_exists none = detail_response 409 (str (codes "document already exists"))

  abbrev pub job_conflict : ℕ → Response
  job_conflict job_id = detail_response 409 (obj (field "existing_job_id" (ident job_id) end))

  abbrev pub document_not_parsed : Option ℕ → Response
  document_not_parsed job_id =
      detail_response 409 (obj (field "ingestion_job_id" (opt_json ident job_id) end))

  abbrev pub amendment_mismatch : ℕ → ℕ → Response
  amendment_mismatch base amended = detail_response 409 (
      str
        (codes "document " ++ show_id amended ++ codes " does not amend document " ++ show_id base))

  abbrev pub change_prerequisite_missing : ℕ → Prerequisite → Option ℕ → Response
  change_prerequisite_missing document_id kind job_id = detail_response 409 (
      obj (
        field "document_id" (ident document_id)
          (field "kind" (word (kind_text kind)) (field "job_id" (opt_json ident job_id) end))))

  -- The handler that is registered for an exception of the services, if there is one.
  unfoldable pub response_of : Error → Option Response
  response_of (Errors.mime_not_allowed content_type sniffed) =
      some (mime_not_allowed content_type sniffed)
  response_of (Errors.upload_too_large max_bytes) = some (upload_too_large max_bytes)
  response_of (Errors.document_already_exists id) = some (document_already_exists id)
  response_of (Errors.document_not_found id) =
      some (detail_response 404 (about "document " id " not found"))
  response_of (Errors.document_has_amendments id) =
      some (detail_response 409 (about "document " id " has amendments; delete them first"))
  response_of (Errors.ingestion_job_not_found id) =
      some (detail_response 404 (about "ingestion job " id " not found"))
  response_of (Errors.ingestion_job_conflict id) = some (job_conflict id)
  response_of (Errors.extraction_job_not_found id) =
      some (detail_response 404 (about "extraction job " id " not found"))
  response_of (Errors.extraction_job_conflict id) = some (job_conflict id)
  response_of (Errors.document_not_parsed job_id) = some (document_not_parsed job_id)
  response_of (Errors.change_report_job_not_found id) =
      some (detail_response 404 (about "change report job " id " not found"))
  response_of (Errors.amendment_mismatch base amended) = some (amendment_mismatch base amended)
  response_of (Errors.prerequisite_missing document_id kind job_id) =
      some (change_prerequisite_missing document_id kind job_id)
  response_of (Errors.review_item_not_found id) =
      some (detail_response 404 (about "review item " id " not found"))
  response_of (Errors.review_item_already_resolved id) =
      some (detail_response 409 (about "review item " id " is already resolved"))
  response_of Errors.integrity_error = none
  response_of Errors.os_error = none

  -- A response to a fault of the client.
  abbrev pub IsClientError : Option Response → Type 0
  IsClientError none = ⊥
  IsClientError (some r) = 400 ≤ r.status_code × r.status_code < 500

  -- Each exception of the services but the database's own and the file system's has a handler, and its
  -- response blames the client.
  pub response_of-IsClientError :
      (e : Error)
      → (e ≡ Errors.integrity_error) ⊎ (e ≡ Errors.os_error) ⊎ IsClientError (response_of e)
  unfolding response_of
  response_of-IsClientError (Errors.mime_not_allowed content_type sniffed) = inr (inr (omega arith))
  response_of-IsClientError (Errors.upload_too_large max_bytes) = inr (inr (omega arith))
  response_of-IsClientError (Errors.document_already_exists (some id)) = inr (inr (omega arith))
  response_of-IsClientError (Errors.document_already_exists none) = inr (inr (omega arith))
  response_of-IsClientError Errors.integrity_error = inl refl
  response_of-IsClientError Errors.os_error = inr (inl refl)
  response_of-IsClientError _ = inr (inr (omega arith))
