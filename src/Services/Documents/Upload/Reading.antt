-- ===== src/Services/Documents/Upload/Reading.antt =====
-- The loop of `_read_upload` against what it reads.
use contract_change_intel.Prelude.{
  ℕ, ◌+◌, ◌≤◌, Text, List, [], ◌∷◌, ◌++◌, ◌≡◌, refl, arith, ltb, length, if◌then◌else◌,
  length-append, inl, inr, Bool-cases,
}
use contract_change_intel.Store.Errors.{upload_too_large}
use contract_change_intel.Store.Exec.{ok, err}
use contract_change_intel.Services.Documents.Upload.{read_upload}

-- The bytes of a stream: its chunks up to the first empty one.
abbrev pub stream_bytes : List Text → Text
stream_bytes [] = []
stream_bytes ([] ∷ chunks) = []
stream_bytes ((b ∷ chunk) ∷ chunks) = (b ∷ chunk) ++ stream_bytes chunks

read_upload-from :
    (max_bytes total : ℕ) (stream : List Text)
    → total ≤ max_bytes
    → read_upload max_bytes total stream ≡ (
        if ltb max_bytes (total + length (stream_bytes stream))
        then err (upload_too_large max_bytes)
        else ok (stream_bytes stream))
unfolding read_upload
read_upload-from max_bytes total [] h = ground arith
read_upload-from max_bytes total ([] ∷ chunks) h = ground arith
read_upload-from max_bytes total ((b ∷ chunk) ∷ chunks) h =
    let whole = length-append (b ∷ chunk) (stream_bytes chunks) in
    elim (Bool-cases (ltb max_bytes (total + length (b ∷ chunk)))) [
      | inl e ↦ ground (arith, whole)
      | inr e ↦
          let ih = read_upload-from max_bytes (total + length (b ∷ chunk)) chunks (ground arith) in
          elim (Bool-cases
            (ltb max_bytes (total + length (b ∷ chunk) + length (stream_bytes chunks)))) [
              | inl f ↦ ground (arith, whole, ih)
              | inr f ↦ ground (arith, whole, ih)
            ]
    ]

-- Reading an upload in chunks accepts exactly the streams of at most `max_bytes` bytes, and returns
-- all their bytes in order; a longer one is refused as too large.
pub read_upload-exact :
    (max_bytes : ℕ) (stream : List Text)
    → read_upload max_bytes 0 stream ≡ (
        if ltb max_bytes (length (stream_bytes stream))
        then err (upload_too_large max_bytes)
        else ok (stream_bytes stream))
read_upload-exact max_bytes stream =
    let z : 0 + length (stream_bytes stream) ≡ length (stream_bytes stream) = omega arith in
    rw (read_upload-from max_bytes 0 stream (omega arith), z) refl
