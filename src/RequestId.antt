-- ===== src/RequestId.antt =====
-- `sanitize_request_id` of app/middleware.py; `fresh` is the UUID that is drawn for an empty id.
use contract_change_intel.Prelude.{
  ℕ, zero, suc, ◌≤◌, ◌<◌, Text, List, [], ◌∷◌, Bool, true, ◌&&◌, leb, ◌≡◌, refl, arith, All, select,
  select-passes, take, length, length-take,
}

-- `_MAX_REQUEST_ID_LEN`
abbrev pub max_request_id_len : ℕ
max_request_id_len = 64

abbrev pub is_printable : ℕ → Bool
is_printable ch = leb 0x21 ch && leb ch 0x7e

-- `cleaned or uuid.uuid4().hex`
abbrev pub or_fresh : Text → Text → Text
or_fresh fresh [] = fresh
or_fresh fresh (ch ∷ cleaned) = ch ∷ cleaned

unfoldable pub sanitize_request_id : Text → Text → Text
sanitize_request_id fresh raw = or_fresh fresh (take max_request_id_len (select is_printable raw))

abbrev pub IsPrintable : ℕ → Type 0
IsPrintable ch = is_printable ch ≡ true

-- An id that can be a header's value.
pub record IsHeaderSafe (id : Text) : Type 0 where
  pub printable : All IsPrintable id
  pub short : length id ≤ max_request_id_len
  pub nonempty : 0 < length id

take-All : {A : Type 0} → (P : A → Type 0) (n : ℕ) (xs : List A) → All P xs → All P (take n xs)
take-All P zero xs h = tt
take-All P (suc n) [] h = tt
take-All P (suc n) (x ∷ xs) h = (h.0, take-All P n xs h.1)

or_fresh-IsHeaderSafe :
    (fresh cleaned : Text)
    → IsHeaderSafe fresh
    → All IsPrintable cleaned
    → length cleaned ≤ max_request_id_len
    → IsHeaderSafe (or_fresh fresh cleaned)
or_fresh-IsHeaderSafe fresh [] f p h = f
or_fresh-IsHeaderSafe fresh (ch ∷ cleaned) f p h = record {
  printable = p;
  short = h;
  nonempty = omega arith;
}

-- When the drawn id is header-safe, so is the id of a request, whatever the client sent.
pub sanitize_request_id-IsHeaderSafe :
    (fresh raw : Text) → IsHeaderSafe fresh → IsHeaderSafe (sanitize_request_id fresh raw)
unfolding sanitize_request_id
sanitize_request_id-IsHeaderSafe fresh raw f =
    or_fresh-IsHeaderSafe fresh (take max_request_id_len (select is_printable raw)) f
      (take-All IsPrintable max_request_id_len _ (select-passes is_printable raw))
      (omega (arith, length-take max_request_id_len (select is_printable raw)))

select-all : (test : ℕ → Bool) (xs : Text) → All (λ x. test x ≡ true) xs → select test xs ≡ xs
select-all test [] h = refl
select-all test (x ∷ xs) h = rw (h.0, select-all test xs h.1) refl

take-all : {A : Type 0} → (n : ℕ) (xs : List A) → length xs ≤ n → take n xs ≡ xs
take-all zero [] h = refl
take-all zero (x ∷ xs) h = ground arith
take-all (suc n) [] h = refl
take-all (suc n) (x ∷ xs) h = rw (take-all n xs (omega (arith, h))) refl

or_fresh-keeps : (fresh cleaned : Text) → 0 < length cleaned → or_fresh fresh cleaned ≡ cleaned
or_fresh-keeps fresh [] h = ground arith
or_fresh-keeps fresh (ch ∷ cleaned) h = refl

-- An id that is header-safe is kept as the client sent it.
pub sanitize_request_id_keeps :
    (fresh raw : Text) → IsHeaderSafe raw → sanitize_request_id fresh raw ≡ raw
unfolding sanitize_request_id
sanitize_request_id_keeps fresh raw h =
    let cleaned = select-all is_printable raw h.printable in
    let capped = take-all max_request_id_len raw h.short in
    rw (cleaned, capped) (or_fresh-keeps fresh raw h.nonempty)
