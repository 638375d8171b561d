-- ===== src/Errors/Retry.antt =====
-- Which errors classifyError takes for retryable (errors.go).
use incite.Base.{
  Bool-cases, Option-cases, ℕ, ◌≡◌, ◌≢◌, refl, ◌⊎◌, inl, inr, ◌↔◌, true, Option, none, some, List,
  arith, Text, contains, to_lower,
}
use incite.Errors.{
  GoError, nil_error, aws, chain, Layer, Errno, econnrefused, econnreset, other_errno, ErrorClass,
  permanent_class, is_eof, is_timeout, first_errno, classify_errno, classify_chain, classify_status,
  classify_code, classify_error, ErrorCode, limit_exceeded_exception, service_unavailable_exception,
  other_code, throttl, rate_exceeded,
}

-- What makes an error retryable, at any depth of original errors.
pub data Retryable : GoError → Type 0 where
  by_status :
      {code : ErrorCode} {msg : Text} {orig : GoError} (status : ℕ)
      → (status ≡ 429) ⊎ (status ≡ 502) ⊎ (status ≡ 503) ⊎ (status ≡ 504)
      → Retryable (aws (some status) code msg orig)
  by_code :
      {status : Option ℕ} {code : ErrorCode} {msg : Text} {orig : GoError}
      → (code ≡ limit_exceeded_exception) ⊎ (code ≡ service_unavailable_exception)
      → Retryable (aws status code msg orig)
  by_wording :
      {status : Option ℕ} {code msg : Text} {orig : GoError}
      → (contains (to_lower code) throttl ≡ true) ⊎ (contains (to_lower msg) rate_exceeded ≡ true)
      → Retryable (aws status (other_code code) msg orig)
  by_cause :
      {status : Option ℕ} {code : ErrorCode} {msg : Text} {orig : GoError}
      → Retryable orig
      → Retryable (aws status code msg orig)
  by_end : {ls : List Layer} → is_eof ls ≡ true → Retryable (chain ls)
  by_timeout : {ls : List Layer} → is_timeout ls ≡ true → Retryable (chain ls)
  by_connection :
      {ls : List Layer}
      → (first_errno ls ≡ some econnrefused) ⊎ (first_errno ls ≡ some econnreset)
      → Retryable (chain ls)

classify_errno-cases :
    (e : Option Errno)
    → classify_errno e ≢ permanent_class
    → (e ≡ some econnrefused) ⊎ (e ≡ some econnreset)
unfolding classify_errno
classify_errno-cases none h = absurd (h refl)
classify_errno-cases (some econnrefused) h = inl refl
classify_errno-cases (some econnreset) h = inr refl
classify_errno-cases (some (other_errno n)) h = absurd (h refl)

classify_chain-Retryable :
    (ls : List Layer) → classify_chain ls ≢ permanent_class → Retryable (chain ls)
unfolding classify_chain
classify_chain-Retryable ls h = elim (Bool-cases (is_eof ls)) [
  | inl end ↦ by_end end
  | inr more ↦ elim (Bool-cases (is_timeout ls)) [
    | inl late ↦ by_timeout late
    | inr other ↦
        by_connection (classify_errno-cases (first_errno ls) (λ p. h (rw (more, other) p)))
  ]
]

classify_status-Retryable :
    (status : Option ℕ) (code : ErrorCode) (msg : Text) (orig : GoError) (k : ErrorClass)
    → classify_status status ≡ some k
    → Retryable (aws status code msg orig)
unfolding classify_status
classify_status-Retryable none code msg orig k h = cc
classify_status-Retryable (some n) code msg orig k h = by_status n (ground arith)

classify_code-Retryable :
    (status : Option ℕ) (code : ErrorCode) (msg : Text) (orig : GoError) (k : ErrorClass)
    → classify_code code msg ≡ some k
    → Retryable (aws status code msg orig)
unfolding classify_code
classify_code-Retryable status limit_exceeded_exception msg orig k h = by_code (inl refl)
classify_code-Retryable status service_unavailable_exception msg orig k h = by_code (inr refl)
classify_code-Retryable status (other_code code) msg orig k h = by_wording (ground arith)

classify_error-Retryable : (e : GoError) → classify_error e ≢ permanent_class → Retryable e
unfolding classify_error
classify_error-Retryable nil_error h =
    absurd (h (unfold classify_chain is_eof is_timeout first_errno classify_errno in refl))
classify_error-Retryable (chain ls) h = classify_chain-Retryable ls h
classify_error-Retryable (aws status code msg orig) h =
    elim (Option-cases (classify_status status)) [
      | inr (k, p) ↦ classify_status-Retryable status code msg orig k p
      | inl p ↦ elim (Option-cases (classify_code code msg)) [
        | inr (k, q) ↦ classify_code-Retryable status code msg orig k q
        | inl q ↦ by_cause (classify_error-Retryable orig (λ r. h (rw (p, q) r)))
      ]
    ]

Retryable-classify_error : {e : GoError} → Retryable e → classify_error e ≢ permanent_class
unfolding classify_error classify_status classify_code classify_chain classify_errno
Retryable-classify_error (by_status status p) = ground arith
Retryable-classify_error (by_code p) = ground arith
Retryable-classify_error (by_wording p) = ground arith
Retryable-classify_error (by_cause r) = ground (arith, Retryable-classify_error r)
Retryable-classify_error (by_end p) = ground arith
Retryable-classify_error (by_timeout p) = ground arith
Retryable-classify_error (by_connection p) = ground arith

-- An error is classified as anything but permanent exactly when it, or one of the original errors
-- below it, is marked as retryable: by an HTTP status of throttling or of a failing gateway, by
-- an exceeded limit or an unavailable service, by the wording of throttling, or, at the bottom,
-- by an end of file, a timeout, or a refused or reset connection.
pub classify_error_lem : (e : GoError) → (classify_error e ≢ permanent_class) ↔ Retryable e
classify_error_lem e = (classify_error-Retryable e, Retryable-classify_error)
