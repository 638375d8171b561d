-- ===== src/Errors.antt =====
-- The errors of the library and their classes (errors.go).
use incite.Base.{
  ℕ, ◌≡◌, refl, Bool, true, false, ◌||◌, Option, none, some, List, [], ◌∷◌, arith, ◌==◌,
  if◌then◌else◌, Text, codes, text_eq, contains, to_lower,
}
use incite.Clock.{Time}
pub mod Retry

-- A syscall.Errno. The numbers of the two that are told apart depend on the platform.
pub data Errno : Type 0 where
  econnrefused econnreset : Errno
  other_errno : ℕ → Errno

-- What errors.Is and errors.As find in one error of an Unwrap chain: whether it is io.EOF, the
-- answer of its Timeout method if it has one, and whether it is a syscall.Errno.
pub record Layer : Type 0 where
  pub is_eof : Bool
  pub timeout : Option Bool
  pub errno : Option Errno

-- The code of an AWS error: the constants ErrCodeLimitExceededException and
-- ErrCodeServiceUnavailableException of the SDK, or another text.
pub data ErrorCode : Type 0 where
  limit_exceeded_exception service_unavailable_exception : ErrorCode
  other_code : Text → ErrorCode

-- An error from the AWS SDK or below it. An awserr.Error shows its code, message, original error,
-- and the HTTP status if it is an awserr.RequestFailure; any other shows its Unwrap chain.
pub data GoError : Type 0 where
  nil_error : GoError
  aws : Option ℕ → ErrorCode → Text → GoError → GoError
  chain : List Layer → GoError

pub data ErrorClass : Type 0 where
  permanent_class throttling_class limit_exceeded_class temporary_class : ErrorClass

abbrev pub throttl : Text
throttl = codes "throttl"

abbrev pub rate_exceeded : Text
rate_exceeded = codes "rate exceeded"

-- errors.Is(err, io.EOF).
unfoldable pub is_eof : List Layer → Bool
is_eof [] = false
is_eof (l ∷ ls) = l.is_eof || is_eof ls

-- errors.As(err, &maybeTimeout) && maybeTimeout.Timeout(): the first that has the method answers.
abbrev or_timeout : Option Bool → Bool → Bool
or_timeout (some b) rest = b
or_timeout none rest = rest

unfoldable pub is_timeout : List Layer → Bool
is_timeout [] = false
is_timeout (l ∷ ls) = or_timeout l.timeout (is_timeout ls)

-- errors.As(err, &errno).
abbrev or_errno : Option Errno → Option Errno → Option Errno
or_errno (some e) rest = some e
or_errno none rest = rest

unfoldable pub first_errno : List Layer → Option Errno
first_errno [] = none
first_errno (l ∷ ls) = or_errno l.errno (first_errno ls)

unfoldable pub classify_errno : Option Errno → ErrorClass
classify_errno (some econnrefused) = temporary_class
classify_errno (some econnreset) = temporary_class
classify_errno (some (other_errno n)) = permanent_class
classify_errno none = permanent_class

unfoldable pub classify_chain : List Layer → ErrorClass
unfolding is_eof is_timeout first_errno classify_errno
classify_chain ls =
    if is_eof ls
    then temporary_class
    else if is_timeout ls
    then temporary_class
    else classify_errno (first_errno ls)

-- The short circuit on the HTTP status code.
unfoldable pub classify_status : Option ℕ → Option ErrorClass
classify_status none = none
classify_status (some status) =
    if status == 429
    then some throttling_class
    else if status == 502 || status == 503 || status == 504
    then some temporary_class
    else none

-- The codes and wordings of an AWS error.
unfoldable pub classify_code : ErrorCode → Text → Option ErrorClass
classify_code limit_exceeded_exception message = some limit_exceeded_class
classify_code service_unavailable_exception message = some temporary_class
classify_code (other_code code) message =
    if contains (to_lower code) throttl || contains (to_lower message) rate_exceeded
    then some throttling_class
    else none

abbrev pub or_class : Option ErrorClass → ErrorClass → ErrorClass
or_class (some k) rest = k
or_class none rest = rest

unfoldable pub classify_error : GoError → ErrorClass
unfolding classify_status classify_code classify_chain
classify_error nil_error = classify_chain []
classify_error (aws status code message orig) =
    or_class (classify_status status) (or_class (classify_code code message) (classify_error orig))
classify_error (chain ls) = classify_chain ls

-- The cause of an error of the library.
pub data Cause : Type 0 where
  service : GoError → Cause
  missing_query_id nil_status no_key : Cause
  nil_result_field : ℕ → Cause
  no_value : Text → Cause

-- The messages of the errors that Query returns.
pub data Message : Type 0 where
  text_blank start_sub_millisecond end_sub_millisecond end_not_after_start no_groups : Message
  exceeded_max_limit chunk_sub_millisecond split_until_sub_millisecond : Message
  split_until_with_preview split_until_without_max_limit : Message

-- The errors that the library makes, and io.EOF.
pub data Error : Type 0 where
  eof closed closing reduce_parallel stop_chunk restart_chunk split_chunk : Error
  start_query : Text → Time → Time → Cause → Error
  terminal_status : Text → Text → Text → Error
  unexpected_query : Text → Text → Cause → Error
  message : Message → Error

-- A value and a nil error, or an error.
pub data Result {ℓ} (V : Type ℓ) : Type ℓ where
  err : Error → Result V
  ok : V → Result V

-- `if err != nil { return nil, err }` before what comes next.
infixl 5 ◌>>=◌
abbrev pub ◌>>=◌ {ℓ κ} : {V : Type ℓ} {W : Type κ} → Result V → (V → Result W) → Result W
err failed >>= next = err failed
ok v >>= next = next v

infixl 5 ◌>>◌
abbrev pub ◌>>◌ {ℓ} : {W : Type ℓ} → Result (Unit {0}) → Result W → Result W
check >> next = check >>= (λ passed. next)
