-- ===== src/Service.antt =====
-- The CloudWatch Logs service as the workers see it: the inputs and the outputs of its three
-- actions, where a nil pointer is none (cloudwatchlogs_actions.go, and the types of the AWS SDK
-- that starter.go, poller.go and stopper.go read).
use incite.Base.{ℕ, Bool, Option, List, Text}
use incite.Base.Int.{ℤ}
use incite.Errors.{GoError}

-- What a call returns: an output, or an error.
pub data Reply (A : Type 0) : Type 0 where
  output : A → Reply A
  failure : GoError → Reply A

pub record StartQueryInput : Type 0 where
  pub query_string : Text
  pub start_time : ℤ
  pub end_time : ℤ
  pub log_group_names : List Text
  pub limit : ℤ

-- The query ID of a StartQueryOutput.
abbrev pub StartQueryOutput : Type 0
StartQueryOutput = Option Text

-- The Success field of a StopQueryOutput.
abbrev pub StopQueryOutput : Type 0
StopQueryOutput = Option Bool

-- The status strings of the SDK that the poller tells apart, or another text.
pub data QueryStatus : Type 0 where
  scheduled unknown running complete failed : QueryStatus
  other_status : Text → QueryStatus

pub record ServiceField : Type 0 where
  pub field : Option Text
  pub value : Option Text

pub record QueryStatistics : Type 0 where
  pub bytes_scanned : Option ℕ
  pub records_matched : Option ℕ
  pub records_scanned : Option ℕ

pub record GetQueryResultsOutput : Type 0 where
  pub status : Option QueryStatus
  pub statistics : Option QueryStatistics
  pub results : List (List (Option ServiceField))
