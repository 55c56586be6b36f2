-- ===== src/Fetcher/Fetch.antt =====
-- One request with its retries: FetchAssetPage, GetAssetCount and what they call, of
-- internal/fetcher/fetcher.go. What the site answers to each attempt is an argument, and so are
-- the decoders of JSON and HTML and the random jitter.
pub mod Retried
pub mod Waits
use itchgrep.Base.{
  ℕ, zero, suc, ◌+◌, ◌-◌, ◌*◌, ◌%◌, ◌^◌, Bool, true, false, not, Option, none, some, List, [], ◌∷◌,
  ltb, leb, ◌==◌, select, if◌then◌else◌,
}
use itchgrep.Base.Int.{ℤ, pos, negsuc, wrap64, ltb_ℤ, leb_ℤ}
use itchgrep.Base.Text.{Text, text_eq}
use itchgrep.Base.Text.Number.{is_digit, parse_int}
use itchgrep.Base.Text.Space.{trim_space}
use itchgrep.Fetcher.Pace.{second}

abbrev pub max_fetch_attempts : ℕ
max_fetch_attempts = 21

abbrev pub max_backoff : ℤ
max_backoff = pos (60 * second)

abbrev pub max_retry_after : ℤ
max_retry_after = pos (120 * second)

-- time.Duration(secs) * time.Second, which wraps as an int64.
unfoldable pub seconds_of : ℤ → ℤ
unfolding wrap64
seconds_of (pos n) = wrap64 (n * second)
seconds_of (negsuc n) = wrap64 (2 ^ 64 - (n + 1) * second % 2 ^ 64)

-- A wait that is positive, and not over the maximum.
unfoldable pub clamp_wait : ℤ → Option ℤ
clamp_wait d =
    if leb_ℤ d (pos 0) then none else some (if ltb_ℤ max_retry_after d then max_retry_after else d)

-- A header read as seconds, or else as a date.
unfoldable pub retry_wait : Option ℤ → Option ℤ → Option ℤ
unfolding clamp_wait seconds_of
retry_wait (some secs) dated = clamp_wait (seconds_of secs)
retry_wait none none = none
retry_wait none (some d) = clamp_wait d

-- `until` is http.ParseTime followed by time.Until. strconv.Atoi is ParseInt on a 64-bit platform.
unfoldable pub parse_retry_after : (Text → Option ℤ) → Text → Option ℤ
parse_retry_after until value =
    if text_eq value [] then none else retry_wait (parse_int (trim_space value)) (until value)

-- `delayed` is the delay of an attempt with its jitter, a computation in floats, as a Duration.
unfoldable pub calculate_backoff : (ℕ → ℤ) → ℕ → ℤ
calculate_backoff delayed attempt =
    let result = delayed attempt in if ltb_ℤ max_backoff result then max_backoff else result

-- What came of one doGet.
pub record Response (B : Type 0) : Type 0 where
  pub status : ℕ
  pub retry_after : Text
  pub body : B

pub data Sent (B : Type 0) : Type 0 where
  broken : Sent B
  answered : Response B → Sent B

-- What a worker does in the course of a fetch, and for how long. An acquire waits in the shared
-- limiter, as long as that holds the worker there (Fetcher/Pace). A pause of all workers stands for
-- the count of the refusal and the call of the limiter.
pub data Act : Type 0 where
  acquire : Act
  request : Act
  sleep : ℤ → Act
  pause_all : ℤ → Act

pub data FetchOutcome (A : Type 0) : Type 0 where
  fetched : A → FetchOutcome A
  exhausted : FetchOutcome A
  failed : FetchOutcome A

-- The two environments of a loop over the attempts: the header's dates, and the delays.
pub record Delays : Type 0 where
  pub until : Text → Option ℤ
  pub delayed : ℕ → ℤ

-- The wait that a 429 asks for.
unfoldable pub refusal_wait : Delays → Text → ℕ → ℤ
refusal_wait w header attempt = elim (parse_retry_after w.until header) [
  | none ↦ calculate_backoff w.delayed attempt
  | some d ↦ d
]

-- No sleep behind the last attempt.
unfoldable pub nap : Delays → ℕ → List Act → List Act
nap w attempt rest =
    if ltb attempt (max_fetch_attempts - 1)
    then sleep (calculate_backoff w.delayed attempt) ∷ rest
    else rest

module _ {B A : Type 0} (w : Delays) (decode : B → Option A) where
  -- The body of the loop of FetchAssetPage; `rest` is what the later attempts come to.
  unfoldable pub on_answer : Sent B → ℕ → FetchOutcome A × List Act → FetchOutcome A × List Act
  on_answer broken attempt rest = (rest.0, acquire ∷ request ∷ nap w attempt rest.1)
  on_answer (answered r) attempt rest =
      if r.status == 429
      then (rest.0, acquire ∷ request ∷ pause_all (refusal_wait w r.retry_after attempt) ∷ rest.1)
      else if r.status == 404
      then (exhausted, acquire ∷ request ∷ [])
      else if not (r.status == 200)
      then (failed, acquire ∷ request ∷ [])
      else elim (decode r.body) [
        | none ↦ (failed, acquire ∷ request ∷ [])
        | some page ↦ (fetched page, acquire ∷ request ∷ [])
      ]

module _ {B A : Type 0} (w : Delays) (decode : B → Option A) (site : ℕ → Sent B) where
  -- The loop, with the attempts that are left: how it ends, and what it does until then.
  unfoldable pub fetch_from : ℕ → ℕ → FetchOutcome A × List Act
  fetch_from zero attempt = (failed, [])
  fetch_from (suc left) attempt =
      on_answer w decode (site attempt) attempt (fetch_from left (attempt + 1))

  unfoldable pub fetch_asset_page : FetchOutcome A × List Act
  fetch_asset_page = fetch_from max_fetch_attempts 0

-- "(53,665 results)": the first run of digits and commas, as FindString gives it, without its commas.
unfoldable pub digit_run : Text → Text
digit_run [] = []
digit_run (c ∷ s) =
    let rest = digit_run s in if is_digit c then c ∷ rest else if c == b',' then c ∷ rest else []

unfoldable pub first_run : Text → Text
unfolding digit_run
first_run [] = []
first_run (c ∷ s) =
    let later = first_run s in
    if is_digit c then digit_run (c ∷ s) else if c == b',' then digit_run (c ∷ s) else later

unfoldable pub asset_count : Text → Option ℤ
unfolding first_run parse_int
asset_count count_text = parse_int (select (λ c. not (c == b',')) (first_run count_text))

-- The body of the loop of GetAssetCount: the body of an answer is the text of the count, or `none`
-- where the HTML is not read. `failed` is an error.
unfoldable pub on_count :
    Delays → Sent (Option Text) → ℕ → FetchOutcome ℤ × List Act → FetchOutcome ℤ × List Act
on_count w broken attempt rest = (rest.0, acquire ∷ request ∷ nap w attempt rest.1)
on_count w (answered r) attempt rest =
    if r.status == 200
    then elim r.body [
      | none ↦ (failed, acquire ∷ request ∷ [])
      | some count_text ↦ elim (asset_count count_text) [
        | none ↦ (failed, acquire ∷ request ∷ [])
        | some n ↦ (fetched n, acquire ∷ request ∷ [])
      ]
    ]
    else if r.status == 429
    then (rest.0, acquire ∷ request ∷ pause_all (refusal_wait w r.retry_after attempt) ∷ rest.1)
    else (failed, acquire ∷ request ∷ [])

module _ (w : Delays) (site : ℕ → Sent (Option Text)) where
  unfoldable pub count_from : ℕ → ℕ → FetchOutcome ℤ × List Act
  count_from zero attempt = (failed, [])
  count_from (suc left) attempt = on_count w (site attempt) attempt (count_from left (attempt + 1))

  unfoldable pub get_asset_count : FetchOutcome ℤ × List Act
  get_asset_count = count_from max_fetch_attempts 0
