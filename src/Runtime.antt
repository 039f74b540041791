-- ===== src/Runtime.antt =====
-- The Node.js runtime that dist/index.js of the action runs on: the state that the code reads and
-- writes, the calls that leave the program as a parameter, and thrown errors as values.
pub mod Laws
pub mod Quiet
pub mod Settle
pub mod Obey
pub mod Frame
pub mod Sample
use coherence_operator.Prelude.{
  ℕ, zero, suc, ◌+◌, ◌/◌, ◌%◌, ◌==◌, ◌≡◌, refl, List, ◌∷◌, [], ◌++◌, Option, none, some, Bool, Text,
  codes, text_eq, is_empty, if◌then◌else◌,
}

-- What the program does to its surroundings.
pub data Event : Type 0 where
  wrote wrote_to_stderr : Text → Event
  requested : Text → Event
  slept : ℕ → Event
  made_dir : Text → Event
  removed : Text → Event
  spawned : Text → List Text → Option Text → Event

-- `process.env`, the contents of the files, `process.exitCode`, and the events with the last first.
pub record World : Type 0 where
  pub env : Text → Option Text
  pub files : Text → Option Text
  pub exit_code : Option ℕ
  pub trace : List Event

-- A thrown value: an `Error` with its name and message, an `HTTPError` with its status, or a value
-- that is no `Error`.
pub data Thrown : Type 0 where
  error : Text → Text → Thrown
  http_error : ℕ → Thrown
  not_an_error : Thrown

-- What becomes of a promise: it is resolved, rejected, or never settled.
pub data Result (A : Type 0) : Type 0 where
  ok : A → Result A
  throws : Thrown → Result A
  pending : Result A

-- A computation on a state.
abbrev pub Run : Type 0 → Type 0 → Type 0
Run S A = S → Result A × S

abbrev pub M : Type 0 → Type 0
M A = Run World A

infixl 5 ◌>>=◌ ◌>>◌
abbrev pub ◌>>=◌ : {S A B : Type 0} → Run S A → (A → Run S B) → Run S B
◌>>=◌ m f w =
    let (r, w') = m w in
    elim r [ ok a ↦ f a w' | throws e ↦ (throws e, w') | pending ↦ (pending, w') ]

abbrev pub ◌>>◌ : {S B : Type 0} → Run S (Unit {0}) → Run S B → Run S B
m >> k = m >>= λ _. k

abbrev pub pure : {S A : Type 0} → A → Run S A
pure a w = (ok a, w)

abbrev pub throw : {S A : Type 0} → Thrown → Run S A
throw e w = (throws e, w)

-- `if (b) throw e;`.
abbrev pub throw_if : {S : Type 0} → Bool → Thrown → Run S (Unit {0})
throw_if b e = if b then throw e else pure tt

-- `try { m } catch (err) { handle(err) }`.
abbrev pub catch : {S A : Type 0} → Run S A → (Thrown → Run S A) → Run S A
catch m handle w =
    let (r, w') = m w in
    elim r [ ok a ↦ (ok a, w') | throws e ↦ handle e w' | pending ↦ (pending, w') ]

abbrev pub perform : Event → M (Unit {0})
perform e w = (ok tt, record w { trace = e ∷ w.trace })

abbrev pub get_env : Text → M (Option Text)
get_env key w = (ok (w.env key), w)

abbrev pub update : (Text → Option Text) → Text → Option Text → Text → Option Text
update f key v k = if text_eq k key then v else f k

abbrev pub set_env : Text → Text → M (Unit {0})
set_env key v w = (ok tt, record w { env = update w.env key (some v) })

-- `console.log`.
unfoldable pub log : Text → M (Unit {0})
log message = perform (wrote (message ++ codes "\n"))

-- `new Error(message)`, `new TypeError(message)` and the `AssertionError` of `assert.ok`.
abbrev pub plain_error : Text → Thrown
plain_error message = error (codes "Error") message

abbrev pub type_error : Text → Thrown
type_error message = error (codes "TypeError") message

abbrev pub assertion_error : Text → Thrown
assertion_error message = error (codes "AssertionError [ERR_ASSERTION]") message

-- `value || ""`.
abbrev pub or_empty : Option Text → Text
or_empty none = []
or_empty (some s) = s

-- The body of an answer: it arrives whole, or breaks off behind a part of it.
pub data Body : Type 0 where
  complete : Text → Body
  broken : Text → Thrown → Body

-- What comes of a GET request: an error, a status with its message and a body, or nothing for ever.
pub data Reply : Type 0 where
  failed : Thrown → Reply
  answered : ℕ → Text → Body → Reply
  no_reply : Reply

-- What `fs.promises.stat` finds.
pub record Stats : Type 0 where
  pub is_file : Bool
  pub mode : ℕ
  pub uid : ℕ
  pub gid : ℕ

-- `missing` is the error ENOENT.
pub data StatResult : Type 0 where
  found : Stats → StatResult
  missing : StatResult
  unreadable : Thrown → StatResult

-- What a child process sends, in the order in which it reaches the parent, with the end of the timer
-- that `ExecState` sets. The code is null (none) after a signal.
pub data ChildEvent : Type 0 where
  stdout stderr : Text → ChildEvent
  failed_to_start : Text → ChildEvent
  exited closed : Option ℕ → ChildEvent
  timed_out : ChildEvent

-- A run of a child process: its events, and the files that it leaves behind.
pub record ChildRun : Type 0 where
  pub events : List ChildEvent
  pub files : Text → Option Text

-- Node.js and the machine. A call that may answer differently each time reads the whole state,
-- whose trace grows with every event.
pub record Host : Type 0 where
  pub platform : Text
  pub arch : Text
  pub eol : Text
  pub delimiter : ℕ
  pub sep : ℕ
  pub to_lower : Text → Text
  pub to_upper : Text → Text
  pub join : Text → Text → Text
  pub dirname : Text → Text
  pub basename : Text → Text
  pub extname : Text → Text
  pub resolve : Text → Text → Text → Text
  pub cwd : Text
  pub sha256 : Text → Text
  pub uuid : World → Text
  pub random_below : World → ℕ → ℕ
  pub getuid : Option ℕ
  pub getgid : Option ℕ
  pub read_error : Text → Thrown
  pub http_get : World → Text → Reply
  pub mkdir : World → Text → Option Thrown
  pub rm : World → Text → Option Thrown
  pub stat : World → Text → StatResult
  pub readdir : World → Text → Option (List Text)
  pub spawn : World → Text → List Text → Option Text → ChildRun

-- The decimal print of a number. A round divides by ten, so `n + 1` rounds are enough.
unfoldable pub decimal_from : ℕ → ℕ → Text → Text
decimal_from zero n out = out
decimal_from (suc fuel) n out =
    let rest = decimal_from fuel (n / 10) ((48 + n % 10) ∷ out) in
    if n / 10 == 0 then (48 + n % 10) ∷ out else rest

unfoldable pub decimal : ℕ → Text
unfolding decimal_from
decimal n = decimal_from (n + 1) n []

decimal_404 : decimal 404 ≡ codes "404"
unfolding decimal
decimal_404 = refl

-- `String(err)` and `err.message`.
unfoldable pub http_message : ℕ → Text
http_message status = codes "Unexpected HTTP response: " ++ decimal status

unfoldable pub to_string : Thrown → Text
to_string (error name message) =
    if is_empty name
    then message
    else if is_empty message
    then name
    else name ++ codes ": " ++ message
to_string (http_error status) = codes "Error: " ++ http_message status
to_string not_an_error = codes "undefined"

unfoldable pub message_of : Thrown → Text
message_of (error name message) = message
message_of (http_error status) = http_message status
message_of not_an_error = codes "undefined"
