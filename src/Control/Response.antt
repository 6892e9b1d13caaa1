-- ===== src/Control/Response.antt =====
-- `ControlResponse` and `parse_control_response` of src/tor/control_connection.rs: one line of a
-- reply. The two regular expressions are written out as functions on the line. `decimal_digit` is
-- the class `\d` of the package `regex`, which holds digits of other scripts too.
use trithemius_p2p.Base.{
  ℕ, Text, codes, Option, none, some, Bool, true, false, ◌||◌, ◌&&◌, List, [], ◌∷◌, ◌++◌, eqb, leb,
  split_once, Outcome, ok, err, panic, ◌>>=◌, if◌then◌else◌,
}
use trithemius_p2p.Base.Decimal.{parse_u16}
use trithemius_p2p.Control.Error.{TorError, protocol_error}

pub data ControlResponseType : Type 0 where
  sync_response : ControlResponseType
  async_response : Text → ControlResponseType

pub record ControlResponse : Type 0 where
  pub code : ℕ
  pub indicator : ℕ
  pub response_type : ControlResponseType
  pub response : List Text

-- The captures of either expression; `keyword` is there for the first alone.
pub record Captures : Type 0 where
  pub code : Text
  pub type : ℕ
  pub keyword : Option Text
  pub response : Text

-- `(?P<response>.*)\r?\n?$`: all that is left, less one newline at the end. A newline before that
-- is no match. The greedy `.*` takes a `\r`.
abbrev pub rest_of_line : Text → Option Text
rest_of_line [] = some []
rest_of_line (c ∷ []) = if eqb c b'\n' then some [] else some (c ∷ [])
rest_of_line (c ∷ d ∷ s) = elim (eqb c b'\n') [
  | true ↦ none
  | false ↦ elim (rest_of_line (d ∷ s)) [ none ↦ none | some r ↦ some (c ∷ r) ]
]

-- `[\- +]`
abbrev pub is_type : ℕ → Bool
is_type c = eqb c b'-' || eqb c b' ' || eqb c b'+'

abbrev pub with_keyword : Text → ℕ → Option (Text × Text) → Option Captures
with_keyword code type none = none
with_keyword code type (some (keyword, rest)) = elim (rest_of_line rest) [
  | none ↦ none
  | some response ↦
      some (record { code = code; type = type; keyword = some keyword; response = response })
]

abbrev pub without_keyword : Text → ℕ → Option Text → Option Captures
without_keyword code type none = none
without_keyword code type (some response) =
    some (record { code = code; type = type; keyword = none; response = response })

module _ (decimal_digit : ℕ → Bool) where
  -- `^(?P<code>6\d{2})(?P<type>[\- +])(?P<keyword>[^ ]*) (?P<response>.*)\r?\n?$`
  unfoldable pub async_regex : Text → Option Captures
  async_regex (a ∷ b ∷ c ∷ t ∷ s) =
      if eqb a b'6' && (decimal_digit b && (decimal_digit c && is_type t))
      then with_keyword (a ∷ b ∷ c ∷ []) t (split_once b' ' s)
      else none
  async_regex s = none

  -- `^(?P<code>\d{3})(?P<type>[\- +])(?P<response>.*)\r?\n?$`
  unfoldable pub sync_regex : Text → Option Captures
  sync_regex (a ∷ b ∷ c ∷ t ∷ s) =
      if decimal_digit a && (decimal_digit b && (decimal_digit c && is_type t))
      then without_keyword (a ∷ b ∷ c ∷ []) t (rest_of_line s)
      else none
  sync_regex s = none

module _ {Io Socks : Type 0} where
  -- `captures["keyword"]` panics where the expression has no such group.
  abbrev pub keyword_type : ℕ → Option Text → Outcome (TorError Io Socks) ControlResponseType
  keyword_type code keyword = elim (leb 600 code) [
    | true ↦ elim keyword [ none ↦ panic | some k ↦ ok (async_response k) ]
    | false ↦ ok sync_response
  ]

  -- `From<Captures>`: the `unwrap` of the code panics on digits that are not ASCII.
  unfoldable pub from_captures : Captures → Outcome (TorError Io Socks) ControlResponse
  from_captures captures = elim (parse_u16 captures.code) [
    | none ↦ panic
    | some code ↦ keyword_type code captures.keyword >>= λ response_type. ok (record {
      code = code;
      indicator = captures.type;
      response_type = response_type;
      response = captures.response ∷ [];
    })
  ]

  module _ (decimal_digit : ℕ → Bool) where
    abbrev pub sync_line : Text → Option Captures → Outcome (TorError Io Socks) ControlResponse
    sync_line line (some captures) = from_captures captures
    sync_line line none = err (protocol_error (codes "Unknown response: " ++ line))

    abbrev pub async_line : Text → Option Captures → Outcome (TorError Io Socks) ControlResponse
    async_line line (some captures) = from_captures captures
    async_line line none = sync_line line (sync_regex decimal_digit line)

    -- `parse_control_response` on a line that was read.
    unfoldable pub parse_line : Text → Outcome (TorError Io Socks) ControlResponse
    unfolding from_captures async_regex sync_regex
    parse_line line = async_line line (async_regex decimal_digit line)
