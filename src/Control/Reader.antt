-- ===== src/Control/Reader.antt =====
-- `read_line`, `parse_control_response` and `read_control_response` of
-- src/tor/control_connection.rs. A reader is what the line codec still has to give: lines and
-- errors, and then the end of the stream. Each operation returns the reader that is left.
use trithemius_p2p.Base.{
  stuck, ℕ, Text, codes, text_eq, ◌==◌, Bool, true, false, List, [], ◌∷◌, ◌++◌, eqb, join, Outcome,
  ok, err, panic, ◌>>=◌, if◌then◌else◌,
}
use trithemius_p2p.Base.Decimal.{show_ℕ}
use trithemius_p2p.Control.Error.{
  TorError, protocol_error, LinesCodecError, ErrorTexts, from_lines_codec,
}
use trithemius_p2p.Control.Response.{ControlResponse, parse_line}

pub data Item (Io : Type 0) : Type 0 where
  line : Text → Item Io
  fault : LinesCodecError Io → Item Io

abbrev pub Reader : Type 0 → Type 0
Reader Io = List (Item Io)

-- `response[0]`
abbrev pub first_of_response : {E : Type 0} → List Text → Outcome E Text
first_of_response [] = panic
first_of_response (r ∷ rs) = ok r

module _ {Io Socks : Type 0} (T : ErrorTexts Io Socks) (decimal_digit : ℕ → Bool) where
  abbrev pub Reads : Type 0 → Type 0
  Reads A = Reader Io × Outcome (TorError Io Socks) A

  abbrev pub end_of_stream : TorError Io Socks
  end_of_stream = protocol_error (codes "Unexpected EOF on stream")

  unfoldable pub read_line : Reader Io → Reads Text
  unfolding from_lines_codec
  read_line [] = ([], err end_of_stream)
  read_line (line l ∷ r) = (r, ok l)
  read_line (fault e ∷ r) = (r, err (from_lines_codec T e))

  unfoldable pub parse_control_response : Reader Io → Reads ControlResponse
  unfolding read_line parse_line
  parse_control_response reader =
      let (r, l) = read_line reader in (r, l >>= λ text. parse_line decimal_digit text)

  abbrev pub unexpected_code : ControlResponse → TorError Io Socks
  unexpected_code c =
      protocol_error (codes "Unexpected code " ++ (show_ℕ c.code ++ codes " during mid response"))

  -- The loop of a reply of several lines, from the lines so far.
  unfoldable pub mid_loop : Reader Io → List Text → Reads (List Text)
  unfolding from_lines_codec
  mid_loop [] aggregated = ([], err end_of_stream)
  mid_loop (fault e ∷ r) aggregated = (r, err (from_lines_codec T e))
  mid_loop (line l ∷ r) aggregated = elim (parse_line decimal_digit l) [
    | panic ↦ (r, panic)
    | stuck ↦ (r, stuck)
    | err e ↦ (r, err e)
    | ok c ↦ elim (eqb c.indicator b' ') [
      | true ↦ (r, if eqb c.code 250 then ok aggregated else err (unexpected_code c))
      | false ↦ elim (eqb c.indicator b'-') [
        | true ↦ mid_loop r (aggregated ++ c.response)
        | false ↦ (r, err (protocol_error (codes "Unexpected response type during mid response")))
      ]
    ]
  ]

  -- The loop of a reply with data, up to the line `.`.
  unfoldable pub data_loop : Reader Io → List Text → Reads (List Text)
  unfolding from_lines_codec
  data_loop [] response = ([], err end_of_stream)
  data_loop (fault e ∷ r) response = (r, err (from_lines_codec T e))
  data_loop (line l ∷ r) response = elim (l == codes ".") [
    | true ↦ (r, ok response)
    | false ↦ data_loop r (response ++ l ∷ [])
  ]

  abbrev pub unexpected_type : ControlResponse → TorError Io Socks
  unexpected_type c = protocol_error (
      codes "Unexpected response type '"
      ++ (c.indicator ∷ codes "': "
          ++ (show_ℕ c.code ++ (c.indicator ∷ join (codes " ") c.response))))

  -- A loop's lines in place of the first line's.
  abbrev pub with_lines : ControlResponse → Reads (List Text) → Reads ControlResponse
  with_lines c (r, lines) = (r, lines >>= λ response. ok (record c { response = response }))

  abbrev pub collect_lines :
      ControlResponse
      → Reader Io
      → (Reader Io → List Text → Reads (List Text))
      → Outcome (TorError Io Socks) Text
      → Reads ControlResponse
  collect_lines c r loop panic = (r, panic)
  collect_lines c r loop stuck = (r, stuck)
  collect_lines c r loop (err e) = (r, err e)
  collect_lines c r loop (ok first) = with_lines c (loop r (first ∷ []))

  abbrev pub continue : Reader Io → ControlResponse → Reads ControlResponse
  continue r c =
      if eqb c.indicator b' '
      then (r, ok c)
      else if eqb c.indicator b'-'
      then collect_lines c r mid_loop (first_of_response c.response)
      else if eqb c.indicator b'+'
      then collect_lines c r data_loop (first_of_response c.response)
      else (r, err (unexpected_type c))

  abbrev pub continue_with : Reads ControlResponse → Reads ControlResponse
  continue_with (r, ok c) = continue r c
  continue_with (r, err e) = (r, err e)
  continue_with (r, panic) = (r, panic)
  continue_with (r, stuck) = (r, stuck)

  unfoldable pub read_control_response : Reader Io → Reads ControlResponse
  unfolding parse_control_response mid_loop data_loop
  read_control_response reader = continue_with (parse_control_response reader)
