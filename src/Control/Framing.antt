-- ===== src/Control/Framing.antt =====
-- Replies of the controller as lines, and what the reader makes of them.
use trithemius_p2p.Base.{
  ℕ, ◌≡◌, refl, ap, ◌∙◌, Text, codes, text_eq, ◌==◌, ==_iff, Bool, true, false, none, some, List,
  [], ◌∷◌, ◌++◌, ok, panic, All, arith, ◌⊎◌, append_assoc, append-nil, has_char, split_once, inl,
  inr,
}
use trithemius_p2p.Base.Decimal.{parse_unsigned}
use trithemius_p2p.Control.Error.{ErrorTexts}
use trithemius_p2p.Control.Response.{ControlResponse, sync_response, parse_line, rest_of_line}
use trithemius_p2p.Control.Reader.{
  line, Reader, read_control_response, parse_control_response, mid_loop, data_loop, continue_with,
  with_lines,
}

-- A line of a reply with code 250.
abbrev pub reply_line : ℕ → Text → Text
reply_line indicator text = b'2' ∷ b'5' ∷ b'0' ∷ indicator ∷ text

abbrev pub reply : ℕ → Text → ControlResponse
reply indicator text = record {
  code = 250;
  indicator = indicator;
  response_type = sync_response;
  response = text ∷ [];
}

-- A text on one line.
abbrev pub IsOneLine : Text → Type 0
IsOneLine text = has_char b'\n' text ≡ false

rest_of_one_line : (text : Text) → IsOneLine text → rest_of_line text ≡ some text
rest_of_one_line [] h = refl
rest_of_one_line (c ∷ []) h = ground arith
rest_of_one_line (c ∷ d ∷ s) h = ground (arith, rest_of_one_line (d ∷ s))

split_once-none : (c : ℕ) (s : Text) → has_char c s ≡ false → split_once c s ≡ none
split_once-none c [] h = refl
split_once-none c (d ∷ s) h = ground (arith, split_once-none c s)

-- The class `\d` holds the ASCII digits that a reply's code is made of.
pub record HasAscii (decimal_digit : ℕ → Bool) : Type 0 where
  pub two : decimal_digit b'2' ≡ true
  pub five : decimal_digit b'5' ≡ true
  pub zero_digit : decimal_digit b'0' ≡ true

module _ {Io Socks : Type 0} (decimal_digit : ℕ → Bool) (D : HasAscii decimal_digit) where
  parse_reply_line :
      (indicator : ℕ) (text : Text)
      → (indicator ≡ b' ') ⊎ (indicator ≡ b'-') ⊎ (indicator ≡ b'+')
      → IsOneLine text
      → parse_line {Io = Io} {Socks = Socks} decimal_digit (reply_line indicator text)
        ≡ ok (reply indicator text)
  unfolding parse_line parse_unsigned
  parse_reply_line indicator text i h =
      ground (arith, D.two, D.five, D.zero_digit, rest_of_one_line text h)

-- A line whose code is a 6 and two digits, that goes on with a separator and a text with neither a
-- space nor a newline, panics the parser: it matches only the expression without a keyword.
pub async_line_panics :
    {Io Socks : Type 0} (decimal_digit : ℕ → Bool) (b c indicator : ℕ) (text : Text)
    → decimal_digit b'6' ≡ true
    → decimal_digit b ≡ true
    → decimal_digit c ≡ true
    → (indicator ≡ b' ') ⊎ (indicator ≡ b'-') ⊎ (indicator ≡ b'+')
    → has_char b' ' text ≡ false
    → IsOneLine text
    → parse_line {Io = Io} {Socks = Socks} decimal_digit (b'6' ∷ b ∷ c ∷ indicator ∷ text) ≡ panic
unfolding parse_line parse_unsigned
async_line_panics decimal_digit b c indicator text d6 db dc i sp h =
    ground (arith, d6, db, dc, split_once-none b' ' text sp, rest_of_one_line text h)

module _ {Io Socks : Type 0} (T : ErrorTexts Io Socks) (decimal_digit : ℕ → Bool)
    (D : HasAscii decimal_digit) where
  abbrev pub mid_lines : List Text → Reader Io
  mid_lines [] = []
  mid_lines (text ∷ texts) = line (reply_line b'-' text) ∷ mid_lines texts

  abbrev pub data_lines : List Text → Reader Io
  data_lines [] = []
  data_lines (text ∷ texts) = line text ∷ data_lines texts

  mid_loop_mid :
      (text : Text) (r : Reader Io) (aggregated : List Text)
      → IsOneLine text
      → mid_loop {Socks = Socks} T decimal_digit (line (reply_line b'-' text) ∷ r) aggregated
        ≡ mid_loop T decimal_digit r (aggregated ++ text ∷ [])
  unfolding mid_loop
  mid_loop_mid text r aggregated h = rw (
    parse_reply_line {Io = Io} {Socks = Socks} decimal_digit D b'-' text (inr (inl refl)) h,
    mid_loop,
  )

  data_loop_data :
      (text : Text) (r : Reader Io) (response : List Text)
      → (text == codes ".") ≡ false
      → data_loop {Socks = Socks} T decimal_digit (line text ∷ r) response
        ≡ data_loop T decimal_digit r (response ++ text ∷ [])
  unfolding data_loop
  data_loop_data text r response h = rw (h, data_loop)

  mid_loop-lines :
      (texts : List Text) (final : Text) (rest : Reader Io) (aggregated : List Text)
      → All IsOneLine texts
      → IsOneLine final
      → mid_loop {Socks = Socks} T decimal_digit
          (mid_lines texts ++ line (reply_line b' ' final) ∷ rest)
          aggregated
        ≡ (rest, ok (aggregated ++ texts))
  unfolding mid_loop
  mid_loop-lines [] final rest aggregated ts f = rw (append-nil) (
      ground
        (arith, parse_reply_line {Io = Io} {Socks = Socks} decimal_digit D b' ' final (inl refl) f))
  mid_loop-lines (text ∷ texts) final rest aggregated ts f =
      mid_loop_mid text (mid_lines texts ++ line (reply_line b' ' final) ∷ rest) aggregated ts.0
      ∙ mid_loop-lines texts final rest (aggregated ++ text ∷ []) ts.1 f
      ∙ ap (λ xs. (rest, ok xs)) (append_assoc aggregated (text ∷ []) texts)

  data_loop-lines :
      (texts : List Text) (rest : Reader Io) (response : List Text)
      → All (λ t. (t == codes ".") ≡ false) texts
      → data_loop {Socks = Socks} T decimal_digit
          (data_lines texts ++ line (codes ".") ∷ rest)
          response
        ≡ (rest, ok (response ++ texts))
  unfolding data_loop
  data_loop-lines [] rest response ts =
      rw append-nil (rw ((==_iff (codes ".") (codes ".")).1 refl, data_loop))
  data_loop-lines (text ∷ texts) rest response ts =
      data_loop_data text (data_lines texts ++ line (codes ".") ∷ rest) response ts.0
      ∙ data_loop-lines texts rest (response ++ text ∷ []) ts.1
      ∙ ap (λ xs. (rest, ok xs)) (append_assoc response (text ∷ []) texts)

  first_line :
      (indicator : ℕ) (text : Text) (rest : Reader Io)
      → (indicator ≡ b' ') ⊎ (indicator ≡ b'-') ⊎ (indicator ≡ b'+')
      → IsOneLine text
      → parse_control_response {Socks = Socks} T decimal_digit
          (line (reply_line indicator text) ∷ rest)
        ≡ (rest, ok (reply indicator text))
  unfolding parse_control_response
  first_line indicator text rest i h =
      rw (parse_reply_line {Io = Io} {Socks = Socks} decimal_digit D indicator text i h)

  -- A reply of one line is read as it stands, and nothing after it is touched.
  pub read_single :
      (text : Text) (rest : Reader Io)
      → IsOneLine text
      → read_control_response {Socks = Socks} T decimal_digit (line (reply_line b' ' text) ∷ rest)
        ≡ (rest, ok (reply b' ' text))
  unfolding read_control_response
  read_single text rest h =
      ap (continue_with T decimal_digit) (first_line b' ' text rest (inl refl) h)

  -- A reply of several lines of text with code 250 is read up to its last line. The texts of the
  -- lines before the last are the response, in their order, and nothing after the last line is
  -- touched.
  pub read_lines :
      (first final : Text) (texts : List Text) (rest : Reader Io)
      → IsOneLine first
      → All IsOneLine texts
      → IsOneLine final
      → read_control_response {Socks = Socks} T decimal_digit
          (mid_lines (first ∷ texts) ++ line (reply_line b' ' final) ∷ rest)
        ≡ (rest, ok (record (reply b'-' first) { response = first ∷ texts }))
  unfolding read_control_response
  read_lines first final texts rest h hs f =
      ap (continue_with T decimal_digit) (
        first_line b'-' first (mid_lines texts ++ line (reply_line b' ' final) ∷ rest)
          (inr (inl refl)) h)
      ∙ ap (with_lines T decimal_digit (reply b'-' first))
          (mid_loop-lines texts final rest (first ∷ []) hs f)

  -- A reply with code 250 and data is read up to the line with a dot alone, where no line of the
  -- data is such a line. The data is the response, behind the first line's text, and nothing after
  -- the dot is touched.
  pub read_data :
      (first : Text) (texts : List Text) (rest : Reader Io)
      → IsOneLine first
      → All (λ t. (t == codes ".") ≡ false) texts
      → read_control_response {Socks = Socks} T decimal_digit
          (line (reply_line b'+' first) ∷ (data_lines texts ++ line (codes ".") ∷ rest))
        ≡ (rest, ok (record (reply b'+' first) { response = first ∷ texts }))
  unfolding read_control_response
  read_data first texts rest h hs =
      ap (continue_with T decimal_digit)
        (first_line b'+' first (data_lines texts ++ line (codes ".") ∷ rest) (inr (inr refl)) h)
      ∙ ap (with_lines T decimal_digit (reply b'+' first))
          (data_loop-lines texts rest (first ∷ []) hs)
