-- ===== src/Control/Connection.antt =====
-- `TorControlConnection` and `TorAuthentication` (src/tor/control_connection.rs, src/tor/auth.rs).
-- The state is what the controller will send and what was written. `send_result` says how the
-- codec's `send` of a line ends, after the lines that were written before.
use trithemius_p2p.Base.{
  stuck, ℕ, Text, codes, Option, none, some, Bool, ◌||◌, List, [], ◌∷◌, ◌++◌, eqb, join, Outcome,
  ok, err, panic, on_ok, if◌then◌else◌,
}
use trithemius_p2p.Control.Error.{
  TorError, authentication_error, protocol_error, LinesCodecError, ErrorTexts, from_lines_codec,
}
use trithemius_p2p.Control.Response.{ControlResponse}
use trithemius_p2p.Control.Reader.{Reader, read_control_response}

pub record TorControlConnection (Io : Type 0) : Type 0 where
  pub reader : Reader Io
  pub written : List Text

pub data TorAuthentication : Type 0 where
  null : TorAuthentication
  safe_cookie hashed_password : Text → TorAuthentication

-- How the packages and the environment answer.
pub record Environment (Io Socks : Type 0) : Type 0 where
  pub texts : ErrorTexts Io Socks
  pub decimal_digit : ℕ → Bool
  pub send_result : List Text → Text → Option (LinesCodecError Io)

module _ {Io Socks : Type 0} (X : Environment Io Socks) where
  -- The connection after an operation, and how it ended.
  abbrev pub After : Type 0 → Type 0
  After A = TorControlConnection Io × Outcome (TorError Io Socks) A

  unfoldable pub write : Text → TorControlConnection Io → After (Unit {0})
  write text c = elim (X.send_result c.written text) [
    | none ↦ (record c { written = c.written ++ text ∷ [] }, ok tt)
    | some e ↦ (c, err (from_lines_codec X.texts e))
  ]

  unfoldable pub read_response : TorControlConnection Io → After ControlResponse
  read_response c =
      let (reader, response) = read_control_response X.texts X.decimal_digit c.reader in
      (record c { reader = reader }, response)

  abbrev pub command_line : Text → Option Text → Text
  command_line command none = command
  command_line command (some arguments) = command ++ (codes " " ++ arguments)

  abbrev pub check_code : ControlResponse → Outcome (TorError Io Socks) ControlResponse
  check_code r =
      if eqb r.code 250 || eqb r.code 251
      then ok r
      else err (protocol_error (join (codes " ") r.response))

  unfoldable pub send_command : Text → Option Text → TorControlConnection Io → After ControlResponse
  unfolding write read_response
  send_command command arguments c =
      on_ok (write (command_line command arguments) c)
        λ c1 _. on_ok (read_response c1) λ c2 response. (c2, check_code response)

  -- `TorAuthentication::authenticate` renames a protocol error of the command.
  abbrev pub rename_error :
      Outcome (TorError Io Socks) ControlResponse → Outcome (TorError Io Socks) (Unit {0})
  rename_error (ok response) = ok tt
  rename_error (err (protocol_error error)) = err (authentication_error error)
  rename_error (err error) = err error
  rename_error panic = panic
  rename_error stuck = stuck

  abbrev pub not_implemented : Text
  not_implemented = codes "Haven't implemented that authentication method yet"

  unfoldable pub authenticate : TorAuthentication → TorControlConnection Io → After (Unit {0})
  unfolding send_command
  authenticate null c =
      let (c', response) = send_command (codes "AUTHENTICATE") none c in (c', rename_error response)
  authenticate (safe_cookie cookie) c = (c, err (authentication_error not_implemented))
  authenticate (hashed_password password) c = (c, err (authentication_error not_implemented))
