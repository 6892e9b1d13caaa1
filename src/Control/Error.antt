-- ===== src/Control/Error.antt =====
-- src/tor/error.rs, and the errors of the line codec that it converts. `Io` and `Socks` are the
-- errors of `std::io` and of the package `tokio-socks`.
use trithemius_p2p.Base.{Text, codes, ◌++◌}

pub data TorError (Io Socks : Type 0) : Type 0 where
  authentication_error : Text → TorError Io Socks
  protocol_error : Text → TorError Io Socks
  io_error : Io → TorError Io Socks
  socks5_error : Socks → TorError Io Socks

-- `LinesCodecError` of `tokio-util`.
pub data LinesCodecError (Io : Type 0) : Type 0 where
  max_line_length_exceeded : LinesCodecError Io
  codec_io : Io → LinesCodecError Io

-- The `Display` of the errors of other packages.
pub record ErrorTexts (Io Socks : Type 0) : Type 0 where
  pub show_io : Io → Text
  pub show_socks : Socks → Text
  pub show_lines_codec : LinesCodecError Io → Text

module _ {Io Socks : Type 0} (T : ErrorTexts Io Socks) where
  unfoldable pub display : TorError Io Socks → Text
  display (authentication_error error) = codes "Authentication Error: " ++ error
  display (protocol_error error) = codes "Protocol Error: " ++ error
  display (io_error error) = codes "IO Error: " ++ T.show_io error
  display (socks5_error error) = codes "Socks5Error: " ++ T.show_socks error

  -- `From<LinesCodecError>`
  unfoldable pub from_lines_codec : LinesCodecError Io → TorError Io Socks
  from_lines_codec max_line_length_exceeded =
      protocol_error (T.show_lines_codec max_line_length_exceeded)
  from_lines_codec (codec_io error) = io_error error
