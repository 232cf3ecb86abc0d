-- ===== src/Cli/Reply.antt =====
-- The replies of cli_server/connection.hpp, and the message that `connection::send_reply` sends.
use foo_dsp_bfir.Base.{[], ◌∷◌, ◌++◌}
use foo_dsp_bfir.Cli.Text.{Text, codes}
use foo_dsp_bfir.Cli.Parser.{cmd_term}

abbrev pub status_ok : Text
status_ok = codes "OK"

abbrev pub status_error : Text
status_error = codes "ERR"

unfoldable pub reply_message : Text → Text
reply_message reply = reply ++ cmd_term ∷ []
