-- ===== src/SerialPort/Responses.antt =====
-- Which received byte is taken for the response of the pending command.
mod Tests
use telebra.Base.{
  ℕ, ◌≡◌, refl, sym, ap, ◌∙◌, Bool, true, false, List, [], ◌∷◌, ◌++◌, append-nil, append_assoc,
  Bytes, if◌then◌else◌, ◌==◌,
}
use telebra.Qik.State.{Qik, QikCommand, command_code, Report}
use telebra.Qik.Response.{report, process_response}
use telebra.SerialPort.{read_serial}

-- What the console says of the response `b` to a command: nothing, for those that have none.
abbrev pub answer_line : QikCommand → ℕ → List Report
answer_line QikCommand.get_firmware_version b = Report.firmware_version b ∷ []
answer_line QikCommand.get_error_byte b = Report.error_byte b ∷ []
answer_line QikCommand.get_config_param b = Report.configuration_param b ∷ []
answer_line QikCommand.set_config_param b = Report.set_configuration_param b ∷ []
answer_line _ b = []

report-answer_line : (c : QikCommand) (b : ℕ) → report (command_code c) b ≡ answer_line c b
unfolding report
report-answer_line QikCommand.get_firmware_version b = refl
report-answer_line QikCommand.get_error_byte b = refl
report-answer_line QikCommand.get_config_param b = refl
report-answer_line QikCommand.set_config_param b = refl
report-answer_line QikCommand.m0_coast b = refl
report-answer_line QikCommand.m0_forward b = refl
report-answer_line QikCommand.m0_forward_128 b = refl
report-answer_line QikCommand.m0_reverse b = refl
report-answer_line QikCommand.m0_reverse_128 b = refl
report-answer_line QikCommand.m1_coast b = refl
report-answer_line QikCommand.m1_forward b = refl
report-answer_line QikCommand.m1_forward_128 b = refl
report-answer_line QikCommand.m1_reverse b = refl
report-answer_line QikCommand.m1_reverse_128 b = refl

-- With no command pending, received bytes change nothing.
read_serial_idle : (bs : Bytes) (s : Qik) → s.pending_cmd ≡ 0 → read_serial bs s ≡ s
unfolding read_serial process_response report
read_serial_idle [] s e = refl
read_serial_idle (b ∷ bs) s e =
    read_serial_idle bs (process_response b s) refl
    ∙ rw e (ap (λ l. record s { console = l; pending_cmd = 0 }) (append-nil s.console))

-- Of the bytes received while a command is pending, exactly the first is its response: it is
-- reported as that command's, the command is no longer pending, and the bytes behind it, in the same
-- read or in a later one, change nothing.
pub read_serial_pending :
    (c : QikCommand) (b : ℕ) (bs later : Bytes) (s : Qik)
    → s.pending_cmd ≡ command_code c
    → read_serial later (read_serial (b ∷ bs) s)
      ≡ record s { console = s.console ++ answer_line c b; pending_cmd = 0 }
unfolding read_serial process_response
read_serial_pending c b bs later s e =
    let t = process_response b s in
    ap (read_serial later) (read_serial_idle bs t refl)
    ∙ read_serial_idle later t refl
    ∙ ap (λ l. record s { console = s.console ++ l; pending_cmd = 0 })
        (ap (λ p. report p b) e ∙ report-answer_line c b)
