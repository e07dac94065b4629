-- ===== src/Cli/Sanitized.antt =====
-- src/main.rs: what the command line prints of an error gives nothing of its messages away.
use tak_bench.Prelude.{
  ◌≡◌, refl, sym, ◌∙◌, Option, none, some, [], ◌∷◌, if◌then◌else◌, Bool-cases, inl, inr, map,
}
use tak_bench.Prelude.Bytes.{Str, str_eq, str_eq→eq}
use tak_bench.Connection.Errors.{ConnectError}
use tak_bench.Safety.Errors.{SafetyError}
use tak_bench.Scenarios.Errors.{
  connect_cause, template_cause, runtime_cause, io_cause, elapsed_cause, message_cause,
}
use tak_bench.Cli.Errors.{
  CliCause, safety_cause, other_cause, CliError, find_connect, find_safety, run_failed,
  command_failed, generic_text, safety_text, connect_text, sanitized_cli_error,
}

-- An error with other messages: paths, addresses and what the system reports
abbrev pub reword_cause : (Str → Str) → CliCause → CliCause
reword_cause other (safety_cause e) = safety_cause e
reword_cause other (other_cause (message_cause text)) = other_cause (message_cause (other text))
reword_cause other (other_cause cause) = other_cause cause

abbrev pub reword : (Str → Str) → CliError → CliError
reword other error = map (reword_cause other) error

module _ (other : Str → Str) where
  find_connect-reword : (error : CliError) → find_connect (reword other error) ≡ find_connect error
  unfolding find_connect
  find_connect-reword [] = refl
  find_connect-reword (safety_cause e ∷ rest) = find_connect-reword rest
  find_connect-reword (other_cause (connect_cause e) ∷ rest) = refl
  find_connect-reword (other_cause (template_cause e) ∷ rest) = find_connect-reword rest
  find_connect-reword (other_cause (runtime_cause e) ∷ rest) = find_connect-reword rest
  find_connect-reword (other_cause (io_cause b) ∷ rest) = find_connect-reword rest
  find_connect-reword (other_cause elapsed_cause ∷ rest) = find_connect-reword rest
  find_connect-reword (other_cause (message_cause t) ∷ rest) = find_connect-reword rest

  find_safety-reword : (error : CliError) → find_safety (reword other error) ≡ find_safety error
  unfolding find_safety
  find_safety-reword [] = refl
  find_safety-reword (safety_cause e ∷ rest) = refl
  find_safety-reword (other_cause (connect_cause e) ∷ rest) = find_safety-reword rest
  find_safety-reword (other_cause (template_cause e) ∷ rest) = find_safety-reword rest
  find_safety-reword (other_cause (runtime_cause e) ∷ rest) = find_safety-reword rest
  find_safety-reword (other_cause (io_cause b) ∷ rest) = find_safety-reword rest
  find_safety-reword (other_cause elapsed_cause ∷ rest) = find_safety-reword rest
  find_safety-reword (other_cause (message_cause t) ∷ rest) = find_safety-reword rest

  module _ (same_run : (text : Str) → str_eq (other text) run_failed ≡ str_eq text run_failed) where
    generic-text :
        (text : Str)
        → (if str_eq (other text) run_failed then other text else command_failed)
          ≡ (if str_eq text run_failed then text else command_failed)
    generic-text text = elim (Bool-cases (str_eq text run_failed)) [
      | inl run ↦
          rw (same_run text, run)
            (str_eq→eq (other text) run_failed (same_run text ∙ run)
              ∙ sym (str_eq→eq text run_failed run))
      | inr not_run ↦ rw (same_run text, not_run) refl
    ]

    generic_text-reword :
        (error : CliError) → generic_text (reword other error) ≡ generic_text error
    unfolding generic_text
    generic_text-reword [] = refl
    generic_text-reword (safety_cause e ∷ rest) = refl
    generic_text-reword (other_cause (connect_cause e) ∷ rest) = refl
    generic_text-reword (other_cause (template_cause e) ∷ rest) = refl
    generic_text-reword (other_cause (runtime_cause e) ∷ rest) = refl
    generic_text-reword (other_cause (io_cause b) ∷ rest) = refl
    generic_text-reword (other_cause elapsed_cause ∷ rest) = refl
    generic_text-reword (other_cause (message_cause t) ∷ rest) = generic-text t

    safety_text-reword :
        (debug : Str → Str) (error : CliError) (found : Option SafetyError)
        → safety_text debug (reword other error) found ≡ safety_text debug error found
    unfolding safety_text
    safety_text-reword debug error none = generic_text-reword error
    safety_text-reword debug error (some e) = refl

    connect_text-reword :
        (debug : Str → Str) (error : CliError) (found : Option ConnectError)
        → connect_text debug (reword other error) found ≡ connect_text debug error found
    unfolding connect_text
    connect_text-reword debug error none =
        rw (find_safety-reword error) (safety_text-reword debug error (find_safety error))
    connect_text-reword debug error (some e) = refl

    -- What the command line prints of an error does not depend on the messages in it, wherever in its
    -- chain they stand: with any other messages, of which just those read as the report of a failed run
    -- that did so before, it prints the same.
    pub sanitized-reword :
        (debug : Str → Str) (error : CliError)
        → sanitized_cli_error debug (reword other error) ≡ sanitized_cli_error debug error
    unfolding sanitized_cli_error
    sanitized-reword debug error =
        rw (find_connect-reword error) (connect_text-reword debug error (find_connect error))
