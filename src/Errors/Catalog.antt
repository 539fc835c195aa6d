-- ===== src/Errors/Catalog.antt =====
-- The catalogue of internal/errorreport/report.go: what is shown for each code.
use agent_chun_su.Base.{List, [], ◌∷◌, String, Bool, str_eq}

pub record Diagnostic : Type 0 where
  pub component : String
  pub summary : String
  pub recovery : String

pub record Catalogued : Type 0 where
  pub code : String
  pub diagnostic : Diagnostic

abbrev catalogued : String → String → String → String → Catalogued
catalogued code component summary recovery = record {
  code = code;
  diagnostic = record { component = component; summary = summary; recovery = recovery };
}

unfoldable pub catalog : List Catalogued
catalog =
    catalogued "supervisor_recovered" "supervisor" "Interrupted chat supervisor recovered"
      "The OS service manager restarted the supervisor. It will inspect the prior receiver and work before reconnecting."
    ∷ catalogued "supervisor_interrupted" "supervisor"
        "Chat supervisor received a stop signal while enabled"
        "The OS service manager will recover it. Use chunsu telegram stop for a persistent stop."
    ∷ catalogued "model_timeout" "reception" "AI reply timed out"
        "The current request was stopped. Use /reset to clear context or send a smaller request."
    ∷ catalogued "model_not_configured" "reception" "Conversation AI executor is not configured"
        "Check chunsu config route reception and chunsu doctor on the host. Fixed commands remain available."
    ∷ catalogued "model_compatibility" "reception"
        "Conversation AI version or model is incompatible"
        "Use chunsu doctor on the host to check supported versions for the conversation route and configure an executor."
    ∷ catalogued "chat_style_unavailable" "reception" "Saved tone instruction is unavailable"
        "Run /tone reset, then check the data directory permissions and available storage on the host."
    ∷ catalogued "chat_language_unavailable" "reception"
        "Saved chat language preference is unavailable"
        "Run /language reset, then check the private preference storage permissions and available space."
    ∷ catalogued "secret_unavailable" "chat" "Chat secret store or bot token is unavailable"
        "Restore the host credential store or CHUNSU_SECRET_HELPER configuration and the saved bot token. Do not send tokens in chat."
    ∷ catalogued "poll_failed" "telegram" "Message polling connection failed"
        "The receiver reconnects from its saved position. If this repeats, check the host network."
    ∷ catalogued "authentication_failed" "telegram" "Telegram authentication or access was denied"
        "Polling retries continue. Restore the bot token and access permissions on the host."
    ∷ catalogued "poll_conflict" "telegram" "Another receiver or webhook conflicts with polling"
        "Check other receivers or webhooks using this bot. Existing webhooks are not removed automatically."
    ∷ catalogued "send_unconfirmed" "telegram" "Reply or acknowledgement delivery was not confirmed"
        "It will not be resent automatically to avoid duplicates. Check /status or /jobs for the result."
    ∷ catalogued "receipt_failed" "telegram" "Message processing state could not be saved"
        "This request is held. Check the host data directory permissions and available storage."
    ∷ catalogued "model_failed" "reception" "AI reply generation failed"
        "The receiver and fixed commands remain available. Use /reset or chunsu doctor on the host to check the executor and authentication."
    ∷ catalogued "execution_uncertain" "reception"
        "Execution completion or job result needs inspection"
        "It will not be run again automatically. Check /jobs and the host recovery state."
    ∷ catalogued "host_failed" "controller" "Internal management action failed"
        "The receiver remains available. Check /status and /errors, then recover the host if needed."
    ∷ catalogued "turn_panicked" "reception" "Internal failure while processing the conversation"
        "That conversation was stopped. Use the error ID and installed version when inspecting it."
    ∷ catalogued "startup_failed" "chat" "Chat receiver failed to start"
        "The supervisor will retry. Check configuration, the secret store, and whether another receiver is running."
    ∷ catalogued "receiver_exited" "supervisor" "Chat receiver exited unexpectedly"
        "The supervisor will restart the receiver. Interrupted requests are not run again automatically."
    ∷ catalogued "receiver_stalled" "supervisor" "Chat receiver response check timed out"
        "Only the supervisor-owned receiver will be cleaned up and restarted."
    ∷ catalogued "recovery_blocked" "supervisor"
        "Safe termination of a prior run could not be confirmed"
        "Duplicate execution is held. Inspect remaining processes and execution records on the host."
    ∷ catalogued "supervisor_state_failed" "supervisor" "Supervisor state could not be saved"
        "Restore the host data directory permissions and available storage."
    ∷ catalogued "interrupted_request" "reception" "A request unfinished before restart was found"
        "Its result may be uncertain, so it will not run again automatically. Check /jobs and resend only the request you need."
    ∷ []

abbrev pub has_code : String → Catalogued → Bool
has_code code r = str_eq r.code code
