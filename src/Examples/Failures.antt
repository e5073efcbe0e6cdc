-- ===== src/Examples/Failures.antt =====
-- `fail_with_mizan_error` of examples/end_to_end.py, and the `except` clause that calls it.
use mizan_client_sdks.Base.{String, Option, none, some, if◌then◌else◌}
use mizan_client_sdks.Python.Value.{bool, str, obj}
use mizan_client_sdks.Python.Text.{append}
use mizan_client_sdks.Python.Runtime.{Python}
use mizan_client_sdks.Python.Numbers.Print.{str_of}
use mizan_client_sdks.Webhooks.Ledger.{equal_text}
use mizan_client_sdks.Client.Retry.{Outcome, api_error, transport_error, protocol_error}
use mizan_client_sdks.Examples.Flow.{Flow, stopped, Stopped, failed, system_exit}

-- str(key)
abbrev pub key_text : Option String → String
key_text none = "None"
key_text (some k) = k

-- fail_with_mizan_error(error); an exception that is no `MizanError` is not caught
unfoldable pub fail_with_mizan_error : Python → Outcome → Stopped
fail_with_mizan_error py (api_error e) =
    if equal_text e.error_code (str "INSUFFICIENT_AZEER_UNITS")
    then system_exit
        "Azeer Units are insufficient. Fund a supported catalog package, then retry the same source event with its original body and key."
    else if equal_text e.error_code (str "INSUFFICIENT_PROVIDER_BALANCE")
    then system_exit
        "Provider balance is insufficient. Stop provider work and complete a trusted provider-balance top-up."
    else system_exit (
        append "Mizan rejection code=" (
          append (str_of py e.error_code) (
            append " retryable=" (
              append (str_of py (bool e.retryable)) (
                append " request_id=" (
                  append (str_of py e.request_id) (
                    append " idempotency_key=" (
                      append (key_text e.idempotency_key)
                        (append " details=" (str_of py (obj e.details)))))))))))
fail_with_mizan_error py (transport_error message request_id key) = system_exit (
    append "Mutation outcome is unknown. Retry only the identical body and key="
      (append (key_text key) (append "; request_id=" (append request_id "."))))
fail_with_mizan_error py (protocol_error message request_id key) = system_exit (
    append "Mizan returned an invalid response. Preserve key="
      (append (key_text key) (append " and investigate request_id=" (append request_id "."))))
fail_with_mizan_error py o = failed o

-- the `except` clause of `main`
unfoldable pub caught : {A : Type 0} → Python → Flow A → Flow A
caught py (stopped (failed o), es) = (stopped (fail_with_mizan_error py o), es)
caught py m = m
