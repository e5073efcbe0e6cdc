-- ===== src/Tests/Exports.antt =====
-- Runs of the ledger export and of the optional funding.
use mathlib.Core.List.{[], ◌∷◌}
use mizan_client_sdks.Base.{
  true, String, ◌⊎◌, Option, ℕ, zero, suc, ◌-◌, ◌≤◌, ◌≡◌, refl, sym, ap, ◌∙◌, inr, some, none, List,
  arith,
}
use mizan_client_sdks.Base.Int.{ℤ, pos, negsuc}
use mizan_client_sdks.Base.Lists.{length}
use mizan_client_sdks.Python.Value.{
  Value, bool, int, null, obj, arr, nil, cons, Fields, field, end, get, size,
}
use mizan_client_sdks.Python.Runtime.{Python, loaded}
use mizan_client_sdks.Client.Paths.{quote, business_path}
use mizan_client_sdks.Client.Http.{
  Request, replied, truthy, class_of, dict_from, find_header, read_error, read_payload, read_reply,
}
use mizan_client_sdks.Client.Retry.{
  MizanClient, Environment, choose_key, update, request_headers, backoff, request_at, pause,
  conclude, attempts, request, perform, returned,
}
use mizan_client_sdks.Client.Commands.{get_ledger, get_ledger_from}
use mizan_client_sdks.Examples.Export.{
  exported, again, count_items, size_of, at_most, read_data, read_page, turn_page, turn, follow,
  export_from, export_ledger,
}
use mizan_client_sdks.Examples.Export.Walks.{
  Walk, Bounded, BoundedCursor, no_cursor, cursor_to, export-Walk,
}
use mizan_client_sdks.Examples.Export.Whole.{behind, Served, export-count}
use mizan_client_sdks.Examples.Funding.{fund_built, maybe_fund_provider}
use mizan_client_sdks.Examples.Funding.Requests.{Sent, fund-Sent}
use mizan_client_sdks.Client.Retry.Effects.{requests_of}
use mizan_client_sdks.Tests.Interpreter.{ascii}

-- what a run of the export opens
export_runs : Unit {0}
unfolding get size quote business_path truthy class_of dict_from find_header read_error read_payload
    read_reply choose_key update request_headers backoff request_at pause conclude attempts request
    perform get_ledger get_ledger_from count_items size_of at_most read_data turn_page turn follow
    export_from export_ledger behind
export_runs = tt

-- a page with one entry, and the page behind the last entry
abbrev page : ℕ → Fields
page b =
    field "data"
      (obj (
        field "entries" (arr (cons (obj end) nil)) (field "next_after_sequence" (int (pos b)) end)))
      end

abbrev final : Fields
final = field "data" (obj (field "entries" (arr nil) (field "next_after_sequence" null end))) end

-- two entries, with the numbers 1 and 2, on a page each
abbrev page_behind : ℕ → Fields
page_behind zero = page 1
page_behind (suc zero) = page 2
page_behind (suc (suc a)) = final

-- the interpreter that reads a list as the page behind its length
abbrev paging : Python
paging = record ascii { loads_utf8 = λ raw. loaded (obj (page_behind (length raw - 1))) }

abbrev ones : ℕ → List ℕ
ones zero = []
ones (suc a) = 1 ∷ ones a

abbrev body_behind : Value → List ℕ
body_behind (int (pos zero)) = ones 1
body_behind (int (pos (suc zero))) = ones 2
body_behind (int (pos (suc (suc a)))) = ones 3
body_behind _ = ones 3

abbrev serving : ℕ → Value → Environment
serving n after = record {
  new_key = "generated";
  correlation_id = "r1";
  now = λ attempt. "2026-01-01T00:00:00Z";
  reply = λ attempt. replied 200 [] (body_behind after);
}

abbrev reader : MizanClient
reader = record {
  base_url = "https://api.example";
  token = "t";
  business_id = some "b1";
  max_attempts = 1;
}

exported_two : (export_ledger paging reader "b1" serving 3).0 ≡ exported 2 (int (pos 2))
unfolding export_runs
exported_two = refl

-- the loop goes on from a Boolean cursor, which is a number, and counts the fields of an object
bool_cursor :
    turn_page ascii (int (pos 0)) 2 (
      read_page (
        field "data"
          (obj (
            field "entries"
              (obj (field "a" null end))
              (field "next_after_sequence" (bool true) end)))
          end))
    ≡ again (bool true) 3
unfolding export_runs
bool_cursor = refl

serving-Served : Served paging reader "b1" serving (1 ∷ 2 ∷ [])
unfolding export_runs
serving-Served n zero = (page 1, (1, some (pos 1)), refl, refl, inr (omega arith, refl))
serving-Served n (suc zero) = (page 2, (1, some (pos 2)), refl, refl, inr (omega arith, refl))
serving-Served n (suc (suc a)) = (final, (0, none), refl, refl, ground arith)

injected : (p payload : Fields) → returned p ≡ returned payload → p ≡ payload
injected p payload h = cc

page-cursor :
    (b : ℕ)
    → b ≤ 2
    → (payload : Fields) (more : ℕ) (cursor : Value) → page b ≡ payload
    → read_page payload ≡ some (more, cursor)
    → BoundedCursor 2 cursor
unfolding export_runs
page-cursor b h payload more cursor same e =
    let read : read_page (page b) ≡ some (more, cursor) = ap (λ p. read_page p) same ∙ e in
    let one : int (pos b) ≡ cursor = cc in rw (sym one) (cursor_to (pos b) (omega arith))

final-cursor :
    (payload : Fields) (more : ℕ) (cursor : Value)
    → final ≡ payload
    → read_page payload ≡ some (more, cursor)
    → BoundedCursor 2 cursor
unfolding export_runs
final-cursor payload more cursor same e =
    let read : read_page final ≡ some (more, cursor) = ap (λ p. read_page p) same ∙ e in
    let one : null ≡ cursor = cc in rw (sym one) no_cursor

serving-Bounded : Bounded paging reader "b1" serving 2
unfolding export_runs
serving-Bounded n (pos zero) payload more cursor c e =
    page-cursor 1 (omega arith) payload more cursor (injected (page 1) payload c) e
serving-Bounded n (pos (suc zero)) payload more cursor c e =
    page-cursor 2 (omega arith) payload more cursor (injected (page 2) payload c) e
serving-Bounded n (pos (suc (suc a))) payload more cursor c e =
    final-cursor payload more cursor (injected final payload c) e
serving-Bounded n (negsuc m) payload more cursor c e = cc

export-Walk_example :
    Walk paging reader "b1" serving 0 (pos 0) 0 (export_ledger paging reader "b1" serving 3).0
export-Walk_example = export-Walk paging reader "b1" serving 2 serving-Bounded 3 (omega arith)

export-count_example :
    (end : ℤ) × ((export_ledger paging reader "b1" serving 3).0
      ≡ exported (behind (1 ∷ 2 ∷ []) 0) (int end))
export-count_example =
    export-count paging reader "b1" serving (1 ∷ 2 ∷ []) serving-Served 2 serving-Bounded 3
      (omega arith)

abbrev funding_requests : Option String → Option String → List Request
funding_requests amount paid_total =
    requests_of
      (maybe_fund_provider ascii reader (serving 0 (int (pos 0))) "b1" "r1" amount paid_total).1

half_configured : funding_requests (some "100") (some "") ≡ []
unfolding fund_built maybe_fund_provider requests_of
half_configured = refl

fund-Sent_example :
    (funding_requests (some "100") (some "115") ≡ [])
    ⊎ Sent ascii reader
        (serving 0 (int (pos 0)))
        "b1"
        "r1"
        (some "100")
        (some "115")
        (maybe_fund_provider ascii reader
          (serving 0 (int (pos 0)))
          "b1"
          "r1"
          (some "100")
          (some "115")).1
fund-Sent_example =
    fund-Sent ascii reader (serving 0 (int (pos 0))) "b1" "r1" (omega arith) (omega arith)
      (some "100") (some "115")
