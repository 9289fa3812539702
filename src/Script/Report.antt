-- ===== src/Script/Report.antt =====
-- What wrk2/src/script.c hands to the script at the end of a run: script_summary, script_errors and
-- script_done.
use weaver_dsb.Prelude.{ℕ, ◌≡◌, refl, ap, ◌∙◌, some, List, [], ◌∷◌, arith}
use weaver_dsb.Prelude.Text.{codes}
use weaver_dsb.Prelude.Int.{pos}
use weaver_dsb.Script.{string, table, other, Lua, IsLawful, TableField, number_field, set_fields}
use weaver_dsb.Script.Stack.{after-push, after-push_value, after-pop, after-call, after-get_global}
use weaver_dsb.Script.Fields.{put_fields, set_fields_lem, set_field-at}
use weaver_dsb.Wrk.{Errors}

abbrev pub number_entry : List ℕ → ℕ → TableField
number_entry name n = record { name = name; value = some (number_field n) }

abbrev pub summary_fields : ℕ → ℕ → ℕ → List TableField
summary_fields duration requests bytes =
    number_entry (codes "duration") duration
    ∷ number_entry (codes "requests") requests
    ∷ number_entry (codes "bytes") bytes
    ∷ []

abbrev pub error_fields : Errors → List TableField
error_fields e =
    number_entry (codes "connect") e.connect
    ∷ number_entry (codes "read") e.read
    ∷ number_entry (codes "write") e.write
    ∷ number_entry (codes "status") e.status
    ∷ number_entry (codes "timeout") e.timeout
    ∷ []

module _ (L : Lua) where
  unfoldable pub script_summary : ℕ → ℕ → ℕ → L.State → L.State
  script_summary duration requests bytes s =
      set_fields L (pos 1) (summary_fields duration requests bytes) (L.new_table s)

  unfoldable pub script_errors : Errors → L.State → L.State
  script_errors e s =
      L.set_field (pos 1) (codes "errors") (set_fields L (pos 2) (error_fields e) (L.new_table s))

  -- The two userdata are the statistics, with their metatable set.
  unfoldable pub script_done : L.Other → L.Other → L.State → L.State
  script_done latency requests s = L.pop 1 (
      L.call 3 0 (
        L.push (other requests)
          (L.push (other latency) (L.push_value (pos 1) (L.get_global (codes "done") s)))))

module _ {L : Lua} (lawful : IsLawful L) where
  -- the argument of `done`: the summary, with the errors in it
  abbrev pub report_table : ℕ → ℕ → ℕ → Errors → L.Table
  report_table duration requests bytes e =
      L.put (string (codes "errors")) (table (put_fields lawful (error_fields e) L.empty))
        (put_fields lawful (summary_fields duration requests bytes) L.empty)

  script_summary-stack :
      (duration requests bytes : ℕ) (s : L.State)
      → L.stack s ≡ []
      → L.stack (script_summary L duration requests bytes s)
        ≡ table (put_fields lawful (summary_fields duration requests bytes) L.empty) ∷ []
  unfolding script_summary
  script_summary-stack duration requests bytes s e =
      set_fields_lem lawful 1 0 (summary_fields duration requests bytes) (L.new_table s)
        (table L.empty ∷ []) L.empty (lawful.stack-new_table s ∙ ap (λ ys. table L.empty ∷ ys) e)
        (omega arith) refl refl

  -- The end of a run, on an empty stack: script_summary and script_errors leave one value, the
  -- table with the duration, the requests, the bytes and the table of the five counters of
  -- errors, and script_done empties the stack again.
  pub script_done_lem :
      (duration requests bytes : ℕ) (e : Errors) (latency samples : L.Other) (s : L.State)
      → L.stack s ≡ []
      → (L.stack (script_errors L e (script_summary L duration requests bytes s))
          ≡ table (report_table duration requests bytes e) ∷ [])
        × (L.stack (
              script_done L latency samples
                (script_errors L e (script_summary L duration requests bytes s)))
            ≡ [])
  unfolding script_errors script_done
  script_done_lem duration requests bytes e latency samples s none_yet =
      let summary = script_summary L duration requests bytes s in
      let summary_table = put_fields lawful (summary_fields duration requests bytes) L.empty in
      let errors_table = put_fields lawful (error_fields e) L.empty in
      let filled =
        set_fields_lem lawful 2 0 (error_fields e) (L.new_table summary)
          (table L.empty ∷ table summary_table ∷ []) L.empty
          (lawful.stack-new_table summary
            ∙ ap (λ ys. table L.empty ∷ ys)
                (script_summary-stack duration requests bytes s none_yet))
          (omega arith) refl refl in
      let reported =
        set_field-at lawful 1 0 (codes "errors")
          (set_fields L (pos 2) (error_fields e) (L.new_table summary)) (table errors_table)
          (table summary_table ∷ []) summary_table filled (omega arith) refl refl in
      let (f, found) = after-get_global lawful reported (codes "done") in
      (
        reported,
        after-pop lawful
            (after-call lawful
              (after-push lawful
                (after-push lawful (after-push_value lawful found (pos 1)) (other latency))
                (other samples))
              3)
            1,
      )
