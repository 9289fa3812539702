-- ===== src/Wrk/Probe.antt =====
-- What main of wrk2/src/wrk.c asks the script of the first thread.
use weaver_dsb.Prelude.{ℕ, Bool, not, List, ◌≡◌, ◌∙◌}
use weaver_dsb.Prelude.Text.{codes}
use weaver_dsb.Script.{Lua, IsLawful}
use weaver_dsb.Script.Calls.{script_is_static, script_want_response}
use weaver_dsb.Script.Verify.{Parsed, Verified, verified, rejected, script_verify_request}
use weaver_dsb.Script.Balance.{script_request-stack, script_is_function-stack}

-- What main asks the first thread's script for: `cfg.pipeline`, `cfg.dynamic`, and whether the
-- parser has the callbacks on headers and bodies; or script_verify_request ends the program.
pub data Probed : Type 0 where
  refused : Bool → ℕ → ℕ → Probed
  probed : ℕ → Bool → Bool → Probed

abbrev pub probe_from : Verified → Bool → Bool → Probed
probe_from (rejected failed line column) is_static wants = refused failed line column
probe_from (verified pipeline) is_static wants = probed pipeline (not is_static) wants

unfoldable pub probe : (L : Lua) → (List ℕ → Parsed) → L.State → Probed × L.State
probe L execute s =
    let (found, s1) = script_verify_request L execute s in
    let (is_static, s2) = script_is_static L s1 in
    let (wants, s3) = script_want_response L s2 in (probe_from found is_static wants, s3)

-- After the questions the stack is as it was.
probe-stack :
    {L : Lua}
    → IsLawful L
    → (execute : List ℕ → Parsed) (s : L.State) → L.stack (probe L execute s).1 ≡ L.stack s
unfolding probe script_verify_request
probe-stack {L} lawful execute s =
    script_is_function-stack lawful (codes "response") _
    ∙ script_is_function-stack lawful (codes "request") _
    ∙ script_request-stack lawful s
