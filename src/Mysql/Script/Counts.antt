-- ===== src/Mysql/Script/Counts.antt =====
-- The counters of `RunScript` add up, and it sends every statement that is not skipped, in order,
-- whatever fails on the way.
use flashaccess.Base.{
  ℕ, ◌+◌, Text, Bool, not, ◌&&◌, List, [], ◌∷◌, ◌++◌, Result, ok, err, length, map, keep, ◌≡◌, refl,
  ◌∙◌, sym, arith, ◌⊎◌, inl, inr, Bool-cases, length-append, append-nil, append_assoc,
}
use flashaccess.Mysql.Driver.{Driver, DbError, bare, exec, connect}
use flashaccess.Mysql.Split.{split_statements}
use flashaccess.Mysql.Script.{
  ScriptResult, ScriptError, connecting, using, statement, skip_statement, fresh_result, all_failed,
  tally, preview, run_statements, after_use, after_connect, run_script,
}

-- every statement of the script is counted once, as executed, skipped or failed
abbrev pub IsBalanced : ℕ → ScriptResult → Type 0
IsBalanced n res = (res.total ≡ n) × (res.executed + res.skipped + res.failed ≡ n)

-- the same part of the way, with `k` statements still to come and one error for each failure
record Counted (n k : ℕ) (res : ScriptResult) : Type 0 where
  total_is : res.total ≡ n
  sum_is : res.executed + res.skipped + res.failed + k ≡ n
  errors_are : length res.errors ≡ res.failed

tally-Counted :
    (n k idx : ℕ) (r : Result DbError ℕ) (s : Text) (res : ScriptResult)
    → Counted n (k + 1) res
    → Counted n k (tally r idx s res)
tally-Counted n k idx (ok _) s res h = omega arith
tally-Counted n k idx (err e) s res h = record {
  total_is = h.total_is;
  sum_is = omega arith;
  errors_are = omega (arith, length-append res.errors (statement (idx + 1) e (preview s) ∷ []));
}

run_statements-Counted :
    (n : ℕ) (skipping : Bool) (idx : ℕ) (ss : List Text) (res : ScriptResult) (d : Driver)
    → Counted n (length ss) res
    → Counted n 0 (run_statements skipping idx ss res d).0
unfolding run_statements exec
run_statements-Counted n skipping idx [] res d h = h
run_statements-Counted n skipping idx (s ∷ ss) res d h =
    elim (Bool-cases (skipping && skip_statement s)) [
      | inl p ↦ rw p (run_statements-Counted n skipping (idx + 1) ss _ d (omega arith))
      | inr p ↦ rw p (
          run_statements-Counted n skipping (idx + 1) ss _ _
            (tally-Counted n (length ss) idx (exec (bare s) d).0 s res (omega arith)))
    ]

-- How a run ends: before the first statement, with all of them counted as failed and one error;
-- or behind the last one, with one error for each failure.
abbrev pub Ended : ℕ → ScriptResult → Type 0
Ended n res =
    IsBalanced n res
    × (((res.failed ≡ n) × (length res.errors ≡ 1)) ⊎ (length res.errors ≡ res.failed))

Counted-Ended : (n : ℕ) (res : ScriptResult) → Counted n 0 res → Ended n res
Counted-Ended n res h = ((h.total_is, omega arith), inr h.errors_are)

all_failed-Ended : (stmts : List Text) (e : ScriptError) → Ended (length stmts) (all_failed stmts e)
all_failed-Ended stmts e = ((refl, omega arith), inl (refl, refl))

loop-Ended :
    (skipping : Bool) (stmts : List Text) (d : Driver)
    → Ended (length stmts) (run_statements skipping 0 stmts (fresh_result stmts) d).0
loop-Ended skipping stmts d = Counted-Ended _ _ (
    run_statements-Counted (length stmts) skipping 0 stmts _ d
      (record { total_is = refl; sum_is = omega arith; errors_are = refl }))

after_use-Ended :
    (db : Text) (skipping : Bool) (stmts : List Text) (out : Result DbError ℕ × Driver)
    → Ended (length stmts) (after_use db skipping stmts out).0
after_use-Ended db skipping stmts (err e, d) = all_failed-Ended stmts (using db e)
after_use-Ended db skipping stmts (ok _, d) = loop-Ended skipping stmts d

after_connect-Ended :
    (db : Text) (skipping : Bool) (stmts : List Text) (out : Result DbError (Unit {0}) × Driver)
    → Ended (length stmts) (after_connect db skipping stmts out).0
after_connect-Ended db skipping stmts (err e, d) = all_failed-Ended stmts (connecting e)
after_connect-Ended [] skipping stmts (ok _, d) = loop-Ended skipping stmts d
after_connect-Ended (c ∷ db) skipping stmts (ok _, d) = after_use-Ended (c ∷ db) skipping stmts _

-- Whatever the server answers, `RunScript` counts each statement of the script exactly once, as
-- executed, skipped or failed. It reports one error for each failure, or, where the connection or
-- the USE failed, one error and every statement as failed.
run_script_counts :
    (db script : Text) (skipping : Bool) (d : Driver)
    → Ended (length (split_statements script)) (run_script db script skipping d).0
unfolding run_script
run_script_counts db script skipping d =
    after_connect-Ended db skipping (split_statements script) (connect d)

-- the statements of a script that are meant to run
abbrev pub runnable : Bool → List Text → List Text
runnable skipping = keep (λ s. not (skipping && skip_statement s))

-- The loop of `RunScript` sends every statement that is not skipped, each once and in the order of
-- the script, whatever the server answers on the way.
pub run_statements-log :
    (skipping : Bool) (idx : ℕ) (ss : List Text) (res : ScriptResult) (d : Driver)
    → (run_statements skipping idx ss res d).1.log ≡ d.log ++ map bare (runnable skipping ss)
unfolding run_statements exec keep
run_statements-log skipping idx [] res d = sym (append-nil d.log)
run_statements-log skipping idx (s ∷ ss) res d = elim (Bool-cases (skipping && skip_statement s)) [
  | inl p ↦ rw p (run_statements-log skipping (idx + 1) ss _ d)
  | inr p ↦ rw p (run_statements-log skipping (idx + 1) ss _ _ ∙ append_assoc d.log (bare s ∷ []) _)
]
