-- ===== src/Mysql/Driver/Runs.antt =====
-- The loop of `CreateUser` and `CreateAdminUser` over its statements, with the clean-up statement
-- that follows a failure, and what it leaves in the log.
use flashaccess.Base.{
  ℕ, zero, suc, ◌≢◌, ◌<◌, Text, List, [], ◌∷◌, ◌++◌, Result, ok, err, ◌≡◌, refl, arith, take,
  length, append-nil, append_assoc, ◌∙◌, sym,
}
use flashaccess.Mysql.Driver.{
  Answer, fails, affects, returns, next_answer, later_answers, affected, driver, Driver, Statement,
  DbError, context, Call, exec, exec_only, sent,
}

-- the error of one statement ends the loop in state `undone`; otherwise the loop goes on
abbrev pub or_undo :
    Result DbError ℕ
    → Text
    → Driver
    → Result DbError (Unit {0}) × Driver
    → Result DbError (Unit {0}) × Driver
or_undo (ok _) label undone rest = rest
or_undo (err e) label undone rest = (err (context label e), undone)

-- `for _, s := range stmts { if _, err := Exec(s); err != nil { _, _ = Exec(cleanup); return … } }`
unfoldable pub run_guarded : List Statement → Statement → Text → Call (Unit {0})
unfolding exec
run_guarded [] cleanup label d = (ok tt, d)
run_guarded (s ∷ ss) cleanup label d =
    let after = (exec s d).1 in
    let rest = run_guarded ss cleanup label after in
    or_undo (exec s d).0 label (exec cleanup after).1 rest

-- the server accepts the first `n` of what it is sent
abbrev pub Accepts : ℕ → List Answer → Type 0
Accepts zero answers = Unit {0}
Accepts (suc n) answers =
    ((x : Text) → next_answer answers ≢ fails x) × Accepts n (later_answers answers)

-- it accepts the first `n`, and refuses the next with the error `x`
abbrev pub Refuses : ℕ → Text → List Answer → Type 0
Refuses zero x answers = next_answer answers ≡ fails x
Refuses (suc n) x answers =
    ((y : Text) → next_answer answers ≢ fails y) × Refuses n x (later_answers answers)

-- How the loop ends, by the answers of the server: it accepts all statements, and no more is sent; or
-- it refuses one of them, which is the last but for the clean-up, and its error is returned.
pub data Ran (ss : List Statement) (cleanup : Statement) (label : Text) (d : Driver)
    : Result DbError (Unit {0}) × Driver → Type 0 where
  all_sent :
      {r : Result DbError (Unit {0})} {d' : Driver}
      → r ≡ ok tt
      → Accepts (length ss) d.answers
      → d'.log ≡ d.log ++ ss
      → Ran ss cleanup label d (r, d')
  undone :
      {r : Result DbError (Unit {0})} {d' : Driver} (x : Text) (n : ℕ)
      → r ≡ err (context label (driver x))
      → Refuses n x d.answers
      → n < length ss
      → d'.log ≡ d.log ++ (take (suc n) ss ++ cleanup ∷ [])
      → Ran ss cleanup label d (r, d')

Ran-cons :
    (s : Statement) (ss : List Statement) (cleanup : Statement) (label : Text) (d : Driver)
    (out : Result DbError (Unit {0}) × Driver)
    → ((x : Text) → next_answer d.answers ≢ fails x)
    → Ran ss cleanup label (sent s d) out
    → Ran (s ∷ ss) cleanup label d out
Ran-cons s ss cleanup label d _ fine (all_sent p a q) =
    all_sent p (fine, a) (q ∙ append_assoc d.log (s ∷ []) ss)
Ran-cons s ss cleanup label d _ fine (undone x n p a lt q) =
    undone x (suc n) p (fine, a) (omega arith)
      (q ∙ append_assoc d.log (s ∷ []) (take (suc n) ss ++ cleanup ∷ []))

run_guarded-cons :
    (a : Answer) (s : Statement) (ss : List Statement) (cleanup : Statement) (label : Text)
    (d : Driver) (rest : Result DbError (Unit {0}) × Driver)
    → next_answer d.answers ≡ a
    → Ran ss cleanup label (sent s d) rest
    → Ran (s ∷ ss) cleanup label d (or_undo (affected a) label (sent cleanup (sent s d)) rest)
run_guarded-cons (affects n) s ss cleanup label d rest e h =
    Ran-cons s ss cleanup label d rest (λ x f. absurd (cc (e, f))) h
run_guarded-cons (returns cs rs f) s ss cleanup label d rest e h =
    Ran-cons s ss cleanup label d rest (λ x g. absurd (cc (e, g))) h
run_guarded-cons (fails x) s ss cleanup label d rest e h =
    undone x 0 refl e (omega arith) (append_assoc d.log (s ∷ []) (cleanup ∷ []))

pub run_guarded-Ran :
    (ss : List Statement) (cleanup : Statement) (label : Text) (d : Driver)
    → Ran ss cleanup label d (run_guarded ss cleanup label d)
unfolding run_guarded exec
run_guarded-Ran [] cleanup label d = all_sent refl tt (sym (append-nil d.log))
run_guarded-Ran (s ∷ ss) cleanup label d =
    run_guarded-cons (next_answer d.answers) s ss cleanup label d _ refl
      (run_guarded-Ran ss cleanup label (sent s d))

-- A call that returns only an error has sent its statement.
pub exec_only-sent : (q : Statement) (d : Driver) → (exec_only q d).1 ≡ sent q d
unfolding exec_only
exec_only-sent q d = refl
