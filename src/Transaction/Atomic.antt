-- ===== src/Transaction/Atomic.antt =====
-- A transaction of Shark_3_0_Qt/src/server/sql_commands/sql_commands.cpp is done as a whole or not at all.
use chat_bot.Base.{
  ◌≡◌, ◌⊎◌, refl, sym, ap, subst, ◌∙◌, inl, inr, Bool, true, false, Option, none, some, List, [],
  ◌∷◌, All, arith, Bool-cases, Option-cases,
}
use chat_bot.Wire.Reader.{Bytes}
use chat_bot.Transaction.{
  Status, Exec, begin, rollback, commit, is_command_ok, checked, exec_sql, run_requests,
  rolled_back, committed_with, finished, exec_transaction_to_sql,
}

-- What the documentation of PostgreSQL promises of a connection while no other one changes the
-- data: BEGIN outside a transaction opens one on the data committed; a statement in a transaction
-- leaves those alone and, if it ends well, changes the data of the transaction; COMMIT, if it ends
-- well, commits these, and else commits them or not at all; ROLLBACK commits nothing; and the
-- transaction is over where COMMIT or ROLLBACK ends well.
pub record IsTransactional {D C : Type 0} (exec : Exec D) (committed : D → C)
    (working : D → Option C) (apply : Bytes → C → C) (IsStatement : Bytes → Type 0) : Type 0 where
  pub begins :
      (db : D)
      → working db ≡ none
      → is_command_ok (exec begin db).0 ≡ true
      → working (exec begin db).1 ≡ some (committed db)
  pub begin_keeps : (db : D) → working db ≡ none → committed (exec begin db).1 ≡ committed db
  pub works :
      (sql : Bytes) (db : D) (content : C) (status : Status)
      → IsStatement sql
      → working db ≡ some content
      → checked (exec sql db).0 ≡ some status
      → working (exec sql db).1 ≡ some (apply sql content)
  pub statement_keeps :
      (sql : Bytes) (db : D) (content : C)
      → IsStatement sql
      → working db ≡ some content
      → committed (exec sql db).1 ≡ committed db
  pub commits :
      (db : D) (content : C)
      → working db ≡ some content
      → is_command_ok (exec commit db).0 ≡ true
      → committed (exec commit db).1 ≡ content
  pub commit_or_not :
      (db : D) (content : C)
      → working db ≡ some content
      → (committed (exec commit db).1 ≡ content) ⊎ (committed (exec commit db).1 ≡ committed db)
  pub rollback_keeps : (db : D) → committed (exec rollback db).1 ≡ committed db
  pub commit_ends :
      (db : D) → is_command_ok (exec commit db).0 ≡ true → working (exec commit db).1 ≡ none
  pub rollback_ends :
      (db : D) → is_command_ok (exec rollback db).0 ≡ true → working (exec rollback db).1 ≡ none

-- The transaction is over, or the database has just refused the COMMIT or ROLLBACK to end it.
abbrev pub IsClosed : {D C : Type 0} → Exec D → (D → Option C) → D → Type 0
IsClosed {D} exec working after =
    (working after ≡ none)
    ⊎ ((command : Bytes) × (before : D) × ((command ≡ commit) ⊎ (command ≡ rollback))
        × (is_command_ok (exec command before).0 ≡ false)
        × (after ≡ (exec command before).1))

-- The requests one after the other.
abbrev pub apply_all : {C : Type 0} → (Bytes → C → C) → List Bytes → C → C
apply_all apply [] content = content
apply_all apply (sql ∷ requests) content = apply_all apply requests (apply sql content)

module _ {D C : Type 0} (exec : Exec D) (committed : D → C) (working : D → Option C)
    (apply : Bytes → C → C) (IsStatement : Bytes → Type 0) where
  run_requests-keeps :
      (law : IsTransactional exec committed working apply IsStatement) (requests : List Bytes)
      (db : D) (content : C)
      → All IsStatement requests
      → working db ≡ some content
      → committed (run_requests exec requests db).1 ≡ committed db
  unfolding run_requests exec_sql
  run_requests-keeps law [] db content plain there = refl
  run_requests-keeps law (sql ∷ requests) db content plain there =
      elim (Option-cases (checked (exec sql db).0)) [
        | inl failed ↦ rw (failed, run_requests) (law.statement_keeps sql db content plain.0 there)
        | inr (status, passed) ↦
            rw (passed, run_requests)
              (run_requests-keeps law requests (exec sql db).1 (apply sql content) plain.1
                  (law.works sql db content status plain.0 there passed)
                ∙ law.statement_keeps sql db content plain.0 there)
      ]

  run_requests-works :
      (law : IsTransactional exec committed working apply IsStatement) (requests : List Bytes)
      (db : D) (content : C)
      → All IsStatement requests
      → working db ≡ some content
      → (run_requests exec requests db).0 ≡ true
      → working (run_requests exec requests db).1 ≡ some (apply_all apply requests content)
  unfolding run_requests exec_sql
  run_requests-works law [] db content plain there all = there
  run_requests-works law (sql ∷ requests) db content plain there all =
      elim (Option-cases (checked (exec sql db).0)) [
        | inl failed ↦ absurd (ground (arith, stopped sql requests db failed, all))
        | inr (status, passed) ↦ rw (went_on sql requests db status passed) (
            run_requests-works law requests (exec sql db).1 (apply sql content) plain.1
              (law.works sql db content status plain.0 there passed)
              (sym (ap (λ r. r.0) (went_on sql requests db status passed)) ∙ all))
      ]
    where
      stopped :
          (sql : Bytes) (requests : List Bytes) (db : D)
          → checked (exec sql db).0 ≡ none
          → (run_requests exec (sql ∷ requests) db).0 ≡ false
      stopped sql requests db failed = rw (failed, run_requests) refl

      went_on :
          (sql : Bytes) (requests : List Bytes) (db : D) (status : Status)
          → checked (exec sql db).0 ≡ some status
          → run_requests exec (sql ∷ requests) db ≡ run_requests exec requests (exec sql db).1
      went_on sql requests db status passed = rw (passed, run_requests) refl

  -- How a transaction ends, from the data committed before it to those that its requests make.
  abbrev IsWholeOrNothing : C → C → Option Status × D → Type 0
  IsWholeOrNothing old new ended =
      ((committed ended.1 ≡ new) ⊎ ((ended.0 ≡ none) × (committed ended.1 ≡ old)))
      × IsClosed exec working ended.1

  rolled_back-whole :
      (law : IsTransactional exec committed working apply IsStatement) (old new : C) (db : D)
      → committed db ≡ old
      → IsWholeOrNothing old new (rolled_back exec db)
  unfolding rolled_back
  rolled_back-whole law old new db kept = (
    inr (refl, law.rollback_keeps db ∙ kept),
    elim (Bool-cases (is_command_ok (exec rollback db).0)) [
      | inl passed ↦ inl (law.rollback_ends db passed)
      | inr failed ↦ inr (rollback, db, inr refl, failed, refl)
    ],
  )

  committed_with-whole :
      (law : IsTransactional exec committed working apply IsStatement) (db : D) (content : C)
      → working db ≡ some content
      → IsWholeOrNothing (committed db) content (committed_with exec db)
  unfolding committed_with
  committed_with-whole law db content there = elim (Bool-cases (is_command_ok (exec commit db).0)) [
    | inl passed ↦
        rw (passed, committed_with)
          (inl (law.commits db content there passed), inl (law.commit_ends db passed))
    | inr failed ↦
        rw (failed, committed_with)
          (
            elim (law.commit_or_not db content there) [
              | inl whole ↦ inl whole
              | inr nothing ↦ inr (refl, nothing)
            ],
            inr (commit, db, inl refl, failed, refl),
          )
  ]

  finished-whole :
      (law : IsTransactional exec committed working apply IsStatement) (old new : C)
      (ran : Bool × D)
      → committed ran.1 ≡ old
      → ((ran.0 ≡ true) × (working ran.1 ≡ some new)) ⊎ (ran.0 ≡ false)
      → IsWholeOrNothing old new (finished exec ran)
  unfolding finished
  finished-whole law old new (true, db) kept (inl (all, there)) =
      subst (λ o. IsWholeOrNothing o new (committed_with exec db)) kept
        (committed_with-whole law db new there)
  finished-whole law old new (true, db) kept (inr stopped) = absurd (ground (arith, stopped))
  finished-whole law old new (false, db) kept ran = rolled_back-whole law old new db kept

  -- On a connection that keeps the promises of PostgreSQL and has no transaction open, behind
  -- execTransactionToSQL of statements either the data committed are those that all of them make,
  -- one after the other, or the result is a null pointer and the data are those of before. And no
  -- transaction is left open, unless the database refuses the last command, a COMMIT or ROLLBACK.
  pub exec_transaction_to_sql-atomic :
      (law : IsTransactional exec committed working apply IsStatement) (requests : List Bytes)
      (db : D)
      → All IsStatement requests
      → working db ≡ none
      → ((committed (exec_transaction_to_sql exec requests db).1
            ≡ apply_all apply requests (committed db))
          ⊎ (((exec_transaction_to_sql exec requests db).0 ≡ none)
              × (committed (exec_transaction_to_sql exec requests db).1 ≡ committed db)))
        × IsClosed exec working (exec_transaction_to_sql exec requests db).1
  unfolding exec_transaction_to_sql
  exec_transaction_to_sql-atomic law requests db plain idle =
      let opened = (exec begin db).1 in
      let ran = run_requests exec requests opened in
      elim (Bool-cases (is_command_ok (exec begin db).0)) [
        | inl passed ↦
            let there = law.begins db idle passed in
            rw (passed, exec_transaction_to_sql)
              (finished-whole law (committed db) (apply_all apply requests (committed db)) ran
                (run_requests-keeps law requests opened (committed db) plain there
                  ∙ law.begin_keeps db idle)
                (elim (Bool-cases ran.0) [
                  | inl all ↦
                      inl
                        (all, run_requests-works law requests opened (committed db) plain there all)
                  | inr stopped ↦ inr stopped
                ]))
        | inr refused ↦
            rw (refused, exec_transaction_to_sql)
              (rolled_back-whole law (committed db) (apply_all apply requests (committed db)) opened
                (law.begin_keeps db idle))
      ]
