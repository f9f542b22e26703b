-- ===== src/Transaction/Tests.antt =====
-- Transactions on a small database: a list of the statements done.
use mathlib.Core.Option
use chat_bot.Base.{
  ◌≡◌, ◌⊎◌, refl, sym, ap, ◌∙◌, inl, Bool, true, false, Option, none, some, List, [], ◌∷◌, ◌++◌,
  arith, if◌then◌else◌,
}
use chat_bot.Wire.Reader.{Bytes}
use chat_bot.Text.Utf8.{same_text}
use chat_bot.Transaction.{
  Status, command_ok, other_status, Exec, begin, rollback, commit, is_command_ok, checked, exec_sql,
  run_requests, rolled_back, committed_with, finished, exec_transaction_to_sql,
}
use chat_bot.Transaction.Atomic.{
  IsTransactional, IsClosed, apply_all, exec_transaction_to_sql-atomic,
}

-- What is committed, and what a transaction has on top of it.
abbrev Store : Type 0
Store = List Bytes × Option (List Bytes)

abbrev add : Bytes → List Bytes → List Bytes
add sql done = done ++ sql ∷ []

-- A statement that fails or not.
abbrev stated : Bool → Bytes → List Bytes → List Bytes → Option Status × Store
stated true sql done doing = (some other_status, (done, some doing))
stated false sql done doing = (some command_ok, (done, some (add sql doing)))

-- The statement "!" fails.
abbrev statement : Bytes → Store → Option Status × Store
statement sql (done, none) = (none, (done, none))
statement sql (done, some doing) = stated (same_text sql (33 ∷ [])) sql done doing

abbrev commit_store : Store → Option Status × Store
commit_store (done, none) = (some other_status, (done, none))
commit_store (done, some doing) = (some command_ok, (doing, none))

abbrev exec : Exec Store
exec sql store =
    if same_text sql begin
    then (some command_ok, (store.0, some store.0))
    else if same_text sql rollback
    then (some command_ok, (store.0, none))
    else if same_text sql commit
    then commit_store store
    else statement sql store

abbrev IsStatement : Bytes → Type 0
IsStatement sql =
    (same_text sql begin ≡ false)
    × (same_text sql rollback ≡ false)
    × (same_text sql commit ≡ false)

exec-statement :
    (sql : Bytes) (store : Store) → IsStatement sql → exec sql store ≡ statement sql store
exec-statement sql store (not_begin, not_rollback, not_commit) =
    rw (not_begin, not_rollback, not_commit) refl

stated-works :
    (fails : Bool) (sql : Bytes) (done doing : List Bytes) (status : Status)
    → checked (stated fails sql done doing).0 ≡ some status
    → (stated fails sql done doing).1.1 ≡ some (add sql doing)
unfolding checked
stated-works true sql done doing status passed = absurd (ground (arith, passed))
stated-works false sql done doing status passed = refl

stated-keeps :
    (fails : Bool) (sql : Bytes) (done doing : List Bytes)
    → (stated fails sql done doing).1.0 ≡ done
stated-keeps true sql done doing = refl
stated-keeps false sql done doing = refl

statement-works :
    (sql : Bytes) (store : Store) (doing : List Bytes) (status : Status)
    → store.1 ≡ some doing
    → checked (statement sql store).0 ≡ some status
    → (statement sql store).1.1 ≡ some (add sql doing)
unfolding checked
statement-works sql (done, none) doing status there passed = absurd (ground (arith, there))
statement-works sql (done, some other) doing status there passed =
    stated-works (same_text sql (33 ∷ [])) sql done other status passed
    ∙ ap (λ o. Option.map (add sql) o) there

statement-keeps : (sql : Bytes) (store : Store) → (statement sql store).1.0 ≡ store.0
statement-keeps sql (done, none) = refl
statement-keeps sql (done, some doing) = stated-keeps (same_text sql (33 ∷ [])) sql done doing

commit_store-some :
    (store : Store) (doing : List Bytes) → store.1 ≡ some doing → (commit_store store).1.0 ≡ doing
commit_store-some (done, none) doing there = absurd (ground (arith, there))
commit_store-some (done, some other) doing there =
    ap (λ o. elim o [ none ↦ other | some x ↦ x ]) there

commit_store-none : (store : Store) → (commit_store store).1.1 ≡ none
commit_store-none (done, none) = refl
commit_store-none (done, some doing) = refl

exec-IsTransactional : IsTransactional exec (λ store. store.0) (λ store. store.1) add IsStatement
unfolding same_text is_command_ok
exec-IsTransactional = record {
  begins = λ store idle passed. refl;
  begin_keeps = λ store idle. refl;
  rollback_keeps = λ store. refl;
  works = λ sql store doing status plain there passed. rw (exec-statement sql store plain) (
      statement-works sql store doing status there
        (ap (λ r. checked r.0) (sym (exec-statement sql store plain)) ∙ passed));
  statement_keeps = λ sql store doing plain there.
      rw (exec-statement sql store plain) (statement-keeps sql store);
  commits = λ store doing there passed. commit_store-some store doing there;
  commit_or_not = λ store doing there. inl (commit_store-some store doing there);
  commit_ends = λ store passed. commit_store-none store;
  rollback_ends = λ store passed. refl;
}

-- Two statements, the second of which fails.
abbrev requests : List Bytes
requests = (73 ∷ []) ∷ (33 ∷ []) ∷ []

abbrev idle : Store
idle = ([], none)

exec_transaction_to_sql-atomic_example :
    (((exec_transaction_to_sql exec requests idle).1.0 ≡ apply_all add requests [])
      ⊎ (((exec_transaction_to_sql exec requests idle).0 ≡ none)
          × ((exec_transaction_to_sql exec requests idle).1.0 ≡ [])))
    × IsClosed exec (λ store. store.1) (exec_transaction_to_sql exec requests idle).1
unfolding same_text
exec_transaction_to_sql-atomic_example =
    exec_transaction_to_sql-atomic exec (λ store. store.0) (λ store. store.1) add IsStatement
      exec-IsTransactional requests idle ((refl, refl, refl), ((refl, refl, refl), tt)) refl

failed_transaction : exec_transaction_to_sql exec requests idle ≡ (none, idle)
unfolding exec_transaction_to_sql finished rolled_back run_requests exec_sql checked is_command_ok
    same_text
failed_transaction = refl

done_transaction :
    exec_transaction_to_sql exec ((73 ∷ []) ∷ []) idle ≡ (some command_ok, ((73 ∷ []) ∷ [], none))
unfolding exec_transaction_to_sql finished committed_with run_requests exec_sql checked
    is_command_ok same_text
done_transaction = refl
