-- ===== src/Transaction.antt =====
-- Transactions: Shark_3_0_Qt/src/server/sql_commands/sql_commands.cpp. PQexec of libpq is a parameter.
-- The multimap of requests is the list of its texts, by its keys. What is printed is left out.
pub mod Atomic
mod Tests
use chat_bot.Base.{ℕ, Bool, true, false, Option, none, some, List, [], ◌∷◌, if◌then◌else◌}
use chat_bot.Wire.Reader.{Bytes}

-- PQresultStatus.
pub data Status : Type 0 where
  command_ok tuples_ok other_status : Status

-- PQexec: the status of the result, or nothing for a null pointer, and the database behind it.
abbrev pub Exec : Type 0 → Type 0
Exec D = Bytes → D → Option Status × D

abbrev pub begin : Bytes
begin = 66 ∷ 69 ∷ 71 ∷ 73 ∷ 78 ∷ []

abbrev pub rollback : Bytes
rollback = 82 ∷ 79 ∷ 76 ∷ 76 ∷ 66 ∷ 65 ∷ 67 ∷ 75 ∷ []

abbrev pub commit : Bytes
commit = 67 ∷ 79 ∷ 77 ∷ 77 ∷ 73 ∷ 84 ∷ []

-- Whether the result of a command is there and is PGRES_COMMAND_OK.
unfoldable pub is_command_ok : Option Status → Bool
is_command_ok none = false
is_command_ok (some command_ok) = true
is_command_ok (some tuples_ok) = false
is_command_ok (some other_status) = false

-- execSQL: the status of a result that is not null.
unfoldable pub checked : Option Status → Option Status
checked none = none
checked (some command_ok) = some command_ok
checked (some tuples_ok) = some tuples_ok
checked (some other_status) = none

unfoldable pub exec_sql : {D : Type 0} → Exec D → Bytes → D → Option Status × D
exec_sql exec sql db = let (result, after) = exec sql db in (checked result, after)

-- The loop over the requests: whether it ended without SQLCreateTableException. Its own test of the
-- status never fails behind execSQL.
unfoldable pub run_requests : {D : Type 0} → Exec D → List Bytes → D → Bool × D
run_requests exec [] db = (true, db)
run_requests exec (sql ∷ requests) db =
    let (result, after) = exec_sql exec sql db in
    let later = run_requests exec requests after in
    elim result [ none ↦ (false, after) | some status ↦ later ]

-- The catch clauses.
unfoldable pub rolled_back : {D : Type 0} → Exec D → D → Option Status × D
rolled_back exec db = (none, (exec rollback db).1)

unfoldable pub committed_with : {D : Type 0} → Exec D → D → Option Status × D
committed_with exec db =
    let (result, after) = exec commit db in
    if is_command_ok result then (result, after) else (none, after)

-- What follows the loop: COMMIT, or the catch clause.
unfoldable pub finished : {D : Type 0} → Exec D → Bool × D → Option Status × D
finished exec (true, ran) = committed_with exec ran
finished exec (false, ran) = rolled_back exec ran

-- The status of the result, or nothing for a null pointer.
unfoldable pub exec_transaction_to_sql : {D : Type 0} → Exec D → List Bytes → D → Option Status × D
exec_transaction_to_sql exec requests db =
    let (result, opened) = exec begin db in
    if is_command_ok result
    then finished exec (run_requests exec requests opened)
    else rolled_back exec opened
