-- ===== src/Store/Outbox.antt =====
-- The two outbox tables: internal/infra/database/repository/product_events_outbox.go and
-- cache_update_outbox.go. The statements of both are the same but for the table and the column
-- that records are grouped by, so they are written once over an entry's body.
pub mod ProductEvents
pub mod CacheUpdates
pub mod Pending
pub mod Texts
pub mod Sorting
pub mod Ordered
use marketplace_simulator_pr.Common.{
  ℕ, ◌+◌, ◌≡◌, Bool, true, false, ◌&&◌, ◌||◌, not, Option, none, some, List, [], ◌∷◌, ◌++◌, map,
  ltb, leb, ◌==◌, ◌^◌, if◌then◌else◌, select, contains, take, length,
}
use marketplace_simulator_pr.Errors.{Error, Message, Result, ok, err, plain, lit}
use marketplace_simulator_pr.Models.{NewEvent, Entry, EventRecord, CacheUpdateRecord}
use marketplace_simulator_pr.Store.World.{
  Tables, World, Platform, M, ◌>>=◌, pure, fail, wrapped, query, exec,
}

-- The order of the keys: of texts by bytes.
unfoldable pub leb_text : List ℕ → List ℕ → Bool
leb_text [] ys = true
leb_text (x ∷ xs) [] = false
leb_text (x ∷ xs) (y ∷ ys) = ltb x y || (x == y && leb_text xs ys)

unfoldable pub eq_text : List ℕ → List ℕ → Bool
eq_text [] [] = true
eq_text [] (y ∷ ys) = false
eq_text (x ∷ xs) [] = false
eq_text (x ∷ xs) (y ∷ ys) = x == y && eq_text xs ys

module _ {A : Type 0} (same earlier : A → A → Bool) where
  -- `ORDER BY key, created_at`
  unfoldable pub comes_first : Entry A → Entry A → Bool
  comes_first a b =
      if same a.body b.body then leb a.created_at b.created_at else earlier a.body b.body

  unfoldable pub insert_sorted : Entry A → List (Entry A) → List (Entry A)
  insert_sorted e [] = e ∷ []
  insert_sorted e (x ∷ xs) = if comes_first e x then e ∷ x ∷ xs else x ∷ insert_sorted e xs

  unfoldable pub sorted : List (Entry A) → List (Entry A)
  sorted [] = []
  sorted (e ∷ es) = insert_sorted e (sorted es)

  -- `DISTINCT ON (key)`: the first row of each run of rows with one key.
  unfoldable pub first_of_key : Option (Entry A) → List (Entry A) → List (Entry A)
  first_of_key last [] = []
  first_of_key none (e ∷ es) = e ∷ first_of_key (some e) es
  first_of_key (some x) (e ∷ es) =
      let rest = e ∷ first_of_key (some e) es in
      let skip = first_of_key (some x) es in if same x.body e.body then skip else rest

  -- The rows of the query of `GetPending`.
  unfoldable pub pending : ℕ → List (Entry A) → List (Entry A)
  unfolding sorted insert_sorted comes_first first_of_key
  pending limit es = take limit (first_of_key none (sorted (select (λ e. not e.is_dead_letter) es)))

-- The count after one more try, in a column of type INTEGER.
abbrev pub next_count : ℕ → ℕ
next_count n = if ltb (n + 1) (2 ^ 31) then n + 1 else n

-- The count of the record fits its column after one more try.
abbrev pub can_retry : {A : Type 0} → ℕ → List (Entry A) → Bool
can_retry id [] = true
can_retry id (e ∷ es) =
    if e.record_id == id then ltb (e.retry_count + 1) (2 ^ 31) else can_retry id es

-- The statement's error where it does not.
abbrev pub check_integer : Bool → M (Unit {0})
check_integer fits w = (if fits then ok tt else err (plain (lit "integer out of range" ∷ [])), w)

module _ {A : Type 0} where
  -- `DELETE … WHERE record_id = ANY($1)`
  unfoldable pub deleted : List ℕ → List (Entry A) → List (Entry A)
  deleted ids es = select (λ e. not (contains e.record_id ids)) es

  -- `SET retry_count = retry_count + 1 WHERE record_id = $1`. One row at most has the id; where its
  -- new count does not fit the column, the statement changes nothing.
  unfoldable pub retried : ℕ → List (Entry A) → List (Entry A)
  retried id [] = []
  retried id (e ∷ es) =
      (if e.record_id == id then record e { retry_count = next_count e.retry_count } else e)
      ∷ retried id es

  -- `SET is_dead_letter = TRUE, … WHERE record_id = $1`
  unfoldable pub buried : ℕ → ℕ → Message → List (Entry A) → List (Entry A)
  buried now id reason [] = []
  buried now id reason (e ∷ es) =
      (if e.record_id == id
        then (record e {
          is_dead_letter = true;
          marked_as_dead_letter_at = some now;
          dead_letter_reason = some reason;
        })
        else e)
      ∷ buried now id reason es

  -- The row that an INSERT makes, with the defaults of the migration.
  abbrev pub new_entry : Platform → ℕ → ℕ → A → Entry A
  new_entry p now drawn body = record {
    record_id = p.uuid drawn;
    body = body;
    created_at = now;
    retry_count = 0;
    is_dead_letter = false;
    marked_as_dead_letter_at = none;
    dead_letter_reason = none;
  }

-- `return records, rows.Err()`: rows that end early are an error here.
abbrev pub complete {ℓ} : {A : Type ℓ} → List A × Option Message → M (List A)
complete (rows, none) = pure rows
complete (rows, some m) = fail (plain m)
