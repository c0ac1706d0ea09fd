-- ===== src/Struct/Schedule.antt =====
-- The order in which the tables of an interface are produced: `checkStatus` and
-- `finishtoCreateTableNum` of src/struct/TableObject.h, `notifyAlldepenedTable` of
-- src/struct/TableObject.cc, and `StartProduceData` of src/struct/AlignDataObject.cc. In stream mode
-- the sends are taken to end.
pub mod Progress
pub mod Produced
pub mod Order
pub mod Plan
pub mod Kept
pub mod Notify
pub mod Works
pub mod Ending
pub mod Between
mod Examples
use litealigndata.Prelude.{
  ℕ, zero, suc, ◌+◌, ◌*◌, Bool, true, false, Option, none, some, List, [], ◌∷◌, ltb, leb, ◌==◌,
  if◌then◌else◌, ◌>>=◌, u8, u32, u64,
}

pub data TableStatus : Type 0 where
  not_ready ready done : TableStatus

-- What does not change while tables are produced; a table is a number. `get_stream` is the mode, and
-- `produced_row_data` says whether a row of a file of a table can be produced by its columns.
pub record Tables : Type 0 where
  pub get_stream : Bool
  pub dep_tables : ℕ → List ℕ
  pub be_depended : ℕ → List ℕ
  pub parent : ℕ → ℕ
  pub rownum : ℕ → ℕ
  pub to_create : ℕ → ℕ
  pub table_id : ℕ → ℕ
  pub header_id : ℕ → ℕ
  pub interval : ℕ → ℕ
  pub produced_row_data : ℕ → ℕ → ℕ → Bool

-- The fields of the tables that change, and the interface's list of finished tables. The position
-- of the next row is left out: it is the number of filled rows times the size of a row.
pub record World : Type 0 where
  pub status : ℕ → TableStatus
  pub created : ℕ → ℕ
  pub filled : ℕ → ℕ
  pub initial_time : ℕ → ℕ
  pub full : ℕ → Bool

-- A field of one table, or one entry of the list, assigned.
abbrev pub put {ℓ} : {A : Type ℓ} → (ℕ → A) → ℕ → A → ℕ → A
put f t v k = if k == t then v else f k

abbrev pub is_done : TableStatus → Bool
is_done TableStatus.done = true
is_done _ = false

-- The loop of `checkStatus` over the tables that a table depends on; none is the first case there.
unfoldable pub all_done : World → List ℕ → Bool
all_done w [] = true
all_done w (d ∷ rest) = if is_done (w.status d) then all_done w rest else false

unfoldable pub made_ready : TableStatus → TableStatus
made_ready TableStatus.not_ready = TableStatus.ready
made_ready TableStatus.ready = TableStatus.ready
made_ready TableStatus.done = TableStatus.done

unfoldable pub check_status : Tables → ℕ → World → World
check_status ts t w =
    if all_done w (ts.dep_tables t)
    then record w { status = put w.status t (made_ready (w.status t)) }
    else record w { status = put w.status t TableStatus.not_ready }

-- The loop of `createTableData` and `streamTableData` over the rows, `left` of them from `row` on.
unfoldable pub fill_rows : Tables → ℕ → ℕ → ℕ → World → Bool × World
fill_rows ts t zero row w = (true, w)
fill_rows ts t (suc left) row w =
    let next = record w { filled = put w.filled t (u32 (w.filled t + 1)) } in
    if ts.produced_row_data t (w.created t) row
    then fill_rows ts t left (suc row) next
    else (false, w)

-- `m_bfullTable` has 255 entries: the number 255 is outside.
unfoldable pub set_table_finished : ℕ → World → Option World
set_table_finished id w = if ltb id 255 then some (record w { full = put w.full id true }) else none

unfoldable pub finish_to_create_table_num : Tables → ℕ → World → Option World
finish_to_create_table_num ts t w =
    let next = record w { created = put w.created t (u32 (w.created t + 1)) } in
    if leb (ts.to_create t) (u32 (w.created t + 1))
    then set_table_finished (u8 (ts.table_id t)) next
    else some next

-- `if ( !... ) return false;`, before what goes on; `none` is an access out of bounds, or no fuel.
unfoldable pub and_then :
    Option (Bool × World) → (World → Option (Bool × World)) → Option (Bool × World)
and_then none k = none
and_then (some (true, w)) k = k w
and_then (some (false, w)) k = some (false, w)

-- `m_InitialTime += m_interval * 60`.
unfoldable pub start_next : Tables → ℕ → World → World
start_next ts t v = record v {
  initial_time = put v.initial_time t (u64 (v.initial_time t + ts.interval t * 60));
}

unfoldable pub create_table_data : Tables → ℕ → World → Option (Bool × World)
create_table_data ts t w =
    and_then (some (fill_rows ts t (ts.rownum t) 0 w))
      λ v. finish_to_create_table_num ts t (start_next ts t v) >>= λ u. some (true, u)

-- `TableGeneratedStreamData` ends with `SendTableData`, whose last call counts the file already.
unfoldable pub send_and_finish : Tables → ℕ → World → Option World
send_and_finish ts t v = finish_to_create_table_num ts t v >>= λ sent.
    finish_to_create_table_num ts t (start_next ts t sent)

unfoldable pub stream_table_data : Tables → ℕ → World → Option (Bool × World)
stream_table_data ts t w =
    and_then (some (fill_rows ts t (ts.rownum t) 0 w))
      λ v. send_and_finish ts t v >>= λ u. some (true, u)

-- The first half of `notifyAlldepenedTable`: a table that is ready is produced and is done.
unfoldable pub produce_ready : Tables → ℕ → TableStatus → World → Option (Bool × World)
produce_ready ts t TableStatus.ready w =
    and_then (if ts.get_stream then stream_table_data ts t w else create_table_data ts t w)
      λ v. some (true, record v { status = put v.status t TableStatus.done })
produce_ready ts t TableStatus.not_ready w = some (true, w)
produce_ready ts t TableStatus.done w = some (true, w)

-- The loop over the tables that depend on `t`, which leaves out those of other interfaces.
unfoldable pub notify_each :
    Tables → ℕ → (ℕ → World → Option (Bool × World)) → List ℕ → World → Option (Bool × World)
notify_each ts t notify_one [] w = some (true, w)
notify_each ts t notify_one (d ∷ rest) w =
    if ts.parent d == ts.parent t
    then and_then (notify_one d w) (notify_each ts t notify_one rest)
    else notify_each ts t notify_one rest w

-- `notifyAlldepenedTable`; it calls itself along the dependencies, at most `fuel` deep.
unfoldable pub notify_all_depended : Tables → ℕ → ℕ → World → Option (Bool × World)
notify_all_depended ts zero t w = none
notify_all_depended ts (suc fuel) t w =
    let checked = check_status ts t w in
    and_then (produce_ready ts t (checked.status t) checked) λ v.
      if is_done (v.status t)
      then notify_each ts t (notify_all_depended ts fuel) (ts.be_depended t) v
      else some (true, v)

-- A round of `StartProduceData`: every table that still has files to create is notified.
unfoldable pub sweep : Tables → ℕ → List ℕ → World → Option (Bool × World)
sweep ts fuel [] w = some (true, w)
sweep ts fuel (t ∷ rest) w =
    if ltb (w.created t) (ts.to_create t)
    then and_then (notify_all_depended ts fuel t w) (sweep ts fuel rest)
    else sweep ts fuel rest w

-- The end of a round.
unfoldable pub reset_tables : List ℕ → World → World
reset_tables [] w = w
reset_tables (t ∷ rest) w =
    reset_tables rest
      (record w { status = put w.status t TableStatus.not_ready; filled = put w.filled t 0 })

unfoldable pub check_all_the_table_full : Tables → List ℕ → World → Option Bool
check_all_the_table_full ts [] w = some true
check_all_the_table_full ts (t ∷ rest) w =
    if ltb (ts.table_id t) 255
    then if w.full (ts.table_id t) then check_all_the_table_full ts rest w else some false
    else none

-- The rounds, at most `rounds` of them.
unfoldable pub produce_rounds : Tables → ℕ → ℕ → List ℕ → World → Option (Bool × World)
produce_rounds ts zero fuel tables w =
    check_all_the_table_full ts tables w >>= λ full. if full then some (true, w) else none
produce_rounds ts (suc rounds) fuel tables w = check_all_the_table_full ts tables w >>= λ full.
    if full
    then some (true, w)
    else and_then (sweep ts fuel tables w)
        λ v. produce_rounds ts rounds fuel tables (reset_tables tables v)

-- The last loop, whose body clears the entry of the table that the loops before ended with, by the
-- number in its header.
unfoldable pub clear_full : Tables → List ℕ → World → Option (Bool × World)
clear_full ts [] w = some (true, w)
clear_full ts (t ∷ []) w =
    if ltb (ts.header_id t) 255
    then some (true, record w { full = put w.full (ts.header_id t) false })
    else none
clear_full ts (t ∷ u ∷ rest) w = clear_full ts (u ∷ rest) w

-- `StartProduceData` for the tables of the interface, in the order of their map, behind the copies
-- of the seed files.
unfoldable pub start_produce_data : Tables → ℕ → ℕ → List ℕ → World → Option (Bool × World)
start_produce_data ts rounds fuel tables w =
    and_then (produce_rounds ts rounds fuel tables w) (clear_full ts tables)
