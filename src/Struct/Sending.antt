-- ===== src/Struct/Sending.antt =====
-- `SendTableData` of `CTableObject` in src/struct/TableObject.cc: a table's bytes sent at a rate.
-- What `finishtoCreateTableNum`, its last call, does is in Struct/Schedule.
pub mod Limit
use litealigndata.Prelude.{
  ℕ, ◌+◌, ◌-◌, ◌*◌, ◌/◌, ◌^◌, Bool, List, [], ◌∷◌, ◌++◌, ltb, leb, ◌==◌, if◌then◌else◌, take, drop,
  length, min, u64,
}

-- `SEND_BIT_RATE` of src/com/Comm.h, in bytes per microsecond.
abbrev pub send_bit_rate : ℕ
send_bit_rate = 1 * 1024 * 1024 / 1000000

-- What has been sent: the counter, the bytes `ptr` still points to, and the bytes that were
-- handed to `bufferevent_write`, which queues them for the peer.
pub record Sending : Type 0 where
  pub bytes_sent : ℕ
  pub ptr : List ℕ
  pub written : List ℕ

-- One turn of the loop, `time_elapsed` microseconds after its start, where `accepted` says whether
-- `bufferevent_write` succeeds. With nothing to send yet, and after a failure, it turns again.
unfoldable pub send_once : ℕ → ℕ → Bool → Sending → Sending
send_once total_len time_elapsed accepted s =
    let bytes_can_send = u64 (u64 (send_bit_rate * time_elapsed) + (2 ^ 64 - s.bytes_sent)) in
    let to_send = min bytes_can_send (total_len - s.bytes_sent) in
    if bytes_can_send == 0
    then s
    else if accepted
    then record {
      bytes_sent = u64 (s.bytes_sent + to_send);
      ptr = drop to_send s.ptr;
      written = s.written ++ take to_send s.ptr;
    }
    else s

-- The loop over the turns that the clock and the connection give.
unfoldable pub send_loop : ℕ → List (ℕ × Bool) → Sending → Sending
send_loop total_len [] s = s
send_loop total_len ((time_elapsed, accepted) ∷ turns) s =
    if ltb s.bytes_sent total_len
    then send_loop total_len turns (send_once total_len time_elapsed accepted s)
    else s

unfoldable pub send_table_data : List ℕ → List (ℕ × Bool) → Sending
send_table_data bytes turns =
    send_loop (length bytes) turns (record { bytes_sent = 0; ptr = bytes; written = [] })
