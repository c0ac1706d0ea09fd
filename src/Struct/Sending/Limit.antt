-- ===== src/Struct/Sending/Limit.antt =====
-- What of a table is handed to `bufferevent_write`, and how fast.
use litealigndata.Prelude.{
  ℕ, zero, suc, ◌+◌, ◌-◌, ◌*◌, ◌^◌, ◌≤◌, ◌<◌, ◌≡◌, refl, sym, ap, ◌∙◌, arith, Bool, true, false,
  Bool-cases, inl, inr, ◌⊎◌, ◌&&◌, ◌||◌, List, [], ◌∷◌, ◌++◌, ltb, leb, ◌==◌, take, drop, length,
  min, u64,
}
use litealigndata.Struct.Sending.{Sending, send_once, send_loop, send_table_data, send_bit_rate}

suc_plus : (m n : ℕ) → suc m + n ≡ suc (m + n)
suc_plus m n = omega arith

take-drop : (m n : ℕ) (xs : List ℕ) → take m xs ++ take n (drop m xs) ≡ take (m + n) xs
take-drop zero n xs = rw (zero_plus n) refl
  where
    zero_plus : (n : ℕ) → 0 + n ≡ n
    zero_plus n = omega arith
take-drop (suc m) n [] = rw (suc_plus m n) (no_rest n)
  where
    no_rest : (n : ℕ) → take {A = ℕ} n [] ≡ []
    no_rest zero = refl
    no_rest (suc n) = refl
take-drop (suc m) n (x ∷ xs) = rw (suc_plus m n) (ap (λ l. x ∷ l) (take-drop m n xs))

drop-drop : (m n : ℕ) (xs : List ℕ) → drop n (drop m xs) ≡ drop (m + n) xs
drop-drop zero n xs = rw (zero_plus n) refl
  where
    zero_plus : (n : ℕ) → 0 + n ≡ n
    zero_plus n = omega arith
drop-drop (suc m) n [] = rw (suc_plus m n) (no_rest n)
  where
    no_rest : (n : ℕ) → drop {A = ℕ} n [] ≡ []
    no_rest zero = refl
    no_rest (suc n) = refl
drop-drop (suc m) n (x ∷ xs) = rw (suc_plus m n) (drop-drop m n xs)

-- The turns come in the order of the clock, from `earliest` on.
pub data InOrder : ℕ → List (ℕ × Bool) → Type 0 where
  none_left : {t : ℕ} → InOrder t []
  next_turn :
      {t time_elapsed : ℕ} {accepted : Bool} {turns : List (ℕ × Bool)}
      → t ≤ time_elapsed
      → time_elapsed < 2 ^ 63
      → InOrder time_elapsed turns
      → InOrder t ((time_elapsed, accepted) ∷ turns)

-- The time of the last turn, and whether a write succeeds late enough for `n` bytes.
pub last_time : ℕ → List (ℕ × Bool) → ℕ
last_time t [] = t
last_time t ((time_elapsed, accepted) ∷ turns) = last_time time_elapsed turns

pub delivers : ℕ → List (ℕ × Bool) → Bool
delivers n [] = false
delivers n ((time_elapsed, accepted) ∷ turns) =
    (accepted && leb n (send_bit_rate * time_elapsed)) || delivers n turns

delivers_cases :
    (n time_elapsed : ℕ) (accepted : Bool) (turns : List (ℕ × Bool))
    → delivers n ((time_elapsed, accepted) ∷ turns) ≡ true
    → ((accepted ≡ true) × (n ≤ send_bit_rate * time_elapsed)) ⊎ (delivers n turns ≡ true)
unfolding delivers
delivers_cases n time_elapsed true turns d =
    elim (Bool-cases (leb n (send_bit_rate * time_elapsed))) [
      | inl e ↦ inl (refl, ground arith)
      | inr e ↦ inr (ground arith)
    ]
delivers_cases n time_elapsed false turns d = inr d

-- The state of the loop at a time: a prefix is sent, the pointer stands behind it, and it is no
-- longer than the rate allows.
record IsSending (all : List ℕ) (t : ℕ) (s : Sending) : Type 0 where
  left : s.ptr ≡ drop s.bytes_sent all
  given : s.written ≡ take s.bytes_sent all
  in_range : s.bytes_sent ≤ length all
  in_time : s.bytes_sent ≤ send_bit_rate * t

send_bytes :
    (all : List ℕ) (t n sum : ℕ) (s : Sending)
    → IsSending all t s
    → sum ≡ s.bytes_sent + n
    → sum ≤ length all
    → sum ≤ send_bit_rate * t
    → IsSending all t
        (record { bytes_sent = sum; ptr = drop n s.ptr; written = s.written ++ take n s.ptr })
send_bytes all t n sum s ok e inside timely = record {
  left = ap (λ p. drop n p) ok.left ∙ (drop-drop s.bytes_sent n all ∙ ap (λ k. drop k all) (sym e));
  given = rw (ok.given, ok.left) (take-drop s.bytes_sent n all ∙ ap (λ k. take k all) (sym e));
  in_range = inside;
  in_time = timely;
}

module _ (all : List ℕ) (fits : length all < 2 ^ 63) where
  can_send :
      (t sent : ℕ)
      → t < 2 ^ 63
      → sent ≤ send_bit_rate * t
      → sent < 2 ^ 63
      → u64 (u64 (send_bit_rate * t) + (2 ^ 64 - sent)) ≡ t - sent
  can_send t sent h before small = omega arith

  later : {t t' : ℕ} {s : Sending} → t ≤ t' → IsSending all t s → IsSending all t' s
  later h ok = record {
    left = ok.left;
    given = ok.given;
    in_range = ok.in_range;
    in_time = omega (arith, ok.in_time);
  }

  send_once-IsSending :
      (t : ℕ) (accepted : Bool) (s : Sending)
      → t < 2 ^ 63
      → IsSending all t s
      → IsSending all t (send_once (length all) t accepted s)
        × (accepted ≡ true
            → length all ≤ send_bit_rate * t
            → (send_once (length all) t accepted s).bytes_sent ≡ length all)
  unfolding send_once
  send_once-IsSending t accepted s h ok =
      let can = can_send t s.bytes_sent h ok.in_time (omega (arith, ok.in_range)) in
      let n = min (t - s.bytes_sent) (length all - s.bytes_sent) in
      elim (Bool-cases (t - s.bytes_sent == 0)) [
        | inl e ↦ rw (can, e) (ok, λ a all_due. ground (arith, ok.in_time, ok.in_range))
        | inr e ↦ elim (Bool-cases accepted) [
          | inl a ↦
              rw (can, e, a)
                (
                  send_bytes all t n _ s ok (omega (arith, ok.in_time, ok.in_range))
                      (omega (arith, ok.in_time, ok.in_range))
                      (omega (arith, ok.in_time, ok.in_range)),
                  λ _ all_due. omega (arith, ok.in_time, ok.in_range),
                )
          | inr a ↦ rw (can, e, a) (ok, λ a' all_due. absurd (ground arith))
        ]
      ]

  last_time-le : {t : ℕ} {turns : List (ℕ × Bool)} → InOrder t turns → t ≤ last_time t turns
  unfolding last_time
  last_time-le none_left = omega arith
  last_time-le (next_turn h f rest) = omega (arith, last_time-le rest)

  send_loop-done :
      (turns : List (ℕ × Bool)) (s : Sending)
      → s.bytes_sent ≡ length all
      → send_loop (length all) turns s ≡ s
  unfolding send_loop
  send_loop-done [] s e = refl
  send_loop-done (turn ∷ turns) s e = ground arith

  send_loop-IsSending :
      (t : ℕ) (turns : List (ℕ × Bool)) (s : Sending)
      → InOrder t turns
      → IsSending all t s
      → IsSending all (last_time t turns) (send_loop (length all) turns s)
        × (delivers (length all) turns ≡ true
            → (send_loop (length all) turns s).bytes_sent ≡ length all)
  unfolding send_loop last_time delivers
  send_loop-IsSending t [] s order ok = (ok, λ d. absurd (ground arith))
  send_loop-IsSending t ((t', accepted) ∷ turns) s (next_turn h f rest) ok =
      let (one, done) = send_once-IsSending t' accepted s f (later h ok) in
      let next = send_once (length all) t' accepted s in
      let (ends, complete) = send_loop-IsSending t' turns next rest one in
      elim (Bool-cases (ltb s.bytes_sent (length all))) [
        | inl e ↦ rw e (
          ends,
          λ d. elim (delivers_cases (length all) t' accepted turns d) [
            | inl (a, due) ↦
                let whole = done a due in
                ap (λ r. r.bytes_sent) (send_loop-done turns next whole) ∙ whole
            | inr later_on ↦ complete later_on
          ],
        )
        | inr e ↦
            rw e (later (omega (arith, h, last_time-le rest)) ok, λ d. ground (arith, ok.in_range))
      ]

take_all : (xs : List ℕ) → take (length xs) xs ≡ xs
take_all [] = refl
take_all (x ∷ xs) = ap (λ l. x ∷ l) (take_all xs)

nothing_sent : (all : List ℕ) → IsSending all 0 (record { bytes_sent = 0; ptr = all; written = [] })
nothing_sent all = record {
  left = refl;
  given = refl;
  in_range = omega arith;
  in_time = omega arith;
}

-- For a table of less than 2 ^ 63 bytes, and whatever turns the loop gets, with a clock that does
-- not go back or beyond 2 ^ 63 microseconds, and whichever writes fail: `bufferevent_write` has taken
-- the table's first `bytes_sent` bytes, each once and in order, and they are no more than the rate
-- allows for the time of the last turn. It has taken the whole table as soon as a write succeeds at
-- a time for which the rate allows it.
pub send_table_data_lem :
    (all : List ℕ) (turns : List (ℕ × Bool))
    → length all < 2 ^ 63
    → InOrder 0 turns
    → let s = send_table_data all turns in
      (s.written ≡ take s.bytes_sent all)
      × (s.bytes_sent ≤ send_bit_rate * last_time 0 turns)
      × (delivers (length all) turns ≡ true → s.written ≡ all)
unfolding send_table_data
send_table_data_lem all turns fits order =
    let (ends, complete) = send_loop-IsSending all fits 0 turns _ order (nothing_sent all) in
    (ends.given, ends.in_time, λ d. ends.given ∙ (ap (λ n. take n all) (complete d) ∙ take_all all))
