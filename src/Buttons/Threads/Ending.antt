-- ===== src/Buttons/Threads/Ending.antt =====
-- src/stylusbuttons.cpp: the end of the mapper and of its monitor, beside the monitor's thread. The
-- mapper's destructor stops the monitor and waits; then Qt destroys the monitor, which does both again
-- and closes the eventfd. A wait lasts until the thread has ended, or is over at once where it was
-- never started.
pub mod Joining
mod Tests
use stylus_popup.Prelude.{
  ℕ, zero, suc, ◌+◌, ◌≤◌, ◌<◌, Bool, true, false, ◌&&◌, ◌⊎◌, inl, inr, Bool-cases, List, [], ◌∷◌,
  ◌≡◌, refl, arith, ltb, if◌then◌else◌,
}
use stylus_popup.Buttons.Threads.{
  RunPc, StopPc, Threads, begun, Polled, nothing, something, interrupted, failed, run_from,
  stop_from,
}

-- Where the main thread stands: in the first `stop` and its wait, in the second ones, before the
-- `close`, or after it.
pub data EndPc : Type 0 where
  first_stop first_wait second_stop second_wait closing over : EndPc

-- `closes` counts the closings of the eventfd, and `late` the accesses that come after one.
pub record Ending : Type 0 where
  pub threads : Threads
  pub pc : EndPc
  pub closes : ℕ
  pub late : ℕ

abbrev pub is_ended : RunPc → Bool
is_ended RunPc.ended = true
is_ended pc = false

abbrev pub is_stopped : StopPc → Bool
is_stopped StopPc.ended = true
is_stopped pc = false

-- Where the thread was started or not.
abbrev pub starting : (has_wake started : Bool) → Ending
starting has_wake started = record {
  threads = record (begun has_wake) { run = if started then RunPc.testing else RunPc.ended };
  pc = first_stop;
  closes = 0;
  late = 0;
}

-- Whether a turn of the thread, or of `stop`, is an access of the eventfd: a poll over it, a read of
-- it, or a write to it.
abbrev pub run_touches : RunPc → Bool
run_touches RunPc.polling = true
run_touches (RunPc.polled woken) = woken
run_touches pc = false

abbrev pub stop_touches : StopPc → Bool
stop_touches StopPc.writing = true
stop_touches pc = false

-- One more access, which is late where the eventfd is closed.
abbrev pub touched : Bool → Ending → ℕ
touched touches e = if touches && e.threads.has_wake && ltb 0 e.closes then e.late + 1 else e.late

abbrev pub stopping : EndPc → EndPc → Ending → Ending
stopping here next e =
    let t = stop_from e.threads.stop e.threads in
    record e {
      threads = t;
      pc = if is_stopped t.stop then next else here;
      late = touched (stop_touches e.threads.stop) e;
    }

abbrev pub waiting : EndPc → Ending → Ending
waiting next e = if is_ended e.threads.run then record e { pc = next } else e

-- One step of the main thread.
unfoldable pub main_from : EndPc → Ending → Ending
main_from first_stop e = stopping first_stop first_wait e
main_from first_wait e =
    if is_ended e.threads.run
    then record e { threads = record e.threads { stop = StopPc.clearing }; pc = second_stop }
    else e
main_from second_stop e = stopping second_stop second_wait e
main_from second_wait e = waiting closing e
main_from closing e =
    if e.threads.has_wake
    then record e { pc = over; closes = e.closes + 1 }
    else record e { pc = over }
main_from over e = e

pub data Turn : Type 0 where
  thread_turn : Polled → Turn
  main_turn : Turn

unfoldable pub take : Turn → Ending → Ending
take (thread_turn p) e = record e {
  threads = run_from e.threads.run p e.threads;
  late = touched (run_touches e.threads.run) e;
}
take main_turn e = main_from e.pc e

unfoldable pub take_all : List Turn → Ending → Ending
take_all [] e = e
take_all (turn ∷ turns) e = take_all turns (take turn e)

-- Whether the second wait is over.
abbrev is_joined : EndPc → Bool
is_joined second_stop = true
is_joined second_wait = true
is_joined closing = true
is_joined over = true
is_joined pc = false

abbrev pub is_over : EndPc → Bool
is_over over = true
is_over pc = false

gone_joined : (pc : EndPc) → is_over pc ≡ true → is_joined pc ≡ true
gone_joined pc gone = ground (arith, gone)

record IsOrderly (has_wake : Bool) (e : Ending) : Type 0 where
  pub kept : e.threads.has_wake ≡ has_wake
  pub joined : is_joined e.pc ≡ true → e.threads.run ≡ RunPc.ended
  pub open_before : is_over e.pc ≡ false → e.closes ≡ 0
  pub closed : is_over e.pc ≡ true → e.closes ≡ (if has_wake then 1 else 0)
  pub in_time : e.late ≡ 0

main_from-IsOrderly :
    (has_wake : Bool) (pc : EndPc) (e : Ending)
    → e.pc ≡ pc
    → IsOrderly has_wake e
    → IsOrderly has_wake (main_from pc e)
unfolding main_from stop_from
main_from-IsOrderly w first_stop e at v =
    ground (arith, at, v.kept, v.joined, v.open_before, v.closed, v.in_time)
main_from-IsOrderly w first_wait e at v =
    ground (arith, at, v.kept, v.joined, v.open_before, v.closed, v.in_time)
main_from-IsOrderly w second_stop e at v =
    ground (arith, at, v.kept, v.joined, v.open_before, v.closed, v.in_time)
main_from-IsOrderly w second_wait e at v =
    ground (arith, at, v.kept, v.joined, v.open_before, v.closed, v.in_time)
main_from-IsOrderly w closing e at v =
    ground (arith, at, v.kept, v.joined, v.open_before, v.closed, v.in_time)
main_from-IsOrderly w over e at v = v

run_turn-IsOrderly :
    (has_wake : Bool) (p : Polled) (pc : RunPc) (e : Ending)
    → e.threads.run ≡ pc
    → IsOrderly has_wake e
    → IsOrderly has_wake
        (record e { threads = run_from pc p e.threads; late = touched (run_touches pc) e })
unfolding run_from
run_turn-IsOrderly w p RunPc.testing e at v =
    ground (arith, at, v.kept, v.joined, v.open_before, v.closed, v.in_time)
run_turn-IsOrderly w p RunPc.polling e at v =
    ground (arith, at, v.kept, v.joined, v.open_before, v.closed, v.in_time)
run_turn-IsOrderly w p (RunPc.polled true) e at v =
    ground (arith, at, v.kept, v.joined, v.open_before, v.closed, v.in_time)
run_turn-IsOrderly w p (RunPc.polled false) e at v =
    ground (arith, at, v.kept, v.joined, v.open_before, v.closed, v.in_time)
run_turn-IsOrderly w p RunPc.ended e at v =
    ground (arith, at, v.kept, v.joined, v.open_before, v.closed, v.in_time)

take_all-IsOrderly :
    (has_wake : Bool) (turns : List Turn) (e : Ending)
    → IsOrderly has_wake e
    → IsOrderly has_wake (take_all turns e)
unfolding take_all take
take_all-IsOrderly w [] e v = v
take_all-IsOrderly w (thread_turn p ∷ turns) e v =
    take_all-IsOrderly w turns _ (run_turn-IsOrderly w p e.threads.run e refl v)
take_all-IsOrderly w (main_turn ∷ turns) e v =
    take_all-IsOrderly w turns _ (main_from-IsOrderly w e.pc e refl v)

-- Whatever the order of the turns of the two threads, and whatever the polls find, with an eventfd or
-- without one, and with the thread started or not: no poll, read or write is of an eventfd that is
-- closed; it is not closed before the thread has ended; and one that was made is closed once when
-- the monitor is gone, and not before.
pub take_all-closes_last :
    (has_wake started : Bool) (turns : List Turn)
    → let e = take_all turns (starting has_wake started) in
      (e.late ≡ 0)
      × ((e.closes ≡ 0) ⊎ (e.threads.run ≡ RunPc.ended))
      × (e.closes ≡ (if is_over e.pc && has_wake then 1 else 0))
take_all-closes_last has_wake started turns =
    let e = take_all turns (starting has_wake started) in
    let v = take_all-IsOrderly has_wake turns (starting has_wake started) (record {
      kept = refl;
      joined = ground arith;
      open_before = ground arith;
      closed = ground arith;
      in_time = refl;
    }) in
    elim (Bool-cases (is_over e.pc)) [
      | inl gone ↦ (v.in_time, inr (v.joined (gone_joined e.pc gone)), rw gone (v.closed gone))
      | inr left ↦ (v.in_time, inl (v.open_before left), rw left (v.open_before left))
    ]
