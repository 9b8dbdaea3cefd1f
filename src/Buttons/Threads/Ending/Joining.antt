-- ===== src/Buttons/Threads/Ending/Joining.antt =====
-- src/stylusbuttons.cpp: the waits of the destructors come to their end.
use stylus_popup.Prelude.{Bool, true, false, List, [], ◌∷◌, ◌≡◌, refl, sym, ◌∙◌, arith}
use stylus_popup.Buttons.Threads.{
  RunPc, StopPc, Threads, begun, Polled, run_from, stop_from, Turn, run_turn,
}
use stylus_popup.Buttons.Threads
use stylus_popup.Buttons.Threads.Waking.{
  IsWoken, run_from-IsWoken, stop_from-IsWoken, run_turns-ended, begun-IsWoken, not_ended,
}
use stylus_popup.Buttons.Threads.Ending
use stylus_popup.Buttons.Threads.Ending.{
  Ending, EndPc, first_stop, first_wait, second_stop, second_wait, closing, over, starting,
  is_ended, is_stopped, main_from, thread_turn, main_turn, take, take_all,
}

record IsEnding (e : Ending) : Type 0 where
  pub woken : IsWoken e.threads
  pub has : e.threads.has_wake ≡ true
  pub stopped : e.pc ≡ first_wait → e.threads.stop ≡ StopPc.ended

run_from_kept :
    (pc : RunPc) (p : Polled) (t : Threads)
    → let u = run_from pc p t in
      (u.has_wake ≡ t.has_wake) × (u.stop ≡ t.stop) × (u.running ≡ t.running)
unfolding run_from
run_from_kept pc p t = ground arith

stop_from_kept : (pc : StopPc) (t : Threads) → (stop_from pc t).has_wake ≡ t.has_wake
unfolding stop_from
stop_from_kept pc t = ground arith

-- A new call of `stop`, once the thread has ended.
renewed-IsWoken :
    (t : Threads) → t.run ≡ RunPc.ended → IsWoken t → IsWoken (record t { stop = StopPc.clearing })
renewed-IsWoken t e v = record { woken = ground (arith, e); told = ground arith }

main_from-IsEnding : (pc : EndPc) (e : Ending) → e.pc ≡ pc → IsEnding e → IsEnding (main_from pc e)
unfolding main_from
main_from-IsEnding first_stop e at v = record {
  woken = stop_from-IsWoken e.threads.stop e.threads refl v.woken;
  has = stop_from_kept e.threads.stop e.threads ∙ v.has;
  stopped = ground arith;
}
main_from-IsEnding first_wait e at v =
    let renewed = renewed-IsWoken e.threads in ground (arith, renewed, v.woken, v.has, v.stopped)
main_from-IsEnding second_stop e at v = record {
  woken = stop_from-IsWoken e.threads.stop e.threads refl v.woken;
  has = stop_from_kept e.threads.stop e.threads ∙ v.has;
  stopped = ground arith;
}
main_from-IsEnding second_wait e at v = ground (arith, at, v.woken, v.has, v.stopped)
main_from-IsEnding closing e at v = ground (arith, at, v.woken, v.has, v.stopped)
main_from-IsEnding over e at v = v

take_all-IsEnding :
    (turns : List Ending.Turn) (e : Ending) → IsEnding e → IsEnding (take_all turns e)
unfolding take_all take
take_all-IsEnding [] e v = v
take_all-IsEnding (thread_turn p ∷ turns) e v =
    let (has, stop, running) = run_from_kept e.threads.run p e.threads in
    take_all-IsEnding turns _ (record {
      woken = run_from-IsWoken e.threads.run p e.threads refl v.woken;
      has = has ∙ v.has;
      stopped = λ at. stop ∙ v.stopped at;
    })
take_all-IsEnding (main_turn ∷ turns) e v =
    take_all-IsEnding turns _ (main_from-IsEnding e.pc e refl v)

-- The rest of the destructors, once the thread has ended.
main_turns-over :
    (e : Ending)
    → e.pc ≡ first_wait
    → e.threads.run ≡ RunPc.ended
    → (take_all (main_turn ∷ main_turn ∷ main_turn ∷ main_turn ∷ main_turn ∷ []) e).pc ≡ over
unfolding take_all take main_from stop_from
main_turns-over e at done = ground (arith, at, done)

thread_turns-ended :
    (p q r : Polled) (e : Ending)
    → (Threads.take_all (run_turn p ∷ run_turn q ∷ run_turn r ∷ []) e.threads).run ≡ RunPc.ended
    → let f = take_all (thread_turn p ∷ thread_turn q ∷ thread_turn r ∷ []) e in
      (f.pc ≡ e.pc) × (f.threads.run ≡ RunPc.ended)
unfolding take_all take Threads.take_all Threads.take
thread_turns-ended p q r e ended = (refl, ended)

starting-IsEnding : (started : Bool) → IsEnding (starting true started)
starting-IsEnding true = record { woken = begun-IsWoken true; has = refl; stopped = ground arith }
starting-IsEnding false = record {
  woken = record { woken = ground arith; told = ground arith };
  has = refl;
  stopped = ground arith;
}

-- With an eventfd, whatever the turns so far: where the mapper's destructor has stopped the monitor and
-- waits, three turns of the thread, even where its polls find nothing else, and five of the main
-- thread bring the destructors to their end.
pub take_all-over :
    (started : Bool) (turns : List Ending.Turn) (p q r : Polled)
    → let e = take_all turns (starting true started) in
      e.pc ≡ first_wait
      → (take_all
          (thread_turn p
            ∷ thread_turn q
            ∷ thread_turn r
            ∷ main_turn
            ∷ main_turn
            ∷ main_turn
            ∷ main_turn
            ∷ main_turn
            ∷ [])
          e).pc
        ≡ over
take_all-over started turns p q r at =
    let e = take_all turns (starting true started) in
    let v = take_all-IsEnding turns (starting true started) (starting-IsEnding started) in
    let off = v.woken.told (λ c. not_ended (sym (v.stopped at) ∙ c)) in
    let ended =
      run_turns-ended e.threads.run p q r e.threads refl off v.has
        (λ polling. ground (arith, v.stopped at, v.woken.woken v.has off polling)) in
    let (still, done) = thread_turns-ended p q r e ended in
    let f = take_all (thread_turn p ∷ thread_turn q ∷ thread_turn r ∷ []) e in
    unfold take_all in main_turns-over f (still ∙ at) done
