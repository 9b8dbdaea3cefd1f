-- ===== src/Buttons/Threads/Waking.antt =====
-- src/stylusbuttons.cpp: a thread that is told to stop wakes up and ends.
use stylus_popup.Prelude.{
  ◌<◌, Bool, true, false, List, [], ◌∷◌, ◌≡◌, ◌≢◌, ◌⊎◌, refl, sym, ◌∙◌, arith,
}
use stylus_popup.Buttons.Threads.{
  RunPc, StopPc, Threads, begun, Polled, nothing, something, interrupted, failed, run_from,
  stop_from, Turn, run_turn, stop_turn, take, take_all,
}

-- A thread that was told to stop, in a poll, has a report to wake up to, or `stop` will write it.
pub record IsWoken (t : Threads) : Type 0 where
  pub woken :
      t.has_wake ≡ true
      → t.running ≡ false
      → t.run ≡ RunPc.polling
      → (0 < t.wake) ⊎ (t.stop ≡ StopPc.writing)
  pub told : t.stop ≢ StopPc.clearing → t.running ≡ false

pub run_from-IsWoken :
    (pc : RunPc) (p : Polled) (t : Threads) → t.run ≡ pc → IsWoken t → IsWoken (run_from pc p t)
unfolding run_from
run_from-IsWoken RunPc.testing p t e v = ground (arith, e, v.woken, v.told)
run_from-IsWoken RunPc.polling nothing t e v = ground (arith, e, v.woken, v.told)
run_from-IsWoken RunPc.polling something t e v = ground (arith, e, v.woken, v.told)
run_from-IsWoken RunPc.polling interrupted t e v = ground (arith, e, v.woken, v.told)
run_from-IsWoken RunPc.polling failed t e v = ground (arith, e, v.woken, v.told)
run_from-IsWoken (RunPc.polled true) p t e v = ground (arith, e, v.woken, v.told)
run_from-IsWoken (RunPc.polled false) p t e v = ground (arith, e, v.woken, v.told)
run_from-IsWoken RunPc.ended p t e v = v

pub stop_from-IsWoken :
    (pc : StopPc) (t : Threads) → t.stop ≡ pc → IsWoken t → IsWoken (stop_from pc t)
unfolding stop_from
stop_from-IsWoken StopPc.clearing t e v = ground (arith, e, v.woken, v.told)
stop_from-IsWoken StopPc.writing t e v = ground (arith, e, v.woken, v.told)
stop_from-IsWoken StopPc.ended t e v = ground (arith, e, v.woken, v.told)

take_all-IsWoken : (turns : List Turn) (t : Threads) → IsWoken t → IsWoken (take_all turns t)
unfolding take_all take
take_all-IsWoken [] t v = v
take_all-IsWoken (run_turn p ∷ turns) t v =
    take_all-IsWoken turns _ (run_from-IsWoken t.run p t refl v)
take_all-IsWoken (stop_turn ∷ turns) t v =
    take_all-IsWoken turns _ (stop_from-IsWoken t.stop t refl v)

pub begun-IsWoken : (has_wake : Bool) → IsWoken (begun has_wake)
begun-IsWoken has_wake = record { woken = ground arith; told = ground arith }

pub run_turns-ended :
    (pc : RunPc) (p q r : Polled) (t : Threads)
    → t.run ≡ pc
    → t.running ≡ false
    → t.has_wake ≡ true
    → (pc ≡ RunPc.polling → 0 < t.wake)
    → (take_all (run_turn p ∷ run_turn q ∷ run_turn r ∷ []) t).run ≡ RunPc.ended
unfolding take_all take run_from
run_turns-ended RunPc.testing p q r t e off has up = ground (arith, e, off)
run_turns-ended RunPc.polling nothing q r t e off has up = ground (arith, e, off, has, up refl)
run_turns-ended RunPc.polling something q r t e off has up = ground (arith, e, off, has, up refl)
run_turns-ended RunPc.polling interrupted q r t e off has up = ground (arith, e, off, has, up refl)
run_turns-ended RunPc.polling failed q r t e off has up = ground (arith, e, off, has, up refl)
run_turns-ended (RunPc.polled true) p q r t e off has up = ground (arith, e, off)
run_turns-ended (RunPc.polled false) p q r t e off has up = ground (arith, e, off)
run_turns-ended RunPc.ended p q r t e off has up = ground (arith, e)

run_from-has_wake :
    (pc : RunPc) (p : Polled) (t : Threads) → (run_from pc p t).has_wake ≡ t.has_wake
unfolding run_from
run_from-has_wake pc p t = ground arith

stop_from-has_wake : (pc : StopPc) (t : Threads) → (stop_from pc t).has_wake ≡ t.has_wake
unfolding stop_from
stop_from-has_wake pc t = ground arith

take_all-has_wake : (turns : List Turn) (t : Threads) → (take_all turns t).has_wake ≡ t.has_wake
unfolding take_all take
take_all-has_wake [] t = refl
take_all-has_wake (run_turn p ∷ turns) t = take_all-has_wake turns _ ∙ run_from-has_wake t.run p t
take_all-has_wake (stop_turn ∷ turns) t = take_all-has_wake turns _ ∙ stop_from-has_wake t.stop t

pub not_ended : StopPc.ended ≢ StopPc.clearing
not_ended = ground arith

-- Whatever the turns so far, with an eventfd: once `stop` has come to its end, the thread ends with
-- three of its turns, even where its polls find nothing else.
take_all-wakes :
    (turns : List Turn) (p q r : Polled)
    → let t = take_all turns (begun true) in
      t.stop ≡ StopPc.ended
      → (take_all (run_turn p ∷ run_turn q ∷ run_turn r ∷ []) t).run ≡ RunPc.ended
take_all-wakes turns p q r e =
    let t = take_all turns (begun true) in
    let has = take_all-has_wake turns (begun true) in
    let v = take_all-IsWoken turns (begun true) (begun-IsWoken true) in
    let off = v.told (λ c. not_ended (sym e ∙ c)) in
    run_turns-ended t.run p q r t refl off has
      (λ polling. ground (arith, e, v.woken has off polling))
